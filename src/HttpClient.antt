-- ===== src/HttpClient.antt =====
-- pkg/httpclient/httpclient.go: a client that retries.
pub mod Client
pub mod Request
pub mod Json
pub mod Delay
pub mod Events
pub mod Answers
pub mod Bodies
