-- ===== src/Router.antt =====
-- internal/platform/router: names to paths, routes in groups, and the chain of steps of a request.
pub mod Paths
pub mod RoundTrip
pub mod Group
pub mod Chain
pub mod Register
