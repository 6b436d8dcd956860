-- ===== src/HttpClient/Client.antt =====
-- The client of pkg/httpclient/httpclient.go: its options, its default headers, and which errors it
-- tries again after. Durations are int64 nanoseconds.
use go_admin.Common.{
  ℕ, Bool, true, false, Option, none, some, List, [], ◌∷◌, Bytes, bytes, ℤ, pos, ◌&&◌, ◌||◌, ltb,
  leb, if◌then◌else◌, ◌==◌, text_eq, nat_eq, find, assign,
}

-- What errors.As finds in an error: the code of a statusError, the Op of a *net.OpError, and what
-- Timeout() of a net.Error answers.
pub record Found : Type 0 where
  pub status : Option ℕ
  pub op : Option Bytes
  pub timeout : Option Bool

abbrev by_timeout : Option Bool → Bool
by_timeout none = false
by_timeout (some b) = b

abbrev is_transport : Bytes → Bool
is_transport op = op == bytes "dial" || (op == bytes "read" || op == bytes "write")

abbrev by_op : Option Bytes → Option Bool → Bool
by_op none timeout = by_timeout timeout
by_op (some op) timeout = if is_transport op then true else by_timeout timeout

abbrev by_status : Option ℕ → Option Bytes → Option Bool → Bool
by_status (some code) op timeout = leb 500 code && ltb code 600
by_status none op timeout = by_op op timeout

-- IsRetriableError; `none` is the error nil.
unfoldable pub is_retriable_error : Option Found → Bool
is_retriable_error none = false
is_retriable_error (some e) = by_status e.status e.op e.timeout

-- The map of the default headers.
abbrev pub Headers : Type 0
Headers = List (Bytes × Bytes)

-- Client; of the http.Client its timeout, and which one it is.
pub record Client : Type 0 where
  pub base_url : Bytes
  pub http_client : ℕ
  pub timeout : ℤ
  pub retries : ℤ
  pub backoff : ℤ
  pub headers : Headers

-- Option: WithTimeout, WithRetries, WithBackoff, WithHeader, and WithHTTPClient, which brings a
-- client with a timeout of its own.
pub data ClientOption : Type 0 where
  with_timeout with_retries with_backoff : ℤ → ClientOption
  with_header : Bytes → Bytes → ClientOption
  with_http_client : ℕ → ℤ → ClientOption

abbrev pub apply_option : ClientOption → Client → Client
apply_option (with_timeout d) c = record c { timeout = d }
apply_option (with_retries n) c = record c { retries = n }
apply_option (with_backoff d) c = record c { backoff = d }
apply_option (with_header k v) c = record c { headers = assign k v c.headers }
apply_option (with_http_client h d) c = record c { http_client = h; timeout = d }

abbrev pub apply_options : List ClientOption → Client → Client
apply_options [] c = c
apply_options (o ∷ os) c = apply_options os (apply_option o c)

abbrev pub content_type : Bytes
content_type = bytes "Content-Type"

abbrev with_content_type : Option Bytes → Client → Client
with_content_type (some _) c = c
with_content_type none c = record c {
  headers = assign content_type (bytes "application/json") c.headers;
}

-- NewClient; the http.Client number 0 is the one that it makes.
unfoldable pub new_client : Bytes → List ClientOption → Client
new_client base_url opts =
    let c : Client = apply_options opts (record {
      base_url = base_url;
      http_client = 0;
      timeout = pos 30000000000;
      retries = pos 3;
      backoff = pos 500000000;
      headers = [];
    }) in
    with_content_type (find content_type c.headers) c

-- SetHeader
unfoldable pub set_header : Bytes → Bytes → Client → Client
set_header key value c = record c { headers = assign key value c.headers }
