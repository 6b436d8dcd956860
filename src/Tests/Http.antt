-- ===== src/Tests/Http.antt =====
-- pkg/httpclient/httpclient.go over a service that is refused, fails, and then answers.
use go_admin.Common.{
  ℕ, zero, suc, ◌<◌, ◌≡◌, refl, true, false, ◌⊎◌, inl, inr, none, some, [], ◌∷◌, bytes, pos, negsuc,
  arith, text_eq, nat_eq, assign, find, erase,
}
use go_admin.Outcome.{Error, outside}
use go_admin.HttpClient.Client.{Found, Client, new_client, is_retriable_error}
use go_admin.HttpClient.Request.{
  RequestSpec, Response, done, failed, Library, Network, no_body, delay, build_request_spec,
  request, attempts, get, empty_response_body, serialize_body,
}
use go_admin.HttpClient.Json.{get_json, handle_json_response, decode_json}
use go_admin.HttpClient.Events.{sends, waits}
use go_admin.HttpClient.Answers.{doublings, answer, is_transient, request_answers}
use go_admin.HttpClient.Bodies.{request-IsTidy, IsTidy}

abbrev refused_connection : Found
refused_connection = record { status = none; op = some (bytes "dial"); timeout = some false }

abbrev lookup_failed : Found
lookup_failed = record { status = none; op = some (bytes "lookup"); timeout = some false }

abbrev library : Library
library = record {
  parse_url = λ url query. inr url;
  found = λ e. refused_connection;
  refused = λ spec. none;
  unmarshal = λ wanted b. none;
}

abbrev unavailable : Response
unavailable = record { status_code = 503; body = []; body_error = none }

abbrev answered : Response
answered = record { status_code = 200; body = bytes "{}"; body_error = none }

abbrev reply_of : ℕ → Error ⊎ Response
reply_of zero = inl (outside 1)
reply_of (suc zero) = inr unavailable
reply_of (suc (suc n)) = inr answered

abbrev network : Network
network = record { reply = reply_of; cancelled = λ n. none; set_by = λ n. [] }

abbrev client : Client
client = record {
  base_url = bytes "http://a";
  http_client = 0;
  timeout = pos 30000000000;
  retries = pos 3;
  backoff = pos 500000000;
  headers = (bytes "Content-Type", bytes "application/json") ∷ [];
}

abbrev spec : RequestSpec
spec = record { method = bytes "GET"; url = bytes "http://a/x"; body = none }

new_client_default : new_client (bytes "http://a") [] ≡ client
unfolding new_client assign find erase
new_client_default = refl

-- A failed look-up of a name is not tried again.
lookup_is_final : is_retriable_error (some lookup_failed) ≡ false
unfolding is_retriable_error
lookup_is_final = refl

dial_is_retriable : is_retriable_error (some refused_connection) ≡ true
unfolding is_retriable_error
dial_is_retriable = refl

-- The wait before the attempt number 36 with the default backoff has wrapped around.
delay_wraps : delay (pos 500000000) 36 ≡ negsuc 1266874889709551615
unfolding delay
delay_wraps = refl

run_get :
    get_json library network client (bytes "/x") none true
    ≡ (done (some (bytes "{}")), (get_json library network client (bytes "/x") none true).1)
unfolding get_json get decode_json handle_json_response request attempts build_request_spec
    serialize_body is_retriable_error delay
run_get = refl

empty_body :
    handle_json_response library (record { status_code = 204; body = []; body_error = none }) true
    ≡ failed empty_response_body
unfolding handle_json_response
empty_body = refl

quiet_until : (i : ℕ) → i < 2 → is_transient library (reply_of i) ≡ true
unfolding is_retriable_error
quiet_until zero h = refl
quiet_until (suc zero) h = refl
quiet_until (suc (suc n)) h = absurd (omega arith)

built : build_request_spec library client (bytes "GET") (bytes "/x") none no_body ≡ done spec
unfolding build_request_spec serialize_body
built = refl

request_answers_example :
    let x = request library network client (bytes "GET") (bytes "/x") none no_body in
    (x.0 ≡ answer (reply_of 2)) × (sends x.1 ≡ 3) × (waits x.1 ≡ doublings 500000000 0 2)
request_answers_example =
    request_answers library network client (bytes "GET") (bytes "/x") none no_body spec 500000000 3
      2 built refl refl (omega arith) refl (omega arith) (λ i h. refl) quiet_until refl

request-IsTidy_example :
    let x = request library network client (bytes "GET") (bytes "/x") none no_body in
    IsTidy network 0 4 x
request-IsTidy_example =
    request-IsTidy library network client (bytes "GET") (bytes "/x") none no_body
