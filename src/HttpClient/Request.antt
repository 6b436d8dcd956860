-- ===== src/HttpClient/Request.antt =====
-- The requests of pkg/httpclient/httpclient.go with their retries. net/http and net/url are parameters;
-- what the network answers is given for each attempt, and what a call does to it comes back as a list of
-- events. The product of a duration with a number wraps around.
use go_admin.Common.{
  ℕ, zero, suc, ◌-◌, ◌*◌, ◌%◌, Bool, ◌⊎◌, inl, inr, Option, none, some, List, [], ◌∷◌, ◌++◌, Bytes,
  bytes, ℤ, pos, negsuc, ltb, leb, if◌then◌else◌, text_eq, nat_eq, assign,
}
use go_admin.Outcome.{Error}
use go_admin.HttpClient.Client.{Found, Client, Headers, is_retriable_error}

-- requestSpec
pub record RequestSpec : Type 0 where
  pub method : Bytes
  pub url : Bytes
  pub body : Option Bytes

-- A body: none, a reader with what io.ReadAll gives for it, or a value with what json.Marshal does.
pub data Body : Type 0 where
  no_body : Body
  reader value : Error ⊎ Bytes → Body

-- A response: its code, and what io.ReadAll of its body gives, the bytes and the error.
pub record Response : Type 0 where
  pub status_code : ℕ
  pub body : Bytes
  pub body_error : Option Error

-- The error behind the last attempt: nil, one of the http.Client, or a statusError.
pub data LastError : Type 0 where
  nil : LastError
  of_client : Error → LastError
  of_status : ℕ → LastError

-- ErrInvalidURL, ErrJSONMarshal, ErrStatusNotOK, ErrJSONUnmarshal and ErrEmptyResponseBody with
-- what is printed behind them, the error of the last attempt, and errors that are handed on.
pub data ClientError : Type 0 where
  invalid_url json_marshal handed_on : Error → ClientError
  exhausted : ℤ → LastError → ClientError
  status_not_ok : ℕ → Bytes → ClientError
  json_unmarshal : Error → Bytes → ClientError
  empty_response_body : ClientError

pub data Result {ℓ} (A : Type ℓ) : Type ℓ where
  done : A → Result A
  failed : ClientError → Result A

-- What a request does: it sends with some headers, waits, and closes the body of the response of an
-- attempt, or of the one that was returned.
pub data Event : Type 0 where
  sent : RequestSpec → Headers → Event
  waited : ℤ → Event
  closed : ℕ → Event
  closed_returned : Event

-- The libraries: url.Parse followed by String with a query put in if there is one, what errors.As
-- finds, NewRequestWithContext, and json.Unmarshal, whose first argument is whether there is a value
-- to fill.
pub record Library : Type 0 where
  pub parse_url : Bytes → Option Bytes → Error ⊎ Bytes
  pub found : Error → Found
  pub refused : RequestSpec → Option Error
  pub unmarshal : Bool → Bytes → Option Error

-- What a request meets: the answers to its attempts, whether the context is done while it waits
-- before one, and the calls of SetHeader that others have made by then.
pub record Network : Type 0 where
  pub reply : ℕ → Error ⊎ Response
  pub cancelled : ℕ → Option Error
  pub set_by : ℕ → Headers

abbrev marshalled : Error ⊎ Bytes → Result (Option Bytes)
marshalled (inl e) = failed (json_marshal e)
marshalled (inr b) = done (some b)

abbrev read_all : Error ⊎ Bytes → Result (Option Bytes)
read_all (inl e) = failed (handed_on e)
read_all (inr b) = done (some b)

-- serializeBody
unfoldable pub serialize_body : Body → Result (Option Bytes)
serialize_body no_body = done none
serialize_body (reader r) = read_all r
serialize_body (value r) = marshalled r

abbrev spec_of : Bytes → Bytes → Result (Option Bytes) → Result RequestSpec
spec_of method url (done b) = done (record { method = method; url = url; body = b })
spec_of method url (failed e) = failed e

abbrev spec_at : Bytes → Error ⊎ Bytes → Body → Result RequestSpec
spec_at method (inl e) body = failed (invalid_url e)
spec_at method (inr url) body = spec_of method url (serialize_body body)

-- int64: the bit pattern of a number, and the number of a bit pattern.
abbrev pub word_of : ℤ → ℕ
word_of (pos n) = n % 18446744073709551616
word_of (negsuc n) = 18446744073709551615 - n % 18446744073709551616

abbrev pub of_word : ℕ → ℤ
of_word w = if ltb w 9223372036854775808 then pos w else negsuc (18446744073709551615 - w)

-- 1 << n, before it is cut to a word.
abbrev pub pow2 : ℕ → ℕ
pow2 zero = 1
pow2 (suc n) = 2 * pow2 n

-- The duration in waitBackoff: c.backoff * time.Duration(1<<(attempt-1)).
unfoldable pub delay : ℤ → ℕ → ℤ
delay backoff attempt =
    of_word ((word_of backoff * (pow2 (attempt - 1) % 18446744073709551616)) % 18446744073709551616)

-- The headers behind some calls of SetHeader.
abbrev pub set_all : Headers → Headers → Headers
set_all [] m = m
set_all ((k, v) ∷ calls) m = set_all calls (assign k v m)

-- A run: what it answers and what it has done, in order.
abbrev pub Run : Type 0 → Type 0
Run A = Result A × List Event

abbrev pub behind : {A : Type 0} → List Event → Run A → Run A
behind es (r, rest) = (r, es ++ rest)

-- How often the loop of request runs: for attempt := 0; attempt <= c.retries; attempt++
abbrev pub rounds : ℤ → ℕ
rounds (pos n) = suc n
rounds (negsuc n) = 0

module _ (lib : Library) where
  -- buildRequestSpec
  unfoldable pub build_request_spec :
      Client → Bytes → Bytes → Option Bytes → Body → Result RequestSpec
  unfolding serialize_body
  build_request_spec c method path params body =
      spec_at method (lib.parse_url (c.base_url ++ path) params) body

  module _ (net : Network) (c : Client) (spec : RequestSpec) where
    -- What the answer to attempt `n` leads to: the end, or `next` with the error to remember.
    abbrev pub after_reply : ℕ → Error ⊎ Response → (LastError → Run Response) → Run Response
    after_reply n (inl e) next =
        if is_retriable_error (some (lib.found e))
        then next (of_client e)
        else (failed (handed_on e), [])
    after_reply n (inr r) next =
        if leb 500 r.status_code
        then behind (closed n ∷ []) (next (of_status r.status_code))
        else (done r, [])

    abbrev pub send : ℕ → Option Error → (LastError → Run Response) → Run Response
    send n (some e) next = (failed (handed_on e), [])
    send n none next =
        behind (sent spec (set_all (net.set_by n) c.headers) ∷ [])
          (after_reply n (net.reply n) next)

    abbrev pub go_on : ℕ → Option Error → (LastError → Run Response) → Run Response
    go_on n (some e) next = (failed (handed_on e), [])
    go_on n none next = send n (lib.refused spec) next

    -- waitBackoff before attempt `n`, if it is not the first
    abbrev pub wait_and_send : ℕ → (LastError → Run Response) → Run Response
    wait_and_send zero next = send zero (lib.refused spec) next
    wait_and_send (suc n) next =
        behind (waited (delay c.backoff (suc n)) ∷ []) (go_on (suc n) (net.cancelled (suc n)) next)

    -- The loop of request, with `left` attempts to go.
    unfoldable pub attempts : ℕ → ℕ → LastError → Run Response
    unfolding is_retriable_error delay
    attempts zero n last = (failed (exhausted c.retries last), [])
    attempts (suc left) n last = wait_and_send n (λ e. attempts left (suc n) e)

  abbrev pub with_spec : Network → Client → Result RequestSpec → Run Response
  with_spec net c (failed e) = (failed e, [])
  with_spec net c (done spec) = attempts net c spec (rounds c.retries) 0 nil

  -- request
  unfoldable pub request : Network → Client → Bytes → Bytes → Option Bytes → Body → Run Response
  unfolding attempts build_request_spec
  request net c method path params body =
      with_spec net c (build_request_spec c method path params body)

  -- Get, Post, Put, Delete
  unfoldable pub get : Network → Client → Bytes → Option Bytes → Run Response
  unfolding request
  get net c path params = request net c (bytes "GET") path params no_body

  unfoldable pub post : Network → Client → Bytes → Body → Run Response
  unfolding request
  post net c path body = request net c (bytes "POST") path none body

  unfoldable pub put : Network → Client → Bytes → Body → Run Response
  unfolding request
  put net c path body = request net c (bytes "PUT") path none body

  unfoldable pub delete : Network → Client → Bytes → Run Response
  unfolding request
  delete net c path = request net c (bytes "DELETE") path none no_body
