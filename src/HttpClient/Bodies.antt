-- ===== src/HttpClient/Bodies.antt =====
-- request of pkg/httpclient/httpclient.go: how often it sends, and which bodies it closes.
use go_admin.Common.{
  ℕ, zero, suc, ◌+◌, ◌≤◌, ◌<◌, ◌≡◌, refl, Bool, true, false, ◌⊎◌, inl, inr, Option, none, some, [],
  ◌∷◌, Bytes, if◌then◌else◌, arith,
}
use go_admin.Outcome.{Error}
use go_admin.HttpClient.Client.{Client, is_retriable_error}
use go_admin.HttpClient.Request.{
  RequestSpec, Response, LastError, nil, of_client, of_status, handed_on, Result, done, failed,
  waited, Library, Network, Run, Body, delay, behind, attempts, after_reply, send, go_on,
  wait_and_send, with_spec, request, build_request_spec, rounds,
}
use go_admin.HttpClient.Events.{sends, closes}

abbrev pub response : Error ⊎ Response → ℕ
response (inl e) = 0
response (inr r) = 1

-- The number of responses among the answers to the attempts from `n` on, m of them.
abbrev pub responses : (ℕ → Error ⊎ Response) → ℕ → ℕ → ℕ
responses reply n zero = 0
responses reply n (suc m) = response (reply n) + responses reply (suc n) m

-- 1 for a response that is handed to the caller, with its body open.
abbrev pub returned : Result Response → ℕ
returned (done r) = 1
returned (failed e) = 0

abbrev pub IsFine : Result Response → Type 0
IsFine (done r) = r.status_code < 500
IsFine (failed e) = Unit

-- A run of attempts from `n` on: at most `left` requests are sent, the body of every response but
-- the one that is returned is closed, and that one has a code below 500.
abbrev pub IsTidy : Network → ℕ → ℕ → Run Response → Type 0
IsTidy net n left x =
    (sends x.1 ≤ left)
    × (closes x.1 + returned x.0 ≡ responses net.reply n (sends x.1))
    × IsFine x.0

module _ (lib : Library) (net : Network) (c : Client) (spec : RequestSpec) where
  Sent : ℕ → Error ⊎ Response → ℕ → Run Response → Type 0
  Sent n reply left y =
      (sends y.1 ≤ left)
      × (closes y.1 + returned y.0 ≡ response reply + responses net.reply (suc n) (sends y.1))
      × IsFine y.0

  after_reply-Sent :
      (n left : ℕ) (x : Error ⊎ Response) (next : LastError → Run Response)
      → ((e : LastError) → IsTidy net (suc n) left (next e))
      → Sent n x left (after_reply lib net c spec n x next)
  unfolding Sent
  after_reply-Sent n left (inl e) next h = go (is_retriable_error (some (lib.found e)))
    where
      go :
          (b : Bool)
          → Sent n (inl e) left (if b then next (of_client e) else (failed (handed_on e), []))
      go true = let (s, k, f) = h (of_client e) in (s, omega arith, f)
      go false = (omega arith, refl, tt)
  after_reply-Sent n left (inr r) next h = ground (arith, h (of_status r.status_code))

  send-IsTidy :
      (n left : ℕ) (o : Option Error) (next : LastError → Run Response)
      → ((e : LastError) → IsTidy net (suc n) left (next e))
      → IsTidy net n (suc left) (send lib net c spec n o next)
  unfolding Sent
  send-IsTidy n left (some e) next h = (omega arith, refl, tt)
  send-IsTidy n left none next h =
      let (s, k, f) = after_reply-Sent n left (net.reply n) next h in (omega arith, k, f)

  round-IsTidy :
      (n left : ℕ) (next : LastError → Run Response)
      → ((e : LastError) → IsTidy net (suc n) left (next e))
      → IsTidy net n (suc left) (wait_and_send lib net c spec n next)
  round-IsTidy zero left next h = send-IsTidy zero left (lib.refused spec) next h
  round-IsTidy (suc n) left next h = go (net.cancelled (suc n))
    where
      go :
          (o : Option Error)
          → IsTidy net
              (suc n)
              (suc left)
              (behind (waited (delay c.backoff (suc n)) ∷ []) (go_on lib net c spec (suc n) o next))
      go (some e) = (omega arith, refl, tt)
      go none = send-IsTidy (suc n) left (lib.refused spec) next h

  attempts-IsTidy :
      (left n : ℕ) (last : LastError) → IsTidy net n left (attempts lib net c spec left n last)
  unfolding attempts
  attempts-IsTidy zero n last = (omega arith, refl, tt)
  attempts-IsTidy (suc left) n last =
      round-IsTidy n left (λ e. attempts lib net c spec left (suc n) e)
        (λ e. attempts-IsTidy left (suc n) e)

module _ (lib : Library) (net : Network) (c : Client) (method path : Bytes) (params : Option Bytes)
    (body : Body) where
  -- In every run of request: it sends at most retries + 1 times, and not at all if that is
  -- negative; the bodies that it closed and the one that it returned are as many as the responses
  -- that it got for what it sent; and the code of a response that it returns is below 500.
  pub request-IsTidy : IsTidy net 0 (rounds c.retries) (request lib net c method path params body)
  unfolding request
  request-IsTidy = go (build_request_spec lib c method path params body)
    where
      go : (s : Result RequestSpec) → IsTidy net 0 (rounds c.retries) (with_spec lib net c s)
      go (failed e) = (omega arith, refl, tt)
      go (done spec) = attempts-IsTidy lib net c spec (rounds c.retries) 0 nil
