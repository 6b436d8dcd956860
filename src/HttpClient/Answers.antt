-- ===== src/HttpClient/Answers.antt =====
-- request of pkg/httpclient/httpclient.go: when it answers, and how long it waits before.
use go_admin.Common.{
  ℕ, zero, suc, ◌+◌, ◌*◌, ◌≤◌, ◌<◌, ◌≡◌, refl, ap, sym, ◌∙◌, subst, Bool, true, false, ◌⊎◌, inl,
  inr, Option, none, some, List, [], ◌∷◌, ◌++◌, Bytes, ℤ, pos, leb, arith,
}
use go_admin.Outcome.{Error}
use go_admin.HttpClient.Client.{Client, is_retriable_error}
use go_admin.HttpClient.Request.{
  RequestSpec, Response, LastError, nil, of_client, of_status, handed_on, Result, done, failed,
  Library, Network, Run, Body, delay, pow2, attempts, after_reply, wait_and_send, request,
  build_request_spec, rounds,
}
use go_admin.HttpClient.Delay.{pow2_le, delay_lem}
use go_admin.HttpClient.Events.{sends, waits}

-- b * 2^i and the durations behind it, d of them.
abbrev pub doublings : ℕ → ℕ → ℕ → List ℤ
doublings b i zero = []
doublings b i (suc d) = pos (b * pow2 i) ∷ doublings b (suc i) d

abbrev pub answer : Error ⊎ Response → Result Response
answer (inl e) = failed (handed_on e)
answer (inr r) = done r

module _ (lib : Library) where
  -- An answer after which the client tries again.
  abbrev pub is_transient : Error ⊎ Response → Bool
  is_transient (inl e) = is_retriable_error (some (lib.found e))
  is_transient (inr r) = leb 500 r.status_code

  module _ (net : Network) (c : Client) (spec : RequestSpec) where
    abbrev wait_before : ℕ → List ℤ
    wait_before zero = []
    wait_before (suc n) = delay c.backoff (suc n) ∷ []

    abbrev last_of : Error ⊎ Response → LastError
    last_of (inl e) = of_client e
    last_of (inr r) = of_status r.status_code

    after_final :
        (n : ℕ) (x : Error ⊎ Response) (next : LastError → Run Response)
        → is_transient x ≡ false
        → after_reply lib net c spec n x next ≡ (answer x, [])
    after_final n (inl e) next h = rw h
    after_final n (inr r) next h = rw h

    -- An attempt whose answer is final.
    round_final :
        (n : ℕ) (next : LastError → Run Response)
        → lib.refused spec ≡ none
        → net.cancelled n ≡ none
        → is_transient (net.reply n) ≡ false
        → let x = wait_and_send lib net c spec n next in
          (x.0 ≡ answer (net.reply n)) × (sends x.1 ≡ 1) × (waits x.1 ≡ wait_before n)
    round_final zero next r k h =
        rw r (rw (after_final zero (net.reply zero) next h) (refl, refl, refl))
    round_final (suc n) next r k h =
        rw k (rw r (rw (after_final (suc n) (net.reply (suc n)) next h) (refl, refl, refl)))

    after_transient :
        (n : ℕ) (x : Error ⊎ Response) (next : LastError → Run Response)
        → is_transient x ≡ true
        → let y = after_reply lib net c spec n x next in
          let z = next (last_of x) in
          (y.0 ≡ z.0) × (sends y.1 ≡ sends z.1) × (waits y.1 ≡ waits z.1)
    after_transient n (inl e) next h = rw h (refl, refl, refl)
    after_transient n (inr r) next h = rw h (refl, refl, refl)

    -- An attempt after which the client tries again.
    round_next :
        (n : ℕ) (next : LastError → Run Response)
        → lib.refused spec ≡ none
        → net.cancelled n ≡ none
        → is_transient (net.reply n) ≡ true
        → let x = wait_and_send lib net c spec n next in
          let z = next (last_of (net.reply n)) in
          (x.0 ≡ z.0) × (sends x.1 ≡ suc (sends z.1)) × (waits x.1 ≡ wait_before n ++ waits z.1)
    round_next zero next r k h =
        let (a, s, w) = after_transient zero (net.reply zero) next h in
        rw r (a, ap (λ m. suc m) s, w)
    round_next (suc n) next r k h =
        let (a, s, w) = after_transient (suc n) (net.reply (suc n)) next h in
        rw k (rw r (a, ap (λ m. suc m) s, ap (◌∷◌ (delay c.backoff (suc n))) w))

    abbrev expected : ℕ → ℕ → ℕ → List ℤ
    expected b zero d = doublings b 0 d
    expected b (suc n) d = doublings b n (suc d)

    wait-expected :
        (b n d : ℕ)
        → c.backoff ≡ pos b
        → b * pow2 n < 9223372036854775808
        → wait_before n ++ expected b (suc n) d ≡ expected b n (suc d)
    wait-expected b zero d e h = refl
    wait-expected b (suc n) d e h =
        rw e (ap (λ x. x ∷ doublings b (suc n) (suc d)) (delay_lem b n (grind arith)))

    first :
        (b n : ℕ)
        → c.backoff ≡ pos b
        → b * pow2 n < 9223372036854775808
        → wait_before n ≡ expected b n 0
    first b zero e h = refl
    first b (suc n) e h = rw e (ap (λ x. x ∷ []) (delay_lem b n (grind arith)))

    attempts_answers :
        (b d left n : ℕ) (last : LastError)
        → d < left
        → c.backoff ≡ pos b
        → b * pow2 (n + d) < 9223372036854775808
        → lib.refused spec ≡ none
        → ((i : ℕ) → n ≤ i → i ≤ n + d → net.cancelled i ≡ none)
        → ((i : ℕ) → n ≤ i → i < n + d → is_transient (net.reply i) ≡ true)
        → is_transient (net.reply (n + d)) ≡ false
        → let x = attempts lib net c spec left n last in
          (x.0 ≡ answer (net.reply (n + d))) × (sends x.1 ≡ suc d) × (waits x.1 ≡ expected b n d)
    unfolding attempts
    attempts_answers b d zero n last h e p r k t f = absurd (omega arith)
    attempts_answers b zero (suc left) n last h e p r k t f =
        let same : n + 0 ≡ n = omega arith in
        let next = λ (x : LastError). attempts lib net c spec left (suc n) x in
        let (a, s, w) =
          round_final n next r (k n (omega arith) (omega arith))
            (subst (λ m. is_transient (net.reply m) ≡ false) same f) in
        rw same (a, s, w ∙ first b n e (subst (λ m. b * pow2 m < 9223372036854775808) same p))
    attempts_answers b (suc d) (suc left) n last h e p r k t f =
        let next = λ (x : LastError). attempts lib net c spec left (suc n) x in
        let shift : n + suc d ≡ suc n + d = omega arith in
        let (a, s, w) =
          round_next n next r (k n (omega arith) (omega arith)) (t n (omega arith) (omega arith)) in
        let (a', s', w') =
          attempts_answers b d left (suc n) (last_of (net.reply n)) (omega arith) e
            (subst (λ m. b * pow2 m < 9223372036854775808) shift p) r
            (λ i. λ l. λ u. k i (omega arith) (omega arith))
            (λ i. λ l. λ u. t i (omega arith) (omega arith))
            (subst (λ m. is_transient (net.reply m) ≡ false) shift f) in
        rw shift (
          a ∙ a',
          s ∙ ap (λ m. suc m) s',
          w
              ∙ (ap (λ ws. wait_before n ++ ws) w'
                  ∙ wait-expected b n d e (grind (arith, pow2_le n (suc d)))),
        )

module _ (lib : Library) (net : Network) (c : Client) (method path : Bytes) (params : Option Bytes)
    (body : Body) where
  -- If the specification of the request can be built and no request or wait is refused, the answer
  -- to attempt k, counted from 0, is the first after which the client does not try again, k is at
  -- most the number of retries, and the backoff times 2^k is below 2^63: request answers what it
  -- got in attempt k, after k + 1 requests, with the waits backoff, 2 * backoff, and so on, k of
  -- them.
  pub request_answers :
      (spec : RequestSpec) (b retries k : ℕ)
      → build_request_spec lib c method path params body ≡ done spec
      → lib.refused spec ≡ none
      → c.retries ≡ pos retries
      → k ≤ retries
      → c.backoff ≡ pos b
      → b * pow2 k < 9223372036854775808
      → ((i : ℕ) → i ≤ k → net.cancelled i ≡ none)
      → ((i : ℕ) → i < k → is_transient lib (net.reply i) ≡ true)
      → is_transient lib (net.reply k) ≡ false
      → let x = request lib net c method path params body in
        (x.0 ≡ answer (net.reply k)) × (sends x.1 ≡ suc k) × (waits x.1 ≡ doublings b 0 k)
  unfolding request
  request_answers spec b retries k built r e h e' p quiet t f =
      let front : k ≡ 0 + k = omega arith in
      let Goal : Run Response → Type 0 =
        λ x. (x.0 ≡ answer (net.reply k)) × (sends x.1 ≡ suc k) × (waits x.1 ≡ doublings b 0 k) in
      let run =
        attempts_answers lib net c spec b k (suc retries) 0 nil (omega arith) e'
          (subst (λ m. b * pow2 m < 9223372036854775808) front p) r
          (λ i. λ l. λ u. quiet i (omega arith)) (λ i. λ l. λ u. t i (omega arith))
          (subst (λ m. is_transient lib (net.reply m) ≡ false) front f) in
      rw built (
        subst (λ z. Goal (attempts lib net c spec (rounds z) 0 nil)) (sym e)
          (run.0 ∙ ap (λ m. answer (net.reply m)) (sym front), run.1, run.2))
