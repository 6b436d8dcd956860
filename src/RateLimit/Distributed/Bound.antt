-- ===== src/RateLimit/Distributed/Bound.antt =====
-- The script of RedisClusterRateLimiter as a token bucket: how many requests it lets pass.
use go_admin.Common.{
  ℕ, suc, ◌+◌, ◌-◌, ◌*◌, ◌/◌, ◌≤◌, ◌≡◌, ◌≢◌, ap, sym, ◌∙◌, length, length-append, bytes, true,
  false, some, none, ◌⊎◌, inl, inr, List, [], ◌∷◌, Bytes, leb, if◌then◌else◌, arith,
}
use go_admin.RateLimit.Distributed.{
  Node, LuaReply, lua_bool, lua_error, or_value, filled_tokens, stamp_key, tokens_at, refreshed_at,
  written, script,
}

-- What Redis documents: SET leaves a key without a time to live; PEXPIRE keeps a key and its
-- value for that time at least and lets it go some time later; the other keys are left alone.
pub record NodeLaws {R : Type 0} (node : Node R) : Type 0 where
  pub get-set : (t : ℕ) (k : Bytes) (n : ℕ) (r : R) → node.get t k (node.set k n r) ≡ some n
  pub get-set_other :
      (t : ℕ) (j k : Bytes) (n : ℕ) (r : R) → k ≢ j → node.get t k (node.set j n r) ≡ node.get t k r
  pub get-pexpire :
      (t at : ℕ) (k : Bytes) (ms : ℕ) (r : R)
      → at ≤ t
      → (node.get t k (node.pexpire at k ms r) ≡ node.get at k r)
        ⊎ ((node.get t k (node.pexpire at k ms r) ≡ none) × (at + ms ≤ t))
  pub get-pexpire_other :
      (t at : ℕ) (j k : Bytes) (ms : ℕ) (r : R)
      → k ≢ j
      → node.get t k (node.pexpire at j ms r) ≡ node.get t k r

abbrev pub accepted : LuaReply → ℕ
accepted (lua_bool true) = 1
accepted (lua_bool false) = 0
accepted lua_error = 0

stamp_key-ne : (key : Bytes) → stamp_key key ≢ key
stamp_key-ne key h = absurd (omega (arith, ap length h, length-append {0} key (bytes ":ts")))

filled_tokens-le_capacity :
    (rate capacity now tokens u : ℕ) → filled_tokens rate capacity now tokens u ≤ capacity
unfolding filled_tokens
filled_tokens-le_capacity rate capacity now tokens u = ground arith

filled_tokens-le :
    (rate capacity now tokens u : ℕ)
    → filled_tokens rate capacity now tokens u ≤ tokens + (now - u) * rate
unfolding filled_tokens
filled_tokens-le rate capacity now tokens u = ground arith

split_time :
    (rate u now end : ℕ)
    → u ≤ now
    → now ≤ end
    → (now - u) * rate + (end - now) * rate ≡ (end - u) * rate
split_time rate u now end h k = grind arith

le_times : (a b c : ℕ) → a ≤ b → a * c ≤ b * c
le_times a b c h = grind arith

-- In its time to live the bucket fills up.
ttl_fills :
    (rate capacity : ℕ) → suc rate ≤ 2 * capacity → capacity ≤ (2 * capacity) / suc rate * suc rate
ttl_fills rate capacity h = grind arith

-- A time to live in milliseconds, in seconds of the clock.
ttl_seconds : (q s t : ℕ) → s + q * 1000 ≤ t → q ≤ t / 1000 - s / 1000
ttl_seconds q s t h = omega arith

filled_lem :
    (rate capacity a s t tokens u : ℕ)
    → suc rate ≤ 2 * capacity
    → ((tokens ≡ a) × (u ≡ s / 1000)) ⊎ (s + (2 * capacity) / suc rate * 1000 ≤ t)
    → filled_tokens (suc rate) capacity (t / 1000) tokens u ≤ a + (t / 1000 - s / 1000) * suc rate
filled_lem rate capacity a s t tokens u lives (inl (e, f)) =
    rw (e, f) (filled_tokens-le (suc rate) capacity (t / 1000) a (s / 1000))
filled_lem rate capacity a s t tokens u lives (inr late) =
    let below = filled_tokens-le_capacity (suc rate) capacity (t / 1000) tokens u in
    let fills = ttl_fills rate capacity lives in
    let long = ttl_seconds ((2 * capacity) / suc rate) s t late in
    let grown : (2 * capacity) / suc rate * suc rate ≤ (t / 1000 - s / 1000) * suc rate =
      le_times ((2 * capacity) / suc rate) (t / 1000 - s / 1000) (suc rate) long in
    omega (arith, below, fills, grown)

module _ {R : Type 0} (node : Node R) (laws : NodeLaws node) (key : Bytes) (rate capacity : ℕ)
    (lives : suc rate ≤ 2 * capacity) where
  abbrev ttl : ℕ
  ttl = (2 * capacity) / suc rate * 1000

  -- The calls at some times in milliseconds, one behind the other: how many the script lets pass.
  abbrev pub passed : List ℕ → R → ℕ
  passed [] r = 0
  passed (t ∷ times) r =
      let x = script node t key (suc rate) capacity (t / 1000) r in accepted x.0 + passed times x.1

  -- Times that do not go back, from `start` up to `end`.
  abbrev pub Between : ℕ → ℕ → List ℕ → Type 0
  Between start end [] = start ≤ end
  Between start end (t ∷ times) = (start ≤ t) × Between t end times

  -- A key that was written with a time to live at `s` has its value, or that time is over.
  abbrev Holds : ℕ → Bytes → ℕ → R → Type 0
  Holds s k n r =
      (t : ℕ) → s ≤ t → (node.get t k r ≡ some n) ⊎ ((node.get t k r ≡ none) × (s + ttl ≤ t))

  -- What a call at `s` leaves: `a` tokens.
  abbrev Left : ℕ → ℕ → R → Type 0
  Left a s r = Holds s key a r × Holds s (stamp_key key) (s / 1000) r

  abbrev behind : ℕ → ℕ → R → R
  behind s a r =
      node.pexpire s (stamp_key key) ttl (node.pexpire s key ttl (written node key a (s / 1000) r))

  behind-Left : (a s : ℕ) (r : R) → Left a s (behind s a r)
  behind-Left a s r = (tokens, stamp)
    where
      tokens : Holds s key a (behind s a r)
      tokens t h =
          let outer =
            laws.get-pexpire_other t s (stamp_key key) key ttl
              (node.pexpire s key ttl (written node key a (s / 1000) r))
              (λ e. stamp_key-ne key (sym e)) in
          let value =
            laws.get-set_other s (stamp_key key) key (s / 1000) (node.set key a r)
              (λ e. stamp_key-ne key (sym e))
            ∙ laws.get-set s key a r in
          elim (laws.get-pexpire t s key ttl (written node key a (s / 1000) r) h) [
            | inl e ↦ inl (outer ∙ e ∙ value)
            | inr (e, late) ↦ inr (outer ∙ e, late)
          ]

      stamp : Holds s (stamp_key key) (s / 1000) (behind s a r)
      stamp t h =
          let inner =
            laws.get-pexpire_other s s key (stamp_key key) ttl (written node key a (s / 1000) r)
              (stamp_key-ne key) in
          let value = laws.get-set s (stamp_key key) (s / 1000) (node.set key a r) in
          elim (laws.get-pexpire t s (stamp_key key) ttl
            (node.pexpire s key ttl (written node key a (s / 1000) r)) h) [
              | inl e ↦ inl (e ∙ inner ∙ value)
              | inr (e, late) ↦ inr (e, late)
            ]

  -- What the script finds in the bucket at `t`.
  abbrev filled_at : ℕ → R → ℕ
  filled_at t r =
      filled_tokens (suc rate) capacity (t / 1000) (tokens_at node t capacity key r)
        (refreshed_at node t key r)

  filled_at-le :
      (a s t : ℕ) (r : R)
      → Left a s r
      → s ≤ t
      → filled_at t r ≤ a + (t / 1000 - s / 1000) * suc rate
  filled_at-le a s t r (tokens, stamp) h =
      filled_lem rate capacity a s t (tokens_at node t capacity key r) (refreshed_at node t key r)
        lives
        (elim (tokens t h) [
          | inr (e, late) ↦ inr late
          | inl e ↦ elim (stamp t h) [
            | inr (f, late) ↦ inr late
            | inl f ↦ inl (ap (or_value capacity) e, ap (or_value 0) f)
          ]
        ])

  -- One call: what it lets pass and what it leaves make up what it found.
  call_lem :
      (t : ℕ) (r : R)
      → let x = script node t key (suc rate) capacity (t / 1000) r in
        (a : ℕ) × (accepted x.0 + a ≡ filled_at t r) × Left a t x.1
  unfolding script
  call_lem t r =
      let filled = filled_at t r in
      let a : ℕ = if leb 1 filled then filled - 1 else filled in
      (a, ground arith, behind-Left a t r)

  Between-le : (end start : ℕ) (times : List ℕ) → Between start end times → start ≤ end
  Between-le end start [] b = b
  Between-le end start (t ∷ times) b = omega (arith, Between-le end t times b.1)

  -- Behind a call: what it left and what is filled in.
  passed-le :
      (end a s : ℕ) (times : List ℕ) (r : R)
      → Left a s r
      → Between s end times
      → passed times r ≤ a + (end / 1000 - s / 1000) * suc rate
  passed-le end a s [] r left b = omega arith
  passed-le end a s (t ∷ times) r left b =
      let x = script node t key (suc rate) capacity (t / 1000) r in
      let (a', sum, left') = call_lem t r in
      let rest = passed-le end a' t times x.1 left' b.1 in
      let filled = filled_at-le a s t r left b.0 in
      let later : t ≤ end = Between-le end t times b.1 in
      let time =
        split_time (suc rate) (s / 1000) (t / 1000) (end / 1000) (omega (arith, b.0))
          (omega (arith, later)) in
      omega (arith, sum, rest, filled, time)

  -- On a node that meets the stated laws, with a positive rate of at most twice the capacity, and
  -- a clock in milliseconds that the node and the callers share: of calls of the script for one
  -- key at times that do not go back, the first one at start and none behind end, it answers true
  -- to at most capacity + (end / 1000 - start / 1000) * rate, whatever the node holds before and
  -- whenever it lets keys go whose time to live is over.
  pub passed_bound :
      (start end : ℕ) (times : List ℕ) (r : R)
      → Between start end times
      → passed (start ∷ times) r ≤ capacity + (end / 1000 - start / 1000) * suc rate
  passed_bound start end times r b =
      let (a, sum, left) = call_lem start r in
      omega (
        arith,
        sum,
        passed-le end a start times (script node start key (suc rate) capacity (start / 1000) r).1
            left b,
        filled_tokens-le_capacity (suc rate) capacity (start / 1000)
            (tokens_at node start capacity key r) (refreshed_at node start key r),
      )
