-- ===== src/Redis/Lock/Attempts.antt =====
-- The loop of Lock and WithLock in pkg/redis/lock.go: how many attempts it makes, and the release.
use go_admin.Common.{
  ℕ, zero, suc, ◌+◌, ◌≤◌, ◌≡◌, refl, ap, sym, ◌∙◌, pos, Bool, true, false, inl, inr, Option, none,
  some, ◌||◌, ◌⊎◌, ◌≢◌, subst, if◌then◌else◌, text_eq, list_beq_iff, arith,
}
use go_admin.Outcome.{Outcome, ok, err, panic, Act}
use go_admin.Redis.Lock.{
  up, Server, Lock, Reply, done, refused, not_obtained, cancelled, not_held, invalid_ttl, failed,
  try_lock, unlock, unlock_script, lock_from, after_attempt, is_last, with_lock, within, finish,
  is_mine, through, held,
}
use go_admin.Redis.Lock.Laws.{ServerLaws}

module _ {R : Type 0} (server : Server R) (clock : ℕ → ℕ) (ctx_done : ℕ → Bool) (others : ℕ → R → R)
    (lock : Lock) where
  -- An answer of the loop: `done` is the answer of one of its attempts, up to the one numbered `k`.
  abbrev pub Answered : ℕ → Reply × R → Type 0
  Answered k x =
      (x.0 ≢ done) ⊎ ((i : ℕ) × (s : R) × (i ≤ k) × (try_lock server (clock i) lock s ≡ x))

  answered :
      (k i : ℕ) (s : R) (x : Reply × R) (rest : Option (Reply × R))
      → i ≤ k
      → try_lock server (clock i) lock s ≡ x
      → ((is_last server clock ctx_done others lock (suc i) lock.opts.max_retries || ctx_done i)
          ≡ true)
        ⊎ ((y : Reply × R) × (rest ≡ some y) × Answered k y)
      → (y : Reply × R) × (after_attempt server clock ctx_done others lock i x rest ≡ some y)
        × Answered k y
  answered k i s (done, r) rest h e stop = ((done, r), refl, inr (i, s, h, e))
  answered k i s (refused not_obtained, r) rest h e stop =
      go (is_last server clock ctx_done others lock (suc i) lock.opts.max_retries) (ctx_done i) stop
    where
      go :
          (b c : Bool)
          → ((b || c) ≡ true) ⊎ ((y : Reply × R) × (rest ≡ some y) × Answered k y)
          → (y : Reply × R) × ((if b
                then some (refused not_obtained, r)
                else if c
                then some (refused cancelled, r)
                else rest)
              ≡ some y)
            × Answered k y
      go true c stop = (_, refl, inl (λ d. cc))
      go false true stop = (_, refl, inl (λ d. cc))
      go false false (inl f) = cc
      go false false (inr y) = y
  answered k i s (refused cancelled, r) rest h e stop = (_, refl, inl (λ d. cc))
  answered k i s (refused not_held, r) rest h e stop = (_, refl, inl (λ d. cc))
  answered k i s (refused invalid_ttl, r) rest h e stop = (_, refl, inl (λ d. cc))
  answered k i s (refused (failed f), r) rest h e stop = (_, refl, inl (λ d. cc))

  lock_from_returns :
      (k n fuel : ℕ) (r : R)
      → n + fuel ≡ k
      → (is_last server clock ctx_done others lock (suc k) lock.opts.max_retries || ctx_done k)
        ≡ true
      → (x : Reply × R) × (lock_from server clock ctx_done others lock (suc fuel) n r ≡ some x)
        × Answered k x
  unfolding lock_from
  lock_from_returns k n zero r e h =
      answered k n r (try_lock server (clock n) lock r) none (omega arith) refl (
        inl (
          subst
            (λ i.
              (is_last server clock ctx_done others lock (suc i) lock.opts.max_retries
                || ctx_done i)
              ≡ true)
            (omega arith) h))
  lock_from_returns k n (suc fuel) r e h =
      answered k n r (try_lock server (clock n) lock r) _ (omega arith) refl (
        inr (
          lock_from_returns k (suc n) fuel (others n (try_lock server (clock n) lock r).1)
            (omega arith) h))

  -- The attempt numbered `k` is past the limit of retries, or the context is done behind it.
  abbrev pub Stops : ℕ → Type 0
  Stops k = ((m : ℕ) × (lock.opts.max_retries ≡ pos (suc m)) × (suc m ≤ k)) ⊎ (ctx_done k ≡ true)

  Stops-is_last :
      (k : ℕ)
      → Stops k
      → (is_last server clock ctx_done others lock (suc k) lock.opts.max_retries || ctx_done k)
        ≡ true
  Stops-is_last k (inl (m, e, h)) =
      subst (λ n. (is_last server clock ctx_done others lock (suc k) n || ctx_done k) ≡ true)
        (sym e) (ground arith)
  Stops-is_last k (inr h) = ground (arith, h)

  -- If the limit of retries is positive and at most k, or the context is done behind the attempt
  -- numbered k, counted from 0, Lock returns within k + 1 attempts, and its answer is another than
  -- that the lock is held, or it is the answer of TryLock in one of these attempts.
  pub lock_returns :
      (k : ℕ) (r : R)
      → Stops k
      → (x : Reply × R) × (lock_from server clock ctx_done others lock (suc k) 0 r ≡ some x)
        × Answered k x
  lock_returns k r h = lock_from_returns k 0 k r (omega arith) (Stops-is_last k h)

-- What WithLock makes of the outcome of the critical section, if Unlock answers `done`.
abbrev pub released : Outcome (Unit {0}) → Outcome Reply
released (ok _) = ok done
released (err e) = err e
released panic = panic

-- The node behind WithLock, if the critical section leaves it as `s`.
abbrev pub IsReleased : {R : Type 0} → Server R → Outcome (Unit {0}) → ℕ → Lock → R → R → Type 0
IsReleased server (ok _) end l s r = server.get end l.key r ≡ none
IsReleased server (err _) end l s r = server.get end l.key r ≡ none
IsReleased server panic end l s r = r ≡ s

module _ {R : Type 0} (server : Server R) (laws : ServerLaws server) where
  through_up : (x : ℕ × R) (r : R) → through server up (held server) x r ≡ (held server x.0, x.1)
  through_up (n, r') r = refl

  unlock-mine :
      (end : ℕ) (l : Lock) (r : R)
      → server.get end l.key r ≡ some l.token
      → server.link end r ≡ up
      → ((unlock server end l r).0 ≡ done) × (server.get end l.key (unlock server end l r).1 ≡ none)
  unfolding unlock unlock_script
  unlock-mine end l r own e =
      let mine : is_mine server l.token (server.get end l.key r) ≡ true =
        ground (arith, list_beq_iff l.token l.token) in
      let gone : server.get end l.key (server.del end l.key r).1 ≡ none =
        ground
          (arith, laws.get-del end end l.key l.key r (omega arith), list_beq_iff l.key l.key) in
      let reply = laws.del_reply end l.key l.token r own in
      let parts = through_up (server.del end l.key r) r in
      rw e (
        rw mine (
          ap (λ x. x.0) parts ∙ ap (held server) reply,
          ap (λ x. server.get end l.key x.1) parts ∙ gone,
        ))

  finish_lem :
      (clock : ℕ → ℕ) (ctx_done : ℕ → Bool) (others : ℕ → R → R) (end : ℕ) (l : Lock)
      (o : Outcome (Unit {0})) (s : R)
      → server.get end l.key s ≡ some l.token
      → server.link end s ≡ up
      → ((finish server clock ctx_done others l end (o, s)).0 ≡ released o)
        × IsReleased server o end l s (finish server clock ctx_done others l end (o, s)).1
  finish_lem clock ctx_done others end l (ok _) s own e = ground (arith, unlock-mine end l s own e)
  finish_lem clock ctx_done others end l (err f) s own e = ground (arith, unlock-mine end l s own e)
  finish_lem clock ctx_done others end l panic s own e = (refl, refl)

  -- If Lock answers that the lock is held, the key has its token when the critical section
  -- returns, and the link is up, then WithLock answers the error of the section or, without one,
  -- that of Unlock, which is none, and the key is free; if the section panics, the node stays as
  -- the section left it.
  pub with_lock_releases :
      (clock : ℕ → ℕ) (ctx_done : ℕ → Bool) (others : ℕ → R → R) (lock : Lock) (fuel end : ℕ)
      (fn : Act R (Unit {0})) (r r1 : R)
      → lock_from server clock ctx_done others lock fuel 0 r ≡ some (done, r1)
      → server.get end lock.key (fn r1).1 ≡ some lock.token
      → server.link end (fn r1).1 ≡ up
      → (r2 : R) × (with_lock server clock ctx_done others lock fuel end fn r
          ≡ some (released (fn r1).0, r2))
        × IsReleased server (fn r1).0 end lock (fn r1).1 r2
  unfolding with_lock
  with_lock_releases clock ctx_done others lock fuel end fn r r1 e own link =
      let (out, kept) = finish_lem clock ctx_done others end lock (fn r1).0 (fn r1).1 own link in
      let x = finish server clock ctx_done others lock end (fn r1) in
      (
        x.1,
        ap (within server clock ctx_done others lock end fn) e ∙ ap (λ o. some (o, x.1)) out,
        kept,
      )
