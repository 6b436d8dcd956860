-- ===== src/Redis/Lock/Exclusion.antt =====
-- Mutual exclusion by the lock of pkg/redis/lock.go: what other locks do until the time to live ends.
use go_admin.Common.{
  ℕ, suc, ◌+◌, ◌≤◌, ◌<◌, ◌≡◌, refl, ap, sym, ◌∙◌, ◌≢◌, ◌/◌, pos_part, Bool, true, false, Option,
  none, some, List, [], ◌∷◌, Bytes, ℤ, pos, ltb, ◌&&◌, if◌then◌else◌, ◌==◌, text_eq, list_beq_iff,
  arith,
}
use go_admin.Redis.Lock.{
  Link, up, lost, down, Server, Lock, Reply, done, try_lock, unlock, refresh, unlock_script,
  refresh_script, is_mine, through, obtained, held,
}
use go_admin.Redis.Lock.Laws.{ServerLaws, is_free, lifetime}

-- One call of a method of a lock.
pub data Call : Type 0 where
  tries unlocks refreshes : ℕ → Lock → Call

abbrev pub time : Call → ℕ
time (tries now l) = now
time (unlocks now l) = now
time (refreshes now l) = now

abbrev pub caller : Call → Lock
caller (tries now l) = l
caller (unlocks now l) = l
caller (refreshes now l) = l

-- Calls in the order of their times, between two times, of locks that have another token.
abbrev pub Rivals : Bytes → ℕ → ℕ → List Call → Type 0
Rivals token at until [] = at ≤ until
Rivals token at until (c ∷ cs) =
    (¬ ((caller c).token ≡ token)) × (at ≤ time c) × Rivals token (time c) until cs

module _ {R : Type 0} (server : Server R) where
  abbrev pub perform : Call → R → R
  perform (tries now l) r = (try_lock server now l r).1
  perform (unlocks now l) r = (unlock server now l r).1
  perform (refreshes now l) r = (refresh server now l r).1

  abbrev pub perform_all : List Call → R → R
  perform_all [] r = r
  perform_all (c ∷ cs) r = perform_all cs (perform c r)

module _ {R : Type 0} (server : Server R) (laws : ServerLaws server) where
  -- The key has the token from one time until another.
  abbrev Owned : Bytes → Bytes → ℕ → ℕ → R → Type 0
  Owned key token at until r = (s : ℕ) → at ≤ s → s < until → server.get s key r ≡ some token

  through_keeps :
      {A : Type 0} (P : R → Type 0) (link : Link) (answer : A → Reply) (x : A × R) (r : R)
      → P x.1
      → P r
      → P (through server link answer x r).1
  through_keeps P up answer (a, r') r h h' = h
  through_keeps P (lost e) answer (a, r') r h h' = h
  through_keeps P (down e) answer (a, r') r h h' = h'

  either_keeps :
      (P : R → Type 0) (b : Bool) (x y : Reply × R) → P x.1 → P y.1 → P (if b then x else y).1
  either_keeps P true x y h h' = h
  either_keeps P false x y h h' = h'

  through_done :
      (link : Link) (x : Bool × R) (r : R)
      → (through server link (obtained server) x r).0 ≡ done
      → (x.0 ≡ true) × ((through server link (obtained server) x r).1 ≡ x.1)
  through_done up (true, r') r h = (refl, refl)
  through_done up (false, r') r h = cc
  through_done (lost e) (b, r') r h = cc
  through_done (down e) (b, r') r h = cc

  set_nx-Owned :
      (key token k t : Bytes) (ttl : ℤ) (at until now : ℕ) (r : R)
      → at ≤ now
      → now < until
      → Owned key token at until r
      → Owned key token now until (server.set_nx now k t ttl r).1
  set_nx-Owned key token k t ttl at until now r from upto own s h h' =
      let taken : ((k == key) && is_free (server.get now k r)) ≡ false =
        ground (arith, list_beq_iff k key, own now from upto) in
      laws.get-set_nx_other now s k key t ttl r h taken ∙ own s (omega arith) h'

  unlock_script-Owned :
      (key token k t : Bytes) (at until now : ℕ) (r : R)
      → at ≤ now
      → now < until
      → ¬ (t ≡ token)
      → Owned key token at until r
      → Owned key token now until (unlock_script server now k t r).1
  unfolding unlock_script
  unlock_script-Owned key token k t at until now r from upto other own s h h' = ground (
    arith,
    list_beq_iff k key,
    list_beq_iff token t,
    own now from upto,
    own s,
    laws.get-del now s k key r h,
  )

  refresh_script-Owned :
      (key token k t : Bytes) (ms at until now : ℕ) (r : R)
      → at ≤ now
      → now < until
      → ¬ (t ≡ token)
      → Owned key token at until r
      → Owned key token now until (refresh_script server now k t ms r).1
  unfolding refresh_script
  refresh_script-Owned key token k t ms at until now r from upto other own s h h' =
      go (server.get now k r) refl
    where
      go :
          (o : Option Bytes)
          → server.get now k r ≡ o
          → server.get s key (if is_mine server t o then server.pexpire now k ms r else (0, r)).1
            ≡ some token
      go none e = own s (omega arith) h'
      go (some v) e = ground (
        arith,
        list_beq_iff k key,
        list_beq_iff v t,
        own now from upto,
        own s,
        laws.get-pexpire now s k key v ms r h e,
      )

  perform-Owned :
      (key token : Bytes) (at until : ℕ) (c : Call) (r : R)
      → at ≤ time c
      → time c < until
      → ¬ ((caller c).token ≡ token)
      → Owned key token at until r
      → Owned key token (time c) until (perform server c r)
  unfolding try_lock unlock refresh
  perform-Owned key token at until (tries now l) r from upto other own =
      through_keeps (Owned key token now until) (server.link now r) _ _ r
        (set_nx-Owned key token l.key l.token l.opts.ttl at until now r from upto own)
        (λ s h. own s (omega arith))
  perform-Owned key token at until (unlocks now l) r from upto other own =
      through_keeps (Owned key token now until) (server.link now r) _ _ r
        (unlock_script-Owned key token l.key l.token at until now r from upto other own)
        (λ s h. own s (omega arith))
  perform-Owned key token at until (refreshes now l) r from upto other own =
      either_keeps (Owned key token now until) (ltb 0 (pos_part l.opts.ttl / 1000000)) _ _
        (through_keeps (Owned key token now until) (server.link now r) (held server) _ r
          (refresh_script-Owned key token l.key l.token (pos_part l.opts.ttl / 1000000) at until now
            r from upto other own)
          (λ s h. own s (omega arith)))
        (λ s h. own s (omega arith))

  Rivals-le : (token : Bytes) (at now : ℕ) (cs : List Call) → Rivals token at now cs → at ≤ now
  Rivals-le token at now [] h = h
  Rivals-le token at now (c ∷ cs) h = omega (arith, Rivals-le token (time c) now cs (h.2), h.1)

  perform_all-Owned :
      (key token : Bytes) (at now until : ℕ) (cs : List Call) (r : R)
      → Rivals token at now cs
      → now < until
      → Owned key token at until r
      → Owned key token now until (perform_all server cs r)
  perform_all-Owned key token at now until [] r h upto own = λ s from. own s (omega arith)
  perform_all-Owned key token at now until (c ∷ cs) r h upto own =
      perform_all-Owned key token (time c) now until cs (perform server c r) h.2 upto (
        perform-Owned key token at until c r h.1
          (omega (arith, Rivals-le token (time c) now cs h.2)) h.0 own)

  try_lock-Owned :
      (at ttl : ℕ) (l : Lock) (r : R)
      → l.opts.ttl ≡ pos (suc ttl)
      → (try_lock server at l r).0 ≡ done
      → Owned l.key l.token at (at + lifetime (suc ttl)) (try_lock server at l r).1
  unfolding try_lock
  try_lock-Owned at ttl l r e h s from upto =
      let (b, same) =
        through_done (server.link at r) (server.set_nx at l.key l.token l.opts.ttl r) r h in
      let free : is_free (server.get at l.key r) ≡ true =
        sym (laws.set_nx_reply at l.key l.token l.opts.ttl r) ∙ b in
      ap (server.get s l.key) same
      ∙ ap (λ t. server.get s l.key (server.set_nx at l.key l.token t r).1) e
      ∙ ground (arith, laws.get-set_nx at s l.key l.token (suc ttl) r from (omega arith) free)

  -- Over a server that meets the stated laws of Redis: if TryLock of a lock with a positive time
  -- to live answered that it is held, then, after any calls in the order of their times, of
  -- TryLock, Unlock and Refresh, by locks with another token and with any fate of their commands
  -- on the link, the key still has the token at every time before the time to live that Redis was
  -- given ends, and TryLock by any lock on that key does not answer that it is held.
  pub try_lock_excludes :
      (at ttl now : ℕ) (lock other : Lock) (cs : List Call) (r : R)
      → lock.opts.ttl ≡ pos (suc ttl)
      → (try_lock server at lock r).0 ≡ done
      → Rivals lock.token at now cs
      → now < at + lifetime (suc ttl)
      → other.key ≡ lock.key
      → let r' = perform_all server cs (try_lock server at lock r).1 in
        (server.get now lock.key r' ≡ some lock.token) × ((try_lock server now other r').0 ≢ done)
  unfolding try_lock
  try_lock_excludes at ttl now lock other cs r e h rivals upto same =
      let r' = perform_all server cs (try_lock server at lock r).1 in
      let own : server.get now lock.key r' ≡ some lock.token =
        perform_all-Owned lock.key lock.token at now (at + lifetime (suc ttl)) cs
          (try_lock server at lock r).1 rivals upto (try_lock-Owned at ttl lock r e h) now
          (omega arith) upto in
      (
        own,
        λ d.
            let (b, _) =
              through_done (server.link now r')
                (server.set_nx now other.key other.token other.opts.ttl r') r' d in
            let free : is_free (server.get now other.key r') ≡ true =
              sym (laws.set_nx_reply now other.key other.token other.opts.ttl r') ∙ b in
            cc,
      )
