-- ===== src/Redis/Lock/Created.antt =====
-- NewLock of pkg/redis/lock.go: the options that a lock ends up with.
use go_admin.Common.{
  ℕ, zero, suc, ◌≡◌, ◌≢◌, refl, true, List, [], ◌∷◌, ◌++◌, Bytes, ℤ, pos, negsuc, is_pos,
  if◌then◌else◌,
}
use go_admin.Redis.Lock.{
  LockOption, new_lock, or_prefix, apply_options, default_options, default_lock_retry_interval,
}

positive : (d : ℤ) (n : ℕ) → (m : ℕ) × ((if is_pos d then d else pos (suc n)) ≡ pos (suc m))
positive (pos zero) n = (n, refl)
positive (pos (suc m)) n = (m, refl)
positive (negsuc m) n = (n, refl)

or_prefix_nonempty : (p : Bytes) → or_prefix p ≢ []
or_prefix_nonempty [] h = cc
or_prefix_nonempty (c ∷ p) h = cc

positive_retry : (d : ℤ) → is_pos (if is_pos d then d else default_lock_retry_interval) ≡ true
positive_retry (pos zero) = refl
positive_retry (pos (suc m)) = refl
positive_retry (negsuc m) = refl

-- Whatever options it is given, NewLock makes a lock with a positive time to live, a positive
-- retry interval and a prefix that is not empty, and its key is the prefix with the key behind it.
pub new_lock-Valid :
    (key token : Bytes) (fs : List LockOption)
    → let l = new_lock key token fs in
      ((n : ℕ) × (l.opts.ttl ≡ pos (suc n)))
      × (is_pos l.opts.retry_interval ≡ true)
      × (l.opts.key_prefix ≢ [])
      × (l.key ≡ l.opts.key_prefix ++ key)
unfolding new_lock
new_lock-Valid key token fs =
    let o = apply_options fs default_options in
    (
      positive o.ttl 9999999999,
      positive_retry o.retry_interval,
      or_prefix_nonempty o.key_prefix,
      refl,
    )
