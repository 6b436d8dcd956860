-- ===== src/Redis/Lock.antt =====
-- pkg/redis/lock.go: a lock on one Redis node. The node and the link to it are a parameter; the two
-- scripts that the code sends run on it as one step each. Times and durations are in nanoseconds.
pub mod Laws
pub mod Created
pub mod Exclusion
pub mod Attempts
use go_admin.Common.{
  ℕ, zero, suc, ◌+◌, ◌*◌, ◌/◌, Bool, true, false, Option, none, some, List, [], ◌∷◌, ◌++◌, Bytes,
  bytes, ℤ, pos, negsuc, is_pos, pos_part, ◌&&◌, ltb, if◌then◌else◌, ◌==◌, text_eq,
}
use go_admin.Outcome.{Error, Outcome, ok, err, panic, Act}

-- What the link does to one command: it is carried out and answered, carried out with the answer
-- lost, or not carried out.
pub data Link : Type 0 where
  up : Link
  lost down : Error → Link

-- The commands in use: GET, SET NX with a time to live, DEL and PEXPIRE in milliseconds. The first
-- argument is the node's clock.
pub record Server (R : Type 0) : Type 0 where
  pub link : ℕ → R → Link
  pub get : ℕ → Bytes → R → Option Bytes
  pub set_nx : ℕ → Bytes → Bytes → ℤ → R → Bool × R
  pub del : ℕ → Bytes → R → ℕ × R
  pub pexpire : ℕ → Bytes → ℕ → R → ℕ × R

-- lockOptions
pub record LockOptions : Type 0 where
  pub ttl : ℤ
  pub retry_interval : ℤ
  pub max_retries : ℤ
  pub key_prefix : Bytes

-- LockOption: WithTTL, WithRetryInterval, WithMaxRetries, WithKeyPrefix
pub data LockOption : Type 0 where
  with_ttl with_retry_interval with_max_retries : ℤ → LockOption
  with_key_prefix : Bytes → LockOption

abbrev pub apply_option : LockOption → LockOptions → LockOptions
apply_option (with_ttl d) o = record o { ttl = d }
apply_option (with_retry_interval d) o = record o { retry_interval = d }
apply_option (with_max_retries n) o = record o { max_retries = n }
apply_option (with_key_prefix p) o = record o { key_prefix = p }

abbrev pub apply_options : List LockOption → LockOptions → LockOptions
apply_options [] o = o
apply_options (f ∷ fs) o = apply_options fs (apply_option f o)

-- The default constants.
abbrev pub default_lock_ttl : ℤ
default_lock_ttl = pos 10000000000

abbrev pub default_lock_retry_interval : ℤ
default_lock_retry_interval = pos 50000000

abbrev pub default_lock_key_prefix : Bytes
default_lock_key_prefix = bytes "go_admin:lock:"

-- Lock
pub record Lock : Type 0 where
  pub key : Bytes
  pub token : Bytes
  pub opts : LockOptions

abbrev pub or_prefix : Bytes → Bytes
or_prefix [] = default_lock_key_prefix
or_prefix (c ∷ p) = c ∷ p

-- The three repairs of NewLock.
abbrev pub repaired : LockOptions → LockOptions
repaired o = record {
  ttl = if is_pos o.ttl then o.ttl else default_lock_ttl;
  retry_interval =
      if is_pos o.retry_interval then o.retry_interval else default_lock_retry_interval;
  max_retries = o.max_retries;
  key_prefix = or_prefix o.key_prefix;
}

abbrev pub default_options : LockOptions
default_options = record {
  ttl = default_lock_ttl;
  retry_interval = default_lock_retry_interval;
  max_retries = pos 0;
  key_prefix = default_lock_key_prefix;
}

-- NewLock; `token` is the fresh UUID.
unfoldable pub new_lock : Bytes → Bytes → List LockOption → Lock
new_lock key token fs =
    let o = repaired (apply_options fs default_options) in
    record { key = o.key_prefix ++ key; token = token; opts = o }

-- ErrLockNotObtained, by itself or with the reason of the context behind it; ErrLockNotHeld; an error
-- of the link; the refusal of Refresh.
pub data LockError : Type 0 where
  not_obtained cancelled not_held invalid_ttl : LockError
  failed : Error → LockError

pub data Reply : Type 0 where
  done : Reply
  refused : LockError → Reply

module _ {R : Type 0} (server : Server R) where
  -- What a command answers through the link.
  abbrev pub through : {A : Type 0} → Link → (A → Reply) → A × R → R → Reply × R
  through up answer (a, r') r = (answer a, r')
  through (lost e) answer (a, r') r = (refused (failed e), r')
  through (down e) answer (a, r') r = (refused (failed e), r)

  abbrev obtained : Bool → Reply
  obtained true = done
  obtained false = refused not_obtained

  -- TryLock
  unfoldable pub try_lock : ℕ → Lock → R → Reply × R
  try_lock now lock r =
      through (server.link now r) obtained (server.set_nx now lock.key lock.token lock.opts.ttl r) r

  abbrev pub is_mine : Bytes → Option Bytes → Bool
  is_mine token none = false
  is_mine token (some v) = v == token

  -- unlockScript, refreshScript
  unfoldable pub unlock_script : ℕ → Bytes → Bytes → R → ℕ × R
  unlock_script now key token r =
      if is_mine token (server.get now key r) then server.del now key r else (0, r)

  unfoldable pub refresh_script : ℕ → Bytes → Bytes → ℕ → R → ℕ × R
  refresh_script now key token ms r =
      if is_mine token (server.get now key r) then server.pexpire now key ms r else (0, r)

  abbrev held : ℕ → Reply
  held zero = refused not_held
  held (suc n) = done

  -- Unlock
  unfoldable pub unlock : ℕ → Lock → R → Reply × R
  unfolding unlock_script
  unlock now lock r = through (server.link now r) held (unlock_script now lock.key lock.token r) r

  -- Refresh
  unfoldable pub refresh : ℕ → Lock → R → Reply × R
  unfolding refresh_script
  refresh now lock r =
      let ms = pos_part lock.opts.ttl / 1000000 in
      if ltb 0 ms
      then through (server.link now r) held (refresh_script now lock.key lock.token ms r) r
      else (refused invalid_ttl, r)

  -- What the loop of Lock meets: the node's clock at each attempt, whether the context is done before
  -- the timer of the attempt fires, and what others do to the node while it waits.
  module _ (clock : ℕ → ℕ) (ctx_done : ℕ → Bool) (others : ℕ → R → R) (lock : Lock) where
    -- attempts > maxRetries, if that is positive
    abbrev pub is_last : ℕ → ℤ → Bool
    is_last attempts (pos (suc m)) = ltb (suc m) attempts
    is_last attempts (pos zero) = false
    is_last attempts (negsuc m) = false

    -- What the attempt number `n` leads to: an answer, or another attempt.
    abbrev pub after_attempt : ℕ → Reply × R → Option (Reply × R) → Option (Reply × R)
    after_attempt n (done, r) rest = some (done, r)
    after_attempt n (refused not_obtained, r) rest =
        if is_last (suc n) lock.opts.max_retries
        then some (refused not_obtained, r)
        else if ctx_done n
        then some (refused cancelled, r)
        else rest
    after_attempt n (refused cancelled, r) rest = some (refused cancelled, r)
    after_attempt n (refused not_held, r) rest = some (refused not_held, r)
    after_attempt n (refused invalid_ttl, r) rest = some (refused invalid_ttl, r)
    after_attempt n (refused (failed e), r) rest = some (refused (failed e), r)

    -- Lock from the attempt number `n` on; `none` is that the fuel ran out.
    unfoldable pub lock_from : ℕ → ℕ → R → Option (Reply × R)
    unfolding try_lock
    lock_from zero n r = none
    lock_from (suc fuel) n r =
        let (reply, r') = try_lock (clock n) lock r in
        let rest = lock_from fuel (suc n) (others n r') in after_attempt n (reply, r') rest

    -- WithLock: `fn` is the critical section, with the state that it leaves and its error.
    abbrev pub finish : ℕ → Outcome (Unit {0}) × R → Outcome Reply × R
    finish end (ok _, r) = let (reply, r') = unlock end lock r in (ok reply, r')
    finish end (err e, r) = (err e, (unlock end lock r).1)
    finish end (panic, r) = (panic, r)

    abbrev pub within : ℕ → Act R (Unit {0}) → Option (Reply × R) → Option (Outcome Reply × R)
    within end fn none = none
    within end fn (some (done, r)) = some (finish end (fn r))
    within end fn (some (refused e, r)) = some (ok (refused e), r)

    unfoldable pub with_lock : ℕ → ℕ → Act R (Unit {0}) → R → Option (Outcome Reply × R)
    unfolding lock_from unlock
    with_lock fuel end fn r = within end fn (lock_from fuel 0 r)
