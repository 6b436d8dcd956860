-- ===== src/RateLimit/Ip.antt =====
-- IPRateLimiterMiddleware of internal/platform/middleware/sentinel/limiter.go. rate.Limiter is a
-- parameter, the token bucket that it points to stands in a heap, since a request keeps the pointer
-- that it has found. Times are readings of the clock in nanoseconds.
pub mod Steps
pub mod Sound
pub mod Serves
pub mod Cleaned
use go_admin.Common.{
  ℕ, suc, ◌+◌, ◌-◌, Bool, true, false, Option, none, some, List, [], ◌∷◌, Bytes, ℤ, pos, ltb,
  if◌then◌else◌, ◌==◌, text_eq, nat_eq, find, erase, assign,
}

-- RateLimiterConfig, without the metrics
pub record RateLimiterConfig : Type 0 where
  pub refresh_interval : ℕ
  pub expiry_time : ℕ

-- The configuration that nil stands for.
unfoldable pub or_default : Option RateLimiterConfig → RateLimiterConfig
or_default none = record { refresh_interval = 600000000000; expiry_time = 1800000000000 }
or_default (some cfg) = cfg

-- rate.Limiter: NewLimiter, and Allow at a reading of the clock.
pub record Buckets (L : Type 0) : Type 0 where
  pub new_limiter : ℤ → ℤ → L
  pub allow : ℕ → L → Bool × L

-- The variables that the middleware shares between its requests: limiterMap, lastSeen, and the heap.
pub record Shared (L : Type 0) : Type 0 where
  pub limiter_map : List (Bytes × ℕ)
  pub last_seen : List (Bytes × ℕ)
  pub heap : List (ℕ × L)
  pub fresh : ℕ

abbrev pub empty_shared : {L : Type 0} → Shared L
empty_shared = record { limiter_map = []; last_seen = []; heap = []; fresh = 0 }

pub data Answer : Type 0 where
  next too_many_requests : Answer

-- lastSeen[ip] = start
unfoldable pub touch : {L : Type 0} → Bytes → ℕ → Shared L → Shared L
touch ip start s = record s { last_seen = assign ip start s.last_seen }

-- now.Sub(last) > cfg.ExpiryTime
abbrev pub is_expired : ℕ → ℕ → ℕ → Bool
is_expired expiry now last = ltb (last + expiry) now

-- One round of the cleaner over the entries that lastSeen had when it began.
unfoldable pub clean_from : {L : Type 0} → ℕ → ℕ → List (Bytes × ℕ) → Shared L → Shared L
clean_from expiry now [] s = s
clean_from expiry now ((ip, last) ∷ m) s = clean_from expiry now m (
    if is_expired expiry now last
    then record s { limiter_map = erase ip s.limiter_map; last_seen = erase ip s.last_seen }
    else s)

unfoldable pub clean : {L : Type 0} → RateLimiterConfig → ℕ → Shared L → Shared L
unfolding clean_from
clean cfg now s = clean_from cfg.expiry_time now s.last_seen s

module _ {L : Type 0} (buckets : Buckets L) (rps burst : ℤ) where
  abbrev pub with_new : Bytes → ℕ → Shared L → Shared L
  with_new ip start s = record {
    limiter_map = assign ip s.fresh s.limiter_map;
    last_seen = assign ip start s.last_seen;
    heap = assign s.fresh (buckets.new_limiter rps burst) s.heap;
    fresh = suc s.fresh;
  }

  abbrev pub created : Bytes → ℕ → Option ℕ → Shared L → ℕ × Shared L
  created ip start none s = (s.fresh, with_new ip start s)
  created ip start (some h) s = (h, s)

  -- The critical section under the write lock, with its second look.
  unfoldable pub create : Bytes → ℕ → Shared L → ℕ × Shared L
  create ip start s = created ip start (find ip s.limiter_map) s

  abbrev used : ℕ → ℕ → Option L → Shared L → Bool × Shared L
  used h now none s = (false, s)
  used h now (some l) s =
      let (ok, l') = buckets.allow now l in (ok, record s { heap = assign h l' s.heap })

  -- limiter.Allow()
  unfoldable pub allow : ℕ → ℕ → Shared L → Bool × Shared L
  allow h now s = used h now (find h s.heap) s

  abbrev pub obtained : Bytes → ℕ → Option ℕ → Shared L → ℕ × Shared L
  obtained ip start none s = create ip start s
  obtained ip start (some h) s = (h, touch ip start s)

  -- A request that no other one disturbs: `start` and `now` are its readings of the clock.
  unfoldable pub handle : Bytes → ℕ → ℕ → Shared L → Answer × Shared L
  unfolding create allow touch
  handle ip start now s =
      let (h, s1) = obtained ip start (find ip s.limiter_map) s in
      let (ok, s2) = allow h now s1 in (if ok then next else too_many_requests, s2)
