-- ===== src/RateLimit/Ip/Steps.antt =====
-- The steps in which the goroutines of IPRateLimiterMiddleware interleave: each critical section, and
-- each use of a limiter that some request has found before.
use go_admin.Common.{ℕ, Bytes, ℤ, nat_eq}
use go_admin.RateLimit.Ip.{
  RateLimiterConfig, Buckets, Shared, empty_shared, touch, clean, create, allow,
}

module _ {L : Type 0} (buckets : Buckets L) (rps burst : ℤ) (cfg : RateLimiterConfig) where
  pub data Step : Shared L → Shared L → Type 0 where
    creates :
        (ip : Bytes) (start : ℕ) (s : Shared L) → Step s (create buckets rps burst ip start s).1
    touches : (ip : Bytes) (start : ℕ) (s : Shared L) → Step s (touch ip start s)
    allows : (h now : ℕ) (s : Shared L) → Step s (allow buckets rps burst h now s).1
    cleans : (now : ℕ) (s : Shared L) → Step s (clean cfg now s)

  pub data Reach : Shared L → Type 0 where
    begins : Reach empty_shared
    goes_on : {s t : Shared L} → Reach s → Step s t → Reach t
