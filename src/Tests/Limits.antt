-- ===== src/Tests/Limits.antt =====
-- internal/platform/middleware/sentinel with counters for buckets and a node in memory.
use go_admin.Common.{
  ℕ, ◌-◌, ◌≡◌, refl, none, some, Bytes, bytes, pos, ltb, text_eq, nat_eq, find, erase, assign,
}
use go_admin.RateLimit.Ip.{
  or_default, Buckets, Shared, empty_shared, too_many_requests, handle, create, allow, touch,
}
use go_admin.RateLimit.Ip.Steps.{Reach, begins, goes_on, creates}
use go_admin.RateLimit.Ip.Sound.{Sound, Reach-Sound}
use go_admin.RateLimit.Ip.Serves.{Served, Seen, handle-Served}

-- A bucket is what is left in it.
abbrev counters : Buckets ℕ
counters = record { new_limiter = λ rps burst. 1; allow = λ now n. (ltb 0 n, n - 1) }

abbrev ip_a : Bytes
ip_a = bytes "10.0.0.1"

abbrev ip_b : Bytes
ip_b = bytes "10.0.0.2"

abbrev served_once : Shared ℕ
served_once = (create counters (pos 1) (pos 1) ip_a 5 empty_shared).1

served_once-Reach : Reach counters (pos 1) (pos 1) (or_default none) served_once
served_once-Reach = goes_on begins (creates ip_a 5 empty_shared)

Reach-Sound_example : Sound served_once
Reach-Sound_example = Reach-Sound counters (pos 1) (pos 1) (or_default none) served_once-Reach

handle-Served_example :
    let x = handle counters (pos 1) (pos 1) ip_b 6 7 served_once in
    Served counters (pos 1) (pos 1) ip_b 7 served_once x × Seen ip_b 6 served_once x.1
handle-Served_example =
    handle-Served counters (pos 1) (pos 1) ip_b 6 7 served_once Reach-Sound_example

seen_at_5 : find ip_a served_once.last_seen ≡ some 5
unfolding create find assign
seen_at_5 = refl

-- The second request of an address is refused, and one behind the cleaner is not.
second_is_refused :
    (handle counters
      (pos 1)
      (pos 1)
      ip_a
      6
      6
      (handle counters (pos 1) (pos 1) ip_a 5 5 empty_shared).1).0
    ≡ too_many_requests
unfolding handle create allow touch find assign erase
second_is_refused = refl
