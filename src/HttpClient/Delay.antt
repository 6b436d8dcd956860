-- ===== src/HttpClient/Delay.antt =====
-- The durations that waitBackoff of pkg/httpclient/httpclient.go waits.
use go_admin.Common.{ℕ, zero, suc, ◌+◌, ◌-◌, ◌*◌, ◌%◌, ◌≤◌, ◌<◌, ◌≡◌, pos, arith}
use go_admin.HttpClient.Request.{delay, pow2}

pow2_pos : (n : ℕ) → 0 < pow2 n
pow2_pos zero = omega arith
pow2_pos (suc n) = omega (arith, pow2_pos n)

pub pow2_le : (n d : ℕ) → pow2 n ≤ pow2 (n + d)
pow2_le n zero = let e : n + 0 ≡ n = omega arith in rw e (omega arith)
pow2_le n (suc d) =
    let e : n + suc d ≡ suc (n + d) = omega arith in rw e (omega (arith, pow2_le n d))

wrapped_product :
    (b p : ℕ)
    → 0 < p
    → b * p < 9223372036854775808
    → (b % 18446744073709551616 * (p % 18446744073709551616)) % 18446744073709551616 ≡ b * p
wrapped_product zero p h k = omega arith
wrapped_product (suc b) p h k =
    let below : suc b ≤ suc b * p = grind arith in
    let fits : p ≤ suc b * p = grind arith in
    let left : suc b % 18446744073709551616 ≡ suc b = omega arith in
    let right : p % 18446744073709551616 ≡ p = omega arith in rw (left, right) (omega arith)

-- A product of a duration with a power of two that fits an int64 does not wrap.
pub delay_lem :
    (b n : ℕ) → b * pow2 n < 9223372036854775808 → delay (pos b) (suc n) ≡ pos (b * pow2 n)
unfolding delay
delay_lem b n h =
    let e = wrapped_product b (pow2 n) (pow2_pos n) h in
    let back : suc n - 1 ≡ n = omega arith in rw back (rw e (ground arith))
