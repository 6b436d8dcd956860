-- ===== src/Redis/Lock/Laws.antt =====
-- What pkg/redis/lock.go relies on in Redis: the documented commands, read through GET.
use go_admin.Common.{
  ℕ, ◌+◌, ◌*◌, ◌/◌, ◌≤◌, ◌<◌, ◌≡◌, Bool, true, false, Option, none, some, Bytes, ℤ, pos, ltb, ◌&&◌,
  if◌then◌else◌, ◌==◌, text_eq,
}
use go_admin.Redis.Lock.{Server}

abbrev pub is_free : Option Bytes → Bool
is_free none = true
is_free (some _) = false

-- The client sends a time to live in whole milliseconds, at least one.
abbrev pub lifetime : ℕ → ℕ
lifetime ttl = if ltb ttl 1000000 then 1000000 else ttl / 1000000 * 1000000

pub record ServerLaws {R : Type 0} (server : Server R) : Type 0 where
  -- SET NX stores a key that is free, for as long as its time to live, and changes nothing else.
  pub set_nx_reply :
      (now : ℕ) (k t : Bytes) (ttl : ℤ) (r : R)
      → (server.set_nx now k t ttl r).0 ≡ is_free (server.get now k r)
  pub get-set_nx :
      (now s : ℕ) (k t : Bytes) (ttl : ℕ) (r : R)
      → now ≤ s
      → 0 < ttl
      → is_free (server.get now k r) ≡ true
      → server.get s k (server.set_nx now k t (pos ttl) r).1
        ≡ (if ltb s (now + lifetime ttl) then some t else none)
  pub get-set_nx_other :
      (now s : ℕ) (k j t : Bytes) (ttl : ℤ) (r : R)
      → now ≤ s
      → ((k == j) && is_free (server.get now k r)) ≡ false
      → server.get s j (server.set_nx now k t ttl r).1 ≡ server.get s j r
  -- DEL and PEXPIRE of a key that is there.
  pub get-del :
      (now s : ℕ) (k j : Bytes) (r : R)
      → now ≤ s
      → server.get s j (server.del now k r).1 ≡ (if k == j then none else server.get s j r)
  pub del_reply :
      (now : ℕ) (k v : Bytes) (r : R) → server.get now k r ≡ some v → (server.del now k r).0 ≡ 1
  pub get-pexpire :
      (now s : ℕ) (k j v : Bytes) (ms : ℕ) (r : R)
      → now ≤ s
      → server.get now k r ≡ some v
      → server.get s j (server.pexpire now k ms r).1 ≡ (
          if k == j
          then (if ltb s (now + ms * 1000000) then some v else none)
          else server.get s j r)
