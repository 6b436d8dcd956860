-- ===== src/Tests/Locks.antt =====
-- pkg/redis/lock.go on one node in memory.
use go_admin.Common.{
  ℕ, ◌+◌, ◌*◌, ◌≡◌, ◌≢◌, refl, ap, inl, Bool, true, false, Option, none, some, [], ◌∷◌, Bytes,
  bytes, ℤ, pos, pos_part, ltb, ◌&&◌, if◌then◌else◌, ◌==◌, text_eq, list_beq_iff, arith,
}
use go_admin.Outcome.{ok}
use go_admin.Redis.Lock.{
  up, Server, Lock, Reply, done, try_lock, lock_from, with_lock, new_lock, with_ttl,
  with_max_retries,
}
use go_admin.Redis.Lock.Laws.{ServerLaws, is_free, lifetime}
use go_admin.Redis.Lock.Exclusion.{tries, unlocks, perform_all, try_lock_excludes}
use go_admin.Redis.Lock.Attempts.{lock_returns, with_lock_releases, Answered, released, IsReleased}

-- Values and their deadlines.
abbrev Node : Type 0
Node = Bytes → Option (Bytes × ℕ)

abbrev live_at : ℕ → Option (Bytes × ℕ) → Option Bytes
live_at now none = none
live_at now (some (v, deadline)) = if ltb now deadline then some v else none

abbrev get_at : ℕ → Bytes → Node → Option Bytes
get_at now k node = live_at now (node k)

abbrev with_entry : Bytes → Option (Bytes × ℕ) → Node → Node
with_entry k x node j = if k == j then x else node j

abbrev set_free : ℕ → Bytes → Bytes → ℤ → Option Bytes → Node → Bool × Node
set_free now k t ttl none node = (true, with_entry k (some (t, now + lifetime (pos_part ttl))) node)
set_free now k t ttl (some _) node = (false, node)

abbrev expire : ℕ → Bytes → ℕ → Option Bytes → Node → ℕ × Node
expire now k ms none node = (0, node)
expire now k ms (some v) node = (1, with_entry k (some (v, now + ms * 1000000)) node)

abbrev delete : Bytes → Option Bytes → Node → ℕ × Node
delete k none node = (0, with_entry k none node)
delete k (some _) node = (1, with_entry k none node)

abbrev memory_server : Server Node
memory_server = record {
  link = λ now node. up;
  get = get_at;
  set_nx = λ now k t ttl node. set_free now k t ttl (get_at now k node) node;
  del = λ now k node. delete k (get_at now k node) node;
  pexpire = λ now k ms node. expire now k ms (get_at now k node) node;
}

get-with_entry :
    (s : ℕ) (k j : Bytes) (x : Option (Bytes × ℕ)) (node : Node)
    → get_at s j (with_entry k x node) ≡ (if k == j then live_at s x else get_at s j node)
get-with_entry s k j x node = split (k == j)
  where
    split :
        (b : Bool)
        → live_at s (if b then x else node j) ≡ (if b then live_at s x else get_at s j node)
    split true = refl
    split false = refl

set_free_reply :
    (now : ℕ) (k t : Bytes) (ttl : ℤ) (o : Option Bytes) (node : Node)
    → (set_free now k t ttl o node).0 ≡ is_free o
set_free_reply now k t ttl none node = refl
set_free_reply now k t ttl (some v) node = refl

get-set_free :
    (now s : ℕ) (k t : Bytes) (ttl : ℕ) (o : Option Bytes) (node : Node)
    → is_free o ≡ true
    → get_at s k (set_free now k t (pos ttl) o node).1
      ≡ (if ltb s (now + lifetime ttl) then some t else none)
get-set_free now s k t ttl none node h =
    ground (arith, get-with_entry s k k (some (t, now + lifetime ttl)) node, list_beq_iff k k)
get-set_free now s k t ttl (some v) node h = cc

get-set_free_other :
    (now s : ℕ) (k j t : Bytes) (ttl : ℤ) (o : Option Bytes) (node : Node)
    → ((k == j) && is_free o) ≡ false
    → get_at s j (set_free now k t ttl o node).1 ≡ get_at s j node
get-set_free_other now s k j t ttl none node h =
    ground (arith, get-with_entry s k j (some (t, now + lifetime (pos_part ttl))) node)
get-set_free_other now s k j t ttl (some v) node h = refl

get-delete :
    (s : ℕ) (k j : Bytes) (o : Option Bytes) (node : Node)
    → get_at s j (delete k o node).1 ≡ (if k == j then none else get_at s j node)
get-delete s k j none node = get-with_entry s k j none node
get-delete s k j (some v) node = get-with_entry s k j none node

delete_reply : (k v : Bytes) (o : Option Bytes) (node : Node) → o ≡ some v → (delete k o node).0 ≡ 1
delete_reply k v none node h = cc
delete_reply k v (some w) node h = refl

get-expire :
    (now s : ℕ) (k j v : Bytes) (ms : ℕ) (o : Option Bytes) (node : Node)
    → o ≡ some v
    → get_at s j (expire now k ms o node).1
      ≡ (if k == j then (if ltb s (now + ms * 1000000) then some v else none) else get_at s j node)
get-expire now s k j v ms none node h = cc
get-expire now s k j v ms (some w) node h =
    ground (arith, get-with_entry s k j (some (w, now + ms * 1000000)) node)

memory_server-Laws : ServerLaws memory_server
memory_server-Laws = record {
  set_nx_reply = λ now k t ttl r. set_free_reply now k t ttl (get_at now k r) r;
  get-set_nx = λ now s k t ttl r h p free. get-set_free now s k t ttl (get_at now k r) r free;
  get-set_nx_other =
      λ now s k j t ttl r h other. get-set_free_other now s k j t ttl (get_at now k r) r other;
  get-del = λ now s k j r h. get-delete s k j (get_at now k r) r;
  del_reply = λ now k v r h. delete_reply k v (get_at now k r) r h;
  get-pexpire = λ now s k j v ms r h e. get-expire now s k j v ms (get_at now k r) r e;
}

abbrev empty_node : Node
empty_node k = none

-- Two locks of one resource, for two milliseconds each, with at most one retry.
abbrev lock_of : Bytes → Lock
lock_of token = record {
  key = bytes "go_admin:lock:job";
  token = token;
  opts = record {
    ttl = pos 2000000;
    retry_interval = pos 50000000;
    max_retries = pos 1;
    key_prefix = bytes "go_admin:lock:";
  };
}

new_lock_gives :
    new_lock (bytes "job") (bytes "a") (with_ttl (pos 2000000) ∷ with_max_retries (pos 1) ∷ [])
    ≡ lock_of (bytes "a")
unfolding new_lock
new_lock_gives = refl

try_lock_excludes_example :
    let r' =
      perform_all memory_server
        (tries 7 (lock_of (bytes "b")) ∷ unlocks 9 (lock_of (bytes "b")) ∷ [])
        (try_lock memory_server 5 (lock_of (bytes "a")) empty_node).1 in
    (get_at 10 (bytes "go_admin:lock:job") r' ≡ some (bytes "a"))
    × ((try_lock memory_server 10 (lock_of (bytes "b")) r').0 ≢ done)
unfolding try_lock
try_lock_excludes_example =
    try_lock_excludes memory_server memory_server-Laws 5 1999999 10 (lock_of (bytes "a"))
      (lock_of (bytes "b")) (tries 7 (lock_of (bytes "b")) ∷ unlocks 9 (lock_of (bytes "b")) ∷ [])
      empty_node refl refl (not_same, omega arith, (not_same, omega arith, omega arith))
      (omega arith) refl
  where
    not_same : ¬ (bytes "b" ≡ bytes "a")
    not_same h = cc (ap (λ s. s == bytes "b") h)

-- The attempts find the lock taken until the clock reaches its end.
abbrev clock : ℕ → ℕ
clock n = 5 + n * 3000000

abbrev taken : Node
unfolding try_lock
taken = (try_lock memory_server 5 (lock_of (bytes "a")) empty_node).1

abbrev retaken : Node
unfolding try_lock
retaken = (try_lock memory_server 3000005 (lock_of (bytes "b")) taken).1

lock_returns_example :
    (x : Reply × Node) × (lock_from memory_server clock
        (λ n. false)
        (λ n r. r)
        (lock_of (bytes "b"))
        2
        0
        taken
      ≡ some x)
    × Answered memory_server clock (λ n. false) (λ n r. r) (lock_of (bytes "b")) 1 x
lock_returns_example =
    lock_returns memory_server clock (λ n. false) (λ n r. r) (lock_of (bytes "b")) 1 taken
      (inl (0, refl, omega arith))

second_attempt_obtains :
    lock_from memory_server clock (λ n. false) (λ n r. r) (lock_of (bytes "b")) 2 0 taken
    ≡ some (done, retaken)
unfolding lock_from try_lock
second_attempt_obtains = refl

with_lock_releases_example :
    (r2 : Node) × (with_lock memory_server clock
        (λ n. false)
        (λ n r. r)
        (lock_of (bytes "b"))
        2
        3000006
        (λ r. (ok tt, r))
        taken
      ≡ some (released (ok tt), r2))
    × IsReleased memory_server (ok tt) 3000006 (lock_of (bytes "b")) retaken r2
unfolding try_lock
with_lock_releases_example =
    with_lock_releases memory_server memory_server-Laws clock (λ n. false) (λ n r. r)
      (lock_of (bytes "b")) 2 3000006 (λ r. (ok tt, r)) taken retaken second_attempt_obtains refl
      refl
