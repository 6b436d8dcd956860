-- ===== src/Store.antt =====
-- pkg/store/memory.go: the in-process map with expiry that the permission cache and the in-memory
-- revocation list are built on. A Go map is an association list with at most one entry to a key;
-- `expires_at` is `none` where Go holds the zero time. The clock is read inside the methods: each
-- method takes the readings, in the order in which it makes them, in nanoseconds.
pub mod View
pub mod Writes
pub mod Race
use go_admin.Common.{
  ℕ, zero, suc, ◌+◌, Bool, true, false, Option, none, some, List, [], ◌∷◌, not, ℤ, pos, negsuc,
  sub_ℕ, is_pos, ltb, if◌then◌else◌, Eq, ◌==◌, length, filter,
}

-- entry[V]
pub record Entry (V : Type 0) : Type 0 where
  pub value : V
  pub expires_at : Option ℕ

-- Memory[K, V], its lock left out: a method that holds the lock is one step.
pub record Memory (K V : Type 0) : Type 0 where
  pub default_ttl : ℤ
  pub m : List (K × Entry V)

-- isExpired, at the reading `now`: an entry is live up to its expiry and at it.
unfoldable pub is_expired : ℕ → Option ℕ → Bool
is_expired now none = false
is_expired now (some t) = ltb t now

abbrev pub new_memory : {K V : Type 0} → ℤ → Memory K V
new_memory ttl = record { default_ttl = ttl; m = [] }

module _ {K V : Type 0} ⦃e : Eq K⦄ where
  -- s.m[key]
  unfoldable pub lookup : K → List (K × Entry V) → Option (Entry V)
  lookup key [] = none
  lookup key ((k, x) ∷ m) = if k == key then some x else lookup key m

  -- delete(s.m, key)
  unfoldable pub remove : K → List (K × Entry V) → List (K × Entry V)
  remove key [] = []
  remove key ((k, x) ∷ m) = let rest = remove key m in if k == key then rest else (k, x) ∷ rest

  -- s.m[key] = x
  unfoldable pub put : K → Entry V → List (K × Entry V) → List (K × Entry V)
  put key x m = (key, x) ∷ remove key m

  -- Delete
  unfoldable pub delete : K → Memory K V → Memory K V
  delete key s = record s { m = remove key s.m }

  -- What Get does with the entry that it found.
  abbrev answer : Memory K V → K → ℕ → Option (Entry V) → Option V × Memory K V
  answer s key now none = (none, s)
  answer s key now (some x) =
      if is_expired now x.expires_at then (none, delete key s) else (some x.value, s)

  -- Get
  unfoldable pub get : ℕ → K → Memory K V → Option V × Memory K V
  get now key s = answer s key now (lookup key s.m)

  -- Has
  unfoldable pub has : ℕ → K → Memory K V → Bool × Memory K V
  unfolding get
  has now key s = let (v, s') = get now key s in (elim v [ none ↦ false | some _ ↦ true ], s')

  -- cleanupLocked
  unfoldable pub cleanup : ℕ → Memory K V → Memory K V
  cleanup now s = record s { m = filter (λ p. not (is_expired now p.1.expires_at)) s.m }

  -- SetWithTTL: `now` is read for the expiry, `then'` by the cleanup behind it.
  unfoldable pub set_with_ttl : (now then' : ℕ) → K → V → ℤ → Memory K V → Memory K V
  set_with_ttl now then' key value (pos (suc n)) s =
      cleanup then'
        (record s { m = put key (record { value = value; expires_at = some (now + suc n) }) s.m })
  set_with_ttl now then' key value ttl s = cleanup then' (record s { m = remove key s.m })

  -- Set
  unfoldable pub set : (now then' : ℕ) → K → V → Memory K V → Memory K V
  set now then' key value s =
      if is_pos s.default_ttl
      then set_with_ttl now then' key value s.default_ttl s
      else cleanup then'
          (record s { m = put key (record { value = value; expires_at = none }) s.m })

  -- SetUntil: `until` is the reading of time.Until.
  unfoldable pub set_until : (until now then' : ℕ) → K → V → ℕ → Memory K V → Memory K V
  set_until until now then' key value expires_at s =
      set_with_ttl now then' key value (sub_ℕ expires_at until) s

  -- Clear
  unfoldable pub clear : Memory K V → Memory K V
  clear s = record s { m = [] }

-- Len
unfoldable pub len : {K V : Type 0} → Memory K V → ℕ
len s = length s.m
