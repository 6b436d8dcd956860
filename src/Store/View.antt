-- ===== src/Store/View.antt =====
-- The abstract view of the map of pkg/store/memory.go, and what each method does to it.
use go_admin.Common.{
  ℕ, ◌≤◌, ◌≡◌, refl, Bool, Option, none, some, List, [], ◌∷◌, not, if◌then◌else◌, Eq, ◌==◌,
  beq_refl, filter, arith,
}
use go_admin.Store.{Entry, Memory, is_expired, lookup, remove, put, delete, get, cleanup}

-- The entry as a reader at time `now` sees it.
abbrev pub live : {V : Type 0} → ℕ → Option (Entry V) → Option V
live now none = none
live now (some x) = if is_expired now x.expires_at then none else some x.value

-- The entry, unless cleanupLocked at time `now` drops it.
abbrev kept : {V : Type 0} → ℕ → Option (Entry V) → Option (Entry V)
kept now none = none
kept now (some x) = if is_expired now x.expires_at then none else some x

-- What is not live at one time is not live later.
live-kept :
    {V : Type 0} (now t : ℕ) (o : Option (Entry V)) → now ≤ t → live t (kept now o) ≡ live t o
unfolding is_expired
live-kept now t none h = refl
live-kept now t (some x) h = ground arith

module _ {K V : Type 0} ⦃e : Eq K⦄ where
  -- The partial map from keys to values that holds at time `now`.
  unfoldable pub view : ℕ → Memory K V → K → Option V
  unfolding lookup is_expired
  view now s key = live now (lookup key s.m)

  -- At most one entry to a key, as in a Go map.
  abbrev pub IsAbsent : K → List (K × Entry V) → Type 0
  IsAbsent key m = lookup key m ≡ none

  abbrev pub HasUniqueKeys : List (K × Entry V) → Type 0
  HasUniqueKeys [] = Unit
  HasUniqueKeys ((k, x) ∷ m) = IsAbsent k m × HasUniqueKeys m

  pub lookup-remove :
      (k j : K) (m : List (K × Entry V))
      → lookup j (remove k m) ≡ (if k == j then none else lookup j m)
  unfolding lookup remove
  lookup-remove k j [] = ground arith
  lookup-remove k j ((i, x) ∷ m) =
      ground (arith, lookup-remove k j m, e.beq_iff i k, e.beq_iff i j, e.beq_iff k j)

  pub lookup-put :
      (k j : K) (x : Entry V) (m : List (K × Entry V))
      → lookup j (put k x m) ≡ (if k == j then some x else lookup j m)
  unfolding put lookup
  lookup-put k j x m = ground (arith, lookup-remove k j m)

  -- the test of cleanupLocked
  abbrev stays : ℕ → K × Entry V → Bool
  stays now p = not (is_expired now p.1.expires_at)

  filter-IsAbsent :
      (now : ℕ) (k : K) (m : List (K × Entry V)) → IsAbsent k m → IsAbsent k (filter (stays now) m)
  unfolding filter lookup
  filter-IsAbsent now k [] h = refl
  filter-IsAbsent now k ((i, x) ∷ m) h = ground (arith, filter-IsAbsent now k m)

  lookup-filter :
      (now : ℕ) (k : K) (m : List (K × Entry V))
      → HasUniqueKeys m
      → lookup k (filter (stays now) m) ≡ kept now (lookup k m)
  unfolding filter lookup
  lookup-filter now k [] u = refl
  lookup-filter now k ((i, x) ∷ m) u =
      ground (arith, lookup-filter now k m u.1, filter-IsAbsent now i m u.0, e.beq_iff i k)

  pub view-cleanup :
      (now t : ℕ) (s : Memory K V) (j : K)
      → HasUniqueKeys s.m
      → now ≤ t
      → view t (cleanup now s) j ≡ view t s j
  unfolding view cleanup
  view-cleanup now t s j u h =
      ground (arith, lookup-filter now j s.m u, live-kept now t (lookup j s.m) h)

  -- Get answers with the live value of its key, and no reader at that time or later finds under
  -- any key anything else than before.
  pub view-get :
      (now t : ℕ) (key : K) (s : Memory K V) (j : K)
      → now ≤ t
      → ((get now key s).0 ≡ view now s key) × (view t (get now key s).1 j ≡ view t s j)
  unfolding view get delete
  view-get now t key s j h =
      (ground arith, ground (arith, lookup-remove key j s.m, e.beq_iff key j))

  pub HasUniqueKeys-filter :
      (now : ℕ) (m : List (K × Entry V)) → HasUniqueKeys m → HasUniqueKeys (filter (stays now) m)
  unfolding filter
  HasUniqueKeys-filter now [] u = tt
  HasUniqueKeys-filter now ((i, x) ∷ m) u =
      ground (arith, HasUniqueKeys-filter now m u.1, filter-IsAbsent now i m u.0)

  pub HasUniqueKeys-remove :
      (k : K) (m : List (K × Entry V)) → HasUniqueKeys m → HasUniqueKeys (remove k m)
  unfolding remove
  HasUniqueKeys-remove k [] u = tt
  HasUniqueKeys-remove k ((i, x) ∷ m) u =
      ground (arith, HasUniqueKeys-remove k m u.1, lookup-remove k i m, u.0)

  pub HasUniqueKeys-put :
      (k : K) (x : Entry V) (m : List (K × Entry V)) → HasUniqueKeys m → HasUniqueKeys (put k x m)
  unfolding put
  HasUniqueKeys-put k x m u =
      (ground (arith, lookup-remove k k m, beq_refl k), HasUniqueKeys-remove k m u)
