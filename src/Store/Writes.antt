-- ===== src/Store/Writes.antt =====
-- What Set, SetWithTTL, SetUntil, Delete and Clear of pkg/store/memory.go do to the abstract view.
use go_admin.Common.{
  ℕ, zero, suc, ◌+◌, ◌-◌, ◌≤◌, ◌≡◌, false, Option, none, some, List, [], ◌∷◌, not, ℤ, pos, negsuc,
  sub_ℕ, is_pos, pos_part, ltb, if◌then◌else◌, Eq, ◌==◌, filter, arith, All, ◌&&◌,
}
use go_admin.Store.{
  Entry, Memory, is_expired, remove, put, delete, get, cleanup, set_with_ttl, set, set_until,
}
use go_admin.Store.View.{
  view, live, HasUniqueKeys, HasUniqueKeys-filter, HasUniqueKeys-remove, HasUniqueKeys-put,
  lookup-remove, lookup-put, view-cleanup,
}

-- What a key holds at time `t` after a write at `now` that is to live for `ttl`.
abbrev pub written : {V : Type 0} → (now t : ℕ) → V → ℤ → Option V
written now t value ttl =
    if is_pos ttl && not (ltb (now + pos_part ttl) t) then some value else none

module _ {K V : Type 0} ⦃e : Eq K⦄ where
  -- The two ways in which the writes end.
  view-cleanup-put :
      (then' t : ℕ) (k j : K) (x : Entry V) (s : Memory K V)
      → HasUniqueKeys s.m
      → then' ≤ t
      → view t (cleanup then' (record s { m = put k x s.m })) j
        ≡ (if k == j then live t (some x) else view t s j)
  view-cleanup-put then' t k j x s u h =
      rw (view-cleanup then' t (record s { m = put k x s.m }) j (HasUniqueKeys-put k x s.m u) h)
        (unfold view in ground (arith, lookup-put k j x s.m))

  view-cleanup-remove :
      (then' t : ℕ) (k j : K) (s : Memory K V)
      → HasUniqueKeys s.m
      → then' ≤ t
      → view t (cleanup then' (record s { m = remove k s.m })) j
        ≡ (if k == j then none else view t s j)
  view-cleanup-remove then' t k j s u h =
      rw (view-cleanup then' t (record s { m = remove k s.m }) j (HasUniqueKeys-remove k s.m u) h)
        (unfold view in ground (arith, lookup-remove k j s.m))

  pub view-set_with_ttl :
      (now then' t : ℕ) (k j : K) (v : V) (ttl : ℤ) (s : Memory K V)
      → HasUniqueKeys s.m
      → then' ≤ t
      → view t (set_with_ttl now then' k v ttl s) j
        ≡ (if k == j then written now t v ttl else view t s j)
  unfolding set_with_ttl is_expired
  view-set_with_ttl now then' t k j v (pos zero) s u h = view-cleanup-remove then' t k j s u h
  view-set_with_ttl now then' t k j v (negsuc n) s u h = view-cleanup-remove then' t k j s u h
  view-set_with_ttl now then' t k j v (pos (suc n)) s u h = ground (
    arith,
    view-cleanup-put then' t k j (record { value = v; expires_at = some (now + suc n) }) s u h,
  )

  -- In a store with unique keys, a reader at any time t from the cleanup of Set on finds the new
  -- value under its key until the default time to live is over, for ever if that is not positive,
  -- and under every other key what it found before.
  pub view-set :
      (now then' t : ℕ) (k j : K) (v : V) (s : Memory K V)
      → HasUniqueKeys s.m
      → then' ≤ t
      → view t (set now then' k v s) j ≡ (
          if k == j
          then (if is_pos s.default_ttl then written now t v s.default_ttl else some v)
          else view t s j)
  unfolding set is_expired
  view-set now then' t k j v s u h = ground (
    arith,
    view-set_with_ttl now then' t k j v s.default_ttl s u h,
    view-cleanup-put then' t k j (record { value = v; expires_at = none }) s u h,
  )

  -- In a store with unique keys, after SetUntil a reader from its cleanup on finds the value up to
  -- the given time moved by what the clock went on between its two readings, nothing if that time
  -- was over, and under every other key what it found before.
  pub view-set_until :
      (until now then' t : ℕ) (k j : K) (v : V) (expires_at : ℕ) (s : Memory K V)
      → HasUniqueKeys s.m
      → until ≤ now
      → then' ≤ t
      → view t (set_until until now then' k v expires_at s) j ≡ (
          if k == j
          then (if ltb until expires_at && not (ltb (expires_at + (now - until)) t)
              then some v
              else none)
          else view t s j)
  unfolding set_until
  view-set_until until now then' t k j v expires_at s u h h' =
      ground (arith, view-set_with_ttl now then' t k j v (sub_ℕ expires_at until) s u h')

  -- Delete removes the view of its key alone.
  pub view-delete :
      (t : ℕ) (k j : K) (s : Memory K V)
      → view t (delete k s) j ≡ (if k == j then none else view t s j)
  unfolding view delete
  view-delete t k j s = ground (arith, lookup-remove k j s.m)

  -- The methods keep the keys unique.
  pub set_with_ttl-HasUniqueKeys :
      (now then' : ℕ) (k : K) (v : V) (ttl : ℤ) (s : Memory K V)
      → HasUniqueKeys s.m
      → HasUniqueKeys (set_with_ttl now then' k v ttl s).m
  unfolding set_with_ttl cleanup
  set_with_ttl-HasUniqueKeys now then' k v (pos zero) s u =
      HasUniqueKeys-filter then' _ (HasUniqueKeys-remove k s.m u)
  set_with_ttl-HasUniqueKeys now then' k v (negsuc n) s u =
      HasUniqueKeys-filter then' _ (HasUniqueKeys-remove k s.m u)
  set_with_ttl-HasUniqueKeys now then' k v (pos (suc n)) s u =
      HasUniqueKeys-filter then' _ (HasUniqueKeys-put k _ s.m u)

  -- Set keeps it true that the store has at most one entry to a key.
  pub set-HasUniqueKeys :
      (now then' : ℕ) (k : K) (v : V) (s : Memory K V)
      → HasUniqueKeys s.m
      → HasUniqueKeys (set now then' k v s).m
  unfolding set cleanup
  set-HasUniqueKeys now then' k v s u = ground (
    arith,
    set_with_ttl-HasUniqueKeys now then' k v s.default_ttl s u,
    HasUniqueKeys-filter then' _
        (HasUniqueKeys-put k (record { value = v; expires_at = none }) s.m u),
  )

  pub get-HasUniqueKeys :
      (now : ℕ) (k : K) (s : Memory K V) → HasUniqueKeys s.m → HasUniqueKeys (get now k s).1.m
  unfolding get delete
  get-HasUniqueKeys now k s u = ground (arith, HasUniqueKeys-remove k s.m u)

module _ {K V : Type 0} where
  abbrev IsLive : ℕ → K × Entry V → Type 0
  IsLive now p = is_expired now p.1.expires_at ≡ false

  All-filter :
      (now : ℕ) (m : List (K × Entry V))
      → All (IsLive now) (filter (λ p. not (is_expired now p.1.expires_at)) m)
  unfolding filter
  All-filter now [] = tt
  All-filter now (p ∷ m) = ground (arith, All-filter now m)

module _ {K V : Type 0} ⦃e : Eq K⦄ where
  -- After a cleanup no entry is expired.
  pub cleanup-IsLive : (now : ℕ) (s : Memory K V) → All (IsLive now) (cleanup now s).m
  unfolding cleanup
  cleanup-IsLive now s = All-filter now s.m
