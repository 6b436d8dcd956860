-- ===== src/Store/Race.antt =====
-- Get of pkg/store/memory.go gives its read lock back before Delete takes the write lock: other
-- goroutines may run between the two. The two halves are steps of their own here.
use go_admin.Common.{ℕ, ◌≤◌, ◌≡◌, Option, none, some, Eq, beq_refl, arith, if◌then◌else◌, is_pos}
use go_admin.Store.{Entry, Memory, is_expired, lookup, delete, get, set}
use go_admin.Store.View.{view, HasUniqueKeys}
use go_admin.Store.Writes.{view-delete, view-set, written}

-- What the half under the read lock decides: to answer, or to delete the key.
pub data Read (V : Type 0) : Type 0 where
  found : V → Read V
  missing expired : Read V

abbrev verdict : {V : Type 0} → ℕ → Option (Entry V) → Read V
verdict now none = missing
verdict now (some x) = if is_expired now x.expires_at then expired else found x.value

module _ {K V : Type 0} ⦃e : Eq K⦄ where
  -- Get up to mu.RUnlock()
  unfoldable pub get_read : ℕ → K → Memory K V → Read V
  get_read now key s = verdict now (lookup key s.m)

  -- Get behind it
  unfoldable pub get_finish : K → Read V → Memory K V → Option V × Memory K V
  get_finish key (found v) s = (some v, s)
  get_finish key missing s = (none, s)
  get_finish key expired s = (none, delete key s)

  -- With nothing in between the two halves are Get.
  pub get_finish-get_read :
      (now : ℕ) (key : K) (s : Memory K V) → get_finish key (get_read now key s) s ≡ get now key s
  unfolding get get_read get_finish
  get_finish-get_read now key s = ground arith

  -- If the half of Get under the read lock found an expired entry and another goroutine sets the
  -- key before the other half runs, that half removes the value that was set: a reader finds it
  -- before, unless its time is over, and nothing after.
  pub get_finish-drops_set :
      (now now' then' t : ℕ) (key : K) (v : V) (s : Memory K V)
      → HasUniqueKeys s.m
      → get_read now key s ≡ expired
      → then' ≤ t
      → (view t (set now' then' key v s) key
          ≡ (if is_pos s.default_ttl then written now' t v s.default_ttl else some v))
        × (view t (get_finish key (get_read now key s) (set now' then' key v s)).1 key ≡ none)
  unfolding get_finish
  get_finish-drops_set now now' then' t key v s u old h = (
    ground (arith, view-set now' then' t key key v s u h, beq_refl key),
    rw old (ground (arith, view-delete t key key (set now' then' key v s), beq_refl key)),
  )
