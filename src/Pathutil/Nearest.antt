-- ===== src/Pathutil/Nearest.antt =====
-- Which directory findRootFrom of pkg/pathutil/path.go finds.
use go_admin.Common.{
  ◌≡◌, ◌↔◌, refl, ap, sym, ◌∙◌, subst, Bool, true, false, inl, inr, Option, none, some, List, [],
  ◌∷◌, ◌++◌, Bytes, Bool-cases, if◌then◌else◌, Elem, ◌||◌, arith,
}
use go_admin.Pathutil.{root_markers, Dir, any_marker, find_root_from}

module _ (exists : Dir → Bytes → Bool) where
  -- A directory that has one of the markers.
  abbrev pub IsRoot : Dir → Type 0
  IsRoot dir = (m : Bytes) × Elem m root_markers × (exists dir m ≡ true)

  any_marker_iff :
      (ms : List Bytes) (dir : Dir)
      → (any_marker exists ms dir ≡ true) ↔ ((m : Bytes) × Elem m ms × (exists dir m ≡ true))
  unfolding any_marker
  any_marker_iff [] dir = (λ h. cc, λ h. absurd (h.1))
  any_marker_iff (m ∷ ms) dir = (
    λ h. elim (Bool-cases (exists dir m)) [
      | inl e ↦ (m, inl refl, e)
      | inr e ↦ let (k, i, f) = (any_marker_iff ms dir).0 (ground arith) in (k, inr i, f)
    ],
    λ h. back (λ k i f. (any_marker_iff ms dir).1 (k, i, f)) h.0 h.1 h.2,
  )
    where
      back :
          ((k : Bytes) → Elem k ms → exists dir k ≡ true → any_marker exists ms dir ≡ true)
          → (k : Bytes) → Elem k (m ∷ ms)
          → exists dir k ≡ true
          → (exists dir m || any_marker exists ms dir) ≡ true
      back ih k (inl e) f = rw (ap (exists dir) (sym e) ∙ f) refl
      back ih k (inr i) f = ground (arith, ih k i f)

  -- The directory that is reached when some names are left, and the ones before it.
  abbrev pub NoneBefore : List Bytes → Dir → Type 0
  NoneBefore [] root = Unit
  NoneBefore (name ∷ names) root = (¬ IsRoot (name ∷ (names ++ root))) × NoneBefore names root

  marked : (dir : Dir) → any_marker exists root_markers dir ≡ true → IsRoot dir
  marked dir h = (any_marker_iff root_markers dir).0 h

  unmarked : (dir : Dir) → any_marker exists root_markers dir ≡ false → ¬ IsRoot dir
  unmarked dir h r = cc (h, (any_marker_iff root_markers dir).1 r)

  -- What the answer of findRootFrom says.
  abbrev pub Answers : Dir → Option Dir → Type 0
  Answers dir (some root) =
      (names : List Bytes) × (dir ≡ names ++ root) × IsRoot root × NoneBefore names root
  Answers dir none = (names : List Bytes) (root : Dir) → dir ≡ names ++ root → ¬ IsRoot root

  none_above :
      (name : Bytes) (dir : Dir)
      → ¬ IsRoot (name ∷ dir)
      → Answers dir none
      → (names : List Bytes) (root : Dir) → name ∷ dir ≡ names ++ root
      → ¬ IsRoot root
  none_above name dir n a [] root e = λ r. n (subst IsRoot (sym e) r)
  none_above name dir n a (x ∷ names) root e = a names root (cc e)

  none_at_top : ¬ IsRoot [] → (names : List Bytes) (root : Dir) → [] ≡ names ++ root → ¬ IsRoot root
  none_at_top n [] root e = λ r. n (subst IsRoot (sym e) r)
  none_at_top n (x ∷ names) root e = absurd (cc e)

  extend :
      (name : Bytes) (dir : Dir) (o : Option Dir)
      → ¬ IsRoot (name ∷ dir)
      → Answers dir o
      → Answers (name ∷ dir) o
  extend name dir (some root) n (names, e, r, b) =
      (name ∷ names, ap (◌∷◌ name) e, r, (subst (λ d. ¬ IsRoot (name ∷ d)) e n, b))
  extend name dir none n a = none_above name dir n a

  -- findRootFrom returns the directory itself or the nearest one above it that has one of the
  -- markers, and the error exactly if none of them has one.
  pub find_root_from-Answers : (dir : Dir) → Answers dir (find_root_from exists dir)
  unfolding find_root_from
  find_root_from-Answers [] = go (any_marker exists root_markers []) refl
    where
      go :
          (b : Bool)
          → any_marker exists root_markers [] ≡ b
          → Answers [] (if b then some [] else none)
      go true e = ([], refl, marked [] e, tt)
      go false e = none_at_top (unmarked [] e)
  find_root_from-Answers (name ∷ dir) =
      go (any_marker exists root_markers (name ∷ dir)) refl (find_root_from-Answers dir)
    where
      go :
          (b : Bool)
          → any_marker exists root_markers (name ∷ dir) ≡ b
          → Answers dir (find_root_from exists dir)
          → Answers (name ∷ dir) (if b then some (name ∷ dir) else find_root_from exists dir)
      go true e a = ([], refl, marked (name ∷ dir) e, tt)
      go false e a = extend name dir (find_root_from exists dir) (unmarked (name ∷ dir) e) a
