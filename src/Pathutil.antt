-- ===== src/Pathutil.antt =====
-- pkg/pathutil/path.go: the root of the project. os.Stat, os.Getwd and os.LookupEnv are parameters. A
-- working directory is an absolute clean path, here its names from the innermost out; filepath.Dir
-- takes the first away and leaves the root, the empty list, as it is.
pub mod Nearest
use go_admin.Common.{
  Bool, true, false, ◌||◌, ◌⊎◌, inl, inr, Option, none, some, List, [], ◌∷◌, ◌++◌, Bytes, bytes,
  if◌then◌else◌,
}
use go_admin.Outcome.{Error, new}

-- rootMarkers
abbrev pub root_markers : List Bytes
root_markers = bytes "go.mod" ∷ bytes "conf" ∷ []

-- A directory, and whether os.Stat finds a name in one.
abbrev pub Dir : Type 0
Dir = List Bytes

module _ (exists : Dir → Bytes → Bool) where
  -- The inner loop of findRootFrom.
  unfoldable pub any_marker : List Bytes → Dir → Bool
  any_marker [] dir = false
  any_marker (m ∷ ms) dir = exists dir m || any_marker ms dir

  abbrev root_or_error : Bool → Dir → Option Dir
  root_or_error b dir = if b then some dir else none

  -- findRootFrom; `none` is ErrProjectRootNotFound.
  unfoldable pub find_root_from : Dir → Option Dir
  unfolding any_marker
  find_root_from [] = root_or_error (any_marker root_markers []) []
  find_root_from (name ∷ dir) =
      let above = find_root_from dir in
      if any_marker root_markers (name ∷ dir) then some (name ∷ dir) else above

  -- ProjectRoot; the arguments are PROJECT_ROOT made absolute, if it is set and not empty, and what
  -- os.Getwd answers.
  abbrev from_wd : Error ⊎ Dir → Error ⊎ Option Dir
  from_wd (inl e) = inl e
  from_wd (inr wd) = inr (find_root_from wd)

  unfoldable pub project_root : Option (Error ⊎ Dir) → Error ⊎ Dir → Error ⊎ Option Dir
  unfolding find_root_from
  project_root (some (inl e)) wd = inl e
  project_root (some (inr root)) wd = inr (some root)
  project_root none wd = from_wd wd

  -- AbsPath of a clean relative path, its names from the innermost out; `inl` is the path as it is.
  abbrev joined : Dir → Error ⊎ Option Dir → Dir ⊎ Dir
  joined path (inl e) = inl path
  joined path (inr none) = inl path
  joined path (inr (some root)) = inr (path ++ root)

  unfoldable pub abs_path : Option (Error ⊎ Dir) → Error ⊎ Dir → Dir → Dir ⊎ Dir
  unfolding project_root
  abs_path root wd path = joined path (project_root root wd)
