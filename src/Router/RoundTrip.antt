-- ===== src/Router/RoundTrip.antt =====
-- internal/platform/router/register.go: the name of a handler can be read off its path.
use go_admin.Common.{
  ℕ, ◌+◌, ◌-◌, ◌<◌, ◌≡◌, refl, sym, ap, subst, ◌∙◌, inl, inr, Bool, true, false, Bool-cases, ◌&&◌,
  ◌||◌, List, [], ◌∷◌, ◌++◌, Bytes, bytes, leb, if◌then◌else◌, ◌==◌, nat_eq, nat_beq_iff,
  has_prefix, trim_prefix, has_suffix, trim_suffix, trim_suffix-append, Elem, All, arith, drop,
  length,
}
use go_admin.Router.Paths.{
  Method, get, post, put, delete, other, PathFormat, snake_case, slash_case, Unicode, case_from,
  to_case, apply_path_format, format_path, split_method_prefix, infer_from_name,
}

-- Package unicode on ASCII.
pub record UnicodeLaws (unicode : Unicode) : Type 0 where
  pub is_upper_ascii : (c : ℕ) → c < 128 → unicode.is_upper c ≡ (leb 65 c && leb c 90)
  pub to_lower_ascii :
      (c : ℕ) → c < 128 → unicode.to_lower c ≡ (if leb 65 c && leb c 90 then c + 32 else c)

abbrev pub is_capital : ℕ → Bool
is_capital c = leb 65 c && leb c 90

abbrev is_lower : ℕ → Bool
is_lower c = leb 97 c && leb c 122

abbrev pub to_upper : ℕ → ℕ
to_upper c = if is_lower c then c - 32 else c

abbrev pub is_separator : ℕ → Bool
is_separator c = c == b'/' || c == b'_'

abbrev pub capital : Bytes → Bytes
capital [] = []
capital (c ∷ s) = to_upper c ∷ s

-- The name that a path stands for: what is behind a separator begins with an upper-case letter.
abbrev pub words_of : Bytes → Bytes
words_of [] = []
words_of (c ∷ s) = let rest = words_of s in if is_separator c then capital rest else c ∷ rest

-- A part of an identifier of ASCII characters, with no separator in it.
abbrev pub IsPlain : Bytes → Type 0
IsPlain = All (λ c. (is_separator c ≡ false) × (c < 128))

abbrev pub IsBase : Bytes → Type 0
IsBase [] = Unit
IsBase (c ∷ s) = (is_capital c ≡ true) × IsPlain s

IsBase-front : (a b : Bytes) → IsBase (a ++ b) → IsBase a
IsBase-front [] b h = tt
IsBase-front (c ∷ a) b h = (h.0, plain a h.1)
  where
    plain : (a : Bytes) → IsPlain (a ++ b) → IsPlain a
    plain [] h = tt
    plain (c ∷ a) h = (h.0, plain a h.1)

capital-base : (s : Bytes) → IsBase s → capital s ≡ s
capital-base [] h = refl
capital-base (c ∷ s) h = ground arith

append-nil : (s : Bytes) → s ++ [] ≡ s
append-nil [] = refl
append-nil (c ∷ s) = ap (◌∷◌ c) (append-nil s)

-- The prefixes of names with that method.
abbrev pub prefixes : Method → List Bytes
prefixes get = bytes "Get" ∷ []
prefixes post = bytes "Post" ∷ bytes "Create" ∷ [] ∷ []
prefixes put = bytes "Put" ∷ bytes "Update" ∷ []
prefixes delete = bytes "Delete" ∷ []
prefixes (other _) = []

prefix-drop : (s p : Bytes) → has_prefix s p ≡ true → s ≡ p ++ drop (length p) s
prefix-drop s [] h = refl
prefix-drop [] (b ∷ p) h = cc
prefix-drop (a ∷ s) (b ∷ p) h = ground (arith, prefix-drop s p, nat_beq_iff a b)

-- A name is one of the prefixes of its method, followed by its base.
abbrev IsSplit : Bytes → Method × Bytes → Type 0
IsSplit name x = (prefix : Bytes) × Elem prefix (prefixes x.0) × (name ≡ prefix ++ x.1)

choose :
    (name p : Bytes) (m : Method) (rest : Method × Bytes)
    → Elem p (prefixes m)
    → IsSplit name rest
    → IsSplit name (if has_prefix name p then (m, trim_prefix name p) else rest)
choose name p m rest k r = go (has_prefix name p) (prefix-drop name p)
  where
    go :
        (b : Bool)
        → (b ≡ true → name ≡ p ++ drop (length p) name)
        → IsSplit name (if b then (m, if b then drop (length p) name else name) else rest)
    go true e = (p, k, e refl)
    go false e = r

split_method_prefix-IsSplit : (name : Bytes) → IsSplit name (split_method_prefix name)
unfolding split_method_prefix
split_method_prefix-IsSplit name = choose name (bytes "Get") get _ (inl refl) (
    choose name (bytes "Post") post _ (inl refl) (
      choose name (bytes "Create") post _ (inr (inl refl)) (
        choose name (bytes "Put") put _ (inl refl) (
          choose name (bytes "Update") put _ (inr (inl refl))
            (choose name (bytes "Delete") delete _ (inl refl) ([], inr (inr (inl refl)), refl))))))

module _ (unicode : Unicode) (laws : UnicodeLaws unicode) where
  case_from-words :
      (sep prev : ℕ) (s t : Bytes)
      → is_separator sep ≡ true
      → is_separator prev ≡ false
      → IsPlain s
      → words_of (case_from unicode sep prev s ++ t) ≡ s ++ words_of t
  unfolding case_from
  case_from-words sep prev [] t hs hp h = refl
  case_from-words sep prev (c ∷ s) t hs hp h =
      let upper = laws.is_upper_ascii c h.0.1 in
      let lower = laws.to_lower_ascii c h.0.1 in
      rw upper
        (rw lower (ground (arith, case_from-words sep c s t hs h.0.0 h.1, nat_beq_iff prev sep)))

  to_case-words :
      (sep : ℕ) (s t : Bytes)
      → is_separator sep ≡ true
      → IsBase s
      → words_of (bytes "/" ++ (to_case unicode sep s ++ t)) ≡ capital (s ++ words_of t)
  unfolding to_case
  to_case-words sep [] t hs h = refl
  to_case-words sep (c ∷ s) t hs h =
      let lower = laws.to_lower_ascii c (ground (arith, h.0)) in
      rw lower (ground (arith, h.0, case_from-words sep c s t hs (ground (arith, h.0)) h.1))

  apply_path_format-words :
      (name t : Bytes) (strategy : PathFormat)
      → IsBase name
      → words_of (apply_path_format unicode name strategy ++ t) ≡ capital (name ++ words_of t)
  unfolding apply_path_format
  apply_path_format-words name t slash_case h = to_case-words b'/' name t refl h
  apply_path_format-words name t snake_case h = to_case-words b'_' name t refl h

  pub format_path-words :
      (name : Bytes) (strategy : PathFormat)
      → IsBase name
      → words_of (format_path unicode name strategy) ≡ name
  unfolding format_path
  format_path-words name strategy h = elim (Bool-cases (has_suffix name (bytes "List"))) [
    | inl listed ↦
        (let whole = trim_suffix-append name (bytes "List") listed in
          let base =
            IsBase-front (trim_suffix name (bytes "List")) (bytes "List") (subst IsBase whole h) in
          let at_list =
            apply_path_format-words (trim_suffix name (bytes "List")) (bytes "/list") strategy
              base in
          ap
            (λ b. words_of (
              if b
              then apply_path_format unicode (trim_suffix name (bytes "List")) strategy
                ++ bytes "/list"
              else apply_path_format unicode name strategy))
            listed
          ∙ at_list
          ∙ ap capital (sym whole)
          ∙ capital-base name h)
    | inr plain ↦
        (let at_end = apply_path_format-words name [] strategy h in
          ap
            (λ b. words_of (
              if b
              then apply_path_format unicode (trim_suffix name (bytes "List")) strategy
                ++ bytes "/list"
              else apply_path_format unicode name strategy))
            plain
          ∙ ap words_of (sym (append-nil (apply_path_format unicode name strategy)))
          ∙ at_end
          ∙ ap capital (append-nil name)
          ∙ capital-base name h)
  ]

  -- If package unicode does what is stated on ASCII, and what splitMethodPrefix leaves of a name
  -- is empty, or is made of ASCII characters, begins with an upper-case letter and has no slash
  -- and no underscore, then, in both formats, the name is a prefix that stands for the inferred
  -- method, followed by what the words of the inferred path, each begun with an upper-case letter,
  -- make together.
  pub infer_from_name-words :
      (name : Bytes) (strategy : PathFormat)
      → IsBase (split_method_prefix name).1
      → (prefix : Bytes) × Elem prefix (prefixes (infer_from_name unicode name strategy).0)
        × (name ≡ prefix ++ words_of (infer_from_name unicode name strategy).1)
  unfolding infer_from_name
  infer_from_name-words name strategy h =
      let (prefix, m, e) = split_method_prefix-IsSplit name in
      (
        prefix,
        m,
        e ∙ ap (λ s. prefix ++ s) (sym (format_path-words (split_method_prefix name).1 strategy h)),
      )
