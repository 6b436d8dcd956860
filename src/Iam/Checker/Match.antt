-- ===== src/Iam/Checker/Match.antt =====
-- matchPath of internal/modules/iam/service/permission_checker.go against a description of the
-- requests that a set of keys grants.
use go_admin.Common.{
  ◌≡◌, refl, sym, ap, subst, ◌∙◌, ◌↔◌, ◌⊎◌, inl, inr, true, Option, none, some, List, [], ◌∷◌, ◌++◌,
  Bytes, bytes, Bool-cases, list_beq_iff, text_eq, nat_eq, contains_iff, Elem, cut, cut-eq-some,
  cut_lem, has_prefix, has_prefix_iff, has_suffix, trim_suffix, trim_suffix-append, trim_suffix_lem,
  has_suffix-append, arith,
}
use go_admin.Iam.Checker.{key_of, key_matches, any_matches, match_path}

-- A key for every path that starts with a prefix: its method is the request's or `*`.
abbrev pub IsWildcard : List Bytes → Bytes → Bytes → Type 0
IsWildcard keys method path =
    (perm_method prefix rest : Bytes) × Elem (key_of perm_method (prefix ++ bytes "/*")) keys
    × ((perm_method ≡ method) ⊎ (perm_method ≡ bytes "*"))
    × (¬ Elem b':' perm_method)
    × (path ≡ prefix ++ rest)

-- What the loop of matchPath finds in a key that splits.
split_key_matches :
    (method path perm_method perm_path : Bytes)
    → key_matches method path (perm_method, some perm_path) ≡ true
    → (prefix rest : Bytes) × (perm_path ≡ prefix ++ bytes "/*")
      × ((perm_method ≡ method) ⊎ (perm_method ≡ bytes "*"))
      × (path ≡ prefix ++ rest)
split_key_matches method path perm_method perm_path h =
    let ends : has_suffix perm_path (bytes "/*") ≡ true = ground arith in
    let starts : has_prefix path (trim_suffix perm_path (bytes "/*")) ≡ true = ground arith in
    let (rest, e) = (has_prefix_iff path (trim_suffix perm_path (bytes "/*"))).0 starts in
    (
      trim_suffix perm_path (bytes "/*"),
      rest,
      trim_suffix-append perm_path (bytes "/*") ends,
      ground (arith, list_beq_iff perm_method method, list_beq_iff perm_method (bytes "*")),
      e,
    )

key_matches-eq-true :
    (method path key : Bytes) (parts : Bytes × Option Bytes)
    → cut b':' key ≡ parts
    → key_matches method path parts ≡ true
    → (perm_method prefix rest : Bytes) × (key ≡ key_of perm_method (prefix ++ bytes "/*"))
      × ((perm_method ≡ method) ⊎ (perm_method ≡ bytes "*"))
      × (¬ Elem b':' perm_method)
      × (path ≡ prefix ++ rest)
key_matches-eq-true method path key (perm_method, none) e h = absurd (cc h)
key_matches-eq-true method path key (perm_method, some perm_path) e h =
    let (prefix, rest, ends, m, starts) = split_key_matches method path perm_method perm_path h in
    let (whole, n) = cut-eq-some b':' key perm_method perm_path e in
    (perm_method, prefix, rest, whole ∙ ap (key_of perm_method) ends, m, n, starts)

prefix_matches :
    (method path perm_method prefix : Bytes)
    → (perm_method ≡ method) ⊎ (perm_method ≡ bytes "*")
    → has_prefix path prefix ≡ true
    → key_matches method path (perm_method, some (prefix ++ bytes "/*")) ≡ true
prefix_matches method path perm_method prefix m h =
    let starts : has_prefix path (trim_suffix (prefix ++ bytes "/*") (bytes "/*")) ≡ true =
      subst (λ p. has_prefix path p ≡ true) (sym (trim_suffix_lem prefix (bytes "/*"))) h in
    ground (
      arith,
      starts,
      has_suffix-append prefix (bytes "/*"),
      list_beq_iff perm_method method,
      list_beq_iff perm_method (bytes "*"),
    )

key_matches_wildcard :
    (method path perm_method prefix rest : Bytes)
    → (perm_method ≡ method) ⊎ (perm_method ≡ bytes "*")
    → ¬ Elem b':' perm_method
    → path ≡ prefix ++ rest
    → key_matches method path (cut b':' (key_of perm_method (prefix ++ bytes "/*"))) ≡ true
key_matches_wildcard method path perm_method prefix rest m n e =
    subst (λ parts. key_matches method path parts ≡ true)
      (sym (cut_lem b':' perm_method (prefix ++ bytes "/*") n))
      (prefix_matches method path perm_method prefix m ((has_prefix_iff path prefix).1 (rest, e)))

any_matches-eq-true :
    (keys : List Bytes) (method path : Bytes)
    → any_matches method path keys ≡ true
    → IsWildcard keys method path
any_matches-eq-true [] method path h = absurd (cc h)
any_matches-eq-true (key ∷ keys) method path h =
    elim (Bool-cases (key_matches method path (cut b':' key))) [
      | inl here ↦
          let (perm_method, prefix, rest, e, m, n, starts) =
            key_matches-eq-true method path key (cut b':' key) refl here in
          (perm_method, prefix, rest, inl (sym e), m, n, starts)
      | inr other ↦
          let (perm_method, prefix, rest, e, m, n, starts) =
            any_matches-eq-true keys method path (ground arith) in
          (perm_method, prefix, rest, inr e, m, n, starts)
    ]

any_matches_wildcard :
    (keys : List Bytes) (method path : Bytes)
    → IsWildcard keys method path
    → any_matches method path keys ≡ true
any_matches_wildcard [] method path (perm_method, prefix, rest, e, m, n, starts) = absurd e
any_matches_wildcard (key ∷ keys) method path (perm_method, prefix, rest, inl e, m, n, starts) =
    let found : key_matches method path (cut b':' key) ≡ true =
      subst (λ k. key_matches method path (cut b':' k) ≡ true) e
        (key_matches_wildcard method path perm_method prefix rest m n starts) in
    ground arith
any_matches_wildcard (key ∷ keys) method path (perm_method, prefix, rest, inr e, m, n, starts) =
    ground
      (arith, any_matches_wildcard keys method path (perm_method, prefix, rest, e, m, n, starts))

-- matchPath grants a request exactly if the set has the key "method:path" or a key "m:prefix/*"
-- where m has no colon and is the method of the request or "*", and the path starts with the
-- prefix.
pub match_path_iff :
    (keys : List Bytes) (method path : Bytes)
    → (match_path keys method path ≡ true)
      ↔ (Elem (key_of method path) keys ⊎ IsWildcard keys method path)
unfolding match_path
match_path_iff keys method path = (
  λ h. elim (Bool-cases (any_matches method path keys)) [
    | inl any ↦ inr (any_matches-eq-true keys method path any)
    | inr none_does ↦ inl ((contains_iff keys (key_of method path)).0 (ground arith))
  ],
  λ d. elim d [
    | inl own ↦ ground (arith, (contains_iff keys (key_of method path)).1 own)
    | inr wild ↦ ground (arith, any_matches_wildcard keys method path wild)
  ],
)

-- A set with the key "method:prefix/*", the method without a colon, grants that method on every
-- path that continues the prefix, with or without a slash behind it.
pub match_path_continues :
    (keys : List Bytes) (method prefix rest : Bytes)
    → ¬ Elem b':' method
    → Elem (key_of method (prefix ++ bytes "/*")) keys
    → match_path keys method (prefix ++ rest) ≡ true
unfolding match_path
match_path_continues keys method prefix rest n e =
    (match_path_iff keys method (prefix ++ rest)).1
      (inr (method, prefix, rest, e, inl refl, n, refl))
