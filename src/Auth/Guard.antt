-- ===== src/Auth/Guard.antt =====
-- What internal/platform/middleware/jwt.go lets through.
use go_admin.Common.{
  ℕ, ◌≡◌, ◌≢◌, ◌↔◌, ◌⊎◌, inl, inr, refl, ap, sym, subst, Bool, true, false, Option, none, some,
  List, [], ◌∷◌, ◌++◌, ◌==◌, text_eq, Bytes, Elem, Elem-append, has_suffix, trim_suffix,
  trim_suffix-append, has_suffix-append, has_byte, list_beq_iff, nat_beq_iff, Bool-cases, All,
  arith,
}
use go_admin.Outcome.{Outcome, ok, err, panic}
use go_admin.Auth.Tokens.{TokenStore}
use go_admin.Auth.Jwt.{Claims, Jwt, parse_token, parse_uint}
use go_admin.Auth.Middleware.{
  PermissionChecker, PermissionConfig, Request, next, State, answer_permission, check_identity,
  unless_revoked, check_parsed, handle, check_claims, check_permission, is_excluded_path, excludes,
  strip_bearer_prefix,
}

-- Two texts with the same last separator have the same text behind it.
last_separator :
    (sep : ℕ) (xs ys a b : Bytes)
    → ¬ Elem sep a
    → ¬ Elem sep b
    → xs ++ (sep ∷ a) ≡ ys ++ (sep ∷ b)
    → a ≡ b
last_separator sep [] [] a b na nb e = cc
last_separator sep [] (y ∷ ys) a b na nb e =
    absurd
      (na (subst (Elem sep) (sym (tail_of e)) ((Elem-append sep ys (sep ∷ b)).1 (inr (inl refl)))))
  where
    tail_of : sep ∷ a ≡ y ∷ (ys ++ (sep ∷ b)) → a ≡ ys ++ (sep ∷ b)
    tail_of h = cc
last_separator sep (x ∷ xs) [] a b na nb e =
    absurd (nb (subst (Elem sep) (tail_of e) ((Elem-append sep xs (sep ∷ a)).1 (inr (inl refl)))))
  where
    tail_of : x ∷ (xs ++ (sep ∷ a)) ≡ sep ∷ b → xs ++ (sep ∷ a) ≡ b
    tail_of h = cc
last_separator sep (x ∷ xs) (y ∷ ys) a b na nb e = last_separator sep xs ys a b na nb cc

has_byte_iff : (b : ℕ) (s : Bytes) → (has_byte b s ≡ true) ↔ Elem b s
has_byte_iff b [] = ground arith
has_byte_iff b (c ∷ s) = ground (arith, has_byte_iff b s, nat_beq_iff c b)

excludes_iff :
    (method path p : Bytes)
    → ¬ Elem b':' path
    → ¬ Elem b':' p
    → (excludes (method ++ (b':' ∷ path)) p ≡ true) ↔ (path ≡ p)
excludes_iff method path p npath np = (
  λ h.
      let ends : has_suffix (method ++ (b':' ∷ path)) (b':' ∷ p) ≡ true =
        ground (arith, has_byte_iff b':' p) in
      last_separator b':' method (trim_suffix (method ++ (b':' ∷ path)) (b':' ∷ p)) path p npath np
        (trim_suffix-append (method ++ (b':' ∷ path)) (b':' ∷ p) ends),
  λ e.
      let ends : has_suffix (method ++ (b':' ∷ path)) (b':' ∷ p) ≡ true =
        subst (λ q. has_suffix (method ++ (b':' ∷ path)) (b':' ∷ q) ≡ true) e
          (has_suffix-append method (b':' ∷ path)) in
      ground (arith, has_byte_iff b':' p),
)

-- With excluded paths that have no colon, a request whose path has none is excluded exactly if its
-- path is one of them, whatever its method.
pub is_excluded_path_iff :
    (method path : Bytes) (ps : List Bytes)
    → ¬ Elem b':' path
    → All (λ p. ¬ Elem b':' p) ps
    → (is_excluded_path (method ++ (b':' ∷ path)) ps ≡ true) ↔ Elem path ps
unfolding is_excluded_path
is_excluded_path_iff method path [] n ns = ground arith
is_excluded_path_iff method path (p ∷ ps) n ns =
    ground (arith, excludes_iff method path p n ns.0, is_excluded_path_iff method path ps n ns.1)

module _ {S C : Type 0} (jwt : Jwt) (checker : PermissionChecker C) (store : TokenStore S)
    (config : PermissionConfig) where
  abbrev excluded : Request → Bool
  excluded request = is_excluded_path (request.method ++ (b':' ∷ request.path)) config.exclude_paths

  -- The request is free, or the checker grants it.
  abbrev pub IsGranted : Request → ℕ → C → Type 0
  IsGranted request user_id c =
      (config.enable ≡ false)
      ⊎ ((is_excluded_path (request.method ++ (b':' ∷ request.path)) config.exclude_paths ≡ true)
          ⊎ ((checker.has_permission user_id request.method request.path c).0 ≡ ok true))

  -- What holds of the claims of a request that goes on.
  abbrev pub IsAdmitted : ℕ → Request → Claims → State S C → Type 0
  IsAdmitted now request claims s =
      ((claims.id ≡ []) ⊎ ((store.is_revoked now claims.id s.tokens).0 ≡ ok false))
      × ((user_id : ℕ) × (parse_uint claims.identity ≡ some user_id)
          × IsGranted request user_id s.checker)

  answer_permission-eq-next :
      (claims claims' : Claims) (r : Outcome Bool)
      → answer_permission jwt checker store config claims r ≡ next claims'
      → (claims ≡ claims') × (r ≡ ok true)
  answer_permission-eq-next claims claims' (ok true) h = (cc, refl)
  answer_permission-eq-next claims claims' (ok false) h = absurd (cc h)
  answer_permission-eq-next claims claims' (err e) h = absurd (cc h)
  answer_permission-eq-next claims claims' panic h = absurd (cc h)

  check_permission-eq-next :
      (request : Request) (claims claims' : Claims) (user_id : ℕ) (s : State S C)
      → (check_permission jwt checker store config request claims user_id s).0 ≡ next claims'
      → (claims ≡ claims') × IsGranted request user_id s.checker
  unfolding check_permission
  check_permission-eq-next request claims claims' user_id s h = elim (Bool-cases config.enable) [
    | inr off ↦ (ground arith, inl off)
    | inl on ↦ elim (Bool-cases (excluded request)) [
      | inl free ↦ (ground arith, inr (inl free))
      | inr guarded ↦
          let (same, granted) =
            answer_permission-eq-next claims claims'
              (checker.has_permission user_id request.method request.path s.checker).0
              (ground arith) in
          (same, inr (inr granted))
    ]
  ]

  check_identity-eq-next :
      (request : Request) (claims claims' : Claims) (o : Option ℕ) (s : State S C)
      → (check_identity jwt checker store config request claims o s).0 ≡ next claims'
      → (claims ≡ claims')
        × ((user_id : ℕ) × (o ≡ some user_id) × IsGranted request user_id s.checker)
  check_identity-eq-next request claims claims' none s h = absurd (cc h)
  check_identity-eq-next request claims claims' (some user_id) s h =
      let (same, granted) = check_permission-eq-next request claims claims' user_id s h in
      (same, (user_id, refl, granted))

  unless_revoked-eq-next :
      (request : Request) (claims claims' : Claims) (r : Outcome Bool) (s : State S C)
      → (unless_revoked jwt checker store config request claims r s).0 ≡ next claims'
      → (r ≡ ok false)
        × ((claims ≡ claims')
            × ((user_id : ℕ) × (parse_uint claims.identity ≡ some user_id)
                × IsGranted request user_id s.checker))
  unless_revoked-eq-next request claims claims' (err e) s h = absurd (cc h)
  unless_revoked-eq-next request claims claims' (ok true) s h = absurd (cc h)
  unless_revoked-eq-next request claims claims' panic s h = absurd (cc h)
  unless_revoked-eq-next request claims claims' (ok false) s h =
      (refl, check_identity-eq-next request claims claims' (parse_uint claims.identity) s h)

  check_claims-eq-next :
      (now : ℕ) (request : Request) (claims claims' : Claims) (s : State S C)
      → (check_claims jwt checker store config now request claims s).0 ≡ next claims'
      → (claims ≡ claims') × IsAdmitted now request claims s
  unfolding check_claims
  check_claims-eq-next now request claims claims' s h = elim (Bool-cases (claims.id == [])) [
    | inl anonymous ↦
        let (same, granted) =
          check_identity-eq-next request claims claims' (parse_uint claims.identity) s
            (ground arith) in
        (same, (inl ((list_beq_iff claims.id []).0 anonymous), granted))
    | inr named ↦
        let (r, tokens) = store.is_revoked now claims.id s.tokens in
        let (valid, (same, granted)) =
          unless_revoked-eq-next request claims claims' r (record s { tokens = tokens })
            (ground arith) in
        (same, (inr valid, granted))
  ]

  check_parsed-eq-next :
      (now : ℕ) (request : Request) (r : Outcome Claims) (claims : Claims) (s : State S C)
      → (check_parsed jwt checker store config now request r s).0 ≡ next claims
      → (r ≡ ok claims) × IsAdmitted now request claims s
  check_parsed-eq-next now request (err e) claims s h = absurd (cc h)
  check_parsed-eq-next now request panic claims s h = absurd (cc h)
  check_parsed-eq-next now request (ok c) claims s h =
      let (same, admitted) = check_claims-eq-next now request c claims s h in
      (ap ok same, subst (λ x. IsAdmitted now request x s) same admitted)

  -- If JWTAuthMiddleware lets a request go on with some claims, the request had an Authorization
  -- header, its token parsed to these claims, their id is empty or the store answered that it is
  -- not revoked, their identity is a uint64, and the checks are off, the path is excluded or the
  -- checker granted the request to that user.
  pub handle-eq-next :
      (parsed_at now : ℕ) (request : Request) (claims : Claims) (s : State S C)
      → (handle jwt checker store config parsed_at now request s).0 ≡ next claims
      → (request.authorization ≢ [])
        × (parse_token jwt parsed_at (strip_bearer_prefix request.authorization) ≡ ok claims)
        × IsAdmitted now request claims s
  unfolding handle
  handle-eq-next parsed_at now request claims s h =
      let given : request.authorization ≢ [] =
        λ e. ground (arith, list_beq_iff request.authorization [], e, h) in
      let checked : (check_parsed jwt checker store config now request
            (parse_token jwt parsed_at (strip_bearer_prefix request.authorization)) s).0
          ≡ next claims =
        ground (arith, list_beq_iff request.authorization []) in
      let (parsed, admitted) =
        check_parsed-eq-next now request
          (parse_token jwt parsed_at (strip_bearer_prefix request.authorization)) claims s
          checked in
      (given, parsed, admitted)
