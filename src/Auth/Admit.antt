-- ===== src/Auth/Admit.antt =====
-- What internal/platform/middleware/jwt.go does not stop.
use go_admin.Common.{ℕ, ◌≡◌, ◌≢◌, inl, inr, ap, ◌∙◌, some, [], text_eq, list_beq_iff, arith}
use go_admin.Outcome.{ok}
use go_admin.Auth.Tokens.{TokenStore}
use go_admin.Auth.Jwt.{Claims, Jwt, parse_token, parse_uint}
use go_admin.Auth.Middleware.{
  PermissionChecker, PermissionConfig, Request, next, State, answer_permission, check_identity,
  unless_revoked, check_parsed, handle, check_claims, check_permission, strip_bearer_prefix,
}
use go_admin.Auth.Guard.{IsGranted, IsAdmitted}

module _ {S C : Type 0} (jwt : Jwt) (checker : PermissionChecker C) (store : TokenStore S)
    (config : PermissionConfig) where
  check_permission_granted :
      (request : Request) (claims : Claims) (user_id : ℕ) (s : State S C)
      → IsGranted jwt checker store config request user_id s.checker
      → (check_permission jwt checker store config request claims user_id s).0 ≡ next claims
  unfolding check_permission
  check_permission_granted request claims user_id s (inl off) = ground arith
  check_permission_granted request claims user_id s (inr (inl free)) = ground arith
  check_permission_granted request claims user_id s (inr (inr granted)) =
      let answered : answer_permission jwt checker store config claims
            (checker.has_permission user_id request.method request.path s.checker).0
          ≡ next claims =
        ap (answer_permission jwt checker store config claims) granted in
      ground arith

  check_identity_granted :
      (request : Request) (claims : Claims) (user_id : ℕ) (s : State S C)
      → parse_uint claims.identity ≡ some user_id
      → IsGranted jwt checker store config request user_id s.checker
      → (check_identity jwt checker store config request claims (parse_uint claims.identity) s).0
        ≡ next claims
  check_identity_granted request claims user_id s e g =
      ap (λ o. (check_identity jwt checker store config request claims o s).0) e
      ∙ check_permission_granted request claims user_id s g

  check_claims_admitted :
      (now : ℕ) (request : Request) (claims : Claims) (s : State S C)
      → IsAdmitted jwt checker store config now request claims s
      → (check_claims jwt checker store config now request claims s).0 ≡ next claims
  unfolding check_claims
  check_claims_admitted now request claims s (inl anonymous, (user_id, e, g)) =
      let passed = check_identity_granted request claims user_id s e g in
      ground (arith, list_beq_iff claims.id [])
  check_claims_admitted now request claims s (inr valid, (user_id, e, g)) =
      let (r, tokens) = store.is_revoked now claims.id s.tokens in
      let s' : State S C = record s { tokens = tokens } in
      let passed = check_identity_granted request claims user_id s e g in
      let passed' : (unless_revoked jwt checker store config request claims r s').0 ≡ next claims =
        ap (λ o. (unless_revoked jwt checker store config request claims o s').0) valid
        ∙ check_identity_granted request claims user_id s' e g in
      ground arith

  -- A request with an Authorization header whose token parses to claims whose id is empty or
  -- answered as not revoked, and whose identity is a uint64, goes on with these claims if the
  -- checks are off, the path is excluded or the checker grants it to that user.
  pub handle_admitted :
      (parsed_at now : ℕ) (request : Request) (claims : Claims) (s : State S C)
      → request.authorization ≢ []
      → parse_token jwt parsed_at (strip_bearer_prefix request.authorization) ≡ ok claims
      → IsAdmitted jwt checker store config now request claims s
      → (handle jwt checker store config parsed_at now request s).0 ≡ next claims
  unfolding handle
  handle_admitted parsed_at now request claims s n p a =
      let passed : (check_parsed jwt checker store config now request
            (parse_token jwt parsed_at (strip_bearer_prefix request.authorization)) s).0
          ≡ next claims =
        ap (λ r. (check_parsed jwt checker store config now request r s).0) p
        ∙ check_claims_admitted now request claims s a in
      ground (arith, list_beq_iff request.authorization [])
