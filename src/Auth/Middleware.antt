-- ===== src/Auth/Middleware.antt =====
-- internal/platform/middleware/jwt.go: what a request under JWTAuthMiddleware meets, with
-- StripBearerPrefix of pkg/api/context.go.
use go_admin.Common.{
  ℕ, String, Bool, true, false, Option, none, some, List, [], ◌∷◌, ◌++◌, Bytes, bytes, length, take,
  drop, ltb, trim_space, to_lower, has_byte, has_suffix, cut, ◌&&◌, ◌||◌, if◌then◌else◌, ◌==◌,
  text_eq,
}
use go_admin.Outcome.{Error, Outcome, ok, err, panic, Act}
use go_admin.Auth.Tokens.{TokenStore}
use go_admin.Auth.Jwt.{Claims, Jwt, parse_token, parse_uint}

abbrev pub bearer_prefix : Bytes
bearer_prefix = bytes "Bearer "

-- StripBearerPrefix
abbrev strip : Bytes → Bytes
strip raw =
    if ltb (length bearer_prefix) (length raw) && to_lower (take 7 raw) == to_lower bearer_prefix
    then trim_space (drop 7 raw)
    else raw

unfoldable pub strip_bearer_prefix : Bytes → Bytes
strip_bearer_prefix raw = strip (trim_space raw)

-- PermissionConfig
pub record PermissionConfig : Type 0 where
  pub exclude_paths : List Bytes
  pub enable : Bool

abbrev pub default_permission_config : PermissionConfig
default_permission_config = record {
  exclude_paths = bytes "/api/login" ∷ bytes "/api/refresh" ∷ [];
  enable = true;
}

-- The body of the loop of isExcludedPath.
abbrev any_method : Bytes → Bytes × Option Bytes → Bool
any_method method_path (method, none) = false
any_method method_path (method, some path) =
    method == bytes "*" && has_suffix method_path (b':' ∷ path)

abbrev pub excludes : Bytes → Bytes → Bool
excludes method_path exclude_path =
    if has_byte b':' exclude_path
    then method_path == exclude_path || any_method method_path (cut b':' exclude_path)
    else has_suffix method_path (b':' ∷ exclude_path)

-- isExcludedPath
unfoldable pub is_excluded_path : Bytes → List Bytes → Bool
is_excluded_path method_path [] = false
is_excluded_path method_path (p ∷ ps) = excludes method_path p || is_excluded_path method_path ps

-- PermissionChecker, over the state `C` of the checker
pub record PermissionChecker (C : Type 0) : Type 0 where
  pub has_permission : ℕ → Bytes → Bytes → Act C Bool

pub record Request : Type 0 where
  pub authorization : Bytes
  pub method : Bytes
  pub path : Bytes

-- The response that a request is aborted with, or the claims that the next handler finds; or a panic
-- that goes on up.
pub data Response : Type 0 where
  unauthorized forbidden internal_error : String → Response
  invalid_token : Error → Response
  next : Claims → Response
  panicked : Response

pub record State (S C : Type 0) : Type 0 where
  pub tokens : S
  pub checker : C

module _ {S C : Type 0} (jwt : Jwt) (checker : PermissionChecker C) (store : TokenStore S)
    (config : PermissionConfig) where
  abbrev pub answer_permission : Claims → Outcome Bool → Response
  answer_permission claims (ok true) = next claims
  answer_permission claims (ok false) = forbidden "Permission denied"
  answer_permission claims (err _) = internal_error "Permission check error"
  answer_permission claims panic = panicked

  -- From c.Set on.
  unfoldable pub check_permission : Request → Claims → ℕ → State S C → Response × State S C
  unfolding is_excluded_path
  check_permission request claims user_id s =
      let excluded =
        is_excluded_path (request.method ++ (b':' ∷ request.path)) config.exclude_paths in
      let (r, c) = checker.has_permission user_id request.method request.path s.checker in
      if config.enable
      then (if excluded
          then (next claims, s)
          else (answer_permission claims r, record s { checker = c }))
      else (next claims, s)

  abbrev pub check_identity : Request → Claims → Option ℕ → State S C → Response × State S C
  check_identity request claims none s = (unauthorized "Invalid user ID in token", s)
  check_identity request claims (some user_id) s = check_permission request claims user_id s

  abbrev pub unless_revoked : Request → Claims → Outcome Bool → State S C → Response × State S C
  unless_revoked request claims (err _) s = (unauthorized "Token check error", s)
  unless_revoked request claims (ok true) s = (unauthorized "Token has been revoked", s)
  unless_revoked request claims (ok false) s =
      check_identity request claims (parse_uint claims.identity) s
  unless_revoked request claims panic s = (panicked, s)

  -- The check of the revocation, and all behind it; a token without an id is not looked up.
  unfoldable pub check_claims : ℕ → Request → Claims → State S C → Response × State S C
  unfolding check_permission parse_uint
  check_claims now request claims s =
      let (r, tokens) = store.is_revoked now claims.id s.tokens in
      if claims.id == []
      then check_identity request claims (parse_uint claims.identity) s
      else unless_revoked request claims r (record s { tokens = tokens })

  abbrev pub check_parsed : ℕ → Request → Outcome Claims → State S C → Response × State S C
  check_parsed now request (ok claims) s = check_claims now request claims s
  check_parsed now request (err e) s = (invalid_token e, s)
  check_parsed now request panic s = (panicked, s)

  -- Handle; the clock is read by ParseToken and by the store.
  unfoldable pub handle : (parsed_at now : ℕ) → Request → State S C → Response × State S C
  unfolding check_claims parse_token strip_bearer_prefix
  handle parsed_at now request s =
      if request.authorization == []
      then (unauthorized "No token provided", s)
      else check_parsed now request
          (parse_token jwt parsed_at (strip_bearer_prefix request.authorization)) s
