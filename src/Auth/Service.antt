-- ===== src/Auth/Service.antt =====
-- internal/modules/iam/service/auth_service.go: login, refresh and logout, and Logout of
-- internal/modules/iam/handler/auth_handler.go.
use go_admin.Common.{
  ℕ, ◌+◌, String, Option, none, some, [], Bytes, bytes, not, ◌&&◌, if◌then◌else◌, ◌==◌, text_eq,
}
use go_admin.Outcome.{
  Error, new, wrap, Outcome, ok, err, panic, Act, ◌>>=◌, wrapped, pure, fail, reads,
}
use go_admin.Iam.Model.{RoleResponse}
use go_admin.Iam.Model.Tables.{Repositories}
use go_admin.Iam.RoleService.{Copier}
use go_admin.Iam.UserRoleService.{fetch_highest_priority_role, retrieve_role_responses_by_user_id}
use go_admin.Users.Model.{User, UserFinder}
use go_admin.Auth.Tokens.{RevokeReadings, TokenStore}
use go_admin.Auth.Jwt.{
  Claims, TokenPair, Jwt, Fresh, generate_token, parse_token, parse_uint, format_uint,
  refresh_token_type, access_token_type,
}
use go_admin.Auth.Middleware.{strip_bearer_prefix}

abbrev pub guest : Bytes
guest = bytes "guest"

-- role.Code, or "guest"
abbrev pub code_of : Option RoleResponse → Bytes
code_of none = guest
code_of (some role) = role.code

module _ {Db : Type 0} (repos : Repositories Db) (finder : UserFinder Db) (copier : Copier)
    (record_login : ℕ → Act Db (Unit {0})) (jwt : Jwt) where
  -- resolveRoleCode
  unfoldable pub resolve_role_code : ℕ → Act Db Bytes
  unfolding retrieve_role_responses_by_user_id fetch_highest_priority_role ◌>>=◌ wrapped
  resolve_role_code user_id = do
    roles ←
        wrapped "failed to retrieve user roles"
          (retrieve_role_responses_by_user_id repos finder copier user_id 0)
    pure (code_of (fetch_highest_priority_role roles))

  -- The end of Login: the time of the login is written, whether that works or not.
  abbrev pub record_time : ℕ → TokenPair → Act Db TokenPair
  record_time user_id pair db =
      let (r, db') = record_login user_id db in elim r [ panic ↦ (panic, db') | _ ↦ (ok pair, db') ]

  abbrev pub login_as : Fresh → Bytes → User → Act Db TokenPair
  login_as fresh password user db =
      if finder.verify_password user password
      then (resolve_role_code user.id >>= λ role_code.
            wrapped "failed to generate token"
              (reads (λ _. generate_token jwt fresh (format_uint user.id) user.username role_code))
            >>= record_time user.id)
          db
      else (err (new "invalid credentials"), db)

  abbrev pub found_user : Fresh → Bytes → Outcome User → Act Db TokenPair
  found_user fresh password (ok user) db = login_as fresh password user db
  found_user fresh password (err _) db = (err (new "invalid credentials"), db)
  found_user fresh password panic db = (panic, db)

  -- Login
  unfoldable pub login : Fresh → Bytes → Bytes → Act Db TokenPair
  unfolding resolve_role_code generate_token format_uint ◌>>=◌ wrapped
  login fresh username password db =
      found_user fresh password (finder.find_by_username username db) db

  abbrev pub or_guest : Outcome Bytes → Outcome Bytes
  or_guest (ok code) = ok code
  or_guest (err _) = ok guest
  or_guest panic = panic

  abbrev pub refresh_for : Fresh → Claims → Option ℕ → Act Db TokenPair
  refresh_for fresh claims none = fail (wrap "invalid user ID in token" (new "strconv.ParseUint"))
  refresh_for fresh claims (some user_id) =
      (λ db. let (r, db') = resolve_role_code user_id db in (or_guest r, db')) >>= λ role_code.
      wrapped "could not generate new token"
        (reads (λ _. generate_token jwt fresh claims.identity claims.nice role_code))

  abbrev pub refresh_with : Fresh → Claims → Act Db TokenPair
  refresh_with fresh claims =
      if claims.token_type == refresh_token_type
      then refresh_for fresh claims (parse_uint claims.identity)
      else fail (new "not a refresh token")

  abbrev pub refresh_parsed : Fresh → Outcome Claims → Act Db TokenPair
  refresh_parsed fresh (ok claims) db = refresh_with fresh claims db
  refresh_parsed fresh (err e) db = (err (wrap "invalid refresh token" e), db)
  refresh_parsed fresh panic db = (panic, db)

  -- RefreshToken; `now` is read by ParseToken.
  unfoldable pub refresh_token : ℕ → Fresh → Bytes → Act Db TokenPair
  unfolding resolve_role_code generate_token parse_token parse_uint ◌>>=◌ wrapped
  refresh_token now fresh token =
      if token == []
      then fail (new "refresh token is required")
      else refresh_parsed fresh (parse_token jwt now token)

module _ {S : Type 0} (store : TokenStore S) (jwt : Jwt) where
  -- 24 * time.Hour
  abbrev pub one_day : ℕ
  one_day = 86400000000000

  abbrev expiry : ℕ → Option ℕ → ℕ
  expiry now none = now + one_day
  expiry now (some exp) = exp

  -- Logout of claims that are there; `now` is read if they do not expire.
  unfoldable pub logout : ℕ → RevokeReadings → Claims → Act S (Unit {0})
  logout now at claims s =
      if claims.id == []
      then (ok tt, s)
      else store.revoke at claims.id (expiry now claims.expires_at) s

  -- What the handler answers: Unauthorized, InternalError or Success.
  pub data LogoutResponse : Type 0 where
    unauthorized : String → LogoutResponse
    failed : Error → LogoutResponse
    success panicked : LogoutResponse

  abbrev answer_logout : Outcome (Unit {0}) → LogoutResponse
  answer_logout (ok _) = success
  answer_logout (err e) = failed e
  answer_logout panic = panicked

  abbrev logout_parsed : ℕ → RevokeReadings → Outcome Claims → S → LogoutResponse × S
  logout_parsed now at (ok claims) s =
      let (r, s') = logout now at claims s in
      if not (claims.token_type == []) && not (claims.token_type == access_token_type)
      then (unauthorized "Access token required", s)
      else (answer_logout r, s')
  logout_parsed now at (err e) s = (unauthorized "Invalid token", s)
  logout_parsed now at panic s = (panicked, s)

  -- AuthHandler.Logout of the Authorization header; `parsed_at` is read by ParseToken.
  unfoldable pub handle_logout :
      (parsed_at now : ℕ) → RevokeReadings → Bytes → S → LogoutResponse × S
  unfolding logout parse_token strip_bearer_prefix
  handle_logout parsed_at now at authorization s =
      let token = strip_bearer_prefix authorization in
      if token == []
      then (unauthorized "No token provided", s)
      else logout_parsed now at (parse_token jwt parsed_at token) s
