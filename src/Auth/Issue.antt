-- ===== src/Auth/Issue.antt =====
-- For whom internal/modules/iam/service/auth_service.go issues tokens.
use go_admin.Common.{
  ℕ, String, ◌≡◌, ◌≢◌, refl, ap, subst, Bool, true, false, Option, none, some, [], Bytes,
  if◌then◌else◌, ◌==◌, text_eq, list_beq_iff,
}
use go_admin.Outcome.{new, Outcome, ok, err, panic, Act, ◌>>=◌, wrapped, fail, reads}
use go_admin.Outcome.Laws.{>>=-eq-ok, wrapped-eq-ok}
use go_admin.Iam.Model.Tables.{Repositories}
use go_admin.Iam.RoleService.{Copier}
use go_admin.Users.Model.{User, UserFinder}
use go_admin.Auth.Jwt.{
  Claims, TokenPair, Jwt, Fresh, generate_token, parse_token, parse_uint, format_uint,
  refresh_token_type,
}
use go_admin.Auth.Service.{
  resolve_role_code, record_time, login_as, found_user, login, or_guest, refresh_for, refresh_with,
  refresh_parsed, refresh_token,
}

module _ {Db : Type 0} (repos : Repositories Db) (finder : UserFinder Db) (copier : Copier)
    (record_login : ℕ → Act Db (Unit {0})) (jwt : Jwt) (fresh : Fresh) where
  -- The pair is what GenerateToken makes for the name, the identity and some role.
  abbrev pub IsIssued : Bytes → Bytes → TokenPair → Type 0
  IsIssued identity nice pair =
      (role_code : Bytes) × (generate_token jwt fresh identity nice role_code ≡ ok pair)

  issued :
      (message : String) (identity nice role_code : Bytes) (db db' : Db) (pair : TokenPair)
      → wrapped message (reads (λ _. generate_token jwt fresh identity nice role_code)) db
        ≡ (ok pair, db')
      → IsIssued identity nice pair
  issued message identity nice role_code db db' pair h = (
    role_code,
    ap (λ r. r.0)
        (wrapped-eq-ok message (reads (λ _. generate_token jwt fresh identity nice role_code)) db
          h),
  )

  code_or_guest : ℕ → Act Db Bytes
  code_or_guest user_id db =
      let (r, db') = resolve_role_code repos finder copier record_login jwt user_id db in
      (or_guest repos finder copier record_login jwt r, db')

  refresh_for-eq-ok :
      (claims : Claims) (o : Option ℕ) (db db' : Db) (pair : TokenPair)
      → refresh_for repos finder copier record_login jwt fresh claims o db ≡ (ok pair, db')
      → IsIssued claims.identity claims.nice pair
  unfolding code_or_guest
  refresh_for-eq-ok claims none db db' pair h = absurd (cc (ap (λ r. r.0) h))
  refresh_for-eq-ok claims (some user_id) db db' pair h =
      let (code, u, _, made) =
        >>=-eq-ok (code_or_guest user_id)
          (λ role_code.
            wrapped "could not generate new token"
              (reads (λ _. generate_token jwt fresh claims.identity claims.nice role_code)))
          db h in
      issued "could not generate new token" claims.identity claims.nice code u db' pair made

  abbrev pub IsRefresh : Claims → TokenPair → Type 0
  IsRefresh claims pair =
      (claims.token_type ≡ refresh_token_type) × IsIssued claims.identity claims.nice pair

  refresh_with-eq-ok :
      (claims : Claims) (db db' : Db) (pair : TokenPair)
      → refresh_with repos finder copier record_login jwt fresh claims db ≡ (ok pair, db')
      → IsRefresh claims pair
  refresh_with-eq-ok claims db db' pair h = go (claims.token_type == refresh_token_type) refl h
    where
      go :
          (b : Bool)
          → (claims.token_type == refresh_token_type) ≡ b
          → (if b
                then refresh_for repos finder copier record_login jwt fresh claims
                    (parse_uint claims.identity)
                else fail (new "not a refresh token"))
              db
            ≡ (ok pair, db')
          → IsRefresh claims pair
      go true e k = (
        (list_beq_iff claims.token_type refresh_token_type).0 e,
        refresh_for-eq-ok claims (parse_uint claims.identity) db db' pair k,
      )
      go false e k = absurd (cc (ap (λ r. r.0) k))

  refresh_parsed-eq-ok :
      (r : Outcome Claims) (db db' : Db) (pair : TokenPair)
      → refresh_parsed repos finder copier record_login jwt fresh r db ≡ (ok pair, db')
      → (claims : Claims) × (r ≡ ok claims) × IsRefresh claims pair
  refresh_parsed-eq-ok (ok claims) db db' pair h =
      (claims, refl, refresh_with-eq-ok claims db db' pair h)
  refresh_parsed-eq-ok (err e) db db' pair h = absurd (cc (ap (λ r. r.0) h))
  refresh_parsed-eq-ok panic db db' pair h = absurd (cc (ap (λ r. r.0) h))

  -- If RefreshToken returns a pair of tokens, the given token is not empty and parses to claims of
  -- the type "refresh", and the pair is what GenerateToken makes for the identity and the name in
  -- these claims.
  pub refresh_token-eq-ok :
      (now : ℕ) (token : Bytes) (db db' : Db) (pair : TokenPair)
      → refresh_token repos finder copier record_login jwt now fresh token db ≡ (ok pair, db')
      → (token ≢ [])
        × ((claims : Claims) × (parse_token jwt now token ≡ ok claims) × IsRefresh claims pair)
  unfolding refresh_token
  refresh_token-eq-ok now token db db' pair h = go (token == []) refl h
    where
      go :
          (b : Bool)
          → (token == []) ≡ b
          → (if b
                then fail (new "refresh token is required")
                else refresh_parsed repos finder copier record_login jwt fresh
                    (parse_token jwt now token))
              db
            ≡ (ok pair, db')
          → (token ≢ [])
            × ((claims : Claims) × (parse_token jwt now token ≡ ok claims) × IsRefresh claims pair)
      go true e k = absurd (cc (ap (λ r. r.0) k))
      go false e k = (
        λ empty. cc (e, (list_beq_iff token []).1 empty),
        refresh_parsed-eq-ok (parse_token jwt now token) db db' pair k,
      )

  record_time-eq-ok :
      (user_id : ℕ) (pair pair' : TokenPair) (db db' : Db)
      → record_time repos finder copier record_login jwt user_id pair db ≡ (ok pair', db')
      → pair ≡ pair'
  record_time-eq-ok user_id pair pair' db db' h = go (record_login user_id db) h
    where
      go :
          (r : Outcome (Unit {0}) × Db)
          → ◌≡◌ {A = Outcome TokenPair × Db}
              (elim r.0 [ panic ↦ (panic, r.1) | _ ↦ (ok pair, r.1) ])
              (ok pair', db')
          → pair ≡ pair'
      go (ok _, d) k = cc (ap (λ r. r.0) k)
      go (err _, d) k = cc (ap (λ r. r.0) k)
      go (panic, d) k = absurd (cc (ap (λ r. r.0) k))

  abbrev pub IsLogin : Bytes → User → TokenPair → Type 0
  IsLogin password user pair =
      (finder.verify_password user password ≡ true)
      × IsIssued (format_uint user.id) user.username pair

  login_as-eq-ok :
      (password : Bytes) (user : User) (db db' : Db) (pair : TokenPair)
      → login_as repos finder copier record_login jwt fresh password user db ≡ (ok pair, db')
      → IsLogin password user pair
  login_as-eq-ok password user db db' pair h = go (finder.verify_password user password) refl h
    where
      generated : Bytes → Act Db TokenPair
      generated role_code =
          wrapped "failed to generate token"
            (reads (λ _. generate_token jwt fresh (format_uint user.id) user.username role_code))

      signed : Act Db TokenPair
      signed = resolve_role_code repos finder copier record_login jwt user.id >>= λ role_code.
          generated role_code >>= record_time repos finder copier record_login jwt user.id

      go :
          (b : Bool)
          → finder.verify_password user password ≡ b
          → (if b then signed db else (err (new "invalid credentials"), db)) ≡ (ok pair, db')
          → IsLogin password user pair
      go true e k =
          let (code, u, _, rest) =
            >>=-eq-ok (resolve_role_code repos finder copier record_login jwt user.id)
              (λ role_code.
                generated role_code >>= record_time repos finder copier record_login jwt user.id)
              db k in
          let (pair', v, made, recorded) =
            >>=-eq-ok (generated code) (record_time repos finder copier record_login jwt user.id) u
              rest in
          (
            e,
            subst (IsIssued (format_uint user.id) user.username)
                (record_time-eq-ok user.id pair' pair v db' recorded)
                (issued "failed to generate token" (format_uint user.id) user.username code u v
                  pair' made),
          )
      go false e k = absurd (cc (ap (λ r. r.0) k))

  found_user-eq-ok :
      (password : Bytes) (r : Outcome User) (db db' : Db) (pair : TokenPair)
      → found_user repos finder copier record_login jwt fresh password r db ≡ (ok pair, db')
      → (user : User) × (r ≡ ok user) × IsLogin password user pair
  found_user-eq-ok password (ok user) db db' pair h =
      (user, refl, login_as-eq-ok password user db db' pair h)
  found_user-eq-ok password (err e) db db' pair h = absurd (cc (ap (λ r. r.0) h))
  found_user-eq-ok password panic db db' pair h = absurd (cc (ap (λ r. r.0) h))

  -- If Login returns a pair of tokens, there is a user of that name whose password was verified,
  -- and the pair is what GenerateToken makes for the id and the name of this user.
  pub login-eq-ok :
      (username password : Bytes) (db db' : Db) (pair : TokenPair)
      → login repos finder copier record_login jwt fresh username password db ≡ (ok pair, db')
      → (user : User) × (finder.find_by_username username db ≡ ok user) × IsLogin password user pair
  unfolding login
  login-eq-ok username password db db' pair h =
      found_user-eq-ok password (finder.find_by_username username db) db db' pair h
