-- ===== src/Auth/Jwt.antt =====
-- pkg/jwtauth/jwtauth.go: the claims, and issuing and parsing of tokens. Signing and verifying are
-- golang-jwt's, parameters here; an expiry is an instant in nanoseconds.
use go_admin.Common.{
  ℕ, zero, suc, ◌+◌, ◌*◌, ◌/◌, ◌%◌, ◌-◌, Option, none, some, [], ◌∷◌, Bytes, bytes, leb, ltb, ◌&&◌,
  if◌then◌else◌, text_eq,
}
use go_admin.Outcome.{wrap, Outcome, ok, err, panic, or_wrap}

abbrev pub access_token_type : Bytes
access_token_type = bytes "access"

abbrev pub refresh_token_type : Bytes
refresh_token_type = bytes "refresh"

-- Claims, of RegisteredClaims the fields in use
pub record Claims : Type 0 where
  pub identity : Bytes
  pub nice : Bytes
  pub role_key : Bytes
  pub token_type : Bytes
  pub id : Bytes
  pub expires_at : Option ℕ

-- TokenPair, which is also dto.TokenResponse
pub record TokenPair : Type 0 where
  pub access_token : Bytes
  pub refresh_token : Bytes
  pub expires_at : ℕ

-- golang-jwt with the signing key of the process: SignedString under HS256, ParseWithClaims with a
-- key function that admits the HMAC methods alone, at a reading of the clock, and the precision of
-- NewNumericDate.
pub record JwtLibrary : Type 0 where
  pub sign : Claims → Outcome Bytes
  pub parse : ℕ → Bytes → Outcome Claims
  pub numeric_date : ℕ → ℕ

-- JWT, with the library at its key
pub record Jwt : Type 0 where
  pub library : JwtLibrary
  pub token_expiration : ℕ
  pub refresh_token_expiration : ℕ

-- What GenerateToken reads: the two fresh UUIDs, and the clock three times.
pub record Fresh : Type 0 where
  pub access_id : Bytes
  pub refresh_id : Bytes
  pub at_access : ℕ
  pub at_refresh : ℕ
  pub at_end : ℕ

abbrev pub access_claims : Jwt → Fresh → Bytes → Bytes → Bytes → Claims
access_claims jwt fresh user_id username role_key = record {
  identity = user_id;
  nice = username;
  role_key = role_key;
  token_type = access_token_type;
  id = fresh.access_id;
  expires_at = some (jwt.library.numeric_date (fresh.at_access + jwt.token_expiration));
}

abbrev pub refresh_claims : Jwt → Fresh → Bytes → Bytes → Bytes → Claims
refresh_claims jwt fresh user_id username role_key = record {
  identity = user_id;
  nice = username;
  role_key = role_key;
  token_type = refresh_token_type;
  id = fresh.refresh_id;
  expires_at = some (jwt.library.numeric_date (fresh.at_refresh + jwt.refresh_token_expiration));
}

abbrev pair_up : ℕ → Bytes → Outcome Bytes → Outcome TokenPair
pair_up expires_at access (ok refresh) =
    ok (record { access_token = access; refresh_token = refresh; expires_at = expires_at })
pair_up expires_at access (err e) = err (wrap "generate refresh token failed" e)
pair_up expires_at access panic = panic

abbrev sign_both : ℕ → Outcome Bytes → Outcome Bytes → Outcome TokenPair
sign_both expires_at (ok access) refresh = pair_up expires_at access refresh
sign_both expires_at (err e) refresh = err (wrap "generate access token failed" e)
sign_both expires_at panic refresh = panic

-- GenerateToken; the expiry of the pair is in seconds.
unfoldable pub generate_token : Jwt → Fresh → Bytes → Bytes → Bytes → Outcome TokenPair
generate_token jwt fresh user_id username role_key =
    sign_both ((fresh.at_end + jwt.token_expiration) / 1000000000)
      (jwt.library.sign (access_claims jwt fresh user_id username role_key))
      (jwt.library.sign (refresh_claims jwt fresh user_id username role_key))

-- ParseToken
unfoldable pub parse_token : Jwt → ℕ → Bytes → Outcome Claims
parse_token jwt now token = or_wrap "parse token failed" (jwt.library.parse now token)

-- The digits of strconv.ParseUint(s, 10, 64), most significant first, `n` read so far.
abbrev digits_from : ℕ → Bytes → Option ℕ
digits_from n [] = some n
digits_from n (c ∷ s) =
    let rest = digits_from (n * 10 + (c - 48)) s in if leb 48 c && leb c 57 then rest else none

abbrev below_2_64 : Option ℕ → Option ℕ
below_2_64 none = none
below_2_64 (some n) = if ltb n 18446744073709551616 then some n else none

-- strconv.ParseUint(s, 10, 64)
unfoldable pub parse_uint : Bytes → Option ℕ
parse_uint [] = none
parse_uint (c ∷ s) = below_2_64 (digits_from 0 (c ∷ s))

-- The decimal digits of `n` before `acc`; a number below 10^fuel has at most `fuel` of them.
abbrev format_digits : ℕ → ℕ → Bytes → Bytes
format_digits zero n acc = acc
format_digits (suc fuel) n acc =
    let rest = format_digits fuel (n / 10) ((48 + n % 10) ∷ acc) in
    if ltb n 10 then (48 + n) ∷ acc else rest

-- strconv.FormatUint(n, 10) of a uint64
unfoldable pub format_uint : ℕ → Bytes
format_uint n = format_digits 20 n []
