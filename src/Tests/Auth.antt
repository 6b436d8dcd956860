-- ===== src/Tests/Auth.antt =====
-- The sessions at concrete inputs. The library that signs tokens is a toy one here: a token is the id
-- of its claims.
use go_admin.Common.{inr, ◌≡◌, ◌≢◌, refl, true, some, [], Bytes, bytes, text_eq, arith}
use go_admin.Outcome.{ok}
use go_admin.Store
use go_admin.Auth.Tokens.{
  RevokeReadings, new_in_memory, in_memory_is_revoked, in_memory_token_store,
}
use go_admin.Auth.Jwt.{Claims, Jwt, parse_token, parse_uint, access_token_type}
use go_admin.Auth.Middleware.{
  PermissionChecker, default_permission_config, Request, unauthorized, next, handle,
  strip_bearer_prefix,
}
use go_admin.Auth.Service.{logout}
use go_admin.Auth.Revocation.{logout-handle}
use go_admin.Auth.Admit.{handle_admitted}
use go_admin.Auth.Guard.{IsAdmitted, handle-eq-next}

abbrev claims_of : Bytes → Claims
claims_of id = record {
  identity = bytes "1";
  nice = bytes "root";
  role_key = bytes "admin";
  token_type = access_token_type;
  id = id;
  expires_at = some 100;
}

abbrev jwt : Jwt
jwt = record {
  library = record {
    sign = λ c. ok c.id;
    parse = λ now token. ok (claims_of token);
    numeric_date = λ t. t;
  };
  token_expiration = 50;
  refresh_token_expiration = 90;
}

abbrev checker : PermissionChecker (Unit {0})
checker = record { has_permission = λ user_id method path c. (ok true, c) }

abbrev request : Request
request = record {
  authorization = bytes "Bearer t1";
  method = bytes "GET";
  path = bytes "/api/user";
}

abbrev at_20 : RevokeReadings
at_20 = record { at_until = 20; at_set = 21; at_cleanup = 22 }

parsed :
    parse_token jwt 30 (strip_bearer_prefix request.authorization) ≡ ok (claims_of (bytes "t1"))
unfolding parse_token strip_bearer_prefix
parsed = refl

logout-handle_example :
    (handle jwt checker in_memory_token_store default_permission_config 30 60 request (record {
      tokens = (logout in_memory_token_store jwt 20 at_20 (claims_of (bytes "t1")) new_in_memory).1;
      checker = tt;
    })).0
    ≡ unauthorized "Token has been revoked"
logout-handle_example =
    logout-handle jwt checker default_permission_config at_20 20 30 60 request
      (claims_of (bytes "t1")) (claims_of (bytes "t1")) 100 new_in_memory tt
      (unfold new_in_memory in tt) (λ e. cc e) refl (omega arith) (omega arith) (omega arith)
      (omega arith) (λ e. cc e) parsed refl

goes_on :
    (handle jwt checker in_memory_token_store default_permission_config 30 60 request
      (record { tokens = new_in_memory; checker = tt })).0
    ≡ next (claims_of (bytes "t1"))
unfolding handle new_in_memory in_memory_is_revoked Store.lookup
goes_on = refl

handle-eq-next_example :
    (request.authorization ≢ [])
    × (parse_token jwt 30 (strip_bearer_prefix request.authorization) ≡ ok (claims_of (bytes "t1")))
    × IsAdmitted jwt checker in_memory_token_store default_permission_config 60 request
        (claims_of (bytes "t1"))
        (record { tokens = new_in_memory; checker = tt })
handle-eq-next_example =
    handle-eq-next jwt checker in_memory_token_store default_permission_config 30 60 request
      (claims_of (bytes "t1")) (record { tokens = new_in_memory; checker = tt }) goes_on

is_admitted :
    IsAdmitted jwt checker in_memory_token_store default_permission_config 60 request
      (claims_of (bytes "t1"))
      (record { tokens = new_in_memory; checker = tt })
unfolding new_in_memory in_memory_is_revoked parse_uint Store.lookup
is_admitted = (inr refl, (1, refl, inr (inr refl)))

handle_admitted_example :
    (handle jwt checker in_memory_token_store default_permission_config 30 60 request
      (record { tokens = new_in_memory; checker = tt })).0
    ≡ next (claims_of (bytes "t1"))
handle_admitted_example =
    handle_admitted jwt checker in_memory_token_store default_permission_config 30 60 request
      (claims_of (bytes "t1")) (record { tokens = new_in_memory; checker = tt }) (λ e. cc e) parsed
      is_admitted
