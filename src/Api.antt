-- ===== src/Api.antt =====
-- pkg/api/response.go and pkg/api/code.go: the responses of the handlers. The text of a message is
-- kept as its prefix and what stands behind it.
use go_admin.Common.{
  ℕ, ◌&&◌, ◌||◌, Option, none, List, String, leb, ltb, if◌then◌else◌, ◌==◌, nat_eq,
}
use go_admin.Outcome.{Error}

-- What formatMessage puts behind a prefix.
pub data Detail : Type 0 where
  nothing : Detail
  literal : String → Detail
  of_error : Error → Detail
  of_errors : List Error → Detail

pub record Message : Type 0 where
  pub prefix : String
  pub detail : Detail

-- Response
pub record Response (A : Type 0) : Type 0 where
  pub code : ℕ
  pub message : Message
  pub content : Option A

-- The codes
abbrev pub success_ok : ℕ
success_ok = 100000

abbrev pub success_no_content : ℕ
success_no_content = 100001

abbrev pub client_param_error : ℕ
client_param_error = 200001

abbrev pub client_not_found : ℕ
client_not_found = 200002

abbrev pub client_unauthorized : ℕ
client_unauthorized = 200003

abbrev pub client_forbidden : ℕ
client_forbidden = 200004

abbrev pub client_conflict : ℕ
client_conflict = 200005

abbrev pub client_invalid_token : ℕ
client_invalid_token = 200007

abbrev pub client_token_expired : ℕ
client_token_expired = 200008

abbrev pub server_internal_error : ℕ
server_internal_error = 300001

abbrev pub server_database_error : ℕ
server_database_error = 300002

abbrev pub server_rate_limit : ℕ
server_rate_limit = 300004

abbrev pub business_error : ℕ
business_error = 310000

abbrev pub third_party_error : ℕ
third_party_error = 400001

abbrev pub system_error : ℕ
system_error = 500001

-- HTTPStatus, on the code
unfoldable pub http_status : ℕ → ℕ
http_status code =
    if leb success_ok code && ltb code 200000
    then 200
    else if code == client_unauthorized
        || code == client_invalid_token
        || code == client_token_expired
    then 401
    else if code == client_forbidden
    then 403
    else if code == client_not_found
    then 404
    else if code == client_conflict
    then 409
    else if code == server_rate_limit
    then 429
    else if leb 200000 code && ltb code 300000
    then 400
    else if leb 300000 code
    then 500
    else 200

module _ {A : Type 0} where
  abbrev pub success : Option A → Response A
  success a = record {
    code = success_ok;
    message = record { prefix = "Success"; detail = nothing };
    content = a;
  }

  abbrev pub no_content : Response A
  no_content = record {
    code = success_no_content;
    message = record { prefix = "No content"; detail = nothing };
    content = none;
  }

  abbrev pub param_error : Detail → Response A
  param_error d = record {
    code = client_param_error;
    message = record { prefix = "Parameter error"; detail = d };
    content = none;
  }

  abbrev pub unauthorized : Detail → Response A
  unauthorized d = record {
    code = client_unauthorized;
    message = record { prefix = "Unauthorized"; detail = d };
    content = none;
  }

  abbrev pub internal_error : Detail → Response A
  internal_error d = record {
    code = server_internal_error;
    message = record { prefix = "Internal server error"; detail = d };
    content = none;
  }

  abbrev pub database_error : Detail → Response A
  database_error d = record {
    code = server_database_error;
    message = record { prefix = "Database error"; detail = d };
    content = none;
  }

  abbrev pub not_found : Detail → Response A
  not_found d = record {
    code = client_not_found;
    message = record { prefix = "Resource not found"; detail = d };
    content = none;
  }

  abbrev pub forbidden : Detail → Response A
  forbidden d = record {
    code = client_forbidden;
    message = record { prefix = "Forbidden"; detail = d };
    content = none;
  }

  abbrev pub conflict : Detail → Response A
  conflict d = record {
    code = client_conflict;
    message = record { prefix = "Conflict"; detail = d };
    content = none;
  }

  abbrev pub business_failure : Detail → Response A
  business_failure d = record {
    code = business_error;
    message = record { prefix = "Business error"; detail = d };
    content = none;
  }

  abbrev pub rate_limit : Detail → Response A
  rate_limit d = record {
    code = server_rate_limit;
    message = record { prefix = "Rate limit"; detail = d };
    content = none;
  }

  abbrev pub system_failure : Detail → Response A
  system_failure d = record {
    code = system_error;
    message = record { prefix = "System error"; detail = d };
    content = none;
  }

  -- ThirdPartyError; the prefix is what formatServiceMessage puts behind the name of the service.
  abbrev pub third_party_failure : Detail → Response A
  third_party_failure d = record {
    code = third_party_error;
    message = record { prefix = "service error"; detail = d };
    content = none;
  }
