-- ===== src/Tests/Startup.antt =====
-- The configuration and the root of the project at concrete inputs.
use go_admin.Common.{
  ◌≡◌, refl, Bool, false, Option, none, some, [], ◌∷◌, Bytes, bytes, pos, negsuc, if◌then◌else◌,
  ◌==◌, text_eq,
}
use go_admin.Outcome.{Error, outside}
use go_admin.Config.{
  Config, fresh_loader, atoi, load, override_int, override_string, apply_env_overrides,
  lookup_non_empty,
}
use go_admin.Config.Once.{load_again}
use go_admin.Pathutil.{Dir, any_marker, find_root_from}
use go_admin.Pathutil.Nearest.{Answers, find_root_from-Answers}

abbrev defaults : Config (Unit {0})
defaults = record {
  server_port = pos 0;
  otel_service = bytes "hertz-service";
  otel_endpoint = bytes "localhost:4317";
  otel_protocol = bytes "grpc";
  database_host = [];
  database_port = pos 0;
  database_user = [];
  database_password = [];
  database_name = [];
  redis_host = bytes "127.0.0.1";
  redis_port = pos 6379;
  redis_password = [];
  jwt_secret = [];
  rest = tt;
}

abbrev env : Bytes → Option Bytes
env key =
    if key == bytes "JWT_SECRET"
    then some (bytes "s3cret")
    else if key == bytes "REDIS_PORT"
    then some (bytes "-1")
    else none

minus : atoi (bytes "-17") ≡ some (negsuc 16)
unfolding atoi
minus = refl

abbrev overridden : Config (Unit {0})
overridden = record defaults { jwt_secret = bytes "s3cret" }

secret_is_taken : apply_env_overrides env defaults ≡ overridden
unfolding apply_env_overrides override_string override_int lookup_non_empty atoi
secret_is_taken = refl

abbrev unreadable : Config (Unit {0}) → Option Error × Config (Unit {0})
unreadable cfg = (some (outside 2), cfg)

load_again_example :
    let first = load env unreadable defaults fresh_loader in
    let again = load env unreadable defaults first.1 in
    (first.0 ≡ (some defaults, some (outside 2))) × (again ≡ ((some defaults, none), first.1))
load_again_example = load_again env unreadable defaults (outside 2) defaults refl

abbrev project : Dir → Bytes → Bool
project [] m = false
project (d ∷ []) m = m == bytes "conf"
project (d ∷ e ∷ dir) m = false

find_root_from-Answers_example :
    Answers project
      (bytes "cmd" ∷ bytes "app" ∷ [])
      (find_root_from project (bytes "cmd" ∷ bytes "app" ∷ []))
find_root_from-Answers_example = find_root_from-Answers project (bytes "cmd" ∷ bytes "app" ∷ [])

app_is_found : find_root_from project (bytes "cmd" ∷ bytes "app" ∷ []) ≡ some (bytes "app" ∷ [])
unfolding find_root_from any_marker
app_is_found = refl
