-- ===== src/Tests/Permissions.antt =====
-- internal/modules/iam/handler/permission_handler.go on a table in memory.
use go_admin.Common.{◌≡◌, refl, ◌⊎◌, some, none, List, [], ◌∷◌, bytes, pos, nat_eq, text_eq}
use go_admin.Outcome.{ok, panic, ◌>>=◌, wrapped}
use go_admin.Store
use go_admin.Store.View.{view}
use go_admin.Api.{success, http_status}
use go_admin.Repository.Db.{Table, wrap_db_err}
use go_admin.Repository.Crud.{create}
use go_admin.Iam.Model.{Permission, permission_model, blank_permission}
use go_admin.Iam.Checker.{Checker, invalidate_all}
use go_admin.Iam.PermissionService.{CreatePermissionRequest, PermissionCopier, create_permission}
use go_admin.Iam.PermissionHandler.{handle_create, changed}
use go_admin.Iam.PermissionHandler.Fresh.{creates, handle_change, handle_change-view}
use go_admin.Tests.Tables.{list_table}

abbrev permissions : Table (List Permission) Permission
permissions = list_table (λ c p. p.id) permission_model

abbrev by_fields : PermissionCopier
by_fields = record {
  create_permission =
      λ req. ok (record blank_permission { name = req.name; path = req.path; method = req.method });
  create_permissions = λ reqs. panic;
  update_permission = λ req p. ok p;
  response = λ p. ok p;
  responses = λ ps. ok ps;
}

abbrev request : CreatePermissionRequest
request = record {
  name = bytes "list";
  code = [];
  description = [];
  parent_id = 0;
  kind = 3;
  path = bytes "/api/user";
  method = bytes "GET";
  status = 1;
}

abbrev listing : Permission
listing = record blank_permission {
  name = bytes "list";
  path = bytes "/api/user";
  method = bytes "GET";
}

-- User 1 has no key in the cache, which lives up to time 100.
abbrev before : Checker (List Permission)
before = record {
  db = [];
  cache = record {
    default_ttl = pos 50;
    m = (1, record { value = []; expires_at = some 100 }) ∷ [];
  };
}

abbrev behind : Checker (List Permission)
behind = record { db = listing ∷ []; cache = record { default_ttl = pos 50; m = [] } }

creates_listing :
    handle_create permissions by_fields request before ≡ (ok (success (some listing)), behind)
unfolding handle_create create_permission changed create invalidate_all Store.clear ◌>>=◌ wrapped
    wrap_db_err
creates_listing = refl

handle_change-view_example :
    ((http_status (success (some listing)).code ≡ 200) × (view 60 behind.cache 1 ≡ none))
    ⊎ ((http_status (success (some listing)).code ≡ 500) × (behind.cache ≡ before.cache))
unfolding handle_change
handle_change-view_example =
    handle_change-view permissions by_fields (creates request) before behind
      (success (some listing)) 60 1 creates_listing
