-- ===== src/Settings/Service.antt =====
-- internal/modules/systemsetting/service/system_setting_service.go: the settings of the system. A nil
-- pointer is `none`; reading through one panics. copier.Copy, strconv.ParseFloat, strconv.Atoi and
-- json.Unmarshal are parameters.
use go_admin.Common.{
  ℕ, zero, suc, Bool, Option, none, some, List, [], ◌∷◌, Bytes, bytes, contains, text_eq, nat_eq,
  not, ◌&&◌, if◌then◌else◌, ◌==◌, ltb,
}
use go_admin.Outcome.{Error, new, wrap, Outcome, ok, err, panic, Act, ◌>>=◌, ◌>>◌, wrapped, reads}
use go_admin.Repository.Query.{num, text, QueryBuilder, new_query_builder, where_eq, where_ne}
use go_admin.Repository.Db.{Table}
use go_admin.Repository.Crud.{Model, run_find, run_count, find_by_id, create, update, delete_by_id}
use go_admin.Users.Model.{User, UserFinder}
use go_admin.Settings.Model.{SystemSetting, SettingRequest, CreatorResponse, SystemSettingResponse}
use go_admin.Settings.Values.{Converters, parse_bool, type_display}

-- coreSettingKeys
abbrev pub core_setting_keys : List Bytes
core_setting_keys =
    bytes "system.name"
    ∷ bytes "system.version"
    ∷ bytes "database.version"
    ∷ bytes "security.jwt_secret"
    ∷ []

module _ {Db : Type 0} (table : Table Db SystemSetting) (model : Model SystemSetting)
    (converters : Converters) (finder : UserFinder Db) where
  abbrev creator_of : Outcome User → Option CreatorResponse
  creator_of (ok u) = some (record { id = u.id; username = u.username })
  creator_of (err e) = none
  creator_of panic = none

  abbrev pub with_creator :
      SystemSetting → Outcome User → SystemSettingResponse → Outcome SystemSettingResponse
  with_creator s panic r = panic
  with_creator s (ok u) r =
      ok (record r { type_display = type_display s.kind; create_by = creator_of (ok u) })
  with_creator s (err e) r = ok (record r { type_display = type_display s.kind })

  abbrev pub respond_with :
      SystemSetting → Outcome User → Outcome SystemSettingResponse → Outcome SystemSettingResponse
  respond_with s creator (ok r) = with_creator s creator r
  respond_with s creator (err e) = err (wrap "failed to convert system setting to response" e)
  respond_with s creator panic = panic

  -- toResponse
  unfoldable pub to_response : SystemSetting → Db → Outcome SystemSettingResponse
  unfolding type_display
  to_response s db = respond_with s (finder.find_by_id s.create_by db) (converters.copy_response s)

  abbrev pub valid_bool : Option Bool → Outcome (Unit {0})
  valid_bool none = err (new "invalid boolean value")
  valid_bool (some b) = ok tt

  -- validateValue
  unfoldable pub validate_value : ℕ → Bytes → Outcome (Unit {0})
  unfolding parse_bool
  validate_value kind content =
      if kind == 1
      then ok tt
      else if kind == 2
      then (if converters.is_float content then ok tt else err (new "invalid number value"))
      else if kind == 3
      then valid_bool (parse_bool content)
      else if kind == 4
      then (if converters.is_json content then ok tt else err (new "invalid JSON value"))
      else err (new "invalid setting type")

  abbrev pub key_query : Bytes → ℕ → QueryBuilder
  key_query key exclude_id =
      let query = where_eq (bytes "key") (text key) new_query_builder in
      if ltb 0 exclude_id then where_ne (bytes "id") (num exclude_id) query else query

  abbrev pub none_counted : Outcome ℕ → Outcome (Unit {0})
  none_counted (ok zero) = ok tt
  none_counted (ok (suc n)) = err (new "setting key already exists")
  none_counted (err e) = err (wrap "failed to check setting key uniqueness" e)
  none_counted panic = panic

  -- checkKeyUnique
  unfoldable pub check_key_unique : Bytes → ℕ → Db → Outcome (Unit {0})
  unfolding run_count where_eq where_ne new_query_builder
  check_key_unique key exclude_id db =
      none_counted (run_count table model (key_query key exclude_id) db)

  -- getByKey: errors.Wrap of no error is no error.
  abbrev pub first_setting : Outcome (List SystemSetting) → Outcome (Option SystemSetting)
  first_setting (ok []) = ok none
  first_setting (ok (x ∷ xs)) = ok (some x)
  first_setting (err e) = err (wrap "system setting not found" e)
  first_setting panic = panic

  unfoldable pub get_by_key : Bytes → Db → Outcome (Option SystemSetting)
  unfolding run_find where_eq new_query_builder
  get_by_key key db =
      first_setting (run_find table model (where_eq (bytes "key") (text key) new_query_builder) db)

  -- Create behind its two checks
  unfoldable pub insert_setting : SettingRequest → ℕ → Act Db SystemSettingResponse
  unfolding create to_response ◌>>=◌ wrapped
  insert_setting req create_by = do
    stored ← wrapped "failed to create system setting" (
        create table model (record {
          id = 0;
          category = req.category;
          key = req.key;
          value = req.value;
          kind = req.kind;
          description = req.description;
          create_by = create_by;
          create_time = 0;
          update_time = 0;
        }))
    reads (to_response stored)

  -- Create
  unfoldable pub create_setting : SettingRequest → ℕ → Act Db SystemSettingResponse
  unfolding check_key_unique validate_value insert_setting ◌>>=◌ wrapped
  create_setting req create_by = do
    reads (check_key_unique req.key 0)
    reads (λ _. validate_value req.kind req.value)
    insert_setting req create_by

  abbrev pub check_new_key : Bytes → Bytes → ℕ → Db → Outcome (Unit {0})
  check_new_key new_key old_key id db =
      if not (new_key == []) && not (new_key == old_key)
      then check_key_unique new_key id db
      else ok tt

  -- Update
  unfoldable pub update_setting : ℕ → SettingRequest → Act Db SystemSettingResponse
  unfolding check_key_unique validate_value find_by_id update to_response ◌>>=◌ wrapped
  update_setting id req = do
    setting ← wrapped "system setting not found" (reads (find_by_id table model id))
    reads (check_new_key req.key setting.key id)
    reads (λ _. validate_value req.kind req.value)
    changed ←
        wrapped "failed to copy request to system setting"
          (reads (λ _. converters.copy_update req setting))
    wrapped "failed to update system setting" (update table model changed)
    reads (to_response changed)

  abbrev pub delete_found : ℕ → SystemSetting → Act Db (Unit {0})
  delete_found id setting db =
      if contains core_setting_keys setting.key
      then (err (new "core setting cannot be deleted"), db)
      else wrapped "failed to delete system setting" (delete_by_id table model id) db

  -- delete
  unfoldable pub delete_setting : ℕ → Act Db (Unit {0})
  unfolding find_by_id delete_by_id contains ◌>>=◌ wrapped
  delete_setting id =
      wrapped "setting not found" (reads (find_by_id table model id)) >>= delete_found id

  abbrev discard : Outcome SystemSettingResponse × Db → Outcome (Unit {0}) × Db
  discard (ok _, db) = (ok tt, db)
  discard (err e, db) = (err e, db)
  discard (panic, db) = (panic, db)

  -- existing.ID, which reads through the pointer.
  abbrev pub id_behind : Option SystemSetting → Outcome ℕ
  id_behind none = panic
  id_behind (some existing) = ok existing.id

  abbrev pub set_found : SettingRequest → ℕ → Outcome (Option SystemSetting) → Act Db (Unit {0})
  set_found req create_by (ok existing) db =
      discard ((reads (λ _. id_behind existing) >>= λ id. update_setting id req) db)
  set_found req create_by (err e) db = discard (create_setting req create_by db)
  set_found req create_by panic db = (panic, db)

  -- Set
  unfoldable pub set_setting : SettingRequest → ℕ → Act Db (Unit {0})
  unfolding get_by_key create_setting update_setting
  set_setting req create_by db = set_found req create_by (get_by_key req.key db) db

  abbrev pub and_also : Error → Outcome (List Error) × Db → Outcome (List Error) × Db
  and_also e (ok es, db) = (ok (e ∷ es), db)
  and_also e (err x, db) = (err x, db)
  and_also e (panic, db) = (panic, db)

  abbrev pub noted :
      Outcome (Unit {0}) × Db → (Db → Outcome (List Error) × Db) → Outcome (List Error) × Db
  noted (ok _, db) next = next db
  noted (err e, db) next = and_also e (next db)
  noted (panic, db) next = (panic, db)

  -- DeleteBatch: it goes on behind an error, and answers with all of them.
  unfoldable pub delete_batch : List ℕ → Act Db (List Error)
  unfolding delete_setting
  delete_batch [] db = (ok [], db)
  delete_batch (id ∷ ids) db = noted (delete_setting id db) (λ db'. delete_batch ids db')
