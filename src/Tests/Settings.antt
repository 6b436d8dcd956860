-- ===== src/Tests/Settings.antt =====
-- internal/modules/systemsetting at concrete inputs.
use go_admin.Common.{ℕ, ◌≡◌, refl, false, none, some, List, [], ◌∷◌, bytes}
use go_admin.Outcome.{ok, err, outside}
use go_admin.Repository.Query.{text, new_query_builder, where_eq}
use go_admin.Repository.Meta.{parse_model_meta}
use go_admin.Repository.Db.{Table}
use go_admin.Repository.Crud.{run_find}
use go_admin.Users.Model.{UserFinder}
use go_admin.Settings.Model.{
  SystemSetting, SettingRequest, SystemSettingResponse, setting_model, fields_of_setting,
}
use go_admin.Settings.Values.{Converters, SettingValue}
use go_admin.Settings.Service.{validate_value, get_by_key, create_setting, delete_setting}
use go_admin.Settings.Reads.{get_value}
use go_admin.Settings.Keys.{Means, get_value-Means}

-- A database that holds the given settings, whatever is asked.
abbrev holding : List SystemSetting → ℕ → Table (Unit {0}) SystemSetting
holding xs n = record {
  find = λ q db. ok xs;
  count = λ c db. ok n;
  insert = λ ms db. (ok ms, db);
  update = λ id m db. (ok tt, db);
  delete = λ c m db. (ok tt, db);
}

abbrev theme : SystemSetting
theme = record {
  id = 4;
  category = bytes "ui";
  key = bytes "ui.theme";
  value = bytes "dark";
  kind = 1;
  description = [];
  create_by = 1;
  create_time = 0;
  update_time = 0;
}

abbrev theme_request : SettingRequest
theme_request = record {
  category = bytes "ui";
  key = bytes "ui.theme";
  value = bytes "dark";
  kind = 1;
  description = [];
}

abbrev converters : Converters
converters = record {
  is_float = λ s. false;
  is_json = λ s. false;
  copy_update = λ req s. ok s;
  atoi = λ s. none;
  copy_response = λ s. ok (record {
    id = s.id;
    category = s.category;
    key = s.key;
    value = s.value;
    kind = s.kind;
    type_display = [];
    description = s.description;
    create_by = none;
    create_time = s.create_time;
    update_time = s.update_time;
  });
}

abbrev finder : UserFinder (Unit {0})
finder = record {
  find_by_id = λ id db. err (outside 3);
  find_by_username = λ name db. err (outside 3);
  verify_password = λ u plain. false;
}

deleted : delete_setting (holding (theme ∷ []) 1) setting_model converters finder 4 tt ≡ (ok tt, tt)
unfolding delete_setting parse_model_meta fields_of_setting
deleted = refl

nothing_found :
    run_find
      (holding [] 0)
      setting_model
      (where_eq (bytes "key") (text (bytes "ui.theme")) new_query_builder)
      tt
    ≡ ok []
unfolding run_find where_eq new_query_builder
nothing_found = refl

abbrev theme_created : SystemSettingResponse
theme_created = record {
  id = 0;
  category = bytes "ui";
  key = bytes "ui.theme";
  value = bytes "dark";
  kind = 1;
  type_display = 0xe6 ∷ 0x96 ∷ 0x87 ∷ 0xe6 ∷ 0x9c ∷ 0xac ∷ [];
  description = [];
  create_by = none;
  create_time = 0;
  update_time = 0;
}

created :
    create_setting (holding [] 0) setting_model converters finder theme_request 1 tt
    ≡ (ok theme_created, tt)
unfolding create_setting
created = refl

theme_found :
    get_by_key (holding (theme ∷ []) 1) setting_model converters finder (bytes "ui.theme") tt
    ≡ ok (some theme)
unfolding get_by_key
theme_found = refl

theme_is_valid :
    validate_value (holding (theme ∷ []) 1) setting_model converters finder 1 (bytes "dark") ≡ ok tt
unfolding validate_value
theme_is_valid = refl

get_value-Means_example :
    (v : SettingValue) × (get_value
        (holding (theme ∷ []) 1)
        setting_model
        converters
        finder
        (bytes "ui.theme")
        tt
      ≡ ok v)
    × Means (holding (theme ∷ []) 1) setting_model converters finder 1 (bytes "dark") v
get_value-Means_example =
    get_value-Means (holding (theme ∷ []) 1) setting_model converters finder (bytes "ui.theme")
      theme tt theme_found theme_is_valid
