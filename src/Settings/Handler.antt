-- ===== src/Settings/Handler.antt =====
-- internal/modules/systemsetting/handler/system_setting_handler.go. The claims that the middleware put
-- into the request have been read by UserID, which answers an error without them.
use go_admin.Common.{ℕ, Option, none, some, List, [], ◌∷◌, Bytes, ◌⊎◌, inl, inr}
use go_admin.Outcome.{Error, Outcome, ok, err, panic, Act}
use go_admin.Api.{
  Detail, Response, of_error, of_errors, success, unauthorized, database_error, business_failure,
}
use go_admin.Repository.Db.{Table}
use go_admin.Repository.Crud.{Model}
use go_admin.Users.Model.{UserFinder}
use go_admin.Settings.Model.{
  SystemSetting, SettingRequest, GetSystemSettingListRequest, SystemSettingResponse,
}
use go_admin.Settings.Values.{Converters}
use go_admin.Settings.Service.{create_setting, update_setting, delete_batch}
use go_admin.Settings.Reads.{get_setting, list_settings, get_by_category}

-- The answer of a handler: Success with what the service returned, or the response for its error.
abbrev pub answer :
    {A B : Type 0} → (A → Option B) → (Detail → Response B) → Outcome A → Outcome (Response B)
answer content failure (ok a) = ok (success (content a))
answer content failure (err e) = ok (failure (of_error e))
answer content failure panic = panic

-- The errors of DeleteBatch are one error, which is nil if there are none.
abbrev pub answer_deleted : Outcome (List Error) → Outcome (Response (Unit {0}))
answer_deleted (ok []) = ok (success none)
answer_deleted (ok (e ∷ es)) = ok (business_failure (of_errors (e ∷ es)))
answer_deleted (err e) = ok (business_failure (of_error e))
answer_deleted panic = panic

module _ {Db : Type 0} (table : Table Db SystemSetting) (model : Model SystemSetting)
    (converters : Converters) (finder : UserFinder Db) where
  -- CreateSystemSetting
  unfoldable pub handle_create :
      Error ⊎ ℕ → SettingRequest → Act Db (Response SystemSettingResponse)
  unfolding create_setting
  handle_create (inl e) req db = (ok (unauthorized (of_error e)), db)
  handle_create (inr user_id) req db =
      let (r, db') = create_setting table model converters finder req user_id db in
      (answer some business_failure r, db')

  -- GetSystemSetting
  unfoldable pub handle_get : ℕ → Db → Outcome (Response SystemSettingResponse)
  unfolding get_setting
  handle_get id db = answer some database_error (get_setting table model converters finder id db)

  -- GetSystemSettingList
  unfoldable pub handle_list :
      GetSystemSettingListRequest → Db → Outcome (Response (List SystemSettingResponse × ℕ))
  unfolding list_settings
  handle_list req db =
      answer some database_error (list_settings table model converters finder req db)

  -- UpdateSystemSetting
  unfoldable pub handle_update : ℕ → SettingRequest → Act Db (Response SystemSettingResponse)
  unfolding update_setting
  handle_update id req db =
      let (r, db') = update_setting table model converters finder id req db in
      (answer some business_failure r, db')

  -- DeleteSystemSetting
  unfoldable pub handle_delete : List ℕ → Act Db (Response (Unit {0}))
  unfolding delete_batch
  handle_delete ids db =
      let (r, db') = delete_batch table model converters finder ids db in (answer_deleted r, db')

  -- GetSystemSettingByCategory
  unfoldable pub handle_by_category : Bytes → Db → Outcome (Response (List SystemSettingResponse))
  unfolding get_by_category
  handle_by_category category db =
      answer some business_failure (get_by_category table model converters finder category db)
