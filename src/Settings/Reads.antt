-- ===== src/Settings/Reads.antt =====
-- The reading methods of system_setting_service.go.
use go_admin.Common.{ℕ, List, [], ◌∷◌, Bytes, bytes}
use go_admin.Outcome.{wrap, Outcome, ok, err, panic}
use go_admin.Repository.Query.{text, new_query_builder, where_eq, order_by}
use go_admin.Repository.Db.{Table}
use go_admin.Repository.Crud.{Model, run_find, find_by_id, find_page}
use go_admin.Users.Model.{UserFinder}
use go_admin.Settings.Model.{
  SystemSetting, GetSystemSettingListRequest, fields_of_list_request, SystemSettingResponse,
}
use go_admin.Settings.Values.{Converters, SettingValue, value_of, value_or_default}
use go_admin.Settings.Service.{to_response, get_by_key}

module _ {Db : Type 0} (table : Table Db SystemSetting) (model : Model SystemSetting)
    (converters : Converters) (finder : UserFinder Db) where
  abbrev respond_to : Db → Outcome SystemSetting → Outcome SystemSettingResponse
  respond_to db (ok s) = to_response table model converters finder s db
  respond_to db (err e) = err (wrap "system setting not found" e)
  respond_to db panic = panic

  -- Get
  unfoldable pub get_setting : ℕ → Db → Outcome SystemSettingResponse
  unfolding find_by_id to_response
  get_setting id db = respond_to db (find_by_id table model id db)

  abbrev before :
      Outcome (List SystemSettingResponse)
      → Outcome SystemSettingResponse
      → Outcome (List SystemSettingResponse)
  before rest (err e) = err e
  before rest panic = panic
  before (ok rs) (ok r) = ok (r ∷ rs)
  before (err e) (ok r) = err e
  before panic (ok r) = panic

  -- toResponseList
  unfoldable pub to_response_list : List SystemSetting → Db → Outcome (List SystemSettingResponse)
  unfolding to_response
  to_response_list [] db = ok []
  to_response_list (s ∷ ss) db =
      before (to_response_list ss db) (to_response table model converters finder s db)

  abbrev with_total :
      ℕ → Outcome (List SystemSettingResponse) → Outcome (List SystemSettingResponse × ℕ)
  with_total total (ok rs) = ok (rs, total)
  with_total total (err e) = err e
  with_total total panic = panic

  abbrev page_responses :
      Db → Outcome (List SystemSetting × ℕ) → Outcome (List SystemSettingResponse × ℕ)
  page_responses db (ok (ss, total)) = with_total total (to_response_list ss db)
  page_responses db (err e) = err (wrap "failed to retrieve system settings" e)
  page_responses db panic = panic

  -- List
  unfoldable pub list_settings :
      GetSystemSettingListRequest → Db → Outcome (List SystemSettingResponse × ℕ)
  unfolding find_page to_response_list fields_of_list_request
  list_settings req db =
      page_responses db (find_page table model (fields_of_list_request req) req.limit req.offset db)

  abbrev list_responses : Db → Outcome (List SystemSetting) → Outcome (List SystemSettingResponse)
  list_responses db (ok ss) = to_response_list ss db
  list_responses db (err e) = err (wrap "failed to query system settings" e)
  list_responses db panic = panic

  -- GetByCategory
  unfoldable pub get_by_category : Bytes → Db → Outcome (List SystemSettingResponse)
  unfolding run_find to_response_list where_eq order_by new_query_builder
  get_by_category category db = list_responses db (
      run_find table model
        (order_by (bytes "key ASC") (where_eq (bytes "category") (text category) new_query_builder))
        db)

  -- GetValue: a setting that is not there is read through nil.
  unfoldable pub get_value : Bytes → Db → Outcome SettingValue
  unfolding get_by_key value_of
  get_value key db = value_or_default converters (get_by_key table model converters finder key db)
