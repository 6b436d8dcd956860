-- ===== src/Settings/Model.antt =====
-- internal/modules/systemsetting/model/system_setting.go and dto/system_setting.go.
use go_admin.Common.{ℕ, Option, List, [], ◌∷◌, Bytes, bytes, ℤ}
use go_admin.Repository.Query.{num, text}
use go_admin.Repository.Meta.{Field, value, bean}
use go_admin.Repository.Crud.{Model}

-- model.SystemSetting
pub record SystemSetting : Type 0 where
  pub id : ℕ
  pub category : Bytes
  pub key : Bytes
  pub value : Bytes
  pub kind : ℕ
  pub description : Bytes
  pub create_by : ℕ
  pub create_time : ℕ
  pub update_time : ℕ

-- What reflection sees: the fields with their tags.
unfoldable pub fields_of_setting : SystemSetting → List Field
fields_of_setting s =
    record {
      name = bytes "ID";
      tag = bytes "pk autoincr bigint unsigned 'id'";
      content = value (num s.id);
    }
    ∷ record {
      name = bytes "Category";
      tag = bytes "varchar(50) notnull 'category'";
      content = value (text s.category);
    }
    ∷ record {
      name = bytes "Key";
      tag = bytes "varchar(50) notnull unique 'key'";
      content = value (text s.key);
    }
    ∷ record { name = bytes "Value"; tag = bytes "text 'value'"; content = value (text s.value) }
    ∷ record {
      name = bytes "Type";
      tag = bytes "tinyint unsigned notnull 'type'";
      content = value (num s.kind);
    }
    ∷ record {
      name = bytes "Description";
      tag = bytes "text 'description'";
      content = value (text s.description);
    }
    ∷ record {
      name = bytes "CreateBy";
      tag = bytes "bigint unsigned notnull 'create_by'";
      content = value (num s.create_by);
    }
    ∷ record { name = bytes "CreateTime"; tag = bytes "created 'create_time'"; content = bean }
    ∷ record { name = bytes "UpdateTime"; tag = bytes "updated 'update_time'"; content = bean }
    ∷ []

abbrev pub blank_setting : SystemSetting
blank_setting = record {
  id = 0;
  category = [];
  key = [];
  value = [];
  kind = 0;
  description = [];
  create_by = 0;
  create_time = 0;
  update_time = 0;
}

abbrev pub setting_model : Model SystemSetting
setting_model = record {
  fields = fields_of_setting;
  blank = blank_setting;
  id_of = λ s. s.id;
  set_id = λ id s. record s { id = id };
}

-- dto.CreateSystemSettingRequest and dto.UpdateSystemSettingRequest, whose id is apart
pub record SettingRequest : Type 0 where
  pub category : Bytes
  pub key : Bytes
  pub value : Bytes
  pub kind : ℕ
  pub description : Bytes

-- dto.GetSystemSettingListRequest, with what reflection sees of it
pub record GetSystemSettingListRequest : Type 0 where
  pub limit : ℤ
  pub offset : ℤ
  pub category : Bytes
  pub key : Bytes
  pub kind : ℕ

unfoldable pub fields_of_list_request : GetSystemSettingListRequest → List Field
fields_of_list_request req =
    record { name = bytes "Page"; tag = []; content = bean }
    ∷ record {
      name = bytes "Category";
      tag = bytes "category op=eq";
      content = value (text req.category);
    }
    ∷ record { name = bytes "Key"; tag = bytes "key op=like"; content = value (text req.key) }
    ∷ record { name = bytes "Type"; tag = bytes "type op=eq"; content = value (num req.kind) }
    ∷ []

-- dto.CreatorResponse
pub record CreatorResponse : Type 0 where
  pub id : ℕ
  pub username : Bytes

-- dto.SystemSettingResponse
pub record SystemSettingResponse : Type 0 where
  pub id : ℕ
  pub category : Bytes
  pub key : Bytes
  pub value : Bytes
  pub kind : ℕ
  pub type_display : Bytes
  pub description : Bytes
  pub create_by : Option CreatorResponse
  pub create_time : ℕ
  pub update_time : ℕ
