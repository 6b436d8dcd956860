-- ===== src/Settings/Values.antt =====
-- The values of settings in system_setting_service.go, and what is taken from libraries for them.
use go_admin.Common.{
  ℕ, Bool, true, false, Option, none, some, List, [], ◌∷◌, Bytes, bytes, ℤ, contains, text_eq,
  nat_eq, if◌then◌else◌, ◌==◌,
}
use go_admin.Outcome.{Outcome, ok, err, panic}
use go_admin.Settings.Model.{SystemSetting, SettingRequest, SystemSettingResponse}

-- strconv.ParseBool
abbrev pub true_words : List Bytes
true_words = bytes "1" ∷ bytes "t" ∷ bytes "T" ∷ bytes "TRUE" ∷ bytes "true" ∷ bytes "True" ∷ []

abbrev pub false_words : List Bytes
false_words = bytes "0" ∷ bytes "f" ∷ bytes "F" ∷ bytes "FALSE" ∷ bytes "false" ∷ bytes "False" ∷ []

unfoldable pub parse_bool : Bytes → Option Bool
unfolding contains
parse_bool s =
    if contains true_words s then some true else if contains false_words s then some false else none

-- Whether strconv.ParseFloat and json.Unmarshal accept a text, strconv.Atoi, and copier.Copy of an
-- update and into a response.
pub record Converters : Type 0 where
  pub is_float : Bytes → Bool
  pub is_json : Bytes → Bool
  pub atoi : Bytes → Option ℤ
  pub copy_update : SettingRequest → SystemSetting → Outcome SystemSetting
  pub copy_response : SystemSetting → Outcome SystemSettingResponse

-- The texts of typeDisplay, in UTF-8.
unfoldable pub type_display : ℕ → Bytes
type_display kind =
    if kind == 1
    then 0xe6 ∷ 0x96 ∷ 0x87 ∷ 0xe6 ∷ 0x9c ∷ 0xac ∷ []
    else if kind == 2
    then 0xe6 ∷ 0x95 ∷ 0xb0 ∷ 0xe5 ∷ 0xad ∷ 0x97 ∷ []
    else if kind == 3
    then 0xe5 ∷ 0xb8 ∷ 0x83 ∷ 0xe5 ∷ 0xb0 ∷ 0x94 ∷ []
    else if kind == 4
    then bytes "JSON"
    else 0xe6 ∷ 0x9c ∷ 0xaa ∷ 0xe7 ∷ 0x9f ∷ 0xa5 ∷ 0xe7 ∷ 0xb1 ∷ 0xbb ∷ 0xe5 ∷ 0x9e ∷ 0x8b ∷ []

-- What GetValue returns: the text, what strconv.Atoi, strconv.ParseFloat, strconv.ParseBool or
-- json.Unmarshal make of it, or the default.
pub data SettingValue : Type 0 where
  as_text as_float as_json : Bytes → SettingValue
  as_int : ℤ → SettingValue
  as_bool : Bool → SettingValue
  default_value : SettingValue

abbrev pub bool_of : Option Bool → SettingValue
bool_of none = default_value
bool_of (some b) = as_bool b

abbrev pub number_of : Bytes → Bool → Option ℤ → SettingValue
number_of content is_float (some n) = as_int n
number_of content is_float none = if is_float then as_float content else default_value

module _ (converters : Converters) where
  -- The switch of GetValue.
  unfoldable pub value_of : ℕ → Bytes → SettingValue
  unfolding parse_bool
  value_of kind content =
      if kind == 1
      then as_text content
      else if kind == 2
      then number_of content (converters.is_float content) (converters.atoi content)
      else if kind == 3
      then bool_of (parse_bool content)
      else if kind == 4
      then (if converters.is_json content then as_json content else default_value)
      else default_value

  abbrev pub value_or_default : Outcome (Option SystemSetting) → Outcome SettingValue
  value_or_default (ok (some s)) = ok (value_of s.kind s.value)
  value_or_default (ok none) = panic
  value_or_default (err e) = ok default_value
  value_or_default panic = panic
