-- ===== src/Repository/Meta.antt =====
-- pkg/repository/meta.go, and parseFilterTag and buildFiltersFromModel of query.go: what the
-- repository reads from the xorm tags of a model. Go's reflection on a struct is a list of its
-- fields, each with its name, its tag and its value.
use go_admin.Common.{
  ℕ, suc, ◌≡◌, refl, Bool, true, false, Option, none, some, List, [], ◌∷◌, ◌++◌, if◌then◌else◌,
  ◌==◌, ◌||◌, text_eq, nat_eq, Bytes, bytes, has_prefix, has_byte, fields, to_lower, contains, drop,
  map,
}
use go_admin.Repository.Query.{Value, null, num, text, nums, texts, Op, op_eq, Condition}

-- A field of a struct. `bean` is a struct inside the struct (time.Time too), `absent` a nil pointer.
pub data FieldValue : Type 0 where
  value : Value → FieldValue
  bean absent : FieldValue

pub record Field : Type 0 where
  pub name : Bytes
  pub tag : Bytes
  pub content : FieldValue

-- ' and `
abbrev is_quote : ℕ → Bool
is_quote c = c == 39 || c == 96

-- quotedName: the text between the first quote and the next of its kind.
unfoldable pub until_quote : ℕ → Bytes → Option Bytes
until_quote q [] = none
until_quote q (c ∷ s) =
    if c == q then some [] else elim (until_quote q s) [ none ↦ none | some w ↦ some (c ∷ w) ]

unfoldable pub quoted_name : Bytes → Bytes
unfolding until_quote
quoted_name [] = []
quoted_name (c ∷ s) =
    let rest = quoted_name s in
    if is_quote c then (elim (until_quote c s) [ none ↦ [] | some w ↦ w ]) else rest

-- isXormTypeToken
abbrev type_prefixes : List Bytes
type_prefixes = map bytes (
    "varchar" ∷ "char" ∷ "text" ∷ "tinyint" ∷ "smallint" ∷ "int" ∷ "bigint" ∷ "float" ∷ "double"
    ∷ "decimal" ∷ "datetime" ∷ "date" ∷ "time" ∷ "timestamp" ∷ "blob" ∷ "json" ∷ "bool" ∷ "boolean"
    ∷ "unsigned" ∷ [])

abbrev matches_type : Bytes → List Bytes → Bool
matches_type word [] = false
matches_type word (p ∷ ps) = word == p || has_prefix word (p ++ bytes "(") || matches_type word ps

unfoldable pub is_xorm_type_token : Bytes → Bool
is_xorm_type_token part = matches_type (to_lower part) type_prefixes

-- The keywords of an xorm tag that columnFromXormTag passes over; parseFilterTag also passes over
-- "unsigned".
abbrev column_keywords : List Bytes
column_keywords =
    map bytes
      ("pk" ∷ "autoincr" ∷ "notnull" ∷ "unique" ∷ "index" ∷ "created" ∷ "updated" ∷ "deleted" ∷ [])

abbrev filter_keywords : List Bytes
filter_keywords = bytes "unsigned" ∷ column_keywords

abbrev first_column : List Bytes → Bytes
first_column [] = []
first_column (part ∷ parts) =
    if contains column_keywords (to_lower part)
      || (has_prefix part (bytes "op=") || (has_byte b'(' part || is_xorm_type_token part))
    then first_column parts
    else part

-- columnFromXormTag
unfoldable pub column_from_xorm_tag : Bytes → Bytes
unfolding quoted_name is_xorm_type_token contains
column_from_xorm_tag tag =
    let quoted = quoted_name tag in if quoted == [] then first_column (fields tag) else quoted

abbrev first_filter_column : List Bytes → Bytes
first_filter_column [] = []
first_filter_column (part ∷ parts) =
    if has_prefix part (bytes "op=")
      || is_xorm_type_token part
      || contains filter_keywords (to_lower part)
    then first_filter_column parts
    else part

-- The operator in the tag: from behind the first "op=" up to a space or a quote.
abbrev op_word : Bytes → Bytes
op_word [] = []
op_word (c ∷ s) = if c == 32 || is_quote c then [] else c ∷ op_word s

abbrev op_text : Bytes → Bytes
op_text [] = []
op_text (c ∷ s) = if has_prefix (c ∷ s) (bytes "op=") then op_word (drop 3 (c ∷ s)) else op_text s

-- parseFilterTag
unfoldable pub parse_filter_tag : Bytes → Bytes × Op
unfolding quoted_name is_xorm_type_token contains
parse_filter_tag tag =
    let quoted = quoted_name tag in
    let column : Bytes = if quoted == [] then first_filter_column (fields tag) else quoted in
    let op = op_text tag in (column, if op == [] then op_eq else op)

-- reflect.Value.IsZero on a value; a nil slice is `null`.
abbrev pub is_zero : Value → Bool
is_zero null = true
is_zero (num n) = n == 0
is_zero (text t) = t == []
is_zero (nums _) = false
is_zero (texts _) = false

abbrev filter_of : Bytes × Op → Value → List Condition → List Condition
filter_of ([], op) v rest = rest
filter_of (c ∷ column, op) v rest = record { field = c ∷ column; op = op; value = v } ∷ rest

-- buildFiltersFromModel
unfoldable pub build_filters : List Field → List Condition
unfolding parse_filter_tag
build_filters [] = []
build_filters (f ∷ fs) =
    let rest = build_filters fs in
    elim f.content [
      | value v ↦ if is_zero v then rest else filter_of (parse_filter_tag f.tag) v rest
      | bean ↦ rest
      | absent ↦ rest
    ]

-- modelMeta
pub record ModelMeta : Type 0 where
  pub pk_field_index : ℕ
  pub pk_column : Bytes

-- containsToken(tag, "pk"): strings.EqualFold on ASCII
abbrev contains_token : List Bytes → Bytes → Bool
contains_token [] token = false
contains_token (w ∷ ws) token = to_lower w == to_lower token || contains_token ws token

-- parseModelMeta, from the field of index `i` on; `none` is ErrNoPrimaryKey.
unfoldable pub parse_model_meta : ℕ → List Field → Option ModelMeta
unfolding column_from_xorm_tag
parse_model_meta i [] = none
parse_model_meta i (f ∷ fs) =
    let rest = parse_model_meta (suc i) fs in
    let column = column_from_xorm_tag f.tag in
    if contains_token (fields f.tag) (bytes "pk")
    then some (record {
      pk_field_index = i;
      pk_column = if column == [] then to_lower f.name else column;
    })
    else rest

tag_of_id : column_from_xorm_tag (bytes "pk autoincr bigint unsigned 'id'") ≡ bytes "id"
unfolding column_from_xorm_tag
tag_of_id = refl

tag_of_code : parse_filter_tag (bytes "code op=startswith") ≡ (bytes "code", bytes "startswith")
unfolding parse_filter_tag
tag_of_code = refl
