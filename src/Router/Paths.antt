-- ===== src/Router/Paths.antt =====
-- internal/platform/router/register.go: HTTP method and path from the name of a handler. A name is
-- the list of its runes; package unicode is a parameter.
use go_admin.Common.{
  ℕ, ◌-◌, Bool, ◌&&◌, not, [], ◌∷◌, ◌++◌, Bytes, bytes, if◌then◌else◌, ◌==◌, nat_eq, has_prefix,
  trim_prefix, has_suffix, trim_suffix, has_byte, length, take,
}

-- Method: GET, POST, PUT and DELETE, or any other text
pub data Method : Type 0 where
  get post put delete : Method
  other : Bytes → Method

-- The text of a method
abbrev pub method_text : Method → Bytes
method_text get = bytes "GET"
method_text post = bytes "POST"
method_text put = bytes "PUT"
method_text delete = bytes "DELETE"
method_text (other s) = s

-- PathFormat
pub data PathFormat : Type 0 where
  snake_case slash_case : PathFormat

-- unicode.IsUpper and unicode.ToLower
pub record Unicode : Type 0 where
  pub is_upper : ℕ → Bool
  pub to_lower : ℕ → ℕ

-- splitMethodPrefix
unfoldable pub split_method_prefix : Bytes → Method × Bytes
split_method_prefix name =
    if has_prefix name (bytes "Get")
    then (get, trim_prefix name (bytes "Get"))
    else if has_prefix name (bytes "Post")
    then (post, trim_prefix name (bytes "Post"))
    else if has_prefix name (bytes "Create")
    then (post, trim_prefix name (bytes "Create"))
    else if has_prefix name (bytes "Put")
    then (put, trim_prefix name (bytes "Put"))
    else if has_prefix name (bytes "Update")
    then (put, trim_prefix name (bytes "Update"))
    else if has_prefix name (bytes "Delete")
    then (delete, trim_prefix name (bytes "Delete"))
    else (post, name)

module _ (unicode : Unicode) where
  -- The loop of toSnakeCase and of toSlashCase, behind the first character.
  unfoldable pub case_from : ℕ → ℕ → Bytes → Bytes
  case_from sep prev [] = []
  case_from sep prev (c ∷ s) =
      let rest = case_from sep c s in
      if unicode.is_upper c && not (prev == sep)
      then sep ∷ unicode.to_lower c ∷ rest
      else unicode.to_lower c ∷ rest

  unfoldable pub to_case : ℕ → Bytes → Bytes
  to_case sep [] = []
  to_case sep (c ∷ s) = unicode.to_lower c ∷ case_from sep c s

  abbrev pub to_snake_case : Bytes → Bytes
  to_snake_case = to_case b'_'

  abbrev pub to_slash_case : Bytes → Bytes
  to_slash_case = to_case b'/'

  unfoldable pub apply_path_format : Bytes → PathFormat → Bytes
  apply_path_format name slash_case = bytes "/" ++ to_slash_case name
  apply_path_format name snake_case = bytes "/" ++ to_snake_case name

  -- formatPath
  unfoldable pub format_path : Bytes → PathFormat → Bytes
  format_path name strategy =
      if has_suffix name (bytes "List")
      then apply_path_format (trim_suffix name (bytes "List")) strategy ++ bytes "/list"
      else apply_path_format name strategy

  -- inferFromName
  unfoldable pub infer_from_name : Bytes → PathFormat → Method × Bytes
  infer_from_name name strategy =
      let (method, base) = split_method_prefix name in (method, format_path base strategy)

-- The text behind the last dot, if there is one.
abbrev pub behind_last_dot : Bytes → Bytes
behind_last_dot [] = []
behind_last_dot (c ∷ s) =
    let rest = behind_last_dot s in if has_byte b'.' s then rest else if c == b'.' then s else c ∷ s

-- cleanFuncName
unfoldable pub clean_func_name : Bytes → Bytes
clean_func_name full_name =
    let name = behind_last_dot full_name in
    if has_suffix name (bytes "-fm")
    then take (length name - 3) name
    else if has_suffix name (bytes "-m")
    then take (length name - 2) name
    else name
