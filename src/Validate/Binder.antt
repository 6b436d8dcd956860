-- ===== src/Validate/Binder.antt =====
-- The methods of DecimalBinder in internal/platform/validate/validate.go.
use go_admin.Common.{Bool, true, false, ◌||◌, [], ◌∷◌, Bytes, has_prefix, if◌then◌else◌}
use go_admin.Outcome.{Error, Outcome, ok, err, panic, Act, ◌>>=◌}
use go_admin.Validate.{
  Decimals, Value, decimal, decimal_pointer, struct, slice, other, handle_members,
}

-- What is passed to a binder: a pointer to a value, or a value.
pub data Target (D : Type 0) : Type 0 where
  pointer_to : Value D → Target D
  plain : Value D → Target D

-- strings.Contains(s, sub)
abbrev pub has_part : Bytes → Bytes → Bool
has_part sub [] = has_prefix [] sub
has_part sub (c ∷ s) = has_prefix (c ∷ s) sub || has_part sub s

-- binding.DefaultBinder() with a request: each method fills the target, which is the state. With them
-- io.EOF and the three content types of Hertz.
pub record DefaultBinder (D : Type 0) : Type 0 where
  pub bind : Act (Target D) (Unit {0})
  pub bind_query : Act (Target D) (Unit {0})
  pub bind_header : Act (Target D) (Unit {0})
  pub bind_path : Act (Target D) (Unit {0})
  pub bind_form : Act (Target D) (Unit {0})
  pub bind_json : Act (Target D) (Unit {0})
  pub bind_protobuf : Act (Target D) (Unit {0})
  pub validate : Act (Target D) (Unit {0})
  pub is_eof : Error → Bool
  pub mime_json : Bytes
  pub mime_html_form : Bytes
  pub mime_multipart : Bytes

module _ {D : Type 0} (decimals : Decimals D) where
  -- handleDecimalFields
  abbrev pub handle_struct : Bool → Value D → Outcome (Unit {0})
  handle_struct addressable (struct members) = handle_members decimals addressable members
  handle_struct addressable (decimal zero_value d) = ok tt
  handle_struct addressable (decimal_pointer p) = ok tt
  handle_struct addressable (slice e) = ok tt
  handle_struct addressable other = ok tt

  unfoldable pub handle_decimal_fields : Target D → Outcome (Unit {0})
  unfolding handle_members
  handle_decimal_fields (pointer_to v) = handle_struct true v
  handle_decimal_fields (plain v) = handle_struct false v

  abbrev pub then_handle : Act (Target D) (Unit {0}) → Act (Target D) (Unit {0})
  then_handle m = m >>= λ _. λ v. (handle_decimal_fields v, v)

  module _ (default : DefaultBinder D) where
    -- BindQuery, BindHeader, BindPath, BindForm
    unfoldable pub bind_query : Act (Target D) (Unit {0})
    unfolding ◌>>=◌ handle_decimal_fields
    bind_query = then_handle default.bind_query

    unfoldable pub bind_header : Act (Target D) (Unit {0})
    unfolding ◌>>=◌ handle_decimal_fields
    bind_header = then_handle default.bind_header

    unfoldable pub bind_path : Act (Target D) (Unit {0})
    unfolding ◌>>=◌ handle_decimal_fields
    bind_path = then_handle default.bind_path

    unfoldable pub bind_form : Act (Target D) (Unit {0})
    unfolding ◌>>=◌ handle_decimal_fields
    bind_form = then_handle default.bind_form

    -- BindJSON: an empty body is no error.
    abbrev pub or_eof : Outcome (Unit {0}) × Target D → Outcome (Unit {0}) × Target D
    or_eof (ok _, v) = (ok tt, v)
    or_eof (err e, v) = if default.is_eof e then (ok tt, v) else (err e, v)
    or_eof (panic, v) = (panic, v)

    unfoldable pub bind_json : Act (Target D) (Unit {0})
    unfolding ◌>>=◌ handle_decimal_fields
    bind_json = then_handle (λ v. or_eof (default.bind_json v))

    -- BindProtobuf
    unfoldable pub bind_protobuf : Act (Target D) (Unit {0})
    bind_protobuf = default.bind_protobuf

    abbrev pub by_content_type : Bytes → Act (Target D) (Unit {0})
    by_content_type content_type v =
        if has_part default.mime_json content_type
        then bind_json v
        else if has_part default.mime_html_form content_type
            || has_part default.mime_multipart content_type
        then bind_form v
        else (ok tt, v)

    -- Bind; the argument is the content type of the request.
    unfoldable pub bind : Bytes → Act (Target D) (Unit {0})
    unfolding ◌>>=◌ bind_json bind_form
    bind content_type = default.bind >>= λ _. by_content_type content_type

    -- Validate
    unfoldable pub validate : Act (Target D) (Unit {0})
    unfolding ◌>>=◌ handle_decimal_fields
    validate = then_handle default.validate
