-- ===== src/Validate.antt =====
-- internal/platform/validate/validate.go: the binder that checks the decimals of a request against the
-- `vd` tags of their fields. Hertz's default binder and shopspring/decimal are parameters; what
-- reflection finds of a value is the value as a tree.
pub mod Binder
pub mod Fields
use go_admin.Common.{
  ℕ, Bool, true, false, not, ◌&&◌, ◌||◌, ◌⊎◌, inl, inr, Option, none, some, List, [], ◌∷◌, ◌++◌,
  length, Bytes, bytes, drop, has_prefix, trim_prefix, trim_space, push_front, nat_beq,
  if◌then◌else◌, ◌==◌, text_eq,
}
use go_admin.Outcome.{Error, new, wrap, Outcome, ok, err, panic, Act, pure, fail, continue, ◌>>=◌}

-- shopspring/decimal: NewFromString and the comparisons in use.
pub record Decimals (D : Type 0) : Type 0 where
  pub new_from_string : Bytes → Error ⊎ D
  pub ge : D → D → Bool
  pub le : D → D → Bool
  pub gt : D → D → Bool
  pub lt : D → D → Bool
  pub eq : D → D → Bool

-- reflect.StructField with CanInterface: whether the field is exported, its name and its `vd` tag.
pub record StructField : Type 0 where
  pub exported : Bool
  pub name : Bytes
  pub vd : Bytes

-- A value: a decimal with whether it is the zero value of its type, a pointer to a decimal, a struct, a
-- slice, or anything else.
mutual
  pub data Value (D : Type 0) : Type 0 where
    decimal : Bool → D → Value D
    decimal_pointer : Option D → Value D
    struct : Members D → Value D
    slice : Elements D → Value D
    other : Value D

  pub data Members (D : Type 0) : Type 0 where
    end : Members D
    member : StructField → Value D → Members D → Members D

  pub data Elements (D : Type 0) : Type 0 where
    nil : Elements D
    element : Value D → Elements D → Elements D

-- strings.Split(s, "&&")
abbrev pub split_and : Bytes → List Bytes
split_and [] = [] ∷ []
split_and (c ∷ []) = (c ∷ []) ∷ []
split_and (c ∷ d ∷ s) =
    let behind = split_and s in
    let rest = split_and (d ∷ s) in
    if nat_beq c 38 && nat_beq d 38 then [] ∷ behind else push_front c rest

-- The operators in the order of extractOperatorAndValue.
abbrev pub operators : List Bytes
operators = bytes "$>=" ∷ bytes "$<=" ∷ bytes "$>" ∷ bytes "$<" ∷ bytes "$=" ∷ []

abbrev pub extract_from : List Bytes → Bytes → Bytes × Bytes
extract_from [] part = ([], [])
extract_from (op ∷ ops) part =
    if has_prefix part op then (op, trim_prefix part op) else extract_from ops part

-- extractOperatorAndValue
unfoldable pub extract_operator_and_value : Bytes → Bytes × Bytes
extract_operator_and_value part = extract_from operators part

module _ {D : Type 0} (decimals : Decimals D) where
  -- compareDecimal
  unfoldable pub compare_decimal : D → D → Bytes → Bool
  compare_decimal field val op =
      if op == bytes "$>="
      then decimals.ge field val
      else if op == bytes "$<="
      then decimals.le field val
      else if op == bytes "$>"
      then decimals.gt field val
      else if op == bytes "$<"
      then decimals.lt field val
      else if op == bytes "$="
      then decimals.eq field val
      else false

  abbrev pub compared : D → Bytes → Error ⊎ D → Outcome (Unit {0})
  compared field op (inl e) = err (wrap "invalid validation tag for field" e)
  compared field op (inr val) =
      if compare_decimal field val op then ok tt else err (new "field must be")

  -- One round of the loop of validateDecimalField.
  abbrev pub check_part : D → Bytes × Bytes → Outcome (Unit {0})
  check_part field (op, text) =
      if op == []
      then err (new "unsupported validation rule for field")
      else compared field op (decimals.new_from_string text)

  abbrev pub then_check : Outcome (Unit {0}) → Outcome (Unit {0}) → Outcome (Unit {0})
  then_check (ok _) rest = rest
  then_check (err e) rest = err e
  then_check panic rest = panic

  unfoldable pub check_parts : D → List Bytes → Outcome (Unit {0})
  unfolding extract_operator_and_value compare_decimal
  check_parts field [] = ok tt
  check_parts field (part ∷ parts) =
      then_check (check_part field (extract_operator_and_value (trim_space part)))
        (check_parts field parts)

  -- validateDecimalField
  unfoldable pub validate_decimal_field : D → Bytes → Outcome (Unit {0})
  unfolding check_parts
  validate_decimal_field field tag = if tag == [] then ok tt else check_parts field (split_and tag)

  -- The loops of handleDecimalFields; the first argument is whether the value can be addressed. An
  -- element of a slice always can, and of a decimal the fields are not exported.
  unfoldable mutual
    unfolding validate_decimal_field

    pub handle_member : Bool → StructField → Value D → Outcome (Unit {0})
    handle_member addressable f (decimal zero_value d) =
        if addressable && not zero_value then validate_decimal_field d f.vd else ok tt
    handle_member addressable f (decimal_pointer none) = ok tt
    handle_member addressable f (decimal_pointer (some d)) =
        if addressable then validate_decimal_field d f.vd else ok tt
    handle_member addressable f (struct members) =
        let inner = handle_members true members in if addressable then inner else ok tt
    handle_member addressable f (slice elements) = handle_elements elements
    handle_member addressable f other = ok tt

    pub handle_members : Bool → Members D → Outcome (Unit {0})
    handle_members addressable end = ok tt
    handle_members addressable (member f v rest) =
        let here = handle_member addressable f v in
        then_check (if f.exported then here else ok tt) (handle_members addressable rest)

    pub handle_elements : Elements D → Outcome (Unit {0})
    handle_elements nil = ok tt
    handle_elements (element (struct members) rest) =
        then_check (handle_members true members) (handle_elements rest)
    handle_elements (element (decimal zero_value d) rest) = handle_elements rest
    handle_elements (element (decimal_pointer p) rest) = handle_elements rest
    handle_elements (element (slice e) rest) = handle_elements rest
    handle_elements (element other rest) = handle_elements rest
