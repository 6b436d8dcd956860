-- ===== src/Validate/Fields.antt =====
-- Which decimals the binder of internal/platform/validate/validate.go looks at, and what it demands.
use go_admin.Common.{
  ◌≡◌, ◌≢◌, ◌↔◌, refl, ap, ◌∙◌, Bool, true, false, not, ◌&&◌, ◌⊎◌, inl, inr, none, some, List, [],
  ◌∷◌, ◌++◌, Bytes, trim_space, if◌then◌else◌, text_eq, All, arith,
}
use go_admin.Outcome.{Error, Outcome, ok, err, panic}
use go_admin.Validate.{
  Decimals, StructField, Value, decimal, decimal_pointer, struct, slice, other, Members, end,
  member, Elements, nil, element, split_and, extract_operator_and_value, compare_decimal, compared,
  check_part, then_check, check_parts, validate_decimal_field, handle_member, handle_members,
  handle_elements,
}
use go_admin.Validate.Binder.{Target, pointer_to, plain, handle_struct, handle_decimal_fields}

module _ {D : Type 0} where
  -- The decimals that are checked, with their tags: those of exported fields of structs that can be
  -- addressed, down through structs and the structs in slices, except zero values and nil pointers.
  unfoldable mutual
    pub collected_member : Bool → StructField → Value D → List (D × Bytes)
    collected_member addressable f (decimal zero_value d) =
        if addressable && not zero_value then (d, f.vd) ∷ [] else []
    collected_member addressable f (decimal_pointer none) = []
    collected_member addressable f (decimal_pointer (some d)) =
        if addressable then (d, f.vd) ∷ [] else []
    collected_member addressable f (struct members) =
        let inner = collected_members true members in if addressable then inner else []
    collected_member addressable f (slice elements) = collected_elements elements
    collected_member addressable f other = []

    pub collected_members : Bool → Members D → List (D × Bytes)
    collected_members addressable end = []
    collected_members addressable (member f v rest) =
        let here = collected_member addressable f v in
        (if f.exported then here else []) ++ collected_members addressable rest

    pub collected_elements : Elements D → List (D × Bytes)
    collected_elements nil = []
    collected_elements (element (struct members) rest) =
        collected_members true members ++ collected_elements rest
    collected_elements (element (decimal zero_value d) rest) = collected_elements rest
    collected_elements (element (decimal_pointer p) rest) = collected_elements rest
    collected_elements (element (slice e) rest) = collected_elements rest
    collected_elements (element other rest) = collected_elements rest

  abbrev pub collected_struct : Bool → Value D → List (D × Bytes)
  collected_struct addressable (struct members) = collected_members addressable members
  collected_struct addressable (decimal zero_value d) = []
  collected_struct addressable (decimal_pointer p) = []
  collected_struct addressable (slice e) = []
  collected_struct addressable other = []

  abbrev pub collected : Target D → List (D × Bytes)
  collected (pointer_to v) = collected_struct true v
  collected (plain v) = collected_struct false v

module _ {D : Type 0} (decimals : Decimals D) where
  -- What one part of a tag demands: an operator, a decimal behind it, and that they compare so.
  abbrev pub PartHolds : D → Bytes → Type 0
  PartHolds d part =
      let (op, text) = extract_operator_and_value (trim_space part) in
      (op ≢ [])
      × ((val : D) × (decimals.new_from_string text ≡ inr val)
          × (compare_decimal decimals d val op ≡ true))

  abbrev pub TagHolds : D × Bytes → Type 0
  TagHolds x = (x.1 ≡ []) ⊎ All (PartHolds x.0) (split_and x.1)

  then_check_iff :
      {P Q : Type 0} (a b : Outcome (Unit {0}))
      → (a ≡ ok tt) ↔ P
      → (b ≡ ok tt) ↔ Q
      → (then_check decimals a b ≡ ok tt) ↔ (P × Q)
  then_check_iff (ok u) b f g = (λ h. (f.0 refl, g.0 h), λ h. g.1 h.1)
  then_check_iff (err e) b f g = (λ h. cc, λ h. cc (f.1 h.0))
  then_check_iff panic b f g = (λ h. cc, λ h. cc (f.1 h.0))

  compared_iff :
      (d : D) (op : Bytes) (o : Error ⊎ D)
      → (compared decimals d op o ≡ ok tt)
        ↔ ((val : D) × (o ≡ inr val) × (compare_decimal decimals d val op ≡ true))
  compared_iff d op (inl e) = (λ h. cc, λ h. cc (h.1))
  compared_iff d op (inr v) = (
    λ h. (v, refl, ground arith),
    λ h.
        let same : v ≡ h.0 = cc (h.1) in
        rw (ap (λ x. compare_decimal decimals d x op) same ∙ h.2) refl,
  )

  check_part_iff :
      (d : D) (op text : Bytes)
      → (check_part decimals d (op, text) ≡ ok tt) ↔ (
          (op ≢ [])
          × ((val : D) × (decimals.new_from_string text ≡ inr val)
              × (compare_decimal decimals d val op ≡ true)))
  check_part_iff d [] text = (λ h. cc, λ h. absurd (h.0 refl))
  check_part_iff d (c ∷ op) text =
      let found = compared_iff d (c ∷ op) (decimals.new_from_string text) in
      (λ h. (λ e. cc, found.0 h), λ h. found.1 h.1)

  check_parts_iff :
      (d : D) (parts : List Bytes)
      → (check_parts decimals d parts ≡ ok tt) ↔ All (PartHolds d) parts
  unfolding check_parts
  check_parts_iff d [] = (λ h. tt, λ h. refl)
  check_parts_iff d (part ∷ parts) =
      let (op, text) = extract_operator_and_value (trim_space part) in
      then_check_iff (check_part decimals d (op, text)) (check_parts decimals d parts)
        (check_part_iff d op text) (check_parts_iff d parts)

  validate_decimal_field_iff :
      (d : D) (tag : Bytes)
      → (validate_decimal_field decimals d tag ≡ ok tt) ↔ All TagHolds ((d, tag) ∷ [])
  unfolding validate_decimal_field
  validate_decimal_field_iff d [] = (λ h. (inl refl, tt), λ h. refl)
  validate_decimal_field_iff d (c ∷ tag) =
      let parts = check_parts_iff d (split_and (c ∷ tag)) in
      (λ h. (inr (parts.0 h), tt), λ h. parts.1 (holds h.0))
    where
      holds : TagHolds (d, c ∷ tag) → All (PartHolds d) (split_and (c ∷ tag))
      holds (inl e) = absurd (cc)
      holds (inr a) = a

  All-append :
      (xs ys : List (D × Bytes)) → (All TagHolds xs × All TagHolds ys) ↔ All TagHolds (xs ++ ys)
  All-append [] ys = (λ h. h.1, λ h. (tt, h))
  All-append (x ∷ xs) ys =
      let rest = All-append xs ys in
      (λ h. (h.0.0, rest.0 (h.0.1, h.1)), λ h. let r = rest.1 h.1 in ((h.0, r.0), r.1))

  Agrees : Outcome (Unit {0}) → List (D × Bytes) → Type 0
  Agrees r xs = (r ≡ ok tt) ↔ All TagHolds xs

  then_check-Agrees :
      (a b : Outcome (Unit {0})) (xs ys : List (D × Bytes))
      → Agrees a xs
      → Agrees b ys
      → Agrees (then_check decimals a b) (xs ++ ys)
  unfolding Agrees
  then_check-Agrees a b xs ys f g =
      let both = then_check_iff a b f g in
      let joined = All-append xs ys in (λ h. joined.0 (both.0 h), λ h. both.1 (joined.1 h))

  if-Agrees :
      (b : Bool) (r : Outcome (Unit {0})) (xs : List (D × Bytes))
      → Agrees r xs
      → Agrees (if b then r else ok tt) (if b then xs else [])
  unfolding Agrees
  if-Agrees true r xs h = h
  if-Agrees false r xs h = (λ _. tt, λ _. refl)

  nothing-Agrees : Agrees (ok tt) []
  unfolding Agrees
  nothing-Agrees = (λ _. tt, λ _. refl)

  field-Agrees :
      (b : Bool) (d : D) (tag : Bytes)
      → Agrees
          (if b then validate_decimal_field decimals d tag else ok tt)
          (if b then (d, tag) ∷ [] else [])
  unfolding Agrees
  field-Agrees b d tag =
      if-Agrees b (validate_decimal_field decimals d tag) ((d, tag) ∷ [])
        (validate_decimal_field_iff d tag)

  mutual
    unfolding handle_member collected_member

    member-Agrees :
        (addressable : Bool) (f : StructField) (v : Value D)
        → Agrees (handle_member decimals addressable f v) (collected_member addressable f v)
    member-Agrees addressable f (decimal z d) = field-Agrees (addressable && not z) d f.vd
    member-Agrees addressable f (decimal_pointer none) = nothing-Agrees
    member-Agrees addressable f (decimal_pointer (some d)) = field-Agrees addressable d f.vd
    member-Agrees addressable f (struct members) =
        if-Agrees addressable (handle_members decimals true members)
          (collected_members true members) (members-Agrees true members)
    member-Agrees addressable f (slice elements) = elements-Agrees elements
    member-Agrees addressable f other = nothing-Agrees

    members-Agrees :
        (addressable : Bool) (m : Members D)
        → Agrees (handle_members decimals addressable m) (collected_members addressable m)
    members-Agrees addressable end = nothing-Agrees
    members-Agrees addressable (member f v rest) =
        then_check-Agrees _ _ _ _
          (if-Agrees f.exported (handle_member decimals addressable f v)
            (collected_member addressable f v) (member-Agrees addressable f v))
          (members-Agrees addressable rest)

    elements-Agrees : (e : Elements D) → Agrees (handle_elements decimals e) (collected_elements e)
    elements-Agrees nil = nothing-Agrees
    elements-Agrees (element (struct members) rest) =
        then_check-Agrees _ _ _ _ (members-Agrees true members) (elements-Agrees rest)
    elements-Agrees (element (decimal z d) rest) = elements-Agrees rest
    elements-Agrees (element (decimal_pointer p) rest) = elements-Agrees rest
    elements-Agrees (element (slice e) rest) = elements-Agrees rest
    elements-Agrees (element other rest) = elements-Agrees rest

  struct-Agrees :
      (addressable : Bool) (v : Value D)
      → Agrees (handle_struct decimals addressable v) (collected_struct addressable v)
  struct-Agrees addressable (struct members) = members-Agrees addressable members
  struct-Agrees addressable (decimal z d) = nothing-Agrees
  struct-Agrees addressable (decimal_pointer p) = nothing-Agrees
  struct-Agrees addressable (slice e) = nothing-Agrees
  struct-Agrees addressable other = nothing-Agrees

  -- handleDecimalFields takes a target exactly if each decimal in an exported field of a struct in
  -- it that can be addressed, the structs in its fields and in their slices included, zero values
  -- and nil pointers left aside, meets its tag: the tag is empty, or each of its parts has an
  -- operator and a decimal to which the field compares so.
  pub handle_decimal_fields_iff :
      (v : Target D) → (handle_decimal_fields decimals v ≡ ok tt) ↔ All TagHolds (collected v)
  unfolding handle_decimal_fields Agrees
  handle_decimal_fields_iff (pointer_to v) = struct-Agrees true v
  handle_decimal_fields_iff (plain v) = struct-Agrees false v
