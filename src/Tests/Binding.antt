-- ===== src/Tests/Binding.antt =====
-- The binder of decimals, with natural numbers for decimals, and calls of methods by name.
use go_admin.Common.{
  ℕ, ◌+◌, ◌*◌, ◌-◌, ◌≡◌, refl, true, false, ◌&&◌, ◌⊎◌, inl, inr, Option, none, some, [], ◌∷◌, Bytes,
  bytes, ltb, leb, nat_beq, if◌then◌else◌, text_eq, All, find,
}
use go_admin.Outcome.{new, Outcome, ok, err, panic, outside, ◌>>=◌}
use go_admin.Validate.{
  Decimals, StructField, Value, decimal, decimal_pointer, struct, slice, other, Members, end,
  member, Elements, nil, element, validate_decimal_field, check_parts, extract_operator_and_value,
  compare_decimal, handle_members,
}
use go_admin.Validate.Binder.{pointer_to, handle_decimal_fields}
use go_admin.Validate.Fields.{collected, TagHolds, handle_decimal_fields_iff}
use go_admin.Reflect.{Method, plain, Runtime, new_method_invoker}
use go_admin.Reflect.Methods.{get_or_create, invoke_method}
use go_admin.Reflect.Cache.{IsFor, directly, get_or_create-shared, invoke_method-directly}

abbrev digits : ℕ → Bytes → Option ℕ
digits n [] = some n
digits n (c ∷ s) =
    let rest = digits (n * 10 + (c - 48)) s in if leb 48 c && leb c 57 then rest else none

abbrev parsed : Option ℕ → go_admin.Outcome.Error ⊎ ℕ
parsed none = inl (outside 9)
parsed (some n) = inr n

abbrev decimals : Decimals ℕ
decimals = record {
  new_from_string = λ s. parsed (digits 0 s);
  ge = λ a b. leb b a;
  le = λ a b. leb a b;
  gt = λ a b. ltb b a;
  lt = λ a b. ltb a b;
  eq = λ a b. nat_beq a b;
}

abbrev price : StructField
price = record { exported = true; name = bytes "Price"; vd = bytes "$>=1 && $<100" }

abbrev order : Value ℕ
order = struct (
    member price (decimal false 5) (
      member (record { exported = true; name = bytes "Items"; vd = [] })
        (slice (element (struct (member price (decimal_pointer (some 7)) end)) nil)) end))

two_collected : collected (pointer_to order) ≡ (5, price.vd) ∷ (7, price.vd) ∷ []
unfolding go_admin.Validate.Fields.collected_members
two_collected = refl

order_is_taken : handle_decimal_fields decimals (pointer_to order) ≡ ok tt
unfolding handle_decimal_fields handle_members validate_decimal_field check_parts
    extract_operator_and_value compare_decimal
order_is_taken = refl

too_dear : validate_decimal_field decimals 100 price.vd ≡ err (new "field must be")
unfolding validate_decimal_field check_parts extract_operator_and_value compare_decimal
too_dear = refl

handle_decimal_fields_iff_example : All (TagHolds decimals) (collected (pointer_to order))
handle_decimal_fields_iff_example =
    (handle_decimal_fields_iff decimals (pointer_to order)).0 order_is_taken

-- Counters of one type: the object is the number that it adds.
abbrev add_to : ℕ → Method ℕ ℕ
add_to n = record {
  num_in = 0;
  zero_of = λ i. 0;
  context_first = false;
  call = λ args. λ s. (ok (record { front = []; back = (s + n) ∷ []; last = plain }), s + n);
}

abbrev runtime : Runtime ℕ ℕ
runtime = record {
  is_pointer = λ o. true;
  type_text = λ o. bytes "main.Counter";
  method_by_name = λ o name. some (add_to o);
}

get_or_create-shared_example :
    let cache' = (get_or_create runtime 2 (bytes "Add") []).1 in
    get_or_create runtime 3 (bytes "Add") cache'
    ≡ (ok (record { struct_value = 2; method = add_to 2; method_name = bytes "Add" }), cache')
unfolding find
get_or_create-shared_example =
    get_or_create-shared runtime 2 3 (bytes "Add") (add_to 2) [] refl refl refl refl refl

nothing_cached : IsFor runtime 2 []
unfolding find
nothing_cached name i h = cc

invoke_method-directly_example :
    let x = invoke_method runtime 2 (bytes "Add") [] [] 5 in
    ((x.0, x.2) ≡ directly runtime (new_method_invoker runtime 2 (bytes "Add")) [] 5)
    × IsFor runtime 2 x.1
invoke_method-directly_example =
    invoke_method-directly runtime 2 (bytes "Add") [] [] 5 nothing_cached refl
