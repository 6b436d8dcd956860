-- ===== src/Reflect/Cache.antt =====
-- The cache of pkg/reflectutil/reflect_utils.go, shared by objects and behind a proxy.
use go_admin.Common.{
  ◌≡◌, refl, ap, sym, ◌∙◌, subst, true, inl, inr, Option, none, some, List, ◌++◌, Bytes, bytes,
  ◌==◌, text_eq, list_beq_iff, find, assign, find-assign, Bool-cases, arith,
}
use mathlib.Core.List.{append_cancel_left}
use go_admin.Outcome.{Outcome, ok, err, panic}
use go_admin.Reflect.{
  Runtime, MethodInvoker, InvokeResult, Method, new_method_invoker, invoke, bound,
}
use go_admin.Reflect.Methods.{
  cache_key, cached, of_pointer, stored, get_or_create, invoke_method, run_with,
}

module _ {V S : Type 0} (runtime : Runtime V S) where
  -- The cache holds for each method of the type of an object what NewMethodInvoker makes of that object.
  abbrev pub IsFor : V → List (Bytes × MethodInvoker V S) → Type 0
  IsFor o cache =
      (name : Bytes) (i : MethodInvoker V S)
      → find (cache_key runtime o name) cache ≡ some i
      → new_method_invoker runtime o name ≡ ok i

  get_or_create-new :
      (o : V) (name : Bytes) (made : Outcome (MethodInvoker V S))
      (cache : List (Bytes × MethodInvoker V S))
      → runtime.is_pointer o ≡ true
      → find (cache_key runtime o name) cache ≡ none
      → new_method_invoker runtime o name ≡ made
      → get_or_create runtime o name cache ≡ stored (cache_key runtime o name) made cache
  unfolding get_or_create
  get_or_create-new o name made cache p free e =
      let key = cache_key runtime o name in
      ap
        (λ b.
          of_pointer b (cached key (find key cache) (new_method_invoker runtime o name) cache)
            cache)
        p
      ∙ (ap (λ x. cached key x (new_method_invoker runtime o name) cache) free
          ∙ ap (λ x. stored key x cache) e)

  get_or_create-old :
      (o : V) (name : Bytes) (i : MethodInvoker V S) (cache : List (Bytes × MethodInvoker V S))
      → runtime.is_pointer o ≡ true
      → find (cache_key runtime o name) cache ≡ some i
      → get_or_create runtime o name cache ≡ (ok i, cache)
  unfolding get_or_create
  get_or_create-old o name i cache p there =
      let key = cache_key runtime o name in
      ap
        (λ b.
          of_pointer b (cached key (find key cache) (new_method_invoker runtime o name) cache)
            cache)
        p
      ∙ ap (λ x. cached key x (new_method_invoker runtime o name) cache) there

  -- If the cache holds nothing for a method of the type of two pointers, and the first one has the
  -- method: behind a call of GetOrCreateMethodInvoker for the first, the call for the second
  -- returns the invoker that is bound to the first, and leaves the cache alone.
  pub get_or_create-shared :
      (a b : V) (name : Bytes) (m : Method V S) (cache : List (Bytes × MethodInvoker V S))
      → runtime.is_pointer a ≡ true
      → runtime.is_pointer b ≡ true
      → runtime.type_text b ≡ runtime.type_text a
      → runtime.method_by_name a name ≡ some m
      → find (cache_key runtime a name) cache ≡ none
      → let cache' = (get_or_create runtime a name cache).1 in
        get_or_create runtime b name cache'
        ≡ (ok (record { struct_value = a; method = m; method_name = name }), cache')
  unfolding new_method_invoker
  get_or_create-shared a b name m cache pa pb same has free =
      let i : MethodInvoker V S = record { struct_value = a; method = m; method_name = name } in
      let key = cache_key runtime a name in
      let made : new_method_invoker runtime a name ≡ ok i = rw pa (ap (bound a name) has) in
      let first = get_or_create-new a name (ok i) cache pa free made in
      let there : find (cache_key runtime b name) (assign key i cache) ≡ some i =
        ap (λ t. find (t ++ (bytes "." ++ name)) (assign key i cache)) same
        ∙ ground (arith, find-assign key key i cache, list_beq_iff key key) in
      rw first (get_or_create-old b name i (assign key i cache) pb there)

  assign-IsFor :
      (o : V) (name : Bytes) (i : MethodInvoker V S) (cache : List (Bytes × MethodInvoker V S))
      → IsFor o cache
      → new_method_invoker runtime o name ≡ ok i
      → IsFor o (assign (cache_key runtime o name) i cache)
  assign-IsFor o name i cache v made name' j h =
      let key = cache_key runtime o name in
      let key' = cache_key runtime o name' in
      elim (Bool-cases (key == key')) [
        | inl same ↦
            let names : name ≡ name' =
              cc (append_cancel_left (runtime.type_text o) _ _ ((list_beq_iff key key').0 same)) in
            let found : i ≡ j = ground (arith, find-assign key key' i cache) in
            ap (new_method_invoker runtime o) (sym names) ∙ (made ∙ ap (λ x. ok x) found)
        | inr other ↦ v name' j (ground (arith, find-assign key key' i cache))
      ]

  get_or_create-IsFor :
      (o : V) (name : Bytes) (cache : List (Bytes × MethodInvoker V S))
      → IsFor o cache
      → runtime.is_pointer o ≡ true
      → ((get_or_create runtime o name cache).0 ≡ new_method_invoker runtime o name)
        × IsFor o (get_or_create runtime o name cache).1
  get_or_create-IsFor o name cache v p =
      go (find (cache_key runtime o name) cache) (new_method_invoker runtime o name) refl refl
    where
      go :
          (f : Option (MethodInvoker V S)) (n : Outcome (MethodInvoker V S))
          → find (cache_key runtime o name) cache ≡ f
          → new_method_invoker runtime o name ≡ n
          → ((get_or_create runtime o name cache).0 ≡ new_method_invoker runtime o name)
            × IsFor o (get_or_create runtime o name cache).1
      go (some i) n e made = rw (get_or_create-old o name i cache p e) (sym (v name i e), v)
      go none (ok i) e made =
          rw (get_or_create-new o name (ok i) cache p e made)
            (sym made, assign-IsFor o name i cache v made)
      go none (err x) e made = rw (get_or_create-new o name (err x) cache p e made) (sym made, v)
      go none panic e made = rw (get_or_create-new o name panic cache p e made) (sym made, v)

  -- A call of the method that NewMethodInvoker finds.
  abbrev pub directly :
      Outcome (MethodInvoker V S) → List (Option V) → S → Outcome (InvokeResult V) × S
  directly (ok i) args s = invoke i args s
  directly (err e) args s = (err e, s)
  directly panic args s = (panic, s)

  run_with-directly :
      (args : List (Option V)) (o : Outcome (MethodInvoker V S))
      (cache : List (Bytes × MethodInvoker V S)) (s : S)
      → let x = run_with args (o, cache) s in ((x.0, x.2) ≡ directly o args s) × (x.1 ≡ cache)
  run_with-directly args (ok i) cache s = (refl, refl)
  run_with-directly args (err e) cache s = (refl, refl)
  run_with-directly args panic cache s = (refl, refl)

  -- If the cache of a proxy holds for the methods of its target, a pointer, what NewMethodInvoker
  -- makes of it, as the empty cache does: InvokeMethod answers, and changes the state, as a call
  -- of the method by a fresh invoker does, errors and panics included, and the cache still holds
  -- that.
  pub invoke_method-directly :
      (target : V) (name : Bytes) (args : List (Option V))
      (cache : List (Bytes × MethodInvoker V S)) (s : S)
      → IsFor target cache
      → runtime.is_pointer target ≡ true
      → let x = invoke_method runtime target name args cache s in
        ((x.0, x.2) ≡ directly (new_method_invoker runtime target name) args s) × IsFor target x.1
  unfolding invoke_method
  invoke_method-directly target name args cache s v p =
      let (made, kept) = get_or_create-IsFor target name cache v p in
      let y = get_or_create runtime target name cache in
      let (same, left) = run_with-directly args y.0 y.1 s in
      (same ∙ ap (λ o. directly o args s) made, subst (IsFor target) (sym left) kept)
