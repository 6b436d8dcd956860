-- ===== src/Reflect.antt =====
-- pkg/reflectutil/reflect_utils.go: calls of methods by name. Package reflect is a parameter: what it
-- finds of an object, and what a method does to the state `S` of the process and returns.
pub mod Methods
pub mod Cache
use go_admin.Common.{
  ℕ, zero, suc, ◌+◌, Bool, true, false, Option, none, some, List, [], ◌∷◌, ◌++◌, Bytes, bytes, ℤ,
  pos, negsuc, ltb, if◌then◌else◌, text_eq, find, assign,
}
use go_admin.Outcome.{Error, new, wrap, Outcome, ok, err, panic, Act, continue, ◌>>=◌}

-- The last value that a method returns: its type does not implement error, or it does and the value is
-- nil or an error, or the type is one that IsNil panics at.
pub data Last : Type 0 where
  plain : Last
  error_value : Option Error → Last
  never_nil : Last

-- What a method returned: all its values but the last, and the last.
pub record Returned (V : Type 0) : Type 0 where
  pub front : List V
  pub back : List V
  pub last : Last

-- A bound method and its type; `none` among the arguments of Call is the invalid reflect.Value, and
-- Call panics where the arguments do not fit.
pub record Method (V S : Type 0) : Type 0 where
  pub num_in : ℕ
  pub zero_of : ℕ → V
  pub context_first : Bool
  pub call : List (Option V) → Act S (Returned V)

-- Of an object: whether it is a pointer, the text of the type behind it, and MethodByName.
pub record Runtime (V S : Type 0) : Type 0 where
  pub is_pointer : V → Bool
  pub type_text : V → Bytes
  pub method_by_name : V → Bytes → Option (Method V S)

-- MethodInvoker
pub record MethodInvoker (V S : Type 0) : Type 0 where
  pub struct_value : V
  pub method : Method V S
  pub method_name : Bytes

-- InvokeResult
pub record InvokeResult (V : Type 0) : Type 0 where
  pub values : List V
  pub error : Option Error

module _ {V : Type 0} where
  abbrev cut_off : Bool → Outcome (InvokeResult V) → Outcome (InvokeResult V)
  cut_off timed_out panic = panic
  cut_off timed_out (ok r) = if timed_out then err (new "method invocation timed out") else ok r
  cut_off timed_out (err e) = if timed_out then err (new "method invocation timed out") else err e

  abbrev pub set_result :
      ℕ → InvokeResult V → List (Option (InvokeResult V)) → List (Option (InvokeResult V))
  set_result i r [] = []
  set_result zero r (x ∷ xs) = some r ∷ xs
  set_result (suc i) r (x ∷ xs) = x ∷ set_result i r xs

  abbrev pub argument_list : ℕ → List (List (Option V)) → Option (List (Option V))
  argument_list i [] = none
  argument_list zero (args ∷ rest) = some args
  argument_list (suc i) (args ∷ rest) = argument_list i rest

  abbrev as_result : Error → InvokeResult V
  as_result e = record { values = []; error = some e }

abbrev pub rounds : ℤ → ℕ
rounds (pos n) = n
rounds (negsuc n) = 0

module _ {V S : Type 0} where
  abbrev bound : V → Bytes → Option (Method V S) → Outcome (MethodInvoker V S)
  bound o name none = err (new "method does not exist or is not exported")
  bound o name (some m) = ok (record { struct_value = o; method = m; method_name = name })

  -- NewMethodInvoker
  unfoldable pub new_method_invoker : Runtime V S → V → Bytes → Outcome (MethodInvoker V S)
  new_method_invoker runtime o name =
      if runtime.is_pointer o
      then bound o name (runtime.method_by_name o name)
      else err (new "structPtr must be a pointer to a struct")

  -- The arguments of Call from place `i` on; a nil argument is the zero value of its parameter.
  abbrev pub call_arguments : Method V S → ℕ → List (Option V) → List (Option V)
  call_arguments m i [] = []
  call_arguments m i (some v ∷ args) = some v ∷ call_arguments m (suc i) args
  call_arguments m i (none ∷ args) =
      (if ltb i m.num_in then some (m.zero_of i) else none) ∷ call_arguments m (suc i) args

  abbrev by_last : List V → List V → Last → Act S (InvokeResult V)
  by_last front back plain s = (ok (record { values = front ++ back; error = none }), s)
  by_last front back (error_value none) s =
      (ok (record { values = front ++ back; error = none }), s)
  by_last front back (error_value (some e)) s = (ok (record { values = front; error = some e }), s)
  by_last front back never_nil s = (panic, s)

  -- Invoke
  unfoldable pub invoke : MethodInvoker V S → List (Option V) → Act S (InvokeResult V)
  unfolding ◌>>=◌
  invoke invoker args = invoker.method.call (call_arguments invoker.method 0 args) >>= λ out.
      by_last out.front out.back out.last

  -- InvokeWithContext
  unfoldable pub invoke_with_context :
      MethodInvoker V S → V → List (Option V) → Act S (InvokeResult V)
  unfolding invoke
  invoke_with_context invoker ctx args s =
      if ltb 0 invoker.method.num_in
      then if invoker.method.context_first
        then invoke invoker (some ctx ∷ args) s
        else (err (new "method does not have context.Context as its first parameter"), s)
      else (err (new "method does not have context.Context as its first parameter"), s)

  -- InvokeWithTimeout; the call goes on behind a time-out, so its effect is the same.
  unfoldable pub invoke_with_timeout :
      Bool → MethodInvoker V S → List (Option V) → Act S (InvokeResult V)
  unfolding invoke
  invoke_with_timeout timed_out invoker args s =
      let (r, s') = invoke invoker args s in (cut_off timed_out r, s')

  -- What a round of InvokeWithRetry leads to: the values, or `next`, another round.
  abbrev pub by_error : List V → Option Error → Act S (List V) → Act S (List V)
  by_error values none next s = (ok values, s)
  by_error values (some e) next s = next s

  abbrev pub after_round : Outcome (InvokeResult V) × S → Act S (List V) → Outcome (List V) × S
  after_round (panic, s) next = (panic, s)
  after_round (err e, s) next = next s
  after_round (ok r, s) next = by_error r.values r.error next s

  -- The loop of InvokeWithRetry; the error at its end prints the last one.
  unfoldable pub retry_from : ℕ → MethodInvoker V S → List (Option V) → Act S (List V)
  unfolding invoke
  retry_from zero invoker args s = (err (new "failed after retries"), s)
  retry_from (suc left) invoker args s =
      after_round (invoke invoker args s) (λ s'. retry_from left invoker args s')

  -- InvokeWithRetry
  unfoldable pub invoke_with_retry : MethodInvoker V S → ℤ → List (Option V) → Act S (List V)
  unfolding retry_from
  invoke_with_retry invoker max_retries args s = retry_from (rounds max_retries) invoker args s

  abbrev pub store :
      ℕ
      → Outcome (InvokeResult V) × S
      → List (Option (InvokeResult V))
      → (List (Option (InvokeResult V)) → Act S (List (Option (InvokeResult V))))
      → Outcome (List (Option (InvokeResult V))) × S
  store i (panic, s) results next = (panic, s)
  store i (err e, s) results next = next (set_result i (as_result e) results) s
  store i (ok r, s) results next = next (set_result i r results) s

  abbrev pub at_index :
      MethodInvoker V S
      → ℕ
      → Option (List (Option V))
      → List (Option (InvokeResult V))
      → (List (Option (InvokeResult V)) → Act S (List (Option (InvokeResult V))))
      → Act S (List (Option (InvokeResult V)))
  at_index invoker i none results next s = next results s
  at_index invoker i (some args) results next s = store i (invoke invoker args s) results next

  -- BatchInvoke: the goroutines run in the order of some indices, and each writes its own place; a
  -- panic of one ends the process. An index without arguments does nothing.
  unfoldable pub batch_from :
      MethodInvoker V S
      → List (List (Option V))
      → List ℕ
      → List (Option (InvokeResult V))
      → Act S (List (Option (InvokeResult V)))
  unfolding invoke
  batch_from invoker args_list [] results s = (ok results, s)
  batch_from invoker args_list (i ∷ order) results s =
      at_index invoker i (argument_list i args_list) results
        (λ results'. λ s'. batch_from invoker args_list order results' s') s
