-- ===== src/Reflect/Methods.antt =====
-- The cache of invokers, the proxy and the hooks of pkg/reflectutil/reflect_utils.go.
use go_admin.Common.{
  Bool, true, false, Option, none, some, List, [], ◌++◌, Bytes, bytes, text_eq, find, assign,
}
use go_admin.Outcome.{new, Outcome, ok, err, panic, Act}
use go_admin.Reflect.{Runtime, MethodInvoker, InvokeResult, new_method_invoker, invoke}

module _ {V S : Type 0} where
  -- MethodCache: the keys are the text of the type, a dot and the name of the method.
  abbrev pub cache_key : Runtime V S → V → Bytes → Bytes
  cache_key runtime o name = runtime.type_text o ++ (bytes "." ++ name)

  abbrev pub stored :
      Bytes
      → Outcome (MethodInvoker V S)
      → List (Bytes × MethodInvoker V S)
      → Outcome (MethodInvoker V S) × List (Bytes × MethodInvoker V S)
  stored key (ok invoker) cache = (ok invoker, assign key invoker cache)
  stored key (err e) cache = (err e, cache)
  stored key panic cache = (panic, cache)

  abbrev pub cached :
      Bytes
      → Option (MethodInvoker V S)
      → Outcome (MethodInvoker V S)
      → List (Bytes × MethodInvoker V S)
      → Outcome (MethodInvoker V S) × List (Bytes × MethodInvoker V S)
  cached key (some invoker) made cache = (ok invoker, cache)
  cached key none made cache = stored key made cache

  abbrev pub of_pointer :
      Bool
      → Outcome (MethodInvoker V S) × List (Bytes × MethodInvoker V S)
      → List (Bytes × MethodInvoker V S)
      → Outcome (MethodInvoker V S) × List (Bytes × MethodInvoker V S)
  of_pointer true x cache = x
  of_pointer false x cache = (err (new "structPtr must be a pointer to a struct"), cache)

  -- GetOrCreateMethodInvoker
  unfoldable pub get_or_create :
      Runtime V S
      → V
      → Bytes
      → List (Bytes × MethodInvoker V S)
      → Outcome (MethodInvoker V S) × List (Bytes × MethodInvoker V S)
  unfolding new_method_invoker
  get_or_create runtime o name cache =
      let key = cache_key runtime o name in
      of_pointer (runtime.is_pointer o)
        (cached key (find key cache) (new_method_invoker runtime o name) cache) cache

  -- MethodProxy: InvokeMethod on its target, over the state of its cache and that of the process.
  abbrev pub run_with :
      List (Option V)
      → Outcome (MethodInvoker V S) × List (Bytes × MethodInvoker V S)
      → S
      → Outcome (InvokeResult V) × List (Bytes × MethodInvoker V S) × S
  run_with args (ok invoker, cache) s = let (r, s') = invoke invoker args s in (r, cache, s')
  run_with args (err e, cache) s = (err e, cache, s)
  run_with args (panic, cache) s = (panic, cache, s)

  unfoldable pub invoke_method :
      Runtime V S
      → V
      → Bytes
      → List (Option V)
      → List (Bytes × MethodInvoker V S)
      → S
      → Outcome (InvokeResult V) × List (Bytes × MethodInvoker V S) × S
  unfolding get_or_create
  invoke_method runtime target name args cache s =
      run_with args (get_or_create runtime target name cache) s

  -- InvokeWithHooks; a hook may be nil, and a panic of the method passes the second one by.
  abbrev hooked : Option (Bytes → List (Option V) → S → S) → Bytes → List (Option V) → S → S
  hooked none name args s = s
  hooked (some hook) name args s = hook name args s

  abbrev after_hook :
      Option (Bytes → List (Option V) → S → S)
      → Bytes
      → List (Option V)
      → Outcome (InvokeResult V) × S
      → Outcome (InvokeResult V) × S
  after_hook hook name args (ok r, s) = (ok r, hooked hook name args s)
  after_hook hook name args (err e, s) = (err e, hooked hook name args s)
  after_hook hook name args (panic, s) = (panic, s)

  unfoldable pub invoke_with_hooks :
      MethodInvoker V S
      → (before after : Option (Bytes → List (Option V) → S → S)) → List (Option V)
      → Act S (InvokeResult V)
  unfolding invoke
  invoke_with_hooks invoker before after args s =
      after_hook after invoker.method_name args
        (invoke invoker args (hooked before invoker.method_name args s))

-- ClearCache
unfoldable pub clear_cache :
    {V S : Type 0} → List (Bytes × MethodInvoker V S) → List (Bytes × MethodInvoker V S)
clear_cache cache = []
