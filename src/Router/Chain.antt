-- ===== src/Router/Chain.antt =====
-- internal/platform/router/group.go: which steps of a request run.
use go_admin.Common.{
  ◌≡◌, refl, ap, sym, subst, ◌∙◌, fun_ext, Bool, true, false, not, if◌then◌else◌, Option, some,
  List, [], ◌∷◌, ◌++◌, map, Bytes, arith,
}
use go_admin.Outcome.{Outcome, ok}
use go_admin.Router.Paths.{method_text}
use go_admin.Router.Group.{
  Api, Handler, native, compile_step, run_steps, next_step, compile_chain, Router, RouterGroup,
  Hertz, group, sub_of, handle, handle_in, use_middleware,
}

run_steps-append :
    {W : Type 0} (xs ys : List (W → Bool × W)) (w : W)
    → run_steps (xs ++ ys) w ≡ next_step (run_steps ys) (run_steps xs w)
unfolding run_steps
run_steps-append [] ys w = refl
run_steps-append {W = W} (x ∷ xs) ys w = go (x w) (run_steps-append xs ys)
  where
    go :
        (r : Bool × W)
        → ((w' : W) → run_steps (xs ++ ys) w' ≡ next_step (run_steps ys) (run_steps xs w'))
        → next_step (run_steps (xs ++ ys)) r ≡ next_step (run_steps ys) (next_step (run_steps xs) r)
    go (true, w') ih = ih w'
    go (false, w') ih = refl

map-append : {A B : Type 0} (f : A → B) (xs ys : List A) → map f (xs ++ ys) ≡ map f xs ++ map f ys
map-append f [] ys = refl
map-append f (x ∷ xs) ys = ap (◌∷◌ (f x)) (map-append f xs ys)

-- What a chain does behind the middleware before a guard.
abbrev pub behind_guard : {P W : Type 0} → Api P W → (W → W) → (W → W) → Bool × W → W
behind_guard api guard rest (false, w) = w
behind_guard api guard rest (true, w) = if api.is_aborted (guard w) then guard w else rest (guard w)

last_step : {W : Type 0} (x : Bool × W) → (next_step (run_steps []) x).1 ≡ x.1
unfolding run_steps
last_step (true, w) = refl
last_step (false, w) = refl

module _ {P Q W : Type 0} (api : Api P W) where
  chain_end :
      (guard : W → W) (handler : Handler P Q W) (r : Bool × W)
      → (next_step
          (run_steps ((λ w. compile_step api handler w) ∷ []))
          (next_step (run_steps (compile_step {Q = Q} api (native guard) ∷ [])) r)).1
        ≡ behind_guard api guard (λ v. (compile_step api handler v).1) r
  unfolding compile_step run_steps
  chain_end guard handler (false, w) = refl
  chain_end guard handler (true, w) = go (api.is_aborted (guard w))
    where
      go :
          (b : Bool)
          → (next_step
              (run_steps ((λ w. compile_step api handler w) ∷ []))
              (next_step (run_steps []) (not b, guard w))).1
            ≡ (if b then guard w else (compile_step api handler (guard w)).1)
      go true = refl
      go false = last_step (compile_step api handler (guard w))

  compile_chain-guard :
      (before : List (Handler P Q W)) (guard : W → W) (handler : Handler P Q W) (w : W)
      → compile_chain api (before ++ (native guard ∷ [])) handler w
        ≡ behind_guard api guard
            (λ v. (compile_step api handler v).1)
            (run_steps (map (λ m. compile_step api m) before) w)
  unfolding compile_chain
  compile_chain-guard before guard handler w =
      let step = λ (m : Handler P Q W). compile_step api m in
      ap (λ r. r.1)
        (run_steps-append (map step (before ++ (native guard ∷ []))) (step handler ∷ []) w)
      ∙ ap (λ ss. (next_step (run_steps (step handler ∷ [])) (run_steps ss w)).1)
          (map-append step before (native guard ∷ []))
      ∙ ap (λ r. (next_step (run_steps (step handler ∷ [])) r).1)
          (run_steps-append (map step before) (step (native guard) ∷ []) w)
      ∙ chain_end guard handler (run_steps (map step before) w)

-- The answer of a call and the group that it leaves.
abbrev pub mounted : {G : Type 0} → Outcome (Unit {0}) × G → Outcome (Unit {0}) × Option G
mounted x = (x.0, some x.1)

module _ {P Q W G : Type 0} (api : Api P W) (hertz : Hertz W G) where
  -- A route handled in a subgroup of a group with an engine, behind a native middleware that Use
  -- adds to the subgroup, is mounted under its method and path as the function that runs the
  -- middleware of the group, then, if all of them went on, the native one, and the handler of the
  -- route only if that did not abort the request; where a middleware stops or the native one
  -- aborts, the state that it leaves is the result.
  pub handle-guard :
      (path : Bytes) (rg sub : RouterGroup P Q W G) (g : G) (guard : W → W) (r : Router P Q W)
      → rg.group ≡ some g
      → group api hertz path rg ≡ ok sub
      → let (o, rg') = handle api hertz r (use_middleware api hertz (native guard ∷ []) sub) in
        (o, rg'.group)
        ≡ mounted (
            hertz.handle
              (method_text r.method)
              r.path
              (λ w.
                behind_guard api guard
                  (λ v. (compile_step api r.handler_func v).1)
                  (run_steps (map (λ m. compile_step api m) rg.middlewares) w))
              (hertz.sub_group path g))
  unfolding group handle handle_in
  handle-guard path rg sub g guard r e h =
      let made : sub_of api hertz path rg (some g) ≡ ok sub =
        ap (λ o. sub_of api hertz path rg o) (sym e) ∙ h in
      subst
        (λ s.
          (
            (handle api hertz r (use_middleware api hertz (native guard ∷ []) s)).0,
            (handle api hertz r (use_middleware api hertz (native guard ∷ []) s)).1.group,
          )
          ≡ mounted (hertz.handle (method_text r.method) r.path chain (hertz.sub_group path g)))
        (ok_injective made)
        (ap (λ f. mounted (hertz.handle (method_text r.method) r.path f (hertz.sub_group path g)))
          (fun_ext (compile_chain-guard api rg.middlewares guard r.handler_func)))
    where
      chain : W → W
      chain w =
          behind_guard api guard (λ v. (compile_step api r.handler_func v).1)
            (run_steps (map (λ m. compile_step api m) rg.middlewares) w)

      ok_injective : {a b : RouterGroup P Q W G} → ok a ≡ ok b → a ≡ b
      ok_injective k = ground (arith, k)
