-- ===== src/Router/Group.antt =====
-- internal/platform/router/group.go. What reflection finds out about a handler is the constructor of
-- `Handler`; Hertz is a parameter, and a panic of a handler, which Hertz recovers, is left out.
use go_admin.Common.{
  ℕ, Bool, true, false, not, Option, none, some, List, [], ◌∷◌, ◌++◌, Bytes, bytes, if◌then◌else◌,
  ◌==◌, text_eq, ◌&&◌, map,
}
use go_admin.Outcome.{Error, Outcome, ok, err, panic, Act}
use go_admin.Router.Paths.{Method, method_text}

-- What the first result of a handler is; api.Response is the parameter `P`.
pub data Output (P : Type 0) : Type 0 where
  nil_value other_value : Output P
  response : P → Output P
  failure : Error → Output P

-- The state `W` of a request with what the steps call on it: IsAborted, Response.Write,
-- api.ParamError(err).Write, and String with a status and the text of an error or another one.
pub record Api (P W : Type 0) : Type 0 where
  pub is_aborted : W → Bool
  pub write : P → W → W
  pub write_param_error : Error → W → W
  pub write_error : ℕ → Error → W → W
  pub write_text : ℕ → Bytes → W → W

-- A handler or middleware: nil, app.HandlerFunc, a function of the Context or of the Context and a
-- request of type `Q` without or with results, with how the request is bound; a function of another
-- type; another value.
pub data Handler (P Q W : Type 0) : Type 0 where
  absent not_func bad_func : Handler P Q W
  native : (W → W) → Handler P Q W
  ctx_only : (W → W) → Handler P Q W
  ctx_only_out : (W → Output P × W) → Handler P Q W
  ctx_req : (W → Outcome Q × W) → (Q → W → W) → Handler P Q W
  ctx_req_out : (W → Outcome Q × W) → (Q → W → Output P × W) → Handler P Q W

-- The loop over the steps: whether every one of them went on, and the state.
abbrev pub next_step : {W : Type 0} → (W → Bool × W) → Bool × W → Bool × W
next_step rest (true, w) = rest w
next_step rest (false, w) = (false, w)

unfoldable pub run_steps : {W : Type 0} → List (W → Bool × W) → W → Bool × W
run_steps [] w = (true, w)
run_steps (s ∷ ss) w = next_step (run_steps ss) (s w)

module _ {P W : Type 0} (api : Api P W) where
  -- writeOutputs
  abbrev pub write_outputs : Output P × W → Bool × W
  write_outputs (nil_value, w) = (true, w)
  write_outputs (other_value, w) = (true, w)
  write_outputs (response p, w) = (false, api.write p w)
  write_outputs (failure e, w) = (false, api.write_error 500 e w)

module _ {P Q W : Type 0} (api : Api P W) where
  abbrev pub bound : (Q → W → Bool × W) → Outcome Q × W → Bool × W
  bound body (ok q, w) = body q w
  bound body (err e, w) = (false, api.write_param_error e w)
  bound body (panic, w) = (false, w)

  -- compileStep, with compileCtxOnly and compileCtxReq
  unfoldable pub compile_step : Handler P Q W → W → Bool × W
  compile_step absent w = (true, w)
  compile_step not_func w = (true, w)
  compile_step bad_func w = (false, api.write_text 500 (bytes "Invalid handler function") w)
  compile_step (native f) w = let w' = f w in (not (api.is_aborted w'), w')
  compile_step (ctx_only f) w = (true, f w)
  compile_step (ctx_only_out f) w = write_outputs api (f w)
  compile_step (ctx_req bind f) w = bound (λ q w. (true, f q w)) (bind w)
  compile_step (ctx_req_out bind f) w = bound (λ q w. write_outputs api (f q w)) (bind w)

  -- compileChain
  unfoldable pub compile_chain : List (Handler P Q W) → Handler P Q W → W → W
  compile_chain mws handler w =
      (run_steps (map (λ m. compile_step m) mws ++ (compile_step handler ∷ [])) w).1

-- Router
pub record Router (P Q W : Type 0) : Type 0 where
  pub path : Bytes
  pub method : Method
  pub handler_func : Handler P Q W

-- route.RouterGroup of Hertz: Handle mounts a function, or panics.
pub record Hertz (W G : Type 0) : Type 0 where
  pub handle : Bytes → Bytes → (W → W) → Act G (Unit {0})
  pub sub_group : Bytes → G → G

-- RouterGroup; `group` is none for a nil group.
pub record RouterGroup (P Q W G : Type 0) : Type 0 where
  pub group : Option G
  pub routers : List (Router P Q W)
  pub middlewares : List (Handler P Q W)

module _ {P Q W G : Type 0} (api : Api P W) (hertz : Hertz W G) where
  -- NewRouterGroup
  abbrev pub new_router_group : Option G → RouterGroup P Q W G
  new_router_group g = record { group = g; routers = []; middlewares = [] }

  -- Group; a nil group panics.
  abbrev pub sub_of : Bytes → RouterGroup P Q W G → Option G → Outcome (RouterGroup P Q W G)
  sub_of path rg none = panic
  sub_of path rg (some g) =
      ok (record {
        group = some (hertz.sub_group path g);
        routers = [];
        middlewares = rg.middlewares;
      })

  unfoldable pub group : Bytes → RouterGroup P Q W G → Outcome (RouterGroup P Q W G)
  group path rg = sub_of path rg rg.group

  -- Use
  abbrev pub use_middleware : List (Handler P Q W) → RouterGroup P Q W G → RouterGroup P Q W G
  use_middleware ms rg = record rg { middlewares = rg.middlewares ++ ms }

  -- Handle
  unfoldable pub handle_in :
      Router P Q W → RouterGroup P Q W G → Option G → Outcome (Unit {0}) × RouterGroup P Q W G
  unfolding compile_chain
  handle_in r rg none = (ok tt, rg)
  handle_in r rg (some g) =
      let (o, g') =
        hertz.handle (method_text r.method) r.path (compile_chain api rg.middlewares r.handler_func)
          g in
      (o, record rg { group = some g' })

  unfoldable pub handle : Router P Q W → Act (RouterGroup P Q W G) (Unit {0})
  unfolding handle_in
  handle r rg = handle_in r (record rg { routers = rg.routers ++ (r ∷ []) }) rg.group

  -- FindRouter
  unfoldable pub find_router : Bytes → Bytes → List (Router P Q W) → Option (Router P Q W)
  find_router method path [] = none
  find_router method path (r ∷ rs) =
      let rest = find_router method path rs in
      if (method_text r.method == method) && (r.path == path) then some r else rest
