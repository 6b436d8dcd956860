-- ===== src/Tests/Routes.antt =====
-- internal/platform/router over an engine that notes what is mounted.
use go_admin.Common.{
  ℕ, ◌+◌, ◌≡◌, refl, Bool, true, false, some, List, [], ◌∷◌, ◌++◌, map, Bytes, bytes, Elem,
  contains, arith, ◌||◌, ◌==◌, nat_eq, nat_beq_iff, if◌then◌else◌,
}
use go_admin.Outcome.{ok, ◌>>=◌}
use go_admin.Router.Paths.{
  Unicode, get, post, slash_case, snake_case, infer_from_name, split_method_prefix, format_path,
  apply_path_format, to_case, case_from,
}
use go_admin.Router.RoundTrip.{UnicodeLaws, is_capital, prefixes, words_of, infer_from_name-words}
use go_admin.Router.Group.{
  Api, native, ctx_only, Router, RouterGroup, Hertz, group, handle, handle_in, use_middleware,
  compile_step, run_steps,
}
use go_admin.Router.Chain.{handle-guard, behind_guard, mounted}
use go_admin.Router.Register.{new_register, Registration, mount, dispatch, register_routers}
use go_admin.Router.Register.Table.{Registered, register_routers-Registered}

-- Package unicode on ASCII, and on the Kelvin sign, which is an upper-case letter.
abbrev letters : Unicode
letters = record {
  is_upper = λ c. is_capital c || c == 0x212a;
  to_lower = λ c. if is_capital c then c + 32 else if c == 0x212a then b'k' else c;
}

letters-UnicodeLaws : UnicodeLaws letters
letters-UnicodeLaws = record {
  is_upper_ascii = λ c h. ground (arith, nat_beq_iff c 0x212a);
  to_lower_ascii = λ c h. ground (arith, nat_beq_iff c 0x212a);
}

infers : infer_from_name letters (bytes "GetUserList") slash_case ≡ (get, bytes "/user/list")
unfolding infer_from_name split_method_prefix format_path apply_path_format to_case case_from
infers = refl

infers_snake :
    infer_from_name letters (bytes "CreateUserRole") snake_case ≡ (post, bytes "/user_role")
unfolding infer_from_name split_method_prefix format_path apply_path_format to_case case_from
infers_snake = refl

infer_from_name-words_example :
    (prefix : Bytes) × Elem prefix
      (prefixes (infer_from_name letters (bytes "GetUserList") slash_case).0)
    × (bytes "GetUserList"
        ≡ prefix ++ words_of (infer_from_name letters (bytes "GetUserList") slash_case).1)
unfolding split_method_prefix
infer_from_name-words_example =
    infer_from_name-words letters letters-UnicodeLaws (bytes "GetUserList") slash_case
      (ground arith)

-- Whether the request was aborted, and what ran.
abbrev Run : Type 0
Run = Bool × List ℕ

abbrev noting : Api ℕ Run
noting = record {
  is_aborted = λ w. w.0;
  write = λ p w. (w.0, p ∷ w.1);
  write_param_error = λ e w. (w.0, 400 ∷ w.1);
  write_error = λ n e w. (w.0, n ∷ w.1);
  write_text = λ n t w. (w.0, n ∷ w.1);
}

-- The base path and the keys that are mounted.
abbrev Engine : Type 0
Engine = Bytes × List (Bytes × Bytes)

abbrev engine : Hertz Run Engine
engine = record {
  handle = λ method path f g. (ok tt, (g.0, (method, g.0 ++ path) ∷ g.1));
  sub_group = λ path g. (g.0 ++ path, g.1);
}

abbrev api_group : RouterGroup ℕ ℕ Run Engine
api_group = record {
  group = some (bytes "/api", []);
  routers = [];
  middlewares = ctx_only (λ w. (w.0, 1 ∷ w.1)) ∷ [];
}

abbrev protected_group : RouterGroup ℕ ℕ Run Engine
protected_group = record {
  group = some (bytes "/api/protected", []);
  routers = [];
  middlewares = ctx_only (λ w. (w.0, 1 ∷ w.1)) ∷ [];
}

-- Aborts every request.
abbrev closed : Run → Run
closed w = (true, 401 ∷ w.1)

abbrev user_route : Router ℕ ℕ Run
user_route = record {
  path = bytes "/user";
  method = get;
  handler_func = ctx_only (λ w. (w.0, 200 ∷ w.1));
}

abbrev role_route : Router ℕ ℕ Run
role_route = record {
  path = bytes "/role";
  method = post;
  handler_func = ctx_only (λ w. (w.0, 201 ∷ w.1));
}

handle-guard_example :
    let (o, rg') =
      handle noting engine user_route
        (use_middleware noting engine (native closed ∷ []) protected_group) in
    (o, rg'.group)
    ≡ mounted (
        engine.handle
          (bytes "GET")
          (bytes "/user")
          (λ w.
            behind_guard noting closed
              (λ v. (compile_step noting user_route.handler_func v).1)
              (run_steps (map (λ m. compile_step noting m) api_group.middlewares) w))
          (bytes "/api/protected", []))
unfolding group
handle-guard_example =
    handle-guard noting engine (bytes "/protected") api_group protected_group (bytes "/api", [])
      closed user_route refl refl

stops_at_guard :
    behind_guard noting closed
      (λ v. (compile_step noting user_route.handler_func v).1)
      (run_steps (map (λ m. compile_step noting m) api_group.middlewares) (false, []))
    ≡ (true, 401 ∷ 1 ∷ [])
unfolding run_steps compile_step
stops_at_guard = refl

abbrev registered : Registration ℕ ℕ Run Engine
unfolding register_routers ◌>>=◌ mount dispatch handle handle_in
registered =
    (register_routers noting engine (user_route ∷ role_route ∷ user_route ∷ [])
      (new_register, api_group)).1

register_routers-Registered_example :
    Registered (user_route ∷ role_route ∷ user_route ∷ []) new_register registered.0
unfolding register_routers ◌>>=◌ mount dispatch handle handle_in contains
register_routers-Registered_example =
    register_routers-Registered noting engine (user_route ∷ role_route ∷ user_route ∷ [])
      (new_register, api_group) registered (tt, λ k. ((λ m. m), (λ m. m))) refl
