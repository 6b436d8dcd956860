-- ===== src/Router/Register.antt =====
-- internal/platform/router/register.go and route_table.go: the registration of routes.
pub mod Table
use go_admin.Common.{
  ℕ, ◌≡◌, refl, ap, ◌↔◌, Bool, true, false, not, ◌&&◌, Option, none, some, List, [], ◌∷◌, ◌++◌,
  Bytes, bytes, if◌then◌else◌, ◌==◌, Eq, text_eq, list_beq_iff, contains, find, assign, arith,
}
use go_admin.Outcome.{Outcome, ok, err, panic, Act, pure, fail, ◌>>◌, ◌>>=◌}
use go_admin.Router.Paths.{
  Unicode, Method, get, post, put, delete, other, method_text, PathFormat, slash_case,
  infer_from_name,
}
use go_admin.Router.Group.{Api, Handler, absent, Router, RouterGroup, Hertz, handle}

-- routeKey
abbrev pub RouteKey : Type 0
RouteKey = Bytes × Bytes

abbrev pub key_beq : RouteKey → RouteKey → Bool
key_beq (a, p) (b, q) = (a == b) && (p == q)

pub key_beq_iff : (k l : RouteKey) → (key_beq k l ≡ true) ↔ (k ≡ l)
key_beq_iff (a, p) (b, q) = ground (arith, list_beq_iff a b, list_beq_iff p q)

instance abbrev pub key_eq : Eq RouteKey
key_eq = record { beq = key_beq; beq_iff = key_beq_iff }

-- Register
pub record Register (P Q W : Type 0) : Type 0 where
  pub format : PathFormat
  pub seen : List RouteKey
  pub routes : List (Router P Q W)

-- A method of a struct that reflection lists: its key in the table of compiled routes, its name,
-- whether isHandlerMethod takes its type, and the bound method.
pub record StructMethod (P Q W : Type 0) : Type 0 where
  pub route_key : Bytes
  pub name : Bytes
  pub is_handler_method : Bool
  pub handler : Handler P Q W

-- An instance: whether it is a pointer or can be addressed, and its methods.
pub record Instance (P Q W : Type 0) : Type 0 where
  pub addressable : Bool
  pub methods : List (StructMethod P Q W)

-- routeTag, and the table that registerCompiledRoute fills
abbrev pub RouteTag : Type 0
RouteTag = Method × Bytes

abbrev pub put_tag : Bytes → RouteTag → Option RouteTag → Act (List (Bytes × RouteTag)) (Unit {0})
put_tag key tag none table = (ok tt, assign key tag table)
put_tag key tag (some _) table = (panic, table)

unfoldable pub register_compiled_route : Bytes → RouteTag → Act (List (Bytes × RouteTag)) (Unit {0})
register_compiled_route key tag table = put_tag key tag (find key table) table

module _ {P Q W : Type 0} where
  -- NewRegister
  abbrev pub new_register : Register P Q W
  new_register = record { format = slash_case; seen = []; routes = [] }

  abbrev pub is_absent : Handler P Q W → Bool
  is_absent absent = true
  is_absent _ = false

  -- Valid
  abbrev pub valid : Router P Q W → Bool
  valid r = not (r.path == []) && not (method_text r.method == []) && not (is_absent r.handler_func)

  abbrev pub key_of : Router P Q W → RouteKey
  key_of r = (method_text r.method, r.path)

module _ {P Q W : Type 0} (unicode : Unicode) where
  -- resolveRoute
  abbrev pub tagged : Register P Q W → StructMethod P Q W → Option RouteTag → Router P Q W
  tagged reg m (some (method, path)) = record {
    path = path;
    method = method;
    handler_func = m.handler;
  }
  tagged reg m none =
      let (method, path) = infer_from_name unicode m.name reg.format in
      record { path = path; method = method; handler_func = m.handler }

  unfoldable pub resolve_route :
      List (Bytes × RouteTag) → Register P Q W → StructMethod P Q W → Router P Q W
  resolve_route table reg m = tagged reg m (find m.route_key table)

-- The register and the group that a call works on; a nil group, on which mount panics, is left out.
abbrev pub Registration : Type 0 → Type 0 → Type 0 → Type 0 → Type 0
Registration P Q W G = Register P Q W × RouterGroup P Q W G

module _ {P Q W G : Type 0} (api : Api P W) (hertz : Hertz W G) where
  abbrev pub noted :
      Router P Q W
      → Register P Q W
      → Outcome (Unit {0}) × RouterGroup P Q W G
      → Outcome (Unit {0}) × Registration P Q W G
  noted r reg (ok _, rg) =
      (ok tt, (record reg { seen = key_of r ∷ reg.seen; routes = reg.routes ++ (r ∷ []) }, rg))
  noted r reg (err e, rg) = (err e, (reg, rg))
  noted r reg (panic, rg) = (panic, (reg, rg))

  -- The switch of mount, on the method of the route.
  unfoldable pub dispatch :
      Method → Router P Q W → Registration P Q W G → Outcome (Unit {0}) × Registration P Q W G
  unfolding handle
  dispatch (other _) r s = (panic, s)
  dispatch _ r (reg, rg) = noted r reg (handle api hertz r rg)

  -- mount, with a group that is not nil
  unfoldable pub mount : Router P Q W → Act (Registration P Q W G) (Unit {0})
  unfolding dispatch
  mount r s =
      if not (valid r)
      then (panic, s)
      else if contains (s.0).seen (key_of r)
      then (ok tt, s)
      else dispatch r.method r s

  -- RegisterRouters
  unfoldable pub register_routers : List (Router P Q W) → Act (Registration P Q W G) (Unit {0})
  unfolding mount
  register_routers [] = pure tt
  register_routers (r ∷ rs) = mount r >> register_routers rs

  -- registerStruct
  unfoldable pub register_methods :
      Unicode
      → List (Bytes × RouteTag)
      → List (StructMethod P Q W)
      → Act (Registration P Q W G) (Unit {0})
  unfolding mount resolve_route
  register_methods unicode table [] = pure tt
  register_methods unicode table (m ∷ ms) = one >> register_methods unicode table ms
    where
      one : Act (Registration P Q W G) (Unit {0})
      one s =
          let r = resolve_route unicode table s.0 m in
          if m.is_handler_method && valid r then mount r s else (ok tt, s)

  -- RegisterStruct
  unfoldable pub register_struct :
      Unicode
      → List (Bytes × RouteTag)
      → List (Instance P Q W)
      → Act (Registration P Q W G) (Unit {0})
  unfolding register_methods
  register_struct unicode table [] = pure tt
  register_struct unicode table (i ∷ is) =
      (if i.addressable then register_methods unicode table i.methods else pure tt)
      >> register_struct unicode table is
