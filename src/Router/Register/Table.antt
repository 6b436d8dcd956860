-- ===== src/Router/Register/Table.antt =====
-- internal/platform/router/register.go: the table of routes that RegisterRouters leaves.
use go_admin.Common.{
  ◌≡◌, refl, sym, ap, subst, ◌↔◌, ◌⊎◌, inl, inr, Bool, true, false, not, List, [], ◌∷◌, ◌++◌, map,
  if◌then◌else◌, contains, contains_iff, Elem, Elem-append, arith,
}
use go_admin.Outcome.{Outcome, ok, err, panic}
use go_admin.Outcome.Laws.{>>=-eq-ok}
use go_admin.Router.Paths.{Method, get, post, put, delete, other}
use go_admin.Router.Group.{Api, Router, RouterGroup, Hertz}
use go_admin.Router.Register.{
  RouteKey, key_eq, Register, Registration, valid, key_of, noted, dispatch, mount, register_routers,
}

abbrev pub AreApart : List RouteKey → Type 0
AreApart [] = Unit
AreApart (k ∷ ks) = (¬ Elem k ks) × AreApart ks

AreApart-snoc :
    (ks : List RouteKey) (k : RouteKey) → AreApart ks → ¬ Elem k ks → AreApart (ks ++ (k ∷ []))
AreApart-snoc [] k h n = ((λ m. m), tt)
AreApart-snoc (j ∷ ks) k h n = (
  (λ m. ground (arith, (Elem-append j ks (k ∷ [])).0 m)),
  AreApart-snoc ks k h.1 (λ m. n (inr m)),
)

module _ {P Q W : Type 0} where
  abbrev pub keys : List (Router P Q W) → List RouteKey
  keys rs = map (λ r. key_of r) rs

  keys-append : (xs ys : List (Router P Q W)) → keys (xs ++ ys) ≡ keys xs ++ keys ys
  keys-append [] ys = refl
  keys-append (x ∷ xs) ys = ap (◌∷◌ (key_of x)) (keys-append xs ys)

  -- No two routes of a register have the same method and path, and `seen` has theirs.
  abbrev pub IsTable : Register P Q W → Type 0
  IsTable reg =
      AreApart (keys reg.routes) × ((k : RouteKey) → Elem k reg.seen ↔ Elem k (keys reg.routes))

  -- What a registration that returns leaves: a table that has the given keys and those that it had,
  -- and no others.
  abbrev pub Registered : List (Router P Q W) → Register P Q W → Register P Q W → Type 0
  Registered rs reg reg' =
      IsTable reg'
      × ((k : RouteKey) → Elem k (keys reg'.routes) ↔ (Elem k (keys reg.routes) ⊎ Elem k (keys rs)))

module _ {P Q W G : Type 0} (api : Api P W) (hertz : Hertz W G) where
  noted-Registered :
      (r : Router P Q W) (reg : Register P Q W) (x : Outcome (Unit {0}) × RouterGroup P Q W G)
      → IsTable reg
      → ¬ Elem (key_of r) (keys reg.routes)
      → (noted api hertz r reg x).0 ≡ ok tt
      → Registered (r ∷ []) reg (noted api hertz r reg x).1.0
  noted-Registered r reg (err e, rg) t n h = absurd (cc h)
  noted-Registered r reg (panic, rg) t n h = absurd (cc h)
  noted-Registered r reg (ok _, rg) t n h =
      let snoc : keys (reg.routes ++ (r ∷ [])) ≡ keys reg.routes ++ (key_of r ∷ []) =
        keys-append reg.routes (r ∷ []) in
      (
        (
          subst AreApart (sym snoc) (AreApart-snoc (keys reg.routes) (key_of r) t.0 n),
          λ k.
              subst (λ ks. (Elem k (key_of r ∷ reg.seen)) ↔ Elem k ks) (sym snoc)
                (ground (arith, t.1 k, Elem-append k (keys reg.routes) (key_of r ∷ []))),
        ),
        λ k.
            subst (λ ks. Elem k ks ↔ (Elem k (keys reg.routes) ⊎ Elem k (keys (r ∷ [])))) (sym snoc)
              (Elem-append k (keys reg.routes) (key_of r ∷ [])),
      )

  dispatch-Registered :
      (m : Method) (r : Router P Q W) (s : Registration P Q W G)
      → IsTable s.0
      → ¬ Elem (key_of r) (keys (s.0).routes)
      → (dispatch api hertz m r s).0 ≡ ok tt
      → Registered (r ∷ []) s.0 (dispatch api hertz m r s).1.0
  unfolding dispatch
  dispatch-Registered get r (reg, rg) t n h = noted-Registered r reg _ t n h
  dispatch-Registered post r (reg, rg) t n h = noted-Registered r reg _ t n h
  dispatch-Registered put r (reg, rg) t n h = noted-Registered r reg _ t n h
  dispatch-Registered delete r (reg, rg) t n h = noted-Registered r reg _ t n h
  dispatch-Registered (other m) r s t n h = absurd (cc h)

  mount-Registered :
      (r : Router P Q W) (s : Registration P Q W G)
      → IsTable s.0
      → (mount api hertz r s).0 ≡ ok tt
      → Registered (r ∷ []) s.0 (mount api hertz r s).1.0
  unfolding mount
  mount-Registered r s t h = go (not (valid r)) (contains (s.0).seen (key_of r)) refl h
    where
      Ends : Outcome (Unit {0}) × Registration P Q W G → Type 0
      Ends x = Registered (r ∷ []) s.0 x.1.0

      go :
          (b c : Bool)
          → contains (s.0).seen (key_of r) ≡ c
          → (if b then (panic, s) else if c then (ok tt, s) else dispatch api hertz r.method r s).0
            ≡ ok tt
          → Ends
              (if b then (panic, s) else if c then (ok tt, s) else dispatch api hertz r.method r s)
      go true c e h = absurd (cc h)
      go false true e h =
          let old : Elem (key_of r) (keys (s.0).routes) =
            (t.1 (key_of r)).0 ((contains_iff (s.0).seen (key_of r)).0 e) in
          (
            t,
            λ k. (
              λ m. inl m,
              λ m. elim m [
                | inl m ↦ m
                | inr m ↦ elim m [
                  | inl e' ↦ subst (λ j. Elem j (keys (s.0).routes)) (sym e') old
                  | inr f ↦ absurd f
                ]
              ],
            ),
          )
      go false false e h =
          dispatch-Registered r.method r s t
            (λ m. cc (e, (contains_iff (s.0).seen (key_of r)).1 ((t.1 (key_of r)).1 m))) h

  Registered-append :
      (r : Router P Q W) (rs : List (Router P Q W)) (a b c : Register P Q W)
      → Registered (r ∷ []) a b
      → Registered rs b c
      → Registered (r ∷ rs) a c
  Registered-append r rs a b c h k = (k.0, λ key. ground (arith, h.1 key, k.1 key))

  -- If RegisterRouters returns on a register whose routes have pairwise different pairs of method
  -- and path and whose set of seen pairs has exactly these, this holds of the register that it
  -- leaves, and a pair is a pair of one of its routes exactly if it was before or is that of a
  -- route that was given.
  pub register_routers-Registered :
      (rs : List (Router P Q W)) (s s' : Registration P Q W G)
      → IsTable s.0
      → register_routers api hertz rs s ≡ (ok tt, s')
      → Registered rs s.0 s'.0
  unfolding register_routers
  register_routers-Registered [] s s' t h =
      let same : s ≡ s' = ap (λ x. x.1) h in
      subst (λ x. Registered [] s.0 x.0) same (t, λ k. (λ m. inl m, λ m. ground arith))
  register_routers-Registered (r ∷ rs) s s' t h =
      let (a, u, first, rest) =
        >>=-eq-ok (mount api hertz r) (λ _. register_routers api hertz rs) s h in
      let one : Registered (r ∷ []) s.0 u.0 =
        subst (λ x. Registered (r ∷ []) s.0 x.1.0) first
          (mount-Registered r s t (ap (λ x. x.0) first)) in
      Registered-append r rs s.0 u.0 s'.0 one (register_routers-Registered rs u s' one.0 rest)
