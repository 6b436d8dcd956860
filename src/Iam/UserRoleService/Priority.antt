-- ===== src/Iam/UserRoleService/Priority.antt =====
-- fetchHighestPriorityRole of internal/modules/iam/service/user_role_service.go: a less id is a
-- higher priority.
use go_admin.Common.{
  ◌≡◌, ◌≤◌, refl, ◌⊎◌, inl, inr, Bool, true, false, Option, none, some, List, [], ◌∷◌, ltb,
  if◌then◌else◌, Elem, All, arith,
}
use go_admin.Iam.Model.{RoleResponse}
use go_admin.Iam.UserRoleService.{highest, fetch_highest_priority_role}

-- No role of the list has a higher priority.
abbrev pub IsLeast : RoleResponse → List RoleResponse → Type 0
IsLeast best roles = All (λ r. best.id ≤ r.id) roles

-- What the loop answers that starts with `best`.
abbrev IsBest : RoleResponse → List RoleResponse → RoleResponse → Type 0
IsBest best roles r = ((r ≡ best) ⊎ Elem r roles) × (r.id ≤ best.id) × IsLeast r roles

highest-IsLeast :
    (best : RoleResponse) (roles : List RoleResponse) → IsBest best roles (highest best roles)
unfolding highest
highest-IsLeast best [] = (inl refl, omega arith, tt)
highest-IsLeast best (r ∷ roles) =
    go (ltb r.id best.id) refl (highest-IsLeast r roles) (highest-IsLeast best roles)
  where
    go :
        (b : Bool)
        → ltb r.id best.id ≡ b
        → IsBest r roles (highest r roles)
        → IsBest best roles (highest best roles)
        → IsBest best (r ∷ roles) (highest (if b then r else best) roles)
    go true better (member, below, least) _ = (
      elim member [ inl e ↦ inr (inl e) | inr m ↦ inr (inr m) ],
      ground (arith, below),
      (below, least),
    )
    go false kept _ (member, below, least) =
        (elim member [ inl e ↦ inl e | inr m ↦ inr (inr m) ], below, (ground (arith, below), least))

-- The answer for a list of roles.
abbrev pub IsHighest : List RoleResponse → Option RoleResponse → Type 0
IsHighest roles none = roles ≡ []
IsHighest roles (some best) = Elem best roles × IsLeast best roles

-- fetchHighestPriorityRole returns none for an empty list, and otherwise a role of the list whose
-- id is at most that of every role of it.
pub fetch_highest_priority_role-IsHighest :
    (roles : List RoleResponse) → IsHighest roles (fetch_highest_priority_role roles)
unfolding fetch_highest_priority_role
fetch_highest_priority_role-IsHighest [] = refl
fetch_highest_priority_role-IsHighest (r ∷ roles) =
    let (member, below, least) = highest-IsLeast r (r ∷ roles) in
    (elim member [ inl own ↦ inl own | inr m ↦ m ], least)
