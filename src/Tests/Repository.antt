-- ===== src/Tests/Repository.antt =====
-- pkg/repository at concrete inputs: the conditions on user_role, and its rows in a list.
use Prim.Native.Nat.{min}
use go_admin.Common.{
  filter, ℕ, ◌≡◌, refl, Bool, true, false, some, List, [], ◌∷◌, pos, bytes, Elem, length, ◌-◌,
  nat_eq,
}
use go_admin.Outcome.{ok, err, new, Act}
use go_admin.Repository.Quote.{quote_ident}
use go_admin.Repository.Query.{
  num, Cond, eq, Condition, op_eq, QueryBuilder, new_query_builder, where_op, or_next, group,
  join_or, apply_where, apply_select, set_limit, apply_filters, condition_to_cond, where_eq,
}
use go_admin.Repository.Query.Meaning.{holds, joined, holds-group, holds-apply_filters, all_hold}
use go_admin.Repository.Meta.{build_filters}
use go_admin.Repository.Db.{transaction}
use go_admin.Repository.Db.Atomic.{IsAtomic, transaction-IsAtomic}
use go_admin.Repository.Crud.{find_all, find_one, find_page}
use go_admin.Repository.Crud.Rows.{find_one-IsExact, IsExact, find_page-eq-ok, matching, first_two}
use go_admin.Iam.Model.{UserRole, user_role_model, fields_of_user_role}
use go_admin.Tests.Tables.{
  user_role_attribute, user_roles, user_role_sat, builder_laws, user_roles-TableLaws, plain_session,
  plain_session-SessionLaws,
}

abbrev link : ℕ → ℕ → ℕ → UserRole
link id user_id role_id = record { id = id; user_id = user_id; role_id = role_id }

-- Users 1 and 2 have the roles 10 and 20, and 20.
abbrev three_links : List UserRole
three_links = link 1 1 10 ∷ link 2 1 20 ∷ link 3 2 20 ∷ []

abbrev is_user : ℕ → Condition
is_user n = record { field = bytes "user_id"; op = op_eq; value = num n }

abbrev user_is : ℕ → Cond
user_is n = eq (bytes "`user_id`") (num n)

is_user-eq-some : condition_to_cond (is_user 2) ≡ some (user_is 2)
unfolding condition_to_cond quote_ident
is_user-eq-some = refl

-- Eq("user_id", 1).Or()
abbrev user_1_or : QueryBuilder
unfolding where_eq or_next new_query_builder
user_1_or = or_next (where_eq (bytes "user_id") (num 1) new_query_builder)

abbrev user_2 : QueryBuilder → QueryBuilder
unfolding where_op
user_2 qb = where_op (bytes "user_id") op_eq (num 2) qb

user_2-eq-some : apply_where (user_2 new_query_builder) ≡ some (user_is 2)
unfolding apply_where new_query_builder condition_to_cond quote_ident where_op
user_2-eq-some = refl

holds-group_example :
    holds user_role_sat (apply_where (group join_or user_2 user_1_or)) (link 3 2 20)
    ≡ joined join_or
        (apply_where user_1_or)
        (holds user_role_sat (apply_where user_1_or) (link 3 2 20))
        (user_role_sat (user_is 2) (link 3 2 20))
holds-group_example =
    holds-group user_role_sat (builder_laws user_role_attribute) (link 3 2 20) join_or user_2
      (user_is 2) user_1_or user_2-eq-some

holds-apply_filters_example :
    holds user_role_sat
      (apply_where (apply_filters (is_user 2 ∷ []) new_query_builder))
      (link 3 2 20)
    ≡ all_hold user_role_sat (builder_laws user_role_attribute) (link 3 2 20) (is_user 2 ∷ [])
holds-apply_filters_example =
    holds-apply_filters user_role_sat (builder_laws user_role_attribute) (link 3 2 20)
      (is_user 2 ∷ [])

-- A callback that fails behind a write.
abbrev write_and_fail : Bool → Act (List UserRole) (Unit {0})
write_and_fail tx db = (err (new "failed"), [])

transaction-IsAtomic_example :
    IsAtomic three_links
      (write_and_fail true three_links)
      (transaction plain_session false write_and_fail three_links)
transaction-IsAtomic_example =
    transaction-IsAtomic plain_session plain_session-SessionLaws write_and_fail three_links

found :
    find_all user_roles user_role_model (link 0 1 0) three_links
    ≡ ok (link 1 1 10 ∷ link 2 1 20 ∷ [])
unfolding find_all build_filters fields_of_user_role apply_filters where_op new_query_builder filter
    condition_to_cond quote_ident
found = refl

found_two :
    user_roles.find
      (first_two user_roles user_role_model
        (λ db. db)
        user_role_sat
        user_roles-TableLaws
        (is_user 2 ∷ []))
      three_links
    ≡ ok (link 3 2 20 ∷ [])
unfolding apply_filters where_op new_query_builder filter condition_to_cond quote_ident apply_select
    set_limit
found_two = refl

find_one-IsExact_example :
    IsExact user_roles user_role_model
      (λ db. db)
      user_role_sat
      user_roles-TableLaws
      (is_user 2 ∷ [])
      three_links
      (find_one user_roles user_role_model (is_user 2 ∷ []) three_links)
find_one-IsExact_example =
    find_one-IsExact user_roles user_role_model (λ db. db) user_role_sat user_roles-TableLaws
      (is_user 2 ∷ []) three_links (link 3 2 20 ∷ []) found_two

-- The second page of one row each, of user 1.
page :
    find_page user_roles user_role_model
      (fields_of_user_role (link 0 1 0))
      (pos 1)
      (pos 1)
      three_links
    ≡ ok (link 2 1 20 ∷ [], 2)
unfolding find_page build_filters fields_of_user_role apply_filters where_op new_query_builder
    filter condition_to_cond quote_ident
page = refl

find_page-eq-ok_example :
    (2
      ≡ length (
          matching user_roles user_role_model
            (λ db. db)
            user_role_sat
            user_roles-TableLaws
            (build_filters (fields_of_user_role (link 0 1 0)))
            three_links))
    × (length (link 2 1 20 ∷ []) ≡ min 1 (2 - 1))
    × ((a : UserRole)
        → Elem a (link 2 1 20 ∷ [])
        → Elem a three_links
          × (all_hold user_role_sat
                (builder_laws user_role_attribute)
                a
                (build_filters (fields_of_user_role (link 0 1 0)))
              ≡ true))
find_page-eq-ok_example =
    find_page-eq-ok user_roles user_role_model (λ db. db) user_role_sat user_roles-TableLaws
      (fields_of_user_role (link 0 1 0)) 0 1 three_links (link 2 1 20 ∷ []) 2 page
