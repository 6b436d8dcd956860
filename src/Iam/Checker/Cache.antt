-- ===== src/Iam/Checker/Cache.antt =====
-- The cache of internal/modules/iam/service/permission_checker.go is transparent to HasPermission.
use go_admin.Common.{
  ℕ, ◌≡◌, refl, sym, subst, ◌≤◌, inl, inr, Bool, true, false, Option, none, some, List, Bytes,
  nat_eq, ◌==◌, nat_beq_iff, arith, if◌then◌else◌, ltb, is_pos, pos_part, ◌&&◌, not, ◌+◌,
  Bool-cases,
}
use go_admin.Outcome.{wrap, Outcome, ok, err, panic, or_wrap, wrapped}
use go_admin.Store
use go_admin.Store.View.{view, view-get, HasUniqueKeys}
use go_admin.Store.Writes.{view-set, view-delete, get-HasUniqueKeys, written}
use go_admin.Iam.Model.{Permission}
use go_admin.Iam.Model.Tables.{Repositories}
use go_admin.Users.Model.{UserFinder}
use go_admin.Iam.Checker.{
  PermissionCache, Checker, Readings, permission_paths, match_path, get_user_all_permissions,
  remember, decide, has_permission, invalidate_user,
}
use go_admin.Iam.Checker.Reads.{get_user_all_permissions-ReadsOnly}

-- What a call without a cache answers to the outcome of the query.
abbrev pub answer_of : Bytes → Bytes → Outcome (List Permission) → Outcome Bool
answer_of method path (ok permissions) = ok (match_path (permission_paths permissions) method path)
answer_of method path (err e) = err (wrap "failed to retrieve user permissions" e)
answer_of method path panic = panic

module _ {Db : Type 0} (repos : Repositories Db) (finder : UserFinder Db) where
  abbrev pub IsCurrentFor : ℕ → Db → Option (List Bytes) → Type 0
  IsCurrentFor user_id db none = Unit
  IsCurrentFor user_id db (some keys) =
      (permissions : List Permission) × ((get_user_all_permissions repos finder user_id db).0
        ≡ ok permissions)
      × (keys ≡ permission_paths permissions)

  -- Whatever a reader at time `t` finds in the cache is what the query answers.
  abbrev pub IsCurrent : ℕ → Checker Db → Type 0
  IsCurrent t c = (user_id : ℕ) → IsCurrentFor user_id c.db (view t c.cache user_id)

  IsCurrentFor-if :
      (b : Bool) (o o' : Option (List Bytes)) (user_id : ℕ) (db : Db)
      → IsCurrentFor user_id db o
      → IsCurrentFor user_id db o'
      → IsCurrentFor user_id db (if b then o else o')
  IsCurrentFor-if true o o' user_id db h h' = h
  IsCurrentFor-if false o o' user_id db h h' = h'

  module _ (now : Readings) (user_id : ℕ) (method path : Bytes) where
    query : Db → Outcome (List Permission) × Db
    unfolding get_user_all_permissions wrapped
    query =
        wrapped "failed to retrieve user permissions"
          (get_user_all_permissions repos finder user_id)

    remembered-answer :
        (r : Outcome (List Permission)) (cache : PermissionCache) (db : Db)
        → (remember repos finder now user_id method path cache
            (or_wrap "failed to retrieve user permissions" r, db)).0
          ≡ answer_of method path r
    remembered-answer (ok ps) cache db = refl
    remembered-answer (err e) cache db = refl
    remembered-answer panic cache db = refl

    decided-answer :
        (db : Db) (o : Option (List Bytes)) (cache : PermissionCache)
        → IsCurrentFor user_id db o
        → (decide repos finder now user_id method path db (o, cache)).0
          ≡ answer_of method path (get_user_all_permissions repos finder user_id db).0
    decided-answer db none cache h =
        unfold wrapped in
        remembered-answer (get_user_all_permissions repos finder user_id db).0 cache
          (get_user_all_permissions repos finder user_id db).1
    decided-answer db (some keys) cache (ps, e, k) = rw (e, k)

    -- What a miss leaves, for each outcome of the query.
    remembered-IsCurrent :
        (t : ℕ) (r : Outcome (List Permission)) (cache : PermissionCache) (db : Db)
        → HasUniqueKeys cache.m
        → now.at_cleanup ≤ t
        → (get_user_all_permissions repos finder user_id db).0 ≡ r
        → IsCurrent t (record { db = db; cache = cache })
        → IsCurrent t
            (remember repos finder now user_id method path cache
              (or_wrap "failed to retrieve user permissions" r, db)).1
    remembered-IsCurrent t (ok ps) cache db u h e current j =
        let keys = permission_paths ps in
        rw (view-set now.at_set now.at_cleanup t user_id j keys cache u h)
          (elim (Bool-cases (user_id == j)) [
            | inl same ↦
                let stored : IsCurrentFor j db (some keys) =
                  subst (λ i. IsCurrentFor i db (some keys)) ((nat_beq_iff user_id j).0 same)
                    (ps, e, refl) in
                let ttl = cache.default_ttl in
                rw same (
                  IsCurrentFor-if (is_pos ttl) (written now.at_set t keys ttl) (some keys) j db
                    (IsCurrentFor-if (is_pos ttl && not (ltb (now.at_set + pos_part ttl) t))
                      (some keys) none j db stored tt)
                    stored)
            | inr other ↦ rw other (current j)
          ])
    remembered-IsCurrent t (err x) cache db u h e current j = current j
    remembered-IsCurrent t panic cache db u h e current j = current j

  -- If whatever the cache shows at the time of the lookup is what the query of the permissions
  -- answers, HasPermission answers as it would without the cache, errors included.
  pub has_permission-answer :
      (now : Readings) (user_id : ℕ) (method path : Bytes) (c : Checker Db)
      → IsCurrent now.at_get c
      → (has_permission repos finder now user_id method path c).0
        ≡ answer_of method path (get_user_all_permissions repos finder user_id c.db).0
  unfolding has_permission
  has_permission-answer now user_id method path c current =
      decided-answer now user_id method path c.db (Store.get now.at_get user_id c.cache).0
        (Store.get now.at_get user_id c.cache).1
        (subst (IsCurrentFor user_id c.db)
          (sym (view-get now.at_get now.at_get user_id c.cache user_id (omega arith)).0)
          (current user_id))

  module _ (now : Readings) (user_id : ℕ) (method path : Bytes) where
    decided-IsCurrent :
        (t : ℕ) (db : Db) (o : Option (List Bytes)) (cache : PermissionCache)
        → HasUniqueKeys cache.m
        → now.at_cleanup ≤ t
        → IsCurrent t (record { db = db; cache = cache })
        → IsCurrent t (decide repos finder now user_id method path db (o, cache)).1
    decided-IsCurrent t db none cache u h current =
        let (r, db') = get_user_all_permissions repos finder user_id db in
        let same : db' ≡ db = get_user_all_permissions-ReadsOnly repos finder user_id db in
        unfold wrapped in
        subst
          (λ d.
            IsCurrent t
              (remember repos finder now user_id method path cache
                (or_wrap "failed to retrieve user permissions" r, d)).1)
          (sym same) (remembered-IsCurrent now user_id method path t r cache db u h refl current)
    decided-IsCurrent t db (some keys) cache u h current = current

    -- HasPermission on a cache with unique keys keeps it true, for every time t not before its
    -- lookup and its cleanup, that whatever the cache shows at t is what the query answers.
    pub has_permission-IsCurrent :
        (t : ℕ) (c : Checker Db)
        → HasUniqueKeys c.cache.m
        → now.at_get ≤ t
        → now.at_cleanup ≤ t
        → IsCurrent t c
        → IsCurrent t (has_permission repos finder now user_id method path c).1
    unfolding has_permission
    has_permission-IsCurrent t c u h h' current =
        let (o, cache) = Store.get now.at_get user_id c.cache in
        decided-IsCurrent t c.db o cache (get-HasUniqueKeys now.at_get user_id c.cache u) h' (λ j.
          subst (IsCurrentFor j c.db) (sym (view-get now.at_get t user_id c.cache j h).1)
            (current j))

-- Behind InvalidateUser the user's keys are gone from the cache, and the others' are not.
pub view-invalidate_user :
    {Db : Type 0} (t user_id j : ℕ) (c : Checker Db)
    → view t (invalidate_user user_id c).cache j ≡ (if user_id == j then none else view t c.cache j)
unfolding invalidate_user
view-invalidate_user t user_id j c = view-delete t user_id j c.cache
