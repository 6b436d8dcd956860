-- ===== src/Iam/PermissionHandler/Fresh.antt =====
-- internal/modules/iam/handler/permission_handler.go: what a change leaves in the cache.
use go_admin.Common.{ℕ, ◌≡◌, refl, ap, sym, subst, ◌∙◌, ◌⊎◌, inl, inr, none, List, nat_eq, arith}
use go_admin.Outcome.{Outcome, ok, err, panic, Act}
use go_admin.Store
use go_admin.Store.View.{view}
use go_admin.Api.{Response, http_status, success_ok, success_no_content, database_error, of_error}
use go_admin.Repository.Db.{Table}
use go_admin.Iam.Model.{Permission}
use go_admin.Iam.Checker.{Checker, invalidate_all}
use go_admin.Iam.PermissionService.{
  CreatePermissionRequest, UpdatePermissionRequest, PermissionCopier,
}
use go_admin.Iam.PermissionHandler.{
  changed, handle_create, handle_create_batch, handle_update, handle_delete,
}

-- A request that changes permissions.
pub data Change : Type 0 where
  creates : CreatePermissionRequest → Change
  creates_batch : List CreatePermissionRequest → Change
  updates : UpdatePermissionRequest → Change
  deletes : List ℕ → Change

module _ {Db : Type 0} (table : Table Db Permission) (copier : PermissionCopier) where
  unfoldable pub handle_change : Change → Act (Checker Db) (Response Permission)
  unfolding handle_create handle_create_batch handle_update handle_delete
  handle_change (creates req) = handle_create table copier req
  handle_change (creates_batch reqs) = handle_create_batch table copier reqs
  handle_change (updates req) = handle_update table copier req
  handle_change (deletes ids) = handle_delete table copier ids

  invalidated : (c : Checker Db) (t user_id : ℕ) → view t (invalidate_all c).cache user_id ≡ none
  unfolding invalidate_all Store.clear view Store.lookup
  invalidated c t user_id = refl

  changed-view :
      {A : Type 0} (answer : A → Response Permission)
      → ((a : A) → http_status (answer a).code ≡ 200)
      → (c : Checker Db) (x : Outcome A × Db) (t user_id : ℕ) (resp : Response Permission)
        (c' : Checker Db)
      → changed answer c x ≡ (ok resp, c')
      → ((http_status resp.code ≡ 200) × (view t c'.cache user_id ≡ none))
        ⊎ ((http_status resp.code ≡ 500) × (c'.cache ≡ c.cache))
  unfolding changed
  changed-view answer good c (ok a, db) t user_id resp c' h =
      let same : answer a ≡ resp = ground (arith, ap (λ r. r.0) h) in
      inl (
        ap (λ r. http_status r.code) (sym same) ∙ good a,
        subst (λ k. view t k.cache user_id ≡ none) (ap (λ r. r.1) h)
            (invalidated (record c { db = db }) t user_id),
      )
  changed-view answer good c (err e, db) t user_id resp c' h =
      let same : database_error (of_error e) ≡ resp = ground (arith, ap (λ r. r.0) h) in
      inr (ap (λ r. http_status r.code) (sym same) ∙ server_error, sym (ap (λ r. r.1.cache) h))
    where
      server_error : http_status (database_error {A = Permission} (of_error e)).code ≡ 500
      server_error = unfold http_status in refl
  changed-view answer good c (panic, db) t user_id resp c' h = absurd (cc (ap (λ r. r.0) h))

  ok_is_fine : http_status success_ok ≡ 200
  unfolding http_status
  ok_is_fine = refl

  no_content_is_fine : http_status success_no_content ≡ 200
  unfolding http_status
  no_content_is_fine = refl

  -- A handler that creates, updates or deletes permissions, if it does not panic, either answers
  -- with the HTTP status 200 and leaves a cache in which no reader at any time finds the keys of
  -- any user, or answers with the status 500 and leaves the cache as it was.
  pub handle_change-view :
      (change : Change) (c c' : Checker Db) (resp : Response Permission) (t user_id : ℕ)
      → handle_change change c ≡ (ok resp, c')
      → ((http_status resp.code ≡ 200) × (view t c'.cache user_id ≡ none))
        ⊎ ((http_status resp.code ≡ 500) × (c'.cache ≡ c.cache))
  unfolding handle_change handle_create handle_create_batch handle_update handle_delete
  handle_change-view (creates req) c c' resp t user_id h =
      changed-view _ (λ p. ok_is_fine) c _ t user_id resp c' h
  handle_change-view (creates_batch reqs) c c' resp t user_id h =
      changed-view _ (λ p. ok_is_fine) c _ t user_id resp c' h
  handle_change-view (updates req) c c' resp t user_id h =
      changed-view _ (λ p. ok_is_fine) c _ t user_id resp c' h
  handle_change-view (deletes ids) c c' resp t user_id h =
      changed-view _ (λ p. no_content_is_fine) c _ t user_id resp c' h
