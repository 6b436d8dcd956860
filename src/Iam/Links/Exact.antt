-- ===== src/Iam/Links/Exact.antt =====
-- The incremental replacement of links leaves exactly the links that were asked for.
use go_admin.Common.{
  ℕ, ◌≡◌, ◌≢◌, ap, sym, ◌∙◌, subst, ◌↔◌, ◌⊎◌, inl, inr, Bool, ◌&&◌, none, List, [], ◌∷◌, map,
  contains, contains_iff, nat_eq, ◌==◌, nat_beq_iff, arith, Elem, Elem-map, Elem_of_map,
}
use go_admin.Outcome.{ok}
use go_admin.Outcome.Laws.{wrapped-eq-ok}
use go_admin.Repository.Query.{
  num, nums, op_eq, op_in, Condition, Cond, condition_to_cond, new_query_builder, where_eq,
  where_in, apply_filters, apply_where,
}
use go_admin.Repository.Query.Meaning.{holds, demands, holds-apply_filters}
use go_admin.Repository.Meta.{build_filters}
use go_admin.Repository.Db.{Session}
use go_admin.Repository.Crud.{run_delete, batch_create}
use go_admin.Repository.Crud.Laws.{TableLaws}
use go_admin.Repository.Crud.Statements.{run_delete-eq-ok, batch_create-eq-ok}
use go_admin.Iam.Links.{LinkTable, Messages, delete_query, remove_links, add_links}

abbrev pub owner_condition : {Db L : Type 0} → LinkTable Db L → ℕ → Condition
owner_condition links o = record { field = links.owner_column; op = op_eq; value = num o }

abbrev pub target_condition : {Db L : Type 0} → LinkTable Db L → List ℕ → Condition
target_condition links ts = record { field = links.target_column; op = op_in; value = nums ts }

-- The laws of the table, and what the columns of a link mean to the database.
pub record LinkLaws {Db L : Type 0} (links : LinkTable Db L) (rows : Db → List L)
    (sat : Cond → L → Bool) : Type 0 where
  pub table_laws : TableLaws links.table links.model rows sat
  pub owner_filter :
      (o : ℕ)
      → o ≢ 0
      → build_filters (links.model.fields (links.make o 0)) ≡ owner_condition links o ∷ []
  pub has_where :
      (o : ℕ) (ts : List ℕ)
      → apply_where (
          where_in links.target_column
            (nums ts)
            (where_eq links.owner_column (num o) new_query_builder))
        ≢ none
  pub sat_owner :
      (o : ℕ) (a : L)
      → demands sat table_laws.builder a (condition_to_cond (owner_condition links o))
        ≡ (links.owner a == o)
  pub sat_target :
      (ts : List ℕ) (a : L)
      → demands sat table_laws.builder a (condition_to_cond (target_condition links ts))
        ≡ contains ts (links.target a)
  pub make_lem :
      (o t : ℕ) → (links.owner (links.make o t) ≡ o) × (links.target (links.make o t) ≡ t)
  -- What an insert fills in is neither the owner nor the target.
  pub erase_lem :
      (a b : L)
      → table_laws.erase a ≡ table_laws.erase b
      → (links.owner a ≡ links.owner b) × (links.target a ≡ links.target b)

module _ {Db L : Type 0} (session : Session Db) (links : LinkTable Db L) (messages : Messages)
    (rows : Db → List L) (sat : Cond → L → Bool) (laws : LinkLaws links rows sat) where
  -- The targets that the table links the owner to.
  abbrev pub IsLinked : Db → ℕ → ℕ → Type 0
  IsLinked db o t = (a : L) × Elem a (rows db) × (links.owner a ≡ o) × (links.target a ≡ t)

  holds-delete_query :
      (o : ℕ) (ts : List ℕ) (a : L)
      → holds sat (apply_where (delete_query links o ts)) a
        ≡ (links.owner a == o) && contains ts (links.target a)
  unfolding where_in where_eq apply_filters
  holds-delete_query o ts a =
      holds-apply_filters sat laws.table_laws.builder a
        (owner_condition links o ∷ target_condition links ts ∷ [])
      ∙ ground (arith, laws.sat_owner o a, laws.sat_target ts a)

  -- What the DELETE leaves.
  pub remove_links-eq-ok :
      (o : ℕ) (ts : List ℕ) (db db' : Db)
      → remove_links session links messages o ts db ≡ (ok tt, db')
      → (a : L)
      → Elem a (rows db') ↔ (Elem a (rows db) × ¬ ((links.owner a ≡ o) × Elem (links.target a) ts))
  unfolding remove_links
  remove_links-eq-ok o [] db db' h a =
      let same : db ≡ db' = ap (λ r. r.1) h in rw (← same) (λ m. (m, λ p. p.1), λ p. p.0)
  remove_links-eq-ok o (t ∷ ts) db db' h a =
      let query = delete_query links o (t ∷ ts) in
      let deleted =
        run_delete-eq-ok links.table links.model query db db'
          (wrapped-eq-ok messages.delete (run_delete links.table links.model query) db h) in
      let left =
        laws.table_laws.delete_ok (apply_where query) db db' (laws.has_where o (t ∷ ts)) deleted
          a in
      ground (
        arith,
        left,
        holds-delete_query o (t ∷ ts) a,
        nat_beq_iff (links.owner a) o,
        contains_iff (t ∷ ts) (links.target a),
      )

  abbrev pub IsNew : ℕ → List ℕ → L → Type 0
  IsNew o ts a = (links.owner a ≡ o) × Elem (links.target a) ts

  -- What an INSERT of rows for some targets adds.
  inserted :
      (o : ℕ) (ts : List ℕ) (ms' : List L)
      → map laws.table_laws.erase ms' ≡ map laws.table_laws.erase (map (links.make o) ts)
      → ((a : L) → Elem a ms' → IsNew o ts a)
        × ((t : ℕ) → Elem t ts → (a : L) × Elem a ms' × (links.owner a ≡ o) × (links.target a ≡ t))
  inserted o ts ms' e = (sound, complete)
    where
      erase : L → L
      erase = laws.table_laws.erase

      sound : (a : L) → Elem a ms' → IsNew o ts a
      sound a m =
          let image = subst (Elem (erase a)) e (Elem-map erase a ms' m) in
          let (b, mb, eb) = Elem_of_map erase (erase a) (map (links.make o) ts) image in
          let (t, mt, et) = Elem_of_map (links.make o) b ts mb in
          let (same_owner, same_target) = laws.erase_lem a b eb in
          let (made_owner, made_target) = laws.make_lem o t in
          (
            same_owner ∙ (ap links.owner et ∙ made_owner),
            subst (λ x. Elem x ts) (sym (same_target ∙ (ap links.target et ∙ made_target))) mt,
          )

      complete :
          (t : ℕ) → Elem t ts → (a : L) × Elem a ms' × (links.owner a ≡ o) × (links.target a ≡ t)
      complete t m =
          let made = links.make o t in
          let image =
            Elem-map erase made (map (links.make o) ts) (Elem-map (links.make o) t ts m) in
          let (a, ma, ea) =
            Elem_of_map erase (erase made) ms' (subst (Elem (erase made)) (sym e) image) in
          let (same_owner, same_target) = laws.erase_lem made a ea in
          let (made_owner, made_target) = laws.make_lem o t in
          (a, ma, sym same_owner ∙ made_owner, sym same_target ∙ made_target)

  -- What the INSERT adds: rows of the owner for the targets, one at least for each of them.
  pub record Added (o : ℕ) (ts : List ℕ) (db db' : Db) : Type 0 where
    pub kept : (a : L) → Elem a (rows db) → Elem a (rows db')
    pub new : (a : L) → Elem a (rows db') → Elem a (rows db) ⊎ IsNew o ts a
    pub linked : (t : ℕ) → Elem t ts → IsLinked db' o t

  pub add_links-eq-ok :
      (o : ℕ) (ts : List ℕ) (db db' : Db)
      → add_links session links messages o ts db ≡ (ok tt, db')
      → Added o ts db db'
  unfolding add_links
  add_links-eq-ok o [] db db' h =
      let same : db ≡ db' = ap (λ r. r.1) h in
      record {
        kept = λ a m. subst (λ d. Elem a (rows d)) same m;
        new = λ a m. inl (subst (λ d. Elem a (rows d)) (sym same) m);
        linked = λ t m. absurd m;
      }
  add_links-eq-ok o (t ∷ ts) db db' h =
      let ms = map (links.make o) ts in
      let (ms', e) = batch_create-eq-ok links.table links.model (links.make o t) ms db db' (
        wrapped-eq-ok messages.create (batch_create links.table links.model (links.make o t ∷ ms))
          db h) in
      let (same, contents) = laws.table_laws.insert_ok (links.make o t ∷ ms) ms' db db' e in
      let (sound, complete) = inserted o (t ∷ ts) ms' same in
      record {
        kept = λ a m. (contents a).1 (inl m);
        new = λ a m. elim ((contents a).0 m) [ inl old ↦ inl old | inr n ↦ inr (sound a n) ];
        linked = λ u m. let (a, ma, eo, et) = complete u m in (a, (contents a).1 (inr ma), eo, et);
      }
