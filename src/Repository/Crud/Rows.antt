-- ===== src/Repository/Crud/Rows.antt =====
-- What the repository's queries answer, in terms of the rows of the table.
use Prim.Native.Nat.{min}
use go_admin.Common.{
  ℕ, suc, ◌-◌, ◌≤◌, ◌≡◌, refl, ap, sym, subst, ◌∙◌, fun_ext, ◌↔◌, ◌⊎◌, inl, inr, Bool, true, none,
  some, List, [], ◌∷◌, ℤ, pos, arith, Elem, filter, length, take, drop, length-take, length-drop,
  Elem_of_take, Elem_of_drop,
}
use go_admin.Outcome.{not_found, multiple, Outcome, ok, err, panic}
use go_admin.Repository.Query.{
  Condition, Cond, QueryBuilder, new_query_builder, where_op, apply_filters, Select, apply_where,
  apply_select, set_limit, set_offset,
}
use go_admin.Repository.Query.Meaning.{holds, all_hold, holds-apply_filters}
use go_admin.Repository.Meta.{Field, build_filters}
use go_admin.Repository.Db.{Table, wrap_db_err}
use go_admin.Repository.Crud.{Model, one_row, page_of, run_find, find_one, find_all, find_page}
use go_admin.Repository.Crud.Laws.{TableLaws, IsWindow}
use go_admin.Repository.Crud.Statements.{wrap_db_err-eq-ok}

-- Filters leave the limit and the offset alone.
apply_filters-limit :
    (fs : List Condition) (qb : QueryBuilder)
    → ((apply_filters fs qb).limit ≡ qb.limit) × ((apply_filters fs qb).offset ≡ qb.offset)
unfolding apply_filters
apply_filters-limit [] qb = (refl, refl)
apply_filters-limit (f ∷ fs) qb = apply_filters-limit fs (where_op f.field f.op f.value qb)

-- The query of a list of filters, with no limit.
abbrev pub filtered : List Condition → QueryBuilder
filtered fs = apply_filters fs new_query_builder

select-filtered :
    (fs : List Condition)
    → ((apply_select (filtered fs)).limit ≡ none)
      × ((apply_select (filtered fs)).cond ≡ apply_where (filtered fs))
unfolding apply_select new_query_builder
select-filtered fs = (ground (arith, apply_filters-limit fs new_query_builder), refl)

module _ {Db T : Type 0} (table : Table Db T) (model : Model T) (rows : Db → List T)
    (sat : Cond → T → Bool) (laws : TableLaws table model rows sat) where
  -- A query that succeeds answers exactly the rows on which its conditions hold.
  pub run_find-eq-ok :
      (qb : QueryBuilder) (db : Db) (xs : List T)
      → (apply_select qb).limit ≡ none
      → run_find table model qb db ≡ ok xs
      → (a : T) → Elem a xs ↔ (Elem a (rows db) × (holds sat (apply_where qb) a ≡ true))
  unfolding run_find
  run_find-eq-ok qb db xs unlimited h a =
      let found = laws.find_ok (apply_select qb) db xs (wrap_db_err-eq-ok _ _ h) in
      let whole : xs ≡ laws.arranged (apply_select qb) db =
        subst (λ l. IsWindow l (laws.arranged (apply_select qb) db) xs) unlimited found in
      rw whole (unfold apply_select in laws.arranged_elem (apply_select qb) db a)

  -- A row is in what FindAll returns exactly if it is in the table and meets the filters that are
  -- built from the model.
  pub find_all-eq-ok :
      (m : T) (db : Db) (xs : List T)
      → find_all table model m db ≡ ok xs
      → (a : T)
      → Elem a xs
        ↔ (Elem a (rows db) × (all_hold sat laws.builder a (build_filters (model.fields m)) ≡ true))
  unfolding find_all
  find_all-eq-ok m db xs h a =
      let fs = build_filters (model.fields m) in
      rw (← holds-apply_filters sat laws.builder a fs)
        (run_find-eq-ok (filtered fs) db xs (select-filtered fs).0 h a)

  -- The rows that meet every filter.
  abbrev pub matching : List Condition → Db → List T
  matching fs db = filter (λ a. all_hold sat laws.builder a fs) (rows db)

  holds-matching :
      (fs : List Condition) (db : Db)
      → filter (holds sat (apply_where (filtered fs))) (rows db) ≡ matching fs db
  holds-matching fs db = rw (fun_ext (λ (a : T). holds-apply_filters sat laws.builder a fs))

  -- The query of findOne, and of one page.
  abbrev pub paged : List Condition → ℤ → ℤ → Select
  paged fs limit offset = apply_select (set_offset offset (set_limit limit (filtered fs)))

  abbrev pub first_two : List Condition → Select
  first_two fs = apply_select (set_limit (pos 2) (filtered fs))

  first_two-limit : (fs : List Condition) → (first_two fs).limit ≡ some (pos 2, pos 0)
  unfolding apply_select set_limit new_query_builder
  first_two-limit fs = ground (arith, apply_filters-limit fs new_query_builder)

  first_two-arranged :
      (fs : List Condition) (db : Db)
      → length (laws.arranged (first_two fs) db) ≡ length (matching fs db)
  unfolding apply_select set_limit apply_where
  first_two-arranged fs db =
      laws.length-arranged (first_two fs) db
      ∙ ap length (unfold apply_where in holds-matching fs db)

  first_two-found :
      (fs : List Condition) (db : Db) (xs : List T)
      → table.find (first_two fs) db ≡ ok xs
      → xs ≡ take 2 (laws.arranged (first_two fs) db)
  first_two-found fs db xs h =
      subst (λ l. IsWindow l (laws.arranged (first_two fs) db) xs) (first_two-limit fs)
        (laws.find_ok (first_two fs) db xs h)

  first_two-elem :
      (fs : List Condition) (db : Db) (a : T)
      → Elem a (laws.arranged (first_two fs) db)
      → Elem a (rows db) × (all_hold sat laws.builder a fs ≡ true)
  unfolding apply_select set_limit apply_where
  first_two-elem fs db a h =
      rw (← holds-apply_filters sat laws.builder a fs)
        ((laws.arranged_elem (first_two fs) db a).0 h)

  -- What a search for one row says of the rows that meet the filters.
  abbrev pub IsExact : List Condition → Db → Outcome T → Type 0
  IsExact fs db r =
      ((length (matching fs db) ≡ 0) × (r ≡ err not_found))
      ⊎ ((x : T) × (length (matching fs db) ≡ 1)
          × (r ≡ ok x)
          × Elem x (rows db)
          × (all_hold sat laws.builder x fs ≡ true))
      ⊎ ((2 ≤ length (matching fs db)) × (r ≡ err multiple))

  one_row-IsExact :
      (fs : List Condition) (db : Db) (all : List T)
      → length all ≡ length (matching fs db)
      → ((a : T) → Elem a all → Elem a (rows db) × (all_hold sat laws.builder a fs ≡ true))
      → IsExact fs db (one_row table model (ok (take 2 all)))
  one_row-IsExact fs db [] n m = inl (sym n, refl)
  one_row-IsExact fs db (x ∷ []) n m =
      let (here, meets) = m x (inl refl) in inr (inl (x, sym n, refl, here, meets))
  one_row-IsExact fs db (x ∷ y ∷ all) n m = inr (inr (omega arith, refl))

  -- If the database answers the query, findOne returns ErrNotFound when no row meets the filters,
  -- the row when exactly one does, and ErrMultipleRecordsFound when several do.
  pub find_one-IsExact :
      (fs : List Condition) (db : Db) (xs : List T)
      → table.find (first_two fs) db ≡ ok xs
      → IsExact fs db (find_one table model fs db)
  unfolding find_one wrap_db_err
  find_one-IsExact fs db xs h =
      let all = laws.arranged (first_two fs) db in
      let answer : find_one table model fs db ≡ one_row table model (ok (take 2 all)) =
        rw (h, wrap_db_err) (ap (λ l. one_row table model (ok l)) (first_two-found fs db xs h)) in
      subst (IsExact fs db) (sym answer)
        (one_row-IsExact fs db all (first_two-arranged fs db) (first_two-elem fs db))

  page_of-eq-ok :
      (r : Outcome (List T)) (c : Outcome ℕ) (xs : List T) (total : ℕ)
      → page_of table model r c ≡ ok (xs, total)
      → (r ≡ ok xs) × (c ≡ ok total)
  page_of-eq-ok (ok ys) (ok n) xs total h = (cc, cc)
  page_of-eq-ok (ok ys) (err e) xs total h = cc
  page_of-eq-ok (ok ys) panic xs total h = cc
  page_of-eq-ok (err e) c xs total h = cc
  page_of-eq-ok panic c xs total h = cc

  -- The SELECT of one page.
  abbrev page_query : List Condition → ℕ → ℕ → QueryBuilder
  page_query fs limit offset = set_offset (pos offset) (set_limit (pos (suc limit)) (filtered fs))

  page-found :
      (fs : List Condition) (limit offset : ℕ) (db : Db) (xs : List T)
      → run_find table model (page_query fs limit offset) db ≡ ok xs
      → xs
        ≡ take
            (suc limit)
            (drop offset (laws.arranged (apply_select (page_query fs limit offset)) db))
  unfolding run_find set_offset set_limit apply_select
  page-found fs limit offset db xs h =
      laws.find_ok (apply_select (page_query fs limit offset)) db xs (wrap_db_err-eq-ok _ _ h)

  page-elem :
      (fs : List Condition) (limit offset : ℕ) (db : Db) (a : T)
      → Elem a (laws.arranged (apply_select (page_query fs limit offset)) db)
      → Elem a (rows db) × (all_hold sat laws.builder a fs ≡ true)
  unfolding set_offset set_limit apply_select apply_where
  page-elem fs limit offset db a h =
      rw (← holds-apply_filters sat laws.builder a fs)
        ((laws.arranged_elem (apply_select (page_query fs limit offset)) db a).0 h)

  page-arranged :
      (fs : List Condition) (limit offset : ℕ) (db : Db)
      → length (laws.arranged (apply_select (page_query fs limit offset)) db)
        ≡ length (matching fs db)
  unfolding set_offset set_limit apply_select apply_where
  page-arranged fs limit offset db =
      laws.length-arranged (apply_select (page_query fs limit offset)) db
      ∙ ap length (holds-matching fs db)

  -- A page with a positive limit and an offset that is not negative, if it is returned, has as
  -- total the number of the rows that meet the filters, min(limit, total - offset) rows, and only
  -- rows of the table that meet them.
  pub find_page-eq-ok :
      (query : List Field) (limit offset : ℕ) (db : Db) (xs : List T) (total : ℕ)
      → find_page table model query (pos (suc limit)) (pos offset) db ≡ ok (xs, total)
      → (total ≡ length (matching (build_filters query) db))
        × (length xs ≡ min (suc limit) (total - offset))
        × ((a : T)
            → Elem a xs
            → Elem a (rows db) × (all_hold sat laws.builder a (build_filters query) ≡ true))
  unfolding find_page
  find_page-eq-ok query limit offset db xs total h =
      let fs = build_filters query in
      let all = laws.arranged (apply_select (page_query fs limit offset)) db in
      let (found, counted) = page_of-eq-ok _ _ xs total h in
      let page = page-found fs limit offset db xs found in
      let sum : total ≡ length (matching fs db) =
        laws.count_ok (apply_where (filtered fs)) db total (wrap_db_err-eq-ok _ _ counted)
        ∙ ap length (holds-matching fs db) in
      (
        sum,
        omega (
          arith,
          ap length page,
          length-take (suc limit) (drop offset all),
          length-drop offset all,
          page-arranged fs limit offset db,
        ),
        λ a m. page-elem fs limit offset db a (
            Elem_of_drop offset a all
              (Elem_of_take (suc limit) a (drop offset all) (subst (Elem a) page m))),
      )
