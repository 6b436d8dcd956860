-- ===== src/Iam/Links/Assign.antt =====
-- Assigning targets to an owner: the whole method.
use go_admin.Common.{
  ℕ, ◌≡◌, ◌≢◌, refl, ap, sym, subst, ◌↔◌, inl, inr, Bool, true, false, not, List, map, contains,
  contains_iff, nat_eq, nat_beq_iff, arith, Elem, Elem-map, Elem_of_map, Elem-filter, Bool-cases,
}
use go_admin.Outcome.{Outcome, ok, err, panic}
use go_admin.Outcome.Laws.{>>=-eq-ok}
use go_admin.Repository.Query.{Cond}
use go_admin.Repository.Query.Meaning.{all_hold}
use go_admin.Repository.Db.{Session}
use go_admin.Repository.Db.Atomic.{SessionLaws, is_ok, transaction-IsAtomic, transaction-eq-ok}
use go_admin.Repository.Crud.{find_all}
use go_admin.Repository.Crud.Rows.{find_all-eq-ok}
use go_admin.Iam.Links.{
  LinkTable, Messages, remove_links, add_links, to_remove, to_add, change_links, with_current,
  assign_links,
}
use go_admin.Iam.Links.Exact.{LinkLaws, IsLinked, remove_links-eq-ok, Added, add_links-eq-ok}

-- The rows of an owner, as the method reads them.
abbrev pub AreOf : {Db L : Type 0} → LinkTable Db L → (Db → List L) → ℕ → Db → List L → Type 0
AreOf {L = L} links rows o db current =
    (a : L) → Elem a current ↔ (Elem a (rows db) × (links.owner a ≡ o))

module _ {Db L : Type 0} (session : Session Db) (links : LinkTable Db L) (messages : Messages)
    (rows : Db → List L) (sat : Cond → L → Bool) (laws : LinkLaws links rows sat) where
  abbrev Linked : Db → ℕ → ℕ → Type 0
  Linked = IsLinked session links messages rows sat laws

  -- The owner has exactly the wanted targets, and nothing else has changed.
  pub record Replaced (o : ℕ) (wanted : List ℕ) (db db' : Db) : Type 0 where
    pub exactly : (t : ℕ) → Linked db' o t ↔ Elem t wanted
    pub others : (a : L) → links.owner a ≢ o → Elem a (rows db') ↔ Elem a (rows db)

  module _ (o : ℕ) (wanted : List ℕ) (current : List L) (db db1 db2 : Db)
      (are : AreOf links rows o db current)
      (left : (a : L)
        → Elem a (rows db1) ↔ (
            Elem a (rows db)
            × ¬ (
                (links.owner a ≡ o)
                × Elem (links.target a) (to_remove wanted (map links.target current)))))
      (added : Added session links messages rows sat laws o
        (to_add wanted (map links.target current))
        db1
        db2) where
    abbrev existing : List ℕ
    existing = map links.target current

    removed :
        (t : ℕ)
        → Elem t (to_remove wanted existing) ↔ (Elem t existing × (not (contains wanted t) ≡ true))
    removed t = Elem-filter (λ id. not (contains wanted id)) t existing

    appended :
        (t : ℕ)
        → Elem t (to_add wanted existing) ↔ (Elem t wanted × (not (contains existing t) ≡ true))
    appended t = Elem-filter (λ id. not (contains existing id)) t wanted

    sound : (t : ℕ) → Linked db2 o t → Elem t wanted
    sound t (a, m, eo, et) = elim (added.new a m) [
      | inr n ↦ ((appended t).0 (subst (λ x. Elem x (to_add wanted existing)) et n.1)).0
      | inl old ↦ elim (Bool-cases (contains wanted t)) [
        | inl yes_wanted ↦ (contains_iff wanted t).0 yes_wanted
        | inr not_wanted ↦
            let (before, survives) = (left a).0 old in
            let was : Elem t existing =
              subst (λ x. Elem x existing) et
                (Elem-map links.target a current ((are a).1 (before, eo))) in
            absurd (
              survives (
                eo,
                subst (λ x. Elem x (to_remove wanted existing)) (sym et)
                    ((removed t).1 (was, ap not not_wanted)),
              ))
      ]
    ]

    complete : (t : ℕ) → Elem t wanted → Linked db2 o t
    complete t m = elim (Bool-cases (contains existing t)) [
      | inr missing ↦ added.linked t ((appended t).1 (m, ap not missing))
      | inl there ↦
          let (a, ma, et) =
            Elem_of_map links.target t current ((contains_iff existing t).0 there) in
          let (before, eo) = (are a).0 ma in
          let stays : ¬ ((links.owner a ≡ o) × Elem (links.target a) (to_remove wanted existing)) =
            λ p. not_removed a et p.1 m in
          (a, added.kept a ((left a).1 (before, stays)), eo, sym et)
    ]
      where
        not_removed :
            (a : L)
            → t ≡ links.target a
            → Elem (links.target a) (to_remove wanted existing)
            → Elem t wanted
            → ⊥
        not_removed a et r w = ground (
          arith,
          (removed t).0 (subst (λ x. Elem x (to_remove wanted existing)) (sym et) r),
          (contains_iff wanted t).1 w,
        )

    others : (a : L) → links.owner a ≢ o → Elem a (rows db2) ↔ Elem a (rows db)
    others a n = (
      λ m. elim (added.new a m) [ inl old ↦ ((left a).0 old).0 | inr new ↦ absurd (n new.0) ],
      λ m. added.kept a ((left a).1 (m, λ p. n p.0)),
    )

  change_links-Replaced :
      (o : ℕ) (wanted : List ℕ) (current : List L) (db db2 : Db)
      → AreOf links rows o db current
      → change_links session links messages o wanted (map links.target current) db ≡ (ok tt, db2)
      → Replaced o wanted db db2
  unfolding change_links
  change_links-Replaced o wanted current db db2 are h =
      let existing : List ℕ = map links.target current in
      let (u, db1, first, second) =
        >>=-eq-ok (remove_links session links messages o (to_remove wanted existing))
          (λ _. add_links session links messages o (to_add wanted existing)) db h in
      let left =
        remove_links-eq-ok session links messages rows sat laws o (to_remove wanted existing) db db1
          first in
      let added =
        add_links-eq-ok session links messages rows sat laws o (to_add wanted existing) db1 db2
          second in
      record {
        exactly = λ t. (
          sound o wanted current db db1 db2 are left added t,
          complete o wanted current db db1 db2 are left added t,
        );
        others = others o wanted current db db1 db2 are left added;
      }

  find_all-AreOf :
      (o : ℕ) (db : Db) (current : List L)
      → o ≢ 0
      → find_all links.table links.model (links.make o 0) db ≡ ok current
      → AreOf links rows o db current
  find_all-AreOf o db current n h a =
      let found =
        find_all-eq-ok links.table links.model rows sat laws.table_laws (links.make o 0) db current
          h a in
      ground (
        arith,
        subst
            (λ fs.
              Elem a current
              ↔ (Elem a (rows db) × (all_hold sat laws.table_laws.builder a fs ≡ true)))
            (laws.owner_filter o n) found,
        laws.sat_owner o a,
        nat_beq_iff (links.owner a) o,
      )

  module _ (session_laws : SessionLaws session) where
    with_current-Replaced :
        (in_tx : Bool) (o : ℕ) (wanted : List ℕ) (r : Outcome (List L)) (db db2 : Db)
        → o ≢ 0
        → find_all links.table links.model (links.make o 0) db ≡ r
        → with_current session links messages in_tx o wanted r db ≡ (ok tt, db2)
        → Replaced o wanted db db2
    with_current-Replaced in_tx o wanted (ok current) db db2 n e h =
        change_links-Replaced o wanted current db db2 (find_all-AreOf o db current n e) (
          transaction-eq-ok session session_laws in_tx
            (λ _. change_links session links messages o wanted (map links.target current)) db h)
    with_current-Replaced in_tx o wanted (err x) db db2 n e h = absurd (cc (ap (λ p. p.0) h))
    with_current-Replaced in_tx o wanted panic db db2 n e h = absurd (cc (ap (λ p. p.0) h))

    -- An assignment of targets to an owner with a non-zero id that succeeds leaves the owner
    -- linked to exactly the wanted targets, and the rows of every other owner as they were, over
    -- any table and session that meet the stated laws.
    pub assign_links-Replaced :
        (in_tx : Bool) (o : ℕ) (wanted : List ℕ) (db db2 : Db)
        → o ≢ 0
        → assign_links session links messages in_tx o wanted db ≡ (ok tt, db2)
        → Replaced o wanted db db2
    unfolding assign_links
    assign_links-Replaced in_tx o wanted db db2 n h =
        with_current-Replaced in_tx o wanted (find_all links.table links.model (links.make o 0) db)
          db db2 n refl h

    with_current_failed :
        (o : ℕ) (wanted : List ℕ) (r : Outcome (List L)) (db : Db)
        → is_ok (with_current session links messages false o wanted r db).0 ≡ false
        → (with_current session links messages false o wanted r db).1 ≡ db
    with_current_failed o wanted (ok current) db h =
        elim (transaction-IsAtomic session session_laws
          (λ _. change_links session links messages o wanted (map links.target current)) db) [
            | inl (same, worked) ↦ absurd (cc (h, worked, ap (λ p. is_ok p.0) same))
            | inr (kept, _) ↦ kept
          ]
    with_current_failed o wanted (err e) db h = refl
    with_current_failed o wanted panic db h = refl

    -- An assignment outside any transaction that returns an error or panics leaves the state as it
    -- was, over any table and session that meet the stated laws.
    pub assign_links_failed :
        (o : ℕ) (wanted : List ℕ) (db : Db)
        → is_ok (assign_links session links messages false o wanted db).0 ≡ false
        → (assign_links session links messages false o wanted db).1 ≡ db
    unfolding assign_links
    assign_links_failed o wanted db h =
        with_current_failed o wanted (find_all links.table links.model (links.make o 0) db) db h
