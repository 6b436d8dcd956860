-- ===== src/Repository/Db/Atomic.antt =====
-- A transaction of pkg/repository/db.go takes effect as a whole or not at all.
use go_admin.Common.{◌≡◌, ◌≢◌, subst, refl, ap, sym, ◌∙◌, ◌⊎◌, inl, inr, Bool, true, false}
use go_admin.Outcome.{Outcome, ok, err, panic, Act}
use go_admin.Repository.Db.{
  Tx, Session, rolled_back, closed, settle_commit, settle, when_begun, transaction,
}

-- What the code relies on in xorm and the database: Begin opens a transaction on the committed data;
-- a Commit that succeeds commits what the session sees, and one that does not commits nothing;
-- Rollback commits nothing; Close drops what is not committed.
pub record SessionLaws {Db : Type 0} (session : Session Db) : Type 0 where
  pub begin_ok :
      (db : Db) (tx : Tx Db) → session.begin db ≡ ok tx → (tx.committed ≡ db) × (tx.own ≡ db)
  pub commit_ok : (tx tx' : Tx Db) → session.commit tx ≡ (ok tt, tx') → tx'.committed ≡ tx.own
  pub commit_failed :
      (tx : Tx Db) → (session.commit tx).0 ≢ ok tt → (session.commit tx).1.committed ≡ tx.committed
  pub rollback_lem : (tx : Tx Db) → (session.rollback tx).committed ≡ tx.committed
  pub close_lem : (tx : Tx Db) → session.close tx ≡ tx.committed

abbrev pub is_ok : {A : Type 0} → Outcome A → Bool
is_ok (ok _) = true
is_ok (err _) = false
is_ok panic = false

-- The whole answers what its callback answered, which returned, and leaves what the callback left;
-- or it leaves the state as it was, and reports no success.
abbrev pub IsAtomic : {Db A : Type 0} → Db → Outcome A × Db → Outcome A × Db → Type 0
IsAtomic begun inner whole =
    ((whole ≡ inner) × (is_ok inner.0 ≡ true)) ⊎ ((whole.1 ≡ begun) × (is_ok whole.0 ≡ false))

module _ {Db A : Type 0} (session : Session Db) (laws : SessionLaws session) where
  rolled_back-IsAtomic :
      (r : Outcome A) (tx : Tx Db) (inner : Outcome A × Db)
      → is_ok r ≡ false
      → IsAtomic tx.committed inner (closed session (rolled_back session r tx))
  rolled_back-IsAtomic r tx inner h =
      inr (laws.close_lem (session.rollback tx) ∙ laws.rollback_lem tx, h)

  settle_commit-IsAtomic :
      (tx : Tx Db) (a : A) (r : Outcome (Unit {0}) × Tx Db)
      → session.commit tx ≡ r
      → IsAtomic tx.committed (ok a, tx.own) (closed session (settle_commit session a r))
  settle_commit-IsAtomic tx a (ok _, tx') h =
      inl (ap (λ db. (ok a, db)) (laws.close_lem tx' ∙ laws.commit_ok tx tx' h), refl)
  settle_commit-IsAtomic tx a (err e, tx') h =
      subst (λ db. IsAtomic db (ok a, tx.own) (closed session (rolled_back session (err e) tx')))
        (sym (ap (λ r. r.1.committed) h)
          ∙ laws.commit_failed tx (λ k. absurd (cc (sym (ap (λ r. r.0) h) ∙ k))))
        (rolled_back-IsAtomic (err e) tx' (ok a, tx.own) refl)
  settle_commit-IsAtomic tx a (panic, tx') h =
      subst (λ db. IsAtomic db (ok a, tx.own) (closed session (rolled_back session panic tx')))
        (sym (ap (λ r. r.1.committed) h)
          ∙ laws.commit_failed tx (λ k. absurd (cc (sym (ap (λ r. r.0) h) ∙ k))))
        (rolled_back-IsAtomic panic tx' (ok a, tx.own) refl)

  settle-IsAtomic :
      (r : Outcome A) (tx : Tx Db)
      → IsAtomic tx.committed (r, tx.own) (closed session (settle session r tx))
  settle-IsAtomic (ok a) tx = settle_commit-IsAtomic tx a (session.commit tx) refl
  settle-IsAtomic (err e) tx = rolled_back-IsAtomic (err e) tx (err e, tx.own) refl
  settle-IsAtomic panic tx = rolled_back-IsAtomic panic tx (panic, tx.own) refl

  when_begun-IsAtomic :
      (r : Outcome (Tx Db)) (fn : Act Db A) (db : Db)
      → session.begin db ≡ r
      → IsAtomic db (fn db) (when_begun session r fn db)
  when_begun-IsAtomic (ok tx) fn db h =
      let (same, own) = laws.begin_ok db tx h in
      let x = fn tx.own in
      let whole = closed session (settle session x.0 (record tx { own = x.1 })) in
      subst (λ c. IsAtomic c (fn db) whole) same
        (subst (λ d. IsAtomic tx.committed (fn d) whole) own
          (settle-IsAtomic x.0 (record tx { own = x.1 })))
  when_begun-IsAtomic (err e) fn db h = inr (refl, refl)
  when_begun-IsAtomic panic fn db h = inr (refl, refl)

  -- If the session meets the stated laws, a Transaction outside any other answers what its
  -- callback answered, which succeeded, and what the callback left to its session is committed, or
  -- it does not succeed, and the committed data is what it was before.
  pub transaction-IsAtomic :
      (fn : Bool → Act Db A) (db : Db) → IsAtomic db (fn true db) (transaction session false fn db)
  unfolding transaction
  transaction-IsAtomic fn db = when_begun-IsAtomic (session.begin db) (fn true) db refl

  -- A Transaction inside the callback of a Transaction joins it: the two run like one Transaction
  -- around both callbacks.
  pub transaction-transaction :
      {B : Type 0} (outer : Act Db B → Act Db A) (fn : Bool → Act Db B) (in_tx : Bool) (db : Db)
      → transaction session in_tx (λ tx. outer (transaction session tx fn)) db
        ≡ transaction session in_tx (λ _. outer (fn true)) db
  unfolding transaction
  transaction-transaction outer fn true db = refl
  transaction-transaction outer fn false db = refl

  -- A transaction that succeeded did what its callback did.
  pub transaction-eq-ok :
      (in_tx : Bool) (fn : Bool → Act Db A) (db : Db) {a : A} {db2 : Db}
      → transaction session in_tx fn db ≡ (ok a, db2)
      → fn true db ≡ (ok a, db2)
  unfolding transaction
  transaction-eq-ok true fn db h = h
  transaction-eq-ok false fn db h = elim (transaction-IsAtomic fn db) [
    | inl (same, _) ↦ sym same ∙ h
    | inr (_, failed) ↦ absurd (cc (failed, ap (λ r. is_ok r.0) h))
  ]
