-- ===== src/Tests/Tables.antt =====
-- One table of a database that is a list of rows, in the order of their insertion. It meets what
-- Repository/Crud/Laws and Iam/Model/Columns ask of the database.
use go_admin.Common.{
  ℕ, ◌≡◌, ◌≢◌, refl, sym, ap, subst, ◌∙◌, ◌↔◌, ◌⊎◌, Bool, false, ◌&&◌, ◌||◌, not, Option, none,
  some, List, [], ◌∷◌, ◌++◌, map, ℤ, pos, negsuc, length, take, drop, filter, contains, Elem,
  Elem-filter, Elem-append, if◌then◌else◌, ◌==◌, nat_eq, text_eq, nat_beq_iff, Bytes, bytes, arith,
}
use go_admin.Outcome.{Outcome, ok, err, panic}
use go_admin.Repository.Query.{
  Value, null, num, text, nums, texts, Cond, eq, neq, gt, lt, gte, lte, like, in_list, not_in, both,
  either,
}
use go_admin.Repository.Query.Meaning.{BuilderLaws, holds}
use go_admin.Repository.Db.{Tx, Session, Table}
use go_admin.Repository.Db.Atomic.{SessionLaws}
use go_admin.Repository.Crud.{Model}
use go_admin.Repository.Crud.Laws.{TableLaws, IsWindow}
use go_admin.Iam.Model.{UserRole, user_role_model}
use go_admin.Iam.Model.Columns.{IsColumn, UserRoleLaws}

module _ {T : Type 0} (attribute : Bytes → T → ℕ) where
  abbrev is_num : ℕ → Value → Bool
  is_num n (num m) = n == m
  is_num n null = false
  is_num n (text _) = false
  is_num n (nums _) = false
  is_num n (texts _) = false

  abbrev any_num : ℕ → List Value → Bool
  any_num n [] = false
  any_num n (v ∷ vs) = is_num n v || any_num n vs

  -- Conditions on columns of numbers.
  abbrev pub list_sat : Cond → T → Bool
  list_sat (eq c v) a = is_num (attribute c a) v
  list_sat (neq c v) a = not (is_num (attribute c a) v)
  list_sat (gt _ _) a = false
  list_sat (lt _ _) a = false
  list_sat (gte _ _) a = false
  list_sat (lte _ _) a = false
  list_sat (like _ _) a = false
  list_sat (in_list c vs) a = any_num (attribute c a) vs
  list_sat (not_in c vs) a = not (any_num (attribute c a) vs)
  list_sat (both x y) a = let p = list_sat x a in let q = list_sat y a in p && q
  list_sat (either x y) a = let p = list_sat x a in let q = list_sat y a in p || q

  abbrev pub builder_laws : BuilderLaws list_sat
  builder_laws = record { sat_both = λ x y a. refl; sat_either = λ x y a. refl }

  any_num-contains : (n : ℕ) (ns : List ℕ) → any_num n (map num ns) ≡ contains ns n
  unfolding contains
  any_num-contains n [] = refl
  any_num-contains n (m ∷ ns) = ground (arith, any_num-contains n ns)

  pub list-IsColumn :
      (column : Bytes) (field : T → ℕ)
      → ((a : T) → attribute column a ≡ field a)
      → IsColumn list_sat column field
  list-IsColumn column field h = record {
    sat_eq = λ n a. ap (λ m. m == n) (h a);
    sat_in = λ ns a. any_num-contains (attribute column a) ns ∙ ap (contains ns) (h a);
  }

module _ {T : Type 0} where
  abbrev pub window : Option (ℤ × ℤ) → List T → List T
  window none xs = xs
  window (some (pos n, pos o)) xs = take n (drop o xs)
  window (some (pos n, negsuc o)) xs = xs
  window (some (negsuc n, o)) xs = xs

  pub window-IsWindow :
      (l : Option (ℤ × ℤ)) (all xs : List T) → window l all ≡ xs → IsWindow l all xs
  window-IsWindow none all xs h = sym h
  window-IsWindow (some (pos n, pos o)) all xs h = sym h
  window-IsWindow (some (pos n, negsuc o)) all xs h = tt
  window-IsWindow (some (negsuc n, o)) all xs h = tt

module _ {T : Type 0} (attribute : Bytes → T → ℕ) (model : Model T) where
  abbrev pub selected : Option Cond → List T → List T
  selected c db = filter (holds (list_sat attribute) c) db

  abbrev pub deleted : Option Cond → T → List T → List T
  deleted none m db = filter (λ a. not (model.id_of a == model.id_of m)) db
  deleted (some c) m db = filter (λ a. not (list_sat attribute c a)) db

  abbrev pub list_table : Table (List T) T
  list_table = record {
    find = λ q db. ok (window q.limit (selected q.cond db));
    count = λ c db. ok (length (selected c db));
    insert = λ ms db. (ok ms, db ++ ms);
    update = λ id m db. (ok tt, db);
    delete = λ c m db. (ok tt, deleted c m db);
  }

  pub deleted-elem :
      (c : Option Cond) (m : T) (db : List T)
      → c ≢ none
      → (a : T) → Elem a (deleted c m db) ↔ (Elem a db × (holds (list_sat attribute) c a ≡ false))
  deleted-elem none m db n a = absurd (n refl)
  deleted-elem (some c) m db n a =
      ground (arith, Elem-filter (λ b. not (list_sat attribute c b)) a db)

  abbrev pub list_table-TableLaws :
      ((id : ℕ) → model.id_of (model.set_id id model.blank) ≡ id)
      → TableLaws list_table model (λ db. db) (list_sat attribute)
  list_table-TableLaws set = record {
    builder = builder_laws attribute;
    arranged = λ q db. selected q.cond db;
    arranged_elem = λ q db a. Elem-filter (holds (list_sat attribute) q.cond) a db;
    length-arranged = λ q db. refl;
    find_ok = λ q db xs h. window-IsWindow q.limit (selected q.cond db) xs (cc h);
    count_ok = λ c db n h. cc h;
    erase = λ a. a;
    insert_ok = λ ms ms' db db' h.
        let same : ms ≡ ms' = cc h in
        let left : db ++ ms ≡ db' = ap (λ r. r.1) h in
        (
          ap (map (λ a. a)) (sym same),
          λ a.
              subst (λ d. Elem a d ↔ (Elem a db ⊎ Elem a ms')) left
                (subst (λ l. Elem a (db ++ l) ↔ (Elem a db ⊎ Elem a ms')) (sym same)
                  (Elem-append a db ms')),
        );
    delete_ok = λ c db db' n h a.
        subst (λ d. Elem a d ↔ (Elem a db × (holds (list_sat attribute) c a ≡ false)))
          (ap (λ r. r.1) h) (deleted-elem c model.blank db n a);
    delete_id_ok = λ id db db' n h a.
        let left : deleted none (model.set_id id model.blank) db ≡ db' = ap (λ r. r.1) h in
        subst (λ d. Elem a d ↔ (Elem a db × (model.id_of a ≢ id))) left
          (subst
            (λ i.
              Elem a (filter (λ b. not (model.id_of b == i)) db)
              ↔ (Elem a db × (model.id_of a ≢ id)))
            (sym (set id))
            (ground (
              arith,
              Elem-filter (λ b. not (model.id_of b == id)) a db,
              nat_beq_iff (model.id_of a) id,
            )));
  }

-- The columns of user_role.
abbrev pub user_role_attribute : Bytes → UserRole → ℕ
user_role_attribute c a =
    if c == bytes "`user_id`" then a.user_id else if c == bytes "`role_id`" then a.role_id else a.id

abbrev pub user_roles : Table (List UserRole) UserRole
user_roles = list_table user_role_attribute user_role_model

abbrev pub user_role_sat : Cond → UserRole → Bool
user_role_sat = list_sat user_role_attribute

abbrev pub user_roles-TableLaws : TableLaws user_roles user_role_model (λ db. db) user_role_sat
user_roles-TableLaws = list_table-TableLaws user_role_attribute user_role_model (λ id. refl)

pub user_roles-UserRoleLaws : UserRoleLaws user_roles (λ db. db) user_role_sat
user_roles-UserRoleLaws = record {
  table_laws = user_roles-TableLaws;
  user_column = list-IsColumn user_role_attribute (bytes "`user_id`") (λ r. r.user_id) (λ a. refl);
  role_column = list-IsColumn user_role_attribute (bytes "`role_id`") (λ r. r.role_id) (λ a. refl);
  erase_id = λ a b h. (ap (λ r. r.user_id) h, ap (λ r. r.role_id) h);
}

-- A session whose own data is apart from the committed data until Commit.
abbrev pub plain_session : {Db : Type 0} → Session Db
plain_session = record {
  begin = λ db. ok (record { committed = db; own = db });
  commit = λ tx. (ok tt, record tx { committed = tx.own });
  rollback = λ tx. record tx { own = tx.committed };
  close = λ tx. tx.committed;
}

abbrev tx_of : {Db : Type 0} → Tx Db → Outcome (Tx Db) → Tx Db
tx_of tx (ok tx') = tx'
tx_of tx (err e) = tx
tx_of tx panic = tx

pub plain_session-SessionLaws : {Db : Type 0} → SessionLaws {Db = Db} plain_session
plain_session-SessionLaws = record {
  begin_ok = λ db tx h.
      let same = ap (tx_of tx) h in (sym (ap (λ t. t.committed) same), sym (ap (λ t. t.own) same));
  commit_ok = λ tx tx' h. sym (ap (λ r. r.1.committed) h);
  commit_failed = λ tx h. absurd (h refl);
  rollback_lem = λ tx. refl;
  close_lem = λ tx. refl;
}
