-- ===== src/Users/Passwords.antt =====
-- internal/modules/user/service/user_service.go: the passwords of users that are created and updated.
use go_admin.Common.{
  ℕ, ◌≡◌, ◌≢◌, ◌↔◌, refl, ◌==◌, text_eq, list_beq_iff, if◌then◌else◌, sym, ap, subst, ◌∙◌, inl, inr,
  Bool, true, List, [], ◌∷◌, map, Bytes, Elem, arith,
}
use go_admin.Outcome.{Outcome, ok, err, panic, ◌>>=◌, wrapped, pure, reads}
use go_admin.Outcome.Laws.{>>=-eq-ok, wrapped-eq-ok}
use go_admin.Repository.Query.{Cond}
use go_admin.Repository.Db.{Table, wrap_db_err}
use go_admin.Repository.Crud.{create, update, only_row, inserted_row}
use go_admin.Repository.Crud.Laws.{TableLaws}
use go_admin.Repository.Crud.Statements.{wrap_db_err-eq-ok}
use go_admin.Crypter.{PasswordHasher}
use go_admin.Crypter.Hashes.{IsFaithful}
use go_admin.Users.Model.{User, user_model, CreateUserRequest, UpdateUserRequest}
use go_admin.Users.Service.{
  UserCopier, find_user, verify_password, create_user, with_password, update_user,
}

module _ {Db : Type 0} (table : Table Db User) (rows : Db → List User) (sat : Cond → User → Bool)
    (laws : TableLaws table user_model rows sat)
    (erase_hash : (a b : User)
      → laws.erase a ≡ laws.erase b
      → a.password_hash ≡ b.password_hash) where
  only_row-elem :
      (u : User) (us : List User)
      → map laws.erase us ≡ laws.erase u ∷ []
      → Elem (only_row table user_model u us) us
        × ((only_row table user_model u us).password_hash ≡ u.password_hash)
  only_row-elem u [] h = absurd (cc h)
  only_row-elem u (x ∷ xs) h = (inl refl, erase_hash x u (ap (λ l. first_or l (laws.erase u)) h))
    where
      first_or : List User → User → User
      first_or [] d = d
      first_or (y ∷ ys) d = y

  -- Create of the repository: the row that it returns is in the table, with the hash that it was given.
  create-elem :
      (u v : User) (db db' : Db)
      → create table user_model u db ≡ (ok v, db')
      → Elem v (rows db') × (v.password_hash ≡ u.password_hash)
  unfolding create
  create-elem u v db db' h = go (table.insert (u ∷ []) db) refl h
    where
      go :
          (r : Outcome (List User) × Db)
          → table.insert (u ∷ []) db ≡ r
          → ◌≡◌ {A = Outcome User × Db}
              (wrap_db_err "repository Create" (inserted_row table user_model u r.0), r.1)
              (ok v, db')
          → Elem v (rows db') × (v.password_hash ≡ u.password_hash)
      go (ok us, d) e k =
          let (same, elems) = laws.insert_ok (u ∷ []) us db d e in
          let (m, hash) = only_row-elem u us same in
          let row : only_row table user_model u us ≡ v = ground (arith, ap (λ r. r.0) k) in
          let left : d ≡ db' = ap (λ r. r.1) k in
          (
            subst (λ x. Elem v (rows x)) left ((elems v).1 (inr (subst (λ x. Elem x us) row m))),
            ap (λ x. x.password_hash) (sym row) ∙ hash,
          )
      go (err x, d) e k =
          absurd (cc (wrap_db_err-eq-ok "repository Create" (err x) (ap (λ r. r.0) k)))
      go (panic, d) e k =
          absurd (cc (wrap_db_err-eq-ok "repository Create" panic (ap (λ r. r.0) k)))

  pub create_user-IsFaithful :
      (hasher : PasswordHasher) (copier : UserCopier) (random : ℕ) (req : CreateUserRequest)
      (db db' : Db) (u : User)
      → IsFaithful hasher
      → create_user table hasher copier random req db ≡ (ok u, db')
      → Elem u (rows db') × (verify_password table hasher u req.password ≡ true)
  unfolding create_user verify_password
  create_user-IsFaithful hasher copier random req db db' u faithful h =
      let store = λ (c : User) (hashed : Bytes).
        wrapped {S = Db} "failed to create user"
          (create table user_model (record c { password_hash = hashed })) in
      let hashing =
        wrapped {S = Db} "failed to hash password" (reads (λ _. hasher.hash random req.password)) in
      let (copied, db1, e1, h1) =
        >>=-eq-ok
          (wrapped {S = Db} "failed to copy request to user" (reads (λ _. copier.create_user req)))
          (λ c. hashing >>= store c) db h in
      let (hashed, db2, e2, h2) = >>=-eq-ok hashing (store copied) db1 h1 in
      let made : hasher.hash random req.password ≡ ok hashed =
        ap (λ r. r.0)
          (wrapped-eq-ok "failed to hash password" (reads (λ _. hasher.hash random req.password))
            db1 e2) in
      let (stored, same) =
        create-elem (record copied { password_hash = hashed }) u db2 db'
          (wrapped-eq-ok "failed to create user"
            (create table user_model (record copied { password_hash = hashed })) db2 h2) in
      (
        stored,
        subst (λ x. hasher.verify req.password x ≡ true) (sym same)
            (faithful random req.password hashed made).0,
      )

-- What Update makes of the hash: kept under an empty password, else a hash of the new one.
abbrev pub HasPassword : PasswordHasher → Bytes → User → User → Type 0
HasPassword hasher [] old u = u.password_hash ≡ old.password_hash
HasPassword hasher (c ∷ plain) old u =
    (hasher.verify (c ∷ plain) u.password_hash ≡ true) × (u.password_hash ≢ [])

-- What the code relies on in xorm's session.ID(id).Update(bean): it writes the fields of the bean that
-- are not zero to the rows with that id, and leaves all others alone.
pub record UpdateLaws {Db : Type 0} (table : Table Db User) (rows : Db → List User) : Type 0 where
  pub written :
      (id : ℕ) (m : User) (db db' : Db)
      → table.update id m db ≡ (ok tt, db')
      → (row : User) → Elem row (rows db')
      → row.id ≡ id
      → (old : User) × Elem old (rows db)
        × (old.id ≡ id)
        × (row.password_hash
            ≡ (if m.password_hash == [] then old.password_hash else m.password_hash))
  pub still_there :
      (id : ℕ) (m : User) (db db' : Db)
      → table.update id m db ≡ (ok tt, db')
      → (old : User) → Elem old (rows db)
      → old.id ≡ id
      → (row : User) × Elem row (rows db') × (row.id ≡ id)
  pub others_kept :
      (id : ℕ) (m : User) (db db' : Db)
      → table.update id m db ≡ (ok tt, db')
      → (row : User) → row.id ≢ id
      → Elem row (rows db') ↔ Elem row (rows db)

module _ {Db : Type 0} (rows : Db → List User) (hasher : PasswordHasher) where
  -- A row of an updated user: the new password is verified, or, under an empty one, the hash is that
  -- of the user found, or that of a row with the id if the user found had none.
  abbrev pub IsWritten : Bytes → User → Db → User → Type 0
  IsWritten [] old db row =
      (x : User) × Elem x (rows db)
      × (x.id ≡ row.id)
      × (row.password_hash
          ≡ (if old.password_hash == [] then x.password_hash else old.password_hash))
  IsWritten (c ∷ plain) old db row = hasher.verify (c ∷ plain) row.password_hash ≡ true

  -- What an update of the user with an id does to the rows.
  abbrev pub IsStored : Bytes → User → ℕ → Db → Db → Type 0
  IsStored plain old id db db' =
      ((row : User) → Elem row (rows db') → row.id ≡ id → IsWritten plain old db row)
      × ((x : User)
          → Elem x (rows db)
          → x.id ≡ id
          → (row : User) × Elem row (rows db') × (row.id ≡ id))
      × ((row : User) → row.id ≢ id → Elem row (rows db') ↔ Elem row (rows db))

module _ {Db : Type 0} (table : Table Db User) (rows : Db → List User)
    (update_laws : UpdateLaws table rows) (hasher : PasswordHasher) (copier : UserCopier)
    (faithful : IsFaithful hasher)
    (copy_hash : (req : UpdateUserRequest) (a b : User)
      → copier.update_user req a ≡ ok b
      → b.password_hash ≡ a.password_hash) where
  with_password-HasPassword :
      (random : ℕ) (plain : Bytes) (old a b : User) (db db' : Db)
      → a.password_hash ≡ old.password_hash
      → with_password table hasher copier random plain a db ≡ (ok b, db')
      → HasPassword hasher plain old b × (db ≡ db')
  unfolding with_password
  with_password-HasPassword random [] old a b db db' same h =
      let e : a ≡ b = ground (arith, ap (λ r. r.0) h) in
      (ap (λ x. x.password_hash) (sym e) ∙ same, ap (λ r. r.1) h)
  with_password-HasPassword random (c ∷ plain) old a b db db' same h =
      let draw = reads {S = Db} (λ _. hasher.hash random (c ∷ plain)) in
      let (hashed, db1, e1, h1) =
        >>=-eq-ok (wrapped "failed to hash password" draw)
          (λ x. pure (record a { password_hash = x })) db h in
      let made = wrapped-eq-ok "failed to hash password" draw db e1 in
      let e : record a { password_hash = hashed } ≡ b = ground (arith, ap (λ r. r.0) h1) in
      (
        subst (λ x. (hasher.verify (c ∷ plain) x.password_hash ≡ true) × (x.password_hash ≢ [])) e
            (faithful random (c ∷ plain) hashed (ap (λ r. r.0) made)),
        ap (λ r. r.1) made ∙ ap (λ r. r.1) h1,
      )

  update-eq-ok :
      (m : User) (x : Unit {0}) (db db' : Db)
      → update table user_model m db ≡ (ok x, db')
      → table.update m.id m db ≡ (ok tt, db')
  unfolding update
  update-eq-ok m x db db' h =
      let left =
        wrap_db_err-eq-ok "repository Update" (table.update m.id m db).0 (ap (λ r. r.0) h) in
      ap (λ o. (o, (table.update m.id m db).1)) left ∙ ap (λ d. (ok tt, d)) (ap (λ r. r.1) h)

  update-IsStored :
      (plain : Bytes) (old m : User) (db db' : Db)
      → HasPassword hasher plain old m
      → table.update m.id m db ≡ (ok tt, db')
      → IsStored rows hasher plain old m.id db db'
  update-IsStored plain old m db db' has e = (
    write plain has,
    update_laws.still_there m.id m db db' e,
    update_laws.others_kept m.id m db db' e,
  )
    where
      write :
          (plain : Bytes)
          → HasPassword hasher plain old m
          → (row : User) → Elem row (rows db')
          → row.id ≡ m.id
          → IsWritten rows hasher plain old db row
      write [] has row r k =
          let (x, there, id, hash) = update_laws.written m.id m db db' e row r k in
          (
            x,
            there,
            id ∙ sym k,
            subst (λ t. row.password_hash ≡ (if t == [] then x.password_hash else t)) has hash,
          )
      write (c ∷ plain) (verifies, full) row r k =
          let (x, there, id, hash) = update_laws.written m.id m db db' e row r k in
          let taken : row.password_hash ≡ m.password_hash =
            ground (arith, hash, full, list_beq_iff m.password_hash []) in
          subst (λ t. hasher.verify (c ∷ plain) t ≡ true) (sym taken) verifies

  pub update_user-IsFaithful :
      (random : ℕ) (req : UpdateUserRequest) (db db' : Db) (u : User)
      → update_user table hasher copier random req db ≡ (ok u, db')
      → (old : User) × (find_user table hasher req.id db ≡ ok old)
        × HasPassword hasher req.password old u
        × IsStored rows hasher req.password old u.id db db'
  unfolding update_user
  update_user-IsFaithful random req db db' u h =
      let finding = reads {S = Db} (find_user table hasher req.id) in
      let copying = λ (old : User). reads {S = Db} (λ _. copier.update_user req old) in
      let saving =
        λ (v : User). wrapped "failed to update user" (update table user_model v) >>= λ _. pure v in
      let setting =
        λ (a : User). with_password table hasher copier random req.password a >>= saving in
      let (old, db1, e1, h1) =
        >>=-eq-ok (wrapped "failed to retrieve user" finding)
          (λ x. wrapped "failed to copy request to user" (copying x) >>= setting) db h in
      let (a, db2, e2, h2) =
        >>=-eq-ok (wrapped "failed to copy request to user" (copying old)) setting db1 h1 in
      let (b, db3, e3, h3) =
        >>=-eq-ok (with_password table hasher copier random req.password a) saving db2 h2 in
      let (x, db4, e4, h4) =
        >>=-eq-ok (wrapped "failed to update user" (update table user_model b)) (λ _. pure b) db3
          h3 in
      let found = wrapped-eq-ok "failed to retrieve user" finding db e1 in
      let copied = wrapped-eq-ok "failed to copy request to user" (copying old) db1 e2 in
      let (has, kept) =
        with_password-HasPassword random req.password old a b db2 db3
          (copy_hash req old a (ap (λ r. r.0) copied)) e3 in
      let stored = update-IsStored req.password old b db3 db4 has (
        update-eq-ok b x db3 db4
          (wrapped-eq-ok "failed to update user" (update table user_model b) db3 e4)) in
      let same : b ≡ u = ground (arith, ap (λ r. r.0) h4) in
      let before : db3 ≡ db = sym (ap (λ r. r.1) found ∙ ap (λ r. r.1) copied ∙ kept) in
      (
        old,
        ap (λ r. r.0) found,
        subst (HasPassword hasher req.password old) same has,
        subst (λ d. IsStored rows hasher req.password old u.id d db') before
            (subst (λ d. IsStored rows hasher req.password old u.id db3 d) (ap (λ r. r.1) h4)
              (subst (λ v. IsStored rows hasher req.password old v.id db3 db4) same stored)),
      )
