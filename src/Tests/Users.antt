-- ===== src/Tests/Users.antt =====
-- internal/modules/user on a table of users in memory, with the Argon2Hasher over plain libraries.
use go_admin.Common.{
  ℕ, ◌≡◌, ◌≢◌, refl, ap, sym, ◌∙◌, subst, true, map, Elem-map, Elem_of_map, nat_eq, nat_beq_iff,
  arith, none, List, [], ◌∷◌, Bytes, bytes, if◌then◌else◌, ◌==◌, text_eq, Elem, filter,
}
use go_admin.Outcome.{Outcome, ok, err, panic, new, ◌>>=◌, wrapped}
use go_admin.Repository.Quote.{quote_ident}
use go_admin.Repository.Query.{condition_to_cond}
use go_admin.Repository.Db.{Table, wrap_db_err}
use go_admin.Repository.Crud.{create, update, find_by_id, find_one, run_find}
use go_admin.Repository.Crud.Laws.{TableLaws}
use go_admin.Users.Model.{
  User, user_model, blank_user, fields_of_user, CreateUserRequest, UpdateUserRequest,
}
use go_admin.Users.Service.{
  UserCopier, find_user, create_user, update_user, with_password, verify_password,
}
use go_admin.Users.Passwords.{HasPassword, UpdateLaws, IsStored}
use go_admin.Users.Argon2.{create_user-verify_password, update_user-IsStored}
use go_admin.Crypter.{PasswordHasher, new_argon2_hasher, hash, password_hasher}
use go_admin.Tests.Hashes.{plain_library, plain_library-LibraryLaws}
use go_admin.Tests.Tables.{list_table, list_sat, list_table-TableLaws}

abbrev user_attribute : Bytes → User → ℕ
user_attribute c u = if c == bytes "`status`" then u.status else u.id

-- The fields that an update writes, of those that the tests look at.
abbrev overwritten : ℕ → User → User → User
overwritten id m u =
    if u.id == id
    then record u {
      username = if m.username == [] then u.username else m.username;
      password_hash = if m.password_hash == [] then u.password_hash else m.password_hash;
    }
    else u

abbrev users : Table (List User) User
users = record (list_table user_attribute user_model) {
  update = λ id m db. (ok tt, map (overwritten id m) db);
}

abbrev users-TableLaws : TableLaws users user_model (λ db. db) (list_sat user_attribute)
users-TableLaws =
    let laws = list_table-TableLaws user_attribute user_model (λ id. refl) in
    record {
      builder = laws.builder;
      arranged = laws.arranged;
      arranged_elem = laws.arranged_elem;
      length-arranged = laws.length-arranged;
      find_ok = laws.find_ok;
      count_ok = laws.count_ok;
      erase = laws.erase;
      insert_ok = laws.insert_ok;
      delete_ok = laws.delete_ok;
      delete_id_ok = laws.delete_id_ok;
    }

id-overwritten : (id : ℕ) (m u : User) → (overwritten id m u).id ≡ u.id
id-overwritten id m u = ground arith

other-overwritten : (id : ℕ) (m u : User) → (overwritten id m u).id ≢ id → overwritten id m u ≡ u
other-overwritten id m u h = ground (arith, nat_beq_iff u.id id)

hash-overwritten :
    (id : ℕ) (m u : User)
    → u.id ≡ id
    → (overwritten id m u).password_hash
      ≡ (if m.password_hash == [] then u.password_hash else m.password_hash)
hash-overwritten id m u h = rw ((nat_beq_iff u.id id).1 h) refl

users-UpdateLaws : UpdateLaws users (λ db. db)
users-UpdateLaws = record {
  written = λ id m db db' h row r k.
      let there = subst (λ d. Elem row d) (sym (ap (λ x. x.1) h)) r in
      let (old, o, e) = Elem_of_map (overwritten id m) row db there in
      let same : old.id ≡ id = sym (id-overwritten id m old) ∙ ap (λ u. u.id) (sym e) ∙ k in
      (old, o, same, ap (λ u. u.password_hash) e ∙ hash-overwritten id m old same);
  still_there = λ id m db db' h old o k. (
    overwritten id m old,
    subst (λ d. Elem (overwritten id m old) d) (ap (λ x. x.1) h)
        (Elem-map (overwritten id m) old db o),
    id-overwritten id m old ∙ k,
  );
  others_kept = λ id m db db' h row other. (
    λ r.
        let there = subst (λ d. Elem row d) (sym (ap (λ x. x.1) h)) r in
        let (old, o, e) = Elem_of_map (overwritten id m) row db there in
        let same = e ∙ other-overwritten id m old (λ k. other (ap (λ u. u.id) e ∙ k)) in
        subst (λ u. Elem u db) (sym same) o,
    λ o.
        let there = Elem-map (overwritten id m) row db o in
        let same = other-overwritten id m row (λ k. other (sym (id-overwritten id m row) ∙ k)) in
        subst (λ d. Elem row d) (ap (λ x. x.1) h)
          (subst (λ u. Elem u (map (overwritten id m) db)) same there),
  );
}

abbrev hasher : PasswordHasher
hasher = password_hasher plain_library new_argon2_hasher

abbrev plain_copier : UserCopier
plain_copier = record {
  create_user = λ req. ok (record blank_user {
    username = req.username;
    email = req.email;
    phone = req.phone;
    avatar_url = req.avatar_url;
    status = req.status;
  });
  update_user = λ req u. ok (record u {
    username = req.username;
    email = req.email;
    phone = req.phone;
    avatar_url = req.avatar_url;
    status = req.status;
  });
  user_response = λ u. err (new "unused");
}

abbrev hash_of : Outcome User → Bytes
hash_of (ok u) = u.password_hash
hash_of (err _) = []
hash_of panic = []

copies_no_hash :
    (req : UpdateUserRequest) (a b : User)
    → plain_copier.update_user req a ≡ ok b
    → b.password_hash ≡ a.password_hash
copies_no_hash req a b h = ap hash_of (sym h)

abbrev with_hash : Outcome Bytes → User → User
with_hash (ok t) u = record u { password_hash = t }
with_hash (err _) u = u
with_hash panic u = u

abbrev anna : User
unfolding hash
anna =
    with_hash (hash plain_library new_argon2_hasher 7 (bytes "secret"))
      (record blank_user { id = 0; username = bytes "anna"; status = 1 })

abbrev anna_request : CreateUserRequest
anna_request = record {
  username = bytes "anna";
  password = bytes "secret";
  email = [];
  phone = [];
  avatar_url = [];
  role_ids = 1 ∷ [];
  status = 1;
}

creates_anna : create_user users hasher plain_copier 7 anna_request [] ≡ (ok anna, anna ∷ [])
unfolding create_user create ◌>>=◌ wrapped wrap_db_err password_hasher hash
creates_anna = refl

create_user-verify_password_example :
    Elem anna (anna ∷ []) × (verify_password users hasher anna (bytes "secret") ≡ true)
create_user-verify_password_example =
    create_user-verify_password plain_library plain_library-LibraryLaws new_argon2_hasher
      (omega arith, omega arith, omega arith, omega arith) users (λ db. db)
      (list_sat user_attribute) users-TableLaws (λ a b h. ap (λ u. u.password_hash) h) plain_copier
      7 anna_request [] (anna ∷ []) anna creates_anna

abbrev new_password : UpdateUserRequest
new_password = record {
  id = 0;
  username = bytes "anne";
  password = bytes "secret2";
  email = [];
  phone = [];
  avatar_url = [];
  role_ids = none;
  status = 1;
}

abbrev anne : User
unfolding hash
anne =
    with_hash (hash plain_library new_argon2_hasher 8 (bytes "secret2"))
      (record blank_user { id = 0; username = bytes "anne"; status = 1 })

updates_anna :
    update_user users hasher plain_copier 8 new_password (anna ∷ []) ≡ (ok anne, anne ∷ [])
unfolding update_user find_user find_by_id find_one run_find with_password update ◌>>=◌ wrapped
    wrap_db_err fields_of_user filter condition_to_cond quote_ident password_hasher hash
updates_anna = refl

update_user-IsStored_example :
    (old : User) × (find_user users hasher 0 (anna ∷ []) ≡ ok old)
    × HasPassword hasher (bytes "secret2") old anne
    × IsStored (λ db. db) hasher (bytes "secret2") old anne.id (anna ∷ []) (anne ∷ [])
update_user-IsStored_example =
    update_user-IsStored plain_library plain_library-LibraryLaws new_argon2_hasher
      (omega arith, omega arith, omega arith, omega arith) users (λ db. db) users-UpdateLaws
      plain_copier copies_no_hash 8 new_password (anna ∷ []) (anne ∷ []) anne updates_anna
