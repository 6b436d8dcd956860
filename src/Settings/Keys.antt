-- ===== src/Settings/Keys.antt =====
-- Which settings can be deleted and created, and what GetValue makes of them.
use go_admin.Common.{
  ℕ, zero, suc, ◌≡◌, ◌⊎◌, inl, inr, sym, nat_beq_iff, none, refl, ap, Elem, Bool, true, false,
  Bytes, Option, some, ℤ, nat_eq, ◌==◌, contains, contains_iff, text_eq, if◌then◌else◌,
}
use mathlib.Core.Option.{some-injective}
use go_admin.Outcome.{new, Outcome, ok, err, panic, Act, ◌>>=◌, wrapped, reads}
use go_admin.Outcome.Laws.{>>=-eq-ok, wrapped-eq-ok}
use go_admin.Repository.Db.{Table}
use go_admin.Repository.Crud.{Model, run_count, find_by_id, delete_by_id}
use go_admin.Users.Model.{UserFinder}
use go_admin.Settings.Model.{SystemSetting, SettingRequest, SystemSettingResponse}
use go_admin.Settings.Values.{
  Converters, SettingValue, default_value, value_of, value_or_default, parse_bool, number_of,
  bool_of, as_text, as_json, as_int, as_float, as_bool, true_words, false_words,
}
use go_admin.Settings.Reads.{get_value}
use go_admin.Settings.Service.{
  core_setting_keys, validate_value, valid_bool, key_query, check_key_unique, none_counted,
  get_by_key, create_setting, insert_setting, delete_found, delete_setting,
}

module _ {Db : Type 0} (table : Table Db SystemSetting) (model : Model SystemSetting)
    (converters : Converters) (finder : UserFinder Db) where
  delete_found-eq-ok :
      (id : ℕ) (setting : SystemSetting) (db db' : Db)
      → delete_found table model converters finder id setting db ≡ (ok tt, db')
      → (¬ Elem setting.key core_setting_keys) × (delete_by_id table model id db ≡ (ok tt, db'))
  delete_found-eq-ok id setting db db' h = go (contains core_setting_keys setting.key) refl h
    where
      go :
          (b : Bool)
          → contains core_setting_keys setting.key ≡ b
          → (if b
              then (err (new "core setting cannot be deleted"), db)
              else wrapped "failed to delete system setting" (delete_by_id table model id) db)
            ≡ (ok tt, db')
          → (¬ Elem setting.key core_setting_keys) × (delete_by_id table model id db ≡ (ok tt, db'))
      go true e k = absurd (cc (ap (λ r. r.0) k))
      go false e k = (
        λ m. cc (e, (contains_iff core_setting_keys setting.key).1 m),
        wrapped-eq-ok "failed to delete system setting" (delete_by_id table model id) db k,
      )

  -- If the deletion of a setting succeeds, the setting with that id was found, its key is none of
  -- the core keys, and the row was deleted by its id.
  pub delete_setting-eq-ok :
      (id : ℕ) (db db' : Db)
      → delete_setting table model converters finder id db ≡ (ok tt, db')
      → (setting : SystemSetting) × (find_by_id table model id db ≡ ok setting)
        × (¬ Elem setting.key core_setting_keys)
        × (delete_by_id table model id db ≡ (ok tt, db'))
  unfolding delete_setting
  delete_setting-eq-ok id db db' h =
      let (setting, u, found, deleted) =
        >>=-eq-ok (wrapped "setting not found" (reads (find_by_id table model id)))
          (delete_found table model converters finder id) db h in
      let found' = wrapped-eq-ok "setting not found" (reads (find_by_id table model id)) db found in
      let same : db ≡ u = ap (λ r. r.1) found' in
      let (free, gone) = delete_found-eq-ok id setting u db' deleted in
      (setting, ap (λ r. r.0) found', free, rw same gone)

  new_key-free : (r : Outcome ℕ) → none_counted table model converters finder r ≡ ok tt → r ≡ ok 0
  new_key-free (ok zero) h = refl
  new_key-free (ok (suc n)) h = absurd (cc h)
  new_key-free (err e) h = absurd (cc h)
  new_key-free panic h = absurd (cc h)

  -- If the creation of a setting succeeds, the database counted no row with its key, and its value
  -- is valid for its type.
  pub create_setting-eq-ok :
      (req : SettingRequest) (create_by : ℕ) (db db' : Db) (response : SystemSettingResponse)
      → create_setting table model converters finder req create_by db ≡ (ok response, db')
      → (run_count table model (key_query table model converters finder req.key 0) db ≡ ok 0)
        × (validate_value table model converters finder req.kind req.value ≡ ok tt)
  unfolding create_setting
  create_setting-eq-ok req create_by db db' response h =
      let valid : Act Db (Unit {0}) =
        reads (λ _. validate_value table model converters finder req.kind req.value) in
      let (_, u, checked, rest) =
        >>=-eq-ok (reads (check_key_unique table model converters finder req.key 0))
          (λ _. valid >>= λ _. insert_setting table model converters finder req create_by) db h in
      let (_, v, validated, inserted) =
        >>=-eq-ok valid (λ _. insert_setting table model converters finder req create_by) u rest in
      let free : check_key_unique table model converters finder req.key 0 db ≡ ok tt =
        ap (λ r. r.0) checked in
      (new_key-free _ (unfold check_key_unique in free), ap (λ r. r.0) validated)

  -- What a text means for a type: itself, the number that Atoi or else ParseFloat reads in it, the
  -- Boolean that it is a word of, or the JSON value that it is the text of.
  abbrev pub Means : ℕ → Bytes → SettingValue → Type 0
  Means kind content v =
      ((kind ≡ 1) × (v ≡ as_text content))
      ⊎ (((kind ≡ 2) × (n : ℤ) × (converters.atoi content ≡ some n) × (v ≡ as_int n))
          ⊎ (((kind ≡ 2)
                × (converters.atoi content ≡ none)
                × (converters.is_float content ≡ true)
                × (v ≡ as_float content))
              ⊎ (((kind ≡ 3) × Elem content true_words × (v ≡ as_bool true))
                  ⊎ (((kind ≡ 3) × Elem content false_words × (v ≡ as_bool false))
                      ⊎ ((kind ≡ 4)
                          × (converters.is_json content ≡ true)
                          × (v ≡ as_json content))))))

  parse_bool-words :
      (content : Bytes) (b : Bool)
      → parse_bool content ≡ some b
      → (Elem content true_words × (b ≡ true)) ⊎ (Elem content false_words × (b ≡ false))
  unfolding parse_bool
  parse_bool-words content b h =
      let one = contains_iff true_words content in
      let two = contains_iff false_words content in
      go (contains true_words content) (contains false_words content) (λ e. one.0 e) (λ e. two.0 e)
        h
    where
      go :
          (c d : Bool)
          → (c ≡ true → Elem content true_words)
          → (d ≡ true → Elem content false_words)
          → (if c then some true else if d then some false else none) ≡ some b
          → (Elem content true_words × (b ≡ true)) ⊎ (Elem content false_words × (b ≡ false))
      go true d f g e = inl (f refl, sym (some-injective _ _ e))
      go false true f g e = inr (g refl, sym (some-injective _ _ e))
      go false false f g e = absurd (cc e)

  value_of-Means :
      (kind : ℕ) (content : Bytes)
      → validate_value table model converters finder kind content ≡ ok tt
      → Means kind content (value_of converters kind content)
  unfolding validate_value value_of
  value_of-Means kind content valid =
      go (kind == 1) (kind == 2) (kind == 3) (kind == 4) (converters.atoi content)
        (converters.is_float content) (parse_bool content) (converters.is_json content)
        (λ e. (nat_beq_iff kind 1).0 e) (λ e. (nat_beq_iff kind 2).0 e)
        (λ e. (nat_beq_iff kind 3).0 e) (λ e. (nat_beq_iff kind 4).0 e) refl refl
        (parse_bool-words content) refl valid
    where
      go :
          (a b c d : Bool) (n : Option ℤ) (f : Bool) (t : Option Bool) (j : Bool)
          → (a ≡ true → kind ≡ 1)
          → (b ≡ true → kind ≡ 2)
          → (c ≡ true → kind ≡ 3)
          → (d ≡ true → kind ≡ 4)
          → converters.atoi content ≡ n
          → converters.is_float content ≡ f
          → ((w : Bool)
              → t ≡ some w
              → (Elem content true_words × (w ≡ true)) ⊎ (Elem content false_words × (w ≡ false)))
          → converters.is_json content ≡ j
          → (if a
              then ok tt
              else if b
              then (if f then ok tt else err (new "invalid number value"))
              else if c
              then valid_bool table model converters finder t
              else if d
              then (if j then ok tt else err (new "invalid JSON value"))
              else err (new "invalid setting type"))
            ≡ ok tt
          → Means kind content (
              if a
              then as_text content
              else if b
              then number_of content f n
              else if c
              then bool_of t
              else if d
              then (if j then as_json content else default_value)
              else default_value)
      go true b c d n f t j k1 k2 k3 k4 en ef et ej e = inl (k1 refl, refl)
      go false true c d (some n) f t j k1 k2 k3 k4 en ef et ej e = inr (inl (k2 refl, n, en, refl))
      go false true c d none true t j k1 k2 k3 k4 en ef et ej e =
          inr (inr (inl (k2 refl, en, ef, refl)))
      go false true c d none false t j k1 k2 k3 k4 en ef et ej e = absurd (cc e)
      go false false true d n f none j k1 k2 k3 k4 en ef et ej e = absurd (cc e)
      go false false true d n f (some w) j k1 k2 k3 k4 en ef et ej e = elim (et w refl) [
        | inl (m, same) ↦ inr (inr (inr (inl (k3 refl, m, ap as_bool same))))
        | inr (m, same) ↦ inr (inr (inr (inr (inl (k3 refl, m, ap as_bool same)))))
      ]
      go false false false true n f t true k1 k2 k3 k4 en ef et ej e =
          inr (inr (inr (inr (inr (k4 refl, ej, refl)))))
      go false false false true n f t false k1 k2 k3 k4 en ef et ej e = absurd (cc e)
      go false false false false n f t j k1 k2 k3 k4 en ef et ej e = absurd (cc e)

  -- A value that validateValue accepts for a type is never answered with the default by GetValue:
  -- if the stored setting of a key has that type and value, GetValue answers with the text for a
  -- text; for a number with the integer that Atoi reads, and with what ParseFloat reads if Atoi
  -- fails; for a Boolean with true or false as the text is one of the words for it; and for JSON
  -- with the value of the text.
  pub get_value-Means :
      (key : Bytes) (setting : SystemSetting) (db : Db)
      → get_by_key table model converters finder key db ≡ ok (some setting)
      → validate_value table model converters finder setting.kind setting.value ≡ ok tt
      → (v : SettingValue) × (get_value table model converters finder key db ≡ ok v)
        × Means setting.kind setting.value v
  unfolding get_value
  get_value-Means key setting db found valid = (
    value_of converters setting.kind setting.value,
    ap (value_or_default converters) found,
    value_of-Means setting.kind setting.value valid,
  )
