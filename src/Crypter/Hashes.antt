-- ===== src/Crypter/Hashes.antt =====
-- What Argon2Hasher of pkg/crypter/argon2_hasher.go makes of its own hashes.
use go_admin.Common.{
  ℕ, ◌%◌, ◌<◌, ◌≡◌, ◌≢◌, refl, ap, sym, ◌∙◌, true, ◌⊎◌, inl, inr, [], ◌∷◌, ◌++◌, Bytes, bytes,
  length, split, ◌==◌, text_eq, nat_eq, nat_beq_iff, list_beq_iff, All, arith,
}
use go_admin.Outcome.{Error, Outcome, ok, err, panic}
use go_admin.Crypter.{
  PasswordHasher, Argon2Hasher, Argon2Params, Library, version_text, params_text, hash_text,
  params_of, key_of, with_salt, hash, of_parts, decode_argon2_hash, matches, verify,
  password_hasher,
}

abbrev AreBytes : Bytes → Type 0
AreBytes = All (λ c. c < 256)

-- No dollar sign in it.
abbrev pub IsSegment : Bytes → Type 0
IsSegment = All (λ c. c ≢ b'$')

-- What is documented of the libraries: rand.Read and IDKey give bytes, IDKey as many as it is asked
-- for; base64 decodes what it encoded, in an alphabet without the dollar sign; %d prints no dollar
-- sign, and Sscanf reads the numbers that Sprintf printed with the same format, where they fit.
pub record LibraryLaws (lib : Library) : Type 0 where
  pub read_random-bytes :
      (draw n : ℕ) (salt : Bytes) → lib.read_random draw n ≡ inr salt → AreBytes salt
  pub id_key-bytes : (plain salt : Bytes) (t m p n : ℕ) → AreBytes (lib.id_key plain salt t m p n)
  pub length-id_key :
      (plain salt : Bytes) (t m p n : ℕ) → length (lib.id_key plain salt t m p n) ≡ n
  pub version_fits : lib.version < 9223372036854775808
  pub decode-encode : (b : Bytes) → AreBytes b → lib.decode_string (lib.encode_to_string b) ≡ inr b
  pub encode-IsSegment : (b : Bytes) → IsSegment (lib.encode_to_string b)
  pub print-IsSegment : (n : ℕ) → IsSegment (lib.print_decimal n)
  pub scan_version_lem :
      (v : ℕ) → v < 9223372036854775808 → lib.scan_version (version_text lib v) ≡ inr v
  pub scan_params_lem :
      (p : Argon2Params)
      → p.memory < 4294967296
      → p.iterations < 4294967296
      → p.parallelism < 256
      → lib.scan_params (params_text lib p) ≡ inr p

-- The numbers of a hasher are of the types of its fields.
abbrev pub Fits : Argon2Hasher → Type 0
Fits h =
    (h.memory < 4294967296)
    × (h.iterations < 4294967296)
    × (h.parallelism < 256)
    × (h.key_length < 4294967296)

-- strings.Split of a segment and of what is behind it.
split-segment :
    (w rest : Bytes) → IsSegment w → split b'$' (w ++ (b'$' ∷ rest)) ≡ w ∷ split b'$' rest
split-segment [] rest h = refl
split-segment (c ∷ w) rest h =
    rw (split-segment w rest h.1) (ground (arith, h.0, nat_beq_iff c b'$'))

split_last : (w : Bytes) → IsSegment w → split b'$' w ≡ w ∷ []
split_last [] h = refl
split_last (c ∷ w) h = rw (split_last w h.1) (ground (arith, h.0, nat_beq_iff c b'$'))

append-IsSegment : (v w : Bytes) → IsSegment v → IsSegment w → IsSegment (v ++ w)
append-IsSegment [] w h k = k
append-IsSegment (c ∷ v) w h k = (h.0, append-IsSegment v w h.1 k)

-- A hash is not empty and verifies the text that it was made of.
abbrev pub IsFaithful : PasswordHasher → Type 0
IsFaithful hasher =
    (draw : ℕ) (plain s : Bytes)
    → hasher.hash draw plain ≡ ok s
    → (hasher.verify plain s ≡ true) × (s ≢ [])

module _ (lib : Library) (laws : LibraryLaws lib) where
  params_text-IsSegment : (p : Argon2Params) → IsSegment (params_text lib p)
  params_text-IsSegment p = append-IsSegment (bytes "m=") _ (ground arith) (
      append-IsSegment (lib.print_decimal p.memory) _ (laws.print-IsSegment p.memory) (
        append-IsSegment (bytes ",t=") _ (ground arith) (
          append-IsSegment (lib.print_decimal p.iterations) _ (laws.print-IsSegment p.iterations) (
            append-IsSegment (bytes ",p=") _ (ground arith) (laws.print-IsSegment p.parallelism)))))

  split-hash_text :
      (p : Argon2Params) (salt sum : Bytes)
      → split b'$' (hash_text lib p salt sum)
        ≡ []
          ∷ bytes "argon2id"
          ∷ version_text lib lib.version
          ∷ params_text lib p
          ∷ lib.encode_to_string salt
          ∷ lib.encode_to_string sum
          ∷ []
  split-hash_text p salt sum =
      let front : IsSegment (bytes "v=") = ground arith in
      let name : IsSegment (bytes "argon2id") = ground arith in
      let last = lib.encode_to_string sum in
      let behind_params = lib.encode_to_string salt ++ (b'$' ∷ last) in
      let with_params = params_text lib p ++ (b'$' ∷ behind_params) in
      let with_version = version_text lib lib.version ++ (b'$' ∷ with_params) in
      let version =
        append-IsSegment (bytes "v=") (lib.print_decimal lib.version) front
          (laws.print-IsSegment lib.version) in
      rw (split-segment (bytes "argon2id") with_version name) (
        rw (split-segment (version_text lib lib.version) with_params version) (
          rw (split-segment (params_text lib p) behind_params (params_text-IsSegment p)) (
            rw (split-segment (lib.encode_to_string salt) last (laws.encode-IsSegment salt))
              (rw (split_last last (laws.encode-IsSegment sum)) refl))))

  -- decodeArgon2Hash reads off a hash what it was made of.
  decode-hash_text :
      (p : Argon2Params) (salt sum : Bytes)
      → p.memory < 4294967296
      → p.iterations < 4294967296
      → p.parallelism < 256
      → AreBytes salt
      → AreBytes sum
      → decode_argon2_hash lib (hash_text lib p salt sum) ≡ inr (p, salt, sum)
  unfolding decode_argon2_hash
  decode-hash_text p salt sum m t n a b =
      ap (of_parts lib) (split-hash_text p salt sum)
      ∙ rw (laws.scan_version_lem lib.version laws.version_fits) (
          rw ((nat_beq_iff lib.version lib.version).1 refl) (
            rw (laws.scan_params_lem p m t n)
              (rw (laws.decode-encode salt a) (rw (laws.decode-encode sum b) refl))))

  -- Over libraries that meet the stated laws, and with numbers that fit their fields: a hash that
  -- Hash returns is not empty and holds a salt drawn at random; Verify, of any hasher, takes a
  -- password for it exactly if IDKey gives the same key for it as for the one hashed, under that
  -- salt and the parameters of the hasher that made it.
  pub verify-hash :
      (h : Argon2Hasher) (draw : ℕ) (plain s : Bytes)
      → Fits h
      → hash lib h draw plain ≡ ok s
      → (salt : Bytes) × (lib.read_random draw h.salt_length ≡ inr salt)
        × (s ≢ [])
        × ((other : Bytes)
            → verify lib other s ≡ (
                key_of lib (params_of lib h) h.key_length other salt
                == key_of lib (params_of lib h) h.key_length plain salt))
  unfolding hash verify
  verify-hash h draw plain s fits e = go (lib.read_random draw h.salt_length) refl e
    where
      text_of : Bytes → Outcome Bytes → Bytes
      text_of d (ok t) = t
      text_of d (err x) = d
      text_of d panic = d

      p : Argon2Params
      p = params_of lib h

      go :
          (r : Error ⊎ Bytes)
          → lib.read_random draw h.salt_length ≡ r
          → with_salt lib h plain r ≡ ok s
          → (salt : Bytes) × (lib.read_random draw h.salt_length ≡ inr salt)
            × (s ≢ [])
            × ((other : Bytes)
                → matches lib other (decode_argon2_hash lib s)
                  ≡ (key_of lib p h.key_length other salt == key_of lib p h.key_length plain salt))
      go (inl x) d k = absurd (cc k)
      go (inr salt) d k =
          let sum = key_of lib p h.key_length plain salt in
          let same : hash_text lib p salt sum ≡ s = ap (text_of []) k in
          let size : length sum % 4294967296 ≡ h.key_length =
            ap (λ n. n % 4294967296)
              (laws.length-id_key plain salt h.iterations h.memory h.parallelism h.key_length)
            ∙ omega (arith, fits.3) in
          let decoded =
            decode-hash_text p salt sum fits.0 fits.1 fits.2
              (laws.read_random-bytes draw h.salt_length salt d)
              (laws.id_key-bytes plain salt h.iterations h.memory h.parallelism h.key_length) in
          (
            salt,
            d,
            λ empty. absurd (cc (same ∙ empty)),
            λ other.
                ap (λ t. matches lib other (decode_argon2_hash lib t)) (sym same)
                ∙ ap (matches lib other) decoded
                ∙ ap (λ n. key_of lib p n other salt == sum) size,
          )

  pub password_hasher-IsFaithful : (h : Argon2Hasher) → Fits h → IsFaithful (password_hasher lib h)
  unfolding password_hasher
  password_hasher-IsFaithful h fits draw plain s e =
      let (salt, d, full, answers) = verify-hash h draw plain s fits e in
      let key = key_of lib (params_of lib h) h.key_length plain salt in
      (answers plain ∙ (list_beq_iff key key).1 refl, full)
