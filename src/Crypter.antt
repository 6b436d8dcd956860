-- ===== src/Crypter.antt =====
-- pkg/crypter/password_hasher.go and argon2_hasher.go: the hashing of passwords with Argon2id. The
-- packages argon2, base64 and rand, and fmt's %d, are parameters.
pub mod Hashes
use go_admin.Common.{
  ℕ, ◌*◌, ◌%◌, String, Bool, true, false, ◌⊎◌, inl, inr, List, [], ◌∷◌, ◌++◌, Bytes, bytes, length,
  split, if◌then◌else◌, ◌==◌, text_eq, nat_eq,
}
use go_admin.Outcome.{Error, new, wrap, Outcome, ok, err}

-- PasswordHasher; the number is what the hasher draws at random.
pub record PasswordHasher : Type 0 where
  pub hash : ℕ → Bytes → Outcome Bytes
  pub verify : Bytes → Bytes → Bool

-- Argon2Hasher
pub record Argon2Hasher : Type 0 where
  pub memory : ℕ
  pub iterations : ℕ
  pub parallelism : ℕ
  pub salt_length : ℕ
  pub key_length : ℕ

-- NewArgon2Hasher
abbrev pub new_argon2_hasher : Argon2Hasher
new_argon2_hasher = record {
  memory = 64 * 1024;
  iterations = 3;
  parallelism = 2;
  salt_length = 16;
  key_length = 32;
}

-- argon2Params
pub record Argon2Params : Type 0 where
  pub memory : ℕ
  pub iterations : ℕ
  pub parallelism : ℕ

-- rand.Read of some length at a draw; argon2.IDKey of password, salt, time, memory, threads and key
-- length, and argon2.Version; base64.RawStdEncoding; what %d prints; fmt.Sscanf with "v=%d" into an
-- int, and with "m=%d,t=%d,p=%d" into two uint32 and a uint8. IDKey
-- panics at a time or a number of threads of 0, which is left out.
pub record Library : Type 0 where
  pub read_random : ℕ → ℕ → Error ⊎ Bytes
  pub id_key : Bytes → Bytes → ℕ → ℕ → ℕ → ℕ → Bytes
  pub version : ℕ
  pub encode_to_string : Bytes → Bytes
  pub decode_string : Bytes → Error ⊎ Bytes
  pub print_decimal : ℕ → Bytes
  pub scan_version : Bytes → Error ⊎ ℕ
  pub scan_params : Bytes → Error ⊎ Argon2Params

abbrev pub or_fail : {A B : Type 0} → String → Error ⊎ A → (A → Error ⊎ B) → Error ⊎ B
or_fail message (inl e) next = inl (wrap message e)
or_fail message (inr a) next = next a

module _ (lib : Library) where
  -- v=%d
  abbrev pub version_text : ℕ → Bytes
  version_text v = bytes "v=" ++ lib.print_decimal v

  -- m=%d,t=%d,p=%d
  abbrev pub params_text : Argon2Params → Bytes
  params_text p =
      bytes "m="
      ++ (lib.print_decimal p.memory
          ++ (bytes ",t="
              ++ (lib.print_decimal p.iterations
                  ++ (bytes ",p=" ++ lib.print_decimal p.parallelism))))

  -- The text of a hash: the five parts, each behind a dollar sign.
  abbrev pub hash_text : Argon2Params → Bytes → Bytes → Bytes
  hash_text p salt sum =
      b'$'
      ∷ (bytes "argon2id"
          ++ (b'$'
              ∷ (version_text lib.version
                  ++ (b'$'
                      ∷ (params_text p
                          ++ (b'$'
                              ∷ (lib.encode_to_string salt
                                  ++ (b'$' ∷ lib.encode_to_string sum))))))))

  abbrev pub params_of : Argon2Hasher → Argon2Params
  params_of h = record { memory = h.memory; iterations = h.iterations; parallelism = h.parallelism }

  -- argon2.IDKey at some parameters
  abbrev pub key_of : Argon2Params → ℕ → Bytes → Bytes → Bytes
  key_of p key_length plain salt =
      lib.id_key plain salt p.iterations p.memory p.parallelism key_length

  abbrev pub with_salt : Argon2Hasher → Bytes → Error ⊎ Bytes → Outcome Bytes
  with_salt h plain (inl e) = err (wrap "generate salt failed" e)
  with_salt h plain (inr salt) =
      ok (hash_text (params_of h) salt (key_of (params_of h) h.key_length plain salt))

  -- Hash
  unfoldable pub hash : Argon2Hasher → ℕ → Bytes → Outcome Bytes
  hash h draw plain = with_salt h plain (lib.read_random draw h.salt_length)

  -- The segments of decodeArgon2Hash, behind the name of the algorithm.
  abbrev pub of_segments : Bytes → Bytes → Bytes → Bytes → Error ⊎ (Argon2Params × Bytes × Bytes)
  of_segments version params salt sum =
      or_fail "invalid argon2id version segment" (lib.scan_version version) (λ v.
        if v == lib.version
        then or_fail "invalid argon2id params segment" (lib.scan_params params) (λ p.
          or_fail "invalid argon2id salt segment" (lib.decode_string salt) (λ s.
            or_fail "invalid argon2id hash segment" (lib.decode_string sum) (λ k. inr (p, s, k))))
        else inl (new "unsupported argon2id version"))

  abbrev pub of_parts : List Bytes → Error ⊎ (Argon2Params × Bytes × Bytes)
  of_parts (_ ∷ name ∷ version ∷ params ∷ salt ∷ sum ∷ []) =
      if name == bytes "argon2id"
      then of_segments version params salt sum
      else inl (new "invalid argon2id hash format")
  of_parts _ = inl (new "invalid argon2id hash format")

  -- decodeArgon2Hash
  unfoldable pub decode_argon2_hash : Bytes → Error ⊎ (Argon2Params × Bytes × Bytes)
  decode_argon2_hash encoded = of_parts (split b'$' encoded)

  abbrev pub matches : Bytes → Error ⊎ (Argon2Params × Bytes × Bytes) → Bool
  matches plain (inl e) = false
  matches plain (inr (p, salt, sum)) = key_of p (length sum % 4294967296) plain salt == sum

  -- Verify, which looks at nothing of its hasher.
  unfoldable pub verify : Bytes → Bytes → Bool
  unfolding decode_argon2_hash
  verify plain hashed = matches plain (decode_argon2_hash hashed)

  -- An Argon2Hasher as a PasswordHasher
  unfoldable pub password_hasher : Argon2Hasher → PasswordHasher
  unfolding hash verify
  password_hasher h = record { hash = hash h; verify = verify }
