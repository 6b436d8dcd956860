-- ===== src/Tests/Hashes.antt =====
-- A library for pkg/crypter/argon2_hasher.go that meets the assumed laws, and hashes over it: a key is
-- the salt and the text, cut or filled up, and codes are moved past the dollar sign.
use go_admin.Common.{
  ℕ, zero, suc, ◌+◌, ◌-◌, ◌%◌, ◌<◌, ◌≡◌, ◌≢◌, refl, ap, subst, true, false, ◌⊎◌, inl, inr, [], ◌∷◌,
  ◌++◌, map, Bytes, bytes, length, text_eq, ◌==◌, All, arith,
}
use go_admin.Outcome.{Error, new, Outcome, ok, err, panic}
use go_admin.Crypter.{
  Library, Argon2Params, new_argon2_hasher, hash, verify, decode_argon2_hash, key_of, params_of,
}
use go_admin.Crypter.Hashes.{LibraryLaws, verify-hash}

abbrev fill : ℕ → ℕ → Bytes
fill c zero = []
fill c (suc n) = c ∷ fill c n

abbrev resize : ℕ → Bytes → Bytes
resize zero s = []
resize (suc n) [] = 0 ∷ resize n []
resize (suc n) (c ∷ s) = c % 256 ∷ resize n s

abbrev scan_one : Bytes → Error ⊎ ℕ
scan_one (_ ∷ _ ∷ v ∷ []) = inr (v - 37)
scan_one _ = inl (new "unexpected newline")

abbrev scan_three : Bytes → Error ⊎ Argon2Params
scan_three (_ ∷ _ ∷ m ∷ _ ∷ _ ∷ _ ∷ t ∷ _ ∷ _ ∷ _ ∷ p ∷ []) =
    inr (record { memory = m - 37; iterations = t - 37; parallelism = p - 37 })
scan_three _ = inl (new "unexpected newline")

abbrev pub plain_library : Library
plain_library = record {
  read_random = λ draw n. inr (fill (draw % 256) n);
  id_key = λ plain salt t m p n. resize n (salt ++ plain);
  version = 19;
  encode_to_string = map (λ c. c + 37);
  decode_string = λ s. inr (map (λ c. c - 37) s);
  print_decimal = λ n. (n + 37) ∷ [];
  scan_version = scan_one;
  scan_params = scan_three;
}

abbrev bytes_of : Bytes → Error ⊎ Bytes → Bytes
bytes_of d (inl e) = d
bytes_of d (inr b) = b

fill-small : (c n : ℕ) → c < 256 → All (λ b. b < 256) (fill c n)
fill-small c zero h = tt
fill-small c (suc n) h = (h, fill-small c n h)

resize-small : (n : ℕ) (s : Bytes) → All (λ b. b < 256) (resize n s)
resize-small zero s = tt
resize-small (suc n) [] = (omega arith, resize-small n [])
resize-small (suc n) (c ∷ s) = (omega arith, resize-small n s)

length-resize : (n : ℕ) (s : Bytes) → length (resize n s) ≡ n
length-resize zero s = refl
length-resize (suc n) [] = ap (λ m. suc m) (length-resize n [])
length-resize (suc n) (c ∷ s) = ap (λ m. suc m) (length-resize n s)

moved_back : (s : Bytes) → map (λ c. c - 37) (map (λ c. c + 37) s) ≡ s
moved_back [] = refl
moved_back (c ∷ s) = let e : c + 37 - 37 ≡ c = omega arith in rw e (ap (◌∷◌ c) (moved_back s))

moved_past : (s : Bytes) → All (λ c. c ≢ b'$') (map (λ c. c + 37) s)
moved_past [] = tt
moved_past (c ∷ s) = (λ e. absurd (omega (arith, e)), moved_past s)

pub plain_library-LibraryLaws : LibraryLaws plain_library
plain_library-LibraryLaws = record {
  read_random-bytes = λ draw n salt h.
      subst (λ s. All (λ b. b < 256) s) (ap (bytes_of []) h)
        (fill-small (draw % 256) n (omega arith));
  id_key-bytes = λ plain salt t m p n. resize-small n (salt ++ plain);
  length-id_key = λ plain salt t m p n. length-resize n (salt ++ plain);
  version_fits = omega arith;
  decode-encode = λ b small. ap inr (moved_back b);
  encode-IsSegment = moved_past;
  print-IsSegment = λ n. ((λ e. absurd (omega (arith, e))), tt);
  scan_version_lem = λ v h. let e : v + 37 - 37 ≡ v = omega arith in ap inr e;
  scan_params_lem = λ p m t n.
      let a : p.memory + 37 - 37 ≡ p.memory = omega arith in
      let b : p.iterations + 37 - 37 ≡ p.iterations = omega arith in
      let c : p.parallelism + 37 - 37 ≡ p.parallelism = omega arith in rw a (rw b (rw c refl));
}

abbrev text_of : Outcome Bytes → Bytes
text_of (ok t) = t
text_of (err _) = []
text_of panic = []

abbrev secret_hash : Bytes
unfolding hash
secret_hash = text_of (hash plain_library new_argon2_hasher 7 (bytes "secret"))

verify-hash_example :
    (salt : Bytes) × (plain_library.read_random 7 16 ≡ inr salt)
    × (secret_hash ≢ [])
    × ((other : Bytes)
        → verify plain_library other secret_hash ≡ (
            key_of plain_library (params_of plain_library new_argon2_hasher) 32 other salt
            == key_of plain_library
                (params_of plain_library new_argon2_hasher)
                32
                (bytes "secret")
                salt))
verify-hash_example =
    verify-hash plain_library plain_library-LibraryLaws new_argon2_hasher 7 (bytes "secret")
      secret_hash (omega arith, omega arith, omega arith, omega arith) (unfold hash in refl)

takes_secret : verify plain_library (bytes "secret") secret_hash ≡ true
unfolding verify hash decode_argon2_hash
takes_secret = refl

refuses_others : verify plain_library (bytes "Secret") secret_hash ≡ false
unfolding verify hash decode_argon2_hash
refuses_others = refl
