-- ===== src/RateLimit/Ip/Sound.antt =====
-- What every state of the limiter by address has, and what a request and the cleaner do to it.
use go_admin.Common.{
  ℕ, ◌<◌, ◌≡◌, ◌≢◌, refl, ap, sym, ◌∙◌, Bool, true, false, inl, inr, ◌⊎◌, Option, none, some, List,
  [], ◌∷◌, Bytes, ℤ, if◌then◌else◌, ◌==◌, text_eq, nat_eq, list_beq_iff, Elem, find, erase, assign,
  find-erase, find-assign, arith,
}
use go_admin.RateLimit.Ip.{
  RateLimiterConfig, Buckets, Shared, empty_shared, is_expired, touch, clean_from, clean, create,
  allow,
}
use go_admin.RateLimit.Ip.Steps.{Step, creates, touches, allows, cleans, Reach, begins, goes_on}

module _ {V : Type 0} where
  -- Every entry is the one that is found.
  abbrev pub IsMap : List (Bytes × V) → Type 0
  IsMap m = (k : Bytes) (x : V) → Elem (k, x) m → find k m ≡ some x

  Elem_of_erase :
      (j k : Bytes) (x : V) (m : List (Bytes × V))
      → Elem (k, x) (erase j m)
      → Elem (k, x) m × ((j == k) ≡ false)
  unfolding erase
  Elem_of_erase j k x [] h = absurd h
  Elem_of_erase j k x ((i, y) ∷ m) h =
      ground (arith, Elem_of_erase j k x m, list_beq_iff i j, list_beq_iff j k)

  erase-IsMap : (j : Bytes) (m : List (Bytes × V)) → IsMap m → IsMap (erase j m)
  erase-IsMap j m h k x e =
      let (old, other) = Elem_of_erase j k x m e in ground (arith, find-erase j k m, h k x old)

  pub find_of_erase :
      (j k : Bytes) (x : V) (m : List (Bytes × V)) → find k (erase j m) ≡ some x → find k m ≡ some x
  find_of_erase j k x m e = ground (arith, find-erase j k m)

  assign-IsMap : (j : Bytes) (y : V) (m : List (Bytes × V)) → IsMap m → IsMap (assign j y m)
  unfolding assign find
  assign-IsMap j y m h k x (inl e) =
      ground (arith, ap (λ p. p.0) e, ap (λ p. p.1) e, list_beq_iff j k)
  assign-IsMap j y m h k x (inr e) =
      let (old, other) = Elem_of_erase j k x m e in ground (arith, find-erase j k m, h k x old)

-- An entry that is found behind an assignment is the new one or another.
found_in_assign :
    {V : Type 0} (j k : Bytes) (x y : V) (m : List (Bytes × V))
    → find k (assign j x m) ≡ some y
    → ((j ≡ k) × (x ≡ y)) ⊎ (find k m ≡ some y)
found_in_assign j k x y m h = ground (arith, find-assign j k x m, list_beq_iff j k)

erase_both :
    {V W : Type 0} (j k : Bytes) (m : List (Bytes × V)) (n : List (Bytes × W))
    → (find k m ≢ none → find k n ≢ none)
    → find k (erase j m) ≢ none
    → find k (erase j n) ≢ none
erase_both j k m n h = rw (find-erase j k m) (rw (find-erase j k n) (both (j == k)))
  where
    both :
        (b : Bool) → (if b then none else find k m) ≢ none → (if b then none else find k n) ≢ none
    both true f = absurd (f refl)
    both false f = h f

module _ {L : Type 0} where
  -- Every limiter of the map has a time at which it was seen and a bucket of its own in the heap.
  pub record Sound (s : Shared L) : Type 0 where
    pub seen : (ip : Bytes) → find ip s.limiter_map ≢ none → find ip s.last_seen ≢ none
    pub live : (ip : Bytes) (h : ℕ) → find ip s.limiter_map ≡ some h → find h s.heap ≢ none
    pub old : (ip : Bytes) (h : ℕ) → find ip s.limiter_map ≡ some h → h < s.fresh
    pub apart :
        (ip jp : Bytes) (h : ℕ)
        → find ip s.limiter_map ≡ some h
        → find jp s.limiter_map ≡ some h
        → ip ≡ jp
    pub once : IsMap s.last_seen

  empty-Sound : Sound empty_shared
  unfolding find
  empty-Sound = record {
    seen = λ ip h. absurd (h refl);
    live = λ ip h e. cc;
    old = λ ip h e. cc;
    apart = λ ip jp h e f. cc;
    once = λ k x e. absurd e;
  }

  touch-Sound : (ip : Bytes) (start : ℕ) (s : Shared L) → Sound s → Sound (touch ip start s)
  unfolding touch
  touch-Sound ip start s v = record {
    seen = λ jp h. λ e. ground (arith, find-assign ip jp start s.last_seen, v.seen jp h);
    live = v.live;
    old = v.old;
    apart = v.apart;
    once = assign-IsMap ip start s.last_seen v.once;
  }

  erase-Sound :
      (ip : Bytes) (s : Shared L)
      → Sound s
      → Sound (record s { limiter_map = erase ip s.limiter_map; last_seen = erase ip s.last_seen })
  erase-Sound ip s v = record {
    seen = λ jp. erase_both ip jp s.limiter_map s.last_seen (v.seen jp);
    live = λ jp h e. v.live jp h (find_of_erase ip jp h s.limiter_map e);
    old = λ jp h e. v.old jp h (find_of_erase ip jp h s.limiter_map e);
    apart = λ jp kp h e f.
        v.apart jp kp h (find_of_erase ip jp h s.limiter_map e)
          (find_of_erase ip kp h s.limiter_map f);
    once = erase-IsMap ip s.last_seen v.once;
  }

  clean_from-Sound :
      (expiry now : ℕ) (m : List (Bytes × ℕ)) (s : Shared L)
      → Sound s
      → Sound (clean_from expiry now m s)
  unfolding clean_from
  clean_from-Sound expiry now [] s v = v
  clean_from-Sound expiry now ((ip, last) ∷ m) s v =
      clean_from-Sound expiry now m _ (kept (is_expired expiry now last))
    where
      kept :
          (b : Bool)
          → Sound (
              if b
              then record s {
                limiter_map = erase ip s.limiter_map;
                last_seen = erase ip s.last_seen;
              }
              else s)
      kept true = erase-Sound ip s v
      kept false = v

module _ {L : Type 0} (buckets : Buckets L) (rps burst : ℤ) where
  allow-Sound : (h now : ℕ) (s : Shared L) → Sound s → Sound (allow buckets rps burst h now s).1
  unfolding allow
  allow-Sound h now s v = go (find h s.heap) refl
    where
      go : (o : Option L) → find h s.heap ≡ o → Sound (allow buckets rps burst h now s).1
      go none e = rw e v
      go (some l) e = rw e (record {
        seen = v.seen;
        live =
            λ ip k f. ground (arith, find-assign h k (buckets.allow now l).1 s.heap, v.live ip k f);
        old = v.old;
        apart = v.apart;
        once = v.once;
      })

  create-Sound :
      (ip : Bytes) (start : ℕ) (s : Shared L)
      → Sound s
      → Sound (create buckets rps burst ip start s).1
  unfolding create
  create-Sound ip start s v = go (find ip s.limiter_map) refl
    where
      new_live :
          (h : ℕ) {E F : Type 0}
          → (E × (s.fresh ≡ h)) ⊎ F
          → (F → find h s.heap ≢ none)
          → find h (assign s.fresh (buckets.new_limiter rps burst) s.heap) ≢ none
      new_live h (inl (_, same)) f =
          ground (arith, find-assign s.fresh h (buckets.new_limiter rps burst) s.heap)
      new_live h (inr before) f =
          ground (arith, find-assign s.fresh h (buckets.new_limiter rps burst) s.heap, f before)

      go :
          (o : Option ℕ) → find ip s.limiter_map ≡ o → Sound (create buckets rps burst ip start s).1
      go (some h) e = rw e v
      go none e = rw e (record {
        seen = λ jp h. λ f. ground (
          arith,
          find-assign ip jp s.fresh s.limiter_map,
          find-assign ip jp start s.last_seen,
          v.seen jp,
        );
        live = λ jp h f. new_live h (found_in_assign ip jp s.fresh h s.limiter_map f) (v.live jp h);
        old = λ jp h f. elim (found_in_assign ip jp s.fresh h s.limiter_map f) [
          | inl (_, same) ↦ omega arith
          | inr before ↦ omega (arith, v.old jp h before)
        ];
        apart = λ jp kp h f g. elim (found_in_assign ip jp s.fresh h s.limiter_map f) [
          | inl (a, same) ↦ elim (found_in_assign ip kp s.fresh h s.limiter_map g) [
            | inl (b, _) ↦ sym a ∙ b
            | inr k ↦ absurd (omega (arith, v.old kp h k))
          ]
          | inr j ↦ elim (found_in_assign ip kp s.fresh h s.limiter_map g) [
            | inl (_, same) ↦ absurd (omega (arith, v.old jp h j))
            | inr k ↦ v.apart jp kp h j k
          ]
        ];
        once = assign-IsMap ip start s.last_seen v.once;
      })

  module _ (cfg : RateLimiterConfig) where
    Step-Sound : {s t : Shared L} → Step buckets rps burst cfg s t → Sound s → Sound t
    unfolding clean
    Step-Sound (creates ip start s) v = create-Sound ip start s v
    Step-Sound (touches ip start s) v = touch-Sound ip start s v
    Step-Sound (allows h now s) v = allow-Sound h now s v
    Step-Sound (cleans now s) v = clean_from-Sound cfg.expiry_time now s.last_seen s v

    -- In every state that the critical sections of the requests, the uses of limiters and the
    -- rounds of the cleaner reach, in any order: an address with a limiter has a time at which it
    -- was seen, its limiter is in the heap, and no two addresses share a limiter.
    pub Reach-Sound : {s : Shared L} → Reach buckets rps burst cfg s → Sound s
    Reach-Sound begins = empty-Sound
    Reach-Sound (goes_on r x) = Step-Sound x (Reach-Sound r)
