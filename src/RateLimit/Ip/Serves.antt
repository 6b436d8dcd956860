-- ===== src/RateLimit/Ip/Serves.antt =====
-- What a request does to the limiter by address, for each address by itself.
use go_admin.Common.{
  ℕ, ◌≡◌, ◌≢◌, refl, ap, sym, ◌∙◌, Bool, inl, inr, Option, none, some, List, Bytes, ℤ,
  if◌then◌else◌, text_eq, nat_eq, list_beq_iff, nat_beq_iff, subst, find, assign, find-assign,
  arith, Option-cases,
}
use go_admin.RateLimit.Ip.{
  obtained, created, with_new, Buckets, Shared, Answer, next, too_many_requests, touch, create,
  allow, handle,
}
use go_admin.RateLimit.Ip.Sound.{Sound}

module _ {L : Type 0} where
  abbrev pub at_handle : Option ℕ → List (ℕ × L) → Option L
  at_handle none heap = none
  at_handle (some h) heap = find h heap

  -- The bucket of an address.
  abbrev pub bucket_of : Bytes → Shared L → Option L
  bucket_of ip s = at_handle (find ip s.limiter_map) s.heap

  at_handle-assign :
      (o : Option ℕ) (h : ℕ) (l : L) (heap : List (ℕ × L))
      → o ≢ some h
      → at_handle o (assign h l heap) ≡ at_handle o heap
  at_handle-assign none h l heap n = refl
  at_handle-assign (some k) h l heap n =
      ground (arith, find-assign h k l heap, nat_beq_iff h k, λ (e : k ≡ h). n (ap (λ i. some i) e))

  -- The time at which an address was last seen is that of its request, and only its own.
  abbrev pub Seen : Bytes → ℕ → Shared L → Shared L → Type 0
  Seen ip start s t =
      (find ip t.last_seen ≡ some start)
      × ((jp : Bytes) → jp ≢ ip → find jp t.last_seen ≡ find jp s.last_seen)

module _ {L : Type 0} (buckets : Buckets L) (rps burst : ℤ) where
  abbrev pub or_new : Option L → L
  or_new none = buckets.new_limiter rps burst
  or_new (some l) = l

  abbrev pub answer_of : Bool → Answer
  answer_of b = if b then next else too_many_requests

  abbrev answered : ℕ → ℕ × Shared L → Answer × Shared L
  answered now x = let y = allow buckets rps burst x.0 now x.1 in (answer_of y.0, y.1)

  -- What a request of one address does to the buckets.
  abbrev pub Served : Bytes → ℕ → Shared L → Answer × Shared L → Type 0
  Served ip now s x =
      let bucket = or_new (bucket_of ip s) in
      (x.0 ≡ answer_of (buckets.allow now bucket).0)
      × (bucket_of ip x.1 ≡ some (buckets.allow now bucket).1)
      × ((jp : Bytes) → jp ≢ ip → bucket_of jp x.1 ≡ bucket_of jp s)

  handle-Served' :
      (ip : Bytes) (start now : ℕ) (s : Shared L)
      → Sound s
      → Served ip now s (handle buckets rps burst ip start now s)
  unfolding handle create allow touch
  handle-Served' ip start now s v = go (find ip s.limiter_map) refl
    where
      found :
          (h : ℕ) (o : Option L)
          → find ip s.limiter_map ≡ some h
          → find h s.heap ≡ o
          → Served ip now s (handle buckets rps burst ip start now s)
      found h none e f = absurd (v.live ip h e f)
      found h (some l) e f =
          let l' = (buckets.allow now l).1 in
          rw e (
            rw f (
              refl,
              rw e (ground (arith, find-assign h h l' s.heap, nat_beq_iff h h)),
              λ jp other.
                  at_handle-assign (find jp s.limiter_map) h l' s.heap
                    (λ same. other (v.apart jp ip h same e)),
            ))

      go :
          (o : Option ℕ)
          → find ip s.limiter_map ≡ o
          → Served ip now s (handle buckets rps burst ip start now s)
      go (some h) e = found h (find h s.heap) e refl
      go none e =
          let n = s.fresh in
          let new = buckets.new_limiter rps burst in
          let l' = (buckets.allow now new).1 in
          let heap = assign n new s.heap in
          let there : find n heap ≡ some new =
            ground (arith, find-assign n n new s.heap, nat_beq_iff n n) in
          let made : obtained buckets rps burst ip start (find ip s.limiter_map) s
              ≡ (n, with_new buckets rps burst ip start s) =
            ap (λ o. obtained buckets rps burst ip start o s) e
            ∙ ap (λ o. created buckets rps burst ip start o s) e in
          subst (λ x. Served ip now s (answered now x)) (sym made)
            (rw (e, there)
              (
                refl,
                (ground (
                  arith,
                  find-assign ip ip n s.limiter_map,
                  list_beq_iff ip ip,
                  find-assign n n l' heap,
                  nat_beq_iff n n,
                )),
                λ jp other.
                    let unused : find jp s.limiter_map ≢ some n =
                      λ same. absurd (omega (arith, v.old jp n same)) in
                    let lookup : find jp (assign ip n s.limiter_map) ≡ find jp s.limiter_map =
                      ground (
                        arith,
                        find-assign ip jp n s.limiter_map,
                        list_beq_iff ip jp,
                        λ (same : ip ≡ jp). other (sym same),
                      ) in
                    rw lookup (
                      at_handle-assign (find jp s.limiter_map) n l' heap unused
                      ∙ at_handle-assign (find jp s.limiter_map) n new s.heap unused),
              ))

  allow_last_seen :
      (h now : ℕ) (s : Shared L) → (allow buckets rps burst h now s).1.last_seen ≡ s.last_seen
  unfolding allow
  allow_last_seen h now s = elim (Option-cases (find h s.heap)) [
    | inl e ↦ rw e refl
    | inr (l, e) ↦ rw e refl
  ]

  obtained_last_seen :
      (ip : Bytes) (start : ℕ) (s : Shared L)
      → (obtained buckets rps burst ip start (find ip s.limiter_map) s).1.last_seen
        ≡ assign ip start s.last_seen
  unfolding create touch
  obtained_last_seen ip start s = elim (Option-cases (find ip s.limiter_map)) [
    | inl e ↦ rw e (rw e refl)
    | inr (h, e) ↦ rw e refl
  ]

  handle-Seen :
      (ip : Bytes) (start now : ℕ) (s : Shared L)
      → Seen ip start s (handle buckets rps burst ip start now s).1
  unfolding handle
  handle-Seen ip start now s =
      let x = obtained buckets rps burst ip start (find ip s.limiter_map) s in
      let e : (handle buckets rps burst ip start now s).1.last_seen ≡ assign ip start s.last_seen =
        allow_last_seen x.0 now x.1 ∙ obtained_last_seen ip start s in
      rw e (
        ground (arith, find-assign ip ip start s.last_seen, list_beq_iff ip ip),
        λ jp other. ground (
          arith,
          find-assign ip jp start s.last_seen,
          list_beq_iff ip jp,
          λ (same : ip ≡ jp). other (sym same),
        ),
      )

  -- A request that no other one disturbs, in a state with the invariant of the limiter by address,
  -- goes on exactly if the bucket of its address, a new one if there is none, allows it; that
  -- bucket is left as Allow leaves it, the address is noted as seen when the request began, and
  -- the buckets of all other addresses and when they were seen are left as they were.
  pub handle-Served :
      (ip : Bytes) (start now : ℕ) (s : Shared L)
      → Sound s
      → let x = handle buckets rps burst ip start now s in Served ip now s x × Seen ip start s x.1
  handle-Served ip start now s v = (handle-Served' ip start now s v, handle-Seen ip start now s)
