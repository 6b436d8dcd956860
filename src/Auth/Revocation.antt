-- ===== src/Auth/Revocation.antt =====
-- A revoked token stays revoked until it has expired, and logging out makes it useless.
use go_admin.Common.{
  ℕ, ◌≤◌, ◌<◌, ◌≡◌, ◌≢◌, refl, ap, sym, ◌∙◌, Bool, true, false, Option, none, some, [], ◌∷◌,
  if◌then◌else◌, ◌==◌, text_eq, Bytes, beq_refl, list_beq_iff, arith,
}
use go_admin.Outcome.{ok}
use go_admin.Store
use go_admin.Store.View.{view, view-get, HasUniqueKeys}
use go_admin.Store.Writes.{view-set_until}
use go_admin.Auth.Tokens.{
  RevokeReadings, InMemory, in_memory_revoke, in_memory_is_revoked, in_memory_token_store,
}
use go_admin.Auth.Jwt.{Claims, Jwt, parse_token}
use go_admin.Auth.Middleware.{
  PermissionChecker, PermissionConfig, Request, unauthorized, State, handle, check_claims,
  strip_bearer_prefix,
}
use go_admin.Auth.Service.{logout}

-- Whether the list has the id, as a reader at time `t` sees it.
abbrev pub is_listed : {V : Type 0} → Option V → Bool
is_listed none = false
is_listed (some _) = true

-- IsRevoked of an id that is not empty answers with the view of the list.
is_revoked-view :
    (t : ℕ) (jti : Bytes) (s : InMemory)
    → jti ≢ []
    → (in_memory_is_revoked t jti s).0 ≡ ok (is_listed (view t s jti))
unfolding in_memory_is_revoked Store.has
is_revoked-view t [] s n = absurd (n refl)
is_revoked-view t (c ∷ jti) s n =
    rw (← (view-get t t (c ∷ jti) s (c ∷ jti) (omega arith)).0) (unfold Store.get in refl)

-- With the in-memory store with unique keys: after Revoke of a non-empty id until a time that the
-- clock has not reached, IsRevoked answers true for it at every time from the cleanup to that
-- time, and what it answered before for every other id.
pub is_revoked-revoke :
    (at : RevokeReadings) (t : ℕ) (jti j : Bytes) (exp : ℕ) (s : InMemory)
    → HasUniqueKeys s.m
    → jti ≢ []
    → at.at_until < exp
    → at.at_until ≤ at.at_set
    → at.at_cleanup ≤ t
    → t ≤ exp
    → (in_memory_is_revoked t j (in_memory_revoke at jti exp s).1).0
      ≡ (if jti == j then ok true else (in_memory_is_revoked t j s).0)
unfolding in_memory_revoke in_memory_is_revoked
is_revoked-revoke at t [] j exp s u n h1 h2 h3 h4 = absurd (n refl)
is_revoked-revoke at t (c ∷ jti) [] exp s u n h1 h2 h3 h4 = refl
is_revoked-revoke at t (c ∷ jti) (d ∷ j) exp s u n h1 h2 h3 h4 =
    let key = c ∷ jti in
    let s' = Store.set_until at.at_until at.at_set at.at_cleanup key tt exp s in
    let after = is_revoked-view t (d ∷ j) s' (λ e. cc e) in
    let before = is_revoked-view t (d ∷ j) s (λ e. cc e) in
    let stored =
      view-set_until at.at_until at.at_set at.at_cleanup t key (d ∷ j) tt exp s u h2 h3 in
    after ∙ (ap (λ v. ok (is_listed v)) stored ∙ ground (arith, before))

module _ {C : Type 0} (jwt : Jwt) (checker : PermissionChecker C) (config : PermissionConfig) where
  check_revoked :
      (now : ℕ) (request : Request) (claims : Claims) (s : State InMemory C)
      → claims.id ≢ []
      → (in_memory_is_revoked now claims.id s.tokens).0 ≡ ok true
      → (check_claims jwt checker in_memory_token_store config now request claims s).0
        ≡ unauthorized "Token has been revoked"
  unfolding check_claims
  check_revoked now request claims s n h = ground (arith, list_beq_iff claims.id [])

  handle_parsed :
      (parsed_at now : ℕ) (request : Request) (claims : Claims) (s : State InMemory C)
      → request.authorization ≢ []
      → parse_token jwt parsed_at (strip_bearer_prefix request.authorization) ≡ ok claims
      → handle jwt checker in_memory_token_store config parsed_at now request s
        ≡ check_claims jwt checker in_memory_token_store config now request claims s
  unfolding handle
  handle_parsed parsed_at now request claims s n p =
      rw p (ground (arith, list_beq_iff request.authorization []))

  logout_state :
      (logged_at : ℕ) (at : RevokeReadings) (claims : Claims) (exp : ℕ) (s : InMemory)
      → claims.id ≢ []
      → claims.expires_at ≡ some exp
      → (logout in_memory_token_store jwt logged_at at claims s).1
        ≡ (in_memory_revoke at claims.id exp s).1
  unfolding logout
  logout_state logged_at at claims exp s n e = rw e (ground (arith, list_beq_iff claims.id []))

  -- With the in-memory store: after a logout with claims that have an id and an expiry that the
  -- clock has not reached, every request whose token parses to claims with that id is answered
  -- with "Token has been revoked" at every time from the cleanup of the logout to that expiry,
  -- whatever the state of the checker.
  pub logout-handle :
      (at : RevokeReadings) (logged_at parsed_at now : ℕ) (request : Request)
      (claims claims' : Claims) (exp : ℕ) (s : InMemory) (c : C)
      → HasUniqueKeys s.m
      → claims.id ≢ []
      → claims.expires_at ≡ some exp
      → at.at_until < exp
      → at.at_until ≤ at.at_set
      → at.at_cleanup ≤ now
      → now ≤ exp
      → request.authorization ≢ []
      → parse_token jwt parsed_at (strip_bearer_prefix request.authorization) ≡ ok claims'
      → claims'.id ≡ claims.id
      → (handle jwt checker in_memory_token_store config parsed_at now request (record {
        tokens = (logout in_memory_token_store jwt logged_at at claims s).1;
        checker = c;
      })).0
        ≡ unauthorized "Token has been revoked"
  logout-handle at logged_at parsed_at now request claims claims' exp s c u n e h1 h2 h3 h4 a p
        same =
      let s' : InMemory = (logout in_memory_token_store jwt logged_at at claims s).1 in
      let state : State InMemory C = record { tokens = s'; checker = c } in
      let listed : (in_memory_is_revoked now claims.id s').0 ≡ ok true =
        rw (logout_state logged_at at claims exp s n e) (
          is_revoked-revoke at now claims.id claims.id exp s u n h1 h2 h3 h4
          ∙ rw (beq_refl claims.id) refl) in
      ap (λ r. r.0) (handle_parsed parsed_at now request claims' state a p)
      ∙ check_revoked now request claims' state (λ x. n (sym same ∙ x)) (rw same listed)
