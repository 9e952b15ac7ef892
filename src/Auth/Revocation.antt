-- ===== src/Auth/Revocation.antt =====
-- Revoked sessions, and what their tokens still open.
use enactspace.Shared.{
  ℕ, ◌≡◌, ◌≢◌, String, Bool, true, false, ◌&&◌, none, some, is_none, List, [], ◌∷◌, arith, ◌==◌,
  inl, inr, Bool-cases, Option-cases,
}
use enactspace.Shared.Table.{All, first, amend}
use enactspace.People.Models.{User, People}
use enactspace.Server.Handler.{ok}
use enactspace.Auth.Models.{AuthSession, AuthSessions, Claims, AuthEnv}
use enactspace.Auth.Sessions.{
  has_hash, hash_refresh_token, is_live, revocable, revoked, revoke_user_sessions,
  rotate_refresh_token, session_accepted, user_of_claims,
}

first-All :
    {A : Type 0} (P : A → Type 0) (q : A → Bool) (xs : List A) (x : A)
    → All P xs
    → first q xs ≡ some x
    → P x × (q x ≡ true)
unfolding first
first-All P q [] x h e = ground arith
first-All P q (y ∷ ys) x h e = elim (Bool-cases (q y)) [
  | inl hit ↦ let same : y ≡ x = ground (arith, e, hit) in rw (← same) (h.0, hit)
  | inr miss ↦ first-All P q ys x h.1 (ground (arith, e, miss))
]

first-holds : {A : Type 0} (q : A → Bool) (xs : List A) (x : A) → first q xs ≡ some x → q x ≡ true
unfolding first
first-holds q [] x e = ground arith
first-holds q (y ∷ ys) x e = elim (Bool-cases (q y)) [
  | inl hit ↦ let same : y ≡ x = ground (arith, e, hit) in rw (← same) hit
  | inr miss ↦ first-holds q ys x (ground (arith, e, miss))
]

-- of the member `u`, only sessions that are revoked
abbrev IsRevokedOf : ℕ → AuthSession → Type 0
IsRevokedOf u s = s.user_id ≡ u → is_none s.revoked_at ≡ false

module _ (env : AuthEnv) (u : ℕ) where
  revoke-All :
      (xs : List AuthSession) → All (IsRevokedOf u) (amend (revocable env u none) (revoked env) xs)
  unfolding amend
  revoke-All [] = tt
  revoke-All (s ∷ xs) = (λ own. ground arith, revoke-All xs)

  not-live :
      (env' : AuthEnv) (s : AuthSession) → is_none s.revoked_at ≡ false → is_live env' s ≡ false
  unfolding is_live
  not-live env' s closed = ground arith

module _ (env env' : AuthEnv) (u : ℕ) (t : AuthSessions) where
  abbrev t' : AuthSessions
  t' = (revoke_user_sessions env u none t).1

  revoked_rows : All (IsRevokedOf u) t'.sessions
  unfolding revoke_user_sessions
  revoked_rows = revoke-All env u t.sessions

  no_rotation :
      (token : String) (p : People) (s : AuthSession)
      → first (has_hash env' (hash_refresh_token env' token)) t'.sessions ≡ some s
      → s.user_id ≡ u
      → rotate_refresh_token env' token p t' ≡ none
  unfolding rotate_refresh_token
  no_rotation token p s found own =
      let (closed, _) = first-All (IsRevokedOf u) _ t'.sessions s revoked_rows found in
      ground (arith, found, not-live env u env' s (closed own))

  no_session : (user : User) (k : ℕ) → user.id ≡ u → session_accepted env' user (some k) t' ≡ false
  unfolding session_accepted
  no_session user k own =
      elim (Option-cases
        (first (λ (s : AuthSession). s.id == k && s.user_id == user.id) t'.sessions)) [
          | inl absent ↦ ground (arith, absent)
          | inr (s, found) ↦
              let (closed, named) = first-All (IsRevokedOf u) _ t'.sessions s revoked_rows found in
              let owner : s.user_id ≡ u = ground (arith, named, own) in
              ground (arith, found, not-live env u env' s (closed owner))
        ]

  no_access :
      (claims : Claims) (p : People) (k : ℕ) (user : User)
      → claims.sub ≡ some u
      → claims.sid ≡ some k
      → user_of_claims env' claims p t' ≢ ok user
  unfolding user_of_claims
  no_access claims p k user subject named accepted =
      elim (Option-cases (first (λ (x : User). x.id == u) p.users)) [
        | inl absent ↦ ground (arith, subject, absent, accepted)
        | inr (x, found) ↦
            let same = first-holds (λ (x : User). x.id == u) p.users x found in
            let own : x.id ≡ u = ground (arith, same) in
            ground (arith, subject, named, found, accepted, no_session x k own)
      ]

-- On the table that the revocation of all sessions of a member leaves, a refresh token of such a
-- session is not rotated and the claims of an access token that name the member and a session give
-- no user, at any time.
pub revoke_user_sessions-closes :
    (env env' : AuthEnv) (u : ℕ) (t : AuthSessions) (p : People) (token : String) (s : AuthSession)
    (claims : Claims) (k : ℕ) (user : User)
    → let t' = (revoke_user_sessions env u none t).1 in
      first (has_hash env' (hash_refresh_token env' token)) t'.sessions ≡ some s
      → s.user_id ≡ u
      → claims.sub ≡ some u
      → claims.sid ≡ some k
      → (rotate_refresh_token env' token p t' ≡ none) × (user_of_claims env' claims p t' ≢ ok user)
revoke_user_sessions-closes env env' u t p token s claims k user found own subject named = (
  no_rotation env env' u t token p s found own,
  no_access env env' u t claims p k user subject named,
)
