-- ===== src/Auth/Rotation.antt =====
-- The rotation of a refresh token, and the credential it replaces.
use enactspace.Shared.{
  true, ◌<◌, ℕ, ◌≡◌, ◌≢◌, refl, String, Bool, false, none, some, is_none, List, [], ◌∷◌, arith,
  str_eq, inl, inr, Bool-cases, Option-cases,
}
use enactspace.Shared.Table.{first, find_row, save_row, Unique}
use text.Mathlib.TextPositions.{eq_refl}
use text.Mathlib.TextEquality.{eq_iff}
use enactspace.People.Models.{People}
use enactspace.Auth.Models.{AuthSession, AuthSessions, AuthEnv}
use enactspace.Auth.Sessions.{
  session_seconds_remaining, is_live, eligible, lock_user, hash_refresh_token, rotated,
  rotate_refresh_token,
}

-- The unique column of the table.
abbrev pub HashesOnce : List AuthSession → Type 0
HashesOnce [] = Unit
HashesOnce (s ∷ ss) =
    (first (λ (x : AuthSession). str_eq x.refresh_token_hash s.refresh_token_hash) ss ≡ none)
    × HashesOnce ss

abbrev session_id : AuthSession → ℕ
session_id s = s.id

abbrev hashed : String → AuthSession → Bool
hashed h s = str_eq s.refresh_token_hash h

-- a row that a query finds has its identifier in the table
found-id :
    (q : AuthSession → Bool) (xs : List AuthSession) (x : AuthSession)
    → first q xs ≡ some x
    → is_none (find_row session_id x.id xs) ≡ false
unfolding first find_row
found-id q [] x e = ground arith
found-id q (y ∷ ys) x e = elim (Bool-cases (q y)) [
  | inl hit ↦ let same : y ≡ x = ground (arith, e, hit) in rw (← same) (ground arith)
  | inr miss ↦ ground (arith, found-id q ys x (ground (arith, e, miss)))
]

-- the write of another hash on the one row of a hash leaves none
replaced-none :
    (h : String) (xs : List AuthSession) (s s' : AuthSession)
    → HashesOnce xs
    → Unique session_id xs
    → first (hashed h) xs ≡ some s
    → s'.id ≡ s.id
    → hashed h s' ≡ false
    → first (hashed h) (save_row session_id s' xs) ≡ none
unfolding first save_row
replaced-none h [] s s' once ids found same other = ground arith
replaced-none h (x ∷ xs) s s' once ids found same other = elim (Bool-cases (hashed h x)) [
  | inl hit ↦
      let here : x ≡ s = ground (arith, found, hit) in
      let hash : x.refresh_token_hash ≡ h = (eq_iff x.refresh_token_hash h).0 hit in
      let clear : first (hashed h) xs ≡ none = rw (← hash) once.0 in
      let at : x.id ≡ s'.id = ground (arith, here, same) in ground (arith, at, clear, other)
  | inr miss ↦
      let later : first (hashed h) xs ≡ some s = ground (arith, found, miss) in
      let inside = found-id (hashed h) xs s later in
      let rest = replaced-none h xs s s' once.1 ids.1 later same other in
      ground (arith, miss, inside, rest, same, ids.0)
]

other_hash :
    (env : AuthEnv)
    → ((a b : String) → env.hmac a ≡ env.hmac b → a ≡ b)
    → (a b : String) → a ≢ b
    → str_eq (hash_refresh_token env a) (env.hmac b) ≡ false
unfolding hash_refresh_token
other_hash env apart a b differs = elim (Bool-cases (str_eq (env.hmac a) (env.hmac b))) [
  | inl hit ↦ absurd (differs (apart a b ((eq_iff (env.hmac a) (env.hmac b)).0 hit)))
  | inr miss ↦ miss
]

-- what a rotation that succeeds did
rotation-writes :
    (env : AuthEnv) (token : String) (p : People) (t t' : AuthSessions)
    (out : AuthSession × String × String) (s : AuthSession)
    → first (hashed (env.hmac token)) t.sessions ≡ some s
    → rotate_refresh_token env token p t ≡ some (out, t')
    → t'.sessions ≡ save_row session_id (rotated env s (env.token_urlsafe t.tokens)) t.sessions
unfolding rotate_refresh_token
rotation-writes env token p t t' out s found done = ground (arith, found, done)

-- On the table that a rotation leaves, the refresh token that was rotated is refused, at any time:
-- where the keyed hash does not collide, the new random token is another, and identifiers and hashes
-- of sessions stand once.
pub rotate_refresh_token-once :
    (env : AuthEnv) (later : ℕ) (token : String) (p p' : People) (t t' : AuthSessions)
    (out : AuthSession × String × String)
    → ((a b : String) → env.hmac a ≡ env.hmac b → a ≡ b)
    → env.token_urlsafe t.tokens ≢ token
    → HashesOnce t.sessions
    → Unique session_id t.sessions
    → rotate_refresh_token env token p t ≡ some (out, t')
    → rotate_refresh_token (record env { utcnow = later }) token p' t' ≡ none
unfolding rotate_refresh_token hash_refresh_token
rotate_refresh_token-once env later token p p' t t' out apart fresh once ids done =
    elim (Option-cases (first (hashed (env.hmac token)) t.sessions)) [
      | inl absent ↦ ground (arith, absent, done)
      | inr (s, found) ↦
          let next = rotated env s (env.token_urlsafe t.tokens) in
          let other : hashed (env.hmac token) next ≡ false =
            other_hash env apart (env.token_urlsafe t.tokens) token fresh in
          let gone = replaced-none (env.hmac token) t.sessions s next once ids found refl other in
          let wrote : t'.sessions ≡ save_row session_id next t.sessions =
            rotation-writes env token p t t' out s found done in
          let absent : first (hashed (env.hmac token)) t'.sessions ≡ none = rw wrote gone in
          ground (arith, absent)
    ]

-- the write of a new hash on a row makes the row what the hash finds
replaced-some :
    (h : String) (xs : List AuthSession) (s' : AuthSession)
    → first (hashed h) xs ≡ none
    → is_none (find_row session_id s'.id xs) ≡ false
    → hashed h s' ≡ true
    → first (hashed h) (save_row session_id s' xs) ≡ some s'
unfolding first save_row find_row
replaced-some h [] s' absent inside hit = ground (arith, inside)
replaced-some h (x ∷ xs) s' absent inside hit =
    ground (arith, absent, inside, hit, replaced-some h xs s')

-- a rotation gives the session that it wrote, which was not revoked
rotation-gives :
    (env : AuthEnv) (token : String) (p : People) (t t' : AuthSessions)
    (out : AuthSession × String × String) (s : AuthSession)
    → first (hashed (env.hmac token)) t.sessions ≡ some s
    → rotate_refresh_token env token p t ≡ some (out, t')
    → (out.0 ≡ rotated env s (env.token_urlsafe t.tokens)) × (is_none s.revoked_at ≡ true)
unfolding rotate_refresh_token is_live
rotation-gives env token p t t' out s found done = ground (arith, found, done)

-- On the table that a rotation leaves, the token that it gave can be rotated in turn, as long as the
-- session has not expired and its member is eligible: where no session had the hash of that token
-- before.
pub rotate_refresh_token-successor :
    (env : AuthEnv) (later : ℕ) (token : String) (p p' : People) (t t' : AuthSessions)
    (out : AuthSession × String × String)
    → first (hashed (env.hmac (env.token_urlsafe t.tokens))) t.sessions ≡ none
    → rotate_refresh_token env token p t ≡ some (out, t')
    → eligible (lock_user out.0.user_id p') ≡ true
    → later < out.0.expires_at
    → is_none
        (rotate_refresh_token (record env { utcnow = later }) (env.token_urlsafe t.tokens) p' t')
      ≡ false
unfolding rotate_refresh_token hash_refresh_token is_live session_seconds_remaining
rotate_refresh_token-successor env later token p p' t t' out fresh done able early =
    elim (Option-cases (first (hashed (env.hmac token)) t.sessions)) [
      | inl absent ↦ ground (arith, absent, done)
      | inr (s, found) ↦
          let next = rotated env s (env.token_urlsafe t.tokens) in
          let h : String = env.hmac (env.token_urlsafe t.tokens) in
          let wrote : t'.sessions ≡ save_row session_id next t.sessions =
            rotation-writes env token p t t' out s found done in
          let (given, open_session) = rotation-gives env token p t t' out s found done in
          let stands =
            replaced-some h t.sessions next fresh
              (found-id (hashed (env.hmac token)) t.sessions s found) (eq_refl h) in
          let present : first (hashed h) t'.sessions ≡ some next = rw wrote stands in
          ground (arith, present, given, open_session, able, early)
    ]
