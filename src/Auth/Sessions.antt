-- ===== src/Auth/Sessions.antt =====
-- services/session_service.py, and `get_current_user` of api/deps.py. Where the service raises
-- `_invalid_session()`, its function gives none.
use enactspace.Shared.{
  ℕ, ◌+◌, ◌-◌, String, Bool, true, false, not, ◌&&◌, Option, none, some, [], ◌∷◌, ◌++◌, ◌==◌,
  str_eq, is_none, mem_text, if◌then◌else◌,
}
use enactspace.Shared.Table.{first, select, amend, save_row, length}
use enactspace.People.Models.{User, People}
use enactspace.Outbox.Service.{or_default}
use enactspace.Server.Handler.{Result, ok, err, http_exception}
use enactspace.Auth.Models.{AuthSession, AuthSessions, Claims, AuthEnv}

-- `_eligible`
unfoldable pub eligible : Option User → Bool
eligible none = false
eligible (some user) =
    user.is_active && user.email_verified && mem_text user.status ("active" ∷ "alumni" ∷ [])

-- `_lock_user`, without the lock
unfoldable pub lock_user : ℕ → People → Option User
lock_user user_id p = first (λ (u : User). u.id == user_id) p.users

-- an empty text is stored as null
abbrev pub or_null : String → Option String
or_null s = if str_eq s "" then none else some s

module _ (env : AuthEnv) where
  unfoldable pub hash_refresh_token : String → String
  hash_refresh_token token = env.hmac token

  -- the time left, down to 0
  unfoldable pub session_seconds_remaining : AuthSession → ℕ
  session_seconds_remaining s = s.expires_at - env.utcnow

  abbrev pub has_hash : String → AuthSession → Bool
  has_hash h s = str_eq s.refresh_token_hash h

  unfoldable pub create_access_token : ℕ → ℕ → String
  create_access_token subject session_id = env.jwt_encode (record {
    sub = some subject;
    sid = some session_id;
    exp = env.utcnow + env.access_token_expire;
  })

  -- the row that `create_session_tokens` adds
  unfoldable pub new_session : User → Option String → Option String → String → ℕ → AuthSession
  unfolding hash_refresh_token
  new_session user user_agent platform refresh_token drawn = record {
    id = env.uuid4 drawn;
    user_id = user.id;
    refresh_token_hash = hash_refresh_token refresh_token;
    created_at = env.utcnow;
    expires_at = env.utcnow + env.refresh_token_expire;
    last_used_at = none;
    revoked_at = none;
    user_agent = or_null (env.prefix 255 (or_default user_agent ""));
    platform = some (or_default platform "unknown");
  }

  -- The session, the access token and the refresh token.
  unfoldable pub create_session_tokens :
      User
      → Option String
      → Option String
      → People
      → AuthSessions
      → Option ((AuthSession × String × String) × AuthSessions)
  unfolding eligible lock_user new_session create_access_token
  create_session_tokens user user_agent platform p t =
      let refresh_token = env.token_urlsafe t.tokens in
      let session = new_session user user_agent platform refresh_token t.drawn in
      if not (eligible (lock_user user.id p))
      then none
      else some (
        (session, create_access_token user.id session.id, refresh_token),
        record {
          sessions = t.sessions ++ session ∷ [];
          drawn = t.drawn + 1;
          tokens = t.tokens + 1;
        },
      )

  -- the test on the session of the token
  unfoldable pub is_live : AuthSession → Bool
  unfolding session_seconds_remaining
  is_live s = is_none s.revoked_at && not (session_seconds_remaining s == 0)

  abbrev pub rotated : AuthSession → String → AuthSession
  rotated s token = record s {
    refresh_token_hash = hash_refresh_token token;
    last_used_at = some env.utcnow;
  }

  abbrev pub save_session : AuthSession → AuthSessions → AuthSessions
  save_session s t = record t { sessions = save_row (λ (x : AuthSession). x.id) s t.sessions }

  unfoldable pub rotate_refresh_token :
      String → People → AuthSessions → Option ((AuthSession × String × String) × AuthSessions)
  unfolding eligible lock_user is_live create_access_token hash_refresh_token
  rotate_refresh_token refresh_token p t =
      let next_refresh_token = env.token_urlsafe t.tokens in
      elim (first (has_hash (hash_refresh_token refresh_token)) t.sessions) [
        | none ↦ none
        | some s ↦
            if not (eligible (lock_user s.user_id p))
            then none
            else if not (is_live s)
            then none
            else some (
              (
                rotated s next_refresh_token,
                create_access_token s.user_id s.id,
                next_refresh_token,
              ),
              save_session (rotated s next_refresh_token) (record t { tokens = t.tokens + 1 }),
            )
      ]

  abbrev pub is_except : Option ℕ → ℕ → Bool
  is_except none id = false
  is_except (some e) id = e == id

  -- the sessions that `revoke_user_sessions` writes
  abbrev pub revocable : ℕ → Option ℕ → AuthSession → Bool
  revocable user_id except_session_id s =
      s.user_id == user_id && is_none s.revoked_at && not (is_except except_session_id s.id)

  abbrev pub revoked : AuthSession → AuthSession
  revoked s = record s { revoked_at = some env.utcnow }

  -- The number of rows that the UPDATE wrote.
  unfoldable pub revoke_user_sessions : ℕ → Option ℕ → AuthSessions → ℕ × AuthSessions
  revoke_user_sessions user_id except_session_id t = (
    length (select (revocable user_id except_session_id) t.sessions),
    record t { sessions = amend (revocable user_id except_session_id) revoked t.sessions },
  )

  -- The query for the session to close: by the claims of a valid access token, else by the hash.
  unfoldable pub names_session : String → Option String → AuthSession → Bool
  unfolding hash_refresh_token
  names_session refresh_token none s = has_hash (hash_refresh_token refresh_token) s
  names_session refresh_token (some access_token) s = elim (env.jwt_decode access_token) [
    | none ↦ has_hash (hash_refresh_token refresh_token) s
    | some claims ↦ elim claims.sid [
      | none ↦ has_hash (hash_refresh_token refresh_token) s
      | some sid ↦ elim claims.sub [
        | none ↦ has_hash (hash_refresh_token refresh_token) s
        | some sub ↦ s.id == sid && s.user_id == sub
      ]
    ]
  ]

  unfoldable pub revoke_current_session :
      String → Option String → AuthSessions → Option AuthSession × AuthSessions
  unfolding names_session
  revoke_current_session refresh_token access_token t =
      elim (first (names_session refresh_token access_token) t.sessions) [
        | none ↦ (none, t)
        | some s ↦
            if not (is_none s.revoked_at)
            then (none, t)
            else (some (revoked s), save_session (revoked s) t)
      ]

  -- the session that an access token names, where it names one
  unfoldable pub session_accepted : User → Option ℕ → AuthSessions → Bool
  unfolding is_live
  session_accepted user none t = true
  session_accepted user (some sid) t =
      elim (first (λ s. s.id == sid && s.user_id == user.id) t.sessions) [
        | none ↦ false
        | some s ↦ is_live s
      ]

  -- `get_current_user`, from the claims on
  unfoldable pub user_of_claims : Claims → People → AuthSessions → Result User
  unfolding session_accepted
  user_of_claims claims p t = elim claims.sub [
    | none ↦ err (http_exception 401 "Token invalide ou expiré")
    | some user_id ↦ elim (first (λ (u : User). u.id == user_id) p.users) [
      | none ↦ err (http_exception 401 "Utilisateur introuvable")
      | some user ↦
          if not user.is_active
          then err (http_exception 403 "Compte désactivé")
          else if not (session_accepted user claims.sid t)
          then err (http_exception 401 "Session révoquée ou expirée")
          else ok user
    ]
  ]

  unfoldable pub get_current_user : String → People → AuthSessions → Result User
  unfolding user_of_claims
  get_current_user token p t = elim (env.jwt_decode token) [
    | none ↦ err (http_exception 401 "Token invalide ou expiré")
    | some claims ↦ user_of_claims claims p t
  ]
