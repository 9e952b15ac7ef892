-- ===== src/Auth/Models.antt =====
-- `AuthSession` of models/account.py, and what the session service takes of the Python libraries: the
-- random tokens, the keyed hash and the signed access tokens. Times are seconds.
use enactspace.Shared.{ℕ, String, Option, List}

pub record AuthSession : Type 0 where
  pub id : ℕ
  pub user_id : ℕ
  pub refresh_token_hash : String
  pub created_at : ℕ
  pub expires_at : ℕ
  pub last_used_at : Option ℕ
  pub revoked_at : Option ℕ
  pub user_agent : Option String
  pub platform : Option String

-- The table, with the numbers of identifiers and of refresh tokens drawn.
pub record AuthSessions : Type 0 where
  pub sessions : List AuthSession
  pub drawn : ℕ
  pub tokens : ℕ

-- what `create_access_token` signs; `jti`, which nothing reads, is left out
pub record Claims : Type 0 where
  pub sub : Option ℕ
  pub sid : Option ℕ
  pub exp : ℕ

pub record AuthEnv : Type 0 where
  pub utcnow : ℕ
  pub uuid4 : ℕ → ℕ
  -- the n-th `secrets.token_urlsafe(64)`
  pub token_urlsafe : ℕ → String
  -- `hmac.new(key, token, hashlib.sha256).hexdigest()`
  pub hmac : String → String
  -- `jwt.encode` and `jwt.decode`, the latter without the errors
  pub jwt_encode : Claims → String
  pub jwt_decode : String → Option Claims
  -- `text[:n]`
  pub prefix : ℕ → String → String
  -- the settings REFRESH_TOKEN_EXPIRE_DAYS and ACCESS_TOKEN_EXPIRE_MINUTES, in seconds
  pub refresh_token_expire : ℕ
  pub access_token_expire : ℕ
