-- ===== src/Auth/Tests.antt =====
-- A member with one session.
use enactspace.Shared.{◌≡◌, ◌≢◌, refl, true, none, some, [], ◌∷◌}
use enactspace.Shared.{mem_text, arith}
use text.Mathlib.TextEquality.{eq_iff}
use enactspace.Shared.Table.{first, find_row, amend, save_row}
use enactspace.People.Models.{User, People}
use enactspace.Server.Handler.{ok}
use enactspace.Auth.Models.{AuthSession, AuthSessions, Claims, AuthEnv}
use enactspace.Shared.{is_none, false}
use enactspace.Auth.Sessions.{
  eligible, lock_user, hash_refresh_token, rotated, revoked, rotate_refresh_token,
  create_access_token, revoke_user_sessions, user_of_claims,
}
use enactspace.Auth.Revocation.{revoke_user_sessions-closes}
use enactspace.Auth.Rotation.{rotate_refresh_token-once, rotate_refresh_token-successor}

abbrev env : AuthEnv
env = record {
  utcnow = 100;
  uuid4 = λ n. n;
  token_urlsafe = λ n. "new";
  hmac = λ s. s;
  jwt_encode = λ c. "jwt";
  jwt_decode = λ s. none;
  prefix = λ n s. s;
  refresh_token_expire = 1000;
  access_token_expire = 10;
}

abbrev user : User
user = record {
  id = 8;
  first_name = "Awa";
  last_name = "Ndiaye";
  email = "awa@example.org";
  profile_type = "student";
  password_hash = "hash";
  status = "active";
  email_verified = true;
  is_active = true;
  created_at = 1;
  updated_at = 1;
}

abbrev people : People
people = record { users = user ∷ []; user_roles = []; pole_members = []; project_members = [] }

abbrev session : AuthSession
session = record {
  id = 3;
  user_id = 8;
  refresh_token_hash = "old";
  created_at = 50;
  expires_at = 1050;
  last_used_at = none;
  revoked_at = none;
  user_agent = none;
  platform = some "android";
}

abbrev table : AuthSessions
table = record { sessions = session ∷ []; drawn = 4; tokens = 1 }

abbrev rotated_table : AuthSessions
rotated_table = record { sessions = rotated env session "new" ∷ []; drawn = 4; tokens = 2 }

rotates :
    rotate_refresh_token env "old" people table
    ≡ some ((rotated env session "new", create_access_token env 8 3, "new"), rotated_table)
unfolding rotate_refresh_token first save_row mem_text
rotates = refl

new_differs : env.token_urlsafe 1 ≢ "old"
new_differs e = ground (arith, (eq_iff (env.token_urlsafe 1) "old").1 e)

rotate_refresh_token-once_example :
    rotate_refresh_token (record env { utcnow = 120 }) "old" people rotated_table ≡ none
unfolding first find_row
rotate_refresh_token-once_example =
    rotate_refresh_token-once env 120 "old" people people table rotated_table
      (rotated env session "new", create_access_token env 8 3, "new") (λ a b e. e) new_differs
      (refl, tt) (refl, tt) rotates

abbrev claims : Claims
claims = record { sub = some 8; sid = some 3; exp = 110 }

revoke_user_sessions-closes_example :
    (rotate_refresh_token env "old" people (revoke_user_sessions env 8 none table).1 ≡ none)
    × (user_of_claims env claims people (revoke_user_sessions env 8 none table).1 ≢ ok user)
unfolding revoke_user_sessions amend first hash_refresh_token
revoke_user_sessions-closes_example =
    revoke_user_sessions-closes env env 8 table people "old" (revoked env session) claims 3 user
      refl refl refl refl

rotate_refresh_token-successor_example :
    is_none (rotate_refresh_token (record env { utcnow = 120 }) "new" people rotated_table) ≡ false
unfolding first eligible lock_user mem_text
rotate_refresh_token-successor_example =
    rotate_refresh_token-successor env 120 "old" people people table rotated_table
      (rotated env session "new", create_access_token env 8 3, "new") refl rotates refl
      (omega arith)
