-- ===== src/Attendance/Roster.antt =====
-- The two routes that serve an open session: `add_expected_member` and `create_attendance_qr_token`
-- of api/routes/attendance.py.
pub mod Again
pub mod Display
use enactspace.Shared.{
  ℕ, ◌+◌, String, Bool, true, false, ◌||◌, not, Option, none, some, [], ◌∷◌, ◌++◌,
}
use enactspace.Shared.Env.{Env}
use enactspace.Shared.Table.{find_row}
use enactspace.People.Models.{User}
use enactspace.Server.Models.{Json}
use enactspace.Server.Handler.{
  Handler, pure, raise, raise_if, gets, modify_attendance, audit, ◌>>=◌, ◌>>◌,
}
use enactspace.Server.Deps.{current_active_validated_user}
use enactspace.Attendance.Models.{
  Attendance, AttendanceSession, AttendanceExpectedMember, SessionStatus, session_id, expected_of,
}
use enactspace.Attendance.Expected.{new_expected}
use enactspace.Attendance.Manual.{operational_member}
use enactspace.Attendance.QrToken.{QrEnv, AttendanceQrPayload, generate_attendance_qr_token}
use enactspace.Attendance.Scan.{QrSettings, is_open_session}
use enactspace.Attendance.Sessions.{ensure_expected, commit_all, found_session, managed_session}

-- `session.status in {"closed", "archived"}`
abbrev pub is_over : SessionStatus → Bool
is_over SessionStatus.closed = true
is_over SessionStatus.archived = true
is_over SessionStatus.draft = false
is_over SessionStatus.opened = false

-- `AttendanceQrTokenRead`
pub record QrTokenRead : Type 0 where
  pub token : String
  pub expires_at : ℕ
  pub rotation_seconds : ℕ
  pub session_id : ℕ

module _ (env : Env) (current_user : User) (ip : Option String) where
  -- the row of `add_expected_member`
  unfoldable pub required_row : ℕ → ℕ → Bool → ℕ → AttendanceExpectedMember
  required_row session_id user_id is_required drawn =
      record (new_expected env session_id user_id drawn) { is_required = is_required }

  unfoldable pub add_row : AttendanceExpectedMember → Attendance → Attendance
  add_row e t = record t { pending = t.pending ++ e ∷ []; drawn = t.drawn + 1 }

  -- the rest of the route, by what the query for the member's place finds. The commit raises an
  -- IntegrityError only where another request has added the member since the query: requests are
  -- served one after the other here.
  unfoldable pub add_missing :
      ℕ → ℕ → Bool → Option AttendanceExpectedMember → Handler AttendanceExpectedMember
  add_missing session_id user_id is_required (some e) = pure e
  add_missing session_id user_id is_required none = do
    drawn ← gets (λ db. db.attendance.drawn)
    let e = required_row session_id user_id is_required drawn
    modify_attendance (add_row e)
    commit_all
    pure e

  -- on the session that is locked
  unfoldable pub add_in : ℕ → Bool → AttendanceSession → Handler AttendanceExpectedMember
  add_in user_id is_required session = do
    user ← operational_member env current_user ip user_id
    raise_if (is_over session.status) 409 "Cette séance est clôturée"
    found ← gets (λ db. expected_of session.id user_id db.attendance.expected)
    add_missing session.id user_id is_required found

  unfoldable pub add_expected_member : ℕ → ℕ → Bool → Handler AttendanceExpectedMember
  add_expected_member id user_id is_required = do
    session ← managed_session env current_user id
    add_in user_id is_required session

  module _ (qr : QrEnv) (config : QrSettings) where
    -- the token of a session at the time of the request
    abbrev pub fresh_token : AttendanceSession → String × AttendanceQrPayload
    fresh_token session =
        generate_attendance_qr_token (record qr { utcnow = env.utcnow }) (env.id_text session.id)
          none

    abbrev pub token_read : AttendanceSession → QrTokenRead
    token_read session = record {
      token = (fresh_token session).0;
      expires_at = (fresh_token session).1.expires_at;
      rotation_seconds = config.rotation_seconds;
      session_id = session.id;
    }

    -- on the session that is found
    unfoldable pub token_in : AttendanceSession → Handler QrTokenRead
    token_in session = do
      raise_if (session.is_closed || not (is_open_session session.status)) 400
          "La seance doit etre ouverte pour afficher un QR"
      added ← ensure_expected env session
      audit env "attendance_qr_token_generated" (some current_user.id) (some "attendance_session")
          (some session.id) none
          (some (
            ("expires_at", Json.text (qr.isoformat (fresh_token session).1.expires_at))
            ∷ ("rotation_seconds", Json.number config.rotation_seconds)
            ∷ []))
          ip
      commit_all
      pure (token_read session)

    unfoldable pub create_attendance_qr_token : ℕ → Handler QrTokenRead
    create_attendance_qr_token id = do
      current_active_validated_user current_user
      raise_if (not config.enabled) 400 "Pointage QR desactive"
      found ← gets (λ db. find_row session_id id db.attendance.sessions)
      session ← found_session env current_user found
      token_in session
