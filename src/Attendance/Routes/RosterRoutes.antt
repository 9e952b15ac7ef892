-- ===== src/Attendance/Routes/RosterRoutes.antt =====
-- Soundness of the database over `add_expected_member` and `create_attendance_qr_token`.
use enactspace.Shared.{
  ℕ, refl, Bool, String, Option, none, some, List, arith, ◌||◌, not, Bool-cases, inl, inr,
}
use enactspace.Shared.Env.{Env}
use enactspace.Shared.Table.{find_row}
use enactspace.People.Models.{User}
use enactspace.Ledger.Balance.{NeverRepeats}
use enactspace.Server.Handler.{Handler, Session, raise_if, gets, ◌>>=◌, ◌>>◌}
use enactspace.Server.Handler.Laws.{guard-Keeps}
use enactspace.Server.Deps.{current_active_validated_user}
use enactspace.Attendance.Models.{
  AttendanceSession, AttendanceExpectedMember, session_id, expected_of, flush_expected,
}
use enactspace.Attendance.Manual.{operational_member}
use enactspace.Attendance.QrToken.{QrEnv}
use enactspace.Attendance.Scan.{QrSettings, is_open_session}
use enactspace.Attendance.Sessions.{found_session}
use enactspace.Attendance.Roster.{
  is_over, add_row, add_missing, add_in, add_expected_member, token_in, create_attendance_qr_token,
}
use enactspace.Attendance.Routes.Guards.{current_active_same, operational_same, found_session_same}
use enactspace.Attendance.Routes.SessionRoutes.{managed-Gives}
use enactspace.Attendance.Routes.Steps.{Sound, commits, ensure-rest}

module _ (env : Env) (inj : NeverRepeats env.uuid4) (user : User) (ip : Option String)
    (t0 : List AttendanceSession) where
  abbrev Q : Session → Type 0
  Q = Sound env.uuid4 t0

  add_missing-Sound :
      (k u : ℕ) (required : Bool) (found : Option AttendanceExpectedMember) (s : Session)
      → Q s
      → Q (add_missing env user ip k u required found s).1
  unfolding add_missing add_row flush_expected
  add_missing-Sound k u required (some e) s h = h
  add_missing-Sound k u required none s h =
      commits env.uuid4 t0 s (add_missing env user ip k u required none s).1 refl
        (record { ledger = refl; records = refl; later = omega arith; sessions = refl }) h

  add_in-Sound :
      (u : ℕ) (required : Bool) (session : AttendanceSession) (s : Session)
      → Q s
      → Q (add_in env user ip u required session s).1
  unfolding add_in
  add_in-Sound u required session s h =
      let member = operational_member env user ip u s in
      let over : Handler (Unit {0}) =
        raise_if (is_over session.status) 409 "Cette séance est clôturée" in
      let add : Handler AttendanceExpectedMember =
        gets (λ db. expected_of session.id u db.attendance.expected)
        >>= add_missing env user ip session.id u required in
      guard-Keeps Q (λ _. over >> add) member.0 s member.1 (operational_same env user ip u s) h
        (λ _ _.
          guard-Keeps Q (λ _. add) (over s).0 s (over s).1 refl h
            (λ _ _.
              add_missing-Sound session.id u required
                (expected_of session.id u s.work.attendance.expected) s h))

  module _ (qr : QrEnv) (config : QrSettings) where
    token_in-Sound :
        (session : AttendanceSession) (s : Session)
        → Q s
        → Q (token_in env user ip qr config session s).1
    unfolding token_in flush_expected
    token_in-Sound session s h =
        let kept = ensure-rest env inj user ip t0 session s.work.people s.work.attendance in
        elim (Bool-cases (session.is_closed || not (is_open_session session.status))) [
          | inl e ↦ rw e h
          | inr e ↦ rw e (
              commits env.uuid4 t0 s _ refl
                (record { ledger = refl; records = kept.0; later = kept.3; sessions = kept.1 }) h)
        ]

  module _ (id : ℕ) (s : Session) (h : Q s) where
    pub add_expected_member-Sound :
        (u : ℕ) (required : Bool) → Q (add_expected_member env user ip id u required s).1
    unfolding add_expected_member
    add_expected_member-Sound u required =
        managed-Gives env inj user ip t0 id s h Q (add_in env user ip u required) h
          (λ session row. add_in-Sound u required session s h)

    pub create_token-Sound :
        (qr : QrEnv) (config : QrSettings)
        → Q (create_attendance_qr_token env user ip qr config id s).1
    unfolding create_attendance_qr_token
    create_token-Sound qr config =
        let active = current_active_validated_user user s in
        let off : Handler (Unit {0}) = raise_if (not config.enabled) 400 "Pointage QR desactive" in
        let found = find_row session_id id s.work.attendance.sessions in
        let session = found_session env user found s in
        let show = token_in env user ip qr config in
        let rest = gets (λ db. find_row session_id id db.attendance.sessions) >>= λ found.
        found_session env user found >>= show in
        guard-Keeps Q (λ _. off >> rest) active.0 s active.1 (current_active_same user s) h
          (λ _ _.
            guard-Keeps Q (λ _. rest) (off s).0 s (off s).1 refl h
              (λ _ _.
                guard-Keeps Q show session.0 s session.1 (found_session_same env user found s) h
                  (λ a _. token_in-Sound qr config a s h)))
