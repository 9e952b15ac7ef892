-- ===== src/Attendance/Roster/Display.antt =====
-- The token of `create_attendance_qr_token`, and its validation by a scan.
use enactspace.Shared.{
  ℕ, ◌≤◌, ◌≡◌, ◌∙◌, refl, ap, sym, subst, true, false, String, Option, none, some, arith, not,
}
use enactspace.Shared.Env.{Env}
use enactspace.Shared.Table.{find_row}
use enactspace.Shared.Table.Laws.{find_row-key}
use enactspace.People.Models.{User}
use enactspace.Server.Handler.{Handler, Session, ok, raise_if, gets, ◌>>=◌, ◌>>◌}
use enactspace.Server.Handler.Laws.{then-parts}
use enactspace.Server.Deps.{current_active_validated_user}
use enactspace.Attendance.Models.{AttendanceSession, SessionStatus, session_id}
use enactspace.Attendance.QrToken.{
  QrEnv, AttendanceQrPayload, valid, to_public_dict, validate_attendance_qr_token,
  generate_attendance_qr_token, sign, base64url, base64url_json, decode_base64url_json,
}
use enactspace.Attendance.RoundTrip.{IsCodec, validate-generate}
use enactspace.Attendance.Scan.{QrSettings, is_open_session}
use enactspace.Attendance.Sessions.{found_session}
use enactspace.Attendance.Routes.Guards.{current_active_same, found_session_same, managed_found}
use enactspace.Attendance.Roster.{QrTokenRead, token_read, token_in, create_attendance_qr_token}

-- the payload of a token of the session `id` at the time of the request
abbrev pub payload_at : Env → QrEnv → ℕ → AttendanceQrPayload
payload_at env qr id =
    (generate_attendance_qr_token (record qr { utcnow = env.utcnow }) (env.id_text id) none).1

-- the codec does not read the clock
IsCodec-utcnow :
    (qr : QrEnv) (utcnow : ℕ) (p : AttendanceQrPayload)
    → IsCodec qr p
    → IsCodec (record qr { utcnow = utcnow }) p
unfolding to_public_dict
IsCodec-utcnow qr utcnow p h = record {
  issued = h.issued;
  expires = h.expires;
  loads = h.loads;
  decodes = h.decodes;
  base64 = h.base64;
}

opened_of : (status : SessionStatus) → is_open_session status ≡ true → status ≡ SessionStatus.opened
opened_of SessionStatus.opened e = refl
opened_of SessionStatus.draft e = ground (arith, e)
opened_of SessionStatus.closed e = ground (arith, e)
opened_of SessionStatus.archived e = ground (arith, e)

module _ (env : Env) (user : User) (ip : Option String) (qr : QrEnv) (config : QrSettings) where
  -- the session that is shown is open, and its token is the answer
  shown :
      (session : AttendanceSession) (s : Session) (r : QrTokenRead)
      → (token_in env user ip qr config session s).0 ≡ ok r
      → (is_open_session session.status ≡ true)
        × (session.is_closed ≡ false)
        × (token_read env user ip qr config session ≡ r)
  unfolding token_in
  shown session s r answer = ground (arith, answer)

  module _ (id : ℕ) (s : Session) (r : QrTokenRead)
      (answer : (create_attendance_qr_token env user ip qr config id s).0 ≡ ok r) where
    shown_session :
        (session : AttendanceSession) × (find_row session_id id s.work.attendance.sessions
          ≡ some session)
        × ((token_in env user ip qr config session s).0 ≡ ok r)
    unfolding create_attendance_qr_token
    shown_session =
        let active = current_active_validated_user user s in
        let off : Handler (Unit {0}) = raise_if (not config.enabled) 400 "Pointage QR desactive" in
        let rest : Handler QrTokenRead =
          gets (λ db. find_row session_id id db.attendance.sessions) >>= λ found.
          found_session env user found >>= token_in env user ip qr config in
        let (_, _, on) = then-parts active.0 active.1 (λ _. off >> rest) r answer in
        let on' : ((off >> rest) s).0 ≡ ok r =
          ap (λ (u : Session). ((off >> rest) u).0) (sym (current_active_same user s)) ∙ on in
        let (_, _, looked) = then-parts (off s).0 s (λ _. rest) r on' in
        let found = find_row session_id id s.work.attendance.sessions in
        let f = found_session env user found s in
        let (session, known, told) = then-parts f.0 f.1 (token_in env user ip qr config) r looked in
        (
          session,
          managed_found env user found s session known,
          ap (λ (u : Session). (token_in env user ip qr config session u).0)
                (sym (found_session_same env user found s))
              ∙ told,
        )

  token_validates :
      (session : AttendanceSession) (now : ℕ)
      → IsCodec qr (payload_at env qr session.id)
      → let read = token_read env user ip qr config session in
        now ≤ read.expires_at
        → (p : AttendanceQrPayload) × (validate_attendance_qr_token qr now read.token ≡ valid p)
          × (p.session_id ≡ env.id_text session.id)
          × (p.expires_at ≡ read.expires_at)
  unfolding validate_attendance_qr_token to_public_dict generate_attendance_qr_token sign base64url
      base64url_json decode_base64url_json
  token_validates session now codec early =
      let qr' : QrEnv = record qr { utcnow = env.utcnow } in
      let p = (generate_attendance_qr_token qr' (env.id_text session.id) none).1 in
      (
        p,
        validate-generate qr' (env.id_text session.id) none now
            (IsCodec-utcnow qr env.utcnow p codec) early,
        refl,
        refl,
      )

  -- Where `create_attendance_qr_token` answers, the session is in the table, open and not closed,
  -- and the token that it answers is valid until it expires, as a token of that session: its payload
  -- names the session's id and the expiry that the route answered. Of the libraries this takes what
  -- `IsCodec` lists for that payload: JSON, base64 and dates give back what they wrote.
  pub create_token-validates :
      (id : ℕ) (s : Session) (r : QrTokenRead) (now : ℕ)
      → IsCodec qr (payload_at env qr id)
      → (create_attendance_qr_token env user ip qr config id s).0 ≡ ok r
      → now ≤ r.expires_at
      → (session : AttendanceSession) × (p : AttendanceQrPayload) × (find_row session_id id
            s.work.attendance.sessions
          ≡ some session)
        × (session.status ≡ SessionStatus.opened)
        × (session.is_closed ≡ false)
        × (validate_attendance_qr_token qr now r.token ≡ valid p)
        × (p.session_id ≡ env.id_text id)
        × (p.expires_at ≡ r.expires_at)
  create_token-validates id s r now codec answer early =
      let (session, found, told) = shown_session id s r answer in
      let (running, not_closed, read) = shown session s r told in
      let keyed : session.id ≡ id =
        find_row-key session_id id s.work.attendance.sessions session found in
      let (p, accepted, named, expiry) =
        token_validates session now
          (subst (λ k. IsCodec qr (payload_at env qr k)) (sym keyed) codec)
          (rw (sym (ap (λ (x : QrTokenRead). x.expires_at) read)) at early) in
      (
        session,
        p,
        found,
        opened_of session.status running,
        not_closed,
        ap (λ (x : QrTokenRead). validate_attendance_qr_token qr now x.token) (sym read) ∙ accepted,
        named ∙ ap env.id_text keyed,
        expiry ∙ ap (λ (x : QrTokenRead). x.expires_at) read,
      )
