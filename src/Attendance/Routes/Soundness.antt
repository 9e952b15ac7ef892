-- ===== src/Attendance/Routes/Soundness.antt =====
-- Soundness of the database over the attendance requests and their runs.
use enactspace.Shared.{List, refl, ℕ, String, Option}
use enactspace.Shared.Env.{Env}
use enactspace.People.Models.{User}
use enactspace.Ledger.Balance.{NeverRepeats}
use enactspace.Server.Models.{Db}
use enactspace.Server.Handler.{Session, respond}
use enactspace.Attendance.QrToken.{QrEnv}
use enactspace.Attendance.Scan.{QrSettings}
use enactspace.Attendance.Invariant.{IsSound}
use enactspace.Attendance.Routes.{AttendanceRequest, serve, Reaches, start, then}
use enactspace.Attendance.Routes.Steps.{Sound, Done, Sound-Done}
use enactspace.Attendance.Invariant.Sessions.{Follows, Follows-refl, Follows-trans}
use enactspace.Attendance.Models.{AttendanceSession}
use enactspace.Attendance.Routes.SessionRoutes.{
  open_session-Done, close_session-Done, archive_session-Done,
}
use enactspace.Attendance.Routes.RosterRoutes.{create_token-Sound, add_expected_member-Sound}
use enactspace.Attendance.Routes.ScanRoutes.{scan_qr-Sound}
use enactspace.Attendance.Routes.Entries.{
  submit-Sound, approve-Sound, reject-Sound, update_record-Sound, create_record-Sound,
  create_manual-Sound,
}

module _ (env : Env) (inj : NeverRepeats env.uuid4) (qr : QrEnv) (config : QrSettings) (utcnow : ℕ)
    (user : User) (ip : Option String) (db : Db) (h : IsSound env.uuid4 db) where
  abbrev env' : Env
  env' = record env { utcnow = utcnow }

  abbrev s : Session
  s = record { saved = db; work = db }

  abbrev T : List AttendanceSession
  T = db.attendance.sessions

  begun : Sound env.uuid4 T s
  begun = record { saved = h; work = h; saved_sessions = refl; sessions = refl }

  -- a route that writes no session
  done : (s' : Session) → Sound env.uuid4 T s' → Done env.uuid4 T s'
  done = Sound-Done env.uuid4 T

  both :
      {s' : Session}
      → Done env.uuid4 T s'
      → IsSound env.uuid4 s'.saved × Follows T s'.saved.attendance.sessions
  both d = (d.saved, d.follows)

  request-Done :
      (request : AttendanceRequest)
      → let db' =
          serve env qr config
            (record { utcnow = utcnow; current_user = user; ip = ip; request = request })
            db in
        IsSound env.uuid4 db' × Follows db.attendance.sessions db'.attendance.sessions
  unfolding serve respond
  request-Done (AttendanceRequest.open_session id) =
      both (open_session-Done env' inj user ip T id s begun)
  request-Done (AttendanceRequest.close_session id) =
      both (close_session-Done env' inj user ip T id s begun)
  request-Done (AttendanceRequest.archive_session id) =
      both (archive_session-Done env' inj user ip T id s begun)
  request-Done (AttendanceRequest.show_qr id) =
      both (done _ (create_token-Sound env' inj user ip T id s begun qr config))
  request-Done (AttendanceRequest.expect_member id user_id is_required) =
      both (done _ (add_expected_member-Sound env' inj user ip T id s begun user_id is_required))
  request-Done (AttendanceRequest.scan_qr token attempts) =
      both (done _ (scan_qr-Sound env' inj user ip T qr config token attempts s begun))
  request-Done (AttendanceRequest.create_record id i) =
      both (done _ (create_record-Sound env' inj user ip T id s begun i))
  request-Done (AttendanceRequest.create_manual id i) =
      both (done _ (create_manual-Sound env' inj user ip T id s begun i))
  request-Done (AttendanceRequest.update_record id payload) =
      both (done _ (update_record-Sound env' inj user ip T id s begun payload))
  request-Done (AttendanceRequest.submit_justification id reason file_id file_url) =
      both (done _ (submit-Sound env' inj user ip T id s begun reason file_id file_url))
  request-Done (AttendanceRequest.approve_justification id reason) =
      both (done _ (approve-Sound env' inj user ip T id s begun reason))
  request-Done (AttendanceRequest.reject_justification id reason) =
      both (done _ (reject-Sound env' inj user ip T id s begun reason))

module _ (env : Env) (qr : QrEnv) (config : QrSettings) (inj : NeverRepeats env.uuid4) where
  reached :
      (db db' : Db)
      → IsSound env.uuid4 db
      → Reaches env qr config db db'
      → IsSound env.uuid4 db' × Follows db.attendance.sessions db'.attendance.sessions
  reached db db' h start = (h, Follows-refl db.attendance.sessions)
  reached db db' h (then {db' = db''} r c) =
      let (sound, follows) = reached db db'' h r in
      let (sound', follows') =
        request-Done env inj qr config c.utcnow c.current_user c.ip db'' sound c.request in
      (
        sound',
        Follows-trans db.attendance.sessions db''.attendance.sessions
            (serve env qr config c db'').attendance.sessions follows follows',
      )

-- On every database that attendance requests reach from a sound one, at most one record stands for a
-- member and a session, at most one fee names a record, each fee that names a record names one of
-- the table, whose member it charges, and the ledger is still consistent: the balances follow the
-- penalties. `uuid4` gives no value twice.
pub Reaches-IsSound :
    (env : Env) (qr : QrEnv) (config : QrSettings) (db db' : Db)
    → NeverRepeats env.uuid4
    → IsSound env.uuid4 db
    → Reaches env qr config db db'
    → IsSound env.uuid4 db'
Reaches-IsSound env qr config db db' inj h r = (reached env qr config inj db db' h r).0

-- Attendance requests on a sound database leave the sessions that were there, in their order; the
-- status of each only moves forward from draft to open, closed and archived, and a session whose
-- closed flag fitted its status still has one that fits. `uuid4` gives no value twice.
pub Reaches-Follows :
    (env : Env) (qr : QrEnv) (config : QrSettings) (db db' : Db)
    → NeverRepeats env.uuid4
    → IsSound env.uuid4 db
    → Reaches env qr config db db'
    → Follows db.attendance.sessions db'.attendance.sessions
Reaches-Follows env qr config db db' inj h r = (reached env qr config inj db db' h r).1
