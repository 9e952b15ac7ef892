-- ===== src/Attendance/Routes/Entries.antt =====
-- Soundness of the database over the routes of attendance records: the entries of a manager and the
-- justifications.
use enactspace.Shared.{
  ℕ, ◌≡◌, refl, sym, inl, inr, String, Option, none, some, List, [], ◌∷◌, ◌++◌, ◌∙◌, Bool-cases,
  arith, not, ◌==◌, str_eq, ltb, fstring,
}
use enactspace.Shared.Env.{Env}
use enactspace.Shared.Table.{find_row}
use enactspace.People.Models.{User}
use enactspace.Ledger.Balance.{NeverRepeats}
use enactspace.Ledger.Models.{Fee}
use enactspace.Server.Handler.{raise_if, Handler, Session, ◌>>=◌, ◌>>◌}
use enactspace.Server.Handler.Laws.{then-Keeps, guard-Keeps}
use enactspace.Server.Deps.{current_active_validated_user}
use enactspace.Attendance.Models.{AttendanceSession, AttendanceRecord, record_id, flush_expected}
use enactspace.Attendance.Access.{require_can_manage_session}
use enactspace.Attendance.Penalty.{sync_attendance_penalty}
use enactspace.Attendance.Records.{RecordInput, upsert_record, notify_record_change}
use enactspace.Attendance.Invariant.{IsSound, Stored}
use enactspace.Attendance.Invariant.Writes.{sync-IsSound}
use enactspace.Attendance.Justifications.{
  locked_record, notify_justification_reviewers, submitted_record, submit_reason, submit_in,
  submit_absence_justification, approved_record, audit_review, log_review, approve_absence,
  approve_in, approve_absence_justification, rejected_record, reject_absence, reject_in,
  reject_absence_justification, ids_of, is_empty, is_absence, can_be_submitted, is_awaiting,
  text_or_blank,
}
use enactspace.Attendance.Penalty.{penalty_of}
use enactspace.Attendance.Manual.{
  RecordUpdate, log_entry, enter_record, require_open, create_in, operational_member, manual_in,
  create_session_attendance_record, create_manual_attendance, updated_input, log_update, update_in,
  update_attendance_record,
}
use enactspace.Attendance.Routes.SessionRoutes.{managed-Gives}
use enactspace.Attendance.Routes.Guards.{
  current_active_same, operational_same, require_can_manage_same, locked_record_same,
  locked_record_row,
}
use enactspace.Attendance.Routes.Steps.{
  Sound, works, commits, upsert-Sound, sync-sessions, notify_change-Sound,
}

abbrev protected_detail : String
protected_detail = "Utilisez le workflow de justification pour modifier cet état"

module _ (env : Env) (inj : NeverRepeats env.uuid4) (user : User) (ip : Option String)
    (t0 : List AttendanceSession) where
  abbrev Q : Session → Type 0
  Q = Sound env.uuid4 t0

  notify_reviewers-Sound :
      (r : AttendanceRecord) (session : AttendanceSession) (s : Session)
      → Q s
      → Q (notify_justification_reviewers env r session s).1
  unfolding notify_justification_reviewers
  notify_reviewers-Sound r session s h =
      let reviewers = ids_of session.created_by ++ ids_of r.recorded_by in
      elim (Bool-cases (is_empty reviewers)) [
        | inr e ↦ rw e (
            works env.uuid4 t0 s _ refl
              (record { ledger = refl; records = refl; later = omega arith; sessions = refl }) h)
        | inl e ↦ elim (Bool-cases (is_absence r.status)) [
          | inl f ↦
              rw (e, f)
                (works env.uuid4 t0 s _ refl
                  (record { ledger = refl; records = refl; later = omega arith; sessions = refl })
                  h)
          | inr f ↦ rw (e, f) h
        ]
      ]

  review-Sound : (fee : Option Fee) (s : Session) → Q s → Q (audit_review env user ip fee s).1
  unfolding audit_review
  review-Sound none s h = h
  review-Sound (some fee) s h = elim (Bool-cases (ltb 0 fee.amount_paid)) [
    | inl e ↦ rw e (
        works env.uuid4 t0 s _ refl
          (record { ledger = refl; records = refl; later = omega arith; sessions = refl }) h)
    | inr e ↦ rw e h
  ]

  module _ (session : AttendanceSession) where
    log_entry-Sound :
        (action : String) (r : AttendanceRecord) (s : Session)
        → Q s
        → Q (log_entry env user ip action session r s).1
    unfolding log_entry flush_expected notify_record_change
    log_entry-Sound action r s h =
        let s' = (notify_record_change env r session s).1 in
        commits env.uuid4 t0 s' (log_entry env user ip action session r s).1 refl
          (record { ledger = refl; records = refl; later = omega arith; sessions = refl })
          (notify_change-Sound env inj user ip t0 r session s h)

    enter_record-Sound :
        (action : String) (i : RecordInput) (s : Session)
        → Q s
        → Q (enter_record env user ip action session i s).1
    unfolding enter_record
    enter_record-Sound action i s h =
        let r = upsert_record env user session i s in
        then-Keeps Q (λ a. log_entry env user ip action session a) (log_entry-Sound action) r.0 r.1
          (upsert-Sound env inj user ip t0 session i s h)

    create_in-Sound :
        (i : RecordInput) (s : Session) → Q s → Q (create_in env user ip session i s).1
    unfolding create_in
    create_in-Sound i s h =
        let required = require_open env user ip session s in
        guard-Keeps Q (λ _. enter_record env user ip "creation_presence_admin" session i) required.0
          s required.1 (unfold require_open in refl) h
          (λ a e. enter_record-Sound "creation_presence_admin" i s h)

    manual_in-Sound :
        (i : RecordInput) (s : Session) → Q s → Q (manual_in env user ip session i s).1
    unfolding manual_in
    manual_in-Sound i s h =
        let required = require_open env user ip session s in
        let m = operational_member env user ip i.user_id s in
        let entered = λ (_ : User). enter_record env user ip "pointage_manuel" session i in
        guard-Keeps Q (λ _. operational_member env user ip i.user_id >>= entered) required.0 s
          required.1 (unfold require_open in refl) h
          (λ a e.
            guard-Keeps Q entered m.0 s m.1 (operational_same env user ip i.user_id s) h
              (λ b f. enter_record-Sound "pointage_manuel" i s h))

    log_update-Sound :
        (r r' : AttendanceRecord) (s : Session) → Q s → Q (log_update env user ip session r r' s).1
    unfolding log_update flush_expected notify_record_change
    log_update-Sound r r' s h =
        let s' = (notify_record_change env r' session s).1 in
        commits env.uuid4 t0 s' (log_update env user ip session r r' s).1 refl
          (record { ledger = refl; records = refl; later = omega arith; sessions = refl })
          (notify_change-Sound env inj user ip t0 r' session s h)

    update_in-Sound :
        (payload : RecordUpdate) (r : AttendanceRecord) (s : Session)
        → Q s
        → Q (update_in env user ip payload session r s).1
    unfolding update_in
    update_in-Sound payload r s h =
        let i = updated_input env user ip payload r in
        let up = upsert_record env user session i s in
        let allowed = require_can_manage_session env user session s in
        let entered =
          upsert_record env user session i >>= λ r'. log_update env user ip session r r' in
        let named = raise_if payload.names_protected_field 409 protected_detail in
        guard-Keeps Q (λ _. named >> entered) allowed.0 s allowed.1
          (require_can_manage_same env user session s) h
          (λ _ _.
            guard-Keeps Q (λ _. entered) (named s).0 s (named s).1 refl h
              (λ _ _.
                then-Keeps Q (λ r'. log_update env user ip session r r') (log_update-Sound r) up.0
                  up.1 (upsert-Sound env inj user ip t0 session i s h)))

    -- the routes on a record that stands in the table
    module _ (r : AttendanceRecord) (s : Session) (h : Q s)
        (row : find_row record_id r.id s.work.attendance.records ≡ some r) where
      synced :
          (r' : AttendanceRecord)
          → r'.id ≡ r.id
          → r'.session_id ≡ r.session_id
          → r'.user_id ≡ r.user_id
          → IsSound env.uuid4 (sync_attendance_penalty env user r' s.work).1
      synced r' id session user_id =
          let stored : Stored s.work.attendance.records r' = record {
            row = r;
            found = rw id row;
            same_session = sym session;
            same_user = sym user_id;
          } in
          sync-IsSound env user inj r' s.work stored h.work

      synced-Sound :
          (r' : AttendanceRecord)
          → r'.id ≡ r.id
          → r'.session_id ≡ r.session_id
          → r'.user_id ≡ r.user_id
          → Q (record s { work = (sync_attendance_penalty env user r' s.work).1 })
      synced-Sound r' id session user_id = record {
        saved = h.saved;
        work = synced r' id session user_id;
        saved_sessions = h.saved_sessions;
        sessions = sync-sessions env user r' s.work ∙ h.sessions;
      }

      submit_reason-Sound :
          (reason : String) (file_id : Option ℕ) (file_url : Option String)
          → Q (submit_reason env user ip reason file_id file_url session r s).1
      unfolding submit_reason flush_expected notify_justification_reviewers
      submit_reason-Sound reason file_id file_url =
          let r1 = submitted_record env user ip reason file_id file_url r in
          let (r', db) = sync_attendance_penalty env user r1 s.work in
          let s1 : Session = record s { work = db } in
          let s2 = (notify_justification_reviewers env r' session s1).1 in
          commits env.uuid4 t0 s2 (submit_reason env user ip reason file_id file_url session r s).1
            refl (record { ledger = refl; records = refl; later = omega arith; sessions = refl })
            (notify_reviewers-Sound r' session s1 (
              synced-Sound r1 (unfold submitted_record in refl) (unfold submitted_record in refl)
                (unfold submitted_record in refl)))

      submit_in-Sound :
          (reason : String) (file_id : Option ℕ) (file_url : Option String)
          → Q (submit_in env user ip reason file_id file_url session r s).1
      unfolding submit_in
      submit_in-Sound reason file_id file_url = elim (Bool-cases (r.user_id == user.id)) [
        | inr a ↦ rw a h
        | inl a ↦ elim (Bool-cases (is_absence r.status)) [
          | inr b ↦ rw (a, b) h
          | inl b ↦ elim (Bool-cases (can_be_submitted r.justification_status)) [
            | inr c ↦ rw (a, b, c) h
            | inl c ↦ elim (Bool-cases (str_eq (env.strip reason) "")) [
              | inl d ↦ rw (a, b, c, d) h
              | inr d ↦ rw (a, b, c, d) (submit_reason-Sound (env.strip reason) file_id file_url)
            ]
          ]
        ]
      ]

      log_review-Sound :
          (action outcome title message notice : String) (r' : AttendanceRecord) (t : Session)
          → Q t
          → Q (log_review env user ip action outcome title message notice r' t).1
      unfolding log_review flush_expected
      log_review-Sound action outcome title message notice r' t k =
          commits env.uuid4 t0 t (log_review env user ip action outcome title message notice r' t).1
            refl (record { ledger = refl; records = refl; later = omega arith; sessions = refl }) k

      approve_absence-Sound :
          (reason : Option String) → Q (approve_absence env user ip reason session r s).1
      unfolding approve_absence
      approve_absence-Sound reason =
          let r1 = approved_record env user ip reason r in
          let (r', db) = sync_attendance_penalty env user r1 s.work in
          let s1 : Session = record s { work = db } in
          let fee = penalty_of r.id s.work.ledger.fees in
          let review = audit_review env user ip fee s1 in
          let body =
            fstring ("Votre justification pour " ∷ session.title ∷ " a ete approuvee." ∷ []) in
          then-Keeps Q
            (λ (_ : Unit {0}).
              log_review env user ip "approbation_justification_presence" "approved"
                "Justification approuvee" body "attendance_justification_approved" r')
            (λ _ t q. log_review-Sound _ _ _ body _ r' t q) review.0 review.1
            (review-Sound fee s1 (
              synced-Sound r1 (unfold approved_record in refl) (unfold approved_record in refl)
                (unfold approved_record in refl)))

      reject_absence-Sound : (reason : String) → Q (reject_absence env user ip reason session r s).1
      unfolding reject_absence
      reject_absence-Sound reason =
          let r1 = rejected_record env user ip reason r in
          let (r', db) = sync_attendance_penalty env user r1 s.work in
          let s1 : Session = record s { work = db } in
          log_review-Sound _ _ _ _ _ r' s1 (
            synced-Sound r1 (unfold rejected_record in refl) (unfold rejected_record in refl)
              (unfold rejected_record in refl))

      -- a review of the record, after its permission and its status
      review_in-Sound :
          {A : Type 0} (k : Handler A) (detail : String)
          → Q (k s).1
          → Q
              (◌>>=◌
                (require_can_manage_session env user session)
                (λ _. raise_if (not (is_awaiting r.justification_status)) 409 detail >> k)
                s).1
      review_in-Sound k detail keeps =
          let allowed = require_can_manage_session env user session s in
          guard-Keeps Q (λ _. raise_if (not (is_awaiting r.justification_status)) 409 detail >> k)
            allowed.0 s allowed.1 (require_can_manage_same env user session s) h
            (λ _ _. elim (Bool-cases (is_awaiting r.justification_status)) [
              | inl e ↦ rw e keeps
              | inr e ↦ rw e h
            ])

      approve_in-Sound : (reason : Option String) → Q (approve_in env user ip reason session r s).1
      unfolding approve_in
      approve_in-Sound reason =
          review_in-Sound (approve_absence env user ip reason session r) _
            (approve_absence-Sound reason)

      reject_in-Sound : (reason : Option String) → Q (reject_in env user ip reason session r s).1
      unfolding reject_in
      reject_in-Sound reason =
          let text = env.strip (text_or_blank env user ip reason) in
          review_in-Sound
            (raise_if (str_eq text "") 400 "Le motif de refus est obligatoire"
              >> reject_absence env user ip text session r)
            _
            (elim (Bool-cases (str_eq text "")) [
              | inl e ↦ rw e h
              | inr e ↦ rw e (reject_absence-Sound text)
            ])

  module _ (id : ℕ) (s : Session) (h : Q s) where
    -- the session and the record that are locked, and the route on them
    locked-Sound :
        (k : AttendanceSession → AttendanceRecord → Handler AttendanceRecord)
        → ((session : AttendanceSession) (r : AttendanceRecord)
            → find_row record_id r.id s.work.attendance.records ≡ some r
            → Q (k session r s).1)
        → Q ((current_active_validated_user user >> (locked_record env id >>= λ p. k p.0 p.1)) s).1
    locked-Sound k keeps =
        let active = current_active_validated_user user s in
        let locked = locked_record env id s in
        guard-Keeps Q (λ _. locked_record env id >>= λ p. k p.0 p.1) active.0 s active.1
          (current_active_same user s) h
          (λ _ _.
            guard-Keeps Q (λ p. k p.0 p.1) locked.0 s locked.1 (locked_record_same env id s) h
              (λ p e. keeps p.0 p.1 (locked_record_row env id s p e)))

    pub submit-Sound :
        (reason : String) (file_id : Option ℕ) (file_url : Option String)
        → Q (submit_absence_justification env user ip id reason file_id file_url s).1
    unfolding submit_absence_justification
    submit-Sound reason file_id file_url =
        locked-Sound (submit_in env user ip reason file_id file_url)
          (λ session r row. submit_in-Sound session r s h row reason file_id file_url)

    pub approve-Sound :
        (reason : Option String) → Q (approve_absence_justification env user ip id reason s).1
    unfolding approve_absence_justification
    approve-Sound reason =
        locked-Sound (approve_in env user ip reason)
          (λ session r row. approve_in-Sound session r s h row reason)

    pub reject-Sound :
        (reason : Option String) → Q (reject_absence_justification env user ip id reason s).1
    unfolding reject_absence_justification
    reject-Sound reason =
        locked-Sound (reject_in env user ip reason)
          (λ session r row. reject_in-Sound session r s h row reason)

    pub update_record-Sound :
        (payload : RecordUpdate) → Q (update_attendance_record env user ip id payload s).1
    unfolding update_attendance_record
    update_record-Sound payload =
        locked-Sound (update_in env user ip payload)
          (λ session r row. update_in-Sound session payload r s h)

    pub create_record-Sound :
        (i : RecordInput) → Q (create_session_attendance_record env user ip id i s).1
    unfolding create_session_attendance_record
    create_record-Sound i =
        managed-Gives env inj user ip t0 id s h Q (λ session. create_in env user ip session i) h
          (λ session row. create_in-Sound session i s h)

    pub create_manual-Sound : (i : RecordInput) → Q (create_manual_attendance env user ip id i s).1
    unfolding create_manual_attendance
    create_manual-Sound i =
        managed-Gives env inj user ip t0 id s h Q (λ session. manual_in env user ip session i) h
          (λ session row. manual_in-Sound session i s h)
