-- ===== src/Attendance/Justifications.antt =====
-- The justification of an absence: `submit_absence_justification`, `approve_absence_justification`
-- and `reject_absence_justification` of api/routes/attendance.py, with `_get_record_or_404` and
-- `_notify_justification_reviewers`.
use enactspace.Shared.{
  ℕ, String, Bool, true, false, not, Option, none, some, List, [], ◌∷◌, ◌++◌, ltb, ◌==◌, str_eq,
  fstring, if◌then◌else◌,
}
use enactspace.Shared.Env.{Env}
use enactspace.Shared.Table.{find_row}
use enactspace.People.Models.{User}
use enactspace.Ledger.Models.{Fee}
use enactspace.Outbox.Service.{NotificationRequest}
use enactspace.Server.Models.{Json}
use enactspace.Server.Handler.{
  Handler, ok, pure, raise, raise_if, gets, on_db, audit, notify_user, notify_users, ◌>>=◌, ◌>>◌,
}
use enactspace.Server.Deps.{current_active_validated_user}
use enactspace.Attendance.Models.{
  AttendanceSession, AttendanceRecord, AttendanceStatus, JustificationStatus, session_id, record_id,
}
use enactspace.Attendance.Access.{require_can_manage_session}
use enactspace.Attendance.Penalty.{penalty_of, sync_attendance_penalty}
use enactspace.Attendance.Sessions.{commit_all}

-- ABSENCE_STATUSES
abbrev pub is_absence : AttendanceStatus → Bool
is_absence AttendanceStatus.absent = true
is_absence AttendanceStatus.justified_absence = true
is_absence _ = false

abbrev pub can_be_submitted : JustificationStatus → Bool
can_be_submitted JustificationStatus.not_submitted = true
can_be_submitted JustificationStatus.rejected = true
can_be_submitted _ = false

abbrev pub is_awaiting : JustificationStatus → Bool
is_awaiting JustificationStatus.pending = true
is_awaiting _ = false

abbrev pub is_empty : List ℕ → Bool
is_empty [] = true
is_empty (_ ∷ _) = false

abbrev pub ids_of : Option ℕ → List ℕ
ids_of none = []
ids_of (some k) = k ∷ []

module _ (env : Env) where
  abbrev pub record_notice : String → String → String → ℕ → NotificationRequest
  record_notice title message notification_type id = record {
    title = title;
    body = none;
    message = some message;
    type = none;
    notification_type = some notification_type;
    category = none;
    entity_type = none;
    entity_id = none;
    related_type = some "attendance_record";
    related_id = some id;
    dedupe = true;
  }

  abbrev pub session_of :
      AttendanceRecord → Option AttendanceSession → Handler (AttendanceSession × AttendanceRecord)
  session_of r none = raise 404 "Ligne de presence introuvable"
  session_of r (some session) = pure (session, r)

  unfoldable pub found_record :
      Option AttendanceRecord → Handler (AttendanceSession × AttendanceRecord)
  found_record none = raise 404 "Ligne de presence introuvable"
  found_record (some r) = do
    held ← gets (λ db. find_row session_id r.session_id db.attendance.sessions)
    session_of r held

  -- `_get_record_or_404`, and the two locks
  unfoldable pub locked_record : ℕ → Handler (AttendanceSession × AttendanceRecord)
  locked_record id = do
    found ← gets (λ db. find_row record_id id db.attendance.records)
    found_record found

  -- the session's creator and the one who recorded: `create_notifications` takes each once
  unfoldable pub notify_justification_reviewers :
      AttendanceRecord → AttendanceSession → Handler (Unit {0})
  notify_justification_reviewers r session s =
      let reviewers = ids_of session.created_by ++ ids_of r.recorded_by in
      let to_reviewers =
        notify_users env reviewers
          (record_notice "Justification d'absence"
            (fstring ("Une justification a ete soumise pour " ∷ session.title ∷ "." ∷ []))
            "attendance_justification_pending" r.id)
          s in
      let to_member =
        notify_user env r.user_id
          (record_notice "Absence enregistree"
            (fstring ("Vous avez ete marque absent pour " ∷ session.title ∷ "." ∷ []))
            "attendance_absent" r.id)
          s in
      (
        ok tt,
        if not (is_empty reviewers)
            then to_reviewers.1
            else if is_absence r.status
            then to_member.1
            else s,
      )

  module _ (current_user : User) (ip : Option String) where
    abbrev pub audit_record :
        String → ℕ → List (String × Json) → List (String × Json) → Handler (Unit {0})
    audit_record action id old_value new_value =
        audit env action (some current_user.id) (some "attendance_record") (some id)
          (some old_value) (some new_value) ip

    -- the writes of the three routes on the record
    unfoldable pub submitted_record :
        String → Option ℕ → Option String → AttendanceRecord → AttendanceRecord
    submitted_record reason file_id file_url r = record r {
      justification = some reason;
      justification_reason = some reason;
      justification_status = JustificationStatus.pending;
      justification_file_id = file_id;
      justification_file_url = file_url;
      is_justified = false;
      updated_at = env.utcnow;
    }

    -- the writes, the notices, the audit and the commit of a justification that is submitted
    unfoldable pub submit_reason :
        String
        → Option ℕ
        → Option String
        → AttendanceSession
        → AttendanceRecord
        → Handler AttendanceRecord
    submit_reason reason file_id file_url session r = do
      r' ←
          on_db
            (sync_attendance_penalty env current_user (submitted_record reason file_id file_url r))
      notify_justification_reviewers r' session
      audit_record "soumission_justification_presence" r'.id
          (("justification_status", Json.text "not_submitted_or_rejected") ∷ [])
          (("justification_status", Json.text "pending") ∷ [])
      commit_all
      pure r'

    -- on the session and the record that are locked
    unfoldable pub submit_in :
        String
        → Option ℕ
        → Option String
        → AttendanceSession
        → AttendanceRecord
        → Handler AttendanceRecord
    submit_in payload_reason file_id file_url session r = do
      raise_if (not (r.user_id == current_user.id)) 403
          "Vous ne pouvez justifier que vos propres absences"
      raise_if (not (is_absence r.status)) 400 "Seule une absence peut etre justifiee"
      raise_if (not (can_be_submitted r.justification_status)) 409
          "Cette justification ne peut plus être soumise"
      let reason = env.strip payload_reason
      raise_if (str_eq reason "") 400 "Le motif de justification est obligatoire"
      submit_reason reason file_id file_url session r

    unfoldable pub submit_absence_justification :
        ℕ → String → Option ℕ → Option String → Handler AttendanceRecord
    submit_absence_justification id payload_reason file_id file_url = do
      current_active_validated_user current_user
      locked ← locked_record id
      submit_in payload_reason file_id file_url locked.0 locked.1

    -- `reason.strip()` where there is a text left, else the note that was there
    abbrev pub note_or : Option String → Option String → Option String
    note_or none note = note
    note_or (some reason) note =
        if str_eq reason ""
        then note
        else if str_eq (env.strip reason) ""
        then note
        else some (env.strip reason)

    unfoldable pub approved_record : Option String → AttendanceRecord → AttendanceRecord
    approved_record reason r = record r {
      status = AttendanceStatus.justified_absence;
      justification_status = JustificationStatus.approved;
      is_justified = true;
      note = note_or reason r.note;
      updated_at = env.utcnow;
    }

    -- a penalty on which something was paid is for the treasurer to review
    unfoldable pub audit_review : Option Fee → Handler (Unit {0})
    audit_review none s = (ok tt, s)
    audit_review (some fee) s =
        let logged =
          audit env "attendance_penalty_financial_review_required" (some current_user.id)
            (some "fee") (some fee.id) (some (("amount_paid", Json.number fee.amount_paid) ∷ []))
            (some (("status", Json.text "cancelled") ∷ ("automatic_refund", Json.flag false) ∷ []))
            ip s in
        (ok tt, if ltb 0 fee.amount_paid then logged.1 else s)

    -- the audit, the notice and the commit of a review
    unfoldable pub log_review :
        String → String → String → String → String → AttendanceRecord → Handler AttendanceRecord
    log_review action outcome title message notice r = do
      audit_record action r.id (("justification_status", Json.text "pending") ∷ [])
          (("justification_status", Json.text outcome) ∷ [])
      notify_user env r.user_id (record_notice title message notice r.id)
      commit_all
      pure r

    unfoldable pub approve_absence :
        Option String → AttendanceSession → AttendanceRecord → Handler AttendanceRecord
    approve_absence reason session r = do
      linked_fee ← gets (λ db. penalty_of r.id db.ledger.fees)
      r' ← on_db (sync_attendance_penalty env current_user (approved_record reason r))
      audit_review linked_fee
      log_review "approbation_justification_presence" "approved" "Justification approuvee"
          (fstring ("Votre justification pour " ∷ session.title ∷ " a ete approuvee." ∷ []))
          "attendance_justification_approved" r'

    -- on the session and the record that are locked
    unfoldable pub approve_in :
        Option String → AttendanceSession → AttendanceRecord → Handler AttendanceRecord
    approve_in reason session r = do
      require_can_manage_session env current_user session
      raise_if (not (is_awaiting r.justification_status)) 409
          "Seule une justification en attente peut être approuvée"
      approve_absence reason session r

    unfoldable pub approve_absence_justification : ℕ → Option String → Handler AttendanceRecord
    approve_absence_justification id reason = do
      current_active_validated_user current_user
      locked ← locked_record id
      approve_in reason locked.0 locked.1

    unfoldable pub rejected_record : String → AttendanceRecord → AttendanceRecord
    rejected_record reason r = record r {
      status = AttendanceStatus.absent;
      justification_status = JustificationStatus.rejected;
      is_justified = false;
      note = some reason;
      updated_at = env.utcnow;
    }

    abbrev pub text_or_blank : Option String → String
    text_or_blank none = ""
    text_or_blank (some s) = s

    unfoldable pub reject_absence :
        String → AttendanceSession → AttendanceRecord → Handler AttendanceRecord
    reject_absence reason session r = do
      r' ← on_db (sync_attendance_penalty env current_user (rejected_record reason r))
      log_review "rejet_justification_presence" "rejected" "Justification refusee"
          (fstring ("Votre justification pour " ∷ session.title ∷ " a ete refusee: " ∷ reason ∷ []))
          "attendance_justification_rejected" r'

    unfoldable pub reject_in :
        Option String → AttendanceSession → AttendanceRecord → Handler AttendanceRecord
    reject_in payload_reason session r = do
      require_can_manage_session env current_user session
      raise_if (not (is_awaiting r.justification_status)) 409
          "Seule une justification en attente peut être rejetée"
      let reason = env.strip (text_or_blank payload_reason)
      raise_if (str_eq reason "") 400 "Le motif de refus est obligatoire"
      reject_absence reason session r

    unfoldable pub reject_absence_justification : ℕ → Option String → Handler AttendanceRecord
    reject_absence_justification id payload_reason = do
      current_active_validated_user current_user
      locked ← locked_record id
      reject_in payload_reason locked.0 locked.1
