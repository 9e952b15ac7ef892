-- ===== src/Attendance/Records.antt =====
-- Attendance records: the normalisers, `_calculate_delay_minutes`, `_compute_checkin_status`,
-- `_upsert_record` and `_notify_record_change` of api/routes/attendance.py.
use enactspace.Shared.{
  ℕ, ◌+◌, ◌-◌, ◌*◌, ◌/◌, String, Bool, true, false, not, Option, none, some, [], ◌∷◌, ◌++◌, ltb,
  str_eq, mem_text, fstring, if◌then◌else◌,
}
use enactspace.Shared.Int.{ℤ, to_ℕ}
use enactspace.Shared.Env.{Env}
use enactspace.People.Models.{User}
use enactspace.Outbox.Service.{NotificationRequest, or_text}
use enactspace.Server.Models.{Db}
use enactspace.Server.Handler.{Handler, ok, or_raise, on_db, flushed, notify_user, ◌>>=◌}
use enactspace.Attendance.Models.{
  AttendanceSession, AttendanceRecord, AttendanceStatus, JustificationStatus, Attendance, record_of,
  save_record, flush_expected,
}
use enactspace.Attendance.Penalty.{is_late, sync_attendance_penalty}

-- `CANONICAL_STATUS_BY_ALIAS.get(normalized)`
unfoldable pub canonical_status : String → Option AttendanceStatus
canonical_status s =
    if str_eq s "present"
    then some AttendanceStatus.present
    else if mem_text s ("late" ∷ "retard" ∷ [])
    then some AttendanceStatus.late
    else if mem_text s ("absent" ∷ "absence" ∷ "absent_non_justifie" ∷ "absence_non_justifiee" ∷ [])
    then some AttendanceStatus.absent
    else if mem_text s ("justified_absence" ∷ "absent_justifie" ∷ "absence_justifiee" ∷ [])
    then some AttendanceStatus.justified_absence
    else if mem_text s ("excused" ∷ "excuse" ∷ "mission_externe" ∷ [])
    then some AttendanceStatus.excused
    else if str_eq s "not_recorded"
    then some AttendanceStatus.not_recorded
    else none

-- the member of VALID_JUSTIFICATION_STATUSES of that name
unfoldable pub valid_justification : String → Option JustificationStatus
valid_justification s =
    if str_eq s "not_submitted"
    then some JustificationStatus.not_submitted
    else if str_eq s "pending"
    then some JustificationStatus.pending
    else if str_eq s "approved"
    then some JustificationStatus.approved
    else if str_eq s "rejected"
    then some JustificationStatus.rejected
    else if str_eq s "expired"
    then some JustificationStatus.expired
    else none

-- the justification of a record that names none
abbrev pub implied_justification : AttendanceStatus → JustificationStatus
implied_justification AttendanceStatus.justified_absence = JustificationStatus.approved
implied_justification _ = JustificationStatus.not_submitted

-- `checkin_start or scheduled_at or created_at`
unfoldable pub reference_time : AttendanceSession → ℕ
reference_time session = elim session.checkin_start [
  | some t ↦ t
  | none ↦ elim session.scheduled_at [ some t ↦ t | none ↦ session.created_at ]
]

-- `max(0, int((arrival_time - reference_time).total_seconds() // 60))`, in seconds: on natural
-- numbers `-` stops at 0, where the source does too.
unfoldable pub calculate_delay_minutes :
    AttendanceSession → AttendanceStatus → Option ℕ → Option ℤ → Option ℕ
calculate_delay_minutes session status arrival_time (some explicit) = some (to_ℕ explicit)
calculate_delay_minutes session status none none =
    if not (is_late status) then none else some session.late_after_minutes
calculate_delay_minutes session status (some arrival) none =
    if not (is_late status) then none else some ((arrival - reference_time session) / 60)

unfoldable pub compute_checkin_status : AttendanceSession → ℕ → AttendanceStatus
compute_checkin_status session now =
    if ltb (reference_time session + session.late_after_minutes * 60) now
    then AttendanceStatus.late
    else AttendanceStatus.present

-- `{"absent", "justified_absence", "excused", "not_recorded"}`: a record without an arrival
abbrev pub has_no_arrival : AttendanceStatus → Bool
has_no_arrival AttendanceStatus.present = false
has_no_arrival AttendanceStatus.late = false
has_no_arrival _ = true

-- `status in {"justified_absence", "excused"} or justification_status == "approved"`
abbrev pub justifies : AttendanceStatus → JustificationStatus → Bool
justifies AttendanceStatus.justified_absence j = true
justifies AttendanceStatus.excused j = true
justifies _ JustificationStatus.approved = true
justifies _ _ = false

-- The keyword arguments of `_upsert_record`.
pub record RecordInput : Type 0 where
  pub user_id : ℕ
  pub attendance_status : String
  pub arrival_time : Option ℕ
  pub delay_minutes : Option ℤ
  pub justification : Option String
  pub justification_status : Option String
  pub justification_reason : Option String
  pub justification_file_id : Option ℕ
  pub justification_file_url : Option String
  pub note : Option String
  pub source : String

-- the arguments that a call leaves at their defaults
abbrev pub plain_record : ℕ → String → RecordInput
plain_record user_id attendance_status = record {
  user_id = user_id;
  attendance_status = attendance_status;
  arrival_time = none;
  delay_minutes = none;
  justification = none;
  justification_status = none;
  justification_reason = none;
  justification_file_id = none;
  justification_file_url = none;
  note = none;
  source = "manual";
}

module _ (env : Env) where
  unfoldable pub normalize_attendance_status : String → Option AttendanceStatus
  normalize_attendance_status value = canonical_status (env.lower (env.strip value))

  unfoldable pub normalize_justification_status :
      Option String → AttendanceStatus → Option JustificationStatus
  normalize_justification_status none status = some (implied_justification status)
  normalize_justification_status (some value) status =
      if str_eq value ""
      then some (implied_justification status)
      else valid_justification (env.lower (env.strip value))

  -- the arrival that the record keeps: now, where none is given
  abbrev pub arrival_of : Option ℕ → AttendanceStatus → Option ℕ
  arrival_of given status =
      if has_no_arrival status
      then none
      else elim given [ none ↦ some env.utcnow | some t ↦ some t ]

  -- `AttendanceRecord(session_id=…, user_id=…)`, with the column defaults
  unfoldable pub empty_record : ℕ → ℕ → ℕ → AttendanceRecord
  empty_record session_id user_id drawn = record {
    id = env.uuid4 drawn;
    session_id = session_id;
    user_id = user_id;
    status = AttendanceStatus.not_recorded;
    checkin_time = none;
    delay_minutes = none;
    recorded_by = none;
    source = "manual";
    recorded_at = none;
    justification = none;
    justification_status = JustificationStatus.not_submitted;
    justification_reason = none;
    justification_file_id = none;
    justification_file_url = none;
    is_justified = false;
    penalty_amount = 0;
    penalty_fee_id = none;
    note = none;
    created_at = env.utcnow;
    updated_at = env.utcnow;
  }

  module _ (current_user : User) (session : AttendanceSession) (i : RecordInput)
      (status : AttendanceStatus) (justification : JustificationStatus) where
    -- the writes of `_upsert_record` on the record
    unfoldable pub filled_record : AttendanceRecord → AttendanceRecord
    filled_record r =
        let arrival = arrival_of i.arrival_time status in
        record r {
          status = status;
          checkin_time = arrival;
          delay_minutes = calculate_delay_minutes session status arrival i.delay_minutes;
          recorded_by = some current_user.id;
          source = i.source;
          recorded_at = some env.utcnow;
          justification = i.justification;
          justification_status = justification;
          justification_reason = or_text i.justification_reason i.justification;
          justification_file_id = i.justification_file_id;
          justification_file_url = i.justification_file_url;
          is_justified = justifies status justification;
          note = i.note;
          updated_at = env.utcnow;
        }

    -- the record that was there is written over; where there was none, a new one is added
    unfoldable pub put_record : Option AttendanceRecord → Attendance → AttendanceRecord × Attendance
    put_record (some r) t = let r' = filled_record r in (r', save_record r' t)
    put_record none t =
        let r = filled_record (empty_record session.id i.user_id t.drawn) in
        (r, record t { records = t.records ++ r ∷ []; drawn = t.drawn + 1 })

    -- the query, the writes, the flush and the sync of the penalty
    unfoldable pub write_record : Db → AttendanceRecord × Db
    write_record db =
        let found = record_of session.id i.user_id db.attendance.records in
        let (r, t) = put_record found db.attendance in
        sync_attendance_penalty env current_user r
          (flushed (record db { attendance = flush_expected t }))

  unfoldable pub upsert_record : User → AttendanceSession → RecordInput → Handler AttendanceRecord
  upsert_record current_user session i = do
    status ←
        or_raise (normalize_attendance_status i.attendance_status) 400 "Statut de presence invalide"
    justification ←
        or_raise (normalize_justification_status i.justification_status status) 400
          "Statut de justification invalide"
    on_db (write_record current_user session i status justification)

  abbrev pub late_notice : AttendanceRecord → AttendanceSession → NotificationRequest
  late_notice r session = record {
    title = "Retard enregistre";
    body = none;
    message = some (fstring ("Vous avez ete marque en retard pour " ∷ session.title ∷ "." ∷ []));
    type = none;
    notification_type = some "attendance_late";
    category = none;
    entity_type = none;
    entity_id = none;
    related_type = some "attendance_record";
    related_id = some r.id;
    dedupe = true;
  }

  unfoldable pub notify_record_change : AttendanceRecord → AttendanceSession → Handler (Unit {0})
  notify_record_change r session s = (
    ok tt,
    if is_late r.status then (notify_user env r.user_id (late_notice r session) s).1 else s,
  )
