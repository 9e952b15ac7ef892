-- ===== src/Attendance/Penalty.antt =====
-- The penalty of an attendance record, a fee of the ledger: `_remove_attendance_penalty`,
-- `_attendance_penalty_amount` and `_sync_attendance_penalty` of api/routes/attendance.py.
pub mod Moves
pub mod Consistency
use enactspace.Shared.{
  ℕ, ◌+◌, ◌-◌, String, Bool, true, false, not, ◌&&◌, Option, none, some, List, [], ◌∷◌, ◌++◌, leb,
  ltb, same_id, is_none, fstring, if◌then◌else◌,
}
use enactspace.Shared.Int.{ℤ, pos, nonpositive, to_ℕ}
use enactspace.Shared.Env.{Env}
use enactspace.Shared.Table.{first}
use enactspace.People.Models.{User}
use enactspace.Ledger.Models.{FinancialAccount, Fee, FeeStatus, Ledger}
use enactspace.Ledger.Accounts.{save_fee, update_account, charge, discharge}
use enactspace.Outbox.Models.{flush_notifications}
use enactspace.Outbox.Service.{NotificationRequest, create_notification}
use enactspace.Server.Models.{Db}
use enactspace.Server.Handler.{has_account}
use enactspace.Attendance.Models.{
  AttendanceRecord, AttendanceStatus, JustificationStatus, Attendance, save_record,
}
use enactspace.Attendance.Settings.{setting_float, sanctions_started}

-- the query for the fee of a record
unfoldable pub penalty_of : ℕ → List Fee → Option Fee
penalty_of record_id = first (λ (f : Fee). same_id f.related_attendance_id (some record_id))

abbrev pub fee_is_cancelled : FeeStatus → Bool
fee_is_cancelled FeeStatus.cancelled = true
fee_is_cancelled _ = false

abbrev pub is_late : AttendanceStatus → Bool
is_late AttendanceStatus.late = true
is_late _ = false

abbrev pub is_absent : AttendanceStatus → Bool
is_absent AttendanceStatus.absent = true
is_absent _ = false

-- `justification_status in {"not_submitted", "rejected", "expired"}`
abbrev pub is_unjustified : JustificationStatus → Bool
is_unjustified JustificationStatus.not_submitted = true
is_unjustified JustificationStatus.rejected = true
is_unjustified JustificationStatus.expired = true
is_unjustified _ = false

-- `max(amount, paid)`
abbrev pub larger : ℕ → ℕ → ℕ
larger amount paid = if leb paid amount then amount else paid

-- "paid" if paid >= total else ("partial" if paid > 0 else "unpaid")
abbrev pub status_by : ℕ → ℕ → FeeStatus
status_by paid total =
    if leb total paid
    then FeeStatus.paid
    else if ltb 0 paid
    then FeeStatus.partial
    else FeeStatus.unpaid

module _ (env : Env) where
  -- `max(0, balance_due - previous_remaining + remaining)`
  abbrev pub rebalance : ℕ → ℕ → FinancialAccount → FinancialAccount
  rebalance previous_remaining remaining account = record account {
    balance_due = account.balance_due + remaining - previous_remaining;
    updated_at = env.utcnow;
  }

  -- the writes of `_remove_attendance_penalty` on a fee that is not cancelled
  unfoldable pub cancelled_penalty : Fee → Fee
  cancelled_penalty fee = record fee {
    status = FeeStatus.cancelled;
    cancelled_at = some env.utcnow;
    updated_at = env.utcnow;
  }

  unfoldable pub cancel_penalty : ℕ → Fee → Ledger → Ledger
  cancel_penalty user_id fee l =
      if fee_is_cancelled fee.status
      then l
      else save_fee (cancelled_penalty fee)
          (update_account env user_id (discharge env (fee.amount - fee.amount_paid)) l)

  unfoldable pub remove_found : AttendanceRecord → Option Fee → Ledger → AttendanceRecord × Ledger
  remove_found r none l = (record r { penalty_amount = 0 }, l)
  remove_found r (some fee) l = (
    record r { penalty_amount = 0; penalty_fee_id = some fee.id },
    cancel_penalty r.user_id fee l,
  )

  unfoldable pub remove_attendance_penalty : AttendanceRecord → Ledger → AttendanceRecord × Ledger
  remove_attendance_penalty r l = remove_found r (penalty_of r.id l.fees) l

  unfoldable pub attendance_penalty_amount : AttendanceRecord → Attendance → ℤ × Attendance
  attendance_penalty_amount r t =
      let (started, t') = sanctions_started env t in
      if not started
      then (pos 0, t')
      else if is_late r.status
      then setting_float env "montant_retard" t'
      else if is_absent r.status && is_unjustified r.justification_status
      then setting_float env "montant_absence_non_justifiee" t'
      else (pos 0, t')

  abbrev pub penalty_label : AttendanceRecord → String
  penalty_label r =
      if is_late r.status then "Penalite de retard" else "Penalite absence non justifiee"

  abbrev pub penalty_type : AttendanceRecord → String
  penalty_type r = if is_late r.status then "penalite_retard" else "penalite_absence"

  -- the fee that the sync writes where the record has one
  unfoldable pub revised_penalty : AttendanceRecord → ℕ → Fee → Fee
  revised_penalty r amount fee =
      let total = larger amount fee.amount_paid in
      record fee {
        amount = total;
        label = penalty_label r;
        type = penalty_type r;
        status = status_by fee.amount_paid total;
        cancelled_at = none;
        updated_at = env.utcnow;
      }

  abbrev pub previous_remaining : Fee → ℕ
  previous_remaining fee = if fee_is_cancelled fee.status then 0 else fee.amount - fee.amount_paid

  unfoldable pub revise_penalty : AttendanceRecord → ℕ → Fee → Ledger → AttendanceRecord × Ledger
  revise_penalty r amount fee l =
      let fee' = revised_penalty r amount fee in
      (
        record r { penalty_amount = fee'.amount; penalty_fee_id = some fee'.id },
        update_account env r.user_id
            (rebalance (previous_remaining fee) (fee'.amount - fee.amount_paid)) (save_fee fee' l),
      )

  unfoldable pub new_penalty : User → AttendanceRecord → ℕ → ℕ → Fee
  new_penalty current_user r amount drawn = record {
    id = env.uuid4 drawn;
    user_id = r.user_id;
    season_id = none;
    type = penalty_type r;
    category = none;
    label = penalty_label r;
    description = none;
    amount = amount;
    amount_paid = 0;
    currency = "FCFA";
    status = FeeStatus.unpaid;
    due_date = some env.utcnow;
    paid_at = none;
    cancelled_at = none;
    related_attendance_id = some r.id;
    source_type = none;
    source_id = none;
    proof_file_id = none;
    created_by = some current_user.id;
    created_at = env.utcnow;
    updated_at = env.utcnow;
  }

  unfoldable pub add_penalty : User → AttendanceRecord → ℕ → Ledger → AttendanceRecord × Ledger
  add_penalty current_user r amount l =
      let fee = new_penalty current_user r amount l.drawn in
      (
        record r { penalty_amount = amount; penalty_fee_id = some fee.id },
        update_account env r.user_id (charge env amount)
            (record l { fees = l.fees ++ fee ∷ []; drawn = l.drawn + 1 }),
      )

  unfoldable pub set_penalty :
      User → AttendanceRecord → ℕ → Option Fee → Ledger → AttendanceRecord × Ledger
  set_penalty current_user r amount none l = add_penalty current_user r amount l
  set_penalty current_user r amount (some fee) l = revise_penalty r amount fee l

  -- `_sync_attendance_penalty` on the ledger, by the amount that the settings give
  unfoldable pub sync_penalty : User → AttendanceRecord → ℤ → Ledger → AttendanceRecord × Ledger
  sync_penalty current_user r amount l =
      if nonpositive amount
      then remove_attendance_penalty r l
      else set_penalty current_user r (to_ℕ amount) (penalty_of r.id l.fees) l

  abbrev pub penalty_notice : AttendanceRecord → ℕ → NotificationRequest
  penalty_notice r amount = record {
    title = if is_absent r.status then "Absence non justifiee" else "Retard";
    body = none;
    message = some (
        fstring (
          "Une sanction de "
          ∷ env.fixed0 amount
          ∷ " FCFA peut etre appliquee selon le reglement."
          ∷ []));
    type = none;
    notification_type = some "finance_penalty";
    category = none;
    entity_type = none;
    entity_id = none;
    related_type = some "attendance_record";
    related_id = some r.id;
    dedupe = true;
  }

  -- only a new fee is announced, after the flush that follows its `db.add`
  abbrev pub is_new_penalty : AttendanceRecord → ℤ → Ledger → Bool
  is_new_penalty r amount l = not (nonpositive amount) && is_none (penalty_of r.id l.fees)

  unfoldable pub sync_attendance_penalty : User → AttendanceRecord → Db → AttendanceRecord × Db
  sync_attendance_penalty current_user r db =
      let (amount, t) = attendance_penalty_amount r db.attendance in
      let (r', l) = sync_penalty current_user r amount db.ledger in
      let told =
        (create_notification env r.user_id (penalty_notice r (to_ℕ amount))
          (has_account env r.user_id db.people) (flush_notifications db.outbox)).1 in
      (
        r',
        record db {
          ledger = l;
          outbox = if is_new_penalty r amount db.ledger then told else db.outbox;
          attendance = save_record r' t;
        },
      )
