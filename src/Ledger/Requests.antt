-- ===== src/Ledger/Requests.antt =====
-- The payloads of schemas/finance.py, and the constants of api/routes/finance.py. The amount of a
-- payload is a signed number of hundredths.
use enactspace.Shared.{ℕ, String, Option, none, some, true, List, [], ◌∷◌}
use enactspace.Shared.Int.{ℤ}
use enactspace.Outbox.Service.{NotificationRequest}

pub record FeeCreate : Type 0 where
  pub user_id : ℕ
  pub season_id : Option ℕ
  pub type : String
  pub category : Option String
  pub label : String
  pub description : Option String
  pub amount : ℤ
  pub currency : String
  pub due_date : Option ℕ
  pub source_type : Option String
  pub source_id : Option ℕ
  pub proof_file_id : Option ℕ

pub record FeeBulkCreate : Type 0 where
  pub scope_type : String
  pub user_ids : List ℕ
  pub pole_id : Option ℕ
  pub project_id : Option ℕ
  pub season_id : Option ℕ
  pub type : String
  pub category : Option String
  pub label : String
  pub description : Option String
  pub amount : ℤ
  pub currency : String
  pub due_date : Option ℕ

pub record PaymentCreate : Type 0 where
  pub user_id : ℕ
  pub amount : ℤ
  pub currency : String
  pub method : String
  pub reference : Option String
  pub proof_url : Option String
  pub proof_file_id : Option ℕ

-- the keyword arguments of `create_fee_record`
pub record FeeRecord : Type 0 where
  pub user_id : ℕ
  pub season_id : Option ℕ
  pub fee_type : String
  pub category : Option String
  pub label : String
  pub description : Option String
  pub amount : ℤ
  pub currency : String
  pub due_date : Option ℕ
  pub source_type : Option String
  pub source_id : Option ℕ
  pub related_attendance_id : Option ℕ
  pub proof_file_id : Option ℕ

abbrev pub valid_payment_methods : List String
valid_payment_methods =
    "manuel" ∷ "especes" ∷ "wave" ∷ "orange_money" ∷ "free_money" ∷ "bank_transfer" ∷ "mobile_money"
    ∷ []

abbrev pub valid_fee_types : List String
valid_fee_types =
    "membership_fee" ∷ "attendance_penalty" ∷ "late_penalty" ∷ "manual_penalty" ∷ "contribution"
    ∷ "adjustment" ∷ "penalite_retard" ∷ "penalite_absence" ∷ "penalty" ∷ []

abbrev pub finance_manager_roles : List String
finance_manager_roles = "administrateur" ∷ "team_leader" ∷ "financier" ∷ []

abbrev pub payment_supervisor_roles : List String
payment_supervisor_roles = "administrateur" ∷ "team_leader" ∷ []

-- The keyword arguments that the finance routes pass to `notify_user`; `dedupe` is on by default.
abbrev pub finance_notice : String → String → String → String → ℕ → NotificationRequest
finance_notice title message notification_type related_type related_id = record {
  title = title;
  body = none;
  message = some message;
  type = none;
  notification_type = some notification_type;
  category = none;
  entity_type = none;
  entity_id = none;
  related_type = some related_type;
  related_id = some related_id;
  dedupe = true;
}
