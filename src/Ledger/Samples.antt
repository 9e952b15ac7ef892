-- ===== src/Ledger/Samples.antt =====
-- A small club: a manager, a member, one fee and one declared payment.
use enactspace.Shared.{ℕ, true, none, some, [], ◌∷◌}
use enactspace.Shared.Env.{Env}
use enactspace.People.Models.{User, People}
use enactspace.Ledger.Models.{Fee, FeeStatus, Payment, PaymentStatus, Ledger}
use enactspace.Server.Models.{Db}

abbrev pub env : Env
env = record {
  utcnow = 100;
  uuid4 = λ n. n;
  strip = λ s. s;
  fixed0 = λ n. "n";
  fold_accents = λ s. s;
  prefix = λ n s. s;
  join_words = λ s. s;
  upper = λ s. s;
  suffix = λ n s. s;
  id_text = λ n. "id";
  push_enabled = true;
  lower = λ s. s;
  float_of = λ s. none;
  fromisoformat = λ s. none;
  number_text = λ n. "n";
  date_of = λ n. n;
  year_of = λ n. n;
}

abbrev pub member : ℕ → User
member id = record {
  id = id;
  first_name = "Awa";
  last_name = "Ndiaye";
  email = "awa@example.org";
  profile_type = "student";
  password_hash = "hash";
  status = "active";
  email_verified = true;
  is_active = true;
  created_at = 1;
  updated_at = 1;
}

abbrev pub treasurer : User
treasurer = member 7

abbrev pub payer : User
payer = member 8

abbrev pub people : People
people = record {
  users = treasurer ∷ payer ∷ [];
  user_roles = record { id = 0; user_id = 7; role_name = "financier" } ∷ [];
  pole_members = [];
  project_members = [];
}

abbrev pub fee : Fee
fee = record {
  id = 1;
  user_id = 8;
  season_id = none;
  type = "membership_fee";
  category = none;
  label = "Cotisation";
  description = none;
  amount = 500;
  amount_paid = 0;
  currency = "FCFA";
  status = FeeStatus.unpaid;
  due_date = none;
  paid_at = none;
  cancelled_at = none;
  related_attendance_id = none;
  source_type = none;
  source_id = none;
  proof_file_id = none;
  created_by = some 7;
  created_at = 1;
  updated_at = 1;
}

abbrev pub payment : Payment
payment = record {
  id = 2;
  user_id = 8;
  amount = 300;
  currency = "FCFA";
  method = "wave";
  status = PaymentStatus.pending;
  reference = some "W-1";
  proof_url = none;
  proof_file_id = none;
  validated_by = none;
  validated_at = none;
  rejected_at = none;
  rejection_reason = none;
  receipt_url = none;
  receipt_file_id = none;
  created_at = 1;
}

abbrev pub ledger : Ledger
ledger = record {
  accounts = record { id = 0; user_id = 8; balance_due = 500; total_paid = 0; updated_at = 1 } ∷ [];
  fees = fee ∷ [];
  payments = payment ∷ [];
  allocations = [];
  transactions = [];
  drawn = 3;
}

abbrev pub db : Db
db = record {
  people = people;
  ledger = ledger;
  outbox = record {
    notifications = [];
    pending = [];
    preferences = [];
    installations = [];
    deliveries = [];
    drawn = 0;
  };
  audit = record { logs = []; drawn = 0 };
  memory = record { events = []; drawn = 0 };
  mobile = record { transactions = []; events = []; drawn = 0 };
  attendance = record {
    settings = [];
    sessions = [];
    expected = [];
    pending = [];
    records = [];
    drawn = 0;
  };
}
