-- ===== src/Ledger/Tests.antt =====
-- The finance routes on a small club.
use enactspace.Shared.{◌+◌, ◌-◌, min, ltb, ◌≡◌, refl, none, some, [], ◌∷◌, arith}
use enactspace.Shared.Env.{Env}
use enactspace.Shared.Table.{find_row, sum_by}
use enactspace.Ledger.Models.{Fee, FeeStatus, Payment, PaymentStatus, Ledger, is_open}
use enactspace.Server.Models.{Db}
use enactspace.Server.Handler.{after, respond, http_exception}
use enactspace.People.Roles.{
  user_has_any_role, get_user_role_names, normalize_role_name, replace_char, intersects,
}
use enactspace.Shared.{mem_text}
use enactspace.Shared.Table.{select, save_row}
use enactspace.Ledger.Accounts.{update_account, update_fee_status, allocate_payment_to_unpaid_fees}
use enactspace.Ledger.Fees.{settle_cancelled}
use enactspace.Ledger.Payments.{settle_payment, validate_payment}
use enactspace.Ledger.Refusals.{reject_payment}
use enactspace.Ledger.CashBook.{finance_stats_payload}
use enactspace.Ledger.Balance.{payment_id, due_of, balance_of, total_paid_of}
use enactspace.Ledger.Balance.Settles.{Settles}
use enactspace.Ledger.Balance.Allocation.{allocate-amount, allocate-Settles, allocated}
use enactspace.Ledger.Balance.Cancellation.{cancel_again-understates}
use enactspace.Ledger.Balance.Figures.{update_fee_status-open, settle_payment-amounts}
use enactspace.Ledger.Balance.Totals.{finance_stats-total_due, open_lack}
use enactspace.Ledger.Routes.{FinanceRequest, Call, serve, refusal, Reaches, start, then}
use enactspace.Ledger.Routes.Consistency.{Reaches-IsConsistent}
use enactspace.Ledger.Routes.Statistics.{Reaches-finance_stats}
use enactspace.Ledger.Routes.Finality.{Reaches-final_payment}
use enactspace.Ledger.Routes.Guards.{review-separates_duties}
use enactspace.Ledger.Routes.Again.{create_fee_records-again}
use enactspace.Ledger.Fees.{create_fee_record, existing_fee, add_fee, new_fee}
use enactspace.Ledger.BulkFees.{create_fee_records, bulk_record}
use enactspace.Shared.Int.{ℤ}
use enactspace.Shared.Table.{first}
use enactspace.Ledger.Requests.{FeeBulkCreate}
use enactspace.Server.Handler.{Session, ok}
use enactspace.Ledger.Routes.Refused.{serve-refused}
use enactspace.Ledger.Balance.{
  IsConsistent, NeverRepeats, fee_due, credit_of, cash_of, payment_income,
}
use enactspace.Ledger.Samples.{env, treasurer, payer, fee, payment, ledger, db}

pub env-NeverRepeats : NeverRepeats env.uuid4
env-NeverRepeats i j e = e

pub ledger-IsConsistent : IsConsistent env.uuid4 ledger
unfolding find_row sum_by fee_due credit_of cash_of payment_income
ledger-IsConsistent = record {
  accounts = record { ids = (refl, tt); users = (refl, tt); fresh = λ k later. ground arith };
  fees = record { ids = (refl, tt); fresh = λ k later. ground arith };
  payments = record { ids = (refl, tt); fresh = λ k later. ground arith };
  range = (omega arith, tt);
  balanced = λ u. ground arith;
  credited = λ u. ground arith;
  booked = refl;
}

-- the treasurer validates the payment
abbrev validates : Call
validates = record {
  utcnow = 200;
  current_user = treasurer;
  ip = none;
  request = FinanceRequest.validate_payment 2;
}

validates_run : Reaches env db (serve env validates db)
validates_run = then start validates tt

Reaches-IsConsistent_example : IsConsistent env.uuid4 (serve env validates db).ledger
Reaches-IsConsistent_example =
    Reaches-IsConsistent env db (serve env validates db) env-NeverRepeats ledger-IsConsistent
      validates_run

abbrev void_payment : Payment
void_payment = record payment { status = PaymentStatus.cancelled }

abbrev voided : Ledger
voided = record ledger { payments = void_payment ∷ [] }

voided-IsConsistent : IsConsistent env.uuid4 voided
unfolding find_row sum_by fee_due credit_of cash_of payment_income
voided-IsConsistent = record {
  accounts = record { ids = (refl, tt); users = (refl, tt); fresh = λ k later. ground arith };
  fees = record { ids = (refl, tt); fresh = λ k later. ground arith };
  payments = record { ids = (refl, tt); fresh = λ k later. ground arith };
  range = (omega arith, tt);
  balanced = λ u. ground arith;
  credited = λ u. ground arith;
  booked = refl;
}

Reaches-final_payment_example :
    find_row payment_id 2 (serve env validates (record db { ledger = voided })).ledger.payments
    ≡ some void_payment
unfolding find_row
Reaches-final_payment_example =
    Reaches-final_payment env (record db { ledger = voided })
      (serve env validates (record db { ledger = voided })) 2 void_payment env-NeverRepeats
      voided-IsConsistent refl refl (then start validates tt)

-- the member is no manager
abbrev validates_own : Call
validates_own = record validates { current_user = payer }

validates_own-refusal :
    refusal env validates_own db
    ≡ some (http_exception 403 "Action réservée au financier, au Team Leader ou à l'administrateur")
unfolding refusal respond validate_payment user_has_any_role get_user_role_names normalize_role_name
    replace_char intersects mem_text select
validates_own-refusal = refl

serve-refused_example : serve env validates_own db ≡ db
serve-refused_example =
    serve-refused env validates_own db
      (http_exception 403 "Action réservée au financier, au Team Leader ou à l'administrateur")
      validates_own-refusal

settle_payment-amounts_example :
    (balance_of 8 (settle_payment env treasurer payment ledger).1 ≡ balance_of 8 ledger - 300)
    × (total_paid_of 8 (settle_payment env treasurer payment ledger).1
        ≡ total_paid_of 8 ledger + 300)
unfolding find_row
settle_payment-amounts_example =
    settle_payment-amounts env treasurer payment ledger 8 env-NeverRepeats ledger-IsConsistent refl
      refl

allocate-amount_example :
    allocated (allocate_payment_to_unpaid_fees env payment ledger).0 ≡ min 300 (due_of 8 ledger)
allocate-amount_example = allocate-amount env payment ledger

allocate-Settles_example :
    Settles env 8
      (allocated (allocate_payment_to_unpaid_fees env payment ledger).0)
      ledger
      (allocate_payment_to_unpaid_fees env payment ledger).1
allocate-Settles_example =
    allocate-Settles env payment ledger ledger-IsConsistent.fees.ids ledger-IsConsistent.range

-- the treasurer's own payment
abbrev own_db : Db
own_db = record db { ledger = record ledger { payments = record payment { user_id = 7 } ∷ [] } }

review-separates_duties_example :
    (after (validate_payment env treasurer none 2) own_db ≡ own_db)
    × (after (reject_payment env treasurer none 2 "Doublon") own_db ≡ own_db)
unfolding find_row user_has_any_role get_user_role_names normalize_role_name replace_char intersects
    mem_text select
review-separates_duties_example =
    review-separates_duties env treasurer none "Doublon" own_db (record payment { user_id = 7 })
      refl refl refl

finance_stats-total_due_example :
    (finance_stats_payload ledger.accounts ledger.fees ledger.payments
      ledger.transactions).total_due
    ≡ sum_by open_lack ledger.fees
finance_stats-total_due_example = finance_stats-total_due env.uuid4 ledger ledger-IsConsistent

Reaches-finance_stats_example :
    let l = (serve env validates db).ledger in
    let stats = finance_stats_payload l.accounts l.fees l.payments l.transactions in
    (stats.total_due ≡ sum_by open_lack l.fees)
    × (stats.validated_payment_amount ≡ sum_by payment_income l.transactions)
Reaches-finance_stats_example =
    Reaches-finance_stats env db (serve env validates db) env-NeverRepeats ledger-IsConsistent
      validates_run

update_fee_status-open_example : is_open (update_fee_status env fee).status ≡ ltb 0 500
update_fee_status-open_example = update_fee_status-open env fee (omega arith)

-- a fee that is cancelled already, beside the one that is due
abbrev void_fee : Fee
void_fee = record fee { id = 3; amount = 200; status = FeeStatus.cancelled }

abbrev with_void : Ledger
with_void = record ledger { fees = fee ∷ void_fee ∷ []; drawn = 4 }

with_void-IsConsistent : IsConsistent env.uuid4 with_void
unfolding find_row sum_by fee_due credit_of cash_of payment_income
with_void-IsConsistent = record {
  accounts = record { ids = (refl, tt); users = (refl, tt); fresh = λ k later. ground arith };
  fees = record { ids = (refl, (refl, tt)); fresh = λ k later. ground arith };
  payments = record { ids = (refl, tt); fresh = λ k later. ground arith };
  range = (omega arith, (omega arith, tt));
  balanced = λ u. ground arith;
  credited = λ u. ground arith;
  booked = refl;
}

cancel_again-understates_example :
    balance_of 8 (settle_cancelled env "Doublon" void_fee with_void)
    ≡ due_of 8 (settle_cancelled env "Doublon" void_fee with_void) - 200
unfolding find_row
cancel_again-understates_example =
    cancel_again-understates env env-NeverRepeats with_void with_void-IsConsistent "Doublon"
      void_fee refl refl

-- a member with 500 due who is told to owe 300
cancelled_twice : balance_of 8 (settle_cancelled env "Doublon" void_fee with_void) ≡ 300
unfolding settle_cancelled find_row save_row update_account
cancelled_twice = refl

-- a contribution of the member, with a cut text in place of the first 80 characters
abbrev cutting : Env
cutting = record env { prefix = λ n t. "bulk_club" }

abbrev contribution : FeeBulkCreate
contribution = record {
  scope_type = "members";
  user_ids = 8 ∷ [];
  pole_id = none;
  project_id = none;
  season_id = none;
  type = "contribution";
  category = none;
  label = "Sortie";
  description = none;
  amount = ℤ.pos 300;
  currency = "FCFA";
  due_date = none;
}

abbrev opened : Session
opened = record { saved = db; work = db }

makes_one :
    (create_fee_records cutting treasurer contribution (8 ∷ []) opened).0
    ≡ ok (new_fee cutting 7 (bulk_record cutting treasurer contribution 8) 3 ∷ [])
unfolding create_fee_records create_fee_record bulk_record existing_fee add_fee update_account
    mem_text first find_row
makes_one = refl

create_fee_records-again_example :
    let s' = (create_fee_records cutting treasurer contribution (8 ∷ []) opened).1 in
    (create_fee_records
      (record cutting { utcnow = 200 })
      treasurer
      contribution
      (8 ∷ [])
      s').1.work.ledger
    ≡ s'.work.ledger
create_fee_records-again_example =
    create_fee_records-again cutting 200 treasurer contribution (8 ∷ []) opened
      (new_fee cutting 7 (bulk_record cutting treasurer contribution 8) 3 ∷ []) (λ t. refl)
      makes_one
