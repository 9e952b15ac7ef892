-- ===== src/Mobile/Tests.antt =====
-- A member pays a fee of five francs by mobile money.
use enactspace.Shared.{ℕ, ◌+◌, ◌*◌, ◌≡◌, refl, true, none, some, List, [], ◌∷◌, mem_text, arith}
use enactspace.Shared.Int.{ℤ}
use enactspace.Shared.Table.{find_row}
use enactspace.Ledger.Models.{Payment, Ledger}
use enactspace.Ledger.Samples.{fee, env, treasurer, payer, payment, ledger, db}
use enactspace.Ledger.Tests.{env-NeverRepeats, ledger-IsConsistent}
use enactspace.Ledger.Balance.{IsConsistent, due_of}
use enactspace.Server.Models.{Db}
use enactspace.Server.Handler.{ok}
use enactspace.Mobile.Models.{MobileMoneyTransaction, PaymentProviderResult, ProviderAmount}
use enactspace.Mobile.Allocation.{
  parsed_ids, none_found, allocate_payment, allocate_selected, fee_remaining_amount,
  normalize_currency,
}
use enactspace.Mobile.Confirmation.{settle_transaction}
use enactspace.Mobile.Callback.{Callback}
use enactspace.Mobile.Settlement.{value}
use enactspace.Mobile.Settlement.Receipt.{settle_transaction-IsConsistent}
use enactspace.Mobile.Settlement.Success.{settle_transaction-whole, lacks}
use enactspace.Mobile.Routes.{Arrival, MobileRequest, serve_all}
use enactspace.Mobile.PaidOnce.{serve_all-Stands}
use enactspace.Mobile.Finality.{Stands}

abbrev transaction : MobileMoneyTransaction
transaction = record {
  id = 20;
  member_id = 8;
  finance_item_id = some 1;
  payment_id = none;
  provider = "paydunya";
  provider_transaction_id = none;
  provider_invoice_token = some "token";
  idempotency_key = "mm:1";
  amount = 5;
  currency = "XOF";
  phone_number_masked = none;
  channel = none;
  status = "pending";
  provider_status = none;
  checkout_url = none;
  failure_code = none;
  failure_message = none;
  created_at = 1;
  updated_at = 1;
  expires_at = some 500;
  completed_at = none;
  cancelled_at = none;
  refunded_at = none;
  last_verified_at = none;
  finance_item_ids = some 1 ∷ none ∷ [];
}

abbrev outcome : (Payment × ℕ) × Ledger
outcome = value ((payment, 0), ledger) (settle_transaction env transaction none ledger)

settles :
    settle_transaction env transaction none ledger ≡ ok ((outcome.0.0, outcome.0.1), outcome.1)
unfolding settle_transaction allocate_payment allocate_selected fee_remaining_amount
    normalize_currency none_found parsed_ids find_row mem_text
settles = refl

settle_transaction-IsConsistent_example :
    IsConsistent env.uuid4 outcome.1
    × (outcome.0.1 ≡ 5)
    × (due_of 8 outcome.1 + 100 * 5 ≡ due_of 8 ledger)
unfolding parsed_ids find_row
settle_transaction-IsConsistent_example =
    settle_transaction-IsConsistent env env-NeverRepeats ledger ledger-IsConsistent transaction none
      ((tt, tt), ((λ f row. ground (arith, row)), tt)) outcome.0.0 outcome.0.1 outcome.1 settles

-- the transaction after it was paid by the payment
abbrev paid : MobileMoneyTransaction
paid = record transaction { status = "successful"; payment_id = some 2 }

abbrev paid_db : Db
paid_db = record db { mobile = record { transactions = paid ∷ []; events = []; drawn = 0 } }

abbrev report : PaymentProviderResult
report = record {
  status = "cancelled";
  provider_token = some "token";
  provider_transaction_id = none;
  provider_status = some "cancelled";
  event_id = none;
  amount = ProviderAmount.absent;
  currency = none;
  internal_transaction_id = none;
}

-- the provider says that it was cancelled, the member asks, and the treasurer reconciles
abbrev arrivals : List Arrival
arrivals =
    record {
      env = env;
      lookup = λ t. ok report;
      ip = none;
      request = MobileRequest.notify (Callback.verified report);
    }
    ∷ record {
      env = env;
      lookup = λ t. ok report;
      ip = none;
      request = MobileRequest.refresh payer 20;
    }
    ∷ record {
      env = env;
      lookup = λ t. ok report;
      ip = none;
      request = MobileRequest.reconcile true treasurer (ℤ.pos 50);
    }
    ∷ []

serve_all-Stands_example : Stands 20 paid payment refl refl (serve_all arrivals paid_db)
unfolding find_row
serve_all-Stands_example = serve_all-Stands 20 paid payment refl refl arrivals paid_db (refl, refl)

settle_transaction-whole_example :
    (p : Payment) × (l' : Ledger) × (settle_transaction env transaction none ledger
      ≡ ok ((p, 5), l'))
unfolding parsed_ids find_row fee_remaining_amount normalize_currency mem_text lacks
settle_transaction-whole_example =
    settle_transaction-whole env transaction none ledger 1 [] refl (tt, tt)
      ((fee, 5, refl, refl), tt) (omega arith)
