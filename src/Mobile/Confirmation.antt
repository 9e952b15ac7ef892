-- ===== src/Mobile/Confirmation.antt =====
-- `confirm_transaction` of services/mobile_money_service.py. `ip` stands for `get_client_ip(request)`.
use enactspace.Shared.{
  ℕ, ◌+◌, ◌*◌, String, false, Option, none, some, [], ◌∷◌, ◌++◌, fstring, if◌then◌else◌,
}
use enactspace.Shared.Env.{Env}
use enactspace.Shared.Json.{Json}
use enactspace.Shared.Table.{find_row}
use enactspace.Ledger.Models.{Payment, PaymentStatus, ClubTransaction, TransactionType, Ledger}
use enactspace.Ledger.Accounts.{update_account, credit}
use enactspace.Ledger.Requests.{finance_notice}
use enactspace.Outbox.Lifecycle.{has_text}
use enactspace.Outbox.Service.{text_or}
use enactspace.Server.Handler.{
  Handler, Result, ok, err, pure, raise, gets, modify_ledger, flush, audit, notify_user, ◌>>=◌,
  ◌>>◌,
}
use enactspace.Mobile.Models.{MobileMoneyTransaction}
use enactspace.Mobile.Allocation.{allocate_payment}
use enactspace.Mobile.Service.{
  transaction_row, save_transaction, modify_mobile, text_or_else, create_event,
}

-- hundredths of a transaction's amount
abbrev pub cents : MobileMoneyTransaction → ℕ
cents t = 100 * t.amount

-- the payment that the transaction names, where it stands
unfoldable pub payment_of : MobileMoneyTransaction → Ledger → Option Payment
payment_of t l = elim t.payment_id [
  | none ↦ none
  | some k ↦ find_row (λ (p : Payment). p.id) k l.payments
]

module _ (env : Env) where
  unfoldable pub reference_of : MobileMoneyTransaction → Option String → String
  reference_of t provider_transaction_id =
      if has_text provider_transaction_id
      then fstring ("PayDunya:" ∷ env.suffix 12 (text_or provider_transaction_id "") ∷ [])
      else fstring ("MobileMoney:" ∷ env.suffix 12 (env.id_text t.id) ∷ [])

  -- the payment that `confirm_transaction` adds
  unfoldable pub mobile_payment : MobileMoneyTransaction → Option String → ℕ → Payment
  unfolding reference_of
  mobile_payment t provider_transaction_id drawn = record {
    id = env.uuid4 drawn;
    user_id = t.member_id;
    amount = cents t;
    currency = "FCFA";
    method = "mobile_money";
    status = PaymentStatus.validated;
    reference = some (reference_of t provider_transaction_id);
    proof_url = none;
    proof_file_id = none;
    validated_by = none;
    validated_at = some env.utcnow;
    rejected_at = none;
    rejection_reason = none;
    receipt_url =
        some (fstring ("/api/finance/payments/" ∷ env.id_text (env.uuid4 drawn) ∷ "/receipt" ∷ []));
    receipt_file_id = none;
    created_at = env.utcnow;
  }

  -- the line of the cash book
  unfoldable pub mobile_income : MobileMoneyTransaction → ℕ → ℕ → ClubTransaction
  mobile_income t payment_id drawn = record {
    id = env.uuid4 drawn;
    season_id = none;
    type = TransactionType.income;
    category = some "mobile_money";
    label = "Paiement Mobile Money";
    description = none;
    amount = cents t;
    currency = "FCFA";
    project_id = none;
    pole_id = none;
    payment_id = some payment_id;
    proof_url = none;
    proof_file_id = none;
    created_by = none;
    validated_by = none;
    created_at = env.utcnow;
  }

  -- What a confirmation does to the tables of the ledger, with the payment and the total allocated.
  unfoldable pub settle_transaction :
      MobileMoneyTransaction → Option String → Ledger → Result ((Payment × ℕ) × Ledger)
  unfolding mobile_payment mobile_income allocate_payment
  settle_transaction t provider_transaction_id l =
      let payment = mobile_payment t provider_transaction_id l.drawn in
      let l₁ = record l { payments = l.payments ++ payment ∷ []; drawn = l.drawn + 1 } in
      elim (allocate_payment env payment t l₁) [
        | err e ↦ err e
        | ok r ↦
            let (total, l₂) = r in
            let l₃ = update_account env t.member_id (credit env (cents t) (100 * total)) l₂ in
            ok (
              (payment, total),
              record l₃ {
                transactions = l₃.transactions ++ mobile_income t payment.id l₃.drawn ∷ [];
                drawn = l₃.drawn + 1;
              },
            )
      ]

  -- the columns that `confirm_transaction` writes
  unfoldable pub confirmed :
      Option String → Option String → ℕ → MobileMoneyTransaction → MobileMoneyTransaction
  confirmed provider_status provider_transaction_id payment_id t = record t {
    payment_id = some payment_id;
    status = "successful";
    provider_status = provider_status;
    provider_transaction_id = text_or_else provider_transaction_id t.provider_transaction_id;
    completed_at = some env.utcnow;
    last_verified_at = some env.utcnow;
    updated_at = env.utcnow;
  }

  -- `confirm_transaction` after the writes of the ledger. What they raise drops what they wrote, as
  -- the session is closed.
  unfoldable pub confirm_settled :
      Result ((Payment × ℕ) × Ledger)
      → MobileMoneyTransaction
      → Option String
      → Option String
      → Option String
      → Option String
      → Handler Payment
  unfolding confirmed create_event
  confirm_settled (err e) t provider_status provider_transaction_id provider_event_id ip =
      λ s. (err e, s)
  confirm_settled (ok ((payment, total), l)) t provider_status provider_transaction_id
        provider_event_id ip =
      do
        modify_ledger (λ _. l)
        flush
        modify_mobile
            (save_transaction (confirmed provider_status provider_transaction_id payment.id t))
        modify_mobile (
            create_event env t.id "confirmed" (some t.status) (some "successful") provider_event_id
              false none
              (("payment_id", Json.number payment.id)
                ∷ ("allocated_total", Json.number total)
                ∷ []))
        notify_user env t.member_id (
            finance_notice "Paiement confirme"
              (fstring ("Votre paiement de " ∷ env.fixed0 (cents t) ∷ " FCFA a ete confirme." ∷ []))
              "payment_confirmed" "payment" payment.id)
        audit env "mobile_money_confirmed" none (some "mobile_money_transaction") (some t.id)
            (some (("status", Json.text t.status) ∷ []))
            (some (
              ("status", Json.text "successful")
              ∷ ("payment_id", Json.number payment.id)
              ∷ ("amount", Json.number t.amount)
              ∷ ("provider", Json.text t.provider)
              ∷ []))
            ip
        pure payment

  -- `confirm_transaction` on a transaction that has no payment
  unfoldable pub confirm_new :
      MobileMoneyTransaction
      → Option String
      → Option String
      → Option String
      → Option String
      → Handler Payment
  unfolding settle_transaction confirm_settled
  confirm_new t provider_status provider_transaction_id provider_event_id ip = do
    settled ← gets (λ db. settle_transaction t provider_transaction_id db.ledger)
    confirm_settled settled t provider_status provider_transaction_id provider_event_id ip

  -- `confirm_transaction` on the payment that its transaction names
  unfoldable pub confirm_unpaid :
      Option Payment
      → MobileMoneyTransaction
      → Option String
      → Option String
      → Option String
      → Option String
      → Handler Payment
  unfolding confirm_new
  confirm_unpaid (some payment) t provider_status provider_transaction_id provider_event_id ip =
      pure payment
  confirm_unpaid none t provider_status provider_transaction_id provider_event_id ip =
      confirm_new t provider_status provider_transaction_id provider_event_id ip

  -- `confirm_transaction` on the row that it locked
  unfoldable pub confirm_locked :
      Option MobileMoneyTransaction
      → Option String
      → Option String
      → Option String
      → Option String
      → Handler Payment
  unfolding confirm_unpaid payment_of
  confirm_locked none provider_status provider_transaction_id provider_event_id ip =
      raise 404 "Transaction Mobile Money introuvable"
  confirm_locked (some t) provider_status provider_transaction_id provider_event_id ip = do
    paid ← gets (λ db. payment_of t db.ledger)
    confirm_unpaid paid t provider_status provider_transaction_id provider_event_id ip

  unfoldable pub confirm_transaction :
      ℕ → Option String → Option String → Option String → Option String → Handler Payment
  unfolding confirm_locked
  confirm_transaction transaction_id provider_status provider_transaction_id provider_event_id ip =
      do
        locked ← gets (λ db. transaction_row transaction_id db.mobile)
        confirm_locked locked provider_status provider_transaction_id provider_event_id ip
