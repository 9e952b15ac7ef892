-- ===== src/Mobile/Reconciliation.antt =====
-- `refresh_transaction` and `reconcile_pending_transactions` of services/mobile_money_service.py.
-- `lookup` stands for `get_payment_provider(…).get_payment_status(…)` on the transaction.
use enactspace.Shared.{
  ℕ, ◌+◌, String, Bool, false, Option, none, some, List, [], ◌∷◌, map, leb, str_eq, mem_text,
  if◌then◌else◌,
}
use enactspace.Shared.Env.{Env}
use enactspace.Shared.Table.{select, order_by, take}
use enactspace.Server.Handler.{Handler, Result, pure, gets, ◌>>=◌, ◌>>◌}
use enactspace.Mobile.Models.{MobileMoneyTransaction, PaymentProviderResult}
use enactspace.Mobile.Service.{transaction_row, text_or_else, mark_not_successful}
use enactspace.Mobile.Confirmation.{confirm_transaction}
use enactspace.Mobile.Callback.{lift}

-- ACTIVE_MOBILE_MONEY_STATUSES
abbrev pub active_statuses : List String
active_statuses = "created" ∷ "pending" ∷ "processing" ∷ []

-- `transaction.expires_at and transaction.expires_at <= now`
abbrev pub has_expired : ℕ → Option ℕ → Bool
has_expired now none = false
has_expired now (some t) = leb t now

-- the counts of `reconcile_pending_transactions`
pub record Summary : Type 0 where
  pub checked : ℕ
  pub successful : ℕ
  pub expired : ℕ
  pub failed : ℕ
  pub pending : ℕ

-- `if transaction.status in summary: summary[transaction.status] += 1`, after one more check
abbrev pub add_checked : String → Summary → Summary
add_checked status n = record n {
  checked = n.checked + 1 + (if str_eq status "checked" then 1 else 0);
  successful = n.successful + (if str_eq status "successful" then 1 else 0);
  expired = n.expired + (if str_eq status "expired" then 1 else 0);
  failed = n.failed + (if str_eq status "failed" then 1 else 0);
  pending = n.pending + (if str_eq status "pending" then 1 else 0);
}

abbrev pub count : Option String → Summary → Summary
count none n = n
count (some status) n = add_checked status n

abbrev pub no_checks : Summary
no_checks = record { checked = 0; successful = 0; expired = 0; failed = 0; pending = 0 }

module _ (env : Env) (lookup : MobileMoneyTransaction → Result PaymentProviderResult) where
  -- what the provider's answer does
  unfoldable pub apply_result :
      MobileMoneyTransaction → PaymentProviderResult → Option String → Handler (Unit {0})
  unfolding confirm_transaction mark_not_successful
  apply_result t r ip =
      let provider_event_id = text_or_else r.event_id r.provider_token in
      if str_eq r.status "successful"
      then confirm_transaction env t.id r.provider_status r.provider_transaction_id
          provider_event_id ip
        >>= (λ payment. pure tt)
      else mark_not_successful env t.id r.status r.provider_status provider_event_id

  -- The transaction is the row of the session, which the calls write.
  unfoldable pub refresh_transaction : MobileMoneyTransaction → Option String → Handler (Unit {0})
  unfolding apply_result
  refresh_transaction t ip =
      if str_eq t.status "successful"
      then pure tt
      else if has_expired env.utcnow t.expires_at
      then mark_not_successful env t.id "expired" t.provider_status none
      else lift (lookup t) >>= (λ r. apply_result t r ip)

  -- a round of `reconcile_pending_transactions` on a row, with the status that it leaves
  unfoldable pub refresh_loaded :
      Option MobileMoneyTransaction → Option String → Handler (Option String)
  unfolding refresh_transaction
  refresh_loaded none ip = pure none
  refresh_loaded (some t) ip = do
    refresh_transaction t ip
    after ← gets (λ db. transaction_row t.id db.mobile)
    pure (some (elim after [ none ↦ t.status | some t' ↦ t'.status ]))

  unfoldable pub refresh_row : ℕ → Option String → Handler (Option String)
  unfolding refresh_loaded
  refresh_row k ip = do loaded ← gets (λ db. transaction_row k db.mobile); refresh_loaded loaded ip

  -- the loop over the transactions that were loaded, each as the rounds before left it
  unfoldable pub refresh_all : List ℕ → Summary → Option String → Handler Summary
  unfolding refresh_row
  refresh_all [] n ip = pure n
  refresh_all (k ∷ ks) n ip = do status ← refresh_row k ip; refresh_all ks (count status n) ip

  unfoldable pub reconcile_pending_transactions : ℕ → Option String → Handler Summary
  unfolding refresh_all
  reconcile_pending_transactions limit ip = do
    loaded ← gets (λ db. take limit (
        order_by (λ (t : MobileMoneyTransaction). t.created_at)
          (select (λ t. mem_text t.status active_statuses) db.mobile.transactions)))
    refresh_all (map (λ (t : MobileMoneyTransaction). t.id) loaded) no_checks ip
