-- ===== src/Mobile/Callback.antt =====
-- `paydunya_ipn` of api/routes/payments.py: what the provider reports of a payment.
use enactspace.Shared.{
  ℕ, String, Bool, true, false, not, ◌&&◌, Option, none, some, [], ◌∷◌, ◌==◌, str_eq, same_text,
  is_none, if◌then◌else◌,
}
use enactspace.Shared.Env.{Env}
use enactspace.Shared.Int.{ℤ, pos, negsuc}
use enactspace.Shared.Table.{first}
use enactspace.Outbox.Lifecycle.{has_text}
use enactspace.Server.Handler.{
  Handler, Result, ok, err, pure, raise, gets, commit, http_exception, ◌>>=◌, ◌>>◌,
}
use enactspace.Mobile.Models.{
  MobileMoneyTransaction, MobileMoney, ProviderAmount, PaymentProviderResult,
}
use enactspace.Mobile.Allocation.{normalize_currency}
use enactspace.Mobile.Service.{
  transaction_row, modify_mobile, text_or_else, create_event, mark_not_successful, provider_text,
}
use enactspace.Mobile.Confirmation.{confirm_transaction}

-- what `verify_callback` gives: the public message of a provider error, or the result
pub data Callback : Type 0 where
  refused : String → Callback
  verified : PaymentProviderResult → Callback

pub record IpnReply : Type 0 where
  pub status : String
  pub duplicate : Bool
  pub payment_id : Option ℕ

abbrev pub with_token : Option String → MobileMoneyTransaction → Bool
with_token token t = same_text t.provider_invoice_token token

unfoldable pub find_transaction :
    Option String → Option ℕ → MobileMoney → Option MobileMoneyTransaction
find_transaction provider_token internal_transaction_id m =
    let by_id : Option MobileMoneyTransaction = elim internal_transaction_id [
      | none ↦ none
      | some k ↦ transaction_row k m
    ] in
    if not (has_text provider_token)
    then by_id
    else elim (first (with_token provider_token) m.transactions) [ some t ↦ some t | none ↦ by_id ]

-- `amount_to_int`
unfoldable pub amount_to_int : ProviderAmount → Result (Option ℤ)
amount_to_int ProviderAmount.absent = ok none
amount_to_int ProviderAmount.invalid = err (http_exception 400 "Montant provider invalide")
amount_to_int ProviderAmount.fractional = err (http_exception 400 "Montant provider non entier")
amount_to_int (ProviderAmount.whole n) = ok (some n)

-- `provider_amount is not None and provider_amount != transaction.amount`
abbrev pub differs : Option ℤ → ℕ → Bool
differs none amount = false
differs (some (pos n)) amount = not (n == amount)
differs (some (negsuc n)) amount = true

abbrev pub lift : {A : Type 0} → Result A → Handler A
lift r s = (r, s)

module _ (env : Env) where
  -- an event that leaves the status, then the answer of the branch
  abbrev pub log_event :
      MobileMoneyTransaction → String → Option String → Bool → Option String → Handler (Unit {0})
  log_event t event_type provider_event_id is_duplicate error_message = modify_mobile (
      create_event env t.id event_type (some t.status) (some t.status) provider_event_id
        is_duplicate error_message [])

  -- the status that the answer shows
  abbrev pub status_now : MobileMoneyTransaction → Handler String
  status_now t =
      gets (λ db. elim (transaction_row t.id db.mobile) [ none ↦ t.status | some t' ↦ t'.status ])

  -- `paydunya_ipn` after the tests on amount and currency
  unfoldable pub settle_callback :
      MobileMoneyTransaction
      → PaymentProviderResult
      → Option String
      → Option String
      → Handler IpnReply
  unfolding create_event confirm_transaction mark_not_successful
  settle_callback t r provider_event_id ip =
      if str_eq t.status "successful" && not (is_none t.payment_id)
      then (do
        modify_mobile (
            create_event env t.id "duplicate_callback" (some t.status) (some t.status)
              provider_event_id true none
              (("provider_status", provider_text r.provider_status) ∷ []))
        commit
        pure (record { status = t.status; duplicate = true; payment_id = none }))
      else if str_eq r.status "successful"
      then (do
        payment ←
            confirm_transaction env t.id r.provider_status r.provider_transaction_id
              provider_event_id ip
        commit
        status ← status_now t
        pure (record { status = status; duplicate = false; payment_id = some payment.id }))
      else (do
        mark_not_successful env t.id r.status r.provider_status provider_event_id
        commit
        status ← status_now t
        pure (record { status = status; duplicate = false; payment_id = none }))

  -- `paydunya_ipn` on the transaction that it found
  unfoldable pub check_callback :
      MobileMoneyTransaction → PaymentProviderResult → Option String → Handler IpnReply
  unfolding settle_callback amount_to_int normalize_currency
  check_callback t r ip = do
    let provider_event_id = text_or_else r.event_id r.provider_token
    amount ← lift (amount_to_int r.amount)
    if differs amount t.amount
        then (do
          log_event t "amount_mismatch" provider_event_id false (some "provider_amount_mismatch")
          commit
          raise 400 "Montant provider incoherent")
        else (do
          currency ← lift (normalize_currency env r.currency)
          if not (str_eq currency t.currency)
              then (do
                log_event t "currency_mismatch" provider_event_id false
                    (some "provider_currency_mismatch")
                commit
                raise 400 "Devise provider incoherente")
              else settle_callback t r provider_event_id ip)

  unfoldable pub callback_locked :
      Option MobileMoneyTransaction → PaymentProviderResult → Option String → Handler IpnReply
  unfolding check_callback
  callback_locked none r ip = raise 404 "Transaction Mobile Money introuvable"
  callback_locked (some t) r ip = check_callback t r ip

  unfoldable pub callback_found :
      Option MobileMoneyTransaction → PaymentProviderResult → Option String → Handler IpnReply
  unfolding callback_locked
  callback_found none r ip = raise 404 "Transaction Mobile Money introuvable"
  callback_found (some t) r ip = do
    locked ← gets (λ db. transaction_row t.id db.mobile)
    callback_locked locked r ip

  unfoldable pub paydunya_ipn : Callback → Option String → Handler IpnReply
  unfolding find_transaction callback_found
  paydunya_ipn (refused detail) ip = raise 400 detail
  paydunya_ipn (verified r) ip = do
    found ← gets (λ db. find_transaction r.provider_token r.internal_transaction_id db.mobile)
    callback_found found r ip
