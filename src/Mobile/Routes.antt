-- ===== src/Mobile/Routes.antt =====
-- The requests that move a mobile transaction once it is initiated: the provider's notification, and
-- `refresh_mobile_money_payment_status` and `reconcile_mobile_money_payments` of api/routes/finance.py.
use enactspace.Shared.{
  ℕ, min, String, Bool, not, ◌||◌, Option, none, some, List, [], ◌∷◌, ◌==◌, if◌then◌else◌,
}
use enactspace.Shared.Env.{Env}
use enactspace.Shared.Int.{ℤ, to_ℕ, nonpositive}
use enactspace.Shared.Json.{Json}
use enactspace.People.Models.{User, People}
use enactspace.Ledger.Payments.{is_finance_manager}
use enactspace.Server.Models.{Db}
use enactspace.Server.Handler.{
  Handler, Result, pure, raise, raise_if, gets, commit, audit, after, ◌>>=◌, ◌>>◌,
}
use enactspace.Server.Deps.{current_active_validated_user, require_finance_or_admin}
use enactspace.Mobile.Models.{MobileMoneyTransaction, PaymentProviderResult}
use enactspace.Mobile.Service.{transaction_row}
use enactspace.Mobile.Callback.{Callback, paydunya_ipn}
use enactspace.Mobile.Reconciliation.{Summary, refresh_transaction, reconcile_pending_transactions}

abbrev pub summary_json : Summary → List (String × Json)
summary_json n =
    ("checked", Json.number n.checked)
    ∷ ("successful", Json.number n.successful)
    ∷ ("expired", Json.number n.expired)
    ∷ ("failed", Json.number n.failed)
    ∷ ("pending", Json.number n.pending)
    ∷ []

-- `min(max(limit, 1), 100)`
abbrev pub safe_limit : ℤ → ℕ
safe_limit limit = if nonpositive limit then 1 else min (to_ℕ limit) 100

module _ (env : Env) (lookup : MobileMoneyTransaction → Result PaymentProviderResult) where
  unfoldable pub can_access_transaction : User → MobileMoneyTransaction → People → Bool
  unfolding is_finance_manager
  can_access_transaction user t p = t.member_id == user.id || is_finance_manager env user p

  -- the route on a transaction that the user may access
  unfoldable pub refresh_allowed :
      Option String → MobileMoneyTransaction → Handler (Option MobileMoneyTransaction)
  unfolding refresh_transaction
  refresh_allowed ip t = do
    refresh_transaction env lookup t ip
    commit
    gets (λ db. transaction_row t.id db.mobile)

  -- the route on the row that it found
  unfoldable pub refresh_found :
      User → Option String → Option MobileMoneyTransaction → Handler (Option MobileMoneyTransaction)
  unfolding can_access_transaction refresh_allowed
  refresh_found current_user ip none = raise 404 "Transaction Mobile Money introuvable"
  refresh_found current_user ip (some t) = do
    allowed ← gets (λ db. can_access_transaction current_user t db.people)
    raise_if (not allowed) 403 "Vous ne pouvez pas actualiser cette transaction"
    refresh_allowed ip t

  unfoldable pub refresh_mobile_money_payment_status :
      User → Option String → ℕ → Handler (Option MobileMoneyTransaction)
  unfolding refresh_found current_active_validated_user
  refresh_mobile_money_payment_status current_user ip transaction_id = do
    current_active_validated_user current_user
    found ← gets (λ db. transaction_row transaction_id db.mobile)
    refresh_found current_user ip found

  -- the route where reconciliation is enabled
  unfoldable pub reconcile_enabled : User → Option String → ℤ → Handler Summary
  unfolding reconcile_pending_transactions
  reconcile_enabled current_user ip limit = do
    summary ← reconcile_pending_transactions env lookup (safe_limit limit) ip
    audit env "mobile_money_reconciliation" (some current_user.id) (some "mobile_money_transaction")
        none none (some (summary_json summary)) ip
    commit
    pure summary

  -- `enabled` stands for `settings.PAYMENT_RECONCILIATION_ENABLED`
  unfoldable pub reconcile_mobile_money_payments : Bool → User → Option String → ℤ → Handler Summary
  unfolding reconcile_enabled require_finance_or_admin
  reconcile_mobile_money_payments enabled current_user ip limit = do
    require_finance_or_admin env current_user
    raise_if (not enabled) 503 "Le rapprochement Mobile Money est desactive"
    reconcile_enabled current_user ip limit

-- A request, with the readings it takes.
pub data MobileRequest : Type 0 where
  notify : Callback → MobileRequest
  refresh : User → ℕ → MobileRequest
  reconcile : Bool → User → ℤ → MobileRequest

pub record Arrival : Type 0 where
  pub env : Env
  pub lookup : MobileMoneyTransaction → Result PaymentProviderResult
  pub ip : Option String
  pub request : MobileRequest

-- The database after one request, and after several, in the order of their arrival.
unfoldable pub serve : Arrival → Db → Db
unfolding paydunya_ipn refresh_mobile_money_payment_status reconcile_mobile_money_payments
serve a db = elim a.request [
  | notify callback ↦ after (paydunya_ipn a.env callback a.ip) db
  | refresh user k ↦ after (refresh_mobile_money_payment_status a.env a.lookup user a.ip k) db
  | reconcile enabled user limit ↦
      after (reconcile_mobile_money_payments a.env a.lookup enabled user a.ip limit) db
]

unfoldable pub serve_all : List Arrival → Db → Db
unfolding serve
serve_all [] db = db
serve_all (a ∷ rest) db = serve_all rest (serve a db)
