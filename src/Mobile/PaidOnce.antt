-- ===== src/Mobile/PaidOnce.antt =====
-- What is paid once stays paid once, whatever requests arrive.
use enactspace.Shared.{
  ℕ, ◌≡◌, refl, ◌⊎◌, mem_text, inl, inr, String, Bool, not, Option, none, some, List, [], ◌∷◌,
}
use enactspace.Shared.Env.{Env}
use enactspace.Shared.Int.{ℤ}
use enactspace.People.Models.{User}
use enactspace.People.Roles.{user_has_any_role, finance_management_roles}
use enactspace.Ledger.Models.{Payment}
use enactspace.Server.Models.{Db}
use enactspace.Server.Handler.{
  Result, Session, pure, gets, raise_if, audit, commit, respond, ◌>>=◌, ◌>>◌,
}
use enactspace.Server.Handler.Laws.{then-Keeps}
use enactspace.Server.Deps.{current_active_validated_user, require_finance_or_admin}
use enactspace.Mobile.Models.{MobileMoneyTransaction, PaymentProviderResult}
use enactspace.Mobile.Service.{transaction_row}
use enactspace.Mobile.Reconciliation.{refresh_transaction, reconcile_pending_transactions}
use enactspace.Mobile.Callback.{Callback}
use enactspace.Mobile.Routes.{
  Arrival, MobileRequest, serve, serve_all, refresh_mobile_money_payment_status,
  reconcile_mobile_money_payments, can_access_transaction, refresh_allowed, refresh_found,
  reconcile_enabled, notify, refresh, reconcile, safe_limit, summary_json,
}
use enactspace.Mobile.Finality.{Stands, Holds}
use enactspace.Mobile.Arrivals.{
  Kept, commit-Kept, paydunya_ipn-Kept, refresh_transaction-Kept, reconcile-Kept,
}

Request-cases :
    (r : MobileRequest)
    → ((c : Callback) × (r ≡ MobileRequest.notify c))
      ⊎ ((user : User) × (j : ℕ) × (r ≡ MobileRequest.refresh user j))
      ⊎ ((enabled : Bool) × (user : User) × (limit : ℤ) × (r
            ≡ MobileRequest.reconcile enabled user limit))
Request-cases (notify c) = inl (c, refl)
Request-cases (refresh user j) = inr (inl (user, j, refl))
Request-cases (reconcile enabled user limit) = inr (inr (enabled, user, limit, refl))

module _ (k : ℕ) (t : MobileMoneyTransaction) (p : Payment) (successful : t.status ≡ "successful")
    (names : t.payment_id ≡ some p.id) where
  abbrev Paid : Session → Type 0
  Paid = Kept k t p successful names

  -- the guards write nothing
  guard-Kept : (user : User) (s : Session) → Paid s → Paid (current_active_validated_user user s).1
  unfolding current_active_validated_user
  guard-Kept user s h =
      then-Keeps Paid (λ u. raise_if (not user.email_verified) 403 "Email non vérifié")
        (λ u s' h'. h')
        (raise_if (not (mem_text user.status ("active" ∷ "alumni" ∷ []))) 403
          "Compte en attente de validation par l'administration" s).0
        s h

  finance-Kept :
      (env : Env) (user : User) (s : Session)
      → Paid s
      → Paid (require_finance_or_admin env user s).1
  unfolding require_finance_or_admin
  finance-Kept env user s h =
      let checked = current_active_validated_user user s in
      then-Keeps Paid
        (λ u.
          gets (λ db. user_has_any_role env user.id finance_management_roles db.people)
          >>= λ allowed.
              raise_if (not allowed) 403
                "Action réservée au financier, au Team Leader ou à l'administrateur")
        (λ u s' h'. h') checked.0 checked.1 (guard-Kept user s h)

  module _ (env : Env) (lookup : MobileMoneyTransaction → Result PaymentProviderResult) where
    refresh_allowed-Kept :
        (ip : Option String) (t' : MobileMoneyTransaction) (s : Session)
        → Paid s
        → Paid (refresh_allowed env lookup ip t' s).1
    unfolding refresh_allowed
    refresh_allowed-Kept ip t' s h =
        let done = refresh_transaction env lookup t' ip s in
        then-Keeps Paid (λ u. commit >> gets (λ db. transaction_row t'.id db.mobile))
          (λ u s' h'. commit-Kept k t p successful names env s' h') done.0 done.1
          (refresh_transaction-Kept k t p successful names env lookup t' ip s h)

    refresh_found-Kept :
        (user : User) (ip : Option String) (row : Option MobileMoneyTransaction) (s : Session)
        → Paid s
        → Paid (refresh_found env lookup user ip row s).1
    unfolding refresh_found
    refresh_found-Kept user ip none s h = h
    refresh_found-Kept user ip (some t') s h =
        then-Keeps Paid (λ u. refresh_allowed env lookup ip t')
          (λ u s' h'. refresh_allowed-Kept ip t' s' h')
          (raise_if (not (can_access_transaction env lookup user t' s.work.people)) 403
            "Vous ne pouvez pas actualiser cette transaction" s).0
          s h

    refresh_route-Kept :
        (user : User) (ip : Option String) (j : ℕ) (s : Session)
        → Paid s
        → Paid (refresh_mobile_money_payment_status env lookup user ip j s).1
    unfolding refresh_mobile_money_payment_status
    refresh_route-Kept user ip j s h =
        let checked = current_active_validated_user user s in
        then-Keeps Paid
          (λ u. gets (λ db. transaction_row j db.mobile) >>= λ found.
            refresh_found env lookup user ip found)
          (λ u s' h'. refresh_found-Kept user ip (transaction_row j s'.work.mobile) s' h') checked.0
          checked.1 (guard-Kept user s h)

    reconcile_enabled-Kept :
        (user : User) (ip : Option String) (limit : ℤ) (s : Session)
        → Paid s
        → Paid (reconcile_enabled env lookup user ip limit s).1
    unfolding reconcile_enabled Holds
    reconcile_enabled-Kept user ip limit s h =
        let done = reconcile_pending_transactions env lookup (safe_limit limit) ip s in
        then-Keeps Paid
          (λ summary.
            audit env "mobile_money_reconciliation" (some user.id) (some "mobile_money_transaction")
              none none (some (summary_json summary)) ip
            >> (commit >> pure summary))
          (λ summary s' h'. (h'.1, h'.1)) done.0 done.1
          (reconcile-Kept k t p successful names env lookup (safe_limit limit) ip s h)

    reconcile_route-Kept :
        (enabled : Bool) (user : User) (ip : Option String) (limit : ℤ) (s : Session)
        → Paid s
        → Paid (reconcile_mobile_money_payments env lookup enabled user ip limit s).1
    unfolding reconcile_mobile_money_payments
    reconcile_route-Kept enabled user ip limit s h =
        let checked = require_finance_or_admin env user s in
        then-Keeps Paid
          (λ u.
            raise_if (not enabled) 503 "Le rapprochement Mobile Money est desactive"
            >> reconcile_enabled env lookup user ip limit)
          (λ u s' h'.
            then-Keeps Paid (λ v. reconcile_enabled env lookup user ip limit)
              (λ v s'' h''. reconcile_enabled-Kept user ip limit s'' h'')
              (raise_if (not enabled) 503 "Le rapprochement Mobile Money est desactive" s').0 s' h')
          checked.0 checked.1 (finance-Kept env user s h)

  serve-Stands :
      (a : Arrival) (db : Db)
      → Stands k t p successful names db
      → Stands k t p successful names (serve a db)
  unfolding serve respond Holds
  serve-Stands a db h = elim (Request-cases a.request) [
    | inl (c, is) ↦
        rw (serve, is) (paydunya_ipn-Kept k t p successful names a.env c a.ip _ (h, h)).0
    | inr (inl (user, j, is)) ↦
        rw (serve, is) (refresh_route-Kept a.env a.lookup user a.ip j _ (h, h)).0
    | inr (inr (enabled, user, limit, is)) ↦
        rw (serve, is) (reconcile_route-Kept a.env a.lookup enabled user a.ip limit _ (h, h)).0
  ]

  -- A successful transaction that names its payment keeps its row, and the payment keeps its row,
  -- whatever provider notifications, refreshes and reconciliations arrive, in any order and with any
  -- answers of the provider.
  pub serve_all-Stands :
      (arrivals : List Arrival) (db : Db)
      → Stands k t p successful names db
      → Stands k t p successful names (serve_all arrivals db)
  unfolding serve_all
  serve_all-Stands [] db h = h
  serve_all-Stands (a ∷ rest) db h = serve_all-Stands rest (serve a db) (serve-Stands a db h)
