-- ===== src/Ledger/Refusals.antt =====
-- The routes of api/routes/finance.py that refuse a payment: `reject_payment` and `cancel_payment`.
use enactspace.Shared.{
  ℕ, String, not, ◌&&◌, ◌||◌, Option, none, some, [], ◌∷◌, ◌==◌, str_eq, without_id, fstring,
  if◌then◌else◌,
}
use enactspace.Shared.Env.{Env}
use enactspace.People.Models.{User}
use enactspace.Ledger.Models.{Payment, PaymentStatus, payment_status_text}
use enactspace.Ledger.Accounts.{save_payment}
use enactspace.Ledger.Requests.{finance_notice}
use enactspace.Ledger.Payments.{
  PaymentPayload, payment_row, payment_payload, can_review_payment, is_finance_manager,
  finance_manager_ids,
}
use enactspace.Server.Models.{Json}
use enactspace.Server.Handler.{
  Handler, pure, raise, or_raise, raise_if, gets, modify_ledger, commit, audit, notify_user,
  notify_users, ◌>>=◌, ◌>>◌,
}
use enactspace.Server.Deps.{require_finance_or_admin, current_active_validated_user}

module _ (env : Env) where
  -- the fields that `reject_payment` writes on the payment
  unfoldable pub rejected_payment : String → Payment → Payment
  rejected_payment reason payment = record payment {
    status = PaymentStatus.rejected;
    rejected_at = some env.utcnow;
    rejection_reason = some reason;
    validated_by = none;
    validated_at = none;
  }

  -- `reject_payment` after its tests on the status, on a pending payment
  unfoldable pub reject_pending : User → Option String → String → Payment → Handler PaymentPayload
  reject_pending current_user ip payload_reason payment = do
    let reason = env.strip payload_reason
    raise_if (str_eq reason "") 400 "Le motif de rejet est obligatoire"
    modify_ledger (save_payment (rejected_payment reason payment))
    notify_user env payment.user_id (
        finance_notice "Paiement rejete"
          (fstring
            ("Votre paiement de " ∷ env.fixed0 payment.amount ∷ " FCFA est rejete: " ∷ reason ∷ []))
          "payment_rejected" "payment" payment.id)
    audit env "rejet_paiement" (some current_user.id) (some "payment") (some payment.id)
        (some (("status", Json.text (payment_status_text payment.status)) ∷ []))
        (some (("status", Json.text "rejected") ∷ ("reason", Json.text reason) ∷ [])) ip
    commit
    gets (λ db. payment_payload env current_user (rejected_payment reason payment) db.people)

  unfoldable pub reject_payment : User → Option String → ℕ → String → Handler PaymentPayload
  unfolding reject_pending require_finance_or_admin
  reject_payment current_user ip payment_id reason = do
    require_finance_or_admin env current_user
    found ← gets (λ db. payment_row env payment_id db.ledger)
    payment ← or_raise found 404 "Paiement introuvable"
    reviewer ← gets (λ db. can_review_payment env current_user payment db.people)
    raise_if (not reviewer) 403 "Vous ne pouvez pas rejeter votre propre paiement"
    elim payment.status [
      | PaymentStatus.rejected ↦ gets (λ db. payment_payload env current_user payment db.people)
      | PaymentStatus.validated ↦ raise 409 "Impossible de rejeter ce paiement"
      | PaymentStatus.cancelled ↦ raise 409 "Impossible de rejeter ce paiement"
      | PaymentStatus.pending ↦ reject_pending current_user ip reason payment
    ]

  abbrev pub cancelled_payment : Payment → Payment
  cancelled_payment payment = record payment { status = PaymentStatus.cancelled }

  -- who hears of a cancelled payment: its member when a manager cancels it, the other managers when
  -- the member does
  abbrev pub notify_cancelled : User → Payment → Handler (Unit {0})
  notify_cancelled current_user payment = do
    manager ← gets (λ db. is_finance_manager env current_user db.people)
    managers ← gets (λ db. finance_manager_ids env db.people)
    if manager && not (payment.user_id == current_user.id)
        then notify_user env payment.user_id (
            finance_notice "Paiement annule"
              (fstring
                ("Votre paiement de " ∷ env.fixed0 payment.amount ∷ " FCFA a ete annule." ∷ []))
              "payment_cancelled" "payment" payment.id)
        else if payment.user_id == current_user.id
        then notify_users env (without_id current_user.id managers) (
            finance_notice "Paiement annule"
              (fstring ("Un paiement de " ∷ env.fixed0 payment.amount ∷ " FCFA a ete annule." ∷ []))
              "payment_cancelled" "payment" payment.id)
        else pure tt

  -- `cancel_payment` after its tests, on a pending or rejected payment
  unfoldable pub cancel_open : User → Option String → Payment → Handler PaymentPayload
  cancel_open current_user ip payment = do
    modify_ledger (save_payment (cancelled_payment payment))
    notify_cancelled current_user payment
    audit env "annulation_paiement" (some current_user.id) (some "payment") (some payment.id)
        (some (("status", Json.text (payment_status_text payment.status)) ∷ []))
        (some (("status", Json.text "cancelled") ∷ [])) ip
    commit
    gets (λ db. payment_payload env current_user (cancelled_payment payment) db.people)

  unfoldable pub cancel_payment : User → Option String → ℕ → Handler PaymentPayload
  unfolding cancel_open current_active_validated_user
  cancel_payment current_user ip payment_id = do
    current_active_validated_user current_user
    found ← gets (λ db. payment_row env payment_id db.ledger)
    payment ← or_raise found 404 "Paiement introuvable"
    manager ← gets (λ db. is_finance_manager env current_user db.people)
    raise_if (not (manager || payment.user_id == current_user.id)) 403
        "Vous ne pouvez pas annuler ce paiement"
    elim payment.status [
      | PaymentStatus.cancelled ↦ gets (λ db. payment_payload env current_user payment db.people)
      | PaymentStatus.validated ↦
          raise 409 "Impossible d'annuler directement un paiement déjà validé"
      | PaymentStatus.pending ↦ cancel_open current_user ip payment
      | PaymentStatus.rejected ↦ cancel_open current_user ip payment
    ]
