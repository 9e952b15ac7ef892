-- ===== src/Ledger/Payments.antt =====
-- The payment routes of api/routes/finance.py. `ip` stands for `get_client_ip(request)`.
use enactspace.Shared.{
  ℕ, ◌+◌, String, Bool, true, false, not, ◌&&◌, ◌||◌, Option, none, some, List, [], ◌∷◌, ◌++◌, map,
  ◌==◌, str_eq, is_none, mem_text, from_keys, fstring, if◌then◌else◌,
}
use enactspace.Shared.Env.{Env}
use enactspace.Shared.Int.{nonpositive, to_ℕ}
use enactspace.Shared.Table.{select, find_row, sum_by}
use enactspace.People.Models.{User, UserRole, People}
use enactspace.People.Roles.{user_has_any_role}
use enactspace.Ledger.Models.{
  Payment, PaymentStatus, PaymentAllocation, ClubTransaction, TransactionType, Ledger,
}
use enactspace.Ledger.Accounts.{
  allocate_payment_to_unpaid_fees, update_account, credit, save_payment,
}
use enactspace.Ledger.Requests.{
  PaymentCreate, valid_payment_methods, finance_manager_roles, payment_supervisor_roles,
  finance_notice,
}
use enactspace.Server.Models.{Json}
use enactspace.Server.Handler.{
  Handler, raise, or_raise, raise_if, gets, on_ledger, flush, commit, audit, notify_user,
  notify_users, ◌>>=◌, ◌>>◌,
}
use enactspace.Server.Deps.{require_finance_or_admin, current_active_validated_user}

-- what `payment_payload` adds to the payment
pub record PaymentPayload : Type 0 where
  pub payment : Payment
  pub can_validate : Bool
  pub can_reject : Bool
  pub can_cancel : Bool

abbrev pub is_pending : PaymentStatus → Bool
is_pending PaymentStatus.pending = true
is_pending _ = false

abbrev pub is_validated : PaymentStatus → Bool
is_validated PaymentStatus.validated = true
is_validated _ = false

-- `payment.status in {"pending", "rejected"}`
abbrev pub is_cancellable : PaymentStatus → Bool
is_cancellable PaymentStatus.pending = true
is_cancellable PaymentStatus.rejected = true
is_cancellable _ = false

-- `not (reference or proof_url or proof_file_id)`
abbrev pub lacks_text : Option String → Bool
lacks_text none = true
lacks_text (some s) = str_eq s ""

module _ (env : Env) where
  unfoldable pub is_finance_manager : User → People → Bool
  is_finance_manager user p = user_has_any_role env user.id finance_manager_roles p

  unfoldable pub can_review_payment : User → Payment → People → Bool
  unfolding is_finance_manager
  can_review_payment user payment p =
      if not (is_finance_manager user p)
      then false
      else if not (payment.user_id == user.id)
      then true
      else user_has_any_role env user.id payment_supervisor_roles p

  unfoldable pub payment_payload : User → Payment → People → PaymentPayload
  unfolding is_finance_manager can_review_payment
  payment_payload user payment p =
      let reviewer = can_review_payment user payment p in
      record {
        payment = payment;
        can_validate = reviewer && is_pending payment.status;
        can_reject = reviewer && is_pending payment.status;
        can_cancel =
            is_cancellable payment.status
            && (is_finance_manager user p || payment.user_id == user.id);
      }

  -- the query compares the stored names, which it does not normalise
  unfoldable pub finance_manager_ids : People → List ℕ
  unfolding from_keys mem_text
  finance_manager_ids p = from_keys (
      map (λ (r : UserRole). r.user_id)
        (select (λ r. mem_text r.role_name finance_manager_roles) p.user_roles))

  -- the row that `create_payment` adds
  unfoldable pub new_payment : PaymentCreate → ℕ → Payment
  new_payment p drawn = record {
    id = env.uuid4 drawn;
    user_id = p.user_id;
    amount = to_ℕ p.amount;
    currency = p.currency;
    method = p.method;
    status = PaymentStatus.pending;
    reference = p.reference;
    proof_url = p.proof_url;
    proof_file_id = p.proof_file_id;
    validated_by = none;
    validated_at = none;
    rejected_at = none;
    rejection_reason = none;
    receipt_url = none;
    receipt_file_id = none;
    created_at = env.utcnow;
  }

  unfoldable pub add_payment : PaymentCreate → Ledger → Payment × Ledger
  unfolding new_payment
  add_payment p l =
      let payment = new_payment p l.drawn in
      (payment, record l { payments = l.payments ++ payment ∷ []; drawn = l.drawn + 1 })

  unfoldable pub create_payment : User → PaymentCreate → Handler PaymentPayload
  unfolding current_active_validated_user
  create_payment current_user payload = do
    current_active_validated_user current_user
    manager ← gets (λ db. is_finance_manager current_user db.people)
    raise_if (nonpositive payload.amount) 400 "Le montant doit être supérieur à zéro"
    raise_if (not (mem_text payload.method valid_payment_methods)) 400
        "Méthode de paiement invalide"
    raise_if (not (payload.user_id == current_user.id) && not manager) 403
        "Vous ne pouvez enregistrer qu’un paiement pour votre compte"
    raise_if (not manager && mem_text payload.method ("manuel" ∷ "especes" ∷ [])) 403
        "Les paiements en espèces sont saisis par le financier"
    raise_if
        (not manager
          && lacks_text payload.reference
          && lacks_text payload.proof_url
          && is_none payload.proof_file_id)
        400 "Ajoutez une référence ou une preuve de paiement"
    payment ← on_ledger (add_payment payload)
    flush
    managers ← gets (λ db. finance_manager_ids db.people)
    notify_users env (if manager then [] else managers) (
        finance_notice "Paiement à vérifier"
          (fstring (
            env.strip (fstring (current_user.first_name ∷ " " ∷ current_user.last_name ∷ []))
            ∷ " a déclaré "
            ∷ env.fixed0 (to_ℕ payload.amount)
            ∷ " FCFA."
            ∷ []))
          "payment_submitted" "payment" payment.id)
    commit
    gets (λ db. payment_payload current_user payment db.people)

  -- the fields that `validate_payment` writes on the payment
  unfoldable pub validated_payment : User → Payment → Payment
  validated_payment current_user payment = record payment {
    status = PaymentStatus.validated;
    validated_by = some current_user.id;
    validated_at = some env.utcnow;
    rejected_at = none;
    rejection_reason = none;
  }

  unfoldable pub income_of : User → Payment → ℕ → ClubTransaction
  income_of current_user payment drawn = record {
    id = env.uuid4 drawn;
    season_id = none;
    type = TransactionType.income;
    category = some "paiement_membre";
    label = "Paiement membre";
    description = none;
    amount = payment.amount;
    currency = "FCFA";
    project_id = none;
    pole_id = none;
    payment_id = some payment.id;
    proof_url = none;
    proof_file_id = none;
    created_by = some current_user.id;
    validated_by = some current_user.id;
    created_at = env.utcnow;
  }

  -- What `validate_payment` does to the tables of the ledger, with the total that it allocates.
  unfoldable pub settle_payment : User → Payment → Ledger → ℕ × Ledger
  unfolding validated_payment income_of save_payment
  settle_payment current_user payment l =
      let payment' = validated_payment current_user payment in
      let (allocations, l₁) =
        allocate_payment_to_unpaid_fees env payment' (save_payment payment' l) in
      let allocated_total = sum_by (λ (a : PaymentAllocation). a.amount) allocations in
      let l₂ = update_account env payment.user_id (credit env payment.amount allocated_total) l₁ in
      (
        allocated_total,
        record l₂ {
          transactions = l₂.transactions ++ income_of current_user payment l₂.drawn ∷ [];
          drawn = l₂.drawn + 1;
        },
      )

  -- `validate_payment` after its tests, on a pending payment
  unfoldable pub validate_pending : User → Option String → Payment → Handler PaymentPayload
  validate_pending current_user ip payment = do
    allocated_total ← on_ledger (settle_payment current_user payment)
    notify_user env payment.user_id (
        finance_notice "Paiement validé"
          (fstring ("Votre paiement de " ∷ env.fixed0 payment.amount ∷ " FCFA est validé." ∷ []))
          "payment_validated" "payment" payment.id)
    audit env "validation_paiement" (some current_user.id) (some "payment") (some payment.id)
        (some (("status", Json.text "pending") ∷ []))
        (some (
          ("status", Json.text "validated")
          ∷ ("amount", Json.number payment.amount)
          ∷ ("method", Json.text payment.method)
          ∷ ("allocated_total", Json.number allocated_total)
          ∷ []))
        ip
    commit
    gets (λ db. payment_payload current_user (validated_payment current_user payment) db.people)

  abbrev pub payment_row : ℕ → Ledger → Option Payment
  payment_row payment_id l = find_row (λ (p : Payment). p.id) payment_id l.payments

  unfoldable pub validate_payment : User → Option String → ℕ → Handler PaymentPayload
  unfolding validate_pending require_finance_or_admin
  validate_payment current_user ip payment_id = do
    require_finance_or_admin env current_user
    found ← gets (λ db. payment_row payment_id db.ledger)
    payment ← or_raise found 404 "Paiement introuvable"
    reviewer ← gets (λ db. can_review_payment current_user payment db.people)
    raise_if (not reviewer) 403 "Vous ne pouvez pas valider votre propre paiement"
    elim payment.status [
      | PaymentStatus.validated ↦ gets (λ db. payment_payload current_user payment db.people)
      | PaymentStatus.rejected ↦ raise 409 "Impossible de valider un paiement rejete"
      | PaymentStatus.cancelled ↦ raise 409 "Impossible de valider un paiement annulé"
      | PaymentStatus.pending ↦ validate_pending current_user ip payment
    ]
