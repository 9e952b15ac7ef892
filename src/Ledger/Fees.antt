-- ===== src/Ledger/Fees.antt =====
-- The fee routes of api/routes/finance.py. `ip` stands for `get_client_ip(request)`.
use enactspace.Shared.{
  ℕ, ◌+◌, ◌-◌, String, not, ◌&&◌, Option, none, some, List, [], ◌∷◌, ◌++◌, ◌==◌, str_eq, same_id,
  same_text, mem_text, fstring, if◌then◌else◌,
}
use enactspace.Shared.Env.{Env}
use enactspace.Shared.Int.{nonpositive, to_ℕ}
use enactspace.Shared.Table.{first, find_row}
use enactspace.People.Models.{User}
use enactspace.Ledger.Models.{Fee, FeeStatus, Ledger, is_paid, fee_status_text}
use enactspace.Ledger.Accounts.{update_account, charge, discharge, save_fee}
use enactspace.Ledger.Requests.{FeeCreate, FeeRecord, valid_fee_types, finance_notice}
use enactspace.Server.Models.{Json}
use enactspace.Server.Handler.{
  Handler, pure, or_raise, raise_if, gets, on_ledger, modify_ledger, flush, commit, audit,
  notify_user, ◌>>=◌, ◌>>◌,
}
use enactspace.Server.Deps.{require_finance_or_admin}
use enactspace.Outbox.Service.{or_default, text_or}

module _ (env : Env) where
  -- The row that `create_fee` and `create_fee_record` add: the arguments and the column defaults.
  unfoldable pub new_fee : ℕ → FeeRecord → ℕ → Fee
  new_fee creator r drawn = record {
    id = env.uuid4 drawn;
    user_id = r.user_id;
    season_id = r.season_id;
    type = r.fee_type;
    category = r.category;
    label = r.label;
    description = r.description;
    amount = to_ℕ r.amount;
    amount_paid = 0;
    currency = r.currency;
    status = FeeStatus.unpaid;
    due_date = r.due_date;
    paid_at = none;
    cancelled_at = none;
    related_attendance_id = r.related_attendance_id;
    source_type = r.source_type;
    source_id = r.source_id;
    proof_file_id = r.proof_file_id;
    created_by = some creator;
    created_at = env.utcnow;
    updated_at = env.utcnow;
  }

  -- The charge to the member's account, then `db.add(fee)`; its callers flush.
  unfoldable pub add_fee : ℕ → FeeRecord → Ledger → Fee × Ledger
  unfolding new_fee
  add_fee creator r l =
      let l' = update_account env r.user_id (charge env (to_ℕ r.amount)) l in
      let fee = new_fee creator r l'.drawn in
      (fee, record l' { fees = l'.fees ++ fee ∷ []; drawn = l'.drawn + 1 })

  abbrev pub record_of_payload : FeeCreate → FeeRecord
  record_of_payload p = record {
    user_id = p.user_id;
    season_id = p.season_id;
    fee_type = p.type;
    category = p.category;
    label = p.label;
    description = p.description;
    amount = p.amount;
    currency = p.currency;
    due_date = p.due_date;
    source_type = p.source_type;
    source_id = p.source_id;
    related_attendance_id = none;
    proof_file_id = p.proof_file_id;
  }

  unfoldable pub create_fee : User → FeeCreate → Handler Fee
  unfolding require_finance_or_admin
  create_fee current_user payload = do
    require_finance_or_admin env current_user
    raise_if (nonpositive payload.amount) 400 "Le montant doit être supérieur à zéro"
    fee ← on_ledger (add_fee current_user.id (record_of_payload payload))
    flush
    notify_user env payload.user_id (
        finance_notice "Nouveau frais ajouté"
          (fstring (payload.label ∷ ": " ∷ env.fixed0 (to_ℕ payload.amount) ∷ " FCFA." ∷ []))
          "fee_due" "fee" fee.id)
    commit
    pure fee

  -- the two queries of `create_fee_record` for a fee that it made before
  unfoldable pub fee_of_attendance : Option ℕ → List Fee → Option Fee
  fee_of_attendance none fees = none
  fee_of_attendance (some a) fees = first (λ f. same_id f.related_attendance_id (some a)) fees

  unfoldable pub fee_of_source : ℕ → Option String → Option ℕ → List Fee → Option Fee
  fee_of_source user_id none source_id fees = none
  fee_of_source user_id (some t) none fees = none
  fee_of_source user_id (some t) (some s) fees =
      if str_eq t ""
      then none
      else first
          (λ f.
            f.user_id == user_id
            && same_text f.source_type (some t)
            && same_id f.source_id (some s))
          fees

  unfoldable pub existing_fee : FeeRecord → List Fee → Option Fee
  unfolding fee_of_attendance fee_of_source
  existing_fee r fees = elim (fee_of_attendance r.related_attendance_id fees) [
    | some fee ↦ some fee
    | none ↦ fee_of_source r.user_id r.source_type r.source_id fees
  ]

  unfoldable pub add_fee_record : ℕ → FeeRecord → Handler Fee
  add_fee_record creator r = do
    fee ← on_ledger (add_fee creator r)
    flush
    notify_user env r.user_id (
        finance_notice "Nouveau montant a payer"
          (fstring (r.label ∷ ": " ∷ env.fixed0 (to_ℕ r.amount) ∷ " " ∷ r.currency ∷ "." ∷ []))
          "fee_due" "fee" fee.id)
    pure fee

  unfoldable pub create_fee_record : ℕ → FeeRecord → Handler Fee
  unfolding add_fee_record
  create_fee_record creator r = do
    raise_if (nonpositive r.amount) 400 "Le montant doit etre superieur a zero"
    raise_if (not (mem_text r.fee_type valid_fee_types)) 400 "Type de frais invalide"
    existing ← gets (λ db. existing_fee r db.ledger.fees)
    elim existing [ some fee ↦ pure fee | none ↦ add_fee_record creator r ]

  unfoldable pub create_manual_penalty : User → FeeCreate → Handler Fee
  unfolding require_finance_or_admin
  create_manual_penalty current_user p = do
    require_finance_or_admin env current_user
    fee ← create_fee_record current_user.id (record (record_of_payload p) {
      fee_type = "manual_penalty";
      category = some (or_default p.category "manual_penalty");
      source_type = some (or_default p.source_type "manual_penalty");
    })
    commit
    pure fee

  -- the row that `cancel_fee` writes
  unfoldable pub cancelled_fee : String → Fee → Fee
  cancelled_fee reason fee = record fee {
    status = FeeStatus.cancelled;
    cancelled_at = some env.utcnow;
    description =
        some (env.strip (fstring (text_or fee.description "" ∷ "\nAnnulation: " ∷ reason ∷ [])));
    updated_at = env.utcnow;
  }

  -- `cancel_fee` writes the fee, and takes what remained of it off the balance.
  unfoldable pub settle_cancelled : String → Fee → Ledger → Ledger
  unfolding cancelled_fee save_fee
  settle_cancelled reason fee l =
      update_account env fee.user_id (discharge env (fee.amount - fee.amount_paid))
        (save_fee (cancelled_fee reason fee) l)

  unfoldable pub cancel_fee : User → Option String → ℕ → String → Handler Fee
  unfolding require_finance_or_admin
  cancel_fee current_user ip fee_id payload_reason = do
    require_finance_or_admin env current_user
    found ← gets (λ db. find_row (λ (f : Fee). f.id) fee_id db.ledger.fees)
    fee ← or_raise found 404 "Frais introuvable"
    raise_if (is_paid fee.status) 400 "Impossible d'annuler un frais deja paye"
    let reason = env.strip payload_reason
    raise_if (str_eq reason "") 400 "Le motif d'annulation est obligatoire"
    modify_ledger (settle_cancelled reason fee)
    notify_user env fee.user_id (
        finance_notice "Montant annule" (fstring (fee.label ∷ " a ete annule: " ∷ reason ∷ []))
          "fee_cancelled" "fee" fee.id)
    audit env "annulation_frais" (some current_user.id) (some "fee") (some fee.id)
        (some (("status", Json.text (fee_status_text fee.status)) ∷ []))
        (some (("status", Json.text "cancelled") ∷ ("reason", Json.text reason) ∷ [])) ip
    commit
    pure (cancelled_fee reason fee)
