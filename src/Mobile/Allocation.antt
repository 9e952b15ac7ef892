-- ===== src/Mobile/Allocation.antt =====
-- The fees that a mobile payment settles, in services/mobile_money_service.py. Its `update_fee_status`
-- and `ensure_financial_account` are those of api/routes/finance.py. A fee holds hundredths, a
-- transaction whole francs.
use enactspace.Shared.{
  ℕ, ◌+◌, ◌-◌, ◌*◌, ◌/◌, ◌%◌, min, String, Bool, true, false, not, Option, none, some, List, [],
  ◌∷◌, ◌==◌, is_none, mem_text, if◌then◌else◌,
}
use enactspace.Shared.Env.{Env}
use enactspace.Shared.Table.{find_row}
use enactspace.Ledger.Models.{Fee, Payment, Ledger}
use enactspace.Ledger.Accounts.{update_fee_status, allocate_to, save_fee}
use enactspace.Outbox.Service.{or_default}
use enactspace.Server.Handler.{Result, ok, err, http_exception}
use enactspace.Mobile.Models.{MobileMoneyTransaction}

-- the items of `finance_item_ids` that are identifiers
unfoldable pub parsed_ids : List (Option ℕ) → List ℕ
parsed_ids [] = []
parsed_ids (none ∷ items) = parsed_ids items
parsed_ids (some k ∷ items) = k ∷ parsed_ids items

abbrev pub fee_row : ℕ → Ledger → Option Fee
fee_row k l = find_row (λ (f : Fee). f.id) k l.fees

-- `not fees`, of the fees that `selected_fees` finds
unfoldable pub none_found : List ℕ → Ledger → Bool
none_found [] l = true
none_found (k ∷ ks) l = if is_none (fee_row k l) then none_found ks l else false

-- a total with one more allocation
abbrev pub add_total : ℕ → Result (ℕ × Ledger) → Result (ℕ × Ledger)
add_total n (ok (total, l)) = ok (n + total, l)
add_total n (err e) = err e

module _ (env : Env) where
  unfoldable pub normalize_currency : Option String → Result String
  normalize_currency currency =
      if mem_text (env.upper (or_default currency "XOF")) ("XOF" ∷ "FCFA" ∷ "CFA" ∷ [])
      then ok "XOF"
      else err (http_exception 400 "Devise Mobile Money non prise en charge")

  unfoldable pub fee_remaining_amount : Fee → Result ℕ
  unfolding normalize_currency
  fee_remaining_amount fee = elim (normalize_currency (some fee.currency)) [
    | err e ↦ err e
    | ok _ ↦
        let remaining : ℕ = fee.amount - fee.amount_paid in
        if remaining == 0
        then ok 0
        else if not (remaining % 100 == 0)
        then err (http_exception 400 "Le montant Mobile Money doit etre un entier en FCFA")
        else ok (remaining / 100)
  ]

  module _ (payment : Payment) where
    -- The loop over the selected fees, each read as the rounds before left it.
    unfoldable pub allocate_selected : ℕ → List ℕ → Ledger → Result (ℕ × Ledger)
    unfolding fee_remaining_amount
    allocate_selected remaining [] l = ok (0, l)
    allocate_selected remaining (k ∷ ks) l = elim (fee_row k l) [
      | none ↦ allocate_selected remaining ks l
      | some fee ↦ if remaining == 0 then ok (0, l) else elim (fee_remaining_amount fee) [
        | err e ↦ err e
        | ok n ↦
            let skipped = allocate_selected remaining ks (save_fee (update_fee_status env fee) l) in
            let a : ℕ = min remaining n in
            let paid =
              allocate_selected (remaining - a) ks (allocate_to env payment fee (100 * a) l).1 in
            if n == 0 then skipped else add_total a paid
      ]
    ]

    unfoldable pub allocate_payment : MobileMoneyTransaction → Ledger → Result (ℕ × Ledger)
    unfolding allocate_selected none_found parsed_ids
    allocate_payment t l =
        let ids = parsed_ids t.finance_item_ids in
        if none_found ids l
        then err (http_exception 400 "Aucune dette liee a la transaction")
        else elim (allocate_selected t.amount ids l) [
          | err e ↦ err e
          | ok r ↦
              let (total, l') = r in
              if not (total == t.amount)
              then err (
                  http_exception 400
                    "Le montant confirme ne correspond pas aux dettes selectionnees")
              else ok (total, l')
        ]
