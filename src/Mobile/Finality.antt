-- ===== src/Mobile/Finality.antt =====
-- A paid transaction over the calls of the mobile money service.
use enactspace.Shared.{
  ℕ, ◌≡◌, ◌≢◌, refl, sym, ◌∙◌, inl, inr, String, Bool, true, false, Option, none, some, List, [],
  ◌∷◌, arith, str_eq, mem_text, Bool-cases, Option-cases,
}
use enactspace.Shared.Env.{Env}
use enactspace.Shared.Table.{find_row}
use enactspace.Shared.Table.Laws.{find_row-key, find_row-append, find_row-save_ne}
use enactspace.Ledger.Models.{Payment, Ledger}
use enactspace.Ledger.Balance.{payment_id}
use enactspace.Server.Models.{Db}
use enactspace.Server.Handler.{Result, ok, err, Session}
use enactspace.Mobile.Models.{MobileMoneyTransaction, MobileMoney}
use enactspace.Mobile.Service.{
  transaction_row, save_transaction, create_event, unsuccessful, mark_open, mark_locked,
  mark_not_successful, is_event,
}
use enactspace.Mobile.Confirmation.{
  payment_of, settle_transaction, confirmed, confirm_settled, confirm_new, confirm_unpaid,
  confirm_locked, confirm_transaction,
}
use enactspace.Mobile.Payments.{settle_transaction-payments}
use enactspace.Shared.Table.{first}
use enactspace.Shared.Json.{Json}
use enactspace.Outbox.Lifecycle.{has_text}

abbrev transaction_id : MobileMoneyTransaction → ℕ
transaction_id t = t.id

-- Events leave the transactions.
pub create_event-transactions :
    (env : Env) (k : ℕ) (event_type : String) (old_status new_status event_id : Option String)
    (is_duplicate : Bool) (error_message : Option String) (metadata : List (String × Json))
    (m : MobileMoney)
    → (create_event env k event_type old_status new_status event_id is_duplicate error_message
        metadata m).transactions
      ≡ m.transactions
unfolding create_event
create_event-transactions env k event_type old_status new_status event_id is_duplicate error_message
      metadata m =
    elim (Bool-cases (has_text event_id)) [
      | inr absent ↦ rw (create_event, absent) refl
      | inl given ↦
          rw (create_event, given)
            (elim (Option-cases (first (is_event k event_id) m.events)) [
              | inl new ↦ rw new refl
              | inr (x, old) ↦ rw old refl
            ])
    ]

module _ (k : ℕ) (t : MobileMoneyTransaction) (p : Payment) (successful : t.status ≡ "successful")
    (names : t.payment_id ≡ some p.id) where
  -- The transaction and its payment stand.
  abbrev pub Stands : Db → Type 0
  Stands db =
      (transaction_row k db.mobile ≡ some t)
      × (find_row payment_id p.id db.ledger.payments ≡ some p)

  unfoldable pub Holds : Session → Type 0
  Holds s = Stands s.saved × Stands s.work

  -- the write of another transaction
  other_row :
      (t'' : MobileMoneyTransaction) (m : MobileMoney)
      → transaction_row k m ≡ some t
      → t''.id ≢ k
      → transaction_row k (save_transaction t'' m) ≡ some t
  other_row t'' m row ne = find_row-save_ne transaction_id k t'' m.transactions ne ∙ row

  -- A row that is not successful is another's.
  is_other :
      (j : ℕ) (t' : MobileMoneyTransaction) (m : MobileMoney)
      → transaction_row j m ≡ some t'
      → transaction_row k m ≡ some t
      → str_eq t'.status "successful" ≡ false
      → t'.id ≢ k
  is_other j t' m row own not_yet same =
      let at : t'.id ≡ j = find_row-key transaction_id j m.transactions t' row in
      let both : t' ≡ t = ground (arith, row, own, at, same) in
      let here : str_eq t'.status "successful" ≡ true = rw (both, successful) refl in
      ground (arith, here, not_yet)

  module _ (env : Env) where
    mark_locked-Holds :
        (j : ℕ) (row : Option MobileMoneyTransaction) (new_status : String)
        (provider_status event_id : Option String) (s : Session)
        → transaction_row j s.work.mobile ≡ row
        → Holds s
        → Holds (mark_locked env row new_status provider_status event_id s).1
    unfolding mark_locked mark_open Holds unsuccessful
    mark_locked-Holds j none new_status provider_status event_id s row h = h
    mark_locked-Holds j (some t') new_status provider_status event_id s row h =
        elim (Bool-cases (str_eq t'.status "successful")) [
          | inl done ↦ rw done h
          | inr not_yet ↦
              let ne = is_other j t' s.work.mobile row h.1.0 not_yet in
              rw not_yet
                (elim (Bool-cases (mem_text new_status ("failed" ∷ "cancelled" ∷ "expired" ∷ []))) [
                  | inl told ↦ rw told (
                    h.0,
                    (
                      rw create_event-transactions (
                          other_row (unsuccessful env new_status provider_status t') s.work.mobile
                            h.1.0 ne),
                      h.1.1,
                    ),
                  )
                  | inr quiet ↦ rw quiet (
                    h.0,
                    (
                      rw create_event-transactions (
                          other_row (unsuccessful env new_status provider_status t') s.work.mobile
                            h.1.0 ne),
                      h.1.1,
                    ),
                  )
                ])
        ]

    pub mark_not_successful-Holds :
        (j : ℕ) (new_status : String) (provider_status event_id : Option String) (s : Session)
        → Holds s
        → Holds (mark_not_successful env j new_status provider_status event_id s).1
    unfolding mark_not_successful
    mark_not_successful-Holds j new_status provider_status event_id s =
        mark_locked-Holds j (transaction_row j s.work.mobile) new_status provider_status event_id s
          refl

    -- a transaction that names no payment that stands
    unpaid_other :
        (j : ℕ) (t' : MobileMoneyTransaction) (s : Session)
        → transaction_row j s.work.mobile ≡ some t'
        → Stands s.work
        → payment_of t' s.work.ledger ≡ none
        → t'.id ≢ k
    unfolding payment_of
    unpaid_other j t' s own (row, stands) unpaid same =
        let at : t'.id ≡ j = find_row-key transaction_id j s.work.mobile.transactions t' own in
        let both : t' ≡ t = ground (arith, row, own, at, same) in
        let there : payment_of t s.work.ledger ≡ some p = rw names stands in
        let absent : payment_of t s.work.ledger ≡ none = rw (sym both) unpaid in
        ground (arith, there, absent)

    confirm_settled-Holds :
        (r : Result ((Payment × ℕ) × Ledger)) (t' : MobileMoneyTransaction)
        (provider_status reference event_id ip : Option String) (s : Session)
        → settle_transaction env t' reference s.work.ledger ≡ r
        → t'.id ≢ k
        → Holds s
        → Holds (confirm_settled env r t' provider_status reference event_id ip s).1
    unfolding confirm_settled Holds confirmed
    confirm_settled-Holds (err e) t' provider_status reference event_id ip s settled ne h = h
    confirm_settled-Holds (ok ((p', total), l')) t' provider_status reference event_id ip s settled
          ne h =
        let grown =
          (settle_transaction-payments env t' reference s.work.ledger p' total l' settled).1 in
        (
          h.0,
          (
            rw create_event-transactions (
                other_row (confirmed env provider_status reference p'.id t') s.work.mobile h.1.0
                  ne),
            rw (grown, find_row-append payment_id p.id p' s.work.ledger.payments, h.1.1) refl,
          ),
        )

    confirm_new-Holds :
        (t' : MobileMoneyTransaction) (provider_status reference event_id ip : Option String)
        (s : Session)
        → t'.id ≢ k
        → Holds s
        → Holds (confirm_new env t' provider_status reference event_id ip s).1
    unfolding confirm_new
    confirm_new-Holds t' provider_status reference event_id ip s =
        confirm_settled-Holds (settle_transaction env t' reference s.work.ledger) t' provider_status
          reference event_id ip s refl

    confirm_unpaid-Holds :
        (j : ℕ) (paid : Option Payment) (t' : MobileMoneyTransaction)
        (provider_status reference event_id ip : Option String) (s : Session)
        → transaction_row j s.work.mobile ≡ some t'
        → payment_of t' s.work.ledger ≡ paid
        → Holds s
        → Holds (confirm_unpaid env paid t' provider_status reference event_id ip s).1
    unfolding confirm_unpaid Holds
    confirm_unpaid-Holds j (some p') t' provider_status reference event_id ip s row unpaid h = h
    confirm_unpaid-Holds j none t' provider_status reference event_id ip s row unpaid h =
        confirm_new-Holds t' provider_status reference event_id ip s
          (unpaid_other j t' s row h.1 unpaid) h

    confirm_locked-Holds :
        (j : ℕ) (row : Option MobileMoneyTransaction)
        (provider_status reference event_id ip : Option String) (s : Session)
        → transaction_row j s.work.mobile ≡ row
        → Holds s
        → Holds (confirm_locked env row provider_status reference event_id ip s).1
    unfolding confirm_locked
    confirm_locked-Holds j none provider_status reference event_id ip s row h = h
    confirm_locked-Holds j (some t') provider_status reference event_id ip s row h =
        confirm_unpaid-Holds j (payment_of t' s.work.ledger) t' provider_status reference event_id
          ip s row refl h

    pub confirm_transaction-Holds :
        (j : ℕ) (provider_status reference event_id ip : Option String) (s : Session)
        → Holds s
        → Holds (confirm_transaction env j provider_status reference event_id ip s).1
    unfolding confirm_transaction
    confirm_transaction-Holds j provider_status reference event_id ip s =
        confirm_locked-Holds j (transaction_row j s.work.mobile) provider_status reference event_id
          ip s refl
