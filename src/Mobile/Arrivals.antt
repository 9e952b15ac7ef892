-- ===== src/Mobile/Arrivals.antt =====
-- A paid transaction over the requests.
use enactspace.Shared.{
  ℕ, ◌≡◌, inl, inr, String, Bool, true, false, not, ◌&&◌, Option, none, some, List, [], ◌∷◌, str_eq,
  is_none, Bool-cases,
}
use enactspace.Shared.Env.{Env}
use enactspace.Ledger.Models.{Payment}
use enactspace.Server.Handler.{Result, Session, pure, gets, commit, ◌>>=◌, ◌>>◌}
use enactspace.Server.Handler.Laws.{then-Keeps}
use enactspace.Mobile.Models.{MobileMoneyTransaction, PaymentProviderResult}
use enactspace.Shared.Json.{Json}
use enactspace.Mobile.Service.{
  modify_mobile, provider_text, transaction_row, text_or_else, mark_not_successful, create_event,
}
use enactspace.Mobile.Confirmation.{confirm_transaction}
use enactspace.Mobile.Allocation.{normalize_currency}
use enactspace.Mobile.Callback.{
  Callback, refused, verified, find_transaction, amount_to_int, differs, settle_callback,
  check_callback, status_now, log_event, callback_locked, callback_found, paydunya_ipn,
}
use enactspace.Mobile.Reconciliation.{
  Summary, count, no_checks, has_expired, apply_result, refresh_transaction, refresh_loaded,
  refresh_row, refresh_all, reconcile_pending_transactions,
}
use enactspace.Mobile.Settlement.{Result-cases}
use enactspace.Mobile.Finality.{
  Holds, create_event-transactions, mark_not_successful-Holds, confirm_transaction-Holds,
}

module _ (k : ℕ) (t : MobileMoneyTransaction) (p : Payment) (successful : t.status ≡ "successful")
    (names : t.payment_id ≡ some p.id) where
  abbrev pub Kept : Session → Type 0
  Kept = Holds k t p successful names

  module _ (env : Env) (lookup : MobileMoneyTransaction → Result PaymentProviderResult) where
    apply_result-Kept :
        (t' : MobileMoneyTransaction) (r : PaymentProviderResult) (ip : Option String) (s : Session)
        → Kept s
        → Kept (apply_result env lookup t' r ip s).1
    unfolding apply_result
    apply_result-Kept t' r ip s h =
        let event_id = text_or_else r.event_id r.provider_token in
        elim (Bool-cases (str_eq r.status "successful")) [
          | inl paid ↦
              let done =
                confirm_transaction env t'.id r.provider_status r.provider_transaction_id event_id
                  ip s in
              rw (apply_result, paid)
                (then-Keeps Kept (λ payment. pure tt) (λ payment s' h'. h') done.0 done.1
                  (confirm_transaction-Holds k t p successful names env t'.id r.provider_status
                    r.provider_transaction_id event_id ip s h))
          | inr unpaid ↦
              rw (apply_result, unpaid)
                (mark_not_successful-Holds k t p successful names env t'.id r.status
                  r.provider_status event_id s h)
        ]

    pub refresh_transaction-Kept :
        (t' : MobileMoneyTransaction) (ip : Option String) (s : Session)
        → Kept s
        → Kept (refresh_transaction env lookup t' ip s).1
    unfolding refresh_transaction
    refresh_transaction-Kept t' ip s h = elim (Bool-cases (str_eq t'.status "successful")) [
      | inl done ↦ rw (refresh_transaction, done) h
      | inr not_yet ↦
          rw (refresh_transaction, not_yet)
            (elim (Bool-cases (has_expired env.utcnow t'.expires_at)) [
              | inl late ↦ rw late (
                  mark_not_successful-Holds k t p successful names env t'.id "expired"
                    t'.provider_status none s h)
              | inr still ↦ rw still (
                  then-Keeps Kept (λ r. apply_result env lookup t' r ip)
                    (λ r s' h'. apply_result-Kept t' r ip s' h') (lookup t') s h)
            ])
    ]

    refresh_loaded-Kept :
        (row : Option MobileMoneyTransaction) (ip : Option String) (s : Session)
        → Kept s
        → Kept (refresh_loaded env lookup row ip s).1
    unfolding refresh_loaded
    refresh_loaded-Kept none ip s h = h
    refresh_loaded-Kept (some t') ip s h =
        let done = refresh_transaction env lookup t' ip s in
        then-Keeps Kept
          (λ u. gets (λ db. transaction_row t'.id db.mobile) >>= λ now.
            pure (some (elim now [ none ↦ t'.status | some t'' ↦ t''.status ])))
          (λ u s' h'. h') done.0 done.1 (refresh_transaction-Kept t' ip s h)

    refresh_all-Kept :
        (ks : List ℕ) (n : Summary) (ip : Option String) (s : Session)
        → Kept s
        → Kept (refresh_all env lookup ks n ip s).1
    unfolding refresh_all refresh_row
    refresh_all-Kept [] n ip s h = h
    refresh_all-Kept (j ∷ ks) n ip s h =
        let done = refresh_row env lookup j ip s in
        then-Keeps Kept (λ status. refresh_all env lookup ks (count status n) ip)
          (λ status s' h'. refresh_all-Kept ks (count status n) ip s' h') done.0 done.1
          (refresh_loaded-Kept (transaction_row j s.work.mobile) ip s h)

    pub reconcile-Kept :
        (limit : ℕ) (ip : Option String) (s : Session)
        → Kept s
        → Kept (reconcile_pending_transactions env lookup limit ip s).1
    unfolding reconcile_pending_transactions
    reconcile-Kept limit ip s h = refresh_all-Kept _ no_checks ip s h

  module _ (env : Env) where
    pub commit-Kept : (s : Session) → Kept s → Kept (commit s).1
    unfolding Holds
    commit-Kept s h = (h.1, h.1)

    -- the loaded rows' events
    event-Kept :
        (j : ℕ) (event_type : String) (old_status new_status event_id : Option String)
        (is_duplicate : Bool) (error_message : Option String) (metadata : List (String × Json))
        (s : Session)
        → Kept s
        → Kept
            (modify_mobile
              (create_event env j event_type old_status new_status event_id is_duplicate
                error_message metadata)
              s).1
    unfolding Holds
    event-Kept j event_type old_status new_status event_id is_duplicate error_message metadata s h =
        (h.0, (rw create_event-transactions h.1.0, h.1.1))

    settle_callback-Kept :
        (t' : MobileMoneyTransaction) (r : PaymentProviderResult) (event_id ip : Option String)
        (s : Session)
        → Kept s
        → Kept (settle_callback env t' r event_id ip s).1
    unfolding settle_callback
    settle_callback-Kept t' r event_id ip s h =
        elim (Bool-cases (str_eq t'.status "successful" && not (is_none t'.payment_id))) [
          | inl again ↦
              rw (settle_callback, again)
                (commit-Kept _ (
                  event-Kept t'.id "duplicate_callback" (some t'.status) (some t'.status) event_id
                    true none (("provider_status", provider_text r.provider_status) ∷ []) s h))
          | inr new ↦
              rw (settle_callback, new)
                (elim (Bool-cases (str_eq r.status "successful")) [
                  | inl paid ↦
                      let done =
                        confirm_transaction env t'.id r.provider_status r.provider_transaction_id
                          event_id ip s in
                      rw paid (
                        then-Keeps Kept
                          (λ payment.
                            commit
                            >> (status_now env t' >>= λ status. pure (record {
                              status = status;
                              duplicate = false;
                              payment_id = some payment.id;
                            })))
                          (λ payment s' h'. commit-Kept s' h') done.0 done.1
                          (confirm_transaction-Holds k t p successful names env t'.id
                            r.provider_status r.provider_transaction_id event_id ip s h))
                  | inr unpaid ↦
                      let done =
                        mark_not_successful env t'.id r.status r.provider_status event_id s in
                      rw unpaid (
                        then-Keeps Kept
                          (λ u.
                            commit
                            >> (status_now env t' >>= λ status.
                                pure (record {
                                  status = status;
                                  duplicate = false;
                                  payment_id = none;
                                })))
                          (λ u s' h'. commit-Kept s' h') done.0 done.1
                          (mark_not_successful-Holds k t p successful names env t'.id r.status
                            r.provider_status event_id s h))
                ])
        ]

    mismatch-Kept :
        (t' : MobileMoneyTransaction) (event_type : String) (event_id error_message : Option String)
        (s : Session)
        → Kept s
        → Kept ((log_event env t' event_type event_id false error_message >> commit) s).1
    mismatch-Kept t' event_type event_id error_message s h = commit-Kept _ (
        event-Kept t'.id event_type (some t'.status) (some t'.status) event_id false error_message
          [] s h)

    check_callback-Kept :
        (t' : MobileMoneyTransaction) (r : PaymentProviderResult) (ip : Option String) (s : Session)
        → Kept s
        → Kept (check_callback env t' r ip s).1
    unfolding check_callback
    check_callback-Kept t' r ip s h =
        let event_id = text_or_else r.event_id r.provider_token in
        elim (Result-cases (amount_to_int r.amount)) [
          | inr (e, bad) ↦ rw (check_callback, bad) h
          | inl (amount, read) ↦
              rw (check_callback, read)
                (elim (Bool-cases (differs amount t'.amount)) [
                  | inl wrong ↦ rw wrong (
                      mismatch-Kept t' "amount_mismatch" event_id (some "provider_amount_mismatch")
                        s h)
                  | inr right ↦ rw right (elim (Result-cases (normalize_currency env r.currency)) [
                    | inr (e, bad) ↦ rw bad h
                    | inl (currency, known) ↦
                        rw known (elim (Bool-cases (str_eq currency t'.currency)) [
                          | inl same ↦ rw same (settle_callback-Kept t' r event_id ip s h)
                          | inr other ↦ rw other (
                              mismatch-Kept t' "currency_mismatch" event_id
                                (some "provider_currency_mismatch") s h)
                        ])
                  ])
                ])
        ]

    callback_locked-Kept :
        (row : Option MobileMoneyTransaction) (r : PaymentProviderResult) (ip : Option String)
        (s : Session)
        → Kept s
        → Kept (callback_locked env row r ip s).1
    unfolding callback_locked
    callback_locked-Kept none r ip s h = h
    callback_locked-Kept (some t') r ip s h = check_callback-Kept t' r ip s h

    callback_found-Kept :
        (row : Option MobileMoneyTransaction) (r : PaymentProviderResult) (ip : Option String)
        (s : Session)
        → Kept s
        → Kept (callback_found env row r ip s).1
    unfolding callback_found
    callback_found-Kept none r ip s h = h
    callback_found-Kept (some t') r ip s h =
        callback_locked-Kept (transaction_row t'.id s.work.mobile) r ip s h

    pub paydunya_ipn-Kept :
        (c : Callback) (ip : Option String) (s : Session)
        → Kept s
        → Kept (paydunya_ipn env c ip s).1
    unfolding paydunya_ipn
    paydunya_ipn-Kept (refused detail) ip s h = h
    paydunya_ipn-Kept (verified r) ip s h =
        callback_found-Kept
          (find_transaction r.provider_token r.internal_transaction_id s.work.mobile) r ip s h
