-- ===== src/Mobile/Service.antt =====
-- The transactions of services/mobile_money_service.py. `lock_row` reads the row anew.
use enactspace.Shared.{
  ℕ, ◌+◌, String, Bool, true, false, not, ◌&&◌, Option, none, some, List, [], ◌∷◌, ◌++◌, ◌==◌,
  str_eq, same_text, mem_text, if◌then◌else◌,
}
use enactspace.Shared.Env.{Env}
use enactspace.Shared.Json.{Json}
use enactspace.Shared.Table.{first, find_row, save_row}
use enactspace.Ledger.Requests.{finance_notice}
use enactspace.Outbox.Lifecycle.{has_text}
use enactspace.Server.Handler.{Handler, ok, pure, gets, notify_user, ◌>>=◌, ◌>>◌}
use enactspace.Mobile.Models.{MobileMoneyTransaction, MobileMoneyTransactionEvent, MobileMoney}

abbrev pub transaction_row : ℕ → MobileMoney → Option MobileMoneyTransaction
transaction_row k m = find_row (λ (t : MobileMoneyTransaction). t.id) k m.transactions

abbrev pub save_transaction : MobileMoneyTransaction → MobileMoney → MobileMoney
save_transaction t m = record m {
  transactions = save_row (λ (x : MobileMoneyTransaction). x.id) t m.transactions;
}

abbrev pub modify_mobile : (MobileMoney → MobileMoney) → Handler (Unit {0})
modify_mobile f s = (ok tt, record s { work = record s.work { mobile = f s.work.mobile } })

-- a text, or another where it is null or empty
abbrev pub text_or_else : Option String → Option String → Option String
text_or_else a b = if has_text a then a else b

abbrev pub provider_text : Option String → Json
provider_text none = Json.null
provider_text (some s) = Json.text s

-- the event that `create_event` finds
unfoldable pub is_event : ℕ → Option String → MobileMoneyTransactionEvent → Bool
is_event transaction_id provider_event_id e =
    e.transaction_id == transaction_id && same_text e.provider_event_id provider_event_id

module _ (env : Env) where
  abbrev pub new_event :
      ℕ
      → String
      → Option String
      → Option String
      → Option String
      → Bool
      → Option String
      → List (String × Json)
      → ℕ
      → MobileMoneyTransactionEvent
  new_event transaction_id event_type old_status new_status provider_event_id is_duplicate
        error_message metadata_json drawn =
      record {
        id = env.uuid4 drawn;
        transaction_id = transaction_id;
        event_type = event_type;
        old_status = old_status;
        new_status = new_status;
        provider_event_id = provider_event_id;
        received_at = env.utcnow;
        processed_at = env.utcnow;
        is_duplicate = is_duplicate;
        error_message = error_message;
        metadata_json = metadata_json;
      }

  abbrev pub mark_duplicate : MobileMoneyTransactionEvent → MobileMoneyTransactionEvent
  mark_duplicate e = record e { is_duplicate = true }

  unfoldable pub create_event :
      ℕ
      → String
      → Option String
      → Option String
      → Option String
      → Bool
      → Option String
      → List (String × Json)
      → MobileMoney
      → MobileMoney
  unfolding is_event
  create_event transaction_id event_type old_status new_status provider_event_id is_duplicate
        error_message metadata_json m =
      let e =
        new_event transaction_id event_type old_status new_status provider_event_id is_duplicate
          error_message metadata_json m.drawn in
      let added = record m { events = m.events ++ e ∷ []; drawn = m.drawn + 1 } in
      if not (has_text provider_event_id)
      then added
      else elim (first (is_event transaction_id provider_event_id) m.events) [
        | none ↦ added
        | some x ↦ record m {
          events = save_row (λ (y : MobileMoneyTransactionEvent). y.id) (mark_duplicate x) m.events;
        }
      ]

  -- the columns that `mark_not_successful` writes
  unfoldable pub unsuccessful :
      String → Option String → MobileMoneyTransaction → MobileMoneyTransaction
  unsuccessful new_status provider_status t = record t {
    status = new_status;
    provider_status = provider_status;
    last_verified_at = some env.utcnow;
    updated_at = env.utcnow;
    cancelled_at = if str_eq new_status "cancelled" then some env.utcnow else t.cancelled_at;
  }

  -- `mark_not_successful` on a transaction that is not successful
  unfoldable pub mark_open :
      MobileMoneyTransaction → String → Option String → Option String → Handler (Unit {0})
  unfolding unsuccessful create_event
  mark_open t new_status provider_status provider_event_id = do
    modify_mobile (save_transaction (unsuccessful new_status provider_status t))
    if mem_text new_status ("failed" ∷ "cancelled" ∷ "expired" ∷ [])
        then notify_user env t.member_id (
            finance_notice "Paiement non confirme"
              "Votre paiement n'a pas pu etre confirme. Aucun reglement n'a ete enregistre."
              "payment_not_confirmed" "mobile_money_transaction" t.id)
        else pure tt
    modify_mobile (
        create_event t.id "provider_status" (some t.status) (some new_status) provider_event_id
          false none (("provider_status", provider_text provider_status) ∷ []))

  -- `mark_not_successful` on the row that it locked
  unfoldable pub mark_locked :
      Option MobileMoneyTransaction → String → Option String → Option String → Handler (Unit {0})
  unfolding mark_open
  mark_locked none new_status provider_status provider_event_id = pure tt
  mark_locked (some t) new_status provider_status provider_event_id =
      if str_eq t.status "successful"
      then pure tt
      else mark_open t new_status provider_status provider_event_id

  unfoldable pub mark_not_successful :
      ℕ → String → Option String → Option String → Handler (Unit {0})
  unfolding mark_locked
  mark_not_successful transaction_id new_status provider_status provider_event_id = do
    locked ← gets (λ db. transaction_row transaction_id db.mobile)
    mark_locked locked new_status provider_status provider_event_id
