-- ===== src/Outbox/Worker.antt =====
-- services/push_worker_service.py: the worker that claims deliveries and sends them. Each call is one
-- transaction. `decrypt` stands for `decrypt_push_token` and `PushProvider` for the push provider.
pub mod Cases
pub mod Diagram
pub mod Draining
pub mod Attempts
pub mod Waits
pub mod Limits
pub mod Sending
mod Tests
use enactspace.Shared.{
  ℕ, zero, suc, ◌+◌, ◌-◌, ◌*◌, ◌^◌, ◌≤◌, min, String, Bool, true, false, not, ◌&&◌, ◌||◌, Option,
  none, some, List, [], ◌∷◌, map, ◌==◌, ltb, leb, str_eq, same_text, is_none, mem_id, if◌then◌else◌,
}
use enactspace.Shared.Env.{Env}
use enactspace.Shared.Table.{first, select, amend, find_row, save_row, take, length}
use enactspace.Outbox.Models.{
  Notification, UserPreference, AppInstallation, PushDelivery, DeliveryStatus, Outbox,
}
use enactspace.Outbox.Push.{user_preference}
use enactspace.Outbox.Lifecycle.{
  has_text, cancelled_delivery, clear_installation_push, cancel_unsent_deliveries,
}
use enactspace.Outbox.Service.{or_default, text_or}

-- `PushFailureKind`
pub data PushFailureKind : Type 0 where
  invalid_token transient unavailable : PushFailureKind

-- `PushMessage`, with the pairs of `_safe_data`
pub record PushMessage : Type 0 where
  pub token : String
  pub title : String
  pub body : String
  pub notification_id : ℕ
  pub type : String
  pub related_type : String
  pub related_id : Option ℕ

-- what `provider.send` gives: a message identifier, or the error that it raises
pub data SendResult : Type 0 where
  message : String → SendResult
  failure : PushFailureKind → String → SendResult

pub record PushProvider : Type 0 where
  -- `decrypt_push_token`, or none for its configuration error
  pub decrypt : String → Option String
  pub send : PushMessage → SendResult

-- what `process_push_delivery` answers
pub data Outcome : Type 0 where
  ignored : Outcome
  left : DeliveryStatus → Outcome

abbrev pub max_push_attempts : ℕ
max_push_attempts = 5

-- `PROCESSING_LEASE`, in seconds
abbrev pub processing_lease : ℕ
processing_lease = 300

abbrev pub is_processing : DeliveryStatus → Bool
is_processing DeliveryStatus.processing = true
is_processing _ = false

abbrev pub is_waiting : DeliveryStatus → Bool
is_waiting DeliveryStatus.pending = true
is_waiting DeliveryStatus.retry = true
is_waiting _ = false

-- `processing_started_at <= now - PROCESSING_LEASE`, which a null fails
unfoldable pub lease_expired : ℕ → Option ℕ → Bool
lease_expired now none = false
lease_expired now (some t) = leb (t + processing_lease) now

unfoldable pub claimable : ℕ → PushDelivery → Bool
unfolding lease_expired
claimable now d =
    is_waiting d.status && leb d.next_attempt_at now
    || is_processing d.status && lease_expired now d.processing_started_at

-- `order_by(PushDelivery.next_attempt_at, PushDelivery.created_at)`
unfoldable pub due_before : PushDelivery → PushDelivery → Bool
due_before a b =
    ltb a.next_attempt_at b.next_attempt_at
    || a.next_attempt_at == b.next_attempt_at && ltb a.created_at b.created_at

unfoldable pub insert_due : PushDelivery → List PushDelivery → List PushDelivery
unfolding due_before
insert_due d [] = d ∷ []
insert_due d (x ∷ xs) =
    let rest = insert_due d xs in if due_before x d then x ∷ rest else d ∷ x ∷ xs

unfoldable pub order_due : List PushDelivery → List PushDelivery
unfolding insert_due
order_due [] = []
order_due (d ∷ ds) = insert_due d (order_due ds)

abbrev pub claimed : ℕ → PushDelivery → PushDelivery
claimed now d = record d {
  status = DeliveryStatus.processing;
  processing_started_at = some now;
  updated_at = now;
}

unfoldable pub claim_push_deliveries : ℕ → ℕ → Outbox → List ℕ × Outbox
unfolding claimable order_due take
claim_push_deliveries limit now o =
    let ids =
      map (λ (d : PushDelivery). d.id)
        (take limit (order_due (select (claimable now) o.deliveries))) in
    (ids, record o { deliveries = amend (λ d. mem_id d.id ids) (claimed now) o.deliveries })

abbrev pub delivery_row : ℕ → Outbox → Option PushDelivery
delivery_row delivery_id o = find_row (λ (d : PushDelivery). d.id) delivery_id o.deliveries

abbrev pub save_delivery : PushDelivery → Outbox → Outbox
save_delivery d o = record o { deliveries = save_row (λ (x : PushDelivery). x.id) d o.deliveries }

-- `30 * (2 ** max(0, attempt_count - 1))` seconds, at most an hour
unfoldable pub retry_delay : ℕ → ℕ
retry_delay attempt_count = min 3600 (30 * 2 ^ (attempt_count - 1))

-- `lock_user_installation`, without the lock
unfoldable pub lock_user_installation : ℕ → ℕ → Outbox → Option AppInstallation
lock_user_installation user_id installation_id o =
    first (λ i. i.id == installation_id && i.user_id == user_id) o.installations

module _ (env : Env) where
  -- `_safe_data`, and the message to send
  unfoldable pub push_message : String → Notification → PushMessage
  push_message token n = record {
    token = token;
    title = n.title;
    body = n.message;
    notification_id = n.id;
    type = or_default n.type "general";
    related_type = or_default n.related_type "";
    related_id = n.related_id;
  }

  -- `_retry`
  unfoldable pub retry_delivery : String → PushDelivery → PushDelivery
  unfolding retry_delay
  retry_delivery code d =
      let d' = record d {
        last_error_code = some (env.prefix 80 code);
        processing_started_at = none;
      } in
      if leb max_push_attempts d.attempt_count
      then record d' { status = DeliveryStatus.dead }
      else record d' {
        status = DeliveryStatus.retry;
        next_attempt_at = env.utcnow + retry_delay d.attempt_count;
      }

  -- the test `valid`, on the installation that the lock of the user's rows reads
  unfoldable pub is_deliverable :
      Notification → Option AppInstallation → Option UserPreference → PushDelivery → Bool
  is_deliverable n none preference d = false
  is_deliverable n (some i) none d = false
  is_deliverable n (some i) (some p) d =
      env.push_enabled
      && i.user_id == n.user_id
      && is_none i.revoked_at
      && p.notification_push_enabled
      && same_text i.push_provider (some "fcm")
      && has_text i.push_token_ciphertext
      && same_text i.push_token_hash (some d.token_hash_snapshot)

  abbrev pub left_as : PushDelivery → Outbox → Outcome × Outbox
  left_as d o =
      let d' = record d { updated_at = env.utcnow } in (Outcome.left d'.status, save_delivery d' o)

  unfoldable pub sent_delivery : String → PushDelivery → PushDelivery
  sent_delivery message_id d = record d {
    status = DeliveryStatus.sent;
    processing_started_at = none;
    provider_message_id = some (env.prefix 255 message_id);
    last_error_code = none;
    sent_at = some env.utcnow;
  }

  -- The token is dead. The queries of `cancel_unsent_deliveries` read the row of the delivery anew,
  -- before anything of it is written: the attempt that was counted on it is lost.
  unfoldable pub drop_token : AppInstallation → String → PushDelivery → Outbox → Outcome × Outbox
  drop_token i code d o =
      let o₁ = (clear_installation_push env i o).1 in
      let o₂ = (cancel_unsent_deliveries env none none (some d.token_hash_snapshot) o₁).1 in
      left_as
        (record d {
          status = DeliveryStatus.dead;
          processing_started_at = none;
          last_error_code = some code;
        })
        o₂

  -- `process_push_delivery` on a valid delivery: `d` is its row, and `counted` the row with the
  -- attempt counted.
  unfoldable pub attempt :
      PushProvider → Notification → AppInstallation → PushDelivery → Outbox → Outcome × Outbox
  unfolding retry_delivery sent_delivery drop_token push_message
  attempt provider n i d o =
      let counted = record d { attempt_count = d.attempt_count + 1 } in
      elim (provider.decrypt (text_or i.push_token_ciphertext "")) [
        | none ↦ left_as (retry_delivery "token_decrypt_unavailable" counted) o
        | some token ↦ elim (provider.send (push_message token n)) [
          | message id ↦ left_as (sent_delivery id counted) o
          | failure kind code ↦ elim kind [
            | invalid_token ↦ drop_token i (env.prefix 80 code) d o
            | transient ↦ left_as (retry_delivery (env.prefix 80 code) counted) o
            | unavailable ↦ left_as (retry_delivery (env.prefix 80 code) counted) o
          ]
        ]
      ]

  abbrev pub cancel_delivery : PushDelivery → Outbox → Outcome × Outbox
  cancel_delivery d o = left_as (cancelled_delivery env d) o

  -- `process_push_delivery` on a delivery that is being processed
  unfoldable pub process_claimed : PushProvider → PushDelivery → Outbox → Outcome × Outbox
  unfolding attempt is_deliverable lock_user_installation user_preference cancelled_delivery
  process_claimed provider d o =
      elim (find_row (λ (n : Notification). n.id) d.notification_id o.notifications) [
        | none ↦ cancel_delivery d o
        | some n ↦ elim (lock_user_installation n.user_id d.installation_id o) [
          | none ↦ cancel_delivery d o
          | some i ↦
              if is_deliverable n (some i) (user_preference n.user_id o) d
              then attempt provider n i d o
              else cancel_delivery d o
        ]
      ]

  unfoldable pub process_push_delivery : PushProvider → ℕ → Outbox → Outcome × Outbox
  unfolding process_claimed
  process_push_delivery provider delivery_id o = elim (delivery_row delivery_id o) [
    | none ↦ (Outcome.ignored, o)
    | some d ↦
        if not (is_processing d.status) then (Outcome.ignored, o) else process_claimed provider d o
  ]

  -- the loop of `drain_push_deliveries` over the claimed deliveries
  unfoldable pub process_all : PushProvider → List ℕ → Outbox → Outbox
  process_all provider [] o = o
  process_all provider (k ∷ ks) o = process_all provider ks (process_push_delivery provider k o).1

  -- With a provider that could not be made, every message fails by the error that making it raised.
  abbrev pub unavailable_provider : PushProvider → PushFailureKind → String → PushProvider
  unavailable_provider provider kind code = record provider { send = λ _. failure kind code }

  unfoldable pub drain_push_deliveries : PushProvider → ℕ → Outbox → ℕ × Outbox
  unfolding claim_push_deliveries process_all
  drain_push_deliveries provider limit o =
      let (ids, o') = claim_push_deliveries limit env.utcnow o in
      (length ids, process_all provider ids o')
