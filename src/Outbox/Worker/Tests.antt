-- ===== src/Outbox/Worker/Tests.antt =====
-- A run of the worker over four deliveries.
use enactspace.Shared.{ℕ, ◌≡◌, ◌≤◌, refl, none, some, List, [], ◌∷◌, arith}
use enactspace.Shared.Table.{All, Unique, first, find_row}
use enactspace.Outbox.Models.{PushDelivery, DeliveryStatus, Outbox}
use enactspace.Outbox.Push.{user_preference}
use enactspace.Outbox.Tests.{env, outbox}
use enactspace.Outbox.Worker.{
  PushProvider, SendResult, PushFailureKind, Outcome, drain_push_deliveries, delivery_row,
  process_push_delivery, process_claimed, lock_user_installation, is_deliverable, attempt,
  sent_delivery, retry_delivery,
}
use enactspace.Outbox.Worker.Diagram.{Follows}
use enactspace.Outbox.Worker.Draining.{drain-Follows, drain_final}
use enactspace.Outbox.Worker.Attempts.{IsCounted}
use enactspace.Outbox.Worker.Waits.{Waits, retry_only_Waits}
use enactspace.Outbox.Worker.Limits.{Run, all_tries, all_tries-bounded, drains, drains-IsCounted}
use enactspace.Outbox.Worker.Sending.{IsSendable, sent_only_IsSendable}

abbrev delivery : ℕ → DeliveryStatus → ℕ → PushDelivery
delivery id status attempt_count = record {
  id = id;
  notification_id = 0;
  installation_id = 3;
  token_hash_snapshot = "hash";
  status = status;
  attempt_count = attempt_count;
  next_attempt_at = 50;
  processing_started_at = none;
  provider_message_id = none;
  last_error_code = none;
  created_at = 1;
  updated_at = 1;
  sent_at = none;
}

-- one delivery that is due, one that was tried four times, one that is sent
abbrev queued : Outbox
queued = record outbox {
  deliveries =
      delivery 10 DeliveryStatus.pending 0
      ∷ delivery 11 DeliveryStatus.retry 4
      ∷ delivery 12 DeliveryStatus.sent 1
      ∷ delivery 13 DeliveryStatus.processing 2
      ∷ [];
}

abbrev accepting : PushProvider
accepting = record { decrypt = λ s. some s; send = λ m. SendResult.message "m" }

abbrev failing : PushProvider
failing = record {
  decrypt = λ s. some s;
  send = λ m. SendResult.failure PushFailureKind.transient "down";
}

queued-Unique : Unique (λ (d : PushDelivery). d.id) queued.deliveries
unfolding find_row
queued-Unique = (refl, (refl, (refl, (refl, tt))))

queued-IsCounted : All IsCounted queued.deliveries
unfolding IsCounted
queued-IsCounted = (
  (omega arith, λ e. omega arith),
  (
    (omega arith, λ e. omega arith),
    ((omega arith, λ e. omega arith), ((omega arith, λ e. omega arith), tt)),
  ),
)

drain-Follows_example :
    Follows queued.deliveries (drain_push_deliveries env failing 25 queued).1.deliveries
drain-Follows_example = drain-Follows env failing 25 queued queued-Unique

drain_final_example :
    (d : PushDelivery) × (delivery_row 12 (drain_push_deliveries env failing 25 queued).1 ≡ some d)
    × (d.status ≡ DeliveryStatus.sent)
unfolding find_row
drain_final_example =
    drain_final env failing 25 12 queued (delivery 12 DeliveryStatus.sent 1) queued-Unique refl refl

abbrev twice : List Run
twice =
    record { env = env; provider = failing; limit = 25 }
    ∷ record { env = record env { utcnow = 5000 }; provider = accepting; limit = 25 }
    ∷ []

all_tries-bounded_example : all_tries twice queued ≤ 20
all_tries-bounded_example = all_tries-bounded twice queued queued-Unique queued-IsCounted

drains-IsCounted_example : All IsCounted (drains twice queued).deliveries
drains-IsCounted_example = drains-IsCounted twice queued queued-Unique queued-IsCounted

-- the worker leaves what the provider fails to send
retries : (process_push_delivery env failing 13 queued).0 ≡ Outcome.left DeliveryStatus.retry
unfolding process_push_delivery process_claimed lock_user_installation is_deliverable attempt
    retry_delivery find_row first user_preference
retries = refl

retry_only_Waits_example :
    Waits env 13
      (delivery 13 DeliveryStatus.processing 2)
      (process_push_delivery env failing 13 queued).1
unfolding find_row
retry_only_Waits_example =
    retry_only_Waits env failing 13 (delivery 13 DeliveryStatus.processing 2) queued refl retries

-- the worker sends what it processes and may send
sends : (process_push_delivery env accepting 13 queued).0 ≡ Outcome.left DeliveryStatus.sent
unfolding process_push_delivery process_claimed lock_user_installation is_deliverable attempt
    sent_delivery find_row first user_preference
sends = refl

sent_only_IsSendable_example : IsSendable env 13 queued
sent_only_IsSendable_example = sent_only_IsSendable env accepting 13 queued sends
