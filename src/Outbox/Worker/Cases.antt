-- ===== src/Outbox/Worker/Cases.antt =====
-- How `process_push_delivery` ends, as one principle over its branches.
use enactspace.Shared.{◌+◌, ◌≡◌, ◌⊎◌, refl, true, some, inl, inr, Bool-cases, Option-cases, String}
use enactspace.Shared.Env.{Env}
use enactspace.Shared.Table.{find_row}
use enactspace.Outbox.Models.{Notification, AppInstallation, PushDelivery, Outbox}
use enactspace.Outbox.Push.{user_preference}
use enactspace.Outbox.Service.{text_or}
use enactspace.Outbox.Worker.{
  PushProvider, PushFailureKind, SendResult, message, failure, Outcome, attempt, process_claimed,
  push_message, lock_user_installation, is_deliverable, left_as, retry_delivery, sent_delivery,
  drop_token, cancel_delivery,
}

Send-cases :
    (r : SendResult)
    → ((m : String) × (r ≡ SendResult.message m))
      ⊎ ((kind : PushFailureKind) × (code : String) × (r ≡ SendResult.failure kind code))
Send-cases (message m) = inl (m, refl)
Send-cases (failure kind code) = inr (kind, code, refl)

-- What the worker read before it sends.
pub record Ready (env : Env) (d : PushDelivery) (o : Outbox) (n : Notification)
    (i : AppInstallation) : Type 0 where
  pub notified : find_row (λ (x : Notification). x.id) d.notification_id o.notifications ≡ some n
  pub installed : lock_user_installation n.user_id d.installation_id o ≡ some i
  pub valid : is_deliverable env n (some i) (user_preference n.user_id o) d ≡ true

module _ (env : Env) (provider : PushProvider) (d : PushDelivery) (o : Outbox) where
  abbrev pub counted : PushDelivery
  counted = record d { attempt_count = d.attempt_count + 1 }

  module _ (Q : Outcome × Outbox → Type 0)
      (retried : (code : String) → Q (left_as env (retry_delivery env code counted) o))
      (dropped : (i : AppInstallation) (code : String) → Q (drop_token env i code d o)) where
    attempt-cases :
        (n : Notification) (i : AppInstallation)
        → ((m : String) → Q (left_as env (sent_delivery env m counted) o))
        → Q (attempt env provider n i d o)
    unfolding attempt
    attempt-cases n i sent =
        elim (Option-cases (provider.decrypt (text_or i.push_token_ciphertext ""))) [
          | inl e ↦ rw (attempt, e) (retried "token_decrypt_unavailable")
          | inr (token, e) ↦
              rw (attempt, e)
                (elim (Send-cases (provider.send (push_message env token n))) [
                  | inl (m, ok) ↦ rw ok (sent m)
                  | inr (PushFailureKind.invalid_token, code, bad) ↦
                      rw bad (dropped i (env.prefix 80 code))
                  | inr (PushFailureKind.transient, code, bad) ↦
                      rw bad (retried (env.prefix 80 code))
                  | inr (PushFailureKind.unavailable, code, bad) ↦
                      rw bad (retried (env.prefix 80 code))
                ])
        ]

    pub process-cases :
        Q (cancel_delivery env d o)
        → ((n : Notification) (i : AppInstallation) (m : String)
            → Ready env d o n i
            → Q (left_as env (sent_delivery env m counted) o))
        → Q (process_claimed env provider d o)
    unfolding process_claimed
    process-cases cancelled sent =
        elim (Option-cases
          (find_row (λ (x : Notification). x.id) d.notification_id o.notifications)) [
            | inl e ↦ rw (process_claimed, e) cancelled
            | inr (n, e) ↦
                rw (process_claimed, e)
                  (elim (Option-cases (lock_user_installation n.user_id d.installation_id o)) [
                    | inl f ↦ rw f cancelled
                    | inr (i, f) ↦
                        rw f
                          (elim (Bool-cases
                            (is_deliverable env n (some i) (user_preference n.user_id o) d)) [
                              | inl valid ↦ rw valid (
                                  attempt-cases n i (λ m.
                                    sent n i m
                                      (record { notified = e; installed = f; valid = valid })))
                              | inr bad ↦ rw bad cancelled
                            ])
                  ])
          ]
