-- ===== src/Outbox/Push.antt =====
-- `enqueue_push_deliveries` of services/push_lifecycle.py, with the row reads of push_locking.py.
-- Row locks are not modelled: a request runs alone.
use enactspace.Shared.{
  ℕ, ◌+◌, String, Bool, not, ◌&&◌, ◌||◌, Option, none, some, List, [], ◌∷◌, ◌++◌, ◌==◌, str_eq,
  same_text, is_none, if◌then◌else◌,
}
use enactspace.Shared.Env.{Env}
use enactspace.Shared.Table.{first, select, order_by}
use enactspace.Outbox.Models.{
  Notification, UserPreference, AppInstallation, PushDelivery, DeliveryStatus, Outbox,
  flush_notifications,
}

-- `lock_user_installations`
unfoldable pub lock_user_installations : ℕ → Outbox → List AppInstallation
lock_user_installations user_id o =
    order_by (λ (i : AppInstallation). i.id) (select (λ i. i.user_id == user_id) o.installations)

-- `db.query(UserPreference).filter(UserPreference.user_id == user_id).first()`
unfoldable pub user_preference : ℕ → Outbox → Option UserPreference
user_preference user_id o = first (λ p. p.user_id == user_id) o.preferences

-- The `continue` test of the loop fails, and gives the token's hash.
unfoldable pub push_target : AppInstallation → Option String
push_target i =
    if not (is_none i.revoked_at)
      || not (same_text i.push_provider (some "fcm"))
      || is_none i.push_token_ciphertext
    then none
    else i.push_token_hash

-- the query for an earlier delivery of one notification to one installation and token
abbrev pub delivers : ℕ → ℕ → String → PushDelivery → Bool
delivers notification_id installation_id token d =
    d.notification_id == notification_id
    && d.installation_id == installation_id
    && str_eq d.token_hash_snapshot token

module _ (env : Env) (notification : Notification) where
  -- a new row with the column defaults
  unfoldable pub new_delivery : ℕ → AppInstallation → String → PushDelivery
  new_delivery drawn installation token = record {
    id = env.uuid4 drawn;
    notification_id = notification.id;
    installation_id = installation.id;
    token_hash_snapshot = token;
    status = DeliveryStatus.pending;
    attempt_count = 0;
    next_attempt_at = env.utcnow;
    processing_started_at = none;
    provider_message_id = none;
    last_error_code = none;
    created_at = env.utcnow;
    updated_at = env.utcnow;
    sent_at = none;
  }

  -- The body of the loop over the installations, on the count and the tables.
  unfoldable pub enqueue_one : AppInstallation → ℕ × Outbox → ℕ × Outbox
  unfolding push_target new_delivery
  enqueue_one installation (queued, o) = elim (push_target installation) [
    | none ↦ (queued, o)
    | some token ↦
        if is_none (first (delivers notification.id installation.id token) o.deliveries)
        then (
          queued + 1,
          record o {
            deliveries = o.deliveries ++ new_delivery o.drawn installation token ∷ [];
            drawn = o.drawn + 1;
          },
        )
        else (queued, o)
  ]

  unfoldable pub enqueue_all : List AppInstallation → ℕ × Outbox → ℕ × Outbox
  enqueue_all [] acc = acc
  enqueue_all (i ∷ is) acc = enqueue_all is (enqueue_one i acc)

  -- The flush leaves installations and preferences alone. The second test reads the preference again,
  -- after the lock.
  unfoldable pub enqueue_push_deliveries : Option UserPreference → Outbox → ℕ × Outbox
  unfolding enqueue_all lock_user_installations user_preference
  enqueue_push_deliveries preference o =
      if not env.push_enabled || is_none preference
      then (0, o)
      else elim (user_preference notification.user_id o) [
        | none ↦ (0, flush_notifications o)
        | some p ↦
            if not p.notification_push_enabled
            then (0, flush_notifications o)
            else enqueue_all (lock_user_installations notification.user_id o)
                (0, flush_notifications o)
      ]
