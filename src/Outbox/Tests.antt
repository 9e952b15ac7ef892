-- ===== src/Outbox/Tests.antt =====
-- A member with two devices, one of them revoked.
use enactspace.Shared.{ℕ, ◌≡◌, refl, true, false, Option, none, some, [], ◌∷◌, arith}
use enactspace.Shared.Env.{Env}
use enactspace.Shared.Table.{first, select, order_by, insert_row}
use enactspace.Outbox.Models.{
  Notification, UserPreference, AppInstallation, Outbox, flush_notifications,
}
use enactspace.Outbox.Push.{enqueue_push_deliveries, enqueue_one}
use enactspace.Outbox.Service.{
  NotificationRequest, create_notification, mark_all_read, unread_count,
}
use enactspace.Outbox.Inbox.{mark_all_read-unread_count}
use enactspace.Outbox.Dedupe.{create_notification-again}
use enactspace.Outbox.Deliveries.{Queued, enqueue-Queued}

abbrev pub env : Env
env = record {
  utcnow = 100;
  uuid4 = λ n. n;
  strip = λ s. s;
  fixed0 = λ n. "n";
  fold_accents = λ s. s;
  prefix = λ n s. s;
  join_words = λ s. s;
  upper = λ s. s;
  suffix = λ n s. s;
  id_text = λ n. "id";
  push_enabled = true;
  lower = λ s. s;
  float_of = λ s. none;
  fromisoformat = λ s. none;
  number_text = λ n. "n";
  date_of = λ n. n;
  year_of = λ n. n;
}

abbrev preference : UserPreference
preference = record {
  user_id = 8;
  locale = "fr";
  theme = "system";
  notification_in_app_enabled = true;
  notification_email_enabled = true;
  notification_push_enabled = true;
  created_at = 1;
  updated_at = 1;
}

abbrev device : ℕ → Option ℕ → AppInstallation
device id revoked_at = record {
  id = id;
  user_id = 8;
  installation_key = id;
  platform = "android";
  app_version = none;
  build_number = none;
  os_version = none;
  device_model = none;
  locale = none;
  push_provider = some "fcm";
  push_token_ciphertext = some "secret";
  push_token_hash = some "hash";
  push_token_updated_at = none;
  last_seen_at = 1;
  revoked_at = revoked_at;
  created_at = 1;
  updated_at = 1;
}

abbrev notification : ℕ → Notification
notification user_id = record {
  id = 0;
  user_id = user_id;
  title = "Nouveau frais";
  message = "Cotisation";
  type = some "fee_due";
  is_read = false;
  in_app_suppressed = false;
  related_type = some "fee";
  related_id = some 1;
  created_at = 1;
  read_at = none;
}

abbrev pub outbox : Outbox
outbox = record {
  notifications = notification 8 ∷ notification 9 ∷ [];
  pending = [];
  preferences = preference ∷ [];
  installations = device 3 none ∷ device 2 (some 5) ∷ [];
  deliveries = [];
  drawn = 4;
}

abbrev request : NotificationRequest
request = record {
  title = "Nouveau frais";
  body = none;
  message = some "Cotisation";
  type = none;
  notification_type = some "fee_due";
  category = none;
  entity_type = none;
  entity_id = none;
  related_type = some "fee";
  related_id = some 2;
  dedupe = true;
}

-- the device that is not revoked
queues_one : (enqueue_push_deliveries env (notification 8) (some preference) outbox).0 ≡ 1
unfolding enqueue_push_deliveries first select order_by insert_row enqueue_one flush_notifications
queues_one = refl

enqueue-Queued_example :
    Queued
      (notification 8)
      outbox.installations
      []
      (enqueue_push_deliveries env (notification 8) (some preference) outbox)
enqueue-Queued_example = enqueue-Queued env (notification 8) (some preference) outbox tt

create_notification-again_example :
    let o' = flush_notifications (create_notification env 8 request true outbox).1 in
    (create_notification env 8 request true o').1 ≡ o'
create_notification-again_example =
    create_notification-again env env 8 request true true outbox refl

mark_all_read-unread_count_example :
    let (marked, o') = mark_all_read env 8 outbox in
    (marked ≡ unread_count 8 outbox)
    × (unread_count 8 o' ≡ 0)
    × (unread_count 9 o' ≡ unread_count 9 outbox)
mark_all_read-unread_count_example =
    mark_all_read-unread_count env 8 9 outbox (λ e. omega (arith, e))
