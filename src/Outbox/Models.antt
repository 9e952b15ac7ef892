-- ===== src/Outbox/Models.antt =====
-- The tables behind notifications: models/notification.py, `UserPreference` of models/account.py,
-- `AppInstallation` and `PushDelivery` of models/product_services.py. Identifiers and times are
-- numbers, nullable columns are options.
use enactspace.Shared.{ℕ, String, Bool, Option, List, [], ◌++◌}

pub record Notification : Type 0 where
  pub id : ℕ
  pub user_id : ℕ
  pub title : String
  pub message : String
  pub type : Option String
  pub is_read : Bool
  pub in_app_suppressed : Bool
  pub related_type : Option String
  pub related_id : Option ℕ
  pub created_at : ℕ
  pub read_at : Option ℕ

pub record UserPreference : Type 0 where
  pub user_id : ℕ
  pub locale : String
  pub theme : String
  pub notification_in_app_enabled : Bool
  pub notification_email_enabled : Bool
  pub notification_push_enabled : Bool
  pub created_at : ℕ
  pub updated_at : ℕ

pub record AppInstallation : Type 0 where
  pub id : ℕ
  pub user_id : ℕ
  pub installation_key : ℕ
  pub platform : String
  pub app_version : Option String
  pub build_number : Option ℕ
  pub os_version : Option String
  pub device_model : Option String
  pub locale : Option String
  pub push_provider : Option String
  pub push_token_ciphertext : Option String
  pub push_token_hash : Option String
  pub push_token_updated_at : Option ℕ
  pub last_seen_at : ℕ
  pub revoked_at : Option ℕ
  pub created_at : ℕ
  pub updated_at : ℕ

-- the column `status` of `PushDelivery`, by its check constraint
pub data DeliveryStatus : Type 0 where
  pending processing sent retry cancelled dead : DeliveryStatus

pub record PushDelivery : Type 0 where
  pub id : ℕ
  pub notification_id : ℕ
  pub installation_id : ℕ
  pub token_hash_snapshot : String
  pub status : DeliveryStatus
  pub attempt_count : ℕ
  pub next_attempt_at : ℕ
  pub processing_started_at : Option ℕ
  pub provider_message_id : Option String
  pub last_error_code : Option String
  pub created_at : ℕ
  pub updated_at : ℕ
  pub sent_at : Option ℕ

-- The tables, with the number of identifiers drawn for their rows. The database session does not
-- flush before a query: notifications that were added wait in `pending` until the next flush, and no
-- query sees them there.
pub record Outbox : Type 0 where
  pub notifications : List Notification
  pub pending : List Notification
  pub preferences : List UserPreference
  pub installations : List AppInstallation
  pub deliveries : List PushDelivery
  pub drawn : ℕ

-- `db.flush()`
unfoldable pub flush_notifications : Outbox → Outbox
flush_notifications o = record o { notifications = o.notifications ++ o.pending; pending = [] }
