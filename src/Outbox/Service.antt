-- ===== src/Outbox/Service.antt =====
-- services/notification_service.py, with `dispatch_notification_channels` of
-- notification_channels.py, whose e-mail half only logs.
use enactspace.Shared.{
  ℕ, ◌+◌, String, Bool, true, false, not, ◌&&◌, Option, none, some, List, [], ◌∷◌, ◌++◌, ◌==◌, ltb,
  str_eq, same_text, same_id, is_none, if◌then◌else◌,
}
use enactspace.Shared.Env.{Env}
use enactspace.Shared.Table.{select, amend, length}
use enactspace.Outbox.Models.{Notification, UserPreference, Outbox}
use enactspace.Outbox.Push.{user_preference, enqueue_push_deliveries}

-- The arguments that `create_notification` reads; those that it ignores are left out.
pub record NotificationRequest : Type 0 where
  pub title : String
  pub body : Option String
  pub message : Option String
  pub type : Option String
  pub notification_type : Option String
  pub category : Option String
  pub entity_type : Option String
  pub entity_id : Option ℕ
  pub related_type : Option String
  pub related_id : Option ℕ
  pub dedupe : Bool

-- `a or b` on optional texts: the empty text is false.
abbrev pub or_text : Option String → Option String → Option String
or_text none b = b
or_text (some s) b = if str_eq s "" then b else some s

-- `a or b` on optional identifiers
abbrev pub or_id : Option ℕ → Option ℕ → Option ℕ
or_id none b = b
or_id (some a) b = some a

-- `a or d`, where `d` is a text
abbrev pub or_default : Option String → String → String
or_default none d = d
or_default (some s) d = if str_eq s "" then d else s

-- `d if a is None else a`
abbrev pub text_or : Option String → String → String
text_or none d = d
text_or (some s) d = s

-- `query.order_by(Notification.created_at.desc()).first()`
unfoldable pub newest : List Notification → Option Notification
newest [] = none
newest (n ∷ ns) = elim (newest ns) [
  | none ↦ some n
  | some m ↦ if ltb n.created_at m.created_at then some m else some n
]

module _ (env : Env) (recipient : ℕ) (r : NotificationRequest) where
  unfoldable pub normalized_type : String
  normalized_type = or_default (or_text r.type (or_text r.notification_type r.category)) "general"

  unfoldable pub normalized_related_type : Option String
  normalized_related_type = or_text r.entity_type r.related_type

  unfoldable pub normalized_related_id : Option ℕ
  normalized_related_id = or_id r.entity_id r.related_id

  unfoldable pub normalized_message : String
  normalized_message = elim r.body [ some b ↦ b | none ↦ text_or r.message "" ]

  -- the in-app channel is switched off by the recipient
  unfoldable pub in_app_suppressed : Option UserPreference → Bool
  in_app_suppressed none = false
  in_app_suppressed (some p) = not p.notification_in_app_enabled

  -- the query for an unread notification of the same content
  unfoldable pub is_duplicate : Bool → Notification → Bool
  unfolding normalized_type normalized_related_type normalized_related_id
  is_duplicate suppressed n =
      n.user_id == recipient
      && not n.is_read
      && same_text n.type (some normalized_type)
      && same_text n.related_type normalized_related_type
      && same_id n.related_id normalized_related_id
      && (if suppressed then n.in_app_suppressed else not n.in_app_suppressed)
      && (if is_none normalized_related_id then str_eq n.title r.title else true)

  unfoldable pub new_notification : Bool → ℕ → Notification
  unfolding normalized_type normalized_related_type normalized_related_id normalized_message
  new_notification suppressed drawn = record {
    id = env.uuid4 drawn;
    user_id = recipient;
    title = r.title;
    message = normalized_message;
    type = some normalized_type;
    is_read = false;
    in_app_suppressed = suppressed;
    related_type = normalized_related_type;
    related_id = normalized_related_id;
    created_at = env.utcnow;
    read_at = none;
  }

  -- The new row, which no query sees before the next flush, and its push deliveries where the recipient's account exists.
  unfoldable pub add_notification : Bool → Option UserPreference → Outbox → Notification × Outbox
  unfolding new_notification enqueue_push_deliveries
  add_notification has_account preference o =
      let n = new_notification (in_app_suppressed preference) o.drawn in
      let o' = record o { pending = o.pending ++ n ∷ []; drawn = o.drawn + 1 } in
      (n, if has_account then (enqueue_push_deliveries env n preference o').1 else o')

  -- `create_notification` for a recipient; `has_account` is whether the query for the user finds one.
  unfoldable pub create_notification : Bool → Outbox → Notification × Outbox
  unfolding add_notification is_duplicate in_app_suppressed user_preference newest
  create_notification has_account o =
      let preference = user_preference recipient o in
      let added = add_notification has_account preference o in
      if r.dedupe
      then elim (newest (select (is_duplicate (in_app_suppressed preference)) o.notifications)) [
        | some existing ↦ (existing, o)
        | none ↦ added
      ]
      else added

unfoldable pub mark_read : Env → Notification → Notification
mark_read env n = record n { is_read = true; read_at = some env.utcnow }

unfoldable pub mark_unread : Notification → Notification
mark_unread n = record n { is_read = false; read_at = none }

abbrev pub is_unread_of : ℕ → Notification → Bool
is_unread_of user_id n = n.user_id == user_id && not n.is_read && not n.in_app_suppressed

unfoldable pub mark_all_read : Env → ℕ → Outbox → ℕ × Outbox
unfolding mark_read
mark_all_read env user_id o = (
  length (select (is_unread_of user_id) o.notifications),
  record o { notifications = amend (is_unread_of user_id) (mark_read env) o.notifications },
)

unfoldable pub unread_count : ℕ → Outbox → ℕ
unread_count user_id o = length (select (is_unread_of user_id) o.notifications)
