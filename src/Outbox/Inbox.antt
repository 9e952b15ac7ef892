-- ===== src/Outbox/Inbox.antt =====
-- What a member's unread counter shows.
use enactspace.Shared.{ℕ, ◌≡◌, ◌≢◌, refl, List, [], ◌∷◌, arith}
use enactspace.Shared.Env.{Env}
use enactspace.Shared.Table.{select, amend, length}
use enactspace.Outbox.Models.{Notification, Outbox}
use enactspace.Outbox.Service.{is_unread_of, mark_read, mark_all_read, unread_count}

module _ (env : Env) (u : ℕ) where
  unread-amend :
      (ns : List Notification)
      → length (select (is_unread_of u) (amend (is_unread_of u) (mark_read env) ns)) ≡ 0
  unfolding select amend mark_read
  unread-amend [] = refl
  unread-amend (n ∷ ns) = ground (arith, unread-amend ns)

  unread-amend_other :
      (v : ℕ) (ns : List Notification)
      → v ≢ u
      → length (select (is_unread_of v) (amend (is_unread_of u) (mark_read env) ns))
        ≡ length (select (is_unread_of v) ns)
  unfolding select amend mark_read
  unread-amend_other v [] other = refl
  unread-amend_other v (n ∷ ns) other = ground (arith, unread-amend_other v ns other)

-- Marking all of a member's notifications as read answers with the unread count, brings it to 0, and
-- leaves the count of another member.
pub mark_all_read-unread_count :
    (env : Env) (u v : ℕ) (o : Outbox)
    → v ≢ u
    → let (marked, o') = mark_all_read env u o in
      (marked ≡ unread_count u o) × (unread_count u o' ≡ 0) × (unread_count v o' ≡ unread_count v o)
unfolding mark_all_read unread_count
mark_all_read-unread_count env u v o other =
    (refl, unread-amend env u o.notifications, unread-amend_other env u v o.notifications other)
