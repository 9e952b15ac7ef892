-- ===== src/Outbox/Dedupe.antt =====
-- `create_notification` with `dedupe`, called again.
use mathlib.Core.List.{append-nil}
use text.Mathlib.TextPositions.{eq_refl}
use enactspace.Shared.{
  ℕ, ◌+◌, ◌≡◌, refl, ◌∙◌, String, Bool, true, false, Option, none, some, is_none, List, [], ◌∷◌,
  ◌++◌, arith, same_text, same_id, inl, inr, Option-cases,
}
use enactspace.Shared.Env.{Env}
use enactspace.Shared.Table.{select}
use enactspace.Outbox.Models.{
  Notification, UserPreference, AppInstallation, Outbox, flush_notifications,
}
use enactspace.Outbox.Push.{
  enqueue_push_deliveries, enqueue_all, enqueue_one, lock_user_installations, user_preference,
}
use enactspace.Outbox.Service.{
  NotificationRequest, newest, is_duplicate, new_notification, add_notification,
  create_notification, in_app_suppressed,
}

pub same_text_refl : (t : Option String) → same_text t t ≡ true
same_text_refl none = refl
same_text_refl (some s) = eq_refl s

same_id_refl : (k : Option ℕ) → same_id k k ≡ true
same_id_refl none = refl
same_id_refl (some k) = ground arith

-- the push deliveries leave the notifications and the preferences alone
module _ (env : Env) (n : Notification) where
  enqueue_one-rest :
      (i : AppInstallation) (acc : ℕ × Outbox)
      → ((enqueue_one env n i acc).1.notifications ≡ acc.1.notifications)
        × ((enqueue_one env n i acc).1.preferences ≡ acc.1.preferences)
        × ((enqueue_one env n i acc).1.pending ≡ acc.1.pending)
  unfolding enqueue_one
  enqueue_one-rest i (queued, o) = ground arith

  enqueue_all-rest :
      (is : List AppInstallation) (acc : ℕ × Outbox)
      → ((enqueue_all env n is acc).1.notifications ≡ acc.1.notifications)
        × ((enqueue_all env n is acc).1.preferences ≡ acc.1.preferences)
        × ((enqueue_all env n is acc).1.pending ≡ acc.1.pending)
  unfolding enqueue_all
  enqueue_all-rest [] acc = (refl, refl, refl)
  enqueue_all-rest (i ∷ is) acc =
      let (a, b, x) = enqueue_all-rest is (enqueue_one env n i acc) in
      let (c, d, y) = enqueue_one-rest i acc in (a ∙ c, b ∙ d, x ∙ y)

  -- whether it flushed or not, a flush leaves the same notifications
  enqueue-rest :
      (preference : Option UserPreference) (o : Outbox)
      → ((flush_notifications (enqueue_push_deliveries env n preference o).1).notifications
          ≡ o.notifications ++ o.pending)
        × ((enqueue_push_deliveries env n preference o).1.preferences ≡ o.preferences)
  unfolding enqueue_push_deliveries flush_notifications
  enqueue-rest preference o = ground (
    arith,
    enqueue_all-rest (lock_user_installations n.user_id o) (0, flush_notifications o),
    append-nil (o.notifications ++ o.pending),
  )

-- a query that finds a row in a part of the table finds one in the whole table
newest-first :
    (p : Notification → Bool) (ns ms : List Notification)
    → is_none (newest (select p ns)) ≡ false
    → is_none (newest (select p (ns ++ ms))) ≡ false
unfolding newest select
newest-first p [] ms e = cc
newest-first p (n ∷ ns) ms e = ground (arith, newest-first p ns ms, e)

newest-second :
    (p : Notification → Bool) (ns ms : List Notification)
    → is_none (newest (select p ms)) ≡ false
    → is_none (newest (select p (ns ++ ms))) ≡ false
unfolding newest select
newest-second p [] ms e = e
newest-second p (n ∷ ns) ms e = ground (arith, newest-second p ns ms e)

module _ (env : Env) (recipient : ℕ) (r : NotificationRequest) where
  made-duplicate :
      (suppressed : Bool) (drawn : ℕ)
      → is_duplicate env recipient r suppressed (new_notification env recipient r suppressed drawn)
        ≡ true
  unfolding is_duplicate new_notification
  made-duplicate suppressed drawn =
      rw (eq_refl r.title, eq_refl, same_text_refl, same_id_refl) (ground arith)

  added-rest :
      (has_account : Bool) (preference : Option UserPreference) (o : Outbox)
      → let n =
          new_notification env recipient r (in_app_suppressed env recipient r preference) o.drawn in
        let o' =
          flush_notifications (add_notification env recipient r has_account preference o).1 in
        (o'.notifications ≡ o.notifications ++ (o.pending ++ n ∷ []))
        × (o'.preferences ≡ o.preferences)
  unfolding add_notification flush_notifications
  added-rest has_account preference o =
      let n =
        new_notification env recipient r (in_app_suppressed env recipient r preference) o.drawn in
      ground (
        arith,
        enqueue-rest env n preference
            (record o { pending = o.pending ++ n ∷ []; drawn = o.drawn + 1 }),
      )

  -- What the first call leaves, once flushed: the preferences, and a duplicate of every later one.
  left_behind :
      (has_account : Bool) (o : Outbox)
      → r.dedupe ≡ true
      → let o' = flush_notifications (create_notification env recipient r has_account o).1 in
        let suppressed = in_app_suppressed env recipient r (user_preference recipient o) in
        (o'.preferences ≡ o.preferences)
        × (is_none (newest (select (is_duplicate env recipient r suppressed) o'.notifications))
            ≡ false)
  unfolding create_notification flush_notifications select newest
  left_behind has_account o dedupes =
      let preference = user_preference recipient o in
      let suppressed = in_app_suppressed env recipient r preference in
      let p = is_duplicate env recipient r suppressed in
      let n = new_notification env recipient r suppressed o.drawn in
      let added = added-rest has_account preference o in
      let appended =
        newest-second p o.notifications (o.pending ++ n ∷ [])
          (newest-second p o.pending (n ∷ []) (rw (made-duplicate suppressed o.drawn) refl)) in
      elim (Option-cases (newest (select p o.notifications))) [
        | inl fresh ↦ ground (arith, fresh, added, appended, dedupes)
        | inr (existing, found) ↦
            let kept = newest-first p o.notifications o.pending (rw found refl) in
            ground (arith, found, dedupes, kept)
      ]

  -- a duplicate that stands leaves the tables as they are
  duplicate-unchanged :
      (has_account : Bool) (o : Outbox)
      → r.dedupe ≡ true
      → is_none (
          newest (
            select
              (is_duplicate env recipient r
                (in_app_suppressed env recipient r (user_preference recipient o)))
              o.notifications))
        ≡ false
      → (create_notification env recipient r has_account o).1 ≡ o
  unfolding create_notification
  duplicate-unchanged has_account o dedupes stands = ground (arith, dedupes, stands)

-- With `dedupe`, a notification that was just created is not created again once the session is
-- flushed, as a commit does: a second call for the same recipient and content, at any time, leaves
-- the outbox as it was.
pub create_notification-again :
    (env env' : Env) (recipient : ℕ) (r : NotificationRequest) (has_account has_account' : Bool)
    (o : Outbox)
    → r.dedupe ≡ true
    → let o' = flush_notifications (create_notification env recipient r has_account o).1 in
      (create_notification env' recipient r has_account' o').1 ≡ o'
unfolding user_preference is_duplicate in_app_suppressed
create_notification-again env env' recipient r has_account has_account' o dedupes =
    let (same, duplicate) = left_behind env recipient r has_account o dedupes in
    let o' = flush_notifications (create_notification env recipient r has_account o).1 in
    duplicate-unchanged env' recipient r has_account' o' dedupes (rw same duplicate)
