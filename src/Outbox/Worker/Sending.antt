-- ===== src/Outbox/Worker/Sending.antt =====
-- To whom the worker sends.
use mathlib.Core.List.{Mem, mem-cons_self, mem-cons_of_mem}
use text.Mathlib.TextEquality.{eq_iff}
use enactspace.Shared.{
  ℕ, ◌≡◌, refl, sym, ap, leb, String, Bool, true, Option, none, some, List, [], ◌∷◌, arith,
  same_text, inl, inr, Bool-cases, Option-cases, is_none,
}
use enactspace.Shared.Env.{Env}
use enactspace.Shared.Table.{first, find_row}
use enactspace.Shared.Table.Laws.{find_row-key}
use enactspace.Outbox.Models.{
  Notification, UserPreference, AppInstallation, PushDelivery, DeliveryStatus, Outbox,
}
use enactspace.Outbox.Push.{user_preference}
use enactspace.Outbox.Deliveries.{IsAddressed}
use enactspace.Outbox.Lifecycle.{cancelled_delivery}
use enactspace.Outbox.Worker.{
  PushProvider, Outcome, retry_delivery, drop_token, is_deliverable, lock_user_installation,
  process_push_delivery, is_processing, delivery_row,
}
use enactspace.Outbox.Worker.Cases.{process-cases, counted, Ready}

first-Mem :
    {A : Type 0} (p : A → Bool) (xs : List A) (x : A)
    → first p xs ≡ some x
    → Mem x xs × (p x ≡ true)
unfolding first
first-Mem p [] x e = ground (arith, e)
first-Mem p (y ∷ ys) x e = elim (Bool-cases (p y)) [
  | inl hit ↦ let same : y ≡ x = ground (arith, hit, e) in rw (sym same) (mem-cons_self, hit)
  | inr miss ↦
      let (rest, hit) = first-Mem p ys x (ground (arith, miss, e)) in (mem-cons_of_mem y rest, hit)
]

same_text-some : (x : Option String) (s : String) → same_text x (some s) ≡ true → x ≡ some s
same_text-some none s e = ground (arith, e)
same_text-some (some t) s e = ap some ((eq_iff t s).0 e)

is_none-none : (x : Option ℕ) → is_none x ≡ true → x ≡ none
is_none-none none e = refl
is_none-none (some t) e = ground (arith, e)

module _ (env : Env) where
  -- Push is on, and so are the push notifications of the user.
  abbrev pub Allowed : Option UserPreference → Type 0
  Allowed q =
      (env.push_enabled ≡ true)
      × (p : UserPreference) × (q ≡ some p)
      × (p.notification_push_enabled ≡ true)

  -- The delivery stands in the outbox with its notification, and is addressed to the recipient of it.
  unfoldable pub IsSendable : ℕ → Outbox → Type 0
  IsSendable k o =
      (d : PushDelivery) × (n : Notification) × (delivery_row k o ≡ some d)
      × (find_row (λ (x : Notification). x.id) d.notification_id o.notifications ≡ some n)
      × IsAddressed n o.installations d
      × Allowed (user_preference n.user_id o)

  retry_not_sent :
      (code : String) (d : PushDelivery)
      → Outcome.left (retry_delivery env code d).status ≡ Outcome.left DeliveryStatus.sent
      → ⊥
  unfolding retry_delivery
  retry_not_sent code d = elim (Bool-cases (leb 5 d.attempt_count)) [
    | inl over ↦ rw over (λ e. ground (arith, e))
    | inr more ↦ rw more (λ e. ground (arith, e))
  ]

  is_deliverable-facts :
      (n : Notification) (i : AppInstallation) (q : Option UserPreference) (d : PushDelivery)
      → is_deliverable env n (some i) q d ≡ true
      → (i.user_id ≡ n.user_id)
        × (i.revoked_at ≡ none)
        × (i.push_token_hash ≡ some d.token_hash_snapshot)
        × Allowed q
  unfolding is_deliverable
  is_deliverable-facts n i none d valid = ground (arith, valid)
  is_deliverable-facts n i (some p) d valid = (
    ground (arith, valid),
    is_none-none i.revoked_at (ground (arith, valid)),
    same_text-some i.push_token_hash d.token_hash_snapshot (ground (arith, valid)),
    (ground (arith, valid), p, refl, ground (arith, valid)),
  )

  Ready-IsSendable :
      (k : ℕ) (d : PushDelivery) (o : Outbox) (n : Notification) (i : AppInstallation)
      → delivery_row k o ≡ some d
      → Ready env d o n i
      → IsSendable k o
  unfolding lock_user_installation IsSendable
  Ready-IsSendable k d o n i row ready =
      let (stands, named) = first-Mem _ o.installations i ready.installed in
      let (owner, live, token, allowed) =
        is_deliverable-facts n i (user_preference n.user_id o) d ready.valid in
      let noted =
        find_row-key (λ (x : Notification). x.id) d.notification_id o.notifications n
          ready.notified in
      (
        d,
        n,
        row,
        ready.notified,
        (i, stands, owner, live, token, ground (arith, named), sym noted),
        allowed,
      )

  -- When the worker answers that a delivery was sent, the delivery stood in the outbox with its
  -- notification, push was on for the system and for the recipient, and the delivery was for an
  -- installation of the recipient that is not revoked and whose present token has the delivery's
  -- hash.
  pub sent_only_IsSendable :
      (provider : PushProvider) (k : ℕ) (o : Outbox)
      → (process_push_delivery env provider k o).0 ≡ Outcome.left DeliveryStatus.sent
      → IsSendable k o
  unfolding process_push_delivery drop_token cancelled_delivery
  sent_only_IsSendable provider k o = elim (Option-cases (delivery_row k o)) [
    | inl e ↦ rw (process_push_delivery, e) (λ sent. ground (arith, sent))
    | inr (d, e) ↦
        rw (process_push_delivery, e)
          (elim (Bool-cases (is_processing d.status)) [
            | inr idle ↦ rw idle (λ sent. ground (arith, sent))
            | inl at ↦ rw at (
                process-cases env provider d o
                  (λ r. r.0 ≡ Outcome.left DeliveryStatus.sent → IsSendable k o)
                  (λ code sent. absurd (retry_not_sent code (counted env provider d o) sent))
                  (λ i code sent. ground (arith, sent)) (λ sent. ground (arith, sent))
                  (λ n i m ready sent. Ready-IsSendable k d o n i e ready))
          ])
  ]
