-- ===== src/Outbox/Deliveries.antt =====
-- What `enqueue_push_deliveries` adds to the push outbox.
use mathlib.Core.List.{Mem, mem-cons_self, mem-cons_of_mem, append_assoc, append-nil}
use text.Mathlib.TextEquality.{eq_iff}
use enactspace.Shared.{
  ℕ, ◌+◌, ◌≡◌, refl, sym, String, Bool, true, false, Option, none, some, List, [], ◌∷◌, ◌++◌, arith,
  ◌==◌, str_eq, inl, inr, Option-cases, Bool-cases,
}
use enactspace.Shared.Env.{Env}
use enactspace.Shared.Table.{All, first, length}
use enactspace.Shared.Table.Laws.{All-select, select-All, All-and, All-append}
use enactspace.Shared.Table.Loaded.{All-order_by}
use enactspace.Outbox.Models.{
  Notification, UserPreference, AppInstallation, PushDelivery, Outbox, flush_notifications,
}
use enactspace.Outbox.Push.{
  lock_user_installations, push_target, delivers, new_delivery, enqueue_one, enqueue_all,
  enqueue_push_deliveries,
}

-- No notification is queued twice for one installation and token.
abbrev pub DeliversOnce : List PushDelivery → Type 0
DeliversOnce [] = Unit
DeliversOnce (d ∷ ds) =
    (first (delivers d.notification_id d.installation_id d.token_hash_snapshot) ds ≡ none)
    × DeliversOnce ds

-- The delivery is for the notification, and for an installation of its recipient that is not revoked
-- and whose present token it holds.
abbrev pub IsAddressed : Notification → List AppInstallation → PushDelivery → Type 0
IsAddressed n installations d =
    (i : AppInstallation) × Mem i installations
    × (i.user_id ≡ n.user_id)
    × (i.revoked_at ≡ none)
    × (i.push_token_hash ≡ some d.token_hash_snapshot)
    × (d.installation_id ≡ i.id)
    × (d.notification_id ≡ n.id)

first-append_none :
    {A : Type 0} (p : A → Bool) (xs : List A) (x : A)
    → first p xs ≡ none
    → p x ≡ false
    → first p (xs ++ x ∷ []) ≡ none
unfolding first
first-append_none p [] x e f = rw f refl
first-append_none p (y ∷ ys) x e f = ground (arith, first-append_none p ys x)

str_eq-sym : (s t : String) → str_eq s t ≡ true → str_eq t s ≡ true
str_eq-sym s t e = let same = (eq_iff s t).0 e in (eq_iff t s).1 (sym same)

abbrev repeats : PushDelivery → PushDelivery → Bool
repeats x = delivers x.notification_id x.installation_id x.token_hash_snapshot

repeats-sym : (x d : PushDelivery) → repeats d x ≡ false → repeats x d ≡ false
repeats-sym x d e = ground (
  arith,
  str_eq-sym x.token_hash_snapshot d.token_hash_snapshot,
  str_eq-sym d.token_hash_snapshot x.token_hash_snapshot,
)

append-DeliversOnce :
    (ds : List PushDelivery) (d : PushDelivery)
    → first (repeats d) ds ≡ none
    → DeliversOnce ds
    → DeliversOnce (ds ++ d ∷ [])
unfolding first
append-DeliversOnce [] d e h = (refl, tt)
append-DeliversOnce (x ∷ xs) d e h = elim (Bool-cases (repeats d x)) [
  | inl same ↦ ground (arith, same)
  | inr differs ↦ (
    first-append_none (repeats x) xs d h.0 (repeats-sym x d differs),
    append-DeliversOnce xs d (ground (arith, differs)) h.1,
  )
]

push_target-token :
    (i : AppInstallation) (t : String)
    → push_target i ≡ some t
    → (i.revoked_at ≡ none) × (i.push_token_hash ≡ some t)
unfolding push_target
push_target-token i t e = elim (Option-cases i.revoked_at) [
  | inl live ↦ (live, ground arith)
  | inr (at, revoked) ↦ ground (arith, revoked)
]

-- What a run of the loop added to the deliveries `ds` that were there.
pub record Queued (n : Notification) (installations : List AppInstallation) (ds : List PushDelivery)
    (acc : ℕ × Outbox) : Type 0 where
  pub added : List PushDelivery
  pub appended : acc.1.deliveries ≡ ds ++ added
  pub counted : acc.0 ≡ length added
  pub addressed : All (IsAddressed n installations) added
  pub once : DeliversOnce acc.1.deliveries

length-append : {A : Type 0} (xs : List A) (x : A) → length (xs ++ x ∷ []) ≡ length xs + 1
length-append [] x = refl
length-append (y ∷ ys) x = ground (arith, length-append ys x)

module _ (env : Env) (n : Notification) (installations : List AppInstallation)
    (ds : List PushDelivery) where
  enqueue_one-Queued :
      (i : AppInstallation) (acc : ℕ × Outbox)
      → Mem i installations
      → i.user_id ≡ n.user_id
      → Queued n installations ds acc
      → Queued n installations ds (enqueue_one env n i acc)
  unfolding enqueue_one new_delivery
  enqueue_one-Queued i (queued, o) here owner q = elim (Option-cases (push_target i)) [
    | inl none_sent ↦ rw (enqueue_one, none_sent) q
    | inr (token, target) ↦
        let (live, present) = push_target-token i token target in
        let d = new_delivery env n o.drawn i token in
        rw (enqueue_one, target)
          (elim (Option-cases (first (delivers n.id i.id token) o.deliveries)) [
            | inr (earlier, found) ↦ rw found q
            | inl fresh ↦ rw fresh (record {
              added = q.added ++ d ∷ [];
              appended = rw q.appended (append_assoc ds q.added (d ∷ []));
              counted = rw (length-append q.added d, q.counted) refl;
              addressed =
                  All-append (IsAddressed n installations) q.added d q.addressed
                    (i, here, owner, live, present, refl, refl);
              once = append-DeliversOnce o.deliveries d fresh q.once;
            })
          ])
  ]

  enqueue_all-Queued :
      (is : List AppInstallation) (acc : ℕ × Outbox)
      → All (λ i. Mem i installations × (i.user_id ≡ n.user_id)) is
      → Queued n installations ds acc
      → Queued n installations ds (enqueue_all env n is acc)
  unfolding enqueue_all
  enqueue_all-Queued [] acc h q = q
  enqueue_all-Queued (i ∷ is) acc h q =
      enqueue_all-Queued is (enqueue_one env n i acc) h.1 (enqueue_one-Queued i acc h.0.0 h.0.1 q)

All-self : {A : Type 0} (P : A → Type 0) (xs : List A) → ((x : A) → Mem x xs → P x) → All P xs
All-self P [] f = tt
All-self P (x ∷ xs) f = (f x mem-cons_self, All-self P xs (λ y m. f y (mem-cons_of_mem x m)))

locked-owned :
    (o : Outbox) (u : ℕ)
    → All (λ i. Mem i o.installations × (i.user_id ≡ u)) (lock_user_installations u o)
unfolding lock_user_installations
locked-owned o u =
    All-order_by (λ (i : AppInstallation). i.id) _ _
      (All-and (λ (i : AppInstallation). (i.user_id == u) ≡ true) (λ i. Mem i o.installations) _ _
        (λ i e m. (m, ground arith))
        (select-All (λ (i : AppInstallation). i.user_id == u) o.installations)
        (All-select (λ i. Mem i o.installations) (λ (i : AppInstallation). i.user_id == u)
          o.installations (All-self (λ i. Mem i o.installations) o.installations (λ x m. m))))

-- before the loop, nothing is queued
Queued-start :
    (n : Notification) (o : Outbox)
    → DeliversOnce o.deliveries
    → Queued n o.installations o.deliveries (0, o)
Queued-start n o once = record {
  added = [];
  appended = sym (append-nil o.deliveries);
  counted = refl;
  addressed = tt;
  once = once;
}

-- Where no delivery stands twice, a notification's deliveries are appended, as many as the count
-- says, each for an installation of the recipient that is not revoked and holds that token, and
-- still no delivery stands twice.
pub enqueue-Queued :
    (env : Env) (n : Notification) (preference : Option UserPreference) (o : Outbox)
    → DeliversOnce o.deliveries
    → Queued n o.installations o.deliveries (enqueue_push_deliveries env n preference o)
unfolding enqueue_push_deliveries flush_notifications
enqueue-Queued env n preference o once =
    let start = Queued-start n o once in
    let flushed = Queued-start n (flush_notifications o) once in
    let loop =
      enqueue_all-Queued env n o.installations o.deliveries (lock_user_installations n.user_id o)
        (0, flush_notifications o) (locked-owned o n.user_id) flushed in
    ground (arith, loop, start, flushed)
