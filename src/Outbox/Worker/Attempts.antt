-- ===== src/Outbox/Worker/Attempts.antt =====
-- How often a delivery is tried.
use enactspace.Shared.{
  ℕ, ◌+◌, ◌-◌, ◌≤◌, ◌<◌, ◌≡◌, refl, ap, true, Option, none, some, List, [], ◌∷◌, arith, ◌==◌, leb,
  inl, inr, Bool-cases, if◌then◌else◌, String,
}
use enactspace.Shared.Env.{Env}
use enactspace.Shared.Table.{find_row, save_row, sum_by}
use enactspace.Shared.Table.Aligned.{Aligned, Aligned-refl, Aligned-trans, Aligned-amend}
use enactspace.Outbox.Worker.Diagram.{retry_id}
use enactspace.Outbox.Models.{AppInstallation, PushDelivery, DeliveryStatus, Outbox}
use enactspace.Outbox.Lifecycle.{
  is_unsent, cancelled_delivery, is_cancelled_by, cancel_unsent_deliveries, clear_installation_push,
}
use enactspace.Outbox.Worker.Cases.{process-cases, counted}
use enactspace.Outbox.Worker.{
  PushProvider, retry_delivery, drop_token, sent_delivery, process_claimed,
}

-- The tries that are left of an unsent delivery.
unfoldable pub tries_left : PushDelivery → ℕ
tries_left d = if is_unsent d.status then 5 - d.attempt_count else 0

-- An unsent delivery was tried fewer than five times, every other at most five times.
unfoldable pub IsCounted : PushDelivery → Type 0
IsCounted d = (d.attempt_count ≤ 5) × (is_unsent d.status ≡ true → d.attempt_count < 5)

-- After a write no row has more tries left.
abbrev pub Eases : List PushDelivery → List PushDelivery → Type 0
Eases = Aligned (λ (d : PushDelivery). d.id) (λ x y. tries_left y ≤ tries_left x)

pub Eases-sum :
    (xs ys : List PushDelivery) → Eases xs ys → sum_by tries_left ys ≤ sum_by tries_left xs
unfolding sum_by
Eases-sum [] [] f = omega arith
Eases-sum [] (y ∷ ys) f = absurd f
Eases-sum (x ∷ xs) [] f = absurd f
Eases-sum (x ∷ xs) (y ∷ ys) f = omega (arith, f.1, Eases-sum xs ys f.2)

-- One row has a try less, and the others no more.
save-lowers :
    (d d' : PushDelivery) (xs ys : List PushDelivery)
    → find_row (λ (x : PushDelivery). x.id) d'.id xs ≡ some d
    → tries_left d' < tries_left d
    → Eases xs ys
    → sum_by tries_left (save_row (λ (x : PushDelivery). x.id) d' ys) < sum_by tries_left xs
unfolding find_row save_row sum_by
save-lowers d d' [] ys found less f = ground (arith, found)
save-lowers d d' (x ∷ xs) [] found less f = absurd f
save-lowers d d' (x ∷ xs) (y ∷ ys) found less f = elim (Bool-cases (y.id == d'.id)) [
  | inl hit ↦
      let same : x ≡ d = ground (arith, hit, f.0, found) in
      let kept : tries_left x ≡ tries_left d = ap tries_left same in
      rw hit (omega (arith, kept, less, Eases-sum xs ys f.2))
  | inr miss ↦
      let rest : find_row (λ (z : PushDelivery). z.id) d'.id xs ≡ some d =
        ground (arith, miss, f.0, found) in
      rw miss (omega (arith, f.1, save-lowers d d' xs ys rest less f.2))
]

module _ (env : Env) where
  cancels-Eases :
      (installation_id user_id : Option ℕ) (token_hash : Option String) (o : Outbox)
      → Eases o.deliveries
          (cancel_unsent_deliveries env installation_id user_id token_hash o).1.deliveries
  unfolding cancel_unsent_deliveries cancelled_delivery tries_left
  cancels-Eases installation_id user_id token_hash o =
      Aligned-amend _ _ (λ x. omega arith)
        (is_cancelled_by env installation_id user_id token_hash o.installations)
        (cancelled_delivery env) (λ x. refl) (λ x hit. omega arith) o.deliveries

  -- `process_push_delivery` of a row that is being processed takes a try.
  module _ (provider : PushProvider) (d : PushDelivery) (o : Outbox)
      (found : find_row (λ (x : PushDelivery). x.id) d.id o.deliveries ≡ some d)
      (busy : d.status ≡ DeliveryStatus.processing) (fewer : d.attempt_count < 5) where
    had : tries_left d ≡ 5 - d.attempt_count
    unfolding tries_left
    had = rw busy refl

    lowers :
        (d' : PushDelivery)
        → d'.id ≡ d.id
        → tries_left d' < tries_left d
        → sum_by tries_left (save_row (λ (x : PushDelivery). x.id) d' o.deliveries)
          < sum_by tries_left o.deliveries
    lowers d' same less =
        save-lowers d d' o.deliveries o.deliveries (rw same found) less
          (Aligned-refl _ _ (λ x. omega arith) o.deliveries)

    retries :
        (code : String)
        → tries_left (retry_delivery env code (counted env provider d o)) < tries_left d
    unfolding retry_delivery tries_left
    retries code = elim (Bool-cases (leb 5 (d.attempt_count + 1))) [
      | inl over ↦ rw over (omega (arith, had, fewer))
      | inr more ↦ rw more (omega (arith, had, fewer))
    ]

    drops :
        (i : AppInstallation) (code : String)
        → sum_by tries_left (drop_token env i code d o).1.deliveries
          < sum_by tries_left o.deliveries
    unfolding drop_token clear_installation_push tries_left
    drops i code =
        let o₁ = (clear_installation_push env i o).1 in
        let o₂ = (cancel_unsent_deliveries env none none (some d.token_hash_snapshot) o₁).1 in
        save-lowers d _ o.deliveries o₂.deliveries found (omega (arith, had, fewer)) (
          Aligned-trans _ _ (λ x y z p q. omega (arith, p, q)) o.deliveries o₁.deliveries
            o₂.deliveries (cancels-Eases (some i.id) none none o)
            (cancels-Eases none none (some d.token_hash_snapshot) o₁))

    pub processes :
        sum_by tries_left (process_claimed env provider d o).1.deliveries
        < sum_by tries_left o.deliveries
    unfolding sent_delivery cancelled_delivery tries_left retry_delivery
    processes =
        process-cases env provider d o
          (λ r. sum_by tries_left r.1.deliveries < sum_by tries_left o.deliveries)
          (λ code.
            lowers
              (record (retry_delivery env code (counted env provider d o)) {
                updated_at = env.utcnow;
              })
              (retry_id env code (counted env provider d o)) (retries code))
          drops (lowers _ refl (omega (arith, had, fewer)))
          (λ n i m ready. lowers _ refl (omega (arith, had, fewer)))
