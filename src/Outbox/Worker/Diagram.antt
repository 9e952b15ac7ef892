-- ===== src/Outbox/Worker/Diagram.antt =====
-- The state diagram of a push delivery, which the worker and the cancellations follow.
use enactspace.Shared.{
  ℕ, ◌+◌, ◌≡◌, refl, true, false, Option, none, some, List, arith, inl, inr, Bool-cases, String,
  leb,
}
use enactspace.Shared.Env.{Env}
use enactspace.Shared.Table.{find_row, save_row}
use enactspace.Shared.Table.Aligned.{
  Aligned, Aligned-refl, Aligned-trans, Aligned-amend, Aligned-save,
}
use enactspace.Outbox.Models.{AppInstallation, PushDelivery, DeliveryStatus, Outbox}
use enactspace.Outbox.Lifecycle.{
  is_unsent, cancelled_delivery, is_cancelled_by, cancel_unsent_deliveries, clear_installation_push,
}
use enactspace.Outbox.Worker.Cases.{process-cases}
use enactspace.Outbox.Worker.{
  PushProvider, retry_delivery, drop_token, process_claimed, left_as, cancel_delivery,
  sent_delivery,
}

-- One write of a delivery's status.
pub data Moves : DeliveryStatus → DeliveryStatus → Type 0 where
  claim_new : Moves DeliveryStatus.pending DeliveryStatus.processing
  claim_again : Moves DeliveryStatus.retry DeliveryStatus.processing
  take_over : Moves DeliveryStatus.processing DeliveryStatus.processing
  deliver : Moves DeliveryStatus.processing DeliveryStatus.sent
  put_off : Moves DeliveryStatus.processing DeliveryStatus.retry
  give_up : Moves DeliveryStatus.processing DeliveryStatus.dead
  withdraw : {s : DeliveryStatus} → is_unsent s ≡ true → Moves s DeliveryStatus.cancelled

pub data Leads (s : DeliveryStatus) : DeliveryStatus → Type 0 where
  here : Leads s s
  next : {t u : DeliveryStatus} → Leads s t → Moves t u → Leads s u

once : {s t : DeliveryStatus} → Moves s t → Leads s t
once m = next here m

Leads-trans : {s t u : DeliveryStatus} → Leads s t → Leads t u → Leads s u
Leads-trans a here = a
Leads-trans a (next b m) = next (Leads-trans a b) m

-- The rows stand in the same order, each at a status that its old one leads to.
abbrev pub Follows : List PushDelivery → List PushDelivery → Type 0
Follows = Aligned (λ (d : PushDelivery). d.id) (λ x y. Leads x.status y.status)

pub Follows-refl : (xs : List PushDelivery) → Follows xs xs
Follows-refl = Aligned-refl _ _ (λ x. here)

pub Follows-trans : (xs ys zs : List PushDelivery) → Follows xs ys → Follows ys zs → Follows xs zs
Follows-trans = Aligned-trans _ _ (λ x y z. Leads-trans)

Moves-unsent : {s t : DeliveryStatus} → Moves s t → is_unsent s ≡ true
Moves-unsent claim_new = refl
Moves-unsent claim_again = refl
Moves-unsent take_over = refl
Moves-unsent deliver = refl
Moves-unsent put_off = refl
Moves-unsent give_up = refl
Moves-unsent (withdraw h) = h

pub Leads-final : {s t : DeliveryStatus} → Leads s t → is_unsent s ≡ false → t ≡ s
Leads-final here final = refl
Leads-final (next leads m) final =
    let same = Leads-final leads final in
    let unsent = Moves-unsent m in ground (arith, same, unsent, final)

-- The operations of the outbox.
module _ (env : Env) where
  cancels :
      (installation_id user_id : Option ℕ) (token_hash : Option String) (o : Outbox)
      → Follows o.deliveries
          (cancel_unsent_deliveries env installation_id user_id token_hash o).1.deliveries
  unfolding cancel_unsent_deliveries
  cancels installation_id user_id token_hash o =
      Aligned-amend _ _ (λ x. here)
        (is_cancelled_by env installation_id user_id token_hash o.installations)
        (cancelled_delivery env) (λ x. unfold cancelled_delivery in refl)
        (λ x hit.
          unfold cancelled_delivery is_cancelled_by in
          once {s = x.status} (withdraw (ground (arith, hit))))
        o.deliveries

  clears :
      (i : AppInstallation) (o : Outbox)
      → Follows o.deliveries (clear_installation_push env i o).1.deliveries
  unfolding clear_installation_push
  clears i o = cancels (some i.id) none none o

  pub retry_id : (code : String) (d : PushDelivery) → (retry_delivery env code d).id ≡ d.id
  unfolding retry_delivery
  retry_id code d = elim (Bool-cases (leb 5 d.attempt_count)) [
    | inl over ↦ rw over refl
    | inr more ↦ rw more refl
  ]

  module _ (provider : PushProvider) (d : PushDelivery) (o : Outbox)
      (found : find_row (λ (x : PushDelivery). x.id) d.id o.deliveries ≡ some d)
      (busy : d.status ≡ DeliveryStatus.processing) where
    leaves :
        (d' : PushDelivery)
        → d'.id ≡ d.id
        → Leads d.status d'.status
        → Follows o.deliveries (save_row (λ (x : PushDelivery). x.id) d' o.deliveries)
    leaves d' same leads =
        Aligned-save _ _ d d' o.deliveries o.deliveries (rw same found) leads
          (Follows-refl o.deliveries)

    finishes : (t : DeliveryStatus) → Moves DeliveryStatus.processing t → Leads d.status t
    finishes t m = rw busy (once m)

    retries :
        (code : String) (n : ℕ)
        → Leads d.status (retry_delivery env code (record d { attempt_count = n })).status
    unfolding retry_delivery
    retries code n = elim (Bool-cases (leb 5 n)) [
      | inl over ↦ rw over (finishes DeliveryStatus.dead give_up)
      | inr more ↦ rw more (finishes DeliveryStatus.retry put_off)
    ]

    puts_off :
        (code : String)
        → Follows o.deliveries
            (left_as env
              (retry_delivery env code (record d { attempt_count = d.attempt_count + 1 }))
              o).1.deliveries
    puts_off code =
        let counted = record d { attempt_count = d.attempt_count + 1 } in
        leaves (record (retry_delivery env code counted) { updated_at = env.utcnow })
          (retry_id code counted) (retries code (d.attempt_count + 1))

    drops :
        (i : AppInstallation) (code : String)
        → Follows o.deliveries (drop_token env i code d o).1.deliveries
    unfolding drop_token
    drops i code =
        let o₁ = (clear_installation_push env i o).1 in
        let o₂ = (cancel_unsent_deliveries env none none (some d.token_hash_snapshot) o₁).1 in
        Aligned-save _ _ d _ o.deliveries o₂.deliveries found (finishes DeliveryStatus.dead give_up)
          (Follows-trans o.deliveries o₁.deliveries o₂.deliveries (clears i o)
            (cancels none none (some d.token_hash_snapshot) o₁))

    withdraws : Follows o.deliveries (cancel_delivery env d o).1.deliveries
    unfolding cancelled_delivery
    withdraws = leaves _ refl (finishes DeliveryStatus.cancelled (withdraw refl))

    pub processes : Follows o.deliveries (process_claimed env provider d o).1.deliveries
    unfolding sent_delivery
    processes =
        process-cases env provider d o (λ r. Follows o.deliveries r.1.deliveries) puts_off drops
          withdraws (λ n i m ready. leaves _ refl (finishes DeliveryStatus.sent deliver))
