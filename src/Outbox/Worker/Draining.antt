-- ===== src/Outbox/Worker/Draining.antt =====
-- A run of the worker: the claim of the due deliveries and the loop over the claimed ones.
use enactspace.Shared.{
  ℕ, zero, suc, ◌≡◌, refl, sym, Bool, true, false, some, List, [], ◌∷◌, map, arith, ◌==◌, mem_id,
  inl, inr, Bool-cases, Option-cases, ◌&&◌, ◌||◌, leb,
}
use enactspace.Shared.Env.{Env}
use enactspace.Shared.Table.{take, All, find_row, select, Unique}
use enactspace.Shared.Table.Laws.{All-select, select-All, find_row_self}
use enactspace.Shared.Table.Loaded.{Stored-self}
use enactspace.Shared.Table.Aligned.{Aligned, Aligned-row, Aligned-amend_of}
use enactspace.Outbox.Models.{PushDelivery, DeliveryStatus, Outbox}
use enactspace.Outbox.Lifecycle.{is_unsent}
use enactspace.Outbox.Worker.{
  PushProvider, claimable, claim_push_deliveries, claimed, insert_due, order_due, due_before,
  process_push_delivery, process_all, drain_push_deliveries, delivery_row, is_processing,
  is_waiting, lease_expired,
}
use enactspace.Outbox.Worker.Diagram.{
  claim_new, claim_again, take_over, Leads, here, next, Follows, Follows-refl, Follows-trans,
  Leads-final, processes,
}

abbrev key : PushDelivery → ℕ
key d = d.id

module _ (P : PushDelivery → Type 0) where
  All-insert_due :
      (d : PushDelivery) (ds : List PushDelivery) → P d → All P ds → All P (insert_due d ds)
  unfolding insert_due
  All-insert_due d [] h hs = (h, tt)
  All-insert_due d (x ∷ xs) h hs = elim (Bool-cases (due_before x d)) [
    | inl e ↦ rw e (hs.0, All-insert_due d xs h hs.1)
    | inr e ↦ rw e (h, hs)
  ]

  All-order_due : (ds : List PushDelivery) → All P ds → All P (order_due ds)
  unfolding order_due
  All-order_due [] h = tt
  All-order_due (d ∷ ds) h = All-insert_due d (order_due ds) h.0 (All-order_due ds h.1)

  All-take : (n : ℕ) (ds : List PushDelivery) → All P ds → All P (take n ds)
  unfolding take
  All-take zero ds h = tt
  All-take (suc n) [] h = tt
  All-take (suc n) (d ∷ ds) h = (h.0, All-take n ds h.1)

  pub All-chosen :
      (limit : ℕ) (p : PushDelivery → Bool) (ds : List PushDelivery)
      → All P (select p ds)
      → All P (take limit (order_due (select p ds)))
  All-chosen limit p ds h = All-take limit (order_due (select p ds)) (All-order_due (select p ds) h)

pub is_busy : (s : DeliveryStatus) → is_processing s ≡ true → s ≡ DeliveryStatus.processing
is_busy DeliveryStatus.processing h = refl
is_busy DeliveryStatus.pending h = ground (arith, h)
is_busy DeliveryStatus.sent h = ground (arith, h)
is_busy DeliveryStatus.retry h = ground (arith, h)
is_busy DeliveryStatus.cancelled h = ground (arith, h)
is_busy DeliveryStatus.dead h = ground (arith, h)

-- A claimed row is one of the rows that were claimable.
named_is_claimable :
    (now : ℕ) (t cs : List PushDelivery) (x : PushDelivery)
    → All (λ c. find_row key c.id t ≡ some c) cs
    → All (λ c. claimable now c ≡ true) cs
    → find_row key x.id t ≡ some x
    → mem_id x.id (map key cs) ≡ true
    → claimable now x ≡ true
unfolding mem_id
named_is_claimable now t [] x stored fit at named = ground (arith, named)
named_is_claimable now t (c ∷ cs) x stored fit at named = elim (Bool-cases (x.id == c.id)) [
  | inl hit ↦ let same : c ≡ x = ground (arith, hit, stored.0, at) in rw (sym same) fit.0
  | inr miss ↦ named_is_claimable now t cs x stored.1 fit.1 at (ground (arith, miss, named))
]

due-Leads :
    (due late : Bool) (s : DeliveryStatus)
    → is_waiting s && due || is_processing s && late ≡ true
    → Leads s DeliveryStatus.processing
due-Leads due late DeliveryStatus.pending h = next here claim_new
due-Leads due late DeliveryStatus.processing h = next here take_over
due-Leads due late DeliveryStatus.retry h = next here claim_again
due-Leads due late DeliveryStatus.sent h = ground (arith, h)
due-Leads due late DeliveryStatus.cancelled h = ground (arith, h)
due-Leads due late DeliveryStatus.dead h = ground (arith, h)

-- Every row that a claim writes was claimable.
pub claim-Aligned :
    (R : PushDelivery → PushDelivery → Type 0) (limit now : ℕ) (o : Outbox)
    → ((x : PushDelivery) → R x x)
    → ((x : PushDelivery) → claimable now x ≡ true → R x (claimed now x))
    → Unique key o.deliveries
    → Aligned key R o.deliveries (claim_push_deliveries limit now o).1.deliveries
unfolding claim_push_deliveries
claim-Aligned R limit now o same writes unique =
    let t = o.deliveries in
    let stored = Stored-self key t unique in
    let cs = take limit (order_due (select (claimable now) t)) in
    Aligned-amend_of key R same (λ d. mem_id d.id (map key cs)) (claimed now) t (λ x. refl)
      (λ x at named. writes x (
        named_is_claimable now t cs x
          (All-chosen (λ c. find_row key c.id t ≡ some c) limit (claimable now) t
            (All-select _ (claimable now) t stored))
          (All-chosen (λ c. claimable now c ≡ true) limit (claimable now) t
            (select-All (claimable now) t))
          at named))
      t stored

pub claim-Follows :
    (limit now : ℕ) (o : Outbox)
    → Unique key o.deliveries
    → Follows o.deliveries (claim_push_deliveries limit now o).1.deliveries
unfolding claim_push_deliveries claimable
claim-Follows limit now o unique =
    claim-Aligned (λ x y. Leads x.status y.status) limit now o (λ x. here)
      (λ x due.
        due-Leads (leb x.next_attempt_at now) (lease_expired now x.processing_started_at) x.status
          due)
      unique

module _ (env : Env) (provider : PushProvider) where
  pub process-Follows :
      (k : ℕ) (o : Outbox)
      → Follows o.deliveries (process_push_delivery env provider k o).1.deliveries
  unfolding process_push_delivery
  process-Follows k o = elim (Option-cases (delivery_row k o)) [
    | inl e ↦ rw (process_push_delivery, e) (Follows-refl o.deliveries)
    | inr (d, e) ↦
        rw (process_push_delivery, e)
          (elim (Bool-cases (is_processing d.status)) [
            | inl busy ↦ rw busy (
                processes env provider d o (find_row_self key k o.deliveries d e)
                  (is_busy d.status busy))
            | inr idle ↦ rw idle (Follows-refl o.deliveries)
          ])
  ]

  process_all-Follows :
      (ks : List ℕ) (o : Outbox) → Follows o.deliveries (process_all env provider ks o).deliveries
  unfolding process_all
  process_all-Follows [] o = Follows-refl o.deliveries
  process_all-Follows (k ∷ ks) o =
      let o' = (process_push_delivery env provider k o).1 in
      Follows-trans o.deliveries o'.deliveries (process_all env provider ks o').deliveries
        (process-Follows k o) (process_all-Follows ks o')

  -- A run of the push worker, with any provider, is a sequence of steps of the delivery diagram: the
  -- rows keep their keys and places, and each row's status is one that the diagram leads to from its
  -- old one. Deliveries have distinct identifiers.
  pub drain-Follows :
      (limit : ℕ) (o : Outbox)
      → Unique key o.deliveries
      → Follows o.deliveries (drain_push_deliveries env provider limit o).1.deliveries
  unfolding drain_push_deliveries
  drain-Follows limit o unique =
      let (ids, o') = claim_push_deliveries limit env.utcnow o in
      Follows-trans o.deliveries o'.deliveries (process_all env provider ids o').deliveries
        (claim-Follows limit env.utcnow o unique) (process_all-Follows ids o')

  -- A delivery that is sent, dead or cancelled still stands with that status after a run of the push
  -- worker. Deliveries have distinct identifiers.
  pub drain_final :
      (limit k : ℕ) (o : Outbox) (d : PushDelivery)
      → Unique key o.deliveries
      → delivery_row k o ≡ some d
      → is_unsent d.status ≡ false
      → (d' : PushDelivery) × (delivery_row k (drain_push_deliveries env provider limit o).1
          ≡ some d')
        × (d'.status ≡ d.status)
  drain_final limit k o d unique found final =
      let (d', found', leads) =
        Aligned-row key _ k d o.deliveries (drain_push_deliveries env provider limit o).1.deliveries
          (drain-Follows limit o unique) found in
      (d', found', Leads-final leads final)
