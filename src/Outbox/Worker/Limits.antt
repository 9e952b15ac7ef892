-- ===== src/Outbox/Worker/Limits.antt =====
-- No delivery is tried more than five times, over all the runs of the worker.
use enactspace.Shared.{
  ℕ, ◌+◌, ◌*◌, ◌&&◌, ◌||◌, ◌≤◌, ◌<◌, ◌≡◌, refl, Bool, true, Option, none, some, List, [], ◌∷◌,
  arith, leb, inl, inr, Bool-cases, Option-cases, String,
}
use enactspace.Shared.Env.{Env}
use enactspace.Shared.Table.{All, find_row, save_row, sum_by, Unique, length}
use enactspace.Shared.Table.Laws.{find_row_self, All-find}
use enactspace.Shared.Table.Aligned.{
  Aligned, Aligned-refl, Aligned-trans, Aligned-amend, Aligned-save, Aligned-All, Aligned-Unique,
}
use enactspace.Outbox.Models.{AppInstallation, PushDelivery, DeliveryStatus, Outbox}
use enactspace.Outbox.Lifecycle.{
  is_unsent, cancelled_delivery, is_cancelled_by, cancel_unsent_deliveries, clear_installation_push,
}
use enactspace.Outbox.Worker.{
  PushProvider, Outcome, ignored, left, retry_delivery, sent_delivery, drop_token, process_claimed,
  process_push_delivery, process_all, claimable, is_waiting, lease_expired, is_processing,
  claim_push_deliveries, drain_push_deliveries, delivery_row,
}
use enactspace.Outbox.Worker.Cases.{process-cases, counted}
use enactspace.Outbox.Worker.Diagram.{retry_id}
use enactspace.Outbox.Worker.Draining.{claim-Aligned, drain-Follows, is_busy}
use enactspace.Outbox.Worker.Attempts.{tries_left, IsCounted, Eases, Eases-sum, processes}

abbrev key : PushDelivery → ℕ
key d = d.id

abbrev Keeps : List PushDelivery → List PushDelivery → Type 0
Keeps = Aligned key (λ x y. IsCounted x → IsCounted y)

Keeps-trans : (xs ys zs : List PushDelivery) → Keeps xs ys → Keeps ys zs → Keeps xs zs
Keeps-trans = Aligned-trans key _ (λ x y z f g h. g (f h))

module _ (env : Env) where
  cancels-Keeps :
      (installation_id user_id : Option ℕ) (token_hash : Option String) (o : Outbox)
      → Keeps o.deliveries
          (cancel_unsent_deliveries env installation_id user_id token_hash o).1.deliveries
  unfolding cancel_unsent_deliveries cancelled_delivery IsCounted
  cancels-Keeps installation_id user_id token_hash o =
      Aligned-amend key _ (λ x h. h)
        (is_cancelled_by env installation_id user_id token_hash o.installations)
        (cancelled_delivery env) (λ x. refl) (λ x hit h. (h.0, λ unsent. ground (arith, unsent)))
        o.deliveries

  module _ (provider : PushProvider) (d : PushDelivery) (o : Outbox)
      (found : find_row key d.id o.deliveries ≡ some d)
      (busy : d.status ≡ DeliveryStatus.processing) where
    saves :
        (d' : PushDelivery)
        → d'.id ≡ d.id
        → (IsCounted d → IsCounted d')
        → Keeps o.deliveries (save_row key d' o.deliveries)
    saves d' same keeps =
        Aligned-save key _ d d' o.deliveries o.deliveries (rw same found) keeps
          (Aligned-refl key _ (λ x h. h) o.deliveries)

    retried :
        (code : String)
        → IsCounted d
        → IsCounted (retry_delivery env code (counted env provider d o))
    unfolding retry_delivery IsCounted
    retried code h = elim (Bool-cases (leb 5 (d.attempt_count + 1))) [
      | inl over ↦ rw over (ground (arith, h, busy), λ unsent. ground (arith, unsent))
      | inr more ↦ rw more (ground (arith, more), λ unsent. ground (arith, more))
    ]

    dropped :
        (i : AppInstallation) (code : String)
        → Keeps o.deliveries (drop_token env i code d o).1.deliveries
    unfolding drop_token clear_installation_push IsCounted
    dropped i code =
        let o₁ = (clear_installation_push env i o).1 in
        let o₂ = (cancel_unsent_deliveries env none none (some d.token_hash_snapshot) o₁).1 in
        Aligned-save key _ d _ o.deliveries o₂.deliveries found
          (λ h. (h.0, λ unsent. ground (arith, unsent)))
          (Keeps-trans o.deliveries o₁.deliveries o₂.deliveries
            (cancels-Keeps (some i.id) none none o)
            (cancels-Keeps none none (some d.token_hash_snapshot) o₁))

    process-Keeps : Keeps o.deliveries (process_claimed env provider d o).1.deliveries
    unfolding sent_delivery cancelled_delivery IsCounted
    process-Keeps =
        process-cases env provider d o (λ r. Keeps o.deliveries r.1.deliveries)
          (λ code.
            saves
              (record (retry_delivery env code (counted env provider d o)) {
                updated_at = env.utcnow;
              })
              (retry_id env code (counted env provider d o)) (retried code))
          dropped (saves _ refl (λ h. (h.0, λ unsent. ground (arith, unsent))))
          (λ n i m ready.
            saves _ refl (λ h. (ground (arith, h, busy), λ unsent. ground (arith, unsent))))

-- a try of the worker, by what `process_push_delivery` answers
abbrev pub is_try : Outcome → ℕ
is_try ignored = 0
is_try (left s) = 1

is_try_le : (r : Outcome) → is_try r ≤ 1
is_try_le ignored = omega arith
is_try_le (left s) = omega arith

counted_fewer :
    (d : PushDelivery) → d.status ≡ DeliveryStatus.processing → IsCounted d → d.attempt_count < 5
unfolding IsCounted
counted_fewer d busy h = h.1 (rw busy refl)

module _ (env : Env) (provider : PushProvider) where
  -- the deliveries that the loop of a run processes
  unfoldable pub tries : List ℕ → Outbox → ℕ
  tries [] o = 0
  tries (k ∷ ks) o =
      let (outcome, o') = process_push_delivery env provider k o in is_try outcome + tries ks o'

  process-costs :
      (k : ℕ) (o : Outbox)
      → All IsCounted o.deliveries
      → All IsCounted (process_push_delivery env provider k o).1.deliveries
        × (is_try (process_push_delivery env provider k o).0
              + sum_by tries_left (process_push_delivery env provider k o).1.deliveries
            ≤ sum_by tries_left o.deliveries)
  unfolding process_push_delivery
  process-costs k o held = elim (Option-cases (delivery_row k o)) [
    | inl e ↦ rw (process_push_delivery, e) (held, omega arith)
    | inr (d, e) ↦
        rw (process_push_delivery, e)
          (elim (Bool-cases (is_processing d.status)) [
            | inr idle ↦ rw idle (held, omega arith)
            | inl at ↦
                let busy = is_busy d.status at in
                let found = find_row_self key k o.deliveries d e in
                let fewer = counted_fewer d busy (All-find key IsCounted k o.deliveries d held e) in
                rw at (
                  Aligned-All key _ IsCounted (λ x y f. f) o.deliveries
                      (process_claimed env provider d o).1.deliveries
                      (process-Keeps env provider d o found busy) held,
                  omega (
                    arith,
                    is_try_le (process_claimed env provider d o).0,
                    processes env provider d o found busy fewer,
                  ),
                )
          ])
  ]

  tries-cost :
      (ks : List ℕ) (o : Outbox)
      → All IsCounted o.deliveries
      → All IsCounted (process_all env provider ks o).deliveries
        × (tries ks o + sum_by tries_left (process_all env provider ks o).deliveries
            ≤ sum_by tries_left o.deliveries)
  unfolding tries process_all
  tries-cost [] o held = (held, omega arith)
  tries-cost (k ∷ ks) o held =
      let (held', cost) = process-costs k o held in
      let (held'', costs) = tries-cost ks (process_push_delivery env provider k o).1 held' in
      (held'', omega (arith, cost, costs))

-- one run of the worker
pub record Run : Type 0 where
  pub env : Env
  pub provider : PushProvider
  pub limit : ℕ

abbrev pub drain : Run → Outbox → Outbox
drain r o = (drain_push_deliveries r.env r.provider r.limit o).1

-- the deliveries that a run processes
abbrev pub drain_tries : Run → Outbox → ℕ
drain_tries r o =
    let (ids, o') = claim_push_deliveries r.limit r.env.utcnow o in tries r.env r.provider ids o'

unfoldable pub all_tries : List Run → Outbox → ℕ
all_tries [] o = 0
all_tries (r ∷ rs) o = drain_tries r o + all_tries rs (drain r o)

unfoldable pub drains : List Run → Outbox → Outbox
drains [] o = o
drains (r ∷ rs) o = drains rs (drain r o)

due_unsent :
    (due late : Bool) (s : DeliveryStatus)
    → is_waiting s && due || is_processing s && late ≡ true
    → is_unsent s ≡ true
due_unsent due late DeliveryStatus.pending h = refl
due_unsent due late DeliveryStatus.processing h = refl
due_unsent due late DeliveryStatus.retry h = refl
due_unsent due late DeliveryStatus.sent h = ground (arith, h)
due_unsent due late DeliveryStatus.cancelled h = ground (arith, h)
due_unsent due late DeliveryStatus.dead h = ground (arith, h)

claimable_unsent : (now : ℕ) (d : PushDelivery) → claimable now d ≡ true → is_unsent d.status ≡ true
unfolding claimable
claimable_unsent now d =
    due_unsent (leb d.next_attempt_at now) (lease_expired now d.processing_started_at) d.status

module _ (limit now : ℕ) (o : Outbox) (unique : Unique key o.deliveries) where
  claim-Keeps : Keeps o.deliveries (claim_push_deliveries limit now o).1.deliveries
  unfolding IsCounted
  claim-Keeps =
      claim-Aligned _ limit now o (λ x h. h)
        (λ x due h. (h.0, λ unsent. h.1 (claimable_unsent now x due))) unique

  claim-Eases : Eases o.deliveries (claim_push_deliveries limit now o).1.deliveries
  unfolding tries_left
  claim-Eases =
      claim-Aligned _ limit now o (λ x. omega arith)
        (λ x due. rw (claimable_unsent now x due) (omega arith)) unique

drain-cost :
    (r : Run) (o : Outbox)
    → Unique key o.deliveries
    → All IsCounted o.deliveries
    → All IsCounted (drain r o).deliveries
      × (drain_tries r o + sum_by tries_left (drain r o).deliveries
          ≤ sum_by tries_left o.deliveries)
unfolding drain_push_deliveries
drain-cost r o unique held =
    let (ids, o') = claim_push_deliveries r.limit r.env.utcnow o in
    let held' =
      Aligned-All key _ IsCounted (λ x y f. f) o.deliveries o'.deliveries
        (claim-Keeps r.limit r.env.utcnow o unique) held in
    let (held'', costs) = tries-cost r.env r.provider ids o' held' in
    (
      held'',
      omega (
        arith,
        costs,
        Eases-sum o.deliveries o'.deliveries (claim-Eases r.limit r.env.utcnow o unique),
      ),
    )

drains-cost :
    (rs : List Run) (o : Outbox)
    → Unique key o.deliveries
    → All IsCounted o.deliveries
    → All IsCounted (drains rs o).deliveries
      × (all_tries rs o + sum_by tries_left (drains rs o).deliveries
          ≤ sum_by tries_left o.deliveries)
unfolding drains all_tries
drains-cost [] o unique held = (held, omega arith)
drains-cost (r ∷ rs) o unique held =
    let unique' =
      Aligned-Unique key _ o.deliveries (drain r o).deliveries
        (drain-Follows r.env r.provider r.limit o unique) unique in
    let (held', cost) = drain-cost r o unique held in
    let (held'', costs) = drains-cost rs (drain r o) unique' held' in
    (held'', omega (arith, cost, costs))

-- After any runs of the push worker, each unsent delivery was tried fewer than five times and every
-- other at most five times, if it was so before. Deliveries have distinct identifiers.
pub drains-IsCounted :
    (rs : List Run) (o : Outbox)
    → Unique key o.deliveries
    → All IsCounted o.deliveries
    → All IsCounted (drains rs o).deliveries
drains-IsCounted rs o unique held = (drains-cost rs o unique held).0

tries_left_max : (ds : List PushDelivery) → sum_by tries_left ds ≤ 5 * length ds
unfolding sum_by tries_left
tries_left_max [] = omega arith
tries_left_max (d ∷ ds) = ground (arith, tries_left_max ds)

-- However many runs the push worker makes, with any providers, times and limits, it processes at
-- most five deliveries for each row of the outbox. Deliveries have distinct identifiers, and at
-- first each unsent one was tried fewer than five times and every other at most five times.
pub all_tries-bounded :
    (rs : List Run) (o : Outbox)
    → Unique key o.deliveries
    → All IsCounted o.deliveries
    → all_tries rs o ≤ 5 * length o.deliveries
all_tries-bounded rs o unique held =
    omega (arith, (drains-cost rs o unique held).1, tries_left_max o.deliveries)
