-- ===== src/Outbox/Worker/Waits.antt =====
-- How long a delivery waits that the worker leaves for a retry.
use enactspace.Shared.{
  ℕ, zero, suc, ◌+◌, ◌*◌, ◌^◌, ◌<◌, ◌≡◌, refl, some, String, true, false, arith, leb, inl, inr,
  Bool-cases, ◌||◌, Bool,
}
use enactspace.Shared.Env.{Env}
use enactspace.Shared.Table.Laws.{find_row-key, find_row-save_self}
use enactspace.Outbox.Models.{PushDelivery, DeliveryStatus, Outbox}
use enactspace.Outbox.Lifecycle.{cancelled_delivery}
use enactspace.Outbox.Worker.{
  PushProvider, Outcome, retry_delay, retry_delivery, drop_token, process_push_delivery,
  delivery_row, claimable, is_processing, left_as,
}
use enactspace.Outbox.Worker.Cases.{process-cases, counted}

-- the first four waits
delay_doubles : (n : ℕ) → n < 4 → retry_delay (n + 1) ≡ 30 * 2 ^ n
unfolding retry_delay
delay_doubles zero h = refl
delay_doubles (suc zero) h = refl
delay_doubles (suc (suc zero)) h = refl
delay_doubles (suc (suc (suc zero))) h = refl
delay_doubles (suc (suc (suc (suc n)))) h = absurd (omega (arith, h))

or_false : (b : Bool) → (b || false) ≡ b
or_false true = refl
or_false false = refl

module _ (env : Env) where
  -- The row of the delivery `d` after its try: it counts the try, which was not the fifth, and no
  -- worker claims it before 30 seconds, doubled for each earlier try.
  pub record Waits (k : ℕ) (d : PushDelivery) (o : Outbox) : Type 0 where
    pub after : PushDelivery
    pub stands : delivery_row k o ≡ some after
    pub waiting : after.status ≡ DeliveryStatus.retry
    pub tried : after.attempt_count ≡ d.attempt_count + 1
    pub spared : after.attempt_count < 5
    pub claimed_later :
        (now : ℕ) → claimable now after ≡ leb (env.utcnow + 30 * 2 ^ d.attempt_count) now

  module _ (provider : PushProvider) (k : ℕ) (d : PushDelivery) (o : Outbox)
      (row : delivery_row k o ≡ some d) where
    retried :
        (code : String)
        → let r = left_as env (retry_delivery env code (counted env provider d o)) o in
          r.0 ≡ Outcome.left DeliveryStatus.retry → Waits k d r.1
    unfolding retry_delivery
    retried code = elim (Bool-cases (leb 5 (d.attempt_count + 1))) [
      | inl over ↦ rw over (λ e. ground (arith, e))
      | inr more ↦
          let short : d.attempt_count < 4 = ground (arith, more) in
          let key = find_row-key (λ (x : PushDelivery). x.id) k o.deliveries d row in
          rw more (λ e. record {
            after = _;
            stands = find_row-save_self (λ (x : PushDelivery). x.id) k _ d o.deliveries key row;
            waiting = refl;
            tried = refl;
            spared = ground (arith, short);
            claimed_later =
                λ now. unfold claimable in rw (delay_doubles d.attempt_count short) (or_false _);
          })
    ]

  -- When the worker answers that it left a delivery for a retry, the delivery's row counts the try,
  -- which was not the fifth, and a worker can claim it from the time on at which 30 seconds, doubled
  -- for each try counted before, have passed since the answer, and not before.
  pub retry_only_Waits :
      (provider : PushProvider) (k : ℕ) (d : PushDelivery) (o : Outbox)
      → delivery_row k o ≡ some d
      → (process_push_delivery env provider k o).0 ≡ Outcome.left DeliveryStatus.retry
      → Waits k d (process_push_delivery env provider k o).1
  unfolding process_push_delivery drop_token cancelled_delivery
  retry_only_Waits provider k d o row =
      rw (process_push_delivery, row)
        (elim (Bool-cases (is_processing d.status)) [
          | inr idle ↦ rw idle (λ e. ground (arith, e))
          | inl at ↦ rw at (
              process-cases env provider d o
                (λ r. r.0 ≡ Outcome.left DeliveryStatus.retry → Waits k d r.1)
                (retried provider k d o row) (λ i code e. ground (arith, e))
                (λ e. ground (arith, e)) (λ n i m ready e. ground (arith, e)))
        ])
