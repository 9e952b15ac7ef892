-- ===== src/Outbox/Lifecycle.antt =====
-- The rest of services/push_lifecycle.py: deliveries are cancelled, installations lose their token.
use enactspace.Shared.{
  ℕ, ◌+◌, String, Bool, true, false, not, ◌&&◌, Option, none, some, List, [], ◌∷◌, ◌==◌, str_eq,
  is_none, if◌then◌else◌,
}
use enactspace.Shared.Env.{Env}
use enactspace.Shared.Table.{first, select, amend, save_row, length}
use enactspace.Outbox.Models.{AppInstallation, PushDelivery, DeliveryStatus, Outbox}
use enactspace.Outbox.Push.{lock_user_installations}

-- `delivery.status in UNSENT_PUSH_STATUSES`
abbrev pub is_unsent : DeliveryStatus → Bool
is_unsent DeliveryStatus.pending = true
is_unsent DeliveryStatus.retry = true
is_unsent DeliveryStatus.processing = true
is_unsent _ = false

-- `if text:` on a nullable text
abbrev pub has_text : Option String → Bool
has_text none = false
has_text (some s) = not (str_eq s "")

-- an installation of the user, by the join of the query
unfoldable pub owns_installation : ℕ → ℕ → List AppInstallation → Bool
owns_installation user_id installation_id installations =
    not (is_none (first (λ i. i.id == installation_id && i.user_id == user_id) installations))

-- The filters that are given.
unfoldable pub in_installation : Option ℕ → PushDelivery → Bool
in_installation none d = true
in_installation (some i) d = d.installation_id == i

unfoldable pub of_user : Option ℕ → List AppInstallation → PushDelivery → Bool
unfolding owns_installation
of_user none installations d = true
of_user (some u) installations d = owns_installation u d.installation_id installations

unfoldable pub has_token : Option String → PushDelivery → Bool
has_token none d = true
has_token (some h) d = str_eq d.token_hash_snapshot h

-- the counts `cleared`, `revoked` and `cancelled` of `disable_user_push`
pub record Disabled : Type 0 where
  pub cleared : ℕ
  pub revoked : ℕ
  pub cancelled : ℕ

module _ (env : Env) where
  unfoldable pub cancelled_delivery : PushDelivery → PushDelivery
  cancelled_delivery d = record d {
    status = DeliveryStatus.cancelled;
    processing_started_at = none;
    updated_at = env.utcnow;
  }

  -- the rows that `cancel_unsent_deliveries` writes
  unfoldable pub is_cancelled_by :
      Option ℕ → Option ℕ → Option String → List AppInstallation → PushDelivery → Bool
  unfolding in_installation of_user has_token
  is_cancelled_by installation_id user_id token_hash installations d =
      is_unsent d.status
      && in_installation installation_id d
      && of_user user_id installations d
      && has_token token_hash d

  unfoldable pub cancel_unsent_deliveries :
      Option ℕ → Option ℕ → Option String → Outbox → ℕ × Outbox
  unfolding cancelled_delivery is_cancelled_by
  cancel_unsent_deliveries installation_id user_id token_hash o =
      let written = is_cancelled_by installation_id user_id token_hash o.installations in
      (
        length (select written o.deliveries),
        record o { deliveries = amend written cancelled_delivery o.deliveries },
      )

  abbrev pub save_installation : AppInstallation → Outbox → Outbox
  save_installation i o = record o {
    installations = save_row (λ (x : AppInstallation). x.id) i o.installations;
  }

  unfoldable pub cleared_installation : AppInstallation → AppInstallation
  cleared_installation i = record i {
    push_provider = none;
    push_token_ciphertext = none;
    push_token_hash = none;
    push_token_updated_at = none;
    updated_at = env.utcnow;
  }

  unfoldable pub clear_installation_push : AppInstallation → Outbox → ℕ × Outbox
  unfolding cancel_unsent_deliveries cleared_installation
  clear_installation_push i o =
      let (cancelled, o') = cancel_unsent_deliveries (some i.id) none none o in
      (cancelled, save_installation (cleared_installation i) o')

  abbrev pub revoked_installation : AppInstallation → AppInstallation
  revoked_installation i = record (cleared_installation i) { revoked_at = some env.utcnow }

  -- The body of the loop of `disable_user_push`.
  unfoldable pub disable_installation :
      Bool → AppInstallation → Disabled × Outbox → Disabled × Outbox
  unfolding clear_installation_push
  disable_installation revoke i (n, o) =
      let (cancelled, o') = clear_installation_push i o in
      let revokes = revoke && is_none i.revoked_at in
      (
        record {
          cleared = n.cleared + (if has_text i.push_token_hash then 1 else 0);
          revoked = n.revoked + (if revokes then 1 else 0);
          cancelled = n.cancelled + cancelled;
        },
        if revokes then save_installation (revoked_installation i) o' else o',
      )

  unfoldable pub disable_installations :
      Bool → List AppInstallation → Disabled × Outbox → Disabled × Outbox
  disable_installations revoke [] acc = acc
  disable_installations revoke (i ∷ is) acc =
      disable_installations revoke is (disable_installation revoke i acc)

  unfoldable pub disable_user_push : ℕ → Bool → Outbox → (ℕ × ℕ) × Outbox
  unfolding disable_installations
  disable_user_push user_id revoke o =
      let (n, o') =
        disable_installations revoke (lock_user_installations user_id o)
          (record { cleared = 0; revoked = 0; cancelled = 0 }, o) in
      ((if revoke then n.revoked else n.cleared, n.cancelled), o')
