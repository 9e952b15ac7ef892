-- ===== src/Ledger/BulkFees.antt =====
-- `create_bulk_fees` of api/routes/finance.py.
use enactspace.Shared.{
  ℕ, Bool, true, false, not, ◌&&◌, Option, none, some, List, [], ◌∷◌, map, str_eq, same_id, is_none,
  from_keys, fstring, if◌then◌else◌,
}
use enactspace.Shared.Env.{Env}
use enactspace.Shared.Table.{select}
use enactspace.People.Models.{User, PoleMember, ProjectMember, People}
use enactspace.Ledger.Models.{Fee}
use enactspace.Ledger.Requests.{FeeBulkCreate, FeeRecord}
use enactspace.Server.Handler.{Handler, pure, or_raise, raise_if, gets, commit, ◌>>=◌, ◌>>◌}
use enactspace.Server.Deps.{require_finance_or_admin}
use enactspace.Outbox.Service.{or_id}
use enactspace.Ledger.Fees.{create_fee_record}

abbrev is_empty : List ℕ → Bool
is_empty [] = true
is_empty (_ ∷ _) = false

module _ (env : Env) where
  abbrev pub is_current : Bool → Option ℕ → Bool
  is_current is_active left_at = is_active && is_none left_at

  -- The members that a bulk fee is for; the last case is the error of an unknown or incomplete scope.
  unfoldable pub target_user_ids_for_fee_scope : FeeBulkCreate → People → Option (List ℕ)
  unfolding from_keys
  target_user_ids_for_fee_scope payload p =
      if str_eq payload.scope_type "members"
      then some (from_keys payload.user_ids)
      else if str_eq payload.scope_type "pole" && not (is_none payload.pole_id)
      then some (
          map (λ (m : PoleMember). m.user_id)
            (select
              (λ m. same_id (some m.pole_id) payload.pole_id && is_current m.is_active m.left_at)
              p.pole_members))
      else if str_eq payload.scope_type "project" && not (is_none payload.project_id)
      then some (
          map (λ (m : ProjectMember). m.user_id)
            (select
              (λ m.
                same_id (some m.project_id) payload.project_id && is_current m.is_active m.left_at)
              p.project_members))
      else if str_eq payload.scope_type "club"
      then some
          (map (λ (u : User). u.id) (select (λ u. u.is_active && str_eq u.status "active") p.users))
      else none

  -- The arguments of the bulk route's call of `create_fee_record` for one member.
  unfoldable pub bulk_record : User → FeeBulkCreate → ℕ → FeeRecord
  bulk_record current_user payload user_id =
      let label = env.strip payload.label in
      record {
        user_id = user_id;
        season_id = payload.season_id;
        fee_type = payload.type;
        category = payload.category;
        label = label;
        description = payload.description;
        amount = payload.amount;
        currency = payload.currency;
        due_date = payload.due_date;
        source_type = some (
            env.prefix 80 (
              fstring (
                "bulk_"
                ∷ payload.scope_type
                ∷ "_"
                ∷ payload.type
                ∷ "_"
                ∷ env.prefix 40 (env.join_words label)
                ∷ [])));
        source_id =
            or_id payload.pole_id
              (or_id payload.project_id (or_id payload.season_id (some current_user.id)));
        related_attendance_id = none;
        proof_file_id = none;
      }

  -- the loop over the members
  unfoldable pub create_fee_records : User → FeeBulkCreate → List ℕ → Handler (List Fee)
  create_fee_records current_user payload [] = pure []
  create_fee_records current_user payload (user_id ∷ user_ids) = do
    fee ← create_fee_record env current_user.id (bulk_record current_user payload user_id)
    fees ← create_fee_records current_user payload user_ids
    pure (fee ∷ fees)

  unfoldable pub create_bulk_fees : User → FeeBulkCreate → Handler (List Fee)
  unfolding require_finance_or_admin
  create_bulk_fees current_user payload = do
    require_finance_or_admin env current_user
    raise_if (str_eq (env.strip payload.label) "") 400 "Le libelle est obligatoire"
    scope ← gets (λ db. target_user_ids_for_fee_scope payload db.people)
    user_ids ← or_raise scope 400 "Perimetre de cotisation invalide"
    raise_if (is_empty user_ids) 400 "Aucun membre trouve pour ce perimetre"
    fees ← create_fee_records current_user payload user_ids
    commit
    pure fees
