-- ===== src/People/Lifecycle.antt =====
-- The life cycle of a user: services/operational_integrity.py. A link of `UserRole` stands with the
-- name of its role, so that the row of the role is not a matter of its own.
use enactspace.Shared.{
  ℕ, String, Bool, true, false, not, ◌&&◌, some, List, [], ◌∷◌, ◌++◌, map, ◌==◌, str_eq, is_none,
  mem_text, if◌then◌else◌,
}
use enactspace.Shared.Env.{Env}
use enactspace.Shared.Table.{first, select, amend, save_row, order_by}
use enactspace.People.Models.{User, UserRole, PoleMember, ProjectMember, People}
use enactspace.People.Roles.{normalize_role_name}

-- the values of the argument `lifecycle`
pub data Lifecycle : Type 0 where
  active suspended rejected alumni : Lifecycle
  unsupported : String → Lifecycle

-- what `reconcile_user_lifecycle` leaves: a conflict, a ValueError, or the tables
pub data Reconciled : Type 0 where
  conflict : String → Reconciled
  value_error : Reconciled
  reconciled : People → Reconciled

abbrev pub base_active_role : String
base_active_role = "enacteur"

abbrev pub alumni_role : String
alumni_role = "alumni"

-- `profile_type in {BASE_ACTIVE_ROLE, "enactrice"}`
abbrev pub operational_profiles : List String
operational_profiles = base_active_role ∷ "enactrice" ∷ []

abbrev pub save_user : User → People → People
save_user user p = record p { users = save_row (λ (u : User). u.id) user p.users }

unfoldable pub is_pole_seat : ℕ → PoleMember → Bool
is_pole_seat user_id m = m.user_id == user_id && m.is_active

unfoldable pub is_project_seat : ℕ → ProjectMember → Bool
is_project_seat user_id m = m.user_id == user_id && m.is_active

module _ (env : Env) where
  -- the links that `retain_user_roles` deletes
  unfoldable pub is_surplus : ℕ → List String → UserRole → Bool
  unfolding normalize_role_name
  is_surplus user_id retained r =
      r.user_id == user_id
      && not
          (mem_text (normalize_role_name env r.role_name) (map (normalize_role_name env) retained))

  -- the names that are removed, and the tables
  unfoldable pub retain_user_roles : ℕ → List String → People → List String × People
  unfolding is_surplus
  retain_user_roles user_id retained p = (
    map (λ (r : UserRole). normalize_role_name env r.role_name)
        (order_by (λ (r : UserRole). r.id) (select (is_surplus user_id retained) p.user_roles)),
    record p { user_roles = select (λ r. not (is_surplus user_id retained r)) p.user_roles },
  )

  -- `drawn` numbers the identifier of a new link
  unfoldable pub ensure_user_role : ℕ → ℕ → String → People → Bool × People
  ensure_user_role drawn user_id role_name p =
      if is_none (
        first (λ (r : UserRole). r.user_id == user_id && str_eq r.role_name role_name) p.user_roles)
      then (
        true,
        record p {
          user_roles =
              p.user_roles
              ++ record { id = env.uuid4 drawn; user_id = user_id; role_name = role_name } ∷ [];
        },
      )
      else (false, p)

  -- `today` is `date.today()`
  unfoldable pub deactivate_operational_memberships : ℕ → ℕ → People → People
  unfolding is_pole_seat is_project_seat
  deactivate_operational_memberships today user_id p = record p {
    pole_members =
        amend (is_pole_seat user_id) (λ m. record m { is_active = false; left_at = some today })
          p.pole_members;
    project_members =
        amend (is_project_seat user_id) (λ m. record m { is_active = false; left_at = some today })
          p.project_members;
  }

  abbrev pub with_status : String → Bool → String → User → User
  with_status status is_active profile_type user = record user {
    status = status;
    is_active = is_active;
    profile_type = profile_type;
    updated_at = env.utcnow;
  }

  unfoldable pub reconcile_user_lifecycle : ℕ → ℕ → User → Lifecycle → People → Reconciled
  unfolding retain_user_roles ensure_user_role deactivate_operational_memberships
  reconcile_user_lifecycle drawn today user active p =
      if not (mem_text user.profile_type operational_profiles)
      then conflict "Ce type de profil exige le parcours de cycle de vie approprié"
      else let p₁ = save_user (with_status "active" true user.profile_type user) p in
        let p₂ = (retain_user_roles user.id (base_active_role ∷ []) p₁).1 in
        reconciled (ensure_user_role drawn user.id base_active_role p₂).1
  reconcile_user_lifecycle drawn today user suspended p =
      let p₁ = save_user (with_status "suspended" false user.profile_type user) p in
      let p₂ = deactivate_operational_memberships today user.id p₁ in
      reconciled (retain_user_roles user.id (base_active_role ∷ []) p₂).1
  reconcile_user_lifecycle drawn today user rejected p =
      let p₁ = save_user (with_status "rejected" false user.profile_type user) p in
      let p₂ = deactivate_operational_memberships today user.id p₁ in
      reconciled (retain_user_roles user.id [] p₂).1
  reconcile_user_lifecycle drawn today user alumni p =
      let p₁ = save_user (with_status alumni_role true alumni_role user) p in
      let p₂ = deactivate_operational_memberships today user.id p₁ in
      let p₃ = (retain_user_roles user.id (alumni_role ∷ []) p₂).1 in
      reconciled (ensure_user_role drawn user.id alumni_role p₃).1
  reconcile_user_lifecycle drawn today user (unsupported name) p = value_error
