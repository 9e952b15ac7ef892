-- ===== src/People/Reconciliation.antt =====
-- What a life cycle leaves to a user.
use text.Mathlib.TextEquality.{eq_iff}
use enactspace.Shared.{
  ℕ, ◌≡◌, refl, ap, inl, inr, String, Bool, true, false, not, ◌&&◌, List, [], ◌∷◌, map, arith, ◌==◌,
  str_eq, mem_text, is_none, Bool-cases,
}
use enactspace.Shared.Env.{Env}
use enactspace.Shared.Table.{All, first, amend}
use enactspace.Shared.Table.Laws.{select-All, All-append}
use enactspace.People.Models.{User, UserRole, PoleMember, ProjectMember, People}
use enactspace.People.Roles.{normalize_role_name}
use enactspace.People.Lifecycle.{
  Lifecycle, active, suspended, rejected, alumni, unsupported, Reconciled, reconciled, conflict,
  value_error, base_active_role, alumni_role, is_pole_seat, is_project_seat, is_surplus,
  retain_user_roles, ensure_user_role, save_user, with_status, deactivate_operational_memberships,
  reconcile_user_lifecycle, operational_profiles,
}

module _ (env : Env) (u : ℕ) where
  -- The user's links are to roles of the list.
  abbrev pub HasOnly : List String → People → Type 0
  HasOnly names p =
      All
        (λ (r : UserRole).
          (r.user_id ≡ u)
          → mem_text (normalize_role_name env r.role_name) (map (normalize_role_name env) names)
            ≡ true)
        p.user_roles

  -- The user sits in no pole and on no project.
  abbrev pub HasNoSeat : People → Type 0
  HasNoSeat p =
      All (λ (m : PoleMember). (m.user_id ≡ u) → m.is_active ≡ false) p.pole_members
      × All (λ (m : ProjectMember). (m.user_id ≡ u) → m.is_active ≡ false) p.project_members

  All-map :
      {A : Type 0} (P Q : A → Type 0) (xs : List A) → ((x : A) → P x → Q x) → All P xs → All Q xs
  All-map P Q [] f h = tt
  All-map P Q (x ∷ xs) f h = (f x h.0, All-map P Q xs f h.1)

  amend-All :
      {A : Type 0} (p : A → Bool) (f : A → A) (Q : A → Type 0)
      → ((x : A) → p x ≡ true → Q (f x))
      → ((x : A) → p x ≡ false → Q x)
      → (xs : List A) → All Q (amend p f xs)
  unfolding amend
  amend-All p f Q hits misses [] = tt
  amend-All p f Q hits misses (x ∷ xs) = elim (Bool-cases (p x)) [
    | inl hit ↦ rw hit (hits x hit, amend-All p f Q hits misses xs)
    | inr miss ↦ rw miss (misses x miss, amend-All p f Q hits misses xs)
  ]

  retain-HasOnly :
      (names : List String) (p : People) → HasOnly names (retain_user_roles env u names p).1
  unfolding retain_user_roles is_surplus
  retain-HasOnly names p =
      All-map _ _ _ (λ r kept own. ground (arith, kept, own))
        (select-All (λ r. not (is_surplus env u names r)) p.user_roles)

  deactivate-HasNoSeat :
      (today : ℕ) (p : People) → HasNoSeat (deactivate_operational_memberships env today u p)
  unfolding deactivate_operational_memberships is_pole_seat is_project_seat
  deactivate-HasNoSeat today p = (
    amend-All (is_pole_seat u) _ _ (λ m seat own. refl) (λ m free own. ground (arith, free, own))
        p.pole_members,
    amend-All (is_project_seat u) _ _ (λ m seat own. refl) (λ m free own. ground (arith, free, own))
        p.project_members,
  )

  ensure-HasOnly :
      (drawn : ℕ) (name : String) (p : People)
      → HasOnly (name ∷ []) p
      → HasOnly (name ∷ []) (ensure_user_role env drawn u name p).1
  unfolding ensure_user_role mem_text
  ensure-HasOnly drawn name p h =
      let itself = (eq_iff (normalize_role_name env name) (normalize_role_name env name)).1 refl in
      elim (Bool-cases (
        is_none
          (first (λ (r : UserRole). r.user_id == u && str_eq r.role_name name) p.user_roles))) [
            | inl new ↦
                rw (ensure_user_role, new) (All-append _ p.user_roles _ h (λ own. rw itself refl))
            | inr there ↦ rw (ensure_user_role, there) h
          ]

  retained-HasNoSeat :
      (names : List String) (p : People)
      → HasNoSeat p
      → HasNoSeat (retain_user_roles env u names p).1
  unfolding retain_user_roles
  retained-HasNoSeat names p h = h

  ensured-HasNoSeat :
      (drawn : ℕ) (name : String) (p : People)
      → HasNoSeat p
      → HasNoSeat (ensure_user_role env drawn u name p).1
  unfolding ensure_user_role
  ensured-HasNoSeat drawn name p h =
      elim (Bool-cases (
        is_none
          (first (λ (r : UserRole). r.user_id == u && str_eq r.role_name name) p.user_roles))) [
            | inl new ↦ rw (ensure_user_role, new) h
            | inr there ↦ rw (ensure_user_role, there) h
          ]

abbrev pub people_of : People → Reconciled → People
people_of d (reconciled p) = p
people_of d (conflict detail) = d
people_of d value_error = d

-- the roles that a life cycle leaves
abbrev pub roles_of : Lifecycle → List String
roles_of active = base_active_role ∷ []
roles_of suspended = base_active_role ∷ []
roles_of rejected = []
roles_of alumni = alumni_role ∷ []
roles_of (unsupported name) = []

abbrev pub ends_seats : Lifecycle → Bool
ends_seats active = false
ends_seats _ = true

active-HasOnly :
    (env : Env) (drawn today : ℕ) (user : User) (p p' : People)
    → reconcile_user_lifecycle env drawn today user active p ≡ reconciled p'
    → HasOnly env user.id (base_active_role ∷ []) p' × (false ≡ true → HasNoSeat env user.id p')
unfolding reconcile_user_lifecycle
active-HasOnly env drawn today user p p' =
    elim (Bool-cases (mem_text user.profile_type operational_profiles)) [
      | inr other ↦ rw (reconcile_user_lifecycle, other) (λ e. ground (arith, e))
      | inl operational ↦
          rw (reconcile_user_lifecycle, operational)
            (λ e. rw (← ap (people_of p) e) (
              ensure-HasOnly env user.id drawn base_active_role _ (
                  retain-HasOnly env user.id (base_active_role ∷ [])
                    (save_user (with_status env "active" true user.profile_type user) p)),
              λ ends. ground (arith, ends),
            ))
    ]

-- When the life cycle of a user is applied, the user keeps no role but those of the life cycle: the
-- base role for an active or suspended member, the alumni role for an alumnus, none for a rejected
-- user; and, but for an active member, no active membership of a pole or a project.
pub reconcile_user_lifecycle-HasOnly :
    (env : Env) (drawn today : ℕ) (user : User) (lifecycle : Lifecycle) (p p' : People)
    → reconcile_user_lifecycle env drawn today user lifecycle p ≡ reconciled p'
    → HasOnly env user.id (roles_of lifecycle) p'
      × (ends_seats lifecycle ≡ true → HasNoSeat env user.id p')
unfolding reconcile_user_lifecycle
reconcile_user_lifecycle-HasOnly env drawn today user active p p' e =
    active-HasOnly env drawn today user p p' e
reconcile_user_lifecycle-HasOnly env drawn today user suspended p p' e =
    let p₁ = save_user (with_status env "suspended" false user.profile_type user) p in
    let p₂ = deactivate_operational_memberships env today user.id p₁ in
    let free =
      retained-HasNoSeat env user.id (base_active_role ∷ []) p₂
        (deactivate-HasNoSeat env user.id today p₁) in
    let kept = retain-HasOnly env user.id (base_active_role ∷ []) p₂ in
    rw (← ap (people_of p) e) (kept, λ ends. free)
reconcile_user_lifecycle-HasOnly env drawn today user rejected p p' e =
    let p₁ = save_user (with_status env "rejected" false user.profile_type user) p in
    let p₂ = deactivate_operational_memberships env today user.id p₁ in
    let free = retained-HasNoSeat env user.id ([]) p₂ (deactivate-HasNoSeat env user.id today p₁) in
    let kept = retain-HasOnly env user.id ([]) p₂ in rw (← ap (people_of p) e) (kept, λ ends. free)
reconcile_user_lifecycle-HasOnly env drawn today user alumni p p' e =
    let p₁ = save_user (with_status env alumni_role true alumni_role user) p in
    let p₂ = deactivate_operational_memberships env today user.id p₁ in
    let free =
      retained-HasNoSeat env user.id (alumni_role ∷ []) p₂
        (deactivate-HasNoSeat env user.id today p₁) in
    let kept = retain-HasOnly env user.id (alumni_role ∷ []) p₂ in
    let p₃ = (retain_user_roles env user.id (alumni_role ∷ []) p₂).1 in
    rw (← ap (people_of p) e) (
      ensure-HasOnly env user.id drawn alumni_role p₃ kept,
      λ ends. ensured-HasNoSeat env user.id drawn alumni_role p₃ free,
    )
reconcile_user_lifecycle-HasOnly env drawn today user (unsupported name) p p' e = ground (arith, e)
