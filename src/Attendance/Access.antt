-- ===== src/Attendance/Access.antt =====
-- Who manages an attendance session: `_roles` to `_require_can_manage_session` of
-- api/routes/attendance.py.
use enactspace.Shared.{
  ℕ, String, Bool, false, ◌&&◌, ◌||◌, not, Option, none, some, List, [], ◌∷◌, map, ◌==◌, mem_text,
  mem_id, is_none, same_id, if◌then◌else◌,
}
use enactspace.Shared.Env.{Env}
use enactspace.Shared.Table.{select}
use enactspace.People.Models.{User, People, PoleMember, ProjectMember}
use enactspace.People.Roles.{get_user_role_names, intersects}
use enactspace.Server.Handler.{Handler, gets, raise_if, ◌>>=◌}
use enactspace.Attendance.Models.{AttendanceSession}

abbrev pub secretariat_roles : List String
secretariat_roles = "administrateur" ∷ "team_leader" ∷ "secretaire_generale" ∷ []

-- GLOBAL_MANAGEMENT_ROLES | SECRETARIAT_ROLES
abbrev pub managing_roles : List String
managing_roles = "administrateur" ∷ "team_leader" ∷ secretariat_roles

module _ (env : Env) (user : User) where
  unfoldable pub is_global_attendance_manager : People → Bool
  is_global_attendance_manager p = intersects (get_user_role_names env user.id p) secretariat_roles

  unfoldable pub managed_pole_ids : People → List ℕ
  managed_pole_ids p =
      if intersects (get_user_role_names env user.id p) managing_roles
      then map (λ (m : PoleMember). m.pole_id) p.pole_members
      else map (λ (m : PoleMember). m.pole_id)
          (select
            (λ m.
              m.user_id == user.id
              && m.is_active
              && is_none m.left_at
              && mem_text m.position ("chef_pole" ∷ "adjoint_chef_pole" ∷ []))
            p.pole_members)

  unfoldable pub managed_project_ids : People → List ℕ
  managed_project_ids p =
      if intersects (get_user_role_names env user.id p) managing_roles
      then map (λ (m : ProjectMember). m.project_id) p.project_members
      else map (λ (m : ProjectMember). m.project_id)
          (select
            (λ m.
              m.user_id == user.id
              && m.is_active
              && is_none m.left_at
              && mem_text m.position ("chef_projet" ∷ "adjoint_chef_projet" ∷ []))
            p.project_members)

  -- `k and k in ids`
  abbrev pub id_among : Option ℕ → List ℕ → Bool
  id_among none ids = false
  id_among (some k) ids = mem_id k ids

  unfoldable pub can_manage_session : AttendanceSession → People → Bool
  can_manage_session session p =
      is_global_attendance_manager p
      || same_id session.created_by (some user.id)
      || id_among session.pole_id (managed_pole_ids p)
      || id_among session.project_id (managed_project_ids p)

  unfoldable pub require_can_manage_session : AttendanceSession → Handler (Unit {0})
  require_can_manage_session session = do
    allowed ← gets (λ db. can_manage_session session db.people)
    raise_if (not allowed) 403 "Permission insuffisante pour gerer cette seance"
