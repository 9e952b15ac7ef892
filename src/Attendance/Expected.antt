-- ===== src/Attendance/Expected.antt =====
-- The members that a session expects: `_expected_member_ids_for_scope` and
-- `_ensure_expected_members` of api/routes/attendance.py.
use enactspace.Shared.{
  ℕ, ◌+◌, String, true, ◌&&◌, not, Option, none, some, List, [], ◌∷◌, ◌++◌, map, ◌==◌, str_eq,
  is_none, if◌then◌else◌,
}
use enactspace.Shared.Env.{Env}
use enactspace.Shared.Table.{select}
use enactspace.People.Models.{User, People, PoleMember, ProjectMember}
use enactspace.Attendance.Models.{
  AttendanceSession, AttendanceExpectedMember, Attendance, expected_of,
}

-- the three queries of `_expected_member_ids_for_scope`
unfoldable pub pole_member_ids : ℕ → People → List ℕ
pole_member_ids pole p =
    map (λ (m : PoleMember). m.user_id)
      (select (λ m. m.pole_id == pole && m.is_active && is_none m.left_at) p.pole_members)

unfoldable pub project_member_ids : ℕ → People → List ℕ
project_member_ids project p =
    map (λ (m : ProjectMember). m.user_id)
      (select (λ m. m.project_id == project && m.is_active && is_none m.left_at) p.project_members)

unfoldable pub club_member_ids : People → List ℕ
club_member_ids p =
    map (λ (u : User). u.id)
      (select (λ u. u.is_active && str_eq u.status "active" && not (str_eq u.profile_type "alumni"))
        p.users)

unfoldable pub expected_member_ids_for_scope : String → Option ℕ → Option ℕ → People → List ℕ
expected_member_ids_for_scope scope_type pole_id project_id p =
    let of_club = if str_eq scope_type "club" then club_member_ids p else [] in
    if str_eq scope_type "pole" && not (is_none pole_id)
    then elim pole_id [ some pole ↦ pole_member_ids pole p | none ↦ [] ]
    else if str_eq scope_type "project" && not (is_none project_id)
    then elim project_id [ some project ↦ project_member_ids project p | none ↦ [] ]
    else of_club

module _ (env : Env) where
  unfoldable pub new_expected : ℕ → ℕ → ℕ → AttendanceExpectedMember
  new_expected session_id user_id drawn = record {
    id = env.uuid4 drawn;
    session_id = session_id;
    user_id = user_id;
    is_required = true;
    created_at = env.utcnow;
  }

  -- `db.add(AttendanceExpectedMember(…))`, which no query sees before the next flush
  unfoldable pub add_expected : ℕ → ℕ → Attendance → Attendance
  add_expected session_id user_id t = record t {
    pending = t.pending ++ new_expected session_id user_id t.drawn ∷ [];
    drawn = t.drawn + 1;
  }

  -- The loop over the members of the scope, with the number of rows that it adds.
  unfoldable pub ensure_loop : ℕ → List ℕ → Attendance → ℕ × Attendance
  ensure_loop session_id [] t = (0, t)
  ensure_loop session_id (u ∷ us) t =
      let skipped = ensure_loop session_id us t in
      let (created, t') = ensure_loop session_id us (add_expected session_id u t) in
      if is_none (expected_of session_id u t.expected) then (created + 1, t') else skipped

  unfoldable pub ensure_expected_members : AttendanceSession → People → Attendance → ℕ × Attendance
  ensure_expected_members session p t =
      ensure_loop session.id
        (expected_member_ids_for_scope session.scope_type session.pole_id session.project_id p) t

-- the query for the expected members of a session
unfoldable pub expected_members : ℕ → Attendance → List AttendanceExpectedMember
expected_members session t =
    select (λ (e : AttendanceExpectedMember). e.session_id == session) t.expected
