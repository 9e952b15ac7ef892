-- ===== src/Attendance/Invariant/Sessions.antt =====
-- The state diagram of a session: draft, open, closed, archived, in this order.
use enactspace.Shared.{ℕ, ◌≤◌, ◌≡◌, Bool, true, false, some, List, arith}
use enactspace.Shared.Table.{find_row, save_row}
use enactspace.Shared.Table.Aligned.{Aligned, Aligned-refl, Aligned-save, Aligned-trans}
use enactspace.Attendance.Models.{AttendanceSession, SessionStatus, session_id}

abbrev pub rank : SessionStatus → ℕ
rank SessionStatus.draft = 0
rank SessionStatus.opened = 1
rank SessionStatus.closed = 2
rank SessionStatus.archived = 3

-- The check constraint `ck_attendance_sessions_closed_state`.
abbrev pub closes : SessionStatus → Bool
closes SessionStatus.draft = false
closes SessionStatus.opened = false
closes SessionStatus.closed = true
closes SessionStatus.archived = true

abbrev pub FitsStatus : AttendanceSession → Type 0
FitsStatus s = s.is_closed ≡ closes s.status

-- The status never goes back, and the flag goes with it.
pub record Advances (s s' : AttendanceSession) : Type 0 where
  pub forward : rank s.status ≤ rank s'.status
  pub fits : FitsStatus s → FitsStatus s'

Advances-refl : (s : AttendanceSession) → Advances s s
Advances-refl s = record { forward = omega arith; fits = λ f. f }

Advances-trans : (a b c : AttendanceSession) → Advances a b → Advances b c → Advances a c
Advances-trans a b c f g = record {
  forward = omega (arith, f.forward, g.forward);
  fits = λ h. g.fits (f.fits h);
}

-- The same sessions in the same order, each no earlier in its life.
abbrev pub Follows : List AttendanceSession → List AttendanceSession → Type 0
Follows = Aligned session_id Advances

pub Follows-refl : (t : List AttendanceSession) → Follows t t
Follows-refl = Aligned-refl session_id Advances Advances-refl

pub Follows-trans :
    (t t' t'' : List AttendanceSession) → Follows t t' → Follows t' t'' → Follows t t''
Follows-trans = Aligned-trans session_id Advances Advances-trans

pub Follows-save :
    (s s' : AttendanceSession) (t : List AttendanceSession)
    → s'.id ≡ s.id
    → find_row session_id s.id t ≡ some s
    → Advances s s'
    → Follows t (save_row session_id s' t)
Follows-save s s' t same found step =
    Aligned-save session_id Advances s s' t t (rw same found) step (Follows-refl t)
