-- ===== src/Attendance/CheckIn.antt =====
-- The status of a check-in, the delay that is recorded with it, and the attempts that are counted.
use enactspace.Shared.{
  ℕ, ◌+◌, ◌-◌, ◌*◌, ◌/◌, Option, ◌≤◌, ◌<◌, ◌≡◌, ◌↔◌, refl, inl, inr, Bool, true, String, none, some,
  List, [], ◌∷◌, ◌++◌, ltb, leb, arith, Bool-cases, if◌then◌else◌, ◌==◌, ◌&&◌, str_eq,
}
use enactspace.Shared.Env.{Env}
use enactspace.People.Models.{User}
use enactspace.Server.Handler.{Session, ok}
use enactspace.Attendance.Sessions.{open_draft, opened_session}
use enactspace.Shared.Table.{length, select, All}
use enactspace.Attendance.Models.{AttendanceSession, AttendanceStatus}
use enactspace.Attendance.Records.{compute_checkin_status, calculate_delay_minutes, reference_time}
use enactspace.Attendance.Scan.{ScanAttempts, rate_limit_qr_scan, attempts_of, set_attempts, recent}

-- The start of a session that has been opened: the time of the opening, or an earlier start that was
-- set before.
abbrev pub start_of : Env → AttendanceSession → ℕ
start_of env session = elim session.checkin_start [ some t ↦ t | none ↦ env.utcnow ]

-- Of a session that the opening of a draft answers, a check-in is late exactly where more than the
-- allowed minutes have gone since the opening, or since the start that was set before it, whatever
-- time the session was scheduled for; the delay computed for a late check-in is the whole minutes
-- since then, and none is computed for another.
pub open_draft-checkin :
    (env : Env) (user : User) (ip : Option String) (session session' : AttendanceSession)
    (s : Session) (now : ℕ)
    → (open_draft env user ip session s).0 ≡ ok session'
    → let status = compute_checkin_status session' now in
      let elapsed = now - start_of env session in
      let late = ltb (session.late_after_minutes * 60) elapsed in
      (status ≡ (if late then AttendanceStatus.late else AttendanceStatus.present))
      × (calculate_delay_minutes session' status (some now) none
          ≡ (if late then some (elapsed / 60) else none))
unfolding open_draft opened_session compute_checkin_status calculate_delay_minutes reference_time
open_draft-checkin env user ip session session' s now answer =
    let same : opened_session env session ≡ session' = ground (arith, answer) in
    rw (← same) (ground arith)

-- The delay that is recorded with a late check-in, in whole minutes, is at least the delay that the
-- session allows.
pub late-delay :
    (session : AttendanceSession) (now : ℕ) (d : ℕ)
    → calculate_delay_minutes session (compute_checkin_status session now) (some now) none ≡ some d
    → session.late_after_minutes ≤ d
unfolding compute_checkin_status calculate_delay_minutes
late-delay session now d e = ground (arith, e)

length-append : (xs : List ℕ) (x : ℕ) → length (xs ++ x ∷ []) ≡ length xs + 1
length-append [] x = refl
length-append (y ∷ ys) x = ground (arith, length-append ys x)

length-select : (p : ℕ → Bool) (xs : List ℕ) → length (select p xs) ≤ length xs
unfolding select
length-select p [] = omega arith
length-select p (x ∷ xs) = ground (arith, length-select p xs)

-- No user has more attempts in the table, from one address, than the settings allow in a minute.
abbrev pub IsBounded : ℕ → ScanAttempts → Type 0
IsBounded limit a = length a.times ≤ limit

attempts_of-IsBounded :
    (limit user_id : ℕ) (address : String) (entries : List ScanAttempts)
    → All (IsBounded limit) entries
    → length (attempts_of user_id address entries) ≤ limit
unfolding attempts_of
attempts_of-IsBounded limit u address [] h = omega arith
attempts_of-IsBounded limit u address (a ∷ entries) h =
    elim (Bool-cases (a.user_id == u && str_eq a.address address)) [
      | inl e ↦ rw e h.0
      | inr e ↦ rw e (attempts_of-IsBounded limit u address entries h.1)
    ]

set_attempts-IsBounded :
    (limit user_id : ℕ) (address : String) (times : List ℕ) (entries : List ScanAttempts)
    → length times ≤ limit
    → All (IsBounded limit) entries
    → All (IsBounded limit) (set_attempts user_id address times entries)
unfolding set_attempts
set_attempts-IsBounded limit u address times [] b h = (b, tt)
set_attempts-IsBounded limit u address times (a ∷ entries) b h =
    elim (Bool-cases (a.user_id == u && str_eq a.address address)) [
      | inl e ↦ rw e (b, h.1)
      | inr e ↦ rw e (h.0, set_attempts-IsBounded limit u address times entries b h.1)
    ]

-- Where no entry of the table of scan attempts holds more attempts than the limit, none does after
-- one more attempt, and that attempt is let through exactly while the user had fewer attempts from
-- the address in the last minute than the limit.
pub rate_limit-IsBounded :
    (limit now user_id : ℕ) (address : String) (entries : List ScanAttempts)
    → All (IsBounded limit) entries
    → All (IsBounded limit) (rate_limit_qr_scan limit now user_id address entries).1
      × (((rate_limit_qr_scan limit now user_id address entries).0 ≡ true)
          ↔ (length (recent now (attempts_of user_id address entries)) < limit))
unfolding rate_limit_qr_scan
rate_limit-IsBounded limit now u address entries h =
    let attempts = attempts_of u address entries in
    let few = recent now attempts in
    let fits = attempts_of-IsBounded limit u address entries h in
    let fewer = length-select (λ t. leb now (t + 60)) attempts in
    elim (Bool-cases (leb limit (length few))) [
      | inl e ↦ rw e (
        set_attempts-IsBounded limit u address few entries (omega (arith, fits, fewer)) h,
        ground (arith, e),
      )
      | inr e ↦ rw e (
        set_attempts-IsBounded limit u address (few ++ now ∷ []) entries
            (ground (arith, e, length-append few now)) h,
        ground (arith, e),
      )
    ]
