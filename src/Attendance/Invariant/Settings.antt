-- ===== src/Attendance/Invariant/Settings.antt =====
-- Reading a setting writes no table but that of the settings.
use enactspace.Shared.{
  ◌≤◌, ◌≡◌, refl, inl, inr, String, List, [], ◌∷◌, ◌∙◌, ◌&&◌, arith, Bool-cases, Option-cases,
}
use enactspace.Shared.Env.{Env}
use enactspace.Attendance.Models.{Attendance, AttendanceRecord}
use enactspace.Attendance.Settings.{
  DefaultSetting, setting_of, default_attendance_settings, ensure_setting, ensure_settings,
  ensure_attendance_settings, setting_value, setting_float, sanctions_started,
}
use enactspace.Attendance.Penalty.{attendance_penalty_amount, is_late, is_absent, is_unjustified}

-- The tables that the settings are not.
pub record OnlySettings (t t' : Attendance) : Type 0 where
  pub sessions : t'.sessions ≡ t.sessions
  pub expected : t'.expected ≡ t.expected
  pub pending : t'.pending ≡ t.pending
  pub records : t'.records ≡ t.records
  pub later : t.drawn ≤ t'.drawn

OnlySettings-refl : (t : Attendance) → OnlySettings t t
OnlySettings-refl t = record {
  sessions = refl;
  expected = refl;
  pending = refl;
  records = refl;
  later = omega arith;
}

OnlySettings-trans :
    (t t' t'' : Attendance) → OnlySettings t t' → OnlySettings t' t'' → OnlySettings t t''
OnlySettings-trans t t' t'' a b = record {
  sessions = b.sessions ∙ a.sessions;
  expected = b.expected ∙ a.expected;
  pending = b.pending ∙ a.pending;
  records = b.records ∙ a.records;
  later = omega (arith, a.later, b.later);
}

module _ (env : Env) where
  ensure_setting-only :
      (d : DefaultSetting) (t : Attendance) → OnlySettings t (ensure_setting env d t)
  unfolding ensure_setting
  ensure_setting-only d t = elim (Option-cases (setting_of d.key t.settings)) [
    | inl e ↦
        rw (e, ensure_setting)
          (record {
            sessions = refl;
            expected = refl;
            pending = refl;
            records = refl;
            later = omega arith;
          })
    | inr (s, e) ↦ rw (e, ensure_setting) (OnlySettings-refl t)
  ]

  ensure_settings-only :
      (ds : List DefaultSetting) (t : Attendance) → OnlySettings t (ensure_settings env ds t)
  unfolding ensure_settings
  ensure_settings-only [] t = OnlySettings-refl t
  ensure_settings-only (d ∷ ds) t =
      OnlySettings-trans t (ensure_setting env d t)
        (ensure_settings env ds (ensure_setting env d t)) (ensure_setting-only d t)
        (ensure_settings-only ds (ensure_setting env d t))

  setting_value-only : (key : String) (t : Attendance) → OnlySettings t (setting_value env key t).1
  unfolding setting_value ensure_attendance_settings
  setting_value-only key t = ensure_settings-only default_attendance_settings t

  pub attendance_penalty_amount-only :
      (r : AttendanceRecord) (t : Attendance) → OnlySettings t (attendance_penalty_amount env r t).1
  unfolding attendance_penalty_amount sanctions_started setting_float
  attendance_penalty_amount-only r t =
      let t' = (setting_value env "debut_application_sanctions" t).1 in
      let first = setting_value-only "debut_application_sanctions" t in
      let then_late =
        OnlySettings-trans t t' (setting_value env "montant_retard" t').1 first
          (setting_value-only "montant_retard" t') in
      let then_absent =
        OnlySettings-trans t t' (setting_value env "montant_absence_non_justifiee" t').1 first
          (setting_value-only "montant_absence_non_justifiee" t') in
      elim (Bool-cases (sanctions_started env t).0) [
        | inr e ↦ rw e first
        | inl e ↦ elim (Bool-cases (is_late r.status)) [
          | inl late ↦ rw (e, late) then_late
          | inr other ↦
              elim (Bool-cases (is_absent r.status && is_unjustified r.justification_status)) [
                | inl b ↦ rw (e, other, b) then_absent
                | inr b ↦ rw (e, other, b) first
              ]
        ]
      ]
