-- ===== src/Attendance/Settings.antt =====
-- The settings of attendance: `_ensure_attendance_settings`, `_setting_value`, `_setting_float` and
-- `_sanctions_started` of api/routes/attendance.py.
use enactspace.Shared.{
  ◌+◌, String, Bool, true, Option, none, some, List, [], ◌∷◌, ◌++◌, str_eq, leb, if◌then◌else◌,
}
use enactspace.Shared.Int.{ℤ, pos}
use enactspace.Shared.Env.{Env}
use enactspace.Shared.Table.{first}
use enactspace.Attendance.Models.{AttendanceSetting, Attendance}

-- an entry of DEFAULT_ATTENDANCE_SETTINGS
pub record DefaultSetting : Type 0 where
  pub key : String
  pub default_value : String
  pub description : String

abbrev pub entry : String → String → String → DefaultSetting
entry key default_value description = record {
  key = key;
  default_value = default_value;
  description = description;
}

abbrev pub default_attendance_settings : List DefaultSetting
default_attendance_settings =
    entry "montant_absence_non_justifiee" "500" "Montant applique pour une absence non justifiee."
    ∷ entry "montant_retard" "0" "Montant applique pour un retard sanctionnable."
    ∷ entry "seuil_avertissement_absences" "3"
        "Nombre d'absences non justifiees avant avertissement."
    ∷ entry "seuil_retards" "3" "Nombre de retards avant avertissement."
    ∷ entry "delai_max_justification" "72" "Delai maximum de justification en heures."
    ∷ entry "debut_application_sanctions" "" "Date ISO de debut d'application des sanctions."
    ∷ []

-- the query for a setting
abbrev pub setting_of : String → List AttendanceSetting → Option AttendanceSetting
setting_of key = first (λ (s : AttendanceSetting). str_eq s.key key)

abbrev pub default_of : String → List DefaultSetting → String
default_of key [] = ""
default_of key (d ∷ ds) = if str_eq d.key key then d.default_value else default_of key ds

module _ (env : Env) where
  -- one round of the loop: a setting that is missing is added and flushed
  unfoldable pub ensure_setting : DefaultSetting → Attendance → Attendance
  ensure_setting d t = elim (setting_of d.key t.settings) [
    | some s ↦ t
    | none ↦ record t {
      settings =
          t.settings
          ++ record {
            id = env.uuid4 t.drawn;
            key = d.key;
            value = d.default_value;
            description = some d.description;
            updated_at = env.utcnow;
          }
            ∷ [];
      drawn = t.drawn + 1;
    }
  ]

  unfoldable pub ensure_settings : List DefaultSetting → Attendance → Attendance
  unfolding ensure_setting
  ensure_settings [] t = t
  ensure_settings (d ∷ ds) t = ensure_settings ds (ensure_setting d t)

  unfoldable pub ensure_attendance_settings : Attendance → Attendance
  ensure_attendance_settings = ensure_settings default_attendance_settings

  unfoldable pub setting_value : String → Attendance → String × Attendance
  setting_value key t =
      let t' = ensure_attendance_settings t in
      (
        elim (setting_of key t'.settings) [
          | some s ↦ s.value
          | none ↦ default_of key default_attendance_settings
        ],
        t',
      )

  -- `float(value or 0)`, in hundredths, or 0 for a ValueError
  abbrev pub float_or_zero : String → ℤ
  float_or_zero value =
      if str_eq value ""
      then pos 0
      else elim (env.float_of value) [ none ↦ pos 0 | some amount ↦ amount ]

  unfoldable pub setting_float : String → Attendance → ℤ × Attendance
  setting_float key t = let (value, t') = setting_value key t in (float_or_zero value, t')

  -- whether a date of the settings has come: an empty or an unreadable one has
  abbrev pub has_started : String → Bool
  has_started raw =
      if str_eq raw ""
      then true
      else elim (env.fromisoformat raw) [ none ↦ true | some started ↦ leb started env.utcnow ]

  unfoldable pub sanctions_started : Attendance → Bool × Attendance
  sanctions_started t =
      let (raw, t') = setting_value "debut_application_sanctions" t in (has_started raw, t')
