-- ===== src/People/Roles.antt =====
-- Role names (core/roles.py) and the role tests of api/deps.py.
use Prim.Native.Char.{Char, code}
use enactspace.Shared.{
  ℕ, String, Bool, true, false, List, [], ◌∷◌, map, ◌==◌, mem_text, if◌then◌else◌,
}
use enactspace.Shared.Env.{Env}
use enactspace.Shared.Table.{select}
use enactspace.People.Models.{UserRole, People}

-- `text.replace(old, new)` for one character
unfoldable pub replace_char : Char → Char → String → String
replace_char old new String.[] = String.[]
replace_char old new (String.◌∷◌ c s) =
    String.◌∷◌ (if code c == code old then new else c) (replace_char old new s)

abbrev pub finance_management_roles : List String
finance_management_roles = "administrateur" ∷ "team_leader" ∷ "financier" ∷ []

-- `not current.isdisjoint(allowed)`
unfoldable pub intersects : List String → List String → Bool
intersects [] allowed = false
intersects (r ∷ rs) allowed = if mem_text r allowed then true else intersects rs allowed

module _ (env : Env) where
  unfoldable pub normalize_role_name : String → String
  unfolding replace_char
  normalize_role_name value = replace_char " " "_" (replace_char "-" "_" (env.fold_accents value))

  unfoldable pub get_user_role_names : ℕ → People → List String
  unfolding normalize_role_name
  get_user_role_names user_id p =
      map (λ (r : UserRole). normalize_role_name r.role_name)
        (select (λ r. r.user_id == user_id) p.user_roles)

  unfoldable pub user_has_any_role : ℕ → List String → People → Bool
  unfolding get_user_role_names normalize_role_name intersects
  user_has_any_role user_id role_names p =
      intersects (get_user_role_names user_id p) (map normalize_role_name role_names)
