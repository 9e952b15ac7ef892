-- ===== src/Server/Deps.antt =====
-- The dependencies of api/deps.py that guard the routes, for the user that the token names.
use enactspace.Shared.{not, mem_text, [], ◌∷◌}
use enactspace.Shared.Env.{Env}
use enactspace.People.Models.{User}
use enactspace.People.Roles.{user_has_any_role, finance_management_roles}
use enactspace.Server.Handler.{Handler, gets, raise_if, ◌>>=◌, ◌>>◌}

-- `get_current_active_validated_user`, after `get_current_user`
unfoldable pub current_active_validated_user : User → Handler (Unit {0})
current_active_validated_user user = do
  raise_if (not (mem_text user.status ("active" ∷ "alumni" ∷ []))) 403
      "Compte en attente de validation par l'administration"
  raise_if (not user.email_verified) 403 "Email non vérifié"

module _ (env : Env) (user : User) where
  unfoldable pub require_finance_or_admin : Handler (Unit {0})
  unfolding current_active_validated_user
  require_finance_or_admin = do
    current_active_validated_user user
    allowed ← gets (λ db. user_has_any_role env user.id finance_management_roles db.people)
    raise_if (not allowed) 403 "Action réservée au financier, au Team Leader ou à l'administrateur"
