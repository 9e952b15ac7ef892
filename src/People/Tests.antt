-- ===== src/People/Tests.antt =====
-- The treasurer becomes an alumna.
use enactspace.Shared.{◌≡◌, refl, true, [], ◌∷◌}
use enactspace.Ledger.Samples.{env, people, treasurer}
use enactspace.People.Models.{People}
use enactspace.People.Lifecycle.{Lifecycle, Reconciled, reconcile_user_lifecycle}
use enactspace.People.Reconciliation.{
  HasOnly, HasNoSeat, people_of, reconcile_user_lifecycle-HasOnly,
}

abbrev left_club : People
left_club = people_of people (reconcile_user_lifecycle env 9 200 treasurer Lifecycle.alumni people)

leaves :
    reconcile_user_lifecycle env 9 200 treasurer Lifecycle.alumni people
    ≡ Reconciled.reconciled left_club
unfolding reconcile_user_lifecycle
leaves = refl

reconcile_user_lifecycle-HasOnly_example :
    HasOnly env 7 ("alumni" ∷ []) left_club × (true ≡ true → HasNoSeat env 7 left_club)
reconcile_user_lifecycle-HasOnly_example =
    reconcile_user_lifecycle-HasOnly env 9 200 treasurer Lifecycle.alumni people left_club leaves
