-- ===== src/Ledger/Routes/Guards.antt =====
-- Who may decide on a payment.
use enactspace.Shared.{◌≡◌, String, false, Option, some, arith}
use enactspace.Shared.Env.{Env}
use enactspace.People.Models.{User}
use enactspace.People.Roles.{user_has_any_role}
use enactspace.Ledger.Models.{Payment}
use enactspace.Ledger.Requests.{payment_supervisor_roles}
use enactspace.Ledger.Payments.{can_review_payment, validate_payment, payment_row}
use enactspace.Ledger.Refusals.{reject_payment}
use enactspace.Server.Models.{Db}
use enactspace.Server.Handler.{respond, after}

-- Only a supervisor reviews a payment of their own.
own_payment :
    (env : Env) (user : User) (payment : Payment) (db : Db)
    → payment.user_id ≡ user.id
    → user_has_any_role env user.id payment_supervisor_roles db.people ≡ false
    → can_review_payment env user payment db.people ≡ false
unfolding can_review_payment
own_payment env user payment db own plain = ground arith

-- A user who is neither administrator nor team leader changes nothing by validating or rejecting a
-- payment of their own.
pub review-separates_duties :
    (env : Env) (user : User) (ip : Option String) (reason : String) (db : Db) (payment : Payment)
    → payment_row env payment.id db.ledger ≡ some payment
    → payment.user_id ≡ user.id
    → user_has_any_role env user.id payment_supervisor_roles db.people ≡ false
    → (after (validate_payment env user ip payment.id) db ≡ db)
      × (after (reject_payment env user ip payment.id reason) db ≡ db)
unfolding respond validate_payment reject_payment
review-separates_duties env user ip reason db payment found own plain =
    let refused = own_payment env user payment db own plain in
    (ground (arith, refused), ground (arith, refused))
