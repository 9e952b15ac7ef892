-- ===== src/Ledger/Routes/Statistics.antt =====
-- The statistics of the finance routes, over their runs.
use enactspace.Shared.{◌≡◌}
use enactspace.Shared.Env.{Env}
use enactspace.Shared.Table.{sum_by}
use enactspace.Server.Models.{Db}
use enactspace.Ledger.CashBook.{finance_stats_payload}
use enactspace.Ledger.Balance.{NeverRepeats, IsConsistent, payment_income}
use enactspace.Ledger.Balance.Figures.{validated_booked}
use enactspace.Ledger.Balance.Totals.{open_lack, finance_stats-total_due}
use enactspace.Ledger.Routes.{Reaches}
use enactspace.Ledger.Routes.Consistency.{Reaches-IsConsistent}

-- On every database that finance requests reach from a consistent ledger, none of which cancels a
-- fee a second time, the statistics' total due is the sum of what the open fees lack, and their
-- validated amount is what the cash book holds for payments. `uuid4` gives no value twice.
pub Reaches-finance_stats :
    (env : Env) (db db' : Db)
    → NeverRepeats env.uuid4
    → IsConsistent env.uuid4 db.ledger
    → Reaches env db db'
    → let l = db'.ledger in
      let stats = finance_stats_payload l.accounts l.fees l.payments l.transactions in
      (stats.total_due ≡ sum_by open_lack l.fees)
      × (stats.validated_payment_amount ≡ sum_by payment_income l.transactions)
Reaches-finance_stats env db db' inj h r =
    let h' = Reaches-IsConsistent env db db' inj h r in
    (finance_stats-total_due env.uuid4 db'.ledger h', validated_booked env.uuid4 db'.ledger h')
