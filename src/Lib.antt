-- ===== src/Lib.antt =====
-- The EnactSpace backend (backend/app): member fees, payments and the club's cash book, the
-- notifications that they send, and the role tests and sessions that guard them.
--
-- Parts. A request goes through the dependencies of api/deps.py, then through a route of
-- api/routes/finance.py, which reads and writes rows of models/finance.py, notifies users by
-- services/notification_service.py and logs by services/audit_service.py, all in one SQLAlchemy
-- session that db/database.py opens and closes.
--
-- Files.
--   Shared            Boolean tests, tables of rows (queries and writes of the session), the readings
--                     of the Python runtime (Env) and signed amounts (Int).
--   People            models/user.py, role.py, pole.py, project.py; the role tests of api/deps.py and
--                     core/roles.py; People/Lifecycle is `reconcile_user_lifecycle` of
--                     services/operational_integrity.py.
--   Auth              sessions of signed-in users: services/session_service.py, `AuthSession`, the
--                     access tokens of core/security.py and `get_current_user` of api/deps.py. The
--                     hash, the signed tokens and the random texts are parameters (AuthEnv).
--   Attendance        models/attendance.py and api/routes/attendance.py: Settings, Access (who manages
--                     a session), Penalty (the fee of a record, kept in step with it), Records,
--                     Expected, Sessions (open, close, archive), Roster (a member that is added,
--                     the token that is shown), Scan, Manual and Justifications.
--                     Archive is the capture of an archived session, of
--                     services/institutional_memory_capture.py. QrToken and Base64 are
--                     services/attendance_qr_service.py; the libraries that it calls for JSON,
--                     base64, HMAC and dates are parameters (QrEnv), and RoundTrip's IsCodec says
--                     what is taken of them. Routes are the requests and their runs;
--                     Invariant says what they keep; Closing, CheckIn,
--                     Penalty/Moves, Penalty/Consistency, Roster/Again, Roster/Display and
--                     Archive/Again hold
--                     further proofs.
--   Outbox            models/notification.py, UserPreference, AppInstallation, PushDelivery;
--                     notification_service.py, notification_channels.py, and
--                     push_lifecycle.py: `enqueue_push_deliveries` in Push, the cancellations in
--                     Lifecycle. Outbox/Inbox, Dedupe and Deliveries hold the proofs.
--   Outbox/Worker     services/push_worker_service.py, with the provider as a parameter: the claim of
--                     due deliveries, the sending and the retries. Diagram is the state diagram of a
--                     delivery, Cases the branches of `process_push_delivery`; Draining, Attempts,
--                     Limits, Waits and Sending hold the proofs.
--   Server            the whole database, audit log entries, and a request handler over its session:
--                     `saved` is what is committed and `work` what the handler sees; `commit`
--                     flushes and copies `work`, and an error drops what was not committed, as
--                     `get_db` closes the session. The table of the institutional memory is there
--                     too. Deps holds the dependencies of api/deps.py.
--   Ledger            models/finance.py, schemas/finance.py and the routes: Accounts (the helpers
--                     `ensure_financial_account`, `update_fee_status`,
--                     `allocate_payment_to_unpaid_fees`), Fees, BulkFees, Payments, Refusals,
--                     CashBook.
--   Mobile            services/mobile_money_service.py, models/mobile_money.py, `paydunya_ipn` of
--                     api/routes/payments.py, and the refresh and reconciliation routes of
--                     api/routes/finance.py. Amounts are whole francs. The provider's answers are
--                     parameters. Settlement, Payments, Finality, Arrivals and PaidOnce hold the
--                     proofs.
--   Ledger/Balance    what a consistent ledger is, and the proofs on its writes.
--   Ledger/Routes     the finance requests, their runs, and the proofs on them.
-- A function of the source keeps its name; a long route is split at its tests, and the part after
-- them has a name of its own (`validate_pending`, `reject_pending`, `cancel_open`).
--
-- Readings of the source. Amounts are the Numeric(12, 2) columns, counted in hundredths; the routes
-- compute with floats, whose rounding is not modelled, nor the bound of 12 digits. Identifiers and
-- times are numbers. The random identifiers of each group of tables are numbered by `drawn`, and a
-- theorem that needs them distinct says that `uuid4` gives no value twice. A request reads the clock
-- once. A request runs alone: row locks and concurrent requests are not modelled. The session does
-- not flush before a query (`autoflush=False`): notifications and expected members that were added
-- wait in `pending` for the next flush, and no query sees them there; of the other tables, a query
-- sees what the request wrote before, except where a definition says otherwise (`drop_token`).
-- Violated database constraints are not modelled. `ip` stands for `get_client_ip(request)`. Python's
-- text functions are parameters in Env. Email channels only log, and are left out.
--
-- No definition needs fuel: the loops run over lists of rows.
--
-- Of attendance, minutes of lateness that a session allows are a natural number, and the settings of
-- the amounts have two decimals at most.
--
-- Not modelled: the initiation of a mobile payment and the payment providers, the routes of
-- authentication, the creation and the edition of attendance sessions, their reports and cards, the
-- routes of the users' life cycle, and the other routes; the lists, receipts and CSV exports of the
-- finance routes, which only read.
pub mod Attendance
pub mod Auth
pub mod Ledger
pub mod Mobile
pub mod Outbox
pub mod People
pub mod Server
pub mod Shared
