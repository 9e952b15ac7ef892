-- ===== src/Server/Handler.antt =====
-- A request handler over its SQLAlchemy session (db/database.py). A session holds what is committed
-- and the working state; a raised exception keeps the working state, and the close of the session
-- drops whatever was not committed.
pub mod Laws
use enactspace.Shared.{
  from_keys, ℕ, String, Bool, Option, none, some, List, [], ◌∷◌, ◌==◌, is_none, not, if◌then◌else◌,
}
use enactspace.Shared.Env.{Env}
use enactspace.Ledger.Models.{Ledger}
use enactspace.Attendance.Models.{Attendance}
use enactspace.Outbox.Models.{Outbox, flush_notifications}
use enactspace.Outbox.Service.{NotificationRequest, create_notification}
use enactspace.People.Models.{User, People}
use enactspace.Server.Models.{Json, Db, create_audit_log}
use enactspace.Shared.Table.{first}

pub data Error : Type 0 where
  http_exception : ℕ → String → Error
  value_error : String → Error

pub data Result (A : Type 0) : Type 0 where
  ok : A → Result A
  err : Error → Result A

pub record Session : Type 0 where
  pub saved : Db
  pub work : Db

abbrev pub Handler : Type 0 → Type 0
Handler A = Session → Result A × Session

module _ {A : Type 0} where
  abbrev pub pure : A → Handler A
  pure a s = (ok a, s)

  abbrev pub raise : ℕ → String → Handler A
  raise code detail s = (err (http_exception code detail), s)

  abbrev pub or_raise : Option A → ℕ → String → Handler A
  or_raise none code detail = raise code detail
  or_raise (some a) code detail = pure a

  abbrev pub gets : (Db → A) → Handler A
  gets f s = (ok (f s.work), s)

  -- a call that reads and writes the tables of the ledger
  abbrev pub on_ledger : (Ledger → A × Ledger) → Handler A
  on_ledger f s =
      let (a, l) = f s.work.ledger in (ok a, record s { work = record s.work { ledger = l } })

  -- a call that reads and writes several tables
  abbrev pub on_db : (Db → A × Db) → Handler A
  on_db f s = let (a, db) = f s.work in (ok a, record s { work = db })

infixl 5 ◌>>=◌ ◌>>◌
abbrev pub ◌>>=◌ : {A B : Type 0} → Handler A → (A → Handler B) → Handler B
◌>>=◌ m f s = let (r, s') = m s in elim r [ ok a ↦ f a s' | err e ↦ (err e, s') ]

abbrev pub ◌>>◌ : {B : Type 0} → Handler (Unit {0}) → Handler B → Handler B
m >> k = m >>= λ _. k

abbrev pub raise_if : Bool → ℕ → String → Handler (Unit {0})
raise_if c code detail s = (if c then err (http_exception code detail) else ok tt, s)

abbrev pub modify_ledger : (Ledger → Ledger) → Handler (Unit {0})
modify_ledger f s = (ok tt, record s { work = record s.work { ledger = f s.work.ledger } })

abbrev pub modify_outbox : (Outbox → Outbox) → Handler (Unit {0})
modify_outbox f s = (ok tt, record s { work = record s.work { outbox = f s.work.outbox } })

abbrev pub modify_attendance : (Attendance → Attendance) → Handler (Unit {0})
modify_attendance f s =
    (ok tt, record s { work = record s.work { attendance = f s.work.attendance } })

abbrev pub modify_people : (People → People) → Handler (Unit {0})
modify_people f s = (ok tt, record s { work = record s.work { people = f s.work.people } })

-- `db.flush()`, as far as a query can tell
abbrev pub flush : Handler (Unit {0})
flush = modify_outbox flush_notifications

abbrev pub flushed : Db → Db
flushed db = record db { outbox = flush_notifications db.outbox }

-- `db.commit()`, which flushes
abbrev pub commit : Handler (Unit {0})
commit s = (ok tt, record { saved = flushed s.work; work = flushed s.work })

-- The run of one request: the database afterwards holds what was committed.
unfoldable pub respond : {A : Type 0} → Handler A → Db → Result A × Db
respond m db = let (r, s) = m (record { saved = db; work = db }) in (r, s.saved)

abbrev pub reply : {A : Type 0} → Handler A → Db → Result A
reply m db = (respond m db).0

abbrev pub after : {A : Type 0} → Handler A → Db → Db
after m db = (respond m db).1

module _ (env : Env) where
  -- `audit(…)`, on the session
  abbrev pub audit :
      String
      → Option ℕ
      → Option String
      → Option ℕ
      → Option (List (String × Json))
      → Option (List (String × Json))
      → Option String
      → Handler (Unit {0})
  audit action user_id entity_type entity_id old_value new_value ip s = (
    ok tt,
    record s {
      work = record s.work {
        audit =
            create_audit_log env action user_id entity_type entity_id old_value new_value ip
              s.work.audit;
      };
    },
  )

  -- the query for the recipient's account in `create_notification`
  unfoldable pub has_account : ℕ → People → Bool
  has_account user_id p = not (is_none (first (λ (u : User). u.id == user_id) p.users))

  -- `notify_user(db, user_id=recipient, …)`
  abbrev pub notify_user : ℕ → NotificationRequest → Handler (Unit {0})
  notify_user recipient r s = (
    ok tt,
    record s {
      work = record s.work {
        outbox =
            (create_notification env recipient r (has_account recipient s.work.people)
              s.work.outbox).1;
      };
    },
  )

  -- the loop of `create_notifications`: the outbox after the recipients
  unfoldable pub notify_all : List ℕ → NotificationRequest → People → Outbox → Outbox
  notify_all [] r people outbox = outbox
  notify_all (u ∷ us) r people outbox =
      notify_all us r people (create_notification env u r (has_account u people) outbox).1

  -- `notify_users(db, user_ids=…, …)`
  abbrev pub notify_users : List ℕ → NotificationRequest → Handler (Unit {0})
  notify_users us r s = (
    ok tt,
    record s {
      work = record s.work { outbox = notify_all (from_keys us) r s.work.people s.work.outbox };
    },
  )
