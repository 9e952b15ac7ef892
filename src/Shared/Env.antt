-- ===== src/Shared/Env.antt =====
-- What a request reads of its surroundings, none of which is the state of the database: the Python
-- runtime (clock, random identifiers, text functions, hashes) and the settings of core/config.py.
use Prim.Native.Nat.{ℕ}
use Prim.Native.String.{String}
use mathlib.Core.Bool.{Bool}
use mathlib.Core.Option.{Option}
use enactspace.Shared.Int.{ℤ}

pub record Env : Type 0 where
  -- `datetime.utcnow()`, in seconds: one reading for the whole request
  pub utcnow : ℕ
  -- the n-th draw of `uuid.uuid4()`
  pub uuid4 : ℕ → ℕ
  -- `text.strip()`
  pub strip : String → String
  -- f"{amount:.0f}" of an amount in hundredths
  pub fixed0 : ℕ → String
  -- `normalize_role_name` up to the two replacements: strip, lower, NFKD without combining marks
  pub fold_accents : String → String
  -- `text[:n]`
  pub prefix : ℕ → String → String
  -- "_".join(text.lower().split())
  pub join_words : String → String
  -- `text.lower()`
  pub lower : String → String
  -- `text.upper()`
  pub upper : String → String
  -- `text[-n:]`
  pub suffix : ℕ → String → String
  -- `str(id)`
  pub id_text : ℕ → String
  -- `settings.push_enabled`
  pub push_enabled : Bool
  -- `Decimal(str(float(text)))` in hundredths, or none for a ValueError
  pub float_of : String → Option ℤ
  -- `to_naive_utc(datetime.fromisoformat(text))`, or none for a ValueError
  pub fromisoformat : String → Option ℕ
  -- `str(n)`
  pub number_text : ℕ → String
  -- `time.date()`, as a number of days, and `time.year`
  pub date_of : ℕ → ℕ
  pub year_of : ℕ → ℕ
