-- ===== src/Shared/Json.antt =====
-- The values of JSON columns.
use Prim.Native.Nat.{ℕ}
use Prim.Native.String.{String}
use mathlib.Core.Bool.{Bool}

pub data Json : Type 0 where
  text : String → Json
  number : ℕ → Json
  flag : Bool → Json
  null : Json
