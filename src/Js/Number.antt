-- ===== src/Js/Number.antt =====
-- The `number` type (IEEE doubles) as an interface: the operations that the program uses, with no
-- laws. What a theorem needs of them is a hypothesis of that theorem.
use soro_pool.Base.{String, Bool}
use soro_pool.Base.Int.{ℤ}

pub record JsNumber : Type 1 where
  pub Num : Type 0
  -- `Number(text)`, and a numeric literal by its text
  pub of_text : String → Num
  -- `Number(x)` for a bigint, and an integral number
  pub of_int : ℤ → Num
  pub add : Num → Num → Num
  pub sub : Num → Num → Num
  pub mul : Num → Num → Num
  pub div : Num → Num → Num
  -- `a < b`, false on NaN
  pub lt : Num → Num → Bool
  -- `Math.abs(x)`
  pub abs : Num → Num
  -- `a <= b`, false on NaN
  pub le : Num → Num → Bool
  -- `Math.floor(x)` and `Math.round(x)`, for values that are finite
  pub floor : Num → ℤ
  pub round : Num → ℤ
