-- ===== src/Common/Paging.antt =====
-- What the queries do to a page: `ORDER BY`, the limit and the offset as a request gives them.
use Prim.Native.Nat.{ℕ, zero, suc, min, max, ◌≤◌}
use mathlib.Core.Path.{◌≡◌, refl}
use mathlib.Core.Bool.{Bool}
use mathlib.Core.Option.{Option, none, some}
use mathlib.Core.List.{List, [], ◌∷◌}
use native.Mathlib.Omega.{arith}
use metroflow_ai_backend.Common.Tests.{if◌then◌else◌}
use metroflow_ai_backend.Common.Lists.{length, take, drop}

-- Python's integers, where a request may send a negative one.
pub data ℤ : Type 0 where
  pos : ℕ → ℤ
  negsuc : ℕ → ℤ

-- `max(n, low)`, for a natural `low`
abbrev pub at_least : ℕ → ℤ → ℕ
at_least low (pos n) = max n low
at_least low (negsuc n) = low

-- `value or default`
abbrev pub or_default : ℕ → ℤ → ℤ
or_default default (pos zero) = pos default
or_default default (pos (suc n)) = pos (suc n)
or_default default (negsuc n) = negsuc n

-- `_clamp(value, default, maximum)`
abbrev pub clamp : Option ℤ → ℕ → ℕ → ℕ
clamp none default maximum = min (max default 1) maximum
clamp (some value) default maximum = min (at_least 1 value) maximum

module _ {ℓ} {A : Type ℓ} where
  -- `ORDER BY`: an item goes before the first one that it precedes. The order of equal rows, which
  -- SQL leaves open, is that of the table.
  abbrev pub put_in_order : (A → A → Bool) → A → List A → List A
  put_in_order precedes x [] = x ∷ []
  put_in_order precedes x (y ∷ ys) =
      let rest = put_in_order precedes x ys in if precedes y x then y ∷ rest else x ∷ y ∷ ys

  abbrev pub order_by : (A → A → Bool) → List A → List A
  order_by precedes [] = []
  order_by precedes (x ∷ xs) = put_in_order precedes x (order_by precedes xs)

  -- `.offset(offset).limit(limit)`
  abbrev pub page : ℕ → ℕ → List A → List A
  page limit offset xs = take limit (drop offset xs)

  pub length-page-le : (limit offset : ℕ) (xs : List A) → length (page limit offset xs) ≤ limit
  length-page-le zero offset xs = omega arith
  length-page-le (suc limit) zero [] = omega arith
  length-page-le (suc limit) zero (x ∷ xs) = omega (arith, length-page-le limit 0 xs)
  length-page-le (suc limit) (suc offset) [] = omega arith
  length-page-le (suc limit) (suc offset) (x ∷ xs) = length-page-le (suc limit) offset xs

  pub page_nil : (limit offset : ℕ) → page limit offset [] ≡ []
  page_nil zero offset = refl
  page_nil (suc limit) zero = refl
  page_nil (suc limit) (suc offset) = refl
