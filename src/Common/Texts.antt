-- ===== src/Common/Texts.antt =====
-- Python's `str` as a list of code points, with what the services do to texts.
use Prim.Native.Char.{code}
use Prim.Native.String.{String}
use Prim.Native.Nat.{ℕ, zero, suc, ◌+◌, ◌/◌, ◌%◌}
use mathlib.Core.Path.{◌≡◌, refl}
use mathlib.Core.Logic.{◌≢◌}
use mathlib.Core.Bool.{Bool, ◌||◌, ◌&&◌}
use mathlib.Core.List.{List, [], ◌∷◌, ◌++◌}
use native.Mathlib.Decide.{ℕ_discrete}
use native.Mathlib.Omega.{arith}
use metroflow_ai_backend.Common.Tests.{ltb, leb, ◌==◌, if◌then◌else◌}

abbrev pub Text : Type 0
Text = List ℕ

pub nil_ne_cons : (c : ℕ) (s : Text) → ◌≢◌ {A = Text} [] (c ∷ s)
nil_ne_cons c s e = ground (arith, e)

pub cons_ne_nil : (c : ℕ) (s : Text) → ◌≢◌ {A = Text} (c ∷ s) []
cons_ne_nil c s e = ground (arith, e)

pub cons_parts : (c d : ℕ) (s t : Text) → c ∷ s ≡ d ∷ t → (c ≡ d) × (s ≡ t)
cons_parts c d s t e = (ground (arith, e), ground (arith, e))

unfoldable pub Text-discrete : Discrete Text
unfolding ℕ_discrete
Text-discrete [] [] = yes refl
Text-discrete [] (d ∷ t) = no (nil_ne_cons d t)
Text-discrete (c ∷ s) [] = no (cons_ne_nil c s)
Text-discrete (c ∷ s) (d ∷ t) = elim (ℕ_discrete c d) [
  | no ne ↦ no (λ e. ne (cons_parts c d s t e).0)
  | yes p ↦ elim (Text-discrete s t) [
    | no ne ↦ no (λ e. ne (cons_parts c d s t e).1)
    | yes q ↦ yes (λ i. p i ∷ q i)
  ]
]

-- The code points of a literal.
abbrev pub codes : String → Text
codes String.[] = []
codes (String.◌∷◌ c s) = code c ∷ codes s

-- `c.isspace()`
abbrev pub is_space : ℕ → Bool
is_space c =
    leb 9 c && leb c 13
    || leb 28 c && leb c 32
    || c == 133
    || c == 160
    || c == 5760
    || leb 8192 c && leb c 8202
    || c == 8232
    || c == 8233
    || c == 8239
    || c == 8287
    || c == 12288

abbrev lstrip : Text → Text
lstrip [] = []
lstrip (c ∷ s) = let rest = lstrip s in if is_space c then rest else c ∷ s

abbrev rstrip : Text → Text
rstrip [] = []
rstrip (c ∷ s) =
    let rest = rstrip s in
    elim rest [ [] ↦ if is_space c then [] else c ∷ [] | x ∷ xs ↦ c ∷ x ∷ xs ]

-- `s.strip()`
abbrev pub strip : Text → Text
strip s = rstrip (lstrip s)

digits : ℕ → ℕ → Text
digits zero n = []
digits (suc fuel) n =
    let rest = digits fuel (n / 10) in
    if ltb n 10 then (b'0' + n) ∷ [] else rest ++ (b'0' + n % 10) ∷ []

-- `str(n)`; `n + 1` rounds are more than `n` has digits.
unfoldable pub decimal : ℕ → Text
unfolding digits
decimal n = digits (suc n) n
