-- ===== src/Common/Dict.antt =====
-- Python's `dict` and `OrderedDict`: entries in insertion order, over keys with a decidable
-- equality. The first entry is the oldest.
pub mod Order
use Prim.Native.Nat.{◌+◌, ◌≤◌}
use mathlib.Core.Path.{◌≡◌, refl}
use mathlib.Core.Logic.{ite, ◌≢◌}
use mathlib.Core.Option.{Option, none, some}
use mathlib.Core.List.{List, [], ◌∷◌, ◌++◌, map}
use native.Mathlib.Omega.{arith}
use metroflow_ai_backend.Common.Lists.{length}

abbrev pub Dict {ℓ} : Type ℓ → Type ℓ → Type ℓ
Dict K V = List (K × V)

module _ {ℓ} {K V : Type ℓ} where
  abbrev pub keys : Dict K V → List K
  keys = map (λ e. e.0)

  abbrev pub values : Dict K V → List V
  values = map (λ e. e.1)

module _ {ℓ} {K V : Type ℓ} (dec : Discrete K) where
  -- `d.get(k)`
  unfoldable pub lookup : K → Dict K V → Option V
  lookup k [] = none
  lookup k ((j, v) ∷ d) = ite (dec j k) (some v) (lookup k d)

  -- `d[k] = v`: an old key keeps its place, a new one goes to the end.
  unfoldable pub insert : K → V → Dict K V → Dict K V
  insert k v [] = (k, v) ∷ []
  insert k v ((j, w) ∷ d) = ite (dec j k) ((j, v) ∷ d) ((j, w) ∷ insert k v d)

  -- `d.pop(k, None)`
  unfoldable pub erase : K → Dict K V → Dict K V
  erase k [] = []
  erase k ((j, w) ∷ d) = ite (dec j k) d ((j, w) ∷ erase k d)

  -- No key stands twice.
  abbrev pub HasDistinct : Dict K V → Type ℓ
  HasDistinct [] = Unit
  HasDistinct ((k, v) ∷ d) = (lookup k d ≡ none) × HasDistinct d

  pub lookup-insert :
      (k j : K) (v : V) (d : Dict K V)
      → lookup j (insert k v d) ≡ ite (dec k j) (some v) (lookup j d)
  unfolding lookup insert
  lookup-insert k j v [] = refl
  lookup-insert k j v ((i, w) ∷ d) = ground (arith, lookup-insert k j v d)

  pub lookup-insert_self : (k : K) (v : V) (d : Dict K V) → lookup k (insert k v d) ≡ some v
  lookup-insert_self k v d = ground (arith, lookup-insert k k v d)

  pub lookup-erase_ne : (k j : K) (d : Dict K V) → k ≢ j → lookup j (erase k d) ≡ lookup j d
  unfolding lookup erase
  lookup-erase_ne k j [] h = refl
  lookup-erase_ne k j ((i, w) ∷ d) h = ground (arith, lookup-erase_ne k j d h)

  pub lookup-erase_self : (k : K) (d : Dict K V) → HasDistinct d → lookup k (erase k d) ≡ none
  unfolding lookup erase
  lookup-erase_self k [] h = refl
  lookup-erase_self k ((i, w) ∷ d) h = ground (arith, lookup-erase_self k d h.1)

  pub lookup-append : (j : K) (d e : Dict K V) → lookup j d ≡ none → lookup j (d ++ e) ≡ lookup j e
  unfolding lookup
  lookup-append j [] e h = refl
  lookup-append j ((i, w) ∷ d) e h = ground (arith, lookup-append j d e)

  pub insert-HasDistinct :
      (k : K) (v : V) (d : Dict K V) → HasDistinct d → HasDistinct (insert k v d)
  unfolding lookup insert
  insert-HasDistinct k v [] h = (refl, tt)
  insert-HasDistinct k v ((i, w) ∷ d) h =
      ground (arith, insert-HasDistinct k v d h.1, lookup-insert k i v d)

  pub erase-HasDistinct : (k : K) (d : Dict K V) → HasDistinct d → HasDistinct (erase k d)
  unfolding lookup erase
  erase-HasDistinct k [] h = tt
  erase-HasDistinct k ((i, w) ∷ d) h =
      ground (arith, erase-HasDistinct k d h.1, lookup-erase_ne k i d)

  pub length-insert-le : (k : K) (v : V) (d : Dict K V) → length (insert k v d) ≤ length d + 1
  unfolding insert
  length-insert-le k v [] = omega arith
  length-insert-le k v (e ∷ d) = ground (arith, length-insert-le k v d)

  pub length-erase-le : (k : K) (d : Dict K V) → length (erase k d) ≤ length d
  unfolding erase
  length-erase-le k [] = omega arith
  length-erase-le k (e ∷ d) = ground (arith, length-erase-le k d)
