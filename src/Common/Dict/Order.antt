-- ===== src/Common/Dict/Order.antt =====
-- What insertion and deletion do to the order of a dictionary.
use mathlib.Core.Path.{◌≡◌, refl, ap}
use mathlib.Core.Logic.{◌≢◌, ◌⊎◌, inl, inr}
use mathlib.Core.Bool.{Bool, false, not}
use mathlib.Core.Option.{none, some}
use mathlib.Core.List.{List, [], ◌∷◌, ◌++◌}
use native.Mathlib.Omega.{arith}
use metroflow_ai_backend.Common.Lists.{select, remove, All}
use metroflow_ai_backend.Common.Dict.{
  Dict, keys, lookup, insert, erase, HasDistinct, lookup-append, lookup-insert,
}

module _ {ℓ} {K V : Type ℓ} (dec : Discrete K) where
  pub keys-erase : (k : K) (d : Dict K V) → keys (erase dec k d) ≡ remove dec k (keys d)
  unfolding erase
  keys-erase k [] = refl
  keys-erase k ((j, v) ∷ d) = ground (arith, keys-erase k d)

  pub insert_new :
      (k : K) (v : V) (d : Dict K V) → lookup dec k d ≡ none → insert dec k v d ≡ d ++ (k, v) ∷ []
  unfolding lookup insert
  insert_new k v [] h = refl
  insert_new k v ((j, w) ∷ d) h = ground (arith, insert_new k v d)

  pub keys-append_one : (k : K) (v : V) (d : Dict K V) → keys (d ++ (k, v) ∷ []) ≡ keys d ++ k ∷ []
  keys-append_one k v [] = refl
  keys-append_one k v (e ∷ d) = ground (arith, keys-append_one k v d)

  pub erase-insert : (k : K) (v : V) (d : Dict K V) → erase dec k (insert dec k v d) ≡ erase dec k d
  unfolding erase insert
  erase-insert k v [] = ground arith
  erase-insert k v ((j, w) ∷ d) = ground (arith, erase-insert k v d)

  pub append_one-HasDistinct :
      (k : K) (v : V) (d : Dict K V)
      → lookup dec k d ≡ none
      → HasDistinct dec d
      → HasDistinct dec (d ++ (k, v) ∷ [])
  unfolding lookup insert
  append_one-HasDistinct k v [] absent h = (refl, tt)
  append_one-HasDistinct k v ((j, w) ∷ d) absent h =
      ground (arith, h.0, append_one-HasDistinct k v d, lookup-append dec j d ((k, v) ∷ []))

  -- The keys of a list go, one after the other.
  abbrev pub erase_all : List K → Dict K V → Dict K V
  erase_all [] d = d
  erase_all (k ∷ ks) d = erase_all ks (erase dec k d)

  erase_all_head :
      (k : K) (v : V) (ks : List K) (d : Dict K V)
      → All (λ j. k ≢ j) ks
      → erase_all ks ((k, v) ∷ d) ≡ (k, v) ∷ erase_all ks d
  unfolding erase
  erase_all_head k v [] d h = refl
  erase_all_head k v (j ∷ ks) d h = ground (arith, h.0, erase_all_head k v ks (erase dec j d) h.1)

  absent_select :
      (p : K × V → Bool) (k : K) (d : Dict K V)
      → lookup dec k d ≡ none
      → All (λ j. k ≢ j) (keys (select p d))
  unfolding lookup
  absent_select p k [] h = tt
  absent_select p k ((j, w) ∷ d) h = ground (arith, h, absent_select p k d)

  -- To erase the keys of the entries that fail a test is to select those that pass it.
  pub erase_all-select :
      (p : K × V → Bool) (d : Dict K V)
      → HasDistinct dec d
      → erase_all (keys (select (λ e. not (p e)) d)) d ≡ select p d
  unfolding erase
  erase_all-select p [] h = refl
  erase_all-select p ((k, v) ∷ d) h = ground (
    arith,
    h.0,
    erase_all-select p d h.1,
    erase_all_head k v (keys (select (λ e. not (p e)) d)) d,
    absent_select (λ e. not (p e)) k d h.0,
  )

  lookup-select :
      (p : K × V → Bool) (k : K) (d : Dict K V)
      → lookup dec k d ≡ none
      → lookup dec k (select p d) ≡ none
  unfolding lookup
  lookup-select p k [] h = refl
  lookup-select p k ((j, w) ∷ d) h = ground (arith, h, lookup-select p k d)

  pub select-HasDistinct :
      (p : K × V → Bool) (d : Dict K V) → HasDistinct dec d → HasDistinct dec (select p d)
  select-HasDistinct p [] h = tt
  select-HasDistinct p ((k, v) ∷ d) h =
      ground (arith, h.0, select-HasDistinct p d h.1, lookup-select p k d h.0)

module _ {ℓ} {K V : Type ℓ} where
  pub select-keys : (p : K → Bool) (d : Dict K V) → select p (keys d) ≡ keys (select (λ e. p e.0) d)
  select-keys p [] = refl
  select-keys p ((k, v) ∷ d) = ground (arith, select-keys p d)

-- A new value under an old key, where a test lets through neither the old entry nor the new one.
pub select-insert_same :
    {K V : Type 0} (dec : Discrete K) (p : K × V → Bool) (k : K) (v w : V) (d : Dict K V)
    → lookup dec k d ≡ some v
    → p (k, v) ≡ false
    → p (k, w) ≡ false
    → select p (insert dec k w d) ≡ select p d
unfolding lookup insert
select-insert_same dec p k v w [] found old new = ground (arith, found)
select-insert_same dec p k v w ((j, u) ∷ d) found old new = elim (dec j k) [
  | yes e ↦ ground (arith, e, found, old, new, ap (λ x. p (x, w)) e, ap (λ x. p (x, v)) e)
  | no ne ↦ ground (arith, ne, found, old, new, select-insert_same dec p k v w d)
]

module _ {ℓ} {K V : Type ℓ} (dec : Discrete K) where
  -- What is found after an insertion: the new value, or what was there.
  pub insert-found :
      (k j : K) (v w : V) (d : Dict K V)
      → lookup dec j (insert dec k v d) ≡ some w
      → ((k ≡ j) × (w ≡ v)) ⊎ ((k ≢ j) × (lookup dec j d ≡ some w))
  insert-found k j v w d h = elim (dec k j) [
    | yes e ↦ inl (e, ground (arith, e, h, lookup-insert dec k j v d))
    | no ne ↦ inr (ne, ground (arith, ne, h, lookup-insert dec k j v d))
  ]

  pub insert-missing :
      (k j : K) (v : V) (d : Dict K V)
      → lookup dec j (insert dec k v d) ≡ none
      → (k ≢ j) × (lookup dec j d ≡ none)
  insert-missing k j v d h = elim (dec k j) [
    | yes e ↦ absurd (ground (arith, e, h, lookup-insert dec k j v d))
    | no ne ↦ (ne, ground (arith, ne, h, lookup-insert dec k j v d))
  ]

  pub insert_keeps_missing :
      (k j : K) (v w : V) (d : Dict K V)
      → lookup dec k d ≡ some w
      → lookup dec j d ≡ none
      → lookup dec j (insert dec k v d) ≡ none
  insert_keeps_missing k j v w d found missing = elim (dec k j) [
    | yes e ↦ absurd (ground (arith, e, found, missing))
    | no ne ↦ ground (arith, ne, missing, lookup-insert dec k j v d)
  ]
