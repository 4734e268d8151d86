-- ===== src/Middleware/LogBuffer.antt =====
-- app/core/log_buffer.py: the last records of the log, in a bounded deque.
use mathlib.Core.List.{append-nil}
use metroflow_ai_backend.Common.{
  ℕ, zero, suc, ◌-◌, ◌≤◌, ◌≡◌, ◌∙◌, ap, sym, refl, Bool, Option, none, some, List, [], ◌∷◌, ◌++◌,
  ltb, if◌then◌else◌, arith, length, length-append, take, drop, select, Bool-cases, inl, inr,
}

abbrev pub max_log_entries : ℕ
max_log_entries = 500

-- `list.reverse`
abbrev pub reverse : {A : Type 0} → List A → List A
reverse [] = []
reverse (x ∷ xs) = reverse xs ++ x ∷ []

module _ {Entry : Type 0} where
  -- `deque.append` where `maxlen` is given: the oldest entry goes if the deque is full.
  abbrev pub append : ℕ → Entry → List Entry → List Entry
  append max entry buffer =
      if ltb (length buffer) max then buffer ++ entry ∷ [] else drop 1 buffer ++ entry ∷ []

  -- `emit`, for records that can be formatted, one after the other.
  abbrev pub emit_all : ℕ → List Entry → List Entry → List Entry
  emit_all max [] buffer = buffer
  emit_all max (entry ∷ entries) buffer = emit_all max entries (append max entry buffer)

  -- `get_recent_logs`, where the test is of the level, if one is given.
  abbrev pub get_recent_logs : ℕ → Option (Entry → Bool) → List Entry → List Entry
  get_recent_logs limit none buffer = take limit (reverse buffer)
  get_recent_logs limit (some has_level) buffer = take limit (reverse (select has_level buffer))

  -- The history, newest first.
  abbrev pub history : List Entry → List Entry → List Entry
  history [] before = before
  history (entry ∷ entries) before = history entries (entry ∷ before)

  reverse-append_one : (x : Entry) (xs : List Entry) → reverse (xs ++ x ∷ []) ≡ x ∷ reverse xs
  reverse-append_one x [] = refl
  reverse-append_one x (y ∷ xs) = ap (λ zs. zs ++ y ∷ []) (reverse-append_one x xs)

  length-reverse : (xs : List Entry) → length (reverse xs) ≡ length xs
  length-reverse [] = refl
  length-reverse (x ∷ xs) = omega (arith, length-append (reverse xs) (x ∷ []), length-reverse xs)

  take-append_one : (x : Entry) (xs : List Entry) → take (length xs) (xs ++ x ∷ []) ≡ xs
  take-append_one x [] = refl
  take-append_one x (y ∷ xs) = ap (λ zs. y ∷ zs) (take-append_one x xs)

  take_short :
      (n : ℕ) (xs : List Entry) → length (take (suc n) xs) ≤ n → take (suc n) xs ≡ take n xs
  take_short zero [] h = refl
  take_short zero (x ∷ xs) h = ground arith
  take_short (suc n) [] h = refl
  take_short (suc n) (x ∷ xs) h = ap (λ ys. x ∷ ys) (take_short n xs (omega (arith, h)))

  take-take : (n : ℕ) (xs : List Entry) → take n (take (suc n) xs) ≡ take n xs
  take-take zero xs = refl
  take-take (suc n) [] = refl
  take-take (suc n) (x ∷ xs) = ap (λ ys. x ∷ ys) (take-take n xs)

  length-take-le : (n : ℕ) (xs : List Entry) → length (take n xs) ≤ n
  length-take-le zero xs = omega arith
  length-take-le (suc n) [] = omega arith
  length-take-le (suc n) (x ∷ xs) = omega (arith, length-take-le n xs)

  reverse-drop :
      (buffer : List Entry) → reverse (drop 1 buffer) ≡ take (length buffer - 1) (reverse buffer)
  reverse-drop [] = refl
  reverse-drop (x ∷ buffer) =
      sym (take-append_one x (reverse buffer))
      ∙ ap (λ k. take k (reverse buffer ++ x ∷ [])) (omega (arith, length-reverse buffer))

  appended :
      (n : ℕ) (entry : Entry) (before buffer : List Entry)
      → reverse buffer ≡ take (suc n) before
      → reverse (append (suc n) entry buffer) ≡ take (suc n) (entry ∷ before)
  appended n entry before buffer h =
      let kept : length buffer ≡ length (take (suc n) before) =
        sym (length-reverse buffer) ∙ ap length h in
      elim (Bool-cases (ltb (length buffer) (suc n))) [
        | inl room ↦
            let short : length (take (suc n) before) ≤ n = ground (arith, room, kept) in
            rw room (
              reverse-append_one entry buffer
              ∙ ap (λ xs. entry ∷ xs) (h ∙ take_short n before short))
        | inr full ↦
            let most : length buffer - 1 ≡ n =
              ground (arith, full, kept, length-take-le (suc n) before) in
            rw full (
              reverse-append_one entry (drop 1 buffer)
              ∙ ap (λ xs. entry ∷ xs)
                  (reverse-drop buffer
                    ∙ ap (λ k. take k (reverse buffer)) most
                    ∙ ap (take n) h
                    ∙ take-take n before))
      ]

  emitted :
      (n : ℕ) (entries before buffer : List Entry)
      → reverse buffer ≡ take (suc n) before
      → reverse (emit_all (suc n) entries buffer) ≡ take (suc n) (history entries before)
  emitted n [] before buffer h = h
  emitted n (entry ∷ entries) before buffer h =
      emitted n entries (entry ∷ before) (append (suc n) entry buffer)
        (appended n entry before buffer h)

  select_last :
      (p : Entry → Bool) (x : Entry) (xs : List Entry)
      → select p (xs ++ x ∷ []) ≡ select p xs ++ (if p x then x ∷ [] else [])
  select_last p x [] = ground arith
  select_last p x (y ∷ xs) = elim (Bool-cases (p y)) [
    | inl b ↦ rw b (ap (λ ys. y ∷ ys) (select_last p x xs))
    | inr b ↦ rw b (select_last p x xs)
  ]

  reverse-select :
      (p : Entry → Bool) (xs : List Entry) → reverse (select p xs) ≡ select p (reverse xs)
  reverse-select p [] = refl
  reverse-select p (x ∷ xs) =
      let last = select_last p x (reverse xs) in
      elim (Bool-cases (p x)) [
        | inl b ↦ rw (last, b) (ap (λ ys. ys ++ x ∷ []) (reverse-select p xs))
        | inr b ↦ rw (last, b) (reverse-select p xs ∙ sym (append-nil (select p (reverse xs))))
      ]

  -- The records of the level, or all of them where none is given.
  abbrev pub of_level : Option (Entry → Bool) → List Entry → List Entry
  of_level none entries = entries
  of_level (some has_level) entries = select has_level entries

  -- Whatever is logged, with a level or without one: what is returned is, newest first, those of the
  -- level among the newest records that a buffer of at least one place keeps, and of these as many as
  -- are asked for.
  pub get_recent_logs-emit_all :
      (limit n : ℕ) (level : Option (Entry → Bool)) (entries : List Entry)
      → get_recent_logs limit level (emit_all (suc n) entries [])
        ≡ take limit (of_level level (take (suc n) (history entries [])))
  get_recent_logs-emit_all limit n none entries = ap (take limit) (emitted n entries [] [] refl)
  get_recent_logs-emit_all limit n (some has_level) entries = ap (take limit) (
      reverse-select has_level (emit_all (suc n) entries [])
      ∙ ap (select has_level) (emitted n entries [] [] refl))
