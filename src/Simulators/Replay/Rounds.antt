-- ===== src/Simulators/Replay/Rounds.antt =====
-- A station's rows, replayed round after round.
use mathlib.Core.Path.{subst}
use metroflow_ai_backend.Common.{
  has_head, ℕ, zero, suc, ◌+◌, ◌≤◌, ◌≡◌, refl, sym, ap, ◌∙◌, Option, some, List, [], ◌∷◌, map,
  length, take, drop, arith,
}
use metroflow_ai_backend.Simulators.Replay.{FlowRow, Replay, next_row}
use metroflow_ai_backend.Simulators.Replay.Cycle.{
  row_at, wrap, IsAt, next_row-IsAt, window_pop, length-window,
}

module _ {Code : Type 0} (dec : Discrete Code) where
  -- What so many calls of `_next_row` return, and the state after them.
  abbrev pub replay : ℕ → Code → Replay Code → List (Option (FlowRow Code))
  replay zero code r = []
  replay (suc n) code r = (next_row dec code r).0 ∷ replay n code (next_row dec code r).1

  abbrev pub replayed : ℕ → Code → Replay Code → Replay Code
  replayed zero code r = r
  replayed (suc n) code r = replayed n code (next_row dec code r).1

  -- The state after so many rounds.
  abbrev pub after_rounds : ℕ → ℕ → Code → Replay Code → Replay Code
  after_rounds zero count code r = r
  after_rounds (suc k) count code r = after_rounds k count code (replayed count code r)

  window_step :
      (n k : ℕ) (xs : List (FlowRow Code))
      → n + suc k ≤ length xs
      → map some (take (suc k) (drop n xs)) ≡ row_at n xs ∷ map some (take k (drop (suc n) xs))
  window_step n k xs h =
      let size = length-window n (suc k) xs h in
      let (x, ys, e) = has_head (take (suc k) (drop n xs)) (omega (arith, size)) in
      let (head, tail) = window_pop n (suc k) xs x ys e in
      ap (map some) e ∙ ground (arith, head, tail)

  -- What calls of `_next_row` return, from a place on, if they do not go past the last row.
  Replays : Code → ℕ → ℕ → ℕ → ℕ → Replay Code → ℕ → Type 0
  Replays code start count n place r p =
      (replay n code r ≡ map some (take n (drop (start + place) r.file)))
      × IsAt dec code start count p (replayed n code r)
      × ((replayed n code r).file ≡ r.file)

  Replays-cons :
      (code : Code) (start count place q n p : ℕ) (r : Replay Code)
      → IsAt dec code start count place r
      → wrap count place ≡ q
      → q + suc n ≤ count
      → Replays code start count n (suc q) (next_row dec code r).1 p
      → Replays code start count (suc n) q r p
  unfolding Replays
  Replays-cons code start count place q n p r h w le rest =
      let (row, g, same) = next_row-IsAt dec code start count place r h in
      let head = row ∙ ap (λ k. row_at (start + k) r.file) w in
      let fits : start + q + suc n ≤ length r.file = omega (arith, h.in_file, le) in
      let further : start + suc q ≡ suc (start + q) = omega arith in
      let moved = rest.0 ∙ (λ i. map some (take n (drop (further i) (same i)))) in
      ((λ i. head i ∷ moved i) ∙ sym (window_step (start + q) n r.file fits), rest.1, rest.2 ∙ same)

  next_row_moves_on :
      (code : Code) (start count place q : ℕ) (r : Replay Code)
      → IsAt dec code start count place r
      → wrap count place ≡ q
      → IsAt dec code start count (suc q) (next_row dec code r).1
  next_row_moves_on code start count place q r h w =
      subst (λ k. IsAt dec code start count (suc k) (next_row dec code r).1) w
        (next_row-IsAt dec code start count place r h).1

  replay_from :
      (code : Code) (start count n p e : ℕ) (r : Replay Code)
      → IsAt dec code start count p r
      → p + n ≡ e
      → e ≤ count
      → Replays code start count n p r e
  unfolding Replays
  replay_from code start count zero p e r h end le =
      (refl, subst (λ k. IsAt dec code start count k r) (omega (arith, end)) h, refl)
  replay_from code start count (suc n) p e r h end le =
      let stays : wrap count p ≡ p = ground (arith, le, end) in
      Replays-cons code start count p p n e r h stays (omega (arith, end, le)) (
        replay_from code start count n (suc p) e (next_row dec code r).1
          (next_row_moves_on code start count p p r h stays) (omega (arith, end)) le)

  replay_round :
      (m : ℕ) (code : Code) (start p : ℕ) (r : Replay Code)
      → IsAt dec code start (suc m) p r
      → wrap (suc m) p ≡ 0
      → Replays code start (suc m) (suc m) 0 r (suc m)
  replay_round m code start p r h w =
      Replays-cons code start (suc m) p 0 m (suc m) r h w (omega arith) (
        replay_from code start (suc m) m 1 (suc m) (next_row dec code r).1
          (next_row_moves_on code start (suc m) p 0 r h w) (omega arith) (omega arith))

  -- Where the buffer of a station has exactly its rows from a place to the cursor, and the first row
  -- is next: as many calls as the index counts for the station return so many rows of the file from
  -- its start on, in their order, and so again in every later round.
  pub replay-after_rounds :
      (k m : ℕ) (code : Code) (start p : ℕ) (r : Replay Code)
      → IsAt dec code start (suc m) p r
      → wrap (suc m) p ≡ 0
      → replay (suc m) code (after_rounds k (suc m) code r)
        ≡ map some (take (suc m) (drop start r.file))
  unfolding Replays
  replay-after_rounds zero m code start p r h e =
      let start_0 : start + 0 ≡ start = omega arith in
      (replay_round m code start p r h e).0
      ∙ ap (λ s. map some (take (suc m) (drop s r.file))) start_0
  replay-after_rounds (suc k) m code start p r h e =
      let (rows, at, same) = replay_round m code start p r h e in
      replay-after_rounds k m code start (suc m) (replayed (suc m) code r) at (ground arith)
      ∙ ap (λ file. map some (take (suc m) (drop start file))) same
