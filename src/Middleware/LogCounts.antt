-- ===== src/Middleware/LogCounts.antt =====
-- app/core/log_buffer.py: how many records of each level the buffer has.
use metroflow_ai_backend.Common.{
  ℕ, ◌+◌, ◌≡◌, ap, ◌∙◌, Bool, true, false, none, some, List, [], ◌∷◌, Text, Text-discrete, codes,
  ite, arith, length, select,
}
use metroflow_ai_backend.Common.Dict.{Dict, lookup, insert, lookup-insert}

abbrev pub initial_counts : Dict Text ℕ
initial_counts =
    (codes "INFO", 0)
    ∷ (codes "WARNING", 0)
    ∷ (codes "ERROR", 0)
    ∷ (codes "CRITICAL", 0)
    ∷ (codes "DEBUG", 0)
    ∷ []

-- `counts.get(level, 0)`
abbrev pub level_count : Text → Dict Text ℕ → ℕ
level_count level counts = elim (lookup Text-discrete level counts) [ none ↦ 0 | some n ↦ n ]

module _ {Entry : Type 0} (level_of : Entry → Text) where
  -- The loop of `log_counts`.
  abbrev pub count_entries : List Entry → Dict Text ℕ → Dict Text ℕ
  count_entries [] counts = counts
  count_entries (e ∷ entries) counts =
      count_entries entries
        (insert Text-discrete (level_of e) (level_count (level_of e) counts + 1) counts)

  unfoldable pub log_counts : List Entry → Dict Text ℕ
  log_counts buffer = count_entries buffer initial_counts

  abbrev pub is_at : Text → Entry → Bool
  is_at level e = ite (Text-discrete (level_of e) level) true false

  -- A level's count is the number of its records, in addition to what it was.
  pub count_entries_lem :
      (level : Text) (entries : List Entry) (counts : Dict Text ℕ)
      → level_count level (count_entries entries counts)
        ≡ level_count level counts + length (select (is_at level) entries)
  count_entries_lem level [] counts = omega arith
  count_entries_lem level (e ∷ entries) counts =
      let l = level_of e in
      let n = level_count l counts + 1 in
      let set = lookup-insert Text-discrete l level n counts in
      count_entries_lem level entries (insert Text-discrete l n counts)
      ∙ elim (Text-discrete l level) [
        | yes q ↦ ground (arith, q, set, ap (λ k. level_count k counts) q)
        | no ne ↦ ground (arith, ne, set)
      ]
