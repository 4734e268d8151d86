-- ===== src/Enquiries/Privacy.antt =====
-- What a passenger sees of the enquiries.
use metroflow_ai_backend.Common.{
  ℕ, ◌+◌, ◌≡◌, refl, sym, ap, ◌∙◌, Bool, false, Option, none, some, List, [], ◌∷◌, select,
  select_within, length, if◌then◌else◌, Bool-cases, Option-cases, inl, inr, arith, ℤ, ℕ_discrete,
}
use metroflow_ai_backend.Common.Dict.{Dict, lookup, HasDistinct}
use metroflow_ai_backend.Users.{Profile}
use metroflow_ai_backend.Enquiries.{
  EnquiryStatus, EnquiryStatus-discrete, open_enquiry, in_progress, resolved, Enquiry, EnquiryDb,
  is_staff, is_of_user, is_visible, list_enquiries, get_enquiry, count_of, has_status,
  get_enquiry_stats,
}

module _ {User : Type 0} (dec : Discrete User) where
  -- The table with no enquiries but a user's.
  abbrev pub only_of : User → EnquiryDb User → EnquiryDb User
  only_of user db = record db { enquiries = select (λ e. is_of_user dec user e.1) db.enquiries }

  select_keeps_missing :
      (p : Enquiry User → Bool) (id : ℕ) (rows : Dict ℕ (Enquiry User))
      → lookup ℕ_discrete id rows ≡ none
      → lookup ℕ_discrete id (select (λ e. p e.1) rows) ≡ none
  unfolding lookup
  select_keeps_missing p id [] h = refl
  select_keeps_missing p id ((k, e) ∷ rows) h = elim (ℕ_discrete k id) [
    | yes q ↦ absurd (ground (arith, q, h))
    | no ne ↦ ground (arith, ne, h, select_keeps_missing p id rows (ground (arith, ne, h)))
  ]

  lookup-select :
      (p : Enquiry User → Bool) (id : ℕ) (e : Enquiry User) (rows : Dict ℕ (Enquiry User))
      → HasDistinct ℕ_discrete rows
      → lookup ℕ_discrete id rows ≡ some e
      → lookup ℕ_discrete id (select (λ e. p e.1) rows) ≡ (if p e then some e else none)
  unfolding lookup
  lookup-select p id e [] distinct h = absurd (ground (arith, h))
  lookup-select p id e ((k, f) ∷ rows) distinct h = elim (ℕ_discrete k id) [
    | yes q ↦
        let same : f ≡ e = ground (arith, q, h) in
        let absent : lookup ℕ_discrete id (select (λ x. p x.1) rows) ≡ none =
          select_keeps_missing p id rows
            (ap (λ j. lookup ℕ_discrete j rows) (sym q) ∙ distinct.0) in
        elim (Bool-cases (p f)) [
          | inl b ↦ ground (arith, q, b, same, ap p same)
          | inr b ↦ ground (arith, b, ap p same, absent)
        ]
    | no ne ↦ ground (arith, ne, h, lookup-select p id e rows distinct.1 (ground (arith, ne, h)))
  ]

  visible_same :
      (current : Profile User) (rows : Dict ℕ (Enquiry User))
      → is_staff current.role ≡ false
      → select (λ e. is_visible dec current e.1) (select (λ e. is_of_user dec current.id e.1) rows)
        ≡ select (λ e. is_visible dec current e.1) rows
  visible_same current rows h =
      select_within (λ e. is_visible dec current e.1) (λ e. is_of_user dec current.id e.1) rows
        (λ e seen. ground (arith, h, seen))

  get_same :
      (id : ℕ) (current : Profile User) (db : EnquiryDb User)
      → is_staff current.role ≡ false
      → HasDistinct ℕ_discrete db.enquiries
      → get_enquiry dec id current (only_of current.id db) ≡ get_enquiry dec id current db
  unfolding get_enquiry
  get_same id current db h distinct = elim (Option-cases (lookup ℕ_discrete id db.enquiries)) [
    | inl missing ↦
        ground
          (arith, missing, select_keeps_missing (is_of_user dec current.id) id db.enquiries missing)
    | inr (e, found) ↦ ground (
      arith,
      h,
      found,
      lookup-select (is_of_user dec current.id) id e db.enquiries distinct found,
    )
  ]

  -- What a user who is not of the staff is shown, and the counts, are what they would be if there were
  -- no enquiries of others; an enquiry of another is answered as one that does not exist. The ids are
  -- distinct.
  pub enquiries_private :
      (current : Profile User) (status : Option EnquiryStatus) (limit offset : ℤ) (id : ℕ)
      (db : EnquiryDb User)
      → is_staff current.role ≡ false
      → HasDistinct ℕ_discrete db.enquiries
      → (list_enquiries dec current status limit offset (only_of current.id db)
          ≡ list_enquiries dec current status limit offset db)
        × (get_enquiry_stats dec current (only_of current.id db) ≡ get_enquiry_stats dec current db)
        × (get_enquiry dec id current (only_of current.id db) ≡ get_enquiry dec id current db)
  unfolding list_enquiries get_enquiry_stats
  enquiries_private current status limit offset id db h distinct =
      let rows = visible_same current db.enquiries h in
      (rw rows refl, rw rows refl, get_same id current db h distinct)

  counted_once :
      (s : EnquiryStatus)
      → (if has_status open_enquiry s then 1 else 0)
          + (if has_status in_progress s then 1 else 0)
          + (if has_status resolved s then 1 else 0)
        ≡ 1
  unfolding EnquiryStatus-discrete
  counted_once open_enquiry = refl
  counted_once in_progress = refl
  counted_once resolved = refl

  -- The three counts are of all the rows that a user sees.
  pub counts_all :
      (rows : List (ℕ × Enquiry User))
      → count_of dec open_enquiry rows + count_of dec in_progress rows + count_of dec resolved rows
        ≡ length rows
  counts_all [] = omega arith
  counts_all (e ∷ rows) = ground (arith, counted_once e.1.status, counts_all rows)
