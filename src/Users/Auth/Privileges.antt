-- ===== src/Users/Auth/Privileges.antt =====
-- Where roles come from: an admin gives them, and no one else.
use mathlib.Core.Path.{subst}
use metroflow_ai_backend.Common.{
  ◌≡◌, ◌⊎◌, inl, inr, refl, sym, ap, ◌∙◌, Bool, true, false, Option, none, some, ℕ, arith,
}
use metroflow_ai_backend.Common.Dict.{lookup}
use metroflow_ai_backend.Common.Dict.Order.{insert-found, insert-missing}
use metroflow_ai_backend.Alerts.{passenger}
use metroflow_ai_backend.Users.{Profile, Accounts, Verifier}
use metroflow_ai_backend.Users.Auth.{UserRole-discrete, is_admin, with_cached, updated_profile}
use metroflow_ai_backend.Users.Auth.Changes.{
  IsKeyed, IsSeen, in_table, with_row, Change, same, caches, creates, edits, forgets, evicts,
  Changes, nothing, more, in_redis-IsSeen, in_local-IsSeen, with_cached-IsSeen, with_row-IsSeen,
}
use metroflow_ai_backend.Users.Auth.Requests.{Reach, here, next, Step-Changes, Reach-IsKeyed}

module _ {Uid : Type 0} (dec : Discrete Uid) where
  -- Neither a row nor an entry of the cache is an admin's.
  abbrev pub HasNoAdmin : Accounts Uid → Type 0
  HasNoAdmin a = (p : Profile Uid) → IsSeen dec a p → is_admin p.role ≡ false

  -- A row has the role and the flag that it had, or is a new passenger's.
  abbrev pub IsAsBefore : Accounts Uid → Uid → Profile Uid → Type 0
  IsAsBefore start id p =
      ((q : Profile Uid) × (lookup dec id start.profiles ≡ some q)
        × (p.role ≡ q.role)
        × (p.is_active ≡ q.is_active))
      ⊎ ((lookup dec id start.profiles ≡ none) × (p.role ≡ passenger))

  record Keeps (start a : Accounts Uid) : Type 0 where
    rows : (id : Uid) (p : Profile Uid) → lookup dec id a.profiles ≡ some p → IsAsBefore start id p
    absent : (id : Uid) → lookup dec id a.profiles ≡ none → lookup dec id start.profiles ≡ none
    powerless : HasNoAdmin a

  before-no_admin :
      (start : Accounts Uid) (id : Uid) (p : Profile Uid)
      → HasNoAdmin start
      → IsAsBefore start id p
      → is_admin p.role ≡ false
  unfolding UserRole-discrete
  before-no_admin start id p none_there (inl (q, found, role, active)) =
      ap is_admin role ∙ none_there q (in_table id found)
  before-no_admin start id p none_there (inr (missing, role)) = ap is_admin role

  new_row :
      (start : Accounts Uid) (id : Uid) (p : Profile Uid)
      → lookup dec id start.profiles ≡ none
      → p.role ≡ passenger
      → IsAsBefore start id p
  new_row start id p missing role = inr (missing, role)

  same_rights :
      (start : Accounts Uid) (id : Uid) (p p' : Profile Uid)
      → p'.role ≡ p.role
      → p'.is_active ≡ p.is_active
      → IsAsBefore start id p
      → IsAsBefore start id p'
  same_rights start id p p' role active (inl (q, found, r, a)) =
      inl (q, found, role ∙ r, active ∙ a)
  same_rights start id p p' role active (inr (missing, r)) = inr (missing, role ∙ r)

  with_row-Keeps :
      (start a : Accounts Uid) (id : Uid) (p : Profile Uid)
      → HasNoAdmin start
      → IsAsBefore start id p
      → Keeps start a
      → Keeps start (with_row dec id p a)
  with_row-Keeps start a id p none_there before k = record {
    rows = λ j q found. elim (insert-found dec id j p q a.profiles found) [
      | inl (e, row) ↦
          subst (λ x. IsAsBefore start x q) e (subst (IsAsBefore start id) (sym row) before)
      | inr (ne, old) ↦ k.rows j q old
    ];
    absent = λ j missing. k.absent j (insert-missing dec id j p a.profiles missing).1;
    powerless = λ q seen. elim (with_row-IsSeen dec id p a q seen) [
      | inl row ↦ rw row (before-no_admin start id p none_there before)
      | inr old ↦ k.powerless q old
    ];
  }

  with_cached-Keeps :
      (start a : Accounts Uid) (reached : Bool) (process : ℕ) (id : Uid)
      (entry : Option (Profile Uid))
      → ((q : Profile Uid) → entry ≡ some q → is_admin q.role ≡ false)
      → Keeps start a
      → Keeps start (with_cached dec reached process id entry a)
  with_cached-Keeps start a reached process id entry only k = record {
    rows = λ j q found. k.rows j q (rows_same reached j ∙ found);
    absent = λ j missing. k.absent j (rows_same reached j ∙ missing);
    powerless = λ q seen. elim (with_cached-IsSeen dec reached process id entry a q seen) [
      | inl new ↦ only q new
      | inr old ↦ k.powerless q old
    ];
  }
    where
      rows_same :
          (reached : Bool) (j : Uid)
          → lookup dec j a.profiles
            ≡ lookup dec j (with_cached dec reached process id entry a).profiles
      rows_same true j = refl
      rows_same false j = refl

  no_entry : (q : Profile Uid) → none ≡ some q → is_admin q.role ≡ false
  no_entry q e = absurd (ground (arith, e))

  Change-Keeps :
      (start : Accounts Uid) {deletes : Bool} {a b : Accounts Uid}
      → HasNoAdmin start
      → Change dec deletes a b
      → Keeps start a
      → Keeps start b
  Change-Keeps start none_there same k = k
  Change-Keeps start {a = a} none_there (caches reached process id p found) k =
      with_cached-Keeps start a reached process id (some p)
        (λ q e. k.powerless q (in_table id (found ∙ e))) k
  Change-Keeps start {a = a} none_there (creates id p missing key role) k =
      with_row-Keeps start a id p none_there (new_row start id p (k.absent id missing) role) k
  Change-Keeps start {deletes} {a} none_there (edits process id p u current found key known) k =
      let powerless = k.powerless current known in
      let q = updated_profile (is_admin current.role) u p in
      with_cached-Keeps start (with_row dec id q a) deletes process id none no_entry (
        with_row-Keeps start a id q none_there
          (same_rights start id p q (rw powerless refl) (rw powerless refl) (k.rows id p found)) k)
  Change-Keeps start {a = a} none_there (forgets id) k = record {
    rows = k.rows;
    absent = k.absent;
    powerless = λ q seen. elim (in_redis-IsSeen dec id none a q seen) [
      | inl new ↦ no_entry q new
      | inr old ↦ k.powerless q old
    ];
  }
  Change-Keeps start {a = a} none_there (evicts process id) k = record {
    rows = k.rows;
    absent = k.absent;
    powerless = λ q seen. elim (in_local-IsSeen dec process id none a q seen) [
      | inl new ↦ no_entry q new
      | inr old ↦ k.powerless q old
    ];
  }

  Changes-Keeps :
      (start : Accounts Uid) {deletes : Bool} {a b : Accounts Uid}
      → HasNoAdmin start
      → Changes dec deletes a b
      → Keeps start a
      → Keeps start b
  Changes-Keeps start none_there nothing k = k
  Changes-Keeps start none_there (more before last) k =
      Change-Keeps start none_there last (Changes-Keeps start none_there before k)

module _ {Uid : Type 0} (dec : Discrete Uid) (v : Verifier Uid) where
  Reach-Keeps :
      (start : Accounts Uid) {a : Accounts Uid}
      → HasNoAdmin dec start
      → IsKeyed dec start
      → Reach dec v start a
      → Keeps dec start a
  Reach-Keeps start none_there h here = record {
    rows = λ id p found. inl (p, found, refl, refl);
    absent = λ id missing. missing;
    powerless = none_there;
  }
  Reach-Keeps start none_there h (next r s) =
      Changes-Keeps dec start none_there (Step-Changes dec v s (Reach-IsKeyed dec v r h))
        (Reach-Keeps start none_there h r)

  -- Without an admin in the table or in the cache, no requests give anyone a role or change a
  -- flag, whether their calls of the cache reach Redis or not: every row has the role and the flag
  -- that it had at the start, or is a passenger's that is new. At the start every row has its key
  -- as its id.
  pub Reach-IsAsBefore :
      (start a : Accounts Uid) (id : Uid) (p : Profile Uid)
      → HasNoAdmin dec start
      → IsKeyed dec start
      → Reach dec v start a
      → lookup dec id a.profiles ≡ some p
      → IsAsBefore dec start id p
  Reach-IsAsBefore start a id p none_there h reach found =
      (Reach-Keeps start none_there h reach).rows id p found
