-- ===== src/Websocket/Dedupe.antt =====
-- The ids that an instance remembers: no event reaches its clients twice while its id is among them.
pub mod Once
use metroflow_ai_backend.Common.{
  ℕ, zero, suc, ◌+◌, ◌≤◌, ◌<◌, ◌≡◌, ◌≢◌, refl, Bool, true, false, Option, none, some, List, [], ◌∷◌,
  ◌++◌, map, leb, ltb, if◌then◌else◌, ite, length, length-append, arith, is_some,
}
use metroflow_ai_backend.Common.Dict.{
  Dict, lookup, insert, erase, HasDistinct, erase-HasDistinct, length-erase-le, lookup-erase_self,
}
use metroflow_ai_backend.Common.Dict.Order.{erase-insert, append_one-HasDistinct}
use metroflow_ai_backend.Websocket.Events.{Event, Data, Domain}
use metroflow_ai_backend.Websocket.Manager.{
  ConnectionManager, Net, already_seen, mark_seen, note_id, pop_oldest, dedupe_max_entries,
  remember_latest_state, disconnect,
}
use metroflow_ai_backend.Websocket.Broadcast.{
  Sent, broadcast, broadcast_to_user, send_all, disconnect_all,
}

module _ {K V : Type 0} (dec : Discrete K) where
  pub length-pop_oldest-le : (limit : ℕ) (d : Dict K V) → length (pop_oldest limit d) ≤ limit
  length-pop_oldest-le limit [] = omega arith
  length-pop_oldest-le limit (e ∷ d) = ground (arith, length-pop_oldest-le limit d)

  pub pop_oldest-HasDistinct :
      (limit : ℕ) (d : Dict K V) → HasDistinct dec d → HasDistinct dec (pop_oldest limit d)
  pop_oldest-HasDistinct limit [] h = tt
  pop_oldest-HasDistinct limit (e ∷ d) h = ground (arith, h, pop_oldest-HasDistinct limit d h.1)

  -- The key is there, with at most so many entries after it.
  abbrev pub recent : K → ℕ → Dict K V → Bool
  recent k n [] = false
  recent k n (e ∷ d) = ite (dec e.0 k) (leb (length d) n) (recent k n d)

  pub recent-lookup :
      (k : K) (n : ℕ) (d : Dict K V) → recent k n d ≡ true → is_some (lookup dec k d) ≡ true
  unfolding lookup
  recent-lookup k n [] h = cc (h)
  recent-lookup k n (e ∷ d) h = ground (arith, recent-lookup k n d)

  recent-erase :
      (k j : K) (n : ℕ) (d : Dict K V)
      → j ≢ k
      → recent k n d ≡ true
      → recent k n (erase dec j d) ≡ true
  unfolding erase
  recent-erase k j n [] ne h = h
  recent-erase k j n (e ∷ d) ne h = ground (arith, recent-erase k j n d ne, length-erase-le dec j d)

  recent-append_one :
      (k : K) (n : ℕ) (e : K × V) (d : Dict K V)
      → recent k n d ≡ true
      → recent k (suc n) (d ++ e ∷ []) ≡ true
  recent-append_one k n e [] h = cc (h)
  recent-append_one k n e (f ∷ d) h =
      ground (arith, recent-append_one k n e d, length-append d (e ∷ []))

  recent_last :
      (k : K) (v : V) (d : Dict K V) → lookup dec k d ≡ none → recent k 0 (d ++ (k, v) ∷ []) ≡ true
  unfolding lookup
  recent_last k v [] h = ground arith
  recent_last k v (f ∷ d) h = ground (arith, recent_last k v d)

  recent-pop_oldest :
      (k : K) (n limit : ℕ) (d : Dict K V)
      → n < limit
      → recent k n d ≡ true
      → recent k n (pop_oldest limit d) ≡ true
  recent-pop_oldest k n limit [] lt h = h
  recent-pop_oldest k n limit (e ∷ d) lt h = ground (arith, recent-pop_oldest k n limit d lt)

  pub recent-le :
      (k : K) (n n' : ℕ) (d : Dict K V) → n ≤ n' → recent k n d ≡ true → recent k n' d ≡ true
  recent-le k n n' [] le h = h
  recent-le k n n' (e ∷ d) le h = ground (arith, recent-le k n n' d le)

module _ (T : Domain) where
  open T use {Socket, User, Uuid, Value, id_dec}

  -- What holds of the ids at all times.
  pub record Seen (seen : Dict Uuid (Unit {0})) : Type 0 where
    pub distinct : HasDistinct id_dec seen
    pub bounded : length seen ≤ dedupe_max_entries

  pub note_id-Seen :
      (id : Uuid) (seen : Dict Uuid (Unit {0})) → Seen seen → Seen (note_id T id seen)
  unfolding note_id
  note_id-Seen id seen h = record {
    distinct =
        pop_oldest-HasDistinct id_dec dedupe_max_entries
          (erase id_dec id (insert id_dec id tt seen) ++ (id, tt) ∷ [])
          (append_one-HasDistinct id_dec id tt (erase id_dec id (insert id_dec id tt seen))
            (rw (erase-insert id_dec id tt seen) (lookup-erase_self id_dec id seen h.distinct))
            (rw (erase-insert id_dec id tt seen) (erase-HasDistinct id_dec id seen h.distinct)));
    bounded =
        length-pop_oldest-le id_dec dedupe_max_entries
          (erase id_dec id (insert id_dec id tt seen) ++ (id, tt) ∷ []);
  }

  pub note_id_self :
      (id : Uuid) (seen : Dict Uuid (Unit {0}))
      → Seen seen
      → recent id_dec id 0 (note_id T id seen) ≡ true
  unfolding note_id
  note_id_self id seen h =
      let others = erase id_dec id (insert id_dec id tt seen) in
      recent-pop_oldest id_dec id 0 dedupe_max_entries (others ++ (id, tt) ∷ []) (omega arith) (
        recent_last id_dec id tt others
          (rw (erase-insert id_dec id tt seen) (lookup-erase_self id_dec id seen h.distinct)))

  pub note_id_other :
      (id other : Uuid) (n : ℕ) (seen : Dict Uuid (Unit {0}))
      → Seen seen
      → suc n < dedupe_max_entries
      → recent id_dec id n seen ≡ true
      → recent id_dec id (suc n) (note_id T other seen) ≡ true
  unfolding note_id
  note_id_other id other n seen h lt r =
      let others = erase id_dec other (insert id_dec other tt seen) in
      elim (id_dec other id) [
        | yes same ↦
            recent-le id_dec id 0 (suc n) (note_id T other seen) (omega arith)
              (rw same (note_id_self id seen h))
        | no ne ↦
            recent-pop_oldest id_dec id (suc n) dedupe_max_entries (others ++ (other, tt) ∷ []) lt (
              recent-append_one id_dec id n (other, tt) others
                (rw (erase-insert id_dec other tt seen) (recent-erase id_dec id other n seen ne r)))
      ]
