-- ===== src/Manager/Handlers/Table.antt =====
-- Signals whose slots are kept in one list: they are as Boost documents them.
use libslirc_old.Prelude.{
  ℕ, suc, ◌≤◌, ◌≡◌, inl, inr, refl, sym, false, ◌&&◌, List, [], ◌∷◌, ltb, if◌then◌else◌, any,
  remove_if, arith, Bool-cases,
}
use libslirc_old.EventId.{IdType, id_eq}
use libslirc_old.EventId.Laws.{id_eq_iff, id_eq_refl}
use libslirc_old.Manager.Handlers.{Slot, Signals, insert_slot, is_conn, Documented}

abbrev pub Table : Type 0
Table = List (IdType × Slot)

abbrev pub slots_of : Table → IdType → List Slot
slots_of [] id = []
slots_of ((i, s) ∷ t) id = let rest = slots_of t id in if id_eq i id then s ∷ rest else rest

abbrev pub next_conn : Table → ℕ
next_conn [] = 0
next_conn ((i, s) ∷ t) = let rest = next_conn t in if ltb s.conn rest then rest else suc s.conn

abbrev pub inserted : IdType → Slot → Table → Table
inserted id new [] = (id, new) ∷ []
inserted id new ((i, s) ∷ t) =
    let rest = inserted id new t in
    if id_eq i id && ltb new.slot_group s.slot_group then (id, new) ∷ (i, s) ∷ t else (i, s) ∷ rest

abbrev pub removed : ℕ → Table → Table
removed c [] = []
removed c ((i, s) ∷ t) = let rest = removed c t in if is_conn c s then rest else (i, s) ∷ rest

abbrev pub signals : Signals Table
signals = record {
  connect_slot = λ id priority handler t. (
    next_conn t,
    inserted id (record { slot_group = priority; conn = next_conn t; handler = handler }) t,
  );
  disconnect_slot = removed;
  slot_less = ltb;
  slots = slots_of;
}

new_conn :
    (t : Table) (id : IdType) (n : ℕ) → next_conn t ≤ n → any (is_conn n) (slots_of t id) ≡ false
new_conn [] id n h = refl
new_conn ((i, s) ∷ t) id n h = elim (Bool-cases (ltb s.conn (next_conn t))) [
  | inl e ↦ ground (arith, new_conn t id n)
  | inr e ↦ ground (arith, new_conn t id n)
]

slots_of-inserted :
    (id : IdType) (new : Slot) (t : Table)
    → slots_of (inserted id new t) id ≡ insert_slot new (slots_of t id)
slots_of-inserted id new [] = ground (arith, id_eq_refl id)
slots_of-inserted id new ((i, s) ∷ t) = ground (arith, slots_of-inserted id new t, id_eq_refl id)

slots_of-other :
    (id other : IdType) (new : Slot) (t : Table)
    → id_eq id other ≡ false
    → slots_of (inserted id new t) other ≡ slots_of t other
slots_of-other id other new [] h = ground arith
slots_of-other id other new ((i, s) ∷ t) h = ground (arith, slots_of-other id other new t)

slots_of-removed :
    (c : ℕ) (t : Table) (id : IdType)
    → slots_of (removed c t) id ≡ remove_if (is_conn c) (slots_of t id)
slots_of-removed c [] id = refl
slots_of-removed c ((i, s) ∷ t) id = ground (arith, slots_of-removed c t id)

pub documented : Documented signals
documented = record {
  fresh = λ id priority handler t other. new_conn t other (next_conn t) (omega arith);
  connected_slots = λ id priority handler t. slots_of-inserted id _ t;
  other_slots = λ id priority handler t other h.
      slots_of-other id other _ t (elim (Bool-cases (id_eq id other)) [
        | inl e ↦ absurd (h (sym ((id_eq_iff id other).0 e)))
        | inr n ↦ n
      ]);
  disconnected_slots = λ c t id. slots_of-removed c t id;
  irreflexive = λ c. ground arith;
  transitive = λ c d e h l. ground arith;
  total = λ c d. elim (Bool-cases (ltb c d)) [
    | inl e ↦ inl e
    | inr n ↦ elim (Bool-cases (ltb d c)) [ inl e ↦ inr (inl e) | inr k ↦ inr (inr (ground arith)) ]
  ];
}
