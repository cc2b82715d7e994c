-- ===== src/Manager/Handlers/Order.antt =====
-- include/slirc/apis/event_manager.hpp and src/modules/event_manager.cpp: the order in which the
-- handlers of an id are called, after any calls of `connect` and `disconnect`.
use libslirc_old.Prelude.{
  ℕ, ◌≡◌, refl, sym, ◌⊎◌, inl, inr, Bool, true, false, ◌&&◌, List, [], ◌∷◌, ◌++◌, none, some, arith,
  if◌then◌else◌, remove_if, subst, ok, Bool-cases, Option-cases, append-nil,
}
use libslirc_old.EventId.{IdType, id_eq}
use libslirc_old.EventId.Laws.{id_eq_iff}
use libslirc_old.Manager.Handlers.{
  ConnectionPriority, group, Slot, Signals, insert_slot, is_conn, Documented, HandlerConnection,
  is_connected, connect, disconnect, disconnect_signals2,
}
use libslirc_old.Manager.Handlers.Groups.{
  of_group, RisesFrom, RisesFrom-insert, RisesFrom-remove, of_group-append, of_group-remove,
  of_group-insert,
}

abbrev pub Connected : Type 0
Connected = IdType × Slot

-- A slot of the signals' own connection.
abbrev pub is_slot : ℕ → Connected → Bool
is_slot c (_, s) = is_conn c s

-- The handler that a connection is associated with.
abbrev pub is_of : HandlerConnection → Connected → Bool
is_of c entry = is_connected c && elim c.disconnector [ none ↦ false | some d ↦ is_slot d entry ]

-- Those of an id.
abbrev pub connected_to : IdType → List Connected → List Slot
connected_to id [] = []
connected_to id ((i, s) ∷ l) = let rest = connected_to id l in if id_eq i id then s ∷ rest else rest

module _ {S : Type 0} (b : Signals S) where
  -- The slot of a `connect`.
  abbrev pub new_slot : IdType → ℕ → ConnectionPriority → S → Slot
  new_slot id handler priority s = record {
    slot_group = group priority;
    conn = (b.connect_slot id (group priority) handler s).0;
    handler = handler;
  }

  -- The handlers that are connected, in the order of their `connect`, and the state of the signals.
  pub data History (start : S) : List Connected → S → Type 0 where
    started : History start [] start
    connects :
        {live : List Connected} {s : S} (manager : ℕ) (id : IdType) (handler : ℕ)
        (priority : ConnectionPriority)
        → History start live s
        → History start
            (live ++ (id, new_slot id handler priority s) ∷ [])
            (connect b manager id handler priority s).1
    disconnects :
        {live : List Connected} {s : S} (c : HandlerConnection) (c_after : HandlerConnection)
        (after : S)
        → disconnect b c s ≡ ok (c_after, after)
        → History start live s
        → History start (remove_if (is_of c) live) after

connected_to-append :
    (id : IdType) (xs ys : List Connected)
    → connected_to id (xs ++ ys) ≡ connected_to id xs ++ connected_to id ys
connected_to-append id [] ys = refl
connected_to-append id ((i, s) ∷ xs) ys = ground (arith, connected_to-append id xs ys)

connected_to-remove :
    (c : HandlerConnection) (d : ℕ) (id : IdType) (l : List Connected)
    → is_connected c ≡ true
    → c.disconnector ≡ some d
    → connected_to id (remove_if (is_of c) l) ≡ remove_if (is_conn d) (connected_to id l)
connected_to-remove c d id [] h e = refl
connected_to-remove c d id ((i, s) ∷ l) h e = ground (arith, connected_to-remove c d id l)

kept_all :
    (c : HandlerConnection) (l : List Connected)
    → (is_connected c ≡ false) ⊎ (c.disconnector ≡ none)
    → remove_if (is_of c) l ≡ l
kept_all c [] h = refl
kept_all c ((i, s) ∷ l) h = ground (arith, kept_all c l)

module _ {S : Type 0} (b : Signals S) (d : Documented b) where
  connect-slots :
      (id other : IdType) (handler : ℕ) (priority : ConnectionPriority) (s : S)
      → b.slots (b.connect_slot id (group priority) handler s).1 other ≡ (
          if id_eq id other
          then insert_slot (new_slot b id handler priority s) (b.slots s other)
          else b.slots s other)
  connect-slots id other handler priority s = elim (Bool-cases (id_eq id other)) [
    | inl same ↦ rw same (
        subst
          (λ i.
            b.slots (b.connect_slot id (group priority) handler s).1 i
            ≡ insert_slot (new_slot b id handler priority s) (b.slots s i))
          ((id_eq_iff id other).0 same) (d.connected_slots id (group priority) handler s))
    | inr different ↦ rw different (
        d.other_slots id (group priority) handler s other
          (λ e. absurd (cc (different, (id_eq_iff id other).1 (sym e)))))
  ]

  -- What the slots of an id are, for the handlers that are connected.
  abbrev AreSlots : IdType → List Connected → S → Type 0
  AreSlots id live s =
      RisesFrom 0 (b.slots s id)
      × ((g : ℕ) → of_group g (b.slots s id) ≡ of_group g (connected_to id live))

  connect-AreSlots :
      (manager : ℕ) (id other : IdType) (handler : ℕ) (priority : ConnectionPriority)
      (live : List Connected) (s : S)
      → AreSlots other live s
      → AreSlots other
          (live ++ (id, new_slot b id handler priority s) ∷ [])
          (connect b manager id handler priority s).1
  unfolding connect
  connect-AreSlots manager id other handler priority live s (rising, grouped) =
      let new = new_slot b id handler priority s in
      elim (Bool-cases (id_eq id other)) [
        | inl same ↦ (
          ground (
            arith,
            connect-slots id other handler priority s,
            RisesFrom-insert 0 new (b.slots s other),
          ),
          λ g. ground (
            arith,
            connect-slots id other handler priority s,
            of_group-insert g 0 new (b.slots s other),
            of_group-append g (b.slots s other) (new ∷ []),
            of_group-append g (connected_to other live) (new ∷ []),
            connected_to-append other live ((id, new) ∷ []),
            grouped g,
          ),
        )
        | inr different ↦ (
          ground (arith, connect-slots id other handler priority s),
          λ g. ground (
            arith,
            connect-slots id other handler priority s,
            connected_to-append other live ((id, new) ∷ []),
            append-nil (connected_to other live),
            grouped g,
          ),
        )
      ]

  disconnect-AreSlots :
      (c c_after : HandlerConnection) (id : IdType) (live : List Connected) (s after : S)
      → disconnect b c s ≡ ok (c_after, after)
      → AreSlots id live s
      → AreSlots id (remove_if (is_of c) live) after
  unfolding disconnect disconnect_signals2
  disconnect-AreSlots c c_after id live s after h (rising, grouped) =
      elim (Bool-cases (is_connected c)) [
        | inr gone ↦
            let same : s ≡ after = ground arith in
            subst (AreSlots id (remove_if (is_of c) live)) same
              (ground arith, λ g. ground (arith, kept_all c live (inl gone), grouped g))
        | inl held ↦ elim (Option-cases c.disconnector) [
          | inl empty ↦ absurd (ground arith)
          | inr (k, e) ↦
              let same : b.disconnect_slot k s ≡ after = ground arith in
              subst (AreSlots id (remove_if (is_of c) live)) same (
                ground (
                  arith,
                  d.disconnected_slots k s id,
                  RisesFrom-remove (is_conn k) 0 (b.slots s id),
                ),
                λ g. ground (
                  arith,
                  d.disconnected_slots k s id,
                  connected_to-remove c k id live held e,
                  of_group-remove (is_conn k) g (b.slots s id),
                  of_group-remove (is_conn k) g (connected_to id live),
                  grouped g,
                ),
              )
        ]
      ]

  -- From signals without handlers on, after any calls of `connect` and `disconnect`, the handlers that
  -- are called for an id are those that are connected to it: the groups of their priorities rise, and
  -- within a group they stand in the order of their `connect`; so they do in the group of `first`, too,
  -- of which the documentation says that the last one to be connected is the first to be called. The
  -- signals are as Boost documents them, and no call of a disconnector throws.
  pub slots_by_priority :
      {start s : S} {live : List Connected} (id : IdType)
      → b.slots start id ≡ []
      → History b start live s
      → RisesFrom 0 (b.slots s id)
        × ((g : ℕ) → of_group g (b.slots s id) ≡ of_group g (connected_to id live))
  slots_by_priority id empty started = (ground arith, λ g. ground arith)
  slots_by_priority id empty (connects {live} {s} manager i handler priority h) =
      connect-AreSlots manager i id handler priority live s (slots_by_priority id empty h)
  slots_by_priority id empty (disconnects {live} {s} c c_after after e h) =
      disconnect-AreSlots c c_after id live s after e (slots_by_priority id empty h)
