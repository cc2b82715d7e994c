-- ===== src/Manager/Waiting.antt =====
-- src/modules/event_manager.cpp, the two blocking `wait_event`: threads that queue events and threads
-- that wait for one, as a step relation. A step is what one thread does under the mutexes. A blocked
-- call is the data at an address. When it returns the data is left to the consumers that hold it already,
-- until it is freed. The callbacks decide by any function of what they have accepted so far, which is the
-- user's state, and throw nothing.
pub mod Taken
pub mod Steps
pub mod Conservation
use libslirc_old.Prelude.{
  ℕ, ◌+◌, ◌≤◌, ◌≡◌, refl, sym, ap, ◌∙◌, ◌≢◌, ◌⊎◌, inl, inr, Bool, true, false, List, [], ◌∷◌, ◌++◌,
  arith, Option, none, some, ◌==◌, if◌then◌else◌, count, count-append, drop, Bool-cases,
  Option-cases,
}
use libslirc_old.Prelude.Assoc.{
  lookup, put, erase, IsUnique, AllEntries, put-IsUnique, erase-IsUnique, put-AllEntries,
  erase-AllEntries, lookup-AllEntries,
}
use libslirc_old.Manager.{
  Consumer, returning, callback, Impl, World, WaitData, fresh_data, empty_impl, call, offer_data,
  try_unqueue, queue_event, queue_afterwards, wait_callback, take_front, take_or_register,
}
use libslirc_old.Manager.Delivery.{
  waiting, InRange, IsSettled, offer, view_of, queue_event_refines, queue_afterwards_refines,
  wait_callback_lem,
}

-- The events that have been queued and the events that calls of `wait_event` have returned are the
-- history of the system, not state of the program.
pub record System : Type 0 where
  pub impl : Impl
  pub world : World (List ℕ)
  pub queued : List ℕ
  pub returned : List ℕ

abbrev pub initial : System
initial = record {
  impl = empty_impl;
  world = record { blocked = []; user = [] };
  queued = [];
  returned = [];
}

abbrev pub returns : Option ℕ → List ℕ → List ℕ
returns none l = l
returns (some e) l = e ∷ l

module _ (decides : ℕ → ℕ → List ℕ → Bool) where
  -- A callback keeps what it accepts.
  abbrev pub keeps : ℕ → ℕ → List ℕ → Bool × List ℕ
  keeps f e accepted = if decides f e accepted then (true, e ∷ accepted) else (false, accepted)

  abbrev with_state : System → Impl × World (List ℕ) → System
  with_state s (m, w) = record s { impl = m; world = w }

  -- The last statement of the `wait_event` with a timeout, behind `wait_for`.
  abbrev pub given_up : WaitData → WaitData
  given_up d = record d { awaits_event = false }

  -- The call returns what its variable holds; the data stays.
  abbrev pub returned_from : ℕ → WaitData → System → System
  returned_from address d s = record s {
    world = record (s.world) {
      blocked = put address (record d { has_returned = true }) s.world.blocked;
    };
    returned = returns d.event s.returned;
  }

  pub data Step : System → System → Type 0 where
    queues :
        (s : System) (e : ℕ)
        → Step s
            (record (with_state s (queue_event keeps e s.impl s.world)) { queued = e ∷ s.queued })
    queues_afterwards :
        (s : System) (es : List ℕ)
        → Step s (record (with_state s (queue_afterwards keeps es s.impl s.world)) {
          queued = es ++ s.queued;
        })
    waits_callback :
        (s : System) (f : ℕ) → Step s (with_state s (wait_callback keeps f s.impl s.world))
    -- `wait_event` finds an event before it makes its data.
    takes :
        (s : System) (e : ℕ) (m : Impl)
        → take_front s.impl ≡ some (e, m)
        → Step s (record s { impl = m; returned = e ∷ s.returned })
    -- `wait_event` makes its data at an address that is not in use, and looks once more.
    blocks :
        (s : System) (address : ℕ)
        → lookup address s.world.blocked ≡ none
        → Step s (
            let (found, m, w) = take_or_register address s.impl s.world in
            record s { impl = m; world = w; returned = returns found s.returned })
    -- The condition of `wait` holds, and the call returns.
    wakes :
        (s : System) (address : ℕ) (d : WaitData)
        → lookup address s.world.blocked ≡ some d
        → d.has_returned ≡ false
        → d.awaits_event ≡ false
        → Step s (returned_from address d s)
    -- `wait_for` gives up or wakes, and the call returns what it has by then. A consumer that has locked
    -- the weak pointer before may look at the data later, as long as it is not freed.
    times_out :
        (s : System) (address : ℕ) (d : WaitData)
        → lookup address s.world.blocked ≡ some d
        → d.has_returned ≡ false
        → Step s (returned_from address (given_up d) s)
    -- Nobody holds the data any more.
    frees :
        (s : System) (address : ℕ) (d : WaitData)
        → lookup address s.world.blocked ≡ some d
        → d.has_returned ≡ true
        → Step s (record s { world = record (s.world) { blocked = erase address s.world.blocked } })

  pub data Reach : System → Type 0 where
    here : Reach initial
    next : {s t : System} → Reach s → Step s t → Reach t

-- A blocked call awaits an event exactly as long as it has none; one that has returned awaits none.
abbrev pub IsConsistent : ℕ → WaitData → Type 0
IsConsistent address d =
    ((d.has_returned ≡ false) × (d.awaits_event ≡ true) × (d.event ≡ none))
    ⊎ ((d.has_returned ≡ false) × (d.awaits_event ≡ false) × (e : ℕ) × (d.event ≡ some e))
    ⊎ ((d.has_returned ≡ true) × (d.awaits_event ≡ false))

-- What the variable of a call that has not returned yet holds.
abbrev pub held_by : ℕ → WaitData → ℕ
held_by a d = if d.has_returned then 0 else count a (returns d.event [])

-- How often an event is held by blocked calls that have not returned yet.
abbrev pub held : ℕ → List (ℕ × WaitData) → ℕ
held a [] = 0
held a ((address, d) ∷ m) = held_by a d + held a m

-- A change of the data at an address.
pub held-put :
    (a address : ℕ) (d after : WaitData) (m : List (ℕ × WaitData))
    → lookup address m ≡ some d
    → held a (put address after m) + held_by a d ≡ held a m + held_by a after
unfolding lookup put
held-put a address d after [] h = absurd (cc)
held-put a address d after ((i, c) ∷ m) h = elim (Bool-cases (i == address)) [
  | inl same ↦ let e : c ≡ d = ground (arith, same) in ground (arith, same, ap (held_by a) e)
  | inr other ↦ ground (arith, held-put a address d after m)
]

pub held-put_fresh :
    (a address : ℕ) (m : List (ℕ × WaitData))
    → lookup address m ≡ none
    → held a (put address fresh_data m) ≡ held a m
unfolding lookup put
held-put_fresh a address [] h = refl
held-put_fresh a address ((i, c) ∷ m) h = ground (arith, held-put_fresh a address m)

pub held-erase :
    (a address : ℕ) (d : WaitData) (m : List (ℕ × WaitData))
    → lookup address m ≡ some d
    → held a m ≡ held a (erase address m) + held_by a d
unfolding lookup erase
held-erase a address d [] h = absurd (cc)
held-erase a address d ((i, c) ∷ m) h = elim (Bool-cases (i == address)) [
  | inl same ↦ ground arith
  | inr other ↦ ground (arith, held-erase a address d m)
]
