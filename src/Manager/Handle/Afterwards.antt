-- ===== src/Manager/Handle/Afterwards.antt =====
-- src/modules/event_manager.cpp, the end of `handle`, and `event::afterwards` of src/event.cpp.
use libslirc_old.Prelude.{
  ℕ, ◌≡◌, refl, inl, inr, Bool, List, [], ◌++◌, arith, none, some, ok, Option-cases, if◌then◌else◌,
  ◌==◌,
}
use libslirc_old.Prelude.Assoc.{IsUnique}
use libslirc_old.Prelude.Classes.{Classes}
use libslirc_old.Component.{ComponentType, Container, find_, find, at}
use libslirc_old.Component.Laws.{find_-nil, at-find, remove_lem}
use libslirc_old.Event.{Payload, afterwards_events, handle_afterwards}
use libslirc_old.Manager.{queue_afterwards}
use libslirc_old.Manager.Delivery.{waiting, InRange, offer, view_of, queue_afterwards_refines}
use libslirc_old.Manager.Handle.{Context, finished, requeue_afterwards, remove_afterwards}

find_of_free :
    (classes : Classes) (d : Container Payload)
    → find_ handle_afterwards d ≡ none
    → find classes handle_afterwards d ≡ none
find_of_free classes d free = elim (Option-cases (find classes handle_afterwards d)) [
  | inl missing ↦ missing
  | inr (k, found) ↦ absurd (
      cc (
        (at-find classes handle_afterwards d).1.1 free,
        ((at-find classes handle_afterwards d).0 k).1 found,
      ))
]

pub find_nothing : (classes : Classes) → find {V = Payload} classes handle_afterwards [] ≡ none
find_nothing classes = find_of_free classes [] (find_-nil handle_afterwards)

module _ {U : Type 0} (accepts : ℕ → ℕ → U → Bool × U) (classes : Classes) where
  -- If the event holds events to be handled behind it, `handle` ends by putting them before the
  -- rest of the queue, in the order in which they were added, offers the queue to the waiting
  -- consumers and takes the component from the event: the slot of its base type is free, every other slot
  -- has the component that it had, and nothing else of the event changes.
  pub requeue_lem :
      (c : Context U) (es : List ℕ) (made_as : ℕ)
      → InRange c.impl
      → IsUnique c.event.components
      → find classes handle_afterwards c.event.components
        ≡ some (record { dynamic_type = made_as; value = afterwards_events es })
      → (after : Context U) × (requeue_afterwards accepts classes c ≡ finished after)
        × (view_of accepts (after.impl, after.world)
            ≡ offer accepts (waiting c.impl) (es ++ c.impl.queue) c.world)
        × (find classes handle_afterwards after.event.components ≡ none)
        × ((t : ComponentType)
            → find_ t after.event.components
              ≡ (if 0 == t.component_base_type then none else find_ t c.event.components))
        × (after.event ≡ record (c.event) { components = after.event.components })
  unfolding requeue_afterwards remove_afterwards
  requeue_lem c es made_as r u h =
      let held : at classes handle_afterwards c.event.components
          ≡ ok (record { dynamic_type = made_as; value = afterwards_events es }) =
        ((at-find classes handle_afterwards c.event.components).0 _).1 h in
      elim (remove_lem classes handle_afterwards c.event.components u) [
        | inl (free, e) ↦
            absurd (cc (held, (at-find classes handle_afterwards c.event.components).1.1 free))
        | inr (inl (conflict, e)) ↦ absurd (cc held)
        | inr (inr (k, found, d, e, slots)) ↦
            let (m, w) = queue_afterwards accepts es c.impl c.world in
            (
              record { event = record (c.event) { components = d }; impl = m; world = w },
              ground (arith, h, e),
              (queue_afterwards_refines accepts es c.impl c.world r).0,
              find_of_free classes d (slots handle_afterwards),
              slots,
              refl,
            )
      ]

  -- Without such a component nothing is left to do.
  pub requeue_nothing :
      (c : Context U)
      → find classes handle_afterwards c.event.components ≡ none
      → requeue_afterwards accepts classes c ≡ finished c
  unfolding requeue_afterwards
  requeue_nothing c h = ground (arith, h)
