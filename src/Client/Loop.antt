-- ===== src/Client/Loop.antt =====
-- example/example.minibot.cpp, the loop of a program: `wait_event`, then `handle` of the event, over
-- include/slirc/irc.hpp, src/event.cpp and src/modules/event_manager.cpp.
use libslirc_old.Prelude.{
  ℕ, zero, suc, ◌+◌, ◌≤◌, ◌≡◌, refl, ap, ◌∙◌, Bool, List, [], ◌∷◌, Option, none, some, length,
}
use libslirc_old.Prelude.Assoc.{
  lookup, put, lookup-put_other, lookup-none, lookup-put_self, IsUnique,
}
use libslirc_old.Prelude.Classes.{Classes}
use libslirc_old.Component.{Container, find}
use libslirc_old.EventId.{IdType}
use libslirc_old.Irc.{Irc}
use libslirc_old.Event.{Event, Payload, pending, handle_afterwards}
use libslirc_old.Event.Queuing.Invariant.{IsValid}
use libslirc_old.Manager.{Impl}
use libslirc_old.Manager.Handlers.{Signals}
use libslirc_old.Manager.Handle.{Context, Outcome, finished, thrown, out_of_fuel}
use libslirc_old.Manager.Handle.Afterwards.{requeue_nothing}
use libslirc_old.Manager.Dispatch.{
  Emits, with_user, changing, seeing, calls_of_ids, perform, handled_ids,
}
use libslirc_old.Manager.Dispatch.Order.{drained, handle_dispatches}
use libslirc_old.Client.{◌>>=◌, Objects, event_manager, next_event, handle, write_back, returned}
use libslirc_old.Client.Steps.{manager_of-found, next_event-front, handle-found}

abbrev pub behind :
    {U : Type 0}
    → (Objects U → Option (Outcome (Objects U)))
    → Outcome (Objects U)
    → Option (Outcome (Objects U))
behind f (finished o) = f o
behind f (thrown o) = some (thrown o)
behind f out_of_fuel = some out_of_fuel

module _ {U : Type 0} (accepts : ℕ → ℕ → U → Bool × U) (classes : Classes)
    (signals : IdType → Context U → Bool × Context U) (manager fuel : ℕ) where
  -- The loop, for a number of events; each handling has the fuel.
  pub serve : ℕ → Objects U → Option (Outcome (Objects U))
  serve zero o = some (finished o)
  serve (suc n) o = next_event manager o >>= λ (next : ℕ × Objects U).
      handle accepts classes signals fuel next.0 next.1 >>= behind (serve n)

  -- Events that are at their addresses, and can be handled.
  abbrev pub IsReady : Objects U → ℕ → Event → Type 0
  IsReady o address e =
      (lookup address o.events ≡ some e)
      × IsValid e
      × (find classes handle_afterwards e.components ≡ none)
      × (event_manager e.irc o ≡ some manager)
      × (length (pending e) + 2 ≤ fuel)

  abbrev pub AreReady : Objects U → List (ℕ × Event) → Type 0
  AreReady o [] = Unit
  AreReady o ((address, e) ∷ l) = IsReady o address e × AreReady o l

  -- The handling of one event leaves the others ready.
  AreReady-other :
      (o p : Objects U) (address : ℕ) (d : Event) (l : List (ℕ × Event))
      → p.contexts ≡ o.contexts
      → p.events ≡ put address d o.events
      → lookup address l ≡ none
      → AreReady o l
      → AreReady p l
  unfolding event_manager
  AreReady-other o p address d [] same events free r = tt
  AreReady-other o p address d ((other, e) ∷ l) same events free (ready, r) =
      let (different, free_rest) = lookup-none address other e l free in
      (
        (
          ap (lookup other) events ∙ lookup-put_other address other d o.events different ∙ ready.0,
          ready.1,
          ready.2,
          ap (λ c. lookup e.irc c >>= λ (i : Irc). i.event_manager) same ∙ ready.3,
          ready.4,
        ),
        AreReady-other o p address d l same events free_rest r,
      )

-- The addresses of the events.
abbrev pub addresses : List (ℕ × Event) → List ℕ
addresses [] = []
addresses ((address, e) ∷ l) = address ∷ addresses l

module _ {S V : Type 0} (act : ℕ → IdType → Container Payload → V → V) (b : Signals S)
    (signals : IdType → Context (S × V) → Bool × Context (S × V))
    (emits : Emits b (changing act) signals) (accepts : ℕ → ℕ → S × V → Bool × (S × V))
    (classes : Classes) (manager fuel : ℕ) where
  -- The handlers of one event, called for each of its ids.
  abbrev pub handled_once : S → Event → V → V
  handled_once s e v =
      perform (seeing act e.components) (calls_of_ids (b.slots s) (handled_ids e)) v

  abbrev pub handled_all : S → List (ℕ × Event) → V → V
  handled_all s [] v = v
  handled_all s ((address, e) ∷ l) v = handled_all s l (handled_once s e v)

  abbrev after_one : Objects (S × V) → Impl → List ℕ → ℕ → Event → Objects (S × V)
  after_one o m rest address e = record {
    contexts = o.contexts;
    managers =
        put manager (record m { queue = rest })
          (put manager (record m { queue = rest }) o.managers);
    events = put address (drained e) o.events;
    world = record (o.world) {
      user = (o.world.user.0, handled_once o.world.user.0 e o.world.user.1);
    };
  }

  serve-next :
      (o : Objects (S × V)) (m : Impl) (address n : ℕ) (e : Event) (rest : List ℕ)
      → IsReady accepts classes signals manager fuel o address e
      → lookup manager o.managers ≡ some m
      → m.queue ≡ address ∷ rest
      → serve accepts classes signals manager fuel (suc n) o
        ≡ serve accepts classes signals manager fuel n (after_one o m rest address e)
  unfolding serve event_manager
  serve-next o m address n e rest (found, valid, plain, has, f) at q =
      let left : Impl = record m { queue = rest } in
      let next : Objects (S × V) = record o { managers = put manager left o.managers } in
      let start : Context (S × V) = record { event = e; impl = left; world = o.world } in
      let end =
        with_user (handled_once o.world.user.0 e o.world.user.1)
          (record start { event = drained e }) in
      let serve_rest = serve accepts classes signals manager fuel n in
      ap
        (λ r. r >>= λ (k : ℕ × Objects (S × V)).
          handle accepts classes signals fuel k.0 k.1 >>= behind serve_rest)
        (next_event-front manager address rest o m at q)
      ∙ ap (λ r. r >>= behind serve_rest)
          (handle-found accepts classes signals fuel address next found
              (manager_of-found e next has (lookup-put_self manager left o.managers))
            ∙ ap (λ r. some (returned (write_back address manager next) r))
                (handle_dispatches act b signals emits accepts classes fuel start valid f
                  ∙ requeue_nothing accepts classes end plain))

  -- When the queue of an event manager is the addresses of different events, the loop of the program, once
  -- for each event, handles them in their order: the handlers of the first event's ids are called, with its
  -- components, then those of the second, and so on. No other handler is called, and the queue is empty
  -- afterwards. The events are valid, belong to contexts with this event manager, hold no events to be handled
  -- behind them, and have at most two pending ids less than the fuel; the handlers change the user's state
  -- alone, by the id and the components of the event.
  pub serve_all :
      (l : List (ℕ × Event)) (o : Objects (S × V)) (m : Impl)
      → AreReady accepts classes signals manager fuel o l
      → IsUnique l
      → lookup manager o.managers ≡ some m
      → m.queue ≡ addresses l
      → (after : Objects (S × V)) × (left : Impl) × (serve accepts classes signals manager fuel
            (length l)
            o
          ≡ some (finished after))
        × (after.world.user ≡ (o.world.user.0, handled_all o.world.user.0 l o.world.user.1))
        × (lookup manager after.managers ≡ some left)
        × (left.queue ≡ [])
  unfolding serve
  serve_all [] o m r u at q = (o, m, refl, refl, at, q)
  serve_all ((address, e) ∷ l) o m (ready, r) (free, u) at q =
      let next = after_one o m (addresses l) address e in
      let left : Impl = record m { queue = addresses l } in
      let (after, last, run, user, held, empty) =
        serve_all l next left
          (AreReady-other accepts classes signals manager fuel o next address (drained e) l refl
            refl free r)
          u (lookup-put_self manager left (put manager left o.managers)) refl in
      (
        after,
        last,
        serve-next o m address (length l) e (addresses l) ready at q ∙ run,
        user,
        held,
        empty,
      )
