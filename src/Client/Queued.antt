-- ===== src/Client/Queued.antt =====
-- src/event.cpp and src/modules/event_manager.cpp: several events, queued one after the other in an
-- event manager for which nobody waits.
use libslirc_old.Prelude.{
  ℕ, ◌≡◌, refl, sym, ap, ◌∙◌, Bool, List, [], ◌∷◌, ◌++◌, append-nil, append_assoc, Option, none,
  some, arith,
}
use libslirc_old.Prelude.Assoc.{
  lookup, put, lookup-put_self, lookup-put_other, lookup-none, IsUnique,
}
use libslirc_old.Event.{Event}
use libslirc_old.Irc.{Irc}
use libslirc_old.Manager.{Impl, queue_event}
use libslirc_old.Manager.Delivery.{waiting, InRange, queue_event-idle, queue_event-waiting}
use libslirc_old.Client.{◌>>=◌, Objects, event_manager, queue}
use libslirc_old.Client.Steps.{manager_of-found, queue-found}
use libslirc_old.Client.Loop.{addresses}

-- Every event is at its address.
abbrev pub AreStored : List (ℕ × Event) → List (ℕ × Event) → Type 0
AreStored [] events = Unit
AreStored ((address, e) ∷ l) events = (lookup address events ≡ some e) × AreStored l events

module _ {U : Type 0} where
  -- Every event has the event manager at `manager`.
  abbrev pub AreOf : ℕ → Objects U → List (ℕ × Event) → Type 0
  AreOf manager o [] = Unit
  AreOf manager o ((address, e) ∷ l) = (event_manager e.irc o ≡ some manager) × AreOf manager o l

  AreOf-same :
      (manager : ℕ) (o p : Objects U) (l : List (ℕ × Event))
      → p.contexts ≡ o.contexts
      → AreOf manager o l
      → AreOf manager p l
  unfolding event_manager
  AreOf-same manager o p [] same a = tt
  AreOf-same manager o p ((address, e) ∷ l) same (has, a) = (
    ap (λ c. lookup e.irc c >>= λ (i : Irc). i.event_manager) same ∙ has,
    AreOf-same manager o p l same a,
  )

  abbrev pub placed : ℕ → Event → Objects U → Objects U
  placed address e o = record o { events = put address e o.events }

  module _ (accepts : ℕ → ℕ → U → Bool × U) where
    -- `queue` of each event, when it has been put at its address.
    pub queue_all : List (ℕ × Event) → Objects U → Option (Objects U)
    queue_all [] o = some o
    queue_all ((address, e) ∷ l) o = queue accepts address (placed address e o) >>= queue_all l

    -- What the queueing of the events leaves.
    pub record Queued (manager : ℕ) (l : List (ℕ × Event)) (o : Objects U) (m : Impl) : Type 0 where
      pub after : Objects U
      pub left : Impl
      pub runs : queue_all l o ≡ some after
      pub same_contexts : after.contexts ≡ o.contexts
      pub same_world : after.world ≡ o.world
      pub held : lookup manager after.managers ≡ some left
      pub full : left.queue ≡ m.queue ++ addresses l
      pub others : (k : ℕ) → lookup k l ≡ none → lookup k after.events ≡ lookup k o.events
      pub stored : AreStored l after.events

    pub queue_all-Queued :
        (manager : ℕ) (l : List (ℕ × Event)) (o : Objects U) (m : Impl)
        → AreOf manager o l
        → IsUnique l
        → lookup manager o.managers ≡ some m
        → InRange m
        → waiting m ≡ []
        → Queued manager l o m
    unfolding queue_all event_manager
    queue_all-Queued manager [] o m a u at range idle = record {
      after = o;
      left = m;
      runs = refl;
      same_contexts = refl;
      same_world = refl;
      held = at;
      full = sym (append-nil m.queue);
      others = λ k h. refl;
      stored = tt;
    }
    queue_all-Queued manager ((address, e) ∷ l) o m (has, a) (free, u) at range idle =
        let start = placed address e o in
        let found = lookup-put_self address e o.events in
        let left = (queue_event accepts address m o.world).0 in
        let world = (queue_event accepts address m o.world).1 in
        let (full, same) = queue_event-idle accepts address m o.world range idle in
        let (none_waits, in_range) = queue_event-waiting accepts address m o.world range idle in
        let next : Objects U = record start {
          managers = put manager left o.managers;
          world = world;
        } in
        let r =
          queue_all-Queued manager l next left (AreOf-same manager o next l refl a) u
            (lookup-put_self manager left o.managers) in_range none_waits in
        record {
          after = r.after;
          left = r.left;
          runs =
              ap (λ q. q >>= queue_all l)
                (queue-found accepts address start found (manager_of-found e start has at))
              ∙ r.runs;
          same_contexts = r.same_contexts;
          same_world = r.same_world ∙ same;
          held = r.held;
          full =
              r.full
              ∙ ap (λ q. q ++ addresses l) full
              ∙ append_assoc m.queue (address ∷ []) (addresses l);
          others = λ k h.
              let (different, absent) = lookup-none k address e l h in
              r.others k absent ∙ lookup-put_other address k e o.events (ground (arith, different));
          stored = (r.others address free ∙ found, r.stored);
        }
