-- ===== src/Client/Lines/Served.antt =====
-- src/modules/connection.cpp, src/event.cpp and src/modules/event_manager.cpp: the events of the lines
-- that a connection reads, queued and handled.
use libslirc_old.Prelude.{
  ℕ, suc, ◌≤◌, ◌≡◌, refl, sym, ap, ◌∙◌, Bool, List, [], ◌∷◌, ◌++◌, length, Option, some,
}
use libslirc_old.Prelude.Assoc.{lookup}
use libslirc_old.Prelude.Classes.{Classes}
use libslirc_old.Component.{Container}
use libslirc_old.EventId.{IdType}
use libslirc_old.Irc.{Irc}
use libslirc_old.Event.{Event, Payload}
use libslirc_old.Connection.Lines.Stream.{feed}
use libslirc_old.Connection.Lines.Chunks.{concat}
use libslirc_old.Connection.Impl
use libslirc_old.Connection.Impl.{connected, received_line, Machine}
use libslirc_old.Connection.Impl.Received.{line_events}
use libslirc_old.Connection.Stages.Reads.{reads, reads-events}
use libslirc_old.Manager
use libslirc_old.Manager.Delivery.{waiting, InRange}
use libslirc_old.Manager.Handlers.{Signals}
use libslirc_old.Manager.Handle.{Context, Outcome, finished}
use libslirc_old.Manager.Dispatch.{changing, seeing, Emits, calls_of_ids, perform}
use libslirc_old.Client.{◌>>=◌, Objects, event_manager}
use libslirc_old.Client.Delivery.{ids_of_new}
use libslirc_old.Client.Loop.{addresses, serve, serve_all, handled_all}
use libslirc_old.Client.Queued.{queue_all, queue_all-Queued}
use libslirc_old.Client.Lines.{carrying, numbered, numbered-IsUnique, AreOf-lines, lines-AreReady}

module _ {S V : Type 0} (act : ℕ → IdType → Container Payload → V → V) (b : Signals S)
    (signals : IdType → Context (S × V) → Bool × Context (S × V))
    (emits : Emits b (changing act) signals) (accepts : ℕ → ℕ → S × V → Bool × (S × V))
    (classes : Classes) (manager fuel : ℕ) (grow : ℕ → ℕ → ℕ) (grows : (c n : ℕ) → n ≤ grow c n)
    (irc : ℕ) where
  -- The handlers of `received_line`, with one line after the other.
  abbrev pub handled_lines : S → List (List ℕ) → V → V
  handled_lines s [] v = v
  handled_lines s (line ∷ lines) v =
      handled_lines s lines (
        perform (seeing act (carrying line)) (calls_of_ids (b.slots s) (ids_of_new received_line))
          v)

  handled_lines_lem :
      (s : S) (first : ℕ) (lines : List (List ℕ)) (v : V)
      → handled_all act b signals emits accepts classes manager fuel s
          (numbered first (line_events grow irc lines))
          v
        ≡ handled_lines s lines v
  handled_lines_lem s first [] v = refl
  handled_lines_lem s first (line ∷ lines) v =
      handled_lines_lem s (suc first) lines (
        perform (seeing act (carrying line)) (calls_of_ids (b.slots s) (ids_of_new received_line))
          v)

  length-numbered :
      (first : ℕ) (lines : List (List ℕ))
      → length (numbered first (line_events grow irc lines)) ≡ length lines
  length-numbered first [] = refl
  length-numbered first (line ∷ lines) = ap suc (length-numbered (suc first) lines)

  abbrev pub queue_and_serve :
      ℕ → List Event → ℕ → Objects (S × V) → Option (Outcome (Objects (S × V)))
  queue_and_serve first es n o =
      queue_all accepts (numbered first es) o >>= serve accepts classes signals manager fuel n

  queue_and_serve-lines :
      (first : ℕ) (lines : List (List ℕ)) (o : Objects (S × V)) (m : Manager.Impl)
      → event_manager irc o ≡ some manager
      → lookup manager o.managers ≡ some m
      → InRange m
      → m.queue ≡ []
      → waiting m ≡ []
      → 3 ≤ fuel
      → (after : Objects (S × V)) × (left : Manager.Impl) × (queue_and_serve first
            (line_events grow irc lines)
            (length lines)
            o
          ≡ some (finished after))
        × (after.world.user ≡ (o.world.user.0, handled_lines o.world.user.0 lines o.world.user.1))
        × (lookup manager after.managers ≡ some left)
        × (left.queue ≡ [])
  unfolding event_manager
  queue_and_serve-lines first lines o m has at range empty idle f =
      let events = numbered first (line_events grow irc lines) in
      let unique = numbered-IsUnique first (line_events grow irc lines) in
      let q =
        queue_all-Queued accepts manager events o m
          (AreOf-lines grow grows irc manager first lines o has) unique at range idle in
      let (after, left, runs, user, held, none_left) =
        serve_all act b signals emits accepts classes manager fuel events q.after q.left
          (lines-AreReady grow grows irc manager accepts classes signals fuel f first lines q.after
            (ap (λ c. lookup irc c >>= λ (i : Irc). i.event_manager) q.same_contexts ∙ has)
            q.stored)
          unique q.held (q.full ∙ ap (λ l. l ++ addresses events) empty) in
      (
        after,
        left,
        ap (λ r. r >>= serve accepts classes signals manager fuel (length lines)) q.runs
            ∙ ap (λ n. serve accepts classes signals manager fuel n q.after)
                (sym (length-numbered first lines))
            ∙ runs,
        user
            ∙ ap
                (λ (w : Manager.World (S × V)). (
                  w.user.0,
                  handled_all act b signals emits accepts classes manager fuel w.user.0 events
                      w.user.1,
                ))
                q.same_world
            ∙ ap (λ v. (o.world.user.0, v))
                (handled_lines_lem o.world.user.0 first lines o.world.user.1),
        held,
        none_left,
      )

  -- In whatever chunks the bytes arrive at a connected connection without bytes left over and without
  -- events of its own, whose context has an event manager that has no events and for which nobody waits:
  -- when the events that it emits are queued, and the program handles as many events as there are lines,
  -- then the handlers of the ids of a new event of `received_line` are called once for each line that a
  -- reader of single characters makes of all the bytes, in the order of the lines and each time with the
  -- line as the event's `received_data`; no other handler is called, and the event manager has no event
  -- afterwards. Each handling has a fuel of at least 3; the handlers change the user's state alone, by the id
  -- and the components of the event.
  pub lines_served :
      (cancel_fails : Impl.Impl → Bool) (chunks : List (List ℕ)) (c : Machine) (first : ℕ)
      (o : Objects (S × V)) (m : Manager.Impl)
      → c.impl.curstate ≡ connected
      → c.impl.buffers.recv_buffer ≡ []
      → c.emitted ≡ []
      → event_manager irc o ≡ some manager
      → lookup manager o.managers ≡ some m
      → InRange m
      → m.queue ≡ []
      → waiting m ≡ []
      → 3 ≤ fuel
      → let read = reads grow irc cancel_fails chunks c in
        let lines = (feed [] (concat chunks)).0 in
        (after : Objects (S × V)) × (left : Manager.Impl) × (queue_and_serve first read.emitted
            (length lines)
            o
          ≡ some (finished after))
        × (after.world.user ≡ (o.world.user.0, handled_lines o.world.user.0 lines o.world.user.1))
        × (lookup manager after.managers ≡ some left)
        × (left.queue ≡ [])
  lines_served cancel_fails chunks c first o m up fresh quiet has at range empty idle f =
      let lines = (feed [] (concat chunks)).0 in
      let (after, left, runs, user, held, none_left) =
        queue_and_serve-lines first lines o m has at range empty idle f in
      let emitted =
        reads-events grow irc cancel_fails chunks c up fresh
        ∙ ap (λ l. l ++ line_events grow irc lines) quiet in
      (
        after,
        left,
        ap (λ es. queue_and_serve first es (length lines) o) emitted ∙ runs,
        user,
        held,
        none_left,
      )
