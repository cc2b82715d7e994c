-- ===== src/Connection/Impl/Effects.antt =====
-- src/modules/connection.cpp, `emit_error`, `emit_line` and `emit_state_change`: what they leave.
use libslirc_old.Prelude.{
  Bool-cases, inl, inr, ℕ, ◌≡◌, refl, sym, ap, ◌∙◌, subst, true, false, List, [], ◌∷◌, none, some,
  if◌then◌else◌, Result, ok, throw,
}
use libslirc_old.EventId.{IdType, is_invalid}
use libslirc_old.Event.{
  Event, Payload, make_event, pending, received_line_data, error_details, discard, at_front,
}
use libslirc_old.Event.Queuing.{queue_as}
use libslirc_old.Event.Queuing.Fresh.{new_event, make_event-new, queue_as-new}
use libslirc_old.Component.{ComponentType, insert}
use libslirc_old.Connection.Impl.{
  ConnectionState, disconnected, connecting, connected, disconnecting, is_state, state_id, changed,
  Operation, ErrorCode, Machine, emit, state_event, queued_also_as, with_component, received_line,
  error_event, received_data, error_info, emit_error, emit_line, emit_state_change,
}
use libslirc_old.Connection.Impl.Trace.{
  state_of_id, state_of, allowed, Route-quiet, Route-change, Traced,
}

state_of_id-state_id : (x : ConnectionState) → state_of_id (state_id x) ≡ some x
state_of_id-state_id disconnected = refl
state_of_id-state_id connecting = refl
state_of_id-state_id connected = refl
state_of_id-state_id disconnecting = refl

-- What an operation leaves: the state, the operations of Asio that are under way, and a trace.
pub record Leads (s : ConnectionState) (ops : List Operation) (m n : Machine) : Type 0 where
  pub state : n.impl.curstate ≡ s
  pub under_way : n.operations ≡ ops
  pub same_socket : n.impl.socket ≡ m.impl.socket
  pub same_ssl : n.impl.ssl ≡ m.impl.ssl
  pub same_host : n.impl.hostname ≡ m.impl.hostname
  pub same_port : n.impl.port ≡ m.impl.port
  pub same_stopping : n.network.internal_service_stopping ≡ m.network.internal_service_stopping
  pub trace : Traced m → Traced n

pub trans :
    {s t : ConnectionState} {ops more : List Operation} {m n k : Machine}
    → Leads s ops m n
    → Leads t more n k
    → Leads t more m k
trans a b = record {
  state = b.state;
  under_way = b.under_way;
  same_socket = b.same_socket ∙ a.same_socket;
  same_ssl = b.same_ssl ∙ a.same_ssl;
  same_host = b.same_host ∙ a.same_host;
  same_port = b.same_port ∙ a.same_port;
  same_stopping = b.same_stopping ∙ a.same_stopping;
  trace = λ t. b.trace (a.trace t);
}

-- An event, if it is made, that tells of no state.
abbrev Quiet : Result Event → Type 0
Quiet (throw x) = Unit {0}
Quiet (ok e) = state_of e ≡ none

emit-Leads :
    (r : Result Event) (m : Machine) → Quiet r → Leads m.impl.curstate m.operations m (emit r m)
emit-Leads (throw x) m quiet = record {
  state = refl;
  under_way = refl;
  same_socket = refl;
  same_ssl = refl;
  same_host = refl;
  same_port = refl;
  same_stopping = refl;
  trace = λ t. t;
}
emit-Leads (ok e) m quiet = record {
  state = refl;
  under_way = refl;
  same_socket = refl;
  same_ssl = refl;
  same_host = refl;
  same_port = refl;
  same_stopping = refl;
  trace = Route-quiet disconnected m.emitted m.impl.curstate e quiet;
}

-- A component leaves the id of an event.
with_component-Quiet :
    (r : Result Event) (t : ComponentType) (p : Payload) → Quiet r → Quiet (with_component r t p)
with_component-Quiet (throw x) t p quiet = tt
with_component-Quiet (ok e) t p quiet =
    elim (insert t p e.components)
      as (λ i. Quiet (elim i [
        | throw x ↦ throw x
        | ok (_, components) ↦ ok (record e { components = components })
      ])) [ throw x ↦ tt | ok (_, components) ↦ quiet ]

make_event-Quiet :
    (grow : ℕ → ℕ → ℕ) (irc : ℕ) (id : IdType)
    → is_invalid id ≡ false
    → state_of_id id ≡ none
    → Quiet (make_event grow irc id)
make_event-Quiet grow irc id valid quiet =
    subst Quiet (sym (make_event-new grow irc id valid)) quiet

allowed-is_state : (s t : ConnectionState) → allowed s t ≡ true → is_state s t ≡ false
allowed-is_state disconnected connecting a = refl
allowed-is_state connecting connected a = refl
allowed-is_state connecting disconnecting a = refl
allowed-is_state connecting disconnected a = refl
allowed-is_state connected disconnecting a = refl
allowed-is_state connected disconnected a = refl
allowed-is_state disconnecting disconnected a = refl
allowed-is_state disconnected disconnected a = absurd (cc)
allowed-is_state disconnected connected a = absurd (cc)
allowed-is_state disconnected disconnecting a = absurd (cc)
allowed-is_state connecting connecting a = absurd (cc)
allowed-is_state connected connecting a = absurd (cc)
allowed-is_state connected connected a = absurd (cc)
allowed-is_state disconnecting connecting a = absurd (cc)
allowed-is_state disconnecting connected a = absurd (cc)
allowed-is_state disconnecting disconnecting a = absurd (cc)

abbrev moved : ConnectionState → Machine → Machine
moved t m = record m { impl = record (m.impl) { curstate = t } }

announce-Leads :
    (t : ConnectionState) (e : Event) (m : Machine)
    → state_of e ≡ some t
    → pending e ≡ changed ∷ state_id t ∷ []
    → allowed m.impl.curstate t ≡ true
    → Leads t m.operations m (emit (ok e) (moved t m))
announce-Leads t e m tells ids a = record {
  state = refl;
  under_way = refl;
  same_socket = refl;
  same_ssl = refl;
  same_host = refl;
  same_port = refl;
  same_stopping = refl;
  trace = Route-change disconnected m.emitted m.impl.curstate t e tells a ids;
}

module _ (grow : ℕ → ℕ → ℕ) (irc : ℕ) where
  -- The event of a state, as it is emitted.
  state_event_of : ConnectionState → Event
  state_event_of t = (queue_as grow (new_event grow irc (state_id t)) changed discard at_front).1

  state_event_lem : (t : ConnectionState) → state_event grow irc t ≡ ok (state_event_of t)
  unfolding state_event state_event_of
  state_event_lem disconnected = ap (queued_also_as grow changed) (make_event-new grow irc _ refl)
  state_event_lem connecting = ap (queued_also_as grow changed) (make_event-new grow irc _ refl)
  state_event_lem connected = ap (queued_also_as grow changed) (make_event-new grow irc _ refl)
  state_event_lem disconnecting = ap (queued_also_as grow changed) (make_event-new grow irc _ refl)

  state_event_of-ids :
      (t : ConnectionState)
      → ((state_event_of t).original_id ≡ state_id t)
        × (pending (state_event_of t) ≡ changed ∷ state_id t ∷ [])
  unfolding state_event_of
  state_event_of-ids disconnected = queue_as-new grow irc _ changed refl refl
  state_event_of-ids connecting = queue_as-new grow irc _ changed refl refl
  state_event_of-ids connected = queue_as-new grow irc _ changed refl refl
  state_event_of-ids disconnecting = queue_as-new grow irc _ changed refl refl

  state_event_of-state_of : (t : ConnectionState) → state_of (state_event_of t) ≡ some t
  state_event_of-state_of t = ap state_of_id (state_event_of-ids t).0 ∙ state_of_id-state_id t

  pub emit_error-Leads :
      (text : List ℕ) (error : ErrorCode) (m : Machine)
      → Leads m.impl.curstate m.operations m (emit_error grow irc text error m)
  unfolding emit_error
  emit_error-Leads text error m = emit-Leads _ m (
      with_component-Quiet (make_event grow irc error_event) error_info
        (error_details text error.code) (make_event-Quiet grow irc error_event refl refl))

  pub emit_line-Leads :
      (line : List ℕ) (m : Machine)
      → Leads m.impl.curstate m.operations m (emit_line grow irc line m)
  unfolding emit_line
  emit_line-Leads line m = emit-Leads _ m (
      with_component-Quiet (make_event grow irc received_line) received_data
        (received_line_data line) (make_event-Quiet grow irc received_line refl refl))

  pub emit_state_change-Leads :
      (t : ConnectionState) (m : Machine)
      → allowed m.impl.curstate t ≡ true
      → Leads t m.operations m (emit_state_change grow irc t m)
  unfolding emit_state_change
  emit_state_change-Leads t m a =
      let different = allowed-is_state m.impl.curstate t a in
      subst
        (λ b. Leads t m.operations m (if b then m else emit (state_event grow irc t) (moved t m)))
        (sym different)
        (subst (λ r. Leads t m.operations m (emit r (moved t m))) (sym (state_event_lem t))
          (announce-Leads t (state_event_of t) m (state_event_of-state_of t)
            (state_event_of-ids t).1 a))

  emit-network : (r : Result Event) (m : Machine) → (emit r m).network ≡ m.network
  emit-network (throw e) m = refl
  emit-network (ok e) m = refl

  pub emit_state_change-network :
      (t : ConnectionState) (m : Machine) → (emit_state_change grow irc t m).network ≡ m.network
  unfolding emit_state_change
  emit_state_change-network t m = elim (Bool-cases (is_state m.impl.curstate t)) [
    | inl same ↦ rw same refl
    | inr other ↦ rw other (emit-network (state_event grow irc t) (moved t m))
  ]
