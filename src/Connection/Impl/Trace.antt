-- ===== src/Connection/Impl/Trace.antt =====
-- src/modules/connection.cpp: the events of the changes of a connection's state.
use libslirc_old.Prelude.{
  ◌≡◌, refl, sym, subst, Bool, true, false, List, [], ◌∷◌, ◌++◌, Option, none, some, if◌then◌else◌,
}
use libslirc_old.EventId.{IdType, id_eq}
use libslirc_old.Event.{Event, pending}
use libslirc_old.Connection.Impl.{
  ConnectionState, disconnected, connecting, connected, disconnecting, state_id, changed, Machine,
}

-- The state that an event tells of.
abbrev pub state_of_id : IdType → Option ConnectionState
state_of_id id =
    if id_eq id (state_id disconnected)
    then some disconnected
    else if id_eq id (state_id connecting)
    then some connecting
    else if id_eq id (state_id connected)
    then some connected
    else if id_eq id (state_id disconnecting)
    then some disconnecting
    else none

abbrev pub state_of : Event → Option ConnectionState
state_of e = state_of_id e.original_id

-- The changes of the state that there are.
abbrev pub allowed : ConnectionState → ConnectionState → Bool
allowed disconnected connecting = true
allowed connecting connected = true
allowed connecting disconnecting = true
allowed connecting disconnected = true
allowed connected disconnecting = true
allowed connected disconnected = true
allowed disconnecting disconnected = true
allowed _ _ = false

-- An event in a state, and what follows it: if it tells of a change, then the change is allowed, and the
-- event is queued as `changed`, then as the new state.
abbrev Then :
    ConnectionState → List IdType → (ConnectionState → Type 0) → Option ConnectionState → Type 0
Then s ids Rest none = Rest s
Then s ids Rest (some x) = (allowed s x ≡ true) × (ids ≡ changed ∷ state_id x ∷ []) × Rest x

-- From a state to another one by the changes that the events tell of.
pub Route : ConnectionState → List Event → ConnectionState → Type 0
Route s [] t = s ≡ t
Route s (e ∷ es) t = Then s (pending e) (λ x. Route x es t) (state_of e)

pub Route-nil : (s : ConnectionState) → Route s [] s
unfolding Route
Route-nil s = refl

Then-map :
    (s : ConnectionState) (ids : List IdType) (P Q : ConnectionState → Type 0)
    (told : Option ConnectionState)
    → ((x : ConnectionState) → P x → Q x)
    → Then s ids P told
    → Then s ids Q told
Then-map s ids P Q none f p = f s p
Then-map s ids P Q (some x) f (a, q, p) = (a, q, f x p)

-- One more event, which tells of no state.
pub Route-quiet :
    (s : ConnectionState) (es : List Event) (t : ConnectionState) (e : Event)
    → state_of e ≡ none
    → Route s es t
    → Route s (es ++ e ∷ []) t
unfolding Route
Route-quiet s [] t e quiet p = subst (Then s (pending e) (λ x. x ≡ t)) (sym quiet) p
Route-quiet s (f ∷ es) t e quiet p =
    Then-map s (pending f) (λ x. Route x es t) (λ x. Route x (es ++ e ∷ []) t) (state_of f)
      (λ x. Route-quiet x es t e quiet) p

-- One more event, which tells of a change.
pub Route-change :
    (s : ConnectionState) (es : List Event) (t x : ConnectionState) (e : Event)
    → state_of e ≡ some x
    → allowed t x ≡ true
    → pending e ≡ changed ∷ state_id x ∷ []
    → Route s es t
    → Route s (es ++ e ∷ []) x
unfolding Route
Route-change s [] t x e tells a q p =
    subst (Then s (pending e) (λ y. y ≡ x)) (sym tells)
      (subst (λ y. allowed y x ≡ true) (sym p) a, q, refl)
Route-change s (f ∷ es) t x e tells a q p =
    Then-map s (pending f) (λ y. Route y es t) (λ y. Route y (es ++ e ∷ []) x) (state_of f)
      (λ y. Route-change y es t x e tells a q) p

abbrev pub Traced : Machine → Type 0
Traced m = Route disconnected m.emitted m.impl.curstate
