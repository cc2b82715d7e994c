-- ===== src/Connection/Life/Quiet.antt =====
-- src/modules/connection.cpp: nothing happens to a connection that has been destroyed.
use libslirc_old.Prelude.{
  ℕ, ◌≡◌, ◌≢◌, refl, sym, subst, ◌⊎◌, inl, inr, Bool-cases, Bool, true, false, ◌++◌, none, some,
}
use libslirc_old.Connection.Impl.{disconnected, disconnecting, Operation, Impl, Machine, Done}
use libslirc_old.Connection.Impl.Trace.{allowed}
use libslirc_old.Connection.Stages.{disconnect}
use libslirc_old.Connection.Stages.Returns.{IsEnded, disconnect-Ends}
use libslirc_old.Connection.Stages.Ignored.{CannotEnd, disconnect-throws}
use libslirc_old.Connection.System.{Outcome}
use libslirc_old.Connection.System.Ended.{callback-ignored}
use libslirc_old.Connection.Api.{destroy}
use libslirc_old.Connection.Life.{
  Life, alive, destroyed, terminated, left_by, late_callback, LifeStep, lives, destroys,
  completes_late, Run, here, next,
}

-- What an ended connection that nothing happens to keeps: its state and its events.
pub record IsQuiet (d n : Machine) : Type 0 where
  pub same_impl : n.impl ≡ d.impl
  pub same_events : n.emitted ≡ d.emitted
  pub ended : IsEnded n.impl.curstate

-- The program has been terminated, or the connection is quiet.
abbrev pub StaysQuiet : Machine → Life → Type 0
StaysQuiet d (alive n) = ⊥
StaysQuiet d (destroyed n) = IsQuiet d n
StaysQuiet d terminated = ⊥

abbrev IsTerminated : Life → Type 0
IsTerminated (alive n) = ⊥
IsTerminated (destroyed n) = ⊥
IsTerminated terminated = Unit

terminated-eq : (l : Life) → IsTerminated l → l ≡ terminated
terminated-eq (alive n) h = absurd h
terminated-eq (destroyed n) h = absurd h
terminated-eq terminated h = refl

left_by-none : (d : Done) → d.0 ≡ none → left_by d ≡ destroyed d.1
left_by-none (none, m) h = refl
left_by-none (some e, m) h = absurd (cc)

left_by-some : (d : Done) → d.0 ≢ none → left_by d ≡ terminated
left_by-some (none, m) h = absurd (h refl)
left_by-some (some e, m) h = refl

module _ (grow : ℕ → ℕ → ℕ) (irc : ℕ) (cancel_fails : Impl → Bool) (ssl_support : Bool) where
  late_callback-ignored :
      (locked : Bool) (op : Operation) (r : Outcome op) (m : Machine)
      → IsEnded m.impl.curstate
      → late_callback grow irc cancel_fails ssl_support locked op r m ≡ (none, m)
  unfolding late_callback
  late_callback-ignored true op r m e = callback-ignored grow irc cancel_fails ssl_support op r m e
  late_callback-ignored false op r m e = refl

  LifeStep-StaysQuiet :
      (d : Machine) {k n : Life}
      → LifeStep grow irc cancel_fails ssl_support k n
      → StaysQuiet d k
      → StaysQuiet d n
  LifeStep-StaysQuiet d (lives step) q = absurd q
  LifeStep-StaysQuiet d (destroys m) q = absurd q
  LifeStep-StaysQuiet d (completes_late m before after op r locked e) q =
      let rest : Machine = record m { operations = before ++ after } in
      subst (λ (c : Done). IsQuiet d c.1) (sym (late_callback-ignored locked op r rest q.ended))
        (record { same_impl = q.same_impl; same_events = q.same_events; ended = q.ended })

  Run-StaysQuiet :
      (d : Machine) {k n : Life}
      → Run grow irc cancel_fails ssl_support k n
      → StaysQuiet d k
      → StaysQuiet d n
  Run-StaysQuiet d here q = q
  Run-StaysQuiet d (next r step) q = LifeStep-StaysQuiet d step (Run-StaysQuiet d r q)

  LifeStep-IsTerminated :
      {k n : Life}
      → LifeStep grow irc cancel_fails ssl_support k n
      → IsTerminated k
      → IsTerminated n
  LifeStep-IsTerminated (lives step) q = absurd q
  LifeStep-IsTerminated (destroys m) q = absurd q
  LifeStep-IsTerminated (completes_late m before after op r locked e) q = absurd q

  Run-IsTerminated :
      {k n : Life} → Run grow irc cancel_fails ssl_support k n → IsTerminated k → IsTerminated n
  Run-IsTerminated here q = q
  Run-IsTerminated (next r step) q = LifeStep-IsTerminated step (Run-IsTerminated r q)

  -- The destructor of a connection that is connecting or connected terminates the program if there is
  -- no socket or `cancel` throws.
  destroy-terminates :
      (m : Machine) (n : Life)
      → Run grow irc cancel_fails ssl_support
          (left_by (destroy grow irc cancel_fails ssl_support m))
          n
      → allowed m.impl.curstate disconnecting ≡ true
      → CannotEnd grow irc cancel_fails m
      → n ≡ terminated
  unfolding destroy
  destroy-terminates m n r busy cannot =
      let (throws, _) = disconnect-throws grow irc cancel_fails m busy cannot in
      let died = left_by-some (disconnect grow irc cancel_fails m) throws in
      terminated-eq n (Run-IsTerminated r (subst IsTerminated (sym died) tt))

  -- A destructor that returns leaves the connection disconnected, if it was connecting or connected.
  -- Whatever callbacks run behind it, whether or not they have locked the implementation before, the
  -- connection keeps its state, emits nothing any more, and neither connects nor is connected.
  pub destroyed_quiet :
      (m : Machine) (n : Life)
      → (destroy grow irc cancel_fails ssl_support m).0 ≡ none
      → Run grow irc cancel_fails ssl_support
          (left_by (destroy grow irc cancel_fails ssl_support m))
          n
      → let left = (destroy grow irc cancel_fails ssl_support m).1 in
        StaysQuiet left n
        × ((left.impl.curstate ≡ disconnected) ⊎ (allowed m.impl.curstate disconnecting ≡ false))
  unfolding destroy
  destroyed_quiet m n returned r =
      let left = disconnect grow irc cancel_fails m in
      let (over, closed) = disconnect-Ends grow irc cancel_fails m returned in
      let quiet : IsQuiet left.1 left.1 = record {
        same_impl = refl;
        same_events = refl;
        ended = over;
      } in
      (
        Run-StaysQuiet left.1 r
            (subst (StaysQuiet left.1) (sym (left_by-none left returned)) quiet),
        elim (Bool-cases (allowed m.impl.curstate disconnecting)) [
          | inl was_busy ↦ inl (closed was_busy)
          | inr at_rest ↦ inr at_rest
        ],
      )
