-- ===== src/Manager/Waiting/Steps.antt =====
-- src/modules/event_manager.cpp: what one step of a thread does to the events, wherever they are.
use libslirc_old.Prelude.{
  ℕ, ◌+◌, ◌≡◌, refl, sym, ap, ◌⊎◌, inl, inr, Bool, true, false, List, [], ◌∷◌, ◌++◌, arith, none,
  some, if◌then◌else◌, count, count-append, subst, length-append,
}
use mathlib.Core.Path.{subst₂}
use mathlib.Core.Option.{some-injective}
use libslirc_old.Prelude.Assoc.{
  lookup, erase, put-IsUnique, erase-IsUnique, put-AllEntries, erase-AllEntries,
}
use libslirc_old.Manager.{
  Consumer, returning, callback, Impl, World, WaitData, fresh_data, wait_callback, take_front,
  take_or_register,
}
use libslirc_old.Manager.Delivery.{waiting, InRange, IsSettled, offer, view_of, wait_callback_lem}
use libslirc_old.Manager.Waiting.{
  System, initial, returns, keeps, IsConsistent, held, held_by, held-put, held-put_fresh,
  held-erase, returned_from,
}
use libslirc_old.Manager.Waiting.Taken.{IsWorld, count-returns, Offered, offer-Offered, Called-user}

module _ (decides : ℕ → ℕ → List ℕ → Bool) where
  -- Every event that was queued is in the queue, held by a blocked call, accepted by a callback or
  -- returned by a call, exactly as often as it was queued.
  pub record Inv (s : System) : Type 0 where
    pub settled : IsSettled s.impl
    pub range : InRange s.impl
    pub world : IsWorld s.world
    pub conserved :
        (a : ℕ)
        → count a s.queued
          ≡ count a s.impl.queue
            + held a s.world.blocked
            + count a s.world.user
            + count a s.returned

  pub initial-Inv : Inv initial
  initial-Inv = record {
    settled = inl refl;
    range = omega arith;
    world = record { unique = tt; consistent = tt };
    conserved = λ a. omega arith;
  }

  -- What a delivery leaves, from what it is equal to.
  pub delivered :
      (cs : List Consumer) (q : List ℕ) (w : World (List ℕ)) (done : Impl × World (List ℕ))
      → IsWorld w
      → view_of (keeps decides) done ≡ offer (keeps decides) cs q w
      → Offered q w (view_of (keeps decides) done)
  delivered cs q w done v e = subst (Offered q w) (sym e) (offer-Offered decides cs q w v)

  pub queues-Inv :
      (s : System) (added : List ℕ) (q : List ℕ) (done : Impl × World (List ℕ))
      → ((a : ℕ) → count a q ≡ count a s.impl.queue + count a added)
      → IsSettled done.0
      → InRange done.0
      → Offered q s.world (view_of (keeps decides) done)
      → Inv s
      → Inv (record s { impl = done.0; world = done.1; queued = added ++ s.queued })
  queues-Inv s added q done more settled range off v = record {
    settled = settled;
    range = range;
    world = off.0;
    conserved = λ a. omega (arith, more a, off.1 a, v.conserved a, count-append a added s.queued);
  }

  registered :
      (s : System) (f : ℕ)
      → Inv s
      → let done = wait_callback (keeps decides) f s.impl s.world in
        ((s.impl.queue ≡ [])
            × (view_of (keeps decides) done ≡ (waiting s.impl ++ callback f ∷ [], [], s.world)))
          ⊎ ((e : ℕ) × (q : List ℕ) × (s.impl.queue ≡ e ∷ q)
              × (view_of (keeps decides) done ≡ (
                  let (taken, u) = keeps decides f e s.world.user in
                  (waiting s.impl, (if taken then q else e ∷ q), record (s.world) { user = u }))))
        → Offered s.impl.queue s.world (view_of (keeps decides) done)
  registered s f v (inl (empty, view)) =
      subst (Offered s.impl.queue s.world) (sym view)
        (v.world, λ a. omega (arith, ap (count a) empty))
  registered s f v (inr (e, q, at, view)) =
      subst₂ (λ l r. Offered l s.world r) (sym at) (sym view)
        (Called-user decides f e q (waiting s.impl) s.world v.world)

  abbrev system : List ℕ → List Consumer → ℕ → World (List ℕ) → List ℕ → List ℕ → System
  system q cs i w queued returned = record {
    impl = record { queue = q; queue_consumers = cs; queue_consumer_index = i };
    world = w;
    queued = queued;
    returned = returned;
  }

  -- The first event leaves the queue.
  popped-Inv :
      (x : ℕ) (q : List ℕ) (cs : List Consumer) (i : ℕ) (w : World (List ℕ))
      (queued returned : List ℕ)
      → Inv (system (x ∷ q) cs i w queued returned)
      → Inv (system q cs i w queued (x ∷ returned))
  popped-Inv x q cs i w queued returned v = record {
    settled = elim v.settled [ inl e ↦ absurd (cc) | inr none_left ↦ inr none_left ];
    range = v.range;
    world = v.world;
    conserved = λ a. omega (arith, v.conserved a);
  }

  pub takes-Inv :
      (q : List ℕ) (cs : List Consumer) (i : ℕ) (w : World (List ℕ)) (queued returned : List ℕ)
      (e : ℕ) (m : Impl)
      → take_front (record { queue = q; queue_consumers = cs; queue_consumer_index = i })
        ≡ some (e, m)
      → Inv (system q cs i w queued returned)
      → Inv (record { impl = m; world = w; queued = queued; returned = e ∷ returned })
  unfolding take_front
  takes-Inv [] cs i w queued returned e m h v = absurd (cc)
  takes-Inv (x ∷ q) cs i w queued returned e m h v =
      subst
        (λ (p : ℕ × Impl).
          Inv (record { impl = p.1; world = w; queued = queued; returned = p.0 ∷ returned }))
        (some-injective _ _ h) (popped-Inv x q cs i w queued returned v)

  pub blocks-Inv :
      (q : List ℕ) (cs : List Consumer) (i : ℕ) (w : World (List ℕ)) (queued returned : List ℕ)
      (address : ℕ)
      → lookup address w.blocked ≡ none
      → Inv (system q cs i w queued returned)
      → let m : Impl = record { queue = q; queue_consumers = cs; queue_consumer_index = i } in
        let r = take_or_register address m w in
        Inv (record { impl = r.1; world = r.2; queued = queued; returned = returns r.0 returned })
  unfolding take_or_register
  blocks-Inv [] cs i w queued returned address h v = record {
    settled = inl refl;
    range = omega (arith, v.range, length-append cs (returning address ∷ []));
    world = record {
      unique = put-IsUnique address fresh_data w.blocked v.world.unique;
      consistent =
          put-AllEntries IsConsistent address fresh_data w.blocked (inl (refl, refl, refl))
            v.world.consistent;
    };
    conserved = λ a. omega (arith, v.conserved a, held-put_fresh a address w.blocked h);
  }
  blocks-Inv (x ∷ q) cs i w queued returned address h v = popped-Inv x q cs i w queued returned v

  pub registers-Inv :
      (s : System) (f : ℕ)
      → Inv s
      → Inv (record s {
        impl = (wait_callback (keeps decides) f s.impl s.world).0;
        world = (wait_callback (keeps decides) f s.impl s.world).1;
      })
  registers-Inv s f v =
      let (settled, range, done) =
        wait_callback_lem (keeps decides) f s.impl s.world v.range v.settled in
      queues-Inv s [] s.impl.queue (wait_callback (keeps decides) f s.impl s.world)
        (λ a. omega arith) settled range (registered s f v done) v

  -- A blocked call returns, with what its variable holds.
  pub returns-Inv :
      (s : System) (address : ℕ) (found d : WaitData)
      → lookup address s.world.blocked ≡ some found
      → found.has_returned ≡ false
      → d.event ≡ found.event
      → d.awaits_event ≡ false
      → Inv s
      → Inv (returned_from decides address d s)
  returns-Inv s address found d h active same done v =
      let after : WaitData = record d { has_returned = true } in
      record {
        settled = v.settled;
        range = v.range;
        world = record {
          unique = put-IsUnique address after s.world.blocked v.world.unique;
          consistent =
              put-AllEntries IsConsistent address after s.world.blocked (inr (inr (refl, done)))
                v.world.consistent;
        };
        conserved = λ a.
            let before : held_by a found ≡ count a (returns d.event []) =
              ground (arith, active, same) in
            omega (
              arith,
              v.conserved a,
              held-put a address found after s.world.blocked h,
              before,
              count-returns a d.event s.returned,
            );
      }

  -- The data of a call that has returned holds nothing.
  pub frees-Inv :
      (s : System) (address : ℕ) (d : WaitData)
      → lookup address s.world.blocked ≡ some d
      → d.has_returned ≡ true
      → Inv s
      → Inv (record s { world = record (s.world) { blocked = erase address s.world.blocked } })
  frees-Inv s address d h gone v = record {
    settled = v.settled;
    range = v.range;
    world = record {
      unique = erase-IsUnique address s.world.blocked v.world.unique;
      consistent = erase-AllEntries IsConsistent address s.world.blocked v.world.consistent;
    };
    conserved = λ a.
        let nothing : held_by a d ≡ 0 = ground (arith, gone) in
        omega (arith, v.conserved a, held-erase a address d s.world.blocked h, nothing);
  }
