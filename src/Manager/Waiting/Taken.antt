-- ===== src/Manager/Waiting/Taken.antt =====
-- src/modules/event_manager.cpp: what a delivery does to the events that consumers hold.
use libslirc_old.Prelude.{
  ℕ, ◌+◌, ◌≡◌, refl, inl, inr, Bool, true, false, List, [], ◌∷◌, arith, Option, none, some,
  if◌then◌else◌, count, Bool-cases,
}
use libslirc_old.Prelude.Assoc.{
  lookup, put, IsUnique, AllEntries, put-IsUnique, put-AllEntries, lookup-AllEntries,
}
use libslirc_old.Manager.{Consumer, returning, callback, World, WaitData, call, offer_data}
use libslirc_old.Manager.Delivery.{offer}
use libslirc_old.Manager.Waiting.{returns, keeps, IsConsistent, held, held_by, held-put}

pub record IsWorld (w : World (List ℕ)) : Type 0 where
  pub unique : IsUnique w.blocked
  pub consistent : AllEntries IsConsistent w.blocked

-- How often an event is with the blocked calls or the callbacks.
abbrev pub taken_in : ℕ → World (List ℕ) → ℕ
taken_in a w = held a w.blocked + count a w.user

pub count-returns :
    (a : ℕ) (o : Option ℕ) (l : List ℕ) → count a (returns o l) ≡ count a (returns o []) + count a l
count-returns a none l = omega arith
count-returns a (some e) l = omega arith

-- The events that were in the queue are in its rest or with a consumer.
abbrev pub Offered : List ℕ → World (List ℕ) → List Consumer × List ℕ × World (List ℕ) → Type 0
Offered q w (_, rest, after) =
    IsWorld after × ((a : ℕ) → count a rest + taken_in a after ≡ count a q + taken_in a w)

module _ (decides : ℕ → ℕ → List ℕ → Bool) where
  abbrev Called : ℕ → World (List ℕ) → Bool × World (List ℕ) → Type 0
  Called e w (taken, after) =
      IsWorld after
      × ((a : ℕ) → taken_in a after ≡ taken_in a w + (if taken then count a (e ∷ []) else 0))

  -- A blocked call that awaits an event accepts it.
  accepted-Called :
      (address e : ℕ) (w : World (List ℕ)) (d : WaitData)
      → lookup address w.blocked ≡ some d
      → IsWorld w
      → d.has_returned ≡ false
      → d.event ≡ none
      → let got : WaitData = record d { awaits_event = false; event = some e } in
        Called e w (true, record w { blocked = put address got w.blocked })
  accepted-Called address e w d h v active empty =
      let got : WaitData = record d { awaits_event = false; event = some e } in
      (
        record {
          unique = put-IsUnique address got w.blocked v.unique;
          consistent =
              put-AllEntries IsConsistent address got w.blocked (inr (inl (active, refl, e, refl)))
                v.consistent;
        },
        λ a.
            let before : held_by a d ≡ 0 = ground (arith, active, empty) in
            let now : held_by a got ≡ count a (e ∷ []) = ground (arith, active) in
            omega (arith, held-put a address d got w.blocked h, before, now),
      )

  offer_data-Called :
      (address e : ℕ) (w : World (List ℕ)) (o : Option WaitData)
      → lookup address w.blocked ≡ o
      → IsWorld w
      → Called e w (offer_data (keeps decides) address e w o)
  unfolding offer_data
  offer_data-Called address e w none h v = (v, λ a. omega arith)
  offer_data-Called address e w (some d) h v =
      elim (lookup-AllEntries IsConsistent address w.blocked v.consistent h) [
        | inl (active, awaits, empty) ↦ rw awaits (accepted-Called address e w d h v active empty)
        | inr (inl (active, done, event, at)) ↦ rw done (v, λ a. omega arith)
        | inr (inr (gone, done)) ↦ rw done (v, λ a. omega arith)
      ]

  call-Called :
      (c : Consumer) (e : ℕ) (w : World (List ℕ))
      → IsWorld w
      → Called e w (call (keeps decides) c e w)
  unfolding call
  call-Called (returning address) e w v =
      offer_data-Called address e w (lookup address w.blocked) refl v
  call-Called (callback f) e w v = elim (Bool-cases (decides f e w.user)) [
    | inl yes_ ↦ rw yes_ (record { unique = v.unique; consistent = v.consistent }, λ a. omega arith)
    | inr no_ ↦ rw no_ (record { unique = v.unique; consistent = v.consistent }, λ a. omega arith)
  ]

  pub offer-Offered :
      (cs : List Consumer) (q : List ℕ) (w : World (List ℕ))
      → IsWorld w
      → Offered q w (offer (keeps decides) cs q w)
  offer-Offered [] q w v = (v, λ a. refl)
  offer-Offered (c ∷ cs) [] w v = (v, λ a. refl)
  offer-Offered (c ∷ cs) (e ∷ q) w v =
      let (taken, after) = call (keeps decides) c e w in
      let (v', called) = call-Called c e w v in
      let (v'', offered) = offer-Offered cs (if taken then q else e ∷ q) after v' in
      (v'', λ a. ground (arith, called a, offered a))

  pub Called-user :
      (f e : ℕ) (q : List ℕ) (cs : List Consumer) (w : World (List ℕ))
      → IsWorld w
      → Offered (e ∷ q) w (
          let (taken, u) = keeps decides f e w.user in
          (cs, (if taken then q else e ∷ q), record w { user = u }))
  Called-user f e q cs w v = elim (Bool-cases (decides f e w.user)) [
    | inl accepted ↦
        rw accepted (record { unique = v.unique; consistent = v.consistent }, λ a. omega arith)
    | inr refused ↦
        rw refused (record { unique = v.unique; consistent = v.consistent }, λ a. omega arith)
  ]
