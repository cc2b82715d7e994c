-- ===== src/Manager/Delivery.antt =====
-- src/modules/event_manager.cpp, `try_unqueue`: the events of the queue are offered to the waiting
-- consumers, each consumer once, in order.
use mathlib.Core.List.{reverse, reverse-cons}
use libslirc_old.Prelude.{
  drop-append_le, length-append, ℕ, zero, suc, ◌+◌, ◌-◌, ◌≤◌, ◌≡◌, refl, sym, ap, ◌∙◌, ◌⊎◌, inl,
  inr, Bool, List, [], ◌∷◌, ◌++◌, arith, if◌then◌else◌, length, drop, some, get_elem?-drop,
  drop_all, Bool-cases,
}
use libslirc_old.Manager.{
  Consumer, Impl, World, call, round, offer_loop, reset, try_unqueue, queue_event, queue_afterwards,
  wait_callback, callback, front_inserted, take_front,
}

-- The consumers that have not been called.
abbrev pub waiting : Impl → List Consumer
waiting m = drop m.queue_consumer_index m.queue_consumers

abbrev pub InRange : Impl → Type 0
InRange m = m.queue_consumer_index ≤ length m.queue_consumers

-- No event is left in the queue while a consumer waits.
abbrev pub IsSettled : Impl → Type 0
IsSettled m = (m.queue ≡ []) ⊎ (waiting m ≡ [])

-- The reset forgets only consumers that have been called.
reset_lem :
    (m : Impl)
    → InRange m
    → (m.queue ≡ []) ⊎ (m.queue_consumer_index ≡ length m.queue_consumers)
    → (waiting (reset m) ≡ waiting m)
      × ((reset m).queue ≡ m.queue)
      × IsSettled (reset m)
      × InRange (reset m)
unfolding reset
reset_lem m r (inl empty) = (
  ground (arith, drop_all m.queue_consumer_index m.queue_consumers),
  ground arith,
  inl (ground arith),
  ground arith,
)
reset_lem m r (inr called) =
    let none_left : waiting m ≡ [] =
      drop_all m.queue_consumer_index m.queue_consumers (omega arith) in
    (ground arith, ground arith, inr (ground arith), ground arith)

front_inserted-append :
    (xs ys q : List ℕ) → front_inserted (xs ++ ys) q ≡ front_inserted ys (front_inserted xs q)
front_inserted-append [] ys q = refl
front_inserted-append (x ∷ xs) ys q = front_inserted-append xs ys (x ∷ q)

front_inserted-reverse : (es q : List ℕ) → front_inserted (reverse es) q ≡ es ++ q
front_inserted-reverse [] q = refl
front_inserted-reverse (e ∷ es) q =
    ap (λ l. front_inserted l q) (reverse-cons e es)
    ∙ front_inserted-append (reverse es) (e ∷ []) q
    ∙ ap (◌∷◌ e) (front_inserted-reverse es q)

pub take_front-cons :
    (e : ℕ) (rest : List ℕ) (m : Impl)
    → m.queue ≡ e ∷ rest
    → take_front m ≡ some (e, record m { queue = rest })
unfolding take_front
take_front-cons e rest m h = ground arith

module _ {U : Type 0} (accepts : ℕ → ℕ → U → Bool × U) where
  -- The front of the queue goes to the next consumer, and leaves the queue if that accepts it.
  abbrev pub offer : List Consumer → List ℕ → World U → List Consumer × List ℕ × World U
  offer [] q w = ([], q, w)
  offer (c ∷ cs) [] w = (c ∷ cs, [], w)
  offer (c ∷ cs) (e ∷ q) w =
      let (taken, after) = call accepts c e w in offer cs (if taken then q else e ∷ q) after

  abbrev pub view_of : Impl × World U → List Consumer × List ℕ × World U
  view_of (m, w) = (waiting m, m.queue, w)

  offer-nil : (cs : List Consumer) (w : World U) → offer cs [] w ≡ (cs, [], w)
  offer-nil [] w = refl
  offer-nil (c ∷ cs) w = refl

  abbrev impl : List ℕ → List Consumer → ℕ → Impl
  impl q cs i = record { queue = q; queue_consumers = cs; queue_consumer_index = i }

  abbrev Loops : ℕ → Impl → World U → Type 0
  Loops rounds m w =
      let done = offer_loop accepts rounds m w in
      (view_of done ≡ offer (waiting m) m.queue w)
      × InRange done.0
      × ((done.0.queue ≡ []) ⊎ (done.0.queue_consumer_index ≡ length done.0.queue_consumers))

  offer_loop-Loops :
      (rounds : ℕ) (q : List ℕ) (cs : List Consumer) (i : ℕ) (w : World U)
      → i + rounds ≡ length cs
      → Loops rounds (impl q cs i) w
  unfolding offer_loop round
  offer_loop-Loops zero q cs i w h =
      let none_left : drop i cs ≡ [] = drop_all i cs (omega arith) in
      (rw none_left, omega arith, inr (omega arith))
  offer_loop-Loops (suc rounds) [] cs i w h = (sym (offer-nil (drop i cs) w), omega arith, inl refl)
  offer_loop-Loops (suc rounds) (e ∷ q) cs i w h =
      let (c, at, rest) = get_elem?-drop cs i (omega arith) in
      let (taken, after) = call accepts c e w in
      let ih =
        offer_loop-Loops rounds (if taken then q else e ∷ q) cs (i + 1) after (omega arith) in
      rw (at, rest) ih

  -- `try_unqueue` offers the front of the queue to one waiting consumer after the other, until one
  -- of the two runs out: exactly what `offer` does to the waiting consumers, the queue and what the
  -- consumers see. It leaves no event in the queue while a consumer waits, and the index in range.
  pub try_unqueue_refines :
      (m : Impl) (w : World U)
      → InRange m
      → let done = try_unqueue accepts m w in
        (view_of done ≡ offer (waiting m) m.queue w) × IsSettled done.0 × InRange done.0
  unfolding try_unqueue
  try_unqueue_refines m w r =
      let rounds = length m.queue_consumers - m.queue_consumer_index in
      let (view, range, out) =
        offer_loop-Loops rounds m.queue m.queue_consumers m.queue_consumer_index w (omega arith) in
      let (same, queue, settled, in_range) =
        reset_lem (offer_loop accepts rounds m w).0 range out in
      (rw (same, queue) view, settled, in_range)

  -- `queue` appends the event and offers the queue to the waiting consumers.
  pub queue_event_refines :
      (e : ℕ) (m : Impl) (w : World U)
      → InRange m
      → let done = queue_event accepts e m w in
        (view_of done ≡ offer (waiting m) (m.queue ++ e ∷ []) w) × IsSettled done.0 × InRange done.0
  unfolding queue_event
  queue_event_refines e m w r = try_unqueue_refines (record m { queue = m.queue ++ e ∷ [] }) w r

  -- Where nobody waits, the event stays in the queue.
  pub queue_event-idle :
      (e : ℕ) (m : Impl) (w : World U)
      → InRange m
      → waiting m ≡ []
      → let (left, after) = queue_event accepts e m w in
        (left.queue ≡ m.queue ++ e ∷ []) × (after ≡ w)
  queue_event-idle e m w r idle =
      let view = rw idle at ((queue_event_refines e m w r).0) in
      (ap (λ v. v.1) view, ap (λ v. v.2) view)

  -- And nobody waits afterwards.
  pub queue_event-waiting :
      (e : ℕ) (m : Impl) (w : World U)
      → InRange m
      → waiting m ≡ []
      → let left = (queue_event accepts e m w).0 in (waiting left ≡ []) × InRange left
  queue_event-waiting e m w r idle =
      let (view, settled, range) = queue_event_refines e m w r in
      (ap (λ v. v.0) (rw idle at view), range)

  -- The events of `handle_afterwards` come before the rest of the queue, in the order in which they
  -- were added, and the queue is offered to the waiting consumers.
  pub queue_afterwards_refines :
      (es : List ℕ) (m : Impl) (w : World U)
      → InRange m
      → let done = queue_afterwards accepts es m w in
        (view_of done ≡ offer (waiting m) (es ++ m.queue) w) × IsSettled done.0 × InRange done.0
  unfolding queue_afterwards
  queue_afterwards_refines es m w r =
      rw (front_inserted-reverse es m.queue)
        (try_unqueue_refines (record m { queue = es ++ m.queue }) w r)

  abbrev pub Registers : ℕ → Impl → World U → Type 0
  Registers f m w =
      let done = wait_callback accepts f m w in
      IsSettled done.0
      × InRange done.0
      × (((m.queue ≡ []) × (view_of done ≡ (waiting m ++ callback f ∷ [], [], w)))
          ⊎ ((e : ℕ) × (q : List ℕ) × (m.queue ≡ e ∷ q)
              × (view_of done ≡ (
                  let (taken, u) = accepts f e w.user in
                  (waiting m, (if taken then q else e ∷ q), record w { user = u })))))

  registers :
      (f : ℕ) (q : List ℕ) (cs : List Consumer) (i : ℕ) (w : World U)
      → InRange (impl q cs i)
      → IsSettled (impl q cs i)
      → Registers f (impl q cs i) w
  unfolding wait_callback
  registers f [] cs i w r s = (
    inl refl,
    omega (arith, length-append cs (callback f ∷ [])),
    inl (refl, ap (λ l. (l, [], w)) (drop-append_le i cs (callback f ∷ []) r)),
  )
  registers f (e ∷ q) cs i w r (inl h) = absurd (cc)
  registers f (e ∷ q) cs i w r (inr none_left) = elim (Bool-cases (accepts f e w.user).0) [
    | inl taken ↦ rw taken (inr none_left, r, inr (e, q, refl, rw taken))
    | inr refused ↦ rw refused (inr none_left, r, inr (e, q, refl, rw refused))
  ]

  -- `wait_event` of a callback keeps the index in range and leaves no event in the queue while a
  -- consumer waits: it calls the callback at once on the front of the queue, which leaves the queue
  -- if the callback accepts it, or on an empty queue leaves the callback waiting behind the others.
  pub wait_callback_lem :
      (f : ℕ) (m : Impl) (w : World U) → InRange m → IsSettled m → Registers f m w
  wait_callback_lem f m w r s = registers f m.queue m.queue_consumers m.queue_consumer_index w r s
