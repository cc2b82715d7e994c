-- ===== src/Manager/Waiting/Conservation.antt =====
-- src/modules/event_manager.cpp: no event is lost or handed out twice, whoever waits.
use libslirc_old.Prelude.{ℕ, refl, Bool, List, [], ◌∷◌, ◌++◌, arith, count-append}
use libslirc_old.Manager.{queue_event, queue_afterwards}
use libslirc_old.Manager.Delivery.{waiting, queue_event_refines, queue_afterwards_refines}
use libslirc_old.Manager.Waiting.{
  System, keeps, Step, Reach, queues, queues_afterwards, waits_callback, takes, blocks, wakes,
  times_out, frees, given_up, here, next,
}
use libslirc_old.Manager.Waiting.Steps.{
  Inv, initial-Inv, delivered, queues-Inv, takes-Inv, blocks-Inv, registers-Inv, returns-Inv,
  frees-Inv,
}

module _ (decides : ℕ → ℕ → List ℕ → Bool) where
  Step-Inv : {s t : System} → Step decides s t → Inv decides s → Inv decides t
  Step-Inv (queues s e) v =
      let (view, settled, range) = queue_event_refines (keeps decides) e s.impl s.world v.range in
      queues-Inv decides s (e ∷ []) (s.impl.queue ++ e ∷ [])
        (queue_event (keeps decides) e s.impl s.world) (λ a. count-append a s.impl.queue (e ∷ []))
        settled range
        (delivered decides (waiting s.impl) _ s.world (queue_event (keeps decides) e s.impl s.world)
          v.world view)
        v
  Step-Inv (queues_afterwards s es) v =
      let (view, settled, range) =
        queue_afterwards_refines (keeps decides) es s.impl s.world v.range in
      queues-Inv decides s es (es ++ s.impl.queue)
        (queue_afterwards (keeps decides) es s.impl s.world)
        (λ a. omega (arith, count-append a es s.impl.queue)) settled range
        (delivered decides (waiting s.impl) _ s.world
          (queue_afterwards (keeps decides) es s.impl s.world) v.world view)
        v
  Step-Inv (waits_callback s f) v = registers-Inv decides s f v
  Step-Inv (takes s e m h) v =
      takes-Inv decides s.impl.queue s.impl.queue_consumers s.impl.queue_consumer_index s.world
        s.queued s.returned e m h v
  Step-Inv (blocks s address h) v =
      blocks-Inv decides s.impl.queue s.impl.queue_consumers s.impl.queue_consumer_index s.world
        s.queued s.returned address h v
  Step-Inv (wakes s address d h active done) v =
      returns-Inv decides s address d d h active refl done v
  Step-Inv (times_out s address d h active) v =
      returns-Inv decides s address d (given_up decides d) h active refl refl v
  Step-Inv (frees s address d h gone) v = frees-Inv decides s address d h gone v

  -- Whatever threads queue events and wait for them, in any order, with callbacks that throw nothing: no
  -- event stays in the queue while a consumer waits, and every event is in the queue, held by a blocked call, accepted by a
  -- callback or returned by a call, exactly as often as it was queued.
  pub Reach-Inv : {s : System} → Reach decides s → Inv decides s
  Reach-Inv here = initial-Inv decides
  Reach-Inv (next r step) = Step-Inv step (Reach-Inv r)
