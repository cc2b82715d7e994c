-- ===== src/Manager/Handle/Termination.antt =====
-- src/modules/event_manager.cpp, `handle`: with handlers that queue a bounded number of ids it ends,
-- and every id that was pending has been handled by then.
pub mod Total
use libslirc_old.Prelude.{
  subst, ℕ, zero, suc, ◌+◌, ◌≤◌, ◌≡◌, refl, sym, ap, ◌⊎◌, inl, inr, Bool, true, false, [], ◌∷◌,
  arith, length, all, Bool-cases, all-drop,
}
use libslirc_old.EventId.{IdType, is_valid}
use libslirc_old.Event.{pending}
use libslirc_old.Event.Queuing.Invariant.{IsValid}
use libslirc_old.Event.Unqueue.{pop-pending}
use libslirc_old.Event.Lifetime.{pop-IsValid}
use libslirc_old.Manager.Handle.Steps.{handle_ids_last, handle_ids_more}
use libslirc_old.Manager.Handle.{
  Context, Outcome, finished, thrown, out_of_fuel, ◌>>=◌, set_current, restore, popped, handle_as,
  handle_ids, handle_rounds, finishing_handling,
}

-- What is documented of handlers: they leave a valid event valid. Besides, a number that depends on
-- the user's state bounds the ids that they will still queue on the event.
pub record AreBounded {U : Type 0} (signals : IdType → Context U → Bool × Context U)
    (credit : U → ℕ) : Type 0 where
  pub keeps_valid : (id : IdType) (c : Context U) → IsValid c.event → IsValid (signals id c).1.event
  pub spends :
      (id : IdType) (c : Context U)
      → IsValid c.event
      → let after = (signals id c).1 in
        length (pending after.event) + credit after.world.user
        ≤ length (pending c.event) + credit c.world.user

module _ {U : Type 0} (signals : IdType → Context U → Bool × Context U) (credit : U → ℕ)
    (handlers : AreBounded signals credit) where
  -- The ids that may still be handled.
  abbrev pub work : Context U → ℕ
  work c = length (pending c.event) + credit c.world.user

  -- The outcome is not for want of fuel, and what returns is valid and has done no extra work.
  abbrev pub Keeps : Context U → Outcome (Context U) → Type 0
  Keeps c (finished after) = IsValid after.event × (work after ≤ work c)
  Keeps c (thrown after) = Unit
  Keeps c out_of_fuel = ⊥

  Keeps-restore :
      (id : IdType) (c : Context U) (r : Bool × Context U)
      → IsValid r.1.event
      → work r.1 ≤ work c
      → Keeps c (restore id r)
  Keeps-restore id c (false, after) v le =
      (record { range = v.range; roomy = v.roomy; valid = v.valid }, le)
  Keeps-restore id c (true, after) v le = tt

  handle_as-Keeps :
      (id : IdType) (c : Context U) → IsValid c.event → Keeps c (handle_as signals id c)
  unfolding handle_as
  handle_as-Keeps id c v =
      Keeps-restore c.event.current_id_mutable c (signals id (set_current id c))
        (handlers.keeps_valid id (set_current id c) current)
        (handlers.spends id (set_current id c) current)
    where
      current : IsValid (set_current id c).event
      current = record { range = v.range; roomy = v.roomy; valid = v.valid }

  Keeps-trans :
      (c after : Context U) (r : Outcome (Context U))
      → work after ≤ work c
      → Keeps after r
      → Keeps c r
  Keeps-trans c after (finished last) le (v, more) = (v, omega arith)
  Keeps-trans c after (thrown last) le h = tt
  Keeps-trans c after out_of_fuel le h = h

  -- A step that keeps, and what follows from any context that it returns.
  Keeps-bind :
      (c : Context U) (r : Outcome (Context U)) (f : Context U → Outcome (Context U))
      → Keeps c r
      → ((after : Context U) → IsValid after.event → work after ≤ work c → Keeps after (f after))
      → Keeps c (r >>= f)
  Keeps-bind c (finished after) f (v, le) k = Keeps-trans c after (f after) le (k after v le)
  Keeps-bind c (thrown after) f h k = tt
  Keeps-bind c out_of_fuel f h k = h

  abbrev Popped : Context U → IdType × Context U → Type 0
  Popped c (id, rest) =
      ((is_valid id ≡ false) × (pending c.event ≡ []) × (rest ≡ c))
      ⊎ ((is_valid id ≡ true) × IsValid rest.event × (work rest + 1 ≡ work c))

  popped-Popped : (c : Context U) → IsValid c.event → Popped c (popped c)
  popped-Popped c v = elim (pop-pending c.event v.range) [
    | inl (none_left, e) ↦ rw e (inl (refl, none_left, refl))
    | inr (id, ids, after, front, e, rest, range) ↦
        let every : all is_valid (pending c.event) ≡ true =
          all-drop is_valid c.event.next_id_index c.event.queued_ids.items v.valid in
        let first : all is_valid (id ∷ ids) ≡ true = rw front at every in
        rw e (
          inr (
            ground arith,
            subst (λ p. IsValid p.1) e (pop-IsValid c.event v),
            omega (arith, ap length front, ap length rest),
          ))
  ]

  -- Fuel for one id that is not handled any more, or for all the work that is left.
  abbrev IsEnough : ℕ → IdType → Context U → Type 0
  IsEnough fuel id c = ((is_valid id ≡ false) × (1 ≤ fuel)) ⊎ (work c + 2 ≤ fuel)

  -- The step behind a `pop_next_queued_id`, with the fuel that is left.
  popped-IsEnough :
      (fuel : ℕ) (c : Context U)
      → IsValid c.event
      → work c + 2 ≤ suc fuel
      → let (id, rest) = popped c in
        IsEnough fuel id rest × IsValid rest.event × (work rest ≤ work c)
  popped-IsEnough fuel c v h = elim (popped-Popped c v) [
    | inl (last, none_left, same) ↦ (
      inl (last, omega arith),
      subst (λ (r : Context U). IsValid r.event) (sym same) v,
      subst (λ (r : Context U). work r ≤ work c) (sym same) (omega arith),
    )
    | inr (more, valid, less_work) ↦ (inr (omega arith), valid, omega arith)
  ]

  handle_ids-Keeps :
      (fuel : ℕ) (id : IdType) (c : Context U)
      → IsValid c.event
      → IsEnough fuel id c
      → Keeps c (handle_ids signals fuel id c)
  handle_ids-Keeps zero id c v (inl (_, h)) = absurd (omega arith)
  handle_ids-Keeps zero id c v (inr h) = absurd (omega arith)
  handle_ids-Keeps (suc fuel) id c v (inl (last, h)) =
      subst (Keeps c) (sym (handle_ids_last signals fuel id c last)) (v, omega arith)
  handle_ids-Keeps (suc fuel) id c v (inr h) = elim (Bool-cases (is_valid id)) [
    | inr last ↦ subst (Keeps c) (sym (handle_ids_last signals fuel id c last)) (v, omega arith)
    | inl more ↦ subst (Keeps c) (sym (handle_ids_more signals fuel id c more)) (
        Keeps-bind c (handle_as signals id c) _ (handle_as-Keeps id c v) λ handled valid le.
          let (enough, left, less_work) = popped-IsEnough fuel handled valid (omega arith) in
          Keeps-trans handled (popped handled).1 _ less_work
            (handle_ids-Keeps fuel (popped handled).0 (popped handled).1 left enough))
  ]

  -- Besides, what returns has no id pending.
  abbrev pub Drains : Context U → Outcome (Context U) → Type 0
  Drains c (finished after) =
      IsValid after.event × (work after ≤ work c) × (pending after.event ≡ [])
  Drains c (thrown after) = Unit
  Drains c out_of_fuel = ⊥

  Drains-trans :
      (c after : Context U) (r : Outcome (Context U))
      → work after ≤ work c
      → Drains after r
      → Drains c r
  Drains-trans c after (finished last) le (v, more, none_left) = (v, omega arith, none_left)
  Drains-trans c after (thrown last) le h = tt
  Drains-trans c after out_of_fuel le h = h

  Drains-bind :
      (c : Context U) (r : Outcome (Context U)) (f : Context U → Outcome (Context U))
      → Keeps c r
      → ((after : Context U) → IsValid after.event → work after ≤ work c → Drains after (f after))
      → Drains c (r >>= f)
  Drains-bind c (finished after) f (v, le) k = Drains-trans c after (f after) le (k after v le)
  Drains-bind c (thrown after) f h k = tt
  Drains-bind c out_of_fuel f h k = h

  Drains-branch :
      (c : Context U) (b : Bool) (stop again : Outcome (Context U))
      → (b ≡ false → Drains c stop)
      → (b ≡ true → Drains c again)
      → Drains c (elim b [ false ↦ stop | true ↦ again ])
  Drains-branch c false stop again s a = s refl
  Drains-branch c true stop again s a = a refl

  stop-Drains :
      (c : Context U)
      → IsValid c.event
      → is_valid (popped c).0 ≡ false
      → Drains c (finished (popped c).1)
  stop-Drains c v h = elim (popped-Popped c v) [
    | inl (last, none_left, same) ↦
        subst (λ (r : Context U). Drains c (finished r)) (sym same) (v, omega arith, none_left)
    | inr (more, valid, less_work) ↦ absurd (cc)
  ]

  -- The loops of `handle` end by themselves or by an exception, if the fuel of each is two more than
  -- the ids that are pending or may still be queued. Where they return, no id is pending.
  pub handle_rounds-Drains :
      (inner fuel : ℕ) (id : IdType) (c : Context U)
      → IsValid c.event
      → work c + 2 ≤ inner
      → work c + 1 ≤ fuel
      → Drains c (handle_rounds signals inner fuel id c)
  unfolding handle_rounds
  handle_rounds-Drains inner zero id c v i h = absurd (omega arith)
  handle_rounds-Drains inner (suc fuel) id c v i h =
      Drains-bind c (handle_ids signals inner id c) _ (handle_ids-Keeps inner id c v (inr i))
        λ drained v' le.
          Drains-bind drained (handle_as signals finishing_handling drained) _
            (handle_as-Keeps finishing_handling drained v')
            λ c' v'' le'. Drains-branch c' (is_valid (popped c').0) _ _ (stop-Drains c' v'') λ more.
              elim (popped-Popped c' v'') [
                | inl (last, _, _) ↦ absurd (cc)
                | inr (valid_id, valid, less_work) ↦ Drains-trans c' (popped c').1 _ (omega arith) (
                    handle_rounds-Drains inner fuel (popped c').0 (popped c').1 valid (omega arith)
                      (omega arith))
              ]
