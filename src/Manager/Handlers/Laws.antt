-- ===== src/Manager/Handlers/Laws.antt =====
-- include/slirc/apis/event_manager.hpp: the order of handler connections, and disconnecting.
use libslirc_old.Prelude.{ℕ, ◌≡◌, ◌↔◌, inl, inr, refl, ap, ◌∙◌, subst, true, false, arith}
use libslirc_old.Manager.Handlers.{
  Signals, Documented, HandlerConnection, no_connection, make_connection, connection_less,
  is_different, is_same, less,
}

-- A connection that was made by an event manager, or is not associated with a handler.
pub data IsMade : HandlerConnection → Type 0 where
  made : (manager c : ℕ) → IsMade (make_connection manager c)
  unassociated : IsMade no_connection

module _ {S : Type 0} (b : Signals S) (d : Documented b) where
  less_irreflexive : {x : HandlerConnection} → IsMade x → less b x x ≡ false
  unfolding less connection_less
  less_irreflexive (made manager c) = ground (arith, d.irreflexive c)
  less_irreflexive unassociated = refl

  less_transitive :
      {x y z : HandlerConnection}
      → IsMade x
      → IsMade y
      → IsMade z
      → less b x y ≡ true
      → less b y z ≡ true
      → less b x z ≡ true
  unfolding less connection_less
  less_transitive (made m x) (made n y) (made k z) h l = ground (arith, d.transitive x y z)
  less_transitive unassociated (made n y) (made k z) h l = refl
  less_transitive p unassociated r h l = absurd (cc)
  less_transitive p q unassociated h l = absurd (cc)

  same_refl : {x : HandlerConnection} → IsMade x → is_same b x x ≡ true
  unfolding is_same is_different connection_less
  same_refl (made manager c) = ground (arith, d.irreflexive c)
  same_refl unassociated = refl

  same-eq : {x y : HandlerConnection} → IsMade x → IsMade y → is_same b x y ≡ true → x ≡ y
  unfolding is_same is_different connection_less
  same-eq (made m x) (made n y) h = elim (d.total x y) [
    | inl before ↦ absurd (ground arith)
    | inr (inl after) ↦ absurd (ground arith)
    | inr (inr e) ↦
        let managers : m ≡ n = ground arith in
        ap (λ k. make_connection k x) managers ∙ ap (make_connection n) e
  ]
  same-eq (made m x) unassociated h = absurd (cc)
  same-eq unassociated (made n y) h = absurd (cc)
  same-eq unassociated unassociated h = refl

  same-unordered :
      {x y : HandlerConnection}
      → IsMade x
      → IsMade y
      → (is_same b x y ≡ true) ↔ ((less b x y ≡ false) × (less b y x ≡ false))
  unfolding is_same is_different connection_less less
  same-unordered (made m x) (made n y) = (λ h. ground arith, λ h. ground arith)
  same-unordered (made m x) unassociated = (λ h. absurd (cc), λ h. absurd (let e = h.1 in cc))
  same-unordered unassociated (made n y) = (λ h. absurd (cc), λ h. absurd (let e = h.0 in cc))
  same-unordered unassociated unassociated = (λ h. (refl, refl), λ h. refl)

  -- Of connections that event managers have made, or that are not associated with a handler: `less` is a
  -- strict order, `==` holds exactly for connections to the same handler of the same event manager, and
  -- exactly when neither is less than the other. The signals are as Boost documents them.
  pub less_lem :
      {x y z : HandlerConnection}
      → IsMade x
      → IsMade y
      → IsMade z
      → (less b x x ≡ false)
        × (less b x y ≡ true → less b y z ≡ true → less b x z ≡ true)
        × ((is_same b x y ≡ true) ↔ (x ≡ y))
        × ((is_same b x y ≡ true) ↔ ((less b x y ≡ false) × (less b y x ≡ false)))
  less_lem {x} {y} {z} p q r = (
    less_irreflexive p,
    less_transitive p q r,
    (same-eq p q, λ e. subst (λ w. is_same b x w ≡ true) e (same_refl p)),
    same-unordered p q,
  )
