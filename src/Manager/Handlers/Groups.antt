-- ===== src/Manager/Handlers/Groups.antt =====
-- The slots of a signal of Boost as a list: those of a group, and their order by group.
use libslirc_old.Prelude.{
  ℕ, ◌≤◌, ◌<◌, ◌≡◌, refl, inl, inr, Bool, List, [], ◌∷◌, ◌++◌, arith, ltb, ◌==◌, if◌then◌else◌,
  remove_if, Bool-cases, append-nil,
}
use libslirc_old.Manager.Handlers.{Slot, insert_slot}

-- Those of a group.
abbrev pub of_group : ℕ → List Slot → List Slot
of_group g [] = []
of_group g (s ∷ l) = let rest = of_group g l in if s.slot_group == g then s ∷ rest else rest

-- Groups that rise from `n` on.
abbrev pub RisesFrom : ℕ → List Slot → Type 0
RisesFrom n [] = Unit
RisesFrom n (s ∷ l) = (n ≤ s.slot_group) × RisesFrom s.slot_group l

RisesFrom-mono : (m n : ℕ) (l : List Slot) → m ≤ n → RisesFrom n l → RisesFrom m l
RisesFrom-mono m n [] h r = tt
RisesFrom-mono m n (s ∷ l) h r = (omega arith, r.1)

pub RisesFrom-insert :
    (n : ℕ) (new : Slot) (l : List Slot)
    → n ≤ new.slot_group
    → RisesFrom n l
    → RisesFrom n (insert_slot new l)
RisesFrom-insert n new [] h r = (h, tt)
RisesFrom-insert n new (s ∷ l) h r = elim (Bool-cases (ltb new.slot_group s.slot_group)) [
  | inl before ↦ ground arith
  | inr behind ↦ let rest = RisesFrom-insert s.slot_group new l (ground arith) r.1 in ground arith
]

pub RisesFrom-remove :
    (p : Slot → Bool) (n : ℕ) (l : List Slot) → RisesFrom n l → RisesFrom n (remove_if p l)
RisesFrom-remove p n [] r = tt
RisesFrom-remove p n (s ∷ l) r = elim (Bool-cases (p s)) [
  | inl removed ↦
      rw removed
        (RisesFrom-mono n s.slot_group (remove_if p l) r.0 (RisesFrom-remove p s.slot_group l r.1))
  | inr kept ↦ rw kept (r.0, RisesFrom-remove p s.slot_group l r.1)
]

-- No slot of a lower group is left.
of_group-RisesFrom : (g n : ℕ) (l : List Slot) → g < n → RisesFrom n l → of_group g l ≡ []
of_group-RisesFrom g n [] h r = refl
of_group-RisesFrom g n (s ∷ l) h r = ground (arith, of_group-RisesFrom g s.slot_group l)

pub of_group-append :
    (g : ℕ) (xs ys : List Slot) → of_group g (xs ++ ys) ≡ of_group g xs ++ of_group g ys
of_group-append g [] ys = refl
of_group-append g (x ∷ xs) ys = ground (arith, of_group-append g xs ys)

pub of_group-remove :
    (p : Slot → Bool) (g : ℕ) (l : List Slot)
    → of_group g (remove_if p l) ≡ remove_if p (of_group g l)
of_group-remove p g [] = refl
of_group-remove p g (s ∷ l) = ground (arith, of_group-remove p g l)

-- A new slot is the last of its group.
pub of_group-insert :
    (g n : ℕ) (new : Slot) (l : List Slot)
    → RisesFrom n l
    → of_group g (insert_slot new l) ≡ of_group g (l ++ new ∷ [])
of_group-insert g n new [] r = refl
of_group-insert g n new (s ∷ l) r = elim (Bool-cases (ltb new.slot_group s.slot_group)) [
  | inr behind ↦ ground (arith, of_group-insert g s.slot_group new l)
  | inl before ↦ ground (
    arith,
    of_group-append g l (new ∷ []),
    of_group-RisesFrom g s.slot_group l,
    append-nil (of_group g l),
  )
]
