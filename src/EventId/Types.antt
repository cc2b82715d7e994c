-- ===== src/EventId/Types.antt =====
-- include/slirc/event.hpp, the registration of enum types for event ids. An enum type is the number of its
-- `std::type_index`; `enclosing` is the innermost namespace in which it stands, and `underlying` its
-- underlying type. That a template's assertion fails, so that the program does not compile, is `none`.
mod Tests
use libslirc_old.Prelude.{
  ℕ, ◌≡◌, ◌↔◌, refl, sym, ap, ◌∙◌, Bool, true, false, ◌&&◌, ◌||◌, List, [], ◌∷◌, Option, none, some,
  ◌==◌, if◌then◌else◌, arith, any, inl, inr, Bool-cases, ◌⊎◌, ==_iff, Result, ok, throw, bad_cast,
}
use libslirc_old.EventId.{IdType, from_enum}
use libslirc_old.EventId

-- `underlying_id_type`, which is `unsigned`.
abbrev pub underlying_id_type : ℕ
underlying_id_type = 0

-- One overload of `slirc_impldetail_enable_as_event_id_type`: the namespace in which it is declared, and
-- the enum type of its parameter.
pub record Overload : Type 0 where
  pub namespace_of : ℕ
  pub parameter : ℕ

module _ (enclosing underlying : ℕ → ℕ) where
  abbrev pub has_underlying : ℕ → Bool
  has_underlying t = underlying t == underlying_id_type

  -- `SLIRC_REGISTER_EVENT_ID_ENUM(t)`, written in a namespace.
  pub register : ℕ → ℕ → List Overload → Option (List Overload)
  register namespace t overloads =
      if has_underlying t
      then some (record { namespace_of = namespace; parameter = t } ∷ overloads)
      else none

  -- The namespaces that are looked into for an argument of the enum type.
  abbrev pub associated_namespaces : ℕ → List ℕ
  associated_namespaces t = enclosing t ∷ []

  -- The overloads that the call in `is_valid_id_type` finds by its argument; they are declared behind the
  -- class, where no other lookup finds them.
  abbrev pub found_overloads : ℕ → List Overload → List Overload
  found_overloads t [] = []
  found_overloads t (o ∷ overloads) =
      let rest = found_overloads t overloads in
      if any (λ n. n == o.namespace_of) (associated_namespaces t) then o ∷ rest else rest

  -- Which of these, and of the template that returns `false_type`, is called: an enum type is converted to
  -- no other, and an overload for the type itself is preferred to the template.
  abbrev pub resolved : ℕ → List Overload → Bool
  resolved t [] = false
  resolved t (o ∷ overloads) =
      let rest = resolved t overloads in if o.parameter == t then true else rest

  abbrev pub enabled : List Overload → ℕ → Bool
  enabled overloads t = resolved t (found_overloads t overloads)

  pub is_valid_id_type : List Overload → ℕ → Bool
  is_valid_id_type overloads t = has_underlying t && enabled overloads t

  -- `is_valid_id`, which looks at the type alone.
  pub is_valid_id : List Overload → ℕ → ℕ → Bool
  unfolding is_valid_id_type
  is_valid_id overloads t id = is_valid_id_type overloads t

  -- The constructor of `id_type` from a value of an enum type.
  pub make_id : List Overload → ℕ → ℕ → Option IdType
  unfolding is_valid_id_type
  make_id overloads t value =
      if is_valid_id_type overloads t then some (from_enum t value) else none

  -- `is_of_type<t>()`
  pub is_of_type : List Overload → ℕ → IdType → Option Bool
  unfolding is_valid_id_type
  is_of_type overloads t i =
      if is_valid_id_type overloads t then some (EventId.is_of_type t i) else none

  -- The registrations of a program, each with the namespace in which it is written.
  pub register_all : List (ℕ × ℕ) → List Overload → Option (List Overload)
  unfolding register
  register_all [] overloads = some overloads
  register_all ((namespace, t) ∷ more) overloads = elim (register namespace t overloads) [
    | none ↦ none
    | some after ↦ register_all more after
  ]

  -- The enum type is registered in the namespace in which it stands.
  abbrev pub IsRegistered : ℕ → List (ℕ × ℕ) → Type 0
  IsRegistered t [] = ⊥
  IsRegistered t ((n, u) ∷ more) = ((n ≡ enclosing t) × (u ≡ t)) ⊎ IsRegistered t more

  abbrev AllFit : List (ℕ × ℕ) → Type 0
  AllFit [] = Unit
  AllFit ((n, t) ∷ more) = (has_underlying t ≡ true) × AllFit more

  registered-fits :
      (t : ℕ) (more : List (ℕ × ℕ)) → AllFit more → IsRegistered t more → has_underlying t ≡ true
  registered-fits t [] all never = absurd never
  registered-fits t ((n, u) ∷ more) (fits, all) (inl (_, same)) =
      ap has_underlying (sym same) ∙ fits
  registered-fits t ((n, u) ∷ more) (fits, all) (inr later) = registered-fits t more all later

  -- What the registrations `more` of a program make of the overloads.
  record Registers (more : List (ℕ × ℕ)) (overloads final : List Overload) : Type 0 where
    pub adds :
        (t : ℕ) → (enabled final t ≡ true) ↔ (IsRegistered t more ⊎ (enabled overloads t ≡ true))
    pub fitting : AllFit more

  enabled-cons :
      (n t u : ℕ) (overloads : List Overload)
      → (enabled (record { namespace_of = n; parameter = t } ∷ overloads) u ≡ true)
        ↔ (((n ≡ enclosing u) × (t ≡ u)) ⊎ (enabled overloads u ≡ true))
  enabled-cons n t u overloads = elim (Bool-cases (enclosing u == n)) [
    | inl own ↦ elim (Bool-cases (t == u)) [
      | inl same ↦ (λ e. inl (ground arith, ground arith), λ e. ground arith)
      | inr other ↦ (
        λ e. inr (ground arith),
        λ e. elim e [ inl (a, b) ↦ absurd (ground arith) | inr old ↦ ground arith ],
      )
    ]
    | inr elsewhere ↦ (
      λ e. inr (ground arith),
      λ e. elim e [ inl (a, b) ↦ absurd (ground arith) | inr old ↦ ground arith ],
    )
  ]

  regrouped : {P Q R X Y : Type 0} → Y ↔ (P ⊎ R) → X ↔ (Q ⊎ Y) → X ↔ ((P ⊎ Q) ⊎ R)
  regrouped (f, g) (h, k) = (
    λ x. elim (h x) [
      | inl q ↦ inl (inr q)
      | inr y ↦ elim (f y) [ inl p ↦ inl (inl p) | inr r ↦ inr r ]
    ],
    λ s. elim s [
      | inl (inl p) ↦ k (inr (g (inl p)))
      | inl (inr q) ↦ k (inl q)
      | inr r ↦ k (inr (g (inr r)))
    ],
  )

  register_all-Registers :
      (more : List (ℕ × ℕ)) (overloads : List Overload) {final : List Overload}
      → register_all more overloads ≡ some final
      → Registers more overloads final
  unfolding register_all register
  register_all-Registers [] overloads h = record {
    adds = λ t. (λ e. inr (ground arith), λ e. ground arith);
    fitting = tt;
  }
  register_all-Registers ((n, t) ∷ more) overloads {final} h =
      elim (Bool-cases (has_underlying t)) [
        | inl fits ↦
            let r =
              register_all-Registers more (record { namespace_of = n; parameter = t } ∷ overloads)
                {final = final} (ground arith) in
            record {
              adds = λ u. regrouped (enabled-cons n t u overloads) (r.adds u);
              fitting = (fits, r.fitting);
            }
        | inr wrong ↦ absurd (ground arith)
      ]

  valid_iff :
      (registrations : List (ℕ × ℕ)) (overloads : List Overload) (t : ℕ)
      → register_all registrations [] ≡ some overloads
      → (is_valid_id_type overloads t ≡ true) ↔ IsRegistered t registrations
  unfolding is_valid_id_type
  valid_iff registrations overloads t h =
      let r = register_all-Registers registrations [] h in
      (
        λ e. elim ((r.adds t).0 (ground arith)) [
          | inl registered ↦ registered
          | inr never ↦ absurd (ground arith)
        ],
        λ registered.
            let fits = registered-fits t registrations r.fitting registered in
            let found = (r.adds t).1 (inl registered) in ground arith,
      )

  -- In a program whose registrations compile, an enum type is a valid event id type exactly if it is
  -- registered in the namespace in which it stands; a registration in another one, which the documentation
  -- calls possible, makes no difference. A value of an enum type can be made an event id, and ids be asked for
  -- the type, exactly then. The id that is made of a value is valid, is of this type and of no other that can
  -- be asked for, and `get` gives back the value.
  pub registered_lem :
      (registrations : List (ℕ × ℕ)) (overloads : List Overload) (t value : ℕ)
      → register_all registrations [] ≡ some overloads
      → ((is_valid_id_type overloads t ≡ true) ↔ IsRegistered t registrations)
        × (((i : IdType) × (make_id overloads t value ≡ some i)) ↔ IsRegistered t registrations)
        × ((i : IdType)
            → ((known : Bool) × (is_of_type overloads t i ≡ some known))
              ↔ IsRegistered t registrations)
        × ((i : IdType)
            → make_id overloads t value ≡ some i
            → (EventId.is_valid i ≡ true)
              × (EventId.get t i ≡ ok value)
              × ((u : ℕ) → IsRegistered u registrations → is_of_type overloads u i ≡ some (t == u)))
  unfolding is_valid_id_type make_id is_of_type EventId.is_of_type EventId.get
  registered_lem registrations overloads t value h = (
    valid_iff registrations overloads t h,
    (
      λ e. let made = e.1 in (valid_iff registrations overloads t h).0 (ground arith),
      λ k. let v = (valid_iff registrations overloads t h).1 k in (from_enum t value, ground arith),
    ),
    λ i. (
      λ e. let asked = e.1 in (valid_iff registrations overloads t h).0 (ground arith),
      λ k.
          let v = (valid_iff registrations overloads t h).1 k in
          (EventId.is_of_type t i, ground arith),
    ),
    λ i e. (
      ground arith,
      ground arith,
      λ u k. let v = (valid_iff registrations overloads u h).1 k in ground arith,
    ),
  )
