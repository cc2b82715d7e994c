-- ===== src/Irc/Destruction.antt =====
-- src/irc.cpp: the destructor of an IRC context.
use libslirc_old.Prelude.{
  ℕ, ◌+◌, ◌≡◌, refl, ap, ◌∙◌, inl, inr, none, some, List, [], ◌∷◌, ◌++◌, arith, ◌==◌, count,
  count-append, Bool-cases, subst, ==_iff,
}
use libslirc_old.Prelude.Assoc.{lookup, IsUnique}
use libslirc_old.Irc.{Loaded, event_manager_api, destroy_others, destroy_all, destroy}

abbrev pub addresses : List (ℕ × Loaded) → List ℕ
addresses [] = []
addresses ((ti, loaded) ∷ m) = loaded.address ∷ addresses m

destroy_others-count :
    (a : ℕ) (m : List (ℕ × Loaded))
    → let (destroyed, left) = destroy_others m in
      count a destroyed + count a (destroy_all left) ≡ count a (addresses m)
unfolding destroy_others destroy_all
destroy_others-count a [] = refl
destroy_others-count a ((ti, loaded) ∷ m) = ground (arith, destroy_others-count a m)

destroy_others-none :
    (m : List (ℕ × Loaded)) → lookup event_manager_api m ≡ none → (destroy_others m).1 ≡ []
unfolding destroy_others lookup
destroy_others-none [] h = refl
destroy_others-none ((ti, loaded) ∷ m) h = ground (arith, destroy_others-none m)

destroy_others-one :
    (m : List (ℕ × Loaded)) (k : Loaded)
    → IsUnique m
    → lookup event_manager_api m ≡ some k
    → (ti : ℕ) × ((destroy_others m).1 ≡ (ti, k) ∷ [])
unfolding destroy_others lookup
destroy_others-one [] k u h = absurd (cc)
destroy_others-one ((ti, loaded) ∷ m) k u h = elim (Bool-cases (ti == event_manager_api)) [
  | inl manages ↦
      let same : ti ≡ event_manager_api = (==_iff ti event_manager_api).0 manages in
      (ti, ground (arith, destroy_others-none m (subst (λ i. lookup i m ≡ none) same u.0)))
  | inr other ↦ let (t, e) = destroy_others-one m k u.1 (ground arith) in (t, ground (arith, e))
]

-- The destructor destroys every module exactly once, and the event manager after all others.
pub destroy_lem :
    (m : List (ℕ × Loaded))
    → IsUnique m
    → ((a : ℕ) → count a (destroy m) ≡ count a (addresses m))
      × ((k : Loaded)
          → lookup event_manager_api m ≡ some k
          → (others : List ℕ) × (destroy m ≡ others ++ k.address ∷ []))
unfolding destroy destroy_all
destroy_lem m u = (
  λ a.
      count-append a (destroy_others m).0 (destroy_all (destroy_others m).1)
      ∙ destroy_others-count a m,
  λ k h.
      let (ti, e) = destroy_others-one m k u h in
      ((destroy_others m).0, ap (λ l. (destroy_others m).0 ++ destroy_all l) e),
)
