-- ===== src/Prelude/Maps.antt =====
-- Maps as association lists, newest entry first, under a Boolean test of the keys that decides
-- equality: `find` and `emplace` of `std::map`, and assignment through `operator[]`.
use mathlib.Core.Path.{◌≡◌, subst}
use mathlib.Core.Logic.{inl, inr, ◌≢◌, ◌⊎◌}
use mathlib.Core.Bool.{Bool, true}
use mathlib.Core.Option.{Option, none, some}
use mathlib.Core.List.{List, [], ◌∷◌}
use authentication_transmiss.Prelude.Tests.{if◌then◌else◌, Bool-cases, Option-cases}

pub some-injective {ℓ} : {A : Type ℓ} {a b : A} → some a ≡ some b → a ≡ b
some-injective e = cc

-- A test of keys that says yes on equal ones and on no others.
pub record DecidesEquality {ℓ} {K : Type ℓ} (same : K → K → Bool) : Type ℓ where
  pub sound : (k k' : K) → same k k' ≡ true → k ≡ k'
  pub complete : (k : K) → same k k ≡ true

module _ {ℓ κ} {K : Type ℓ} {V : Type κ} (same : K → K → Bool) where
  abbrev pub find : K → List (K × V) → Option V
  find k [] = none
  find k ((k', v) ∷ m) = if same k k' then some v else find k m

  -- The value that stands under the key already, if one does, and the map after.
  abbrev pub emplace : K → V → List (K × V) → Option V × List (K × V)
  emplace k v m = elim (find k m) [ none ↦ (none, (k, v) ∷ m) | some old ↦ (some old, m) ]

  abbrev pub assign : K → V → List (K × V) → List (K × V)
  assign k v m = (k, v) ∷ m

  module _ (decides : DecidesEquality same) where
    pub find-assign : (k : K) (v : V) (m : List (K × V)) → find k (assign k v m) ≡ some v
    find-assign k v m = rw (decides.complete k)

    pub find-assign_ne :
        (k k' : K) (v : V) (m : List (K × V)) → k ≢ k' → find k (assign k' v m) ≡ find k m
    find-assign_ne k k' v m ne = elim (Bool-cases (same k k')) [
      | inl e ↦ absurd (ne (decides.sound k k' e))
      | inr e ↦ rw e
    ]

    pub emplace_new :
        (k : K) (v : V) (m : List (K × V)) → find k m ≡ none → emplace k v m ≡ (none, (k, v) ∷ m)
    emplace_new k v m e = rw (emplace, e)

    pub emplace_old :
        (k : K) (v old : V) (m : List (K × V)) → find k m ≡ some old → emplace k v m ≡ (some old, m)
    emplace_old k v old m e = rw (emplace, e)

    -- What `emplace` leaves where nothing or the same value stood under the key: the value, all
    -- that was there, and nothing else.
    pub emplace_fits :
        (k : K) (v : V) (m : List (K × V))
        → (find k m ≡ none) ⊎ (find k m ≡ some v)
        → find k (emplace k v m).1 ≡ some v
    emplace_fits k v m (inl e) = rw (emplace_new k v m e, decides.complete k)
    emplace_fits k v m (inr e) = rw (emplace_old k v v m e, e)

    pub emplace_grows :
        (k : K) (v : V) (m : List (K × V)) (k' : K) (v' : V)
        → find k' m ≡ some v'
        → find k' (emplace k v m).1 ≡ some v'
    emplace_grows k v m k' v' f = elim (Option-cases (find k m)) [
      | inr (old, e) ↦ rw (emplace_old k v old m e, f)
      | inl e ↦ elim (Bool-cases (same k' k)) [
        | inl t ↦
            let g : find k m ≡ some v' = subst (λ x. find x m ≡ some v') (decides.sound k' k t) f in
            absurd (cc (e, g))
        | inr t ↦ rw (emplace_new k v m e, t, f)
      ]
    ]

    pub emplace_sound :
        (k : K) (v : V) (m : List (K × V)) (k' : K) (v' : V)
        → find k' (emplace k v m).1 ≡ some v'
        → (find k' m ≡ some v') ⊎ ((k' ≡ k) × (v ≡ v'))
    emplace_sound k v m k' v' f = elim (Option-cases (find k m)) [
      | inr (old, e) ↦ inl (subst (λ r. find k' r.1 ≡ some v') (emplace_old k v old m e) f)
      | inl e ↦
          let g : find k' ((k, v) ∷ m) ≡ some v' =
            subst (λ r. find k' r.1 ≡ some v') (emplace_new k v m e) f in
          elim (Bool-cases (same k' k)) [
            | inl t ↦ inr (
              decides.sound k' k t,
              some-injective (subst (λ b. (if b then some v else find k' m) ≡ some v') t g),
            )
            | inr t ↦ inl (subst (λ b. (if b then some v else find k' m) ≡ some v') t g)
          ]
    ]
