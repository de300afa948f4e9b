-- ===== src/Core/Taxonomy/Ancestors.antt =====
-- `is_descendant_or_same`: it ends, and it finds exactly the ancestors.
use mathlib.Core.Path.{subst}
use oan_protocol_common.Base.{
  ℕ, zero, suc, ◌+◌, ◌≤◌, String, ◌≡◌, ◌≢◌, ◌↔◌, ◌⊎◌, inl, inr, refl, ap, sym, ◌∙◌, Bool, true,
  false, ◌||◌, Option, Bool-cases, none, some, List, [], ◌∷◌, arith, eq_iff, any, length, ◌==◌,
  string_eq, if◌then◌else◌, All, All-map, Among, here, there, IsDistinct, length-distinct,
}
use oan_protocol_common.BTreeMap.{BTreeMap, get, insert}
use oan_protocol_common.BTreeMap.Length.{length-insert-le}
use oan_protocol_common.Core.Taxonomy.{
  AuthorizedDomain, collect, parent_in, parent_of, climb, is_descendant_or_same,
}

-- One domain is above another: its parent, or above its parent.
pub data IsAbove (parents : String → Option String) (top : String) : String → Type 0 where
  parent : {id : String} → parents id ≡ some top → IsAbove parents top id
  further :
      {id next : String}
      → parents id ≡ some next
      → IsAbove parents top next
      → IsAbove parents top id

module _ (by_id : BTreeMap AuthorizedDomain) (granted : String) where
  abbrev up : String → Option String
  up id = parent_of by_id id

  climb_sound :
      (fuel : ℕ) (seen : List String) (id : String) (current : Option String)
      → up id ≡ current
      → climb by_id granted fuel seen current ≡ some true
      → IsAbove up granted id
  unfolding climb
  climb_sound zero seen id current e h = cc
  climb_sound (suc fuel) seen id none e h = cc
  climb_sound (suc fuel) seen id (some next) e h = elim (Bool-cases (next == granted)) [
    | inl same ↦ parent (e ∙ ap some ((eq_iff next granted).0 same))
    | inr other ↦ elim (Bool-cases (any (λ s. s == next) seen)) [
      | inl again ↦ cc (rw (other, again) at h)
      | inr new ↦
          further e (climb_sound fuel (next ∷ seen) next (up next) refl (rw (other, new) at h))
    ]
  ]

  any-Among : (x : String) (xs : List String) → any (λ s. s == x) xs ≡ true → Among x xs
  any-Among x [] h = cc
  any-Among x (y ∷ xs) h = elim (Bool-cases (y == x)) [
    | inl same ↦ here ((eq_iff y x).0 same)
    | inr other ↦ there (any-Among x xs (rw other at h))
  ]

  none-Among : (x : String) (xs : List String) → any (λ s. s == x) xs ≡ false → All (λ y. x ≢ y) xs
  none-Among x [] h = tt
  none-Among x (y ∷ xs) h = elim (Bool-cases (y == x)) [
    | inl same ↦ cc (rw same at h)
    | inr other ↦ (λ e. cc (other, (eq_iff y x).1 (sym e)), none-Among x xs (rw other at h))
  ]

  All-Among : (P : String → Type 0) (x : String) (xs : List String) → Among x xs → All P xs → P x
  All-Among P x [] m h = elim m [ ]
  All-Among P x (y ∷ xs) (here e) (p, ps) = subst P e p
  All-Among P x (y ∷ xs) (there m) (p, ps) = All-Among P x xs m ps

  -- A set that every step stays in, and that has not the domain, has no domain below it.
  module _ (seen : List String)
      (closed : All (λ s. (next : String) → up s ≡ some next → Among next seen) seen)
      (clear : All (λ s. s ≢ granted) seen) where
    none-IsAbove : (id : String) → Among id seen → ¬ IsAbove up granted id
    none-IsAbove id m (parent e) =
        All-Among (λ s. s ≢ granted) granted seen
          (All-Among (λ s. (next : String) → up s ≡ some next → Among next seen) id seen m closed
            granted e)
          clear refl
    none-IsAbove id m (further {next = next} e above) =
        none-IsAbove next
          (All-Among (λ s. (next : String) → up s ≡ some next → Among next seen) id seen m closed
            next e)
          above

  -- Every step from what was seen is seen, but for the last.
  abbrev Steps : List String → String → Type 0
  Steps seen last =
      All (λ s. (s ≡ last) ⊎ ((next : String) → up s ≡ some next → Among next seen)) seen

  step_here :
      (seen : List String) (id next : String)
      → up id ≡ some next
      → Among next seen
      → (s : String) → (s ≡ id) ⊎ ((t : String) → up s ≡ some t → Among t seen)
      → (t : String) → up s ≡ some t
      → Among t seen
  step_here seen id next e m s (inr f) t k = f t k
  step_here seen id next e m s (inl same) t k =
      let e' : next ≡ t = cc (ap up same) in subst (λ x. Among x seen) e' m

  step_on :
      (seen : List String) (id next : String)
      → up id ≡ some next
      → (s : String) → (s ≡ id) ⊎ ((t : String) → up s ≡ some t → Among t seen)
      → (s ≡ next) ⊎ ((t : String) → up s ≡ some t → Among t (next ∷ seen))
  step_on seen id next e s (inr f) = inr (λ t k. there (f t k))
  step_on seen id next e s (inl same) =
      inr (λ t k. here (let e' : next ≡ t = cc (ap up same) in e'))

  IsAbove-next :
      (id next : String)
      → up id ≡ some next
      → next ≢ granted
      → IsAbove up granted id
      → IsAbove up granted next
  IsAbove-next id next e other (parent k) = absurd (other (let same : next ≡ granted = cc in same))
  IsAbove-next id next e other (further {next = n} k above) =
      let same : n ≡ next = cc in subst (IsAbove up granted) same above

  other_than : (x y : String) → (x == y) ≡ false → x ≢ y
  other_than x y h e = cc (h, (eq_iff x y).1 e)

  climb_complete :
      (fuel : ℕ) (seen : List String) (id : String) (current : Option String)
      → up id ≡ current
      → Steps seen id
      → All (λ s. s ≢ granted) seen
      → climb by_id granted fuel seen current ≡ some false
      → ¬ IsAbove up granted id
  unfolding climb
  climb_complete zero seen id current e steps clear h above = cc
  climb_complete (suc fuel) seen id none e steps clear h (parent k) = cc
  climb_complete (suc fuel) seen id none e steps clear h (further k above) = cc
  climb_complete (suc fuel) seen id (some next) e steps clear h above =
      elim (Bool-cases (next == granted)) [
        | inl same ↦ cc (rw same at h)
        | inr other ↦
            let beyond = IsAbove-next id next e (other_than next granted other) above in
            elim (Bool-cases (any (λ s. s == next) seen)) [
              | inl again ↦
                  let m = any-Among next seen again in
                  none-IsAbove seen
                    (All-map _ (λ s. (t : String) → up s ≡ some t → Among t seen) seen
                      (step_here seen id next e m) steps)
                    clear next m beyond
              | inr new ↦
                  climb_complete fuel (next ∷ seen) next (up next) refl
                    (
                      inl refl,
                      All-map _
                          (λ s. (s ≡ next) ⊎ ((t : String) → up s ≡ some t → Among t (next ∷ seen)))
                          seen (step_on seen id next e) steps,
                    )
                    (other_than next granted other, clear) (rw (other, new) at h) beyond
            ]
      ]

  keys : BTreeMap AuthorizedDomain → List String
  keys [] = []
  keys ((k, v) ∷ m) = k ∷ keys m

  length-keys : (m : BTreeMap AuthorizedDomain) → length (keys m) ≡ length m
  unfolding keys
  length-keys [] = refl
  length-keys ((k, v) ∷ m) = ap suc (length-keys m)

  known :
      (id next : String) (m : BTreeMap AuthorizedDomain)
      → parent_in (get id m) ≡ some next
      → Among id (keys m)
  unfolding keys get
  known id next [] e = cc
  known id next ((k, v) ∷ m) e = elim (Bool-cases (k == id)) [
    | inl same ↦ here ((eq_iff k id).0 same)
    | inr other ↦ there (known id next m (rw other at e))
  ]

  -- the last of those seen, or one that has a parent
  abbrev Visited : List String → String → Type 0
  Visited seen last = All (λ s. Among s (last ∷ keys by_id)) seen

  visit_on :
      (id next : String)
      → up id ≡ some next
      → (s : String) → Among s (id ∷ keys by_id)
      → Among s (next ∷ keys by_id)
  visit_on id next e s (here same) =
      there (subst (λ x. Among x (keys by_id)) same (known id next by_id e))
  visit_on id next e s (there m) = there m

  -- The loop ends: what it has seen are different domains, but for the last.
  climb_total :
      (fuel : ℕ) (seen : List String) (id : String) (current : Option String)
      → up id ≡ current
      → IsDistinct seen
      → Visited seen id
      → length by_id + 2 ≤ fuel + length seen
      → (b : Bool) × (climb by_id granted fuel seen current ≡ some b)
  unfolding climb
  climb_total zero seen id current e d v room =
      absurd (omega (arith, length-distinct seen (id ∷ keys by_id) d v, length-keys by_id))
  climb_total (suc fuel) seen id none e d v room = (false, refl)
  climb_total (suc fuel) seen id (some next) e d v room = elim (Bool-cases (next == granted)) [
    | inl same ↦ (true, rw same)
    | inr other ↦ elim (Bool-cases (any (λ s. s == next) seen)) [
      | inl again ↦ (false, rw (other, again))
      | inr new ↦
          let (b, result) =
            climb_total fuel (next ∷ seen) next (up next) refl (none-Among next seen new, d)
              (here refl, All-map _ (λ s. Among s (next ∷ keys by_id)) seen (visit_on id next e) v)
              (omega arith) in
          (b, rw (other, new) result)
    ]
  ]

length-collect :
    (m : BTreeMap AuthorizedDomain) (domains : List AuthorizedDomain)
    → length (collect m domains) ≤ length m + length domains
unfolding collect
length-collect m [] = omega arith
length-collect m (d ∷ domains) =
    omega (arith, length-collect (insert d.id d m) domains, length-insert-le d.id d m)

module _ (domains : List AuthorizedDomain) (id granted : String) where
  abbrev parents : String → Option String
  parents = parent_of (collect [] domains)

  abbrev climbed : Option Bool
  climbed = climb (collect [] domains) granted (length domains + 2) [] (parents id)

  climbed_total : (b : Bool) × (climbed ≡ some b)
  climbed_total =
      climb_total (collect [] domains) granted (length domains + 2) [] id (parents id) refl tt tt
        (omega (arith, length-collect [] domains))

  climbed_iff : (climbed ≡ some true) ↔ IsAbove parents granted id
  climbed_iff = (
    climb_sound (collect [] domains) granted (length domains + 2) [] id (parents id) refl,
    λ above.
        let (b, result) = climbed_total in
        elim (Bool-cases b) [
          | inl reached ↦ result ∙ ap some reached
          | inr missed ↦ absurd (
              climb_complete (collect [] domains) granted (length domains + 2) [] id (parents id)
                refl tt tt (result ∙ ap some missed) above)
        ],
  )

  same_or_climbed :
      is_descendant_or_same domains id granted
      ≡ (if granted == "*" || id == granted then some true else climbed)
  unfolding is_descendant_or_same
  same_or_climbed = refl

  -- `is_descendant_or_same` ends within the fuel, and answers true exactly when the granted domain
  -- is the wildcard, the domain itself, or above it in the taxonomy; a cycle of parents does not
  -- matter.
  pub is_descendant_or_same_lem :
      ((b : Bool) × (is_descendant_or_same domains id granted ≡ some b))
      × ((is_descendant_or_same domains id granted ≡ some true)
          ↔ ((granted ≡ "*") ⊎ ((id ≡ granted) ⊎ IsAbove parents granted id)))
  is_descendant_or_same_lem = elim (Bool-cases (granted == "*")) [
    | inl any ↦
        rw (same_or_climbed, any) ((true, refl), (λ h. inl ((eq_iff granted "*").0 any), λ h. refl))
    | inr concrete ↦ elim (Bool-cases (id == granted)) [
      | inl same ↦
          rw (same_or_climbed, concrete, same)
            ((true, refl), (λ h. inr (inl ((eq_iff id granted).0 same)), λ h. refl))
      | inr other ↦
          rw (same_or_climbed, concrete, other)
            (
              climbed_total,
              (
                λ h. inr (inr (climbed_iff.0 h)),
                λ s. elim s [
                  | inl e ↦ cc (concrete, (eq_iff granted "*").1 e)
                  | inr (inl e) ↦ cc (other, (eq_iff id granted).1 e)
                  | inr (inr above) ↦ climbed_iff.1 above
                ],
              ),
            )
    ]
  ]
