-- ===== src/Detection/Groups/Exact.antt =====
-- The groups of the detectors are exact: the group of a key holds the distinct values that came with
-- the key, and no key has two groups.
use pondsecndr.Prelude.{
  ℕ, ◌<◌, leb, ◌≡◌, refl, ap, sym, subst, ◌∙◌, arith, Bool, true, false, ◌&&◌, ◌||◌, List, [], ◌∷◌,
  any, length, Bool-cases, inl, inr, if◌then◌else◌,
}
use pondsecndr.Detection.Groups.{
  Key, Groups, is_member, insert_new, add_to_group, group_from, group_pairs,
}

module _ {ℓ} {K : Type ℓ} ⦃k : Key K⦄ where
  -- Keys that equal one key equal each other.
  eqb_trans : (a b c : K) → k.eqb a b ≡ true → k.eqb a c ≡ k.eqb b c
  eqb_trans a b c h = ap (λ x. k.eqb x c) ((k.eqb_iff a b).0 h)

  eqb_comm : (a b : K) → k.eqb a b ≡ k.eqb b a
  eqb_comm a b = elim (Bool-cases (k.eqb a b)) [
    | inl same ↦ same ∙ sym ((k.eqb_iff b a).1 (sym ((k.eqb_iff a b).0 same)))
    | inr apart ↦ elim (Bool-cases (k.eqb b a)) [
      | inr also ↦ apart ∙ sym also
      | inl same ↦ absurd (ground (arith, apart, (k.eqb_iff a b).1 (sym ((k.eqb_iff b a).0 same))))
    ]
  ]

module _ {ℓ κ} {K : Type ℓ} {V : Type κ} ⦃k : Key K⦄ ⦃v : Key V⦄ where
  -- The values that came with the key, each once, in the order of their first occurrence.
  unfoldable pub distinct_from : List V → K → List (K × V) → List V
  distinct_from seen key [] = seen
  distinct_from seen key ((other, value) ∷ pairs) =
      distinct_from (if k.eqb other key then insert_new value seen else seen) key pairs

  unfoldable pub distinct_values : K → List (K × V) → List V
  unfolding distinct_from
  distinct_values = distinct_from []

  unfoldable pub values_of : K → Groups K V → List V
  values_of key [] = []
  values_of key ((other, values) ∷ groups) =
      if k.eqb other key then values else values_of key groups

  abbrev pub has_key : K → Groups K V → Bool
  has_key key groups = any (λ (other, values). k.eqb other key) groups

  unfoldable pub UniqueKeys : Groups K V → Type 0
  UniqueKeys [] = Unit
  UniqueKeys ((key, values) ∷ groups) = (has_key key groups ≡ false) × UniqueKeys groups

  values_of-add :
      (key other : K) (value : V) (groups : Groups K V)
      → values_of key (add_to_group other value groups) ≡ (
          if k.eqb other key then insert_new value (values_of key groups) else values_of key groups)
  unfolding values_of add_to_group insert_new is_member
  values_of-add key other value [] = ground arith
  values_of-add key other value ((j, values) ∷ groups) = elim (Bool-cases (k.eqb j other)) [
    | inl same ↦ ground (arith, same, eqb_trans j other key same)
    | inr apart ↦ elim (Bool-cases (k.eqb j key)) [
      | inl here ↦
          let other_key : k.eqb other key ≡ false =
            eqb_comm other key ∙ sym (eqb_trans j key other here) ∙ apart in
          rw (apart, here, other_key) refl
      | inr there ↦ rw (apart, there) (values_of-add key other value groups)
    ]
  ]

  values_of-group_from :
      (key : K) (groups : Groups K V) (pairs : List (K × V))
      → values_of key (group_from groups pairs) ≡ distinct_from (values_of key groups) key pairs
  unfolding group_from distinct_from
  values_of-group_from key groups [] = refl
  values_of-group_from key groups ((other, value) ∷ pairs) =
      values_of-group_from key (add_to_group other value groups) pairs
      ∙ ap (λ seen. distinct_from seen key pairs) (values_of-add key other value groups)

  -- The group of a key holds the distinct values that came with it.
  pub values_of-group_pairs :
      (key : K) (pairs : List (K × V))
      → values_of key (group_pairs pairs) ≡ distinct_values key pairs
  unfolding group_pairs distinct_values values_of
  values_of-group_pairs key pairs = values_of-group_from key [] pairs

  has_key-add :
      (key other : K) (value : V) (groups : Groups K V)
      → has_key key (add_to_group other value groups) ≡ (k.eqb other key || has_key key groups)
  unfolding any add_to_group
  has_key-add key other value [] = ground arith
  has_key-add key other value ((j, values) ∷ groups) = elim (Bool-cases (k.eqb j other)) [
    | inl same ↦ ground (arith, same, eqb_trans j other key same)
    | inr apart ↦ ground (arith, apart, has_key-add key other value groups)
  ]

  add_to_group-UniqueKeys :
      (other : K) (value : V) (groups : Groups K V)
      → UniqueKeys groups
      → UniqueKeys (add_to_group other value groups)
  unfolding UniqueKeys add_to_group any
  add_to_group-UniqueKeys other value [] u = (refl, tt)
  add_to_group-UniqueKeys other value ((j, values) ∷ groups) u = elim (Bool-cases (k.eqb j other)) [
    | inl same ↦ rw same u
    | inr apart ↦ rw apart (
      has_key-add j other value groups ∙ ground (arith, u.0, apart, eqb_comm j other),
      add_to_group-UniqueKeys other value groups u.1,
    )
  ]

  group_from-UniqueKeys :
      (groups : Groups K V) (pairs : List (K × V))
      → UniqueKeys groups
      → UniqueKeys (group_from groups pairs)
  unfolding group_from
  group_from-UniqueKeys groups [] u = u
  group_from-UniqueKeys groups ((other, value) ∷ pairs) u =
      group_from-UniqueKeys (add_to_group other value groups) pairs
        (add_to_group-UniqueKeys other value groups u)

  no_group :
      (minimum : ℕ) (key : K) (groups : Groups K V)
      → has_key key groups ≡ false
      → any (λ (other, values). k.eqb other key && leb minimum (length values)) groups ≡ false
  unfolding any
  no_group minimum key [] h = refl
  no_group minimum key ((j, values) ∷ groups) h = ground (arith, h, no_group minimum key groups)

  -- A group as large as `minimum` is found under the key exactly if the key has so many values.
  large_group :
      (minimum : ℕ) (key : K) (groups : Groups K V)
      → 0 < minimum
      → UniqueKeys groups
      → any (λ (other, values). k.eqb other key && leb minimum (length values)) groups
        ≡ leb minimum (length (values_of key groups))
  unfolding any values_of UniqueKeys
  large_group minimum key [] h u = ground (arith, h)
  large_group minimum key ((j, values) ∷ groups) h u = elim (Bool-cases (k.eqb j key)) [
    | inl here ↦
        let alone =
          no_group minimum key groups
            (subst (λ x. has_key x groups ≡ false) ((k.eqb_iff j key).0 here) u.0) in
        rw (here, alone) (ground arith)
    | inr there ↦ rw there (large_group minimum key groups h u.1)
  ]

  -- Exactly the keys with at least `minimum` distinct values have a large group.
  pub large_group_iff :
      (minimum : ℕ) (key : K) (pairs : List (K × V))
      → 0 < minimum
      → any (λ (other, values). k.eqb other key && leb minimum (length values)) (group_pairs pairs)
        ≡ leb minimum (length (distinct_values key pairs))
  unfolding group_pairs UniqueKeys
  large_group_iff minimum key pairs h =
      large_group minimum key (group_pairs pairs) h (group_from-UniqueKeys [] pairs tt)
      ∙ ap (λ values. leb minimum (length values)) (values_of-group_pairs key pairs)
