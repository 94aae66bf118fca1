-- ===== src/Detection/Groups.antt =====
-- `defaultdict(set)` as the detectors fill it: groups in the order of their first key, each a list
-- without duplicates.
pub mod Exact
use Prim.Native.String.{String}
use pondsecndr.Prelude.{
  ℕ, ◌==◌, ◌≡◌, ◌↔◌, refl, ap, some-injective, arith, Bool, true, false, ◌&&◌, ◌||◌, List, [], ◌∷◌,
  ◌++◌, Option, none, some, str_eq, eq_iff, if◌then◌else◌,
}

-- The equality of keys and of set elements.
pub record Key {ℓ} (A : Type ℓ) : Type ℓ where
  pub eqb : A → A → Bool
  pub eqb_iff : (a b : A) → (eqb a b ≡ true) ↔ (a ≡ b)

instance abbrev pub text_key : Key String
text_key = record { eqb = str_eq; eqb_iff = eq_iff }

pub ==_iff : (a b : ℕ) → (a == b ≡ true) ↔ (a ≡ b)
==_iff a b = (λ h. ground arith, λ h. ground arith)

instance abbrev pub number_key : Key ℕ
number_key = record { eqb = ◌==◌; eqb_iff = ==_iff }

module _ {ℓ κ} {A : Type ℓ} {B : Type κ} ⦃a : Key A⦄ ⦃b : Key B⦄ where
  abbrev pub both : A × B → A × B → Bool
  both (x, y) (u, v) = a.eqb x u && b.eqb y v

  pub both_iff : (p q : A × B) → (both p q ≡ true) ↔ (p ≡ q)
  both_iff (x, y) (u, v) = (
    λ h. ground (arith, h, a.eqb_iff x u, b.eqb_iff y v),
    λ h.
        let left = (a.eqb_iff x u).1 (ap (λ (p : A × B). p.0) h) in
        let right = (b.eqb_iff y v).1 (ap (λ (p : A × B). p.1) h) in ground (arith, left, right),
  )

  instance abbrev pub pair_key : Key (A × B)
  pair_key = record { eqb = both; eqb_iff = both_iff }

module _ {ℓ} {A : Type ℓ} ⦃a : Key A⦄ where
  abbrev pub same_option : Option A → Option A → Bool
  same_option none none = true
  same_option (some x) (some y) = a.eqb x y
  same_option _ _ = false

  pub same_option_iff : (x y : Option A) → (same_option x y ≡ true) ↔ (x ≡ y)
  same_option_iff none none = (λ h. refl, λ h. refl)
  same_option_iff none (some y) = (λ h. cc, λ h. cc)
  same_option_iff (some x) none = (λ h. cc, λ h. cc)
  same_option_iff (some x) (some y) =
      (λ h. ap some ((a.eqb_iff x y).0 h), λ h. (a.eqb_iff x y).1 (some-injective h))

  instance abbrev pub option_key : Key (Option A)
  option_key = record { eqb = same_option; eqb_iff = same_option_iff }

  -- `v in vs`, and `vs.add(v)`
  unfoldable pub is_member : A → List A → Bool
  is_member v [] = false
  is_member v (u ∷ us) = a.eqb u v || is_member v us

  unfoldable pub insert_new : A → List A → List A
  unfolding is_member
  insert_new v vs = if is_member v vs then vs else vs ++ v ∷ []

abbrev pub Groups {ℓ κ} : Type ℓ → Type κ → Type (ℓ ⊔ κ)
Groups K V = List (K × List V)

module _ {ℓ κ} {K : Type ℓ} {V : Type κ} ⦃k : Key K⦄ ⦃v : Key V⦄ where
  -- `groups[key].add(value)`
  unfoldable pub add_to_group : K → V → Groups K V → Groups K V
  unfolding insert_new
  add_to_group key value [] = (key, value ∷ []) ∷ []
  add_to_group key value ((other, values) ∷ groups) =
      if k.eqb other key
      then (other, insert_new value values) ∷ groups
      else (other, values) ∷ add_to_group key value groups

  unfoldable pub group_from : Groups K V → List (K × V) → Groups K V
  unfolding add_to_group
  group_from groups [] = groups
  group_from groups ((key, value) ∷ pairs) = group_from (add_to_group key value groups) pairs

  unfoldable pub group_pairs : List (K × V) → Groups K V
  unfolding group_from
  group_pairs = group_from []
