-- ===== src/Storage/Merging/Lookup.antt =====
-- What a look-up finds after a merge in storage/database.py has replaced one row of the table.
use pondsecndr.Prelude.{
  ◌≡◌, refl, ap, sym, subst, inl, inr, arith, String, true, false, List, [], ◌∷◌, some, first,
  str_eq, eq_iff, Bool-cases, some-injective,
}
use pondsecndr.Storage.{Incident}
use pondsecndr.Storage.Merging.Rows.{change_rows, has_id, KeepsId}

-- The row with the id is the changed one.
pub first-change_rows :
    (id : String) (change : Incident → Incident) (row : Incident) (is : List Incident)
    → KeepsId id change
    → first (has_id id) is ≡ some row
    → first (has_id id) (change_rows id change is) ≡ some (change row)
unfolding first change_rows
first-change_rows id change row [] k h = absurd (ground arith)
first-change_rows id change row (i ∷ is) k h = elim (Bool-cases (has_id id i)) [
  | inl hit ↦
      let same : i ≡ row = some-injective {a = i} {b = row} (ground (arith, hit, h)) in
      let still : has_id id (change i) ≡ true =
        subst (λ x. str_eq x id ≡ true) (sym (k i hit)) hit in
      ground (arith, hit, still, ap {A = Incident} (λ x. some (change x)) same)
  | inr miss ↦ ground (arith, miss, first-change_rows id change row is k (ground (arith, miss, h)))
]

-- The row with another id is as before.
pub first-unchanged :
    (id other : String) (change : Incident → Incident) (is : List Incident)
    → KeepsId id change
    → str_eq id other ≡ false
    → first (has_id other) (change_rows id change is) ≡ first (has_id other) is
unfolding first change_rows
first-unchanged id other change [] k d = refl
first-unchanged id other change (i ∷ is) k d = elim (Bool-cases (has_id id i)) [
  | inl hit ↦
      let e : i.incident_id ≡ id = (eq_iff i.incident_id id).0 hit in
      let old : has_id other i ≡ false = subst (λ x. str_eq x other ≡ false) (sym e) d in
      let new : has_id other (change i) ≡ false =
        subst (λ x. str_eq x other ≡ false) (sym (k i hit)) old in
      ground (arith, hit, old, new, first-unchanged id other change is k d)
  | inr miss ↦ ground (arith, miss, first-unchanged id other change is k d)
]
