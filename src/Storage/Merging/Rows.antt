-- ===== src/Storage/Merging/Rows.antt =====
-- The incidents that a merge in storage/database.py replaces: it changes one row of the table.
use pondsecndr.Prelude.{
  String, ℕ, suc, zero, ◌+◌, ◌≡◌, refl, ap, sym, ◌∙◌, subst, ◌⊎◌, inl, inr, arith, Bool, true,
  false, List, [], ◌∷◌, ◌++◌, Option, none, some, map, keep, any, first, take, count_if, str_eq,
  eq_iff, Bool-cases, if◌then◌else◌, length,
}
use pondsecndr.Detection.{Tools}
use pondsecndr.Storage.{Incident}
use pondsecndr.Storage.Incidents.{is_open_case}
use pondsecndr.Storage.Incidents.Counts.{UniqueIds}
use pondsecndr.Storage.Related.{Incoming}
use pondsecndr.Storage.Merging.{insert_by_seen, latest_seen, replace_incident, find_merge_incident}

module _ {A : Type 0} where
  unfoldable pub IsIn : A → List A → Type 0
  IsIn x [] = ⊥
  IsIn x (y ∷ ys) = (y ≡ x) ⊎ IsIn x ys

  unfoldable pub sum_of : (A → ℕ) → List A → ℕ
  sum_of f [] = 0
  sum_of f (x ∷ xs) = f x + sum_of f xs

  pub first-IsIn : (p : A → Bool) (x : A) (xs : List A) → first p xs ≡ some x → IsIn x xs
  unfolding first IsIn
  first-IsIn p x [] e = ground (arith, e)
  first-IsIn p x (y ∷ ys) e = ground (arith, e, first-IsIn p x ys)

  take-IsIn : (n : ℕ) (x : A) (xs : List A) → IsIn x (take n xs) → IsIn x xs
  unfolding IsIn
  take-IsIn zero x xs h = elim h [ ]
  take-IsIn (suc n) x [] h = h
  take-IsIn (suc n) x (y ∷ ys) (inl e) = inl e
  take-IsIn (suc n) x (y ∷ ys) (inr h) = inr (take-IsIn n x ys h)

  keep-IsIn : (p : A → Bool) (x : A) (xs : List A) → IsIn x (keep p xs) → IsIn x xs
  unfolding keep IsIn
  keep-IsIn p x [] h = h
  keep-IsIn p x (y ∷ ys) h = ground (arith, h, keep-IsIn p x ys)

  pub sum_of-append : (f : A → ℕ) (xs ys : List A) → sum_of f (xs ++ ys) ≡ sum_of f xs + sum_of f ys
  unfolding sum_of
  sum_of-append f [] ys = omega arith
  sum_of-append f (x ∷ xs) ys = omega (arith, sum_of-append f xs ys)

  pub count_if-sum_of :
      (p : A → Bool) (xs : List A) → count_if p xs ≡ sum_of (λ x. if p x then 1 else 0) xs
  unfolding count_if sum_of
  count_if-sum_of p [] = refl
  count_if-sum_of p (x ∷ xs) = ap (λ n. (if p x then 1 else 0) + n) (count_if-sum_of p xs)

  pub length-sum_of : (xs : List A) → length xs ≡ sum_of (λ x. 1) xs
  unfolding sum_of
  length-sum_of [] = refl
  length-sum_of (x ∷ xs) = omega (arith, length-sum_of xs)

insert_by_seen-IsIn :
    (row i : Incident) (js : List Incident) → IsIn row (insert_by_seen i js) → IsIn row (i ∷ js)
unfolding insert_by_seen IsIn
insert_by_seen-IsIn row i [] h = h
insert_by_seen-IsIn row i (j ∷ js) h = ground (arith, h, insert_by_seen-IsIn row i js)

latest_seen-IsIn : (row : Incident) (is : List Incident) → IsIn row (latest_seen is) → IsIn row is
unfolding latest_seen IsIn
latest_seen-IsIn row [] h = h
latest_seen-IsIn row (i ∷ is) h = elim (insert_by_seen-IsIn row i (latest_seen is) h) [
  | inl same ↦ inl same
  | inr later ↦ inr (latest_seen-IsIn row is later)
]

guarded-some :
    (opened : Bool) (o : Option Incident) {row : Incident}
    → (if opened then o else none) ≡ some row
    → o ≡ some row
guarded-some true o e = e
guarded-some false o e = ground (arith, e)

-- The row that an incident continues is a row of the table.
pub find_merge_incident-IsIn :
    (tools : Tools) (i : Incoming) (incidents : List Incident) {row : Incident}
    → find_merge_incident tools i incidents ≡ some row
    → IsIn row incidents
unfolding find_merge_incident
find_merge_incident-IsIn tools i incidents {row} e = keep-IsIn _ row incidents (
    latest_seen-IsIn row _
      (take-IsIn 50 row _ (first-IsIn _ row _ (guarded-some (is_open_case i.status) _ e))))

-- The change of the rows with an id, which is what the updates of `replace_incident` and `archive` do.
unfoldable pub change_rows : String → (Incident → Incident) → List Incident → List Incident
change_rows id change incidents =
    map (λ i. if str_eq i.incident_id id then change i else i) incidents

abbrev pub has_id : String → Incident → Bool
has_id id i = str_eq i.incident_id id

absent :
    (f : Incident → ℕ) (id : String) (change : Incident → Incident) (is : List Incident)
    → any (has_id id) is ≡ false
    → sum_of f (change_rows id change is) ≡ sum_of f is
unfolding sum_of change_rows any
absent f id change [] h = refl
absent f id change (i ∷ is) h = ground (arith, h, absent f id change is)

present :
    (row : Incident) (is : List Incident) → IsIn row is → any (has_id row.incident_id) is ≡ true
unfolding IsIn any
present row [] h = elim h [ ]
present row (i ∷ is) (inl same) =
    rw same (rw ((eq_iff row.incident_id row.incident_id).1 refl) refl)
present row (i ∷ is) (inr later) = ground (arith, present row is later)

-- With unique ids, the change of a row changes a total by the difference of the two rows.
pub change_rows-sum_of :
    (f : Incident → ℕ) (change : Incident → Incident) (row : Incident) (is : List Incident)
    → UniqueIds is
    → IsIn row is
    → sum_of f (change_rows row.incident_id change is) + f row ≡ sum_of f is + f (change row)
unfolding sum_of change_rows IsIn UniqueIds
change_rows-sum_of f change row [] u h = elim h [ ]
change_rows-sum_of f change row (i ∷ is) u (inl same) =
    let id : i.incident_id ≡ row.incident_id = ap (λ x. x.incident_id) same in
    let others =
      absent f row.incident_id change is (subst (λ x. any (has_id x) is ≡ false) id u.0) in
    let hit : has_id row.incident_id i ≡ true = (eq_iff i.incident_id row.incident_id).1 id in
    rw (hit, others) (omega (arith, ap f same, ap (λ x. f (change x)) same))
change_rows-sum_of f change row (i ∷ is) u (inr later) =
    elim (Bool-cases (has_id row.incident_id i)) [
      | inl hit ↦
          let found = present row is later in
          let unique =
            subst (λ x. any (has_id x) is ≡ false) ((eq_iff i.incident_id row.incident_id).0 hit)
              u.0 in
          ground (arith, found, unique)
      | inr miss ↦ rw miss (omega (arith, change_rows-sum_of f change row is u.1 later))
    ]

pub replace_incident-sum_of :
    (f : Incident → ℕ) (row new : Incident) (is : List Incident)
    → new.incident_id ≡ row.incident_id
    → UniqueIds is
    → IsIn row is
    → sum_of f (replace_incident new is) + f row ≡ sum_of f is + f new
unfolding replace_incident change_rows
replace_incident-sum_of f row new is e u h =
    subst (λ id. sum_of f (change_rows id (λ i. new) is) + f row ≡ sum_of f is + f new) (sym e)
      (change_rows-sum_of f (λ i. new) row is u h)

-- A change that keeps the ids.
abbrev pub KeepsId : String → (Incident → Incident) → Type 0
KeepsId id change = (i : Incident) → has_id id i ≡ true → (change i).incident_id ≡ i.incident_id

change_rows-any :
    (id other : String) (change : Incident → Incident) (is : List Incident)
    → KeepsId id change
    → any (has_id other) (change_rows id change is) ≡ any (has_id other) is
unfolding change_rows any
change_rows-any id other change [] h = refl
change_rows-any id other change (i ∷ is) h = elim (Bool-cases (has_id id i)) [
  | inl hit ↦ rw (hit, h i hit, change_rows-any id other change is h) refl
  | inr miss ↦ rw (miss, change_rows-any id other change is h) refl
]

pub change_rows-UniqueIds :
    (id : String) (change : Incident → Incident) (is : List Incident)
    → KeepsId id change
    → UniqueIds is
    → UniqueIds (change_rows id change is)
unfolding change_rows UniqueIds
change_rows-UniqueIds id change [] h u = tt
change_rows-UniqueIds id change (i ∷ is) h u = elim (Bool-cases (has_id id i)) [
  | inl hit ↦
      rw (hit, h i hit)
        (
          change_rows-any id i.incident_id change is h ∙ u.0,
          change_rows-UniqueIds id change is h u.1,
        )
  | inr miss ↦
      rw miss (
        change_rows-any id i.incident_id change is h ∙ u.0,
        change_rows-UniqueIds id change is h u.1,
      )
]

pub change_rows-IsIn :
    (id : String) (change : Incident → Incident) (row : Incident) (is : List Incident)
    → has_id id row ≡ false
    → IsIn row is
    → IsIn row (change_rows id change is)
unfolding change_rows IsIn
change_rows-IsIn id change row [] m h = h
change_rows-IsIn id change row (i ∷ is) m (inl same) =
    inl (rw (subst (λ x. has_id id x ≡ false) (sym same) m) same)
change_rows-IsIn id change row (i ∷ is) m (inr later) =
    inr (change_rows-IsIn id change row is m later)

constant : (id : String) (new : Incident) → new.incident_id ≡ id → KeepsId id (λ i. new)
constant id new e i h = e ∙ sym ((eq_iff i.incident_id id).0 h)

pub replace_incident-UniqueIds :
    (new : Incident) (is : List Incident) → UniqueIds is → UniqueIds (replace_incident new is)
unfolding replace_incident change_rows
replace_incident-UniqueIds new is u =
    change_rows-UniqueIds new.incident_id (λ i. new) is (constant new.incident_id new refl) u

any-append :
    (id : String) (is : List Incident) (new : Incident)
    → any (has_id id) is ≡ false
    → str_eq new.incident_id id ≡ false
    → any (has_id id) (is ++ new ∷ []) ≡ false
unfolding any
any-append id [] new h k = ground (arith, k)
any-append id (i ∷ is) new h k = ground (arith, h, any-append id is new)

pub append-UniqueIds :
    (is : List Incident) (new : Incident)
    → UniqueIds is
    → any (has_id new.incident_id) is ≡ false
    → UniqueIds (is ++ new ∷ [])
unfolding UniqueIds any
append-UniqueIds [] new u h = (refl, tt)
append-UniqueIds (i ∷ is) new u h = (
  any-append i.incident_id is new u.0 (
      ground
        (arith, h, eq_iff i.incident_id new.incident_id, eq_iff new.incident_id i.incident_id)),
  append-UniqueIds is new u.1 (ground (arith, h)),
)
