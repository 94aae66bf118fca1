-- ===== src/Storage/Incidents/Deletion.antt =====
-- When `delete_incident` of storage/database.py deletes, and what is left then.
use pondsecndr.Prelude.{
  ℕ, ◌≡◌, inl, inr, refl, sym, ap, subst, ◌∙◌, arith, String, Bool, true, false, not, ◌&&◌, List,
  [], ◌∷◌, Option, none, some, any, keep, count_if, first, str_eq, eq_iff, Bool-cases, Option-cases,
  some-injective,
}
use pondsecndr.Storage.{BlockEntry, Incident, Store, is_some_text, audit}
use pondsecndr.Storage.Blocks.{
  is_current, newest_first, insert_by_age, active_response_blocks_for_incident,
}
use pondsecndr.Storage.Incidents.{
  refresh_open_incidents, get_incident, DeleteResult, ok, not_found, denied, after_delete,
  delete_rows, delete_row, delete_incident,
}

-- A block of the incident is in force.
unfoldable pub holds_block : (now : ℕ) → String → BlockEntry → Bool
holds_block now incident_id b = is_some_text b.incident_id incident_id && is_current now b

insert_by_age-full : (b : BlockEntry) (bs : List BlockEntry) → insert_by_age b bs ≡ [] → ⊥
unfolding insert_by_age
insert_by_age-full b [] h = ground arith
insert_by_age-full b (c ∷ cs) h = ground arith

newest_first-nil :
    (q : BlockEntry → Bool) (bs : List BlockEntry)
    → newest_first (keep q bs) ≡ []
    → any q bs ≡ false
unfolding newest_first keep any
newest_first-nil q [] h = refl
newest_first-nil q (b ∷ bs) h = elim (Bool-cases (q b)) [
  | inl passes ↦
      absurd (insert_by_age-full b (newest_first (keep q bs)) (ground (arith, passes, h)))
  | inr fails ↦ ground (arith, fails, newest_first-nil q bs (ground (arith, fails, h)))
]

newest_first-empty :
    (q : BlockEntry → Bool) (bs : List BlockEntry)
    → any q bs ≡ false
    → newest_first (keep q bs) ≡ []
unfolding newest_first keep any
newest_first-empty q [] h = refl
newest_first-empty q (b ∷ bs) h = ground (arith, h, newest_first-empty q bs)

-- Putting the newest first neither loses a block nor repeats one.
insert_by_age-count :
    (q : BlockEntry → Bool) (b : BlockEntry) (bs : List BlockEntry)
    → count_if q (insert_by_age b bs) ≡ count_if q (b ∷ bs)
unfolding insert_by_age count_if
insert_by_age-count q b [] = refl
insert_by_age-count q b (c ∷ cs) = ground (arith, insert_by_age-count q b cs)

newest_first-count :
    (q : BlockEntry → Bool) (bs : List BlockEntry) → count_if q (newest_first bs) ≡ count_if q bs
unfolding newest_first count_if
newest_first-count q [] = refl
newest_first-count q (b ∷ bs) =
    ground (arith, insert_by_age-count q b (newest_first bs), newest_first-count q bs)

count_if-keep {ℓ} :
    {A : Type ℓ} (q p : A → Bool) (xs : List A)
    → count_if q (keep p xs) ≡ count_if (λ x. p x && q x) xs
unfolding count_if keep
count_if-keep q p [] = refl
count_if-keep q p (x ∷ xs) = ground (arith, count_if-keep q p xs)

first-has_id :
    (incident_id : String) (is : List Incident) (row : Incident)
    → first (λ i. str_eq i.incident_id incident_id) is ≡ some row
    → row.incident_id ≡ incident_id
unfolding first
first-has_id incident_id [] row h = absurd (ground arith)
first-has_id incident_id (i ∷ is) row h = elim (Bool-cases (str_eq i.incident_id incident_id)) [
  | inl hit ↦
      ap {A = Incident} (λ x. x.incident_id)
        (sym (some-injective {a = i} {b = row} (ground (arith, hit, h))))
      ∙ (eq_iff i.incident_id incident_id).0 hit
  | inr miss ↦ first-has_id incident_id is row (ground (arith, miss, h))
]

-- What was kept for another id has this id nowhere.
any-kept {ℓ} : {A : Type ℓ} (q : A → Bool) (xs : List A) → any q (keep (λ x. not (q x)) xs) ≡ false
unfolding any keep
any-kept q [] = refl
any-kept q (x ∷ xs) = ground (arith, any-kept q xs)

-- The result of a deletion, and what it means for the store.
pub data Deleted (now : ℕ) (incident_id : String) (s : Store) : DeleteResult → Store → Type 0 where
  missing : get_incident incident_id s ≡ none → Deleted now incident_id s not_found s
  held :
      (b : BlockEntry) (bs : List BlockEntry)
      → any (holds_block now incident_id) s.blocks ≡ true
      → ((q : BlockEntry → Bool)
          → count_if q (b ∷ bs) ≡ count_if (λ x. holds_block now incident_id x && q x) s.blocks)
      → Deleted now incident_id s (denied (b ∷ bs)) s
  gone :
      (after : Store)
      → any (holds_block now incident_id) s.blocks ≡ false
      → any (λ i. str_eq i.incident_id incident_id) after.incidents ≡ false
      → any (λ link. str_eq link.0 incident_id) after.incident_detections ≡ false
      → after.blocks ≡ s.blocks
      → Deleted now incident_id s ok after

module _ (now : ℕ) (incident_id actor : String) (s : Store) where
  after_delete-keeps :
      (source : Option String) (t : Store)
      → ((after_delete source t).incidents ≡ t.incidents)
        × ((after_delete source t).incident_detections ≡ t.incident_detections)
        × ((after_delete source t).blocks ≡ t.blocks)
  unfolding after_delete refresh_open_incidents
  after_delete-keeps none t = (refl, refl, refl)
  after_delete-keeps (some ip) t = ground arith

  delete_rows-gone :
      (row : Incident)
      → row.incident_id ≡ incident_id
      → any (holds_block now incident_id) s.blocks ≡ false
      → Deleted now incident_id s ok (delete_rows now actor row s)
  unfolding delete_rows audit
  delete_rows-gone row e free =
      let (incidents, links, blocks) = after_delete-keeps row.source_ip _ in
      gone _ free (rw (incidents, e) (any-kept (λ i. str_eq i.incident_id incident_id) s.incidents))
        (rw (links, e) (any-kept (λ link. str_eq link.0 incident_id) s.incident_detections)) blocks

  listed_all :
      (q : BlockEntry → Bool) (bs : List BlockEntry)
      → newest_first (keep (holds_block now incident_id) s.blocks) ≡ bs
      → count_if q bs ≡ count_if (λ x. holds_block now incident_id x && q x) s.blocks
  listed_all q bs h =
      subst
        (λ list. count_if q list ≡ count_if (λ x. holds_block now incident_id x && q x) s.blocks) h
        (newest_first-count q (keep (holds_block now incident_id) s.blocks)
          ∙ count_if-keep q (holds_block now incident_id) s.blocks)

  delete_row-Deleted :
      (row : Incident)
      → row.incident_id ≡ incident_id
      → (bs : List BlockEntry) → active_response_blocks_for_incident now row.incident_id s ≡ bs
      → Deleted now incident_id s
          (delete_row now actor (some row) s).0
          (delete_row now actor (some row) s).1
  unfolding delete_row active_response_blocks_for_incident holds_block
  delete_row-Deleted row e [] h =
      rw (delete_row, h)
        (delete_rows-gone row e (
          newest_first-nil (holds_block now incident_id) s.blocks
            (subst (λ i. newest_first (keep (holds_block now i) s.blocks) ≡ []) e h)))
  delete_row-Deleted row e (b ∷ bs) h =
      let listed = subst (λ i. newest_first (keep (holds_block now i) s.blocks) ≡ b ∷ bs) e h in
      rw (delete_row, h)
        (elim (Bool-cases (any (holds_block now incident_id) s.blocks)) [
          | inl some_held ↦ held b bs some_held (λ q. listed_all q (b ∷ bs) listed)
          | inr free ↦ absurd (
              ground
                (arith, newest_first-empty (holds_block now incident_id) s.blocks free, listed))
        ])

  -- A deletion is refused with the blocks of the incident that are in force, if there is one: under
  -- every test the list given has as many blocks as the table has blocks in force of the incident,
  -- so none is missing and none is listed twice. The store is then as before. Else, unless there is
  -- no such incident, neither the incident nor a link to it is left, and the blocks are as before.
  pub delete_incident-Deleted :
      Deleted now incident_id s
        (delete_incident now incident_id actor s).0
        (delete_incident now incident_id actor s).1
  unfolding delete_incident get_incident
  delete_incident-Deleted = elim (Option-cases (get_incident incident_id s)) [
    | inl absent ↦ rw (delete_incident, delete_row, absent) (missing absent)
    | inr (row, found) ↦
        rw (delete_incident, found)
          (delete_row-Deleted row (first-has_id incident_id s.incidents row found) _ refl)
  ]
