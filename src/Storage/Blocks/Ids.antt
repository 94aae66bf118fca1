-- ===== src/Storage/Blocks/Ids.antt =====
-- The primary key of `block_entries` in storage/database.py, and what a change of status does to the
-- rows.
use pondsecndr.Prelude.{
  ℕ, ◌≤◌, ◌+◌, ◌≡◌, refl, ap, subst, ◌∙◌, arith, String, Bool, true, false, ◌||◌, List, [], ◌∷◌,
  ◌++◌, Option, any, All, count_if, str_eq, eq_iff, Bool-cases, inl, inr, ||-eq-false, Option-cases,
}
use pondsecndr.Storage.{BlockEntry, BlockStatus, Store, audit}
use pondsecndr.Storage.Blocks.{
  is_active_at, set_status, refresh_host, get_block_entry, update_block_status, add_block_entry,
  active_block_count,
}

abbrev pub has_id : String → BlockEntry → Bool
has_id block_id b = str_eq b.block_id block_id

-- No two rows have one id.
unfoldable pub UniqueIds : List BlockEntry → Type 0
UniqueIds [] = Unit
UniqueIds (b ∷ bs) = (any (has_id b.block_id) bs ≡ false) × UniqueIds bs

any-set_status :
    (i block_id : String) (status : BlockStatus) (reason : Option String) (bs : List BlockEntry)
    → any (has_id i) (set_status block_id status reason bs) ≡ any (has_id i) bs
unfolding set_status any
any-set_status i block_id status reason [] = refl
any-set_status i block_id status reason (b ∷ bs) =
    ground (arith, any-set_status i block_id status reason bs)

-- A change of status keeps the ids.
pub set_status-UniqueIds :
    (block_id : String) (status : BlockStatus) (reason : Option String) (bs : List BlockEntry)
    → UniqueIds bs
    → UniqueIds (set_status block_id status reason bs)
unfolding set_status UniqueIds
set_status-UniqueIds block_id status reason [] u = tt
set_status-UniqueIds block_id status reason (b ∷ bs) u = (
  elim (Bool-cases (has_id block_id b)) [
    | inl hit ↦ rw hit (any-set_status b.block_id block_id status reason bs ∙ u.0)
    | inr miss ↦ rw miss (any-set_status b.block_id block_id status reason bs ∙ u.0)
  ],
  set_status-UniqueIds block_id status reason bs u.1,
)

count-no_id :
    (i : String) (bs : List BlockEntry) → any (has_id i) bs ≡ false → count_if (has_id i) bs ≡ 0
unfolding any count_if
count-no_id i [] h = refl
count-no_id i (b ∷ bs) h = ground (arith, count-no_id i bs)

pub count-UniqueIds :
    (i : String) (bs : List BlockEntry) → UniqueIds bs → count_if (has_id i) bs ≤ 1
unfolding UniqueIds count_if
count-UniqueIds i [] u = omega arith
count-UniqueIds i (b ∷ bs) u = elim (Bool-cases (has_id i b)) [
  | inl hit ↦
      let none_left = subst (λ j. any (has_id j) bs ≡ false) ((eq_iff b.block_id i).0 hit) u.0 in
      ground (arith, hit, count-no_id i bs none_left)
  | inr miss ↦ ground (arith, miss, count-UniqueIds i bs u.1)
]

-- At most the rows with the id become active.
pub count-set_status :
    (now : ℕ) (block_id : String) (status : BlockStatus) (reason : Option String)
    (bs : List BlockEntry)
    → count_if (is_active_at now) (set_status block_id status reason bs)
      ≤ count_if (is_active_at now) bs + count_if (has_id block_id) bs
unfolding set_status count_if
count-set_status now block_id status reason [] = omega arith
count-set_status now block_id status reason (b ∷ bs) =
    ground (arith, count-set_status now block_id status reason bs)

-- Without the id there is nothing to change.
pub set_status-absent :
    (block_id : String) (status : BlockStatus) (reason : Option String) (bs : List BlockEntry)
    → any (has_id block_id) bs ≡ false
    → set_status block_id status reason bs ≡ bs
unfolding set_status any
set_status-absent block_id status reason [] h = refl
set_status-absent block_id status reason (b ∷ bs) h =
    let (miss, rest) = ||-eq-false (has_id block_id b) (any (has_id block_id) bs) h in
    rw miss (ap (◌∷◌ b) (set_status-absent block_id status reason bs rest))

-- After the change every row with the id has the new status.
pub set_status-All :
    (block_id : String) (status : BlockStatus) (reason : Option String) (bs : List BlockEntry)
    → All (λ b. has_id block_id b ≡ true → b.status ≡ status) (set_status block_id status reason bs)
unfolding set_status
set_status-All block_id status reason [] = tt
set_status-All block_id status reason (b ∷ bs) = (
  λ h. elim (Bool-cases (has_id block_id b)) [
    | inl hit ↦ rw hit refl
    | inr miss ↦ absurd (ground (arith, miss, h))
  ],
  set_status-All block_id status reason bs,
)

any-append :
    (i : String) (bs cs : List BlockEntry)
    → any (has_id i) (bs ++ cs) ≡ (any (has_id i) bs || any (has_id i) cs)
unfolding any
any-append i [] cs = refl
any-append i (b ∷ bs) cs = ground (arith, any-append i bs cs)

pub append-UniqueIds :
    (bs : List BlockEntry) (entry : BlockEntry)
    → any (has_id entry.block_id) bs ≡ false
    → UniqueIds bs
    → UniqueIds (bs ++ entry ∷ [])
unfolding UniqueIds any
append-UniqueIds [] entry h u = (refl, tt)
append-UniqueIds (b ∷ bs) entry h u =
    let (miss, rest) = ||-eq-false (has_id entry.block_id b) (any (has_id entry.block_id) bs) h in
    (
      ground (
        arith,
        any-append b.block_id bs (entry ∷ []),
        u.0,
        miss,
        eq_iff b.block_id entry.block_id,
        eq_iff entry.block_id b.block_id,
      ),
      append-UniqueIds bs entry rest u.1,
    )

-- A new row with a fresh id keeps the ids unique.
pub add_block_entry-UniqueIds :
    (now : ℕ) (entry : BlockEntry) (actor : String) (s : Store)
    → any (has_id entry.block_id) s.blocks ≡ false
    → UniqueIds s.blocks
    → UniqueIds (add_block_entry now entry actor s).blocks
unfolding add_block_entry audit
add_block_entry-UniqueIds now entry actor s h u = append-UniqueIds s.blocks entry h u

-- The rows after `update_block_status` are those with the status set.
pub blocks-update_block_status :
    (now : ℕ) (block_id : String) (status : BlockStatus) (reason : Option String) (actor : String)
    (s : Store)
    → (update_block_status now block_id status reason actor s).1.blocks
      ≡ set_status block_id status reason s.blocks
unfolding update_block_status audit refresh_host
blocks-update_block_status now block_id status reason actor s =
    elim (Option-cases (get_block_entry block_id s)) [
      | inl absent ↦ rw absent refl
      | inr (row, found) ↦ rw found refl
    ]

-- One more block is active at most.
pub active_block_count-update :
    (now : ℕ) (block_id : String) (status : BlockStatus) (reason : Option String) (actor : String)
    (s : Store)
    → UniqueIds s.blocks
    → active_block_count now (update_block_status now block_id status reason actor s).1
      ≤ active_block_count now s + 1
unfolding active_block_count
active_block_count-update now block_id status reason actor s u =
    rw (blocks-update_block_status now block_id status reason actor s) (
      omega (
        arith,
        count-set_status now block_id status reason s.blocks,
        count-UniqueIds block_id s.blocks u,
      ))
