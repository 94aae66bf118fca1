-- ===== src/Storage/Blocks/Expiry.antt =====
-- `expire_block_entries` of storage/database.py against its description: every row that is due, and
-- no other, becomes expired.
use pondsecndr.Prelude.{
  ℕ, ◌≡◌, refl, sym, ap, ◌∙◌, arith, String, Bool, false, List, [], ◌∷◌, some, map, any, All, keep,
  is_in, count_if, str_eq, eq_iff, Bool-cases, inl, inr, if◌then◌else◌, ||-eq-false, All-map,
}
use pondsecndr.Storage.{BlockEntry, expired, Store, audit}
use pondsecndr.Storage.Blocks.{
  is_due, is_active_at, active_block_count, set_status, refresh_host, expire_rows,
  expire_block_entries,
}
use pondsecndr.Storage.Blocks.Ids.{has_id, UniqueIds}

-- What the table should hold afterwards.
pub expire_row : BlockEntry → BlockEntry
expire_row b = record b { status = expired; removal_reason = some "expired" }

pub expire_due : (now : ℕ) → List BlockEntry → List BlockEntry
expire_due now bs = map (λ b. if is_due now b then expire_row b else b) bs

ids : List BlockEntry → List String
ids bs = map (λ b. b.block_id) bs

-- The rows whose id is listed, expired.
expire_listed : List String → List BlockEntry → List BlockEntry
expire_listed listed bs = map (λ b. if is_in b.block_id listed then expire_row b else b) bs

expire_listed-nil : (bs : List BlockEntry) → expire_listed [] bs ≡ bs
unfolding expire_listed is_in
expire_listed-nil [] = refl
expire_listed-nil (b ∷ bs) = ap (◌∷◌ b) (expire_listed-nil bs)

-- One more id is one more change of status.
expire_listed-cons :
    (i : String) (listed : List String) (bs : List BlockEntry)
    → expire_listed listed (set_status i expired (some "expired") bs)
      ≡ expire_listed (i ∷ listed) bs
unfolding expire_listed is_in set_status expire_row
expire_listed-cons i listed [] = refl
expire_listed-cons i listed (b ∷ bs) =
    let rest = expire_listed-cons i listed bs in
    elim (Bool-cases (str_eq b.block_id i)) [
      | inl hit ↦ elim (Bool-cases (is_in b.block_id listed)) [
        | inl again ↦ rw (hit, again) (ap (◌∷◌ (expire_row b)) rest)
        | inr once ↦ rw (hit, once) (ap (◌∷◌ (expire_row b)) rest)
      ]
      | inr miss ↦ rw miss (ap (◌∷◌ (if is_in b.block_id listed then expire_row b else b)) rest)
    ]

expire_rows-listed :
    (now : ℕ) (actor : String) (rows : List BlockEntry) (s : Store)
    → (expire_rows now actor rows s).blocks ≡ expire_listed (ids rows) s.blocks
unfolding expire_rows ids refresh_host audit
expire_rows-listed now actor [] s = sym (expire_listed-nil s.blocks)
expire_rows-listed now actor (row ∷ rows) s =
    expire_rows-listed now actor rows _ ∙ expire_listed-cons row.block_id (ids rows) s.blocks

-- An id that no row has is not listed.
not_listed :
    (q : BlockEntry → Bool) (i : String) (bs : List BlockEntry)
    → any (has_id i) bs ≡ false
    → is_in i (ids (keep q bs)) ≡ false
unfolding ids keep is_in any
not_listed q i [] h = refl
not_listed q i (b ∷ bs) h =
    ground (arith, not_listed q i bs, eq_iff b.block_id i, eq_iff i b.block_id)

All-other :
    (i : String) (bs : List BlockEntry)
    → any (has_id i) bs ≡ false
    → All (λ b. str_eq b.block_id i ≡ false) bs
unfolding any
All-other i [] h = tt
All-other i (b ∷ bs) h =
    let (miss, rest) = ||-eq-false (has_id i b) (any (has_id i) bs) h in (miss, All-other i bs rest)

All-and {ℓ κ μ} :
    {A : Type ℓ} (P : A → Type κ) (Q : A → Type μ) (xs : List A)
    → All P xs
    → All Q xs
    → All (λ x. P x × Q x) xs
All-and P Q [] h k = tt
All-and P Q (x ∷ xs) h k = ((h.0, k.0), All-and P Q xs h.1 k.1)

-- Among rows with unique ids, a row's id is listed exactly if the row is kept.
listed_iff_kept :
    (q : BlockEntry → Bool) (bs : List BlockEntry)
    → UniqueIds bs
    → All (λ b. is_in b.block_id (ids (keep q bs)) ≡ q b) bs
unfolding UniqueIds ids keep is_in
listed_iff_kept q [] u = tt
listed_iff_kept q (b ∷ bs) u = elim (Bool-cases (q b)) [
  | inl kept ↦ rw kept (
    ground (arith, kept, eq_iff b.block_id b.block_id),
    All-map _ _ bs (λ c (other, listed). ground (arith, other, listed))
        (All-and _ _ bs (All-other b.block_id bs u.0) (listed_iff_kept q bs u.1)),
  )
  | inr dropped ↦ (
    rw dropped (not_listed q b.block_id bs u.0),
    All-map _ _ bs (λ c listed. ground (arith, dropped, listed)) (listed_iff_kept q bs u.1),
  )
]

expire_listed-eq :
    (now : ℕ) (listed : List String) (bs : List BlockEntry)
    → All (λ b. is_in b.block_id listed ≡ is_due now b) bs
    → expire_listed listed bs ≡ expire_due now bs
unfolding expire_listed expire_due
expire_listed-eq now listed [] h = refl
expire_listed-eq now listed (b ∷ bs) h =
    rw h.0
      (ap (◌∷◌ (if is_due now b then expire_row b else b)) (expire_listed-eq now listed bs h.1))

-- Expiry makes exactly the due rows expired, with the reason, and leaves every other row alone.
pub expire_block_entries-blocks :
    (now : ℕ) (actor : String) (s : Store)
    → UniqueIds s.blocks
    → (expire_block_entries now actor s).1.blocks ≡ expire_due now s.blocks
unfolding expire_block_entries
expire_block_entries-blocks now actor s u =
    expire_rows-listed now actor (keep (is_due now) s.blocks) s
    ∙ expire_listed-eq now (ids (keep (is_due now) s.blocks)) s.blocks
        (listed_iff_kept (is_due now) s.blocks u)

-- Afterwards no row is due, and so no active block is past its end.
not_due_after :
    (now : ℕ) (b : BlockEntry) → is_due now (if is_due now b then expire_row b else b) ≡ false
unfolding is_due expire_row
not_due_after now b = ground arith

none_due : (now : ℕ) (bs : List BlockEntry) → any (is_due now) (expire_due now bs) ≡ false
unfolding expire_due any
none_due now [] = refl
none_due now (b ∷ bs) = rw (not_due_after now b) (none_due now bs)

-- A block that is not due, and its status, outlive the expiry, so the blocks in force stay in force.
active_after :
    (now : ℕ) (b : BlockEntry)
    → is_active_at now (if is_due now b then expire_row b else b) ≡ is_active_at now b
unfolding is_due expire_row
active_after now b = ground arith

count_active :
    (now : ℕ) (bs : List BlockEntry)
    → count_if (is_active_at now) (expire_due now bs) ≡ count_if (is_active_at now) bs
unfolding expire_due count_if
count_active now [] = refl
count_active now (b ∷ bs) =
    omega (arith, count_active now bs, ap {B = ℕ} (λ x. if x then 1 else 0) (active_after now b))

-- After an expiry no open row is past its end, and as many blocks are in force as before.
pub expire_block_entries_complete :
    (now : ℕ) (actor : String) (s : Store)
    → UniqueIds s.blocks
    → (any (is_due now) (expire_block_entries now actor s).1.blocks ≡ false)
      × (active_block_count now (expire_block_entries now actor s).1 ≡ active_block_count now s)
unfolding active_block_count
expire_block_entries_complete now actor s u =
    rw (expire_block_entries-blocks now actor s u)
      (none_due now s.blocks, count_active now s.blocks)

any-expire_due :
    (now : ℕ) (i : String) (bs : List BlockEntry)
    → any (has_id i) (expire_due now bs) ≡ any (has_id i) bs
unfolding expire_due any expire_row
any-expire_due now i [] = refl
any-expire_due now i (b ∷ bs) = ground (arith, any-expire_due now i bs)

-- An expiry keeps the ids.
pub expire_due-UniqueIds :
    (now : ℕ) (bs : List BlockEntry) → UniqueIds bs → UniqueIds (expire_due now bs)
unfolding expire_due UniqueIds expire_row
expire_due-UniqueIds now [] u = tt
expire_due-UniqueIds now (b ∷ bs) u = (
  elim (Bool-cases (is_due now b)) [
    | inl due ↦ rw due (any-expire_due now b.block_id bs ∙ u.0)
    | inr early ↦ rw early (any-expire_due now b.block_id bs ∙ u.0)
  ],
  expire_due-UniqueIds now bs u.1,
)
