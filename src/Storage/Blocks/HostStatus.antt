-- ===== src/Storage/Blocks/HostStatus.antt =====
-- The block status that storage/database.py keeps with its hosts.
use pondsecndr.Prelude.{
  ℕ, ◌≡◌, inl, inr, refl, sym, ap, ◌∙◌, subst, arith, String, Bool, true, false, ◌&&◌, ◌||◌, List,
  [], ◌∷◌, Option, none, some, any, All, first, ltb, str_eq, eq_iff, some-injective, Bool-cases,
  Option-cases,
}
use pondsecndr.Storage.{BlockStatus, BlockEntry, Host, Store, update_host, audit}
use pondsecndr.Storage.Blocks.{
  is_proposed, is_active_at, coalesce, set_status, set_block_status, current_host_block_status,
  refresh_host, get_block_entry, update_block_status,
}
use pondsecndr.Storage.Blocks.Ids.{has_id, UniqueIds, set_status-absent}

-- A host shows the status of the blocks of its address.
abbrev pub HasStatus : ℕ → List BlockEntry → Host → Type 0
HasStatus now blocks h = h.block_status ≡ current_host_block_status now h.ip blocks

abbrev pub HasStatuses : ℕ → Store → Type 0
HasStatuses now s = All (HasStatus now s.blocks) s.hosts

first_source :
    (block_id : String) (b : BlockEntry) (bs : List BlockEntry) (row : BlockEntry)
    → has_id block_id b ≡ true
    → first (has_id block_id) (b ∷ bs) ≡ some row
    → b.source_ip ≡ row.source_ip
unfolding first
first_source block_id b bs row hit f =
    ap (λ (c : BlockEntry). c.source_ip) (some-injective (simp hit at f))

-- What holds of blocks of one address only does not see a block of another one.
any-other :
    (p : BlockEntry → Bool) (ip block_id : String) (status : BlockStatus) (reason : Option String)
    (bs : List BlockEntry) (row : BlockEntry)
    → ((b : BlockEntry) → str_eq b.source_ip ip ≡ false → p b ≡ false)
    → UniqueIds bs
    → first (has_id block_id) bs ≡ some row
    → str_eq row.source_ip ip ≡ false
    → any p (set_status block_id status reason bs) ≡ any p bs
unfolding any set_status first UniqueIds
any-other p ip block_id status reason [] row k u f other = refl
any-other p ip block_id status reason (b ∷ bs) row k u f other =
    elim (Bool-cases (has_id block_id b)) [
      | inl hit ↦
          let same : b.source_ip ≡ row.source_ip = first_source block_id b bs row hit f in
          let away = subst (λ source_ip. str_eq source_ip ip ≡ false) (sym same) other in
          let rest = ap (any p) (
            set_status-absent block_id status reason bs
              (subst (λ j. any (has_id j) bs ≡ false) ((eq_iff b.block_id block_id).0 hit) u.0)) in
          let here = k b away in
          let changed =
            k (record b { status = status; removal_reason = coalesce reason b.removal_reason })
              away in
          simp (hit, here, changed) rest
      | inr miss ↦
          let rest =
            any-other p ip block_id status reason bs row k u.1 (ground (arith, miss, f)) other in
          simp miss (ap (λ r. p b || r) rest)
    ]

first-absent :
    (block_id : String) (bs : List BlockEntry)
    → first (has_id block_id) bs ≡ none
    → any (has_id block_id) bs ≡ false
unfolding first any
first-absent block_id [] h = refl
first-absent block_id (b ∷ bs) h = ground (arith, h, first-absent block_id bs)

status-other :
    (now : ℕ) (ip block_id : String) (status : BlockStatus) (reason : Option String)
    (bs : List BlockEntry) (row : BlockEntry)
    → UniqueIds bs
    → first (has_id block_id) bs ≡ some row
    → str_eq row.source_ip ip ≡ false
    → current_host_block_status now ip (set_status block_id status reason bs)
      ≡ current_host_block_status now ip bs
unfolding current_host_block_status
status-other now ip block_id status reason bs row u f other =
    simp
      (
        any-other (λ b. str_eq b.source_ip ip && is_active_at now b) ip block_id status reason bs
            row (λ b e. ground (arith, e)) u f other,
        any-other (λ b. str_eq b.source_ip ip && is_proposed b.status && ltb now b.expires_at) ip
            block_id status reason bs row (λ b e. ground (arith, e)) u f other,
      )
      refl

update_host-HasStatus :
    (now : ℕ) (ip : String) (before after : List BlockEntry) (hs : List Host)
    → ((h : Host)
        → str_eq ip h.ip ≡ false
        → current_host_block_status now h.ip after ≡ current_host_block_status now h.ip before)
    → All (HasStatus now before) hs
    → All
        (HasStatus now after)
        (update_host ip (set_block_status (current_host_block_status now ip after)) hs)
unfolding update_host set_block_status
update_host-HasStatus now ip before after [] k h = tt
update_host-HasStatus now ip before after (x ∷ hs) k h = (
  elim (Bool-cases (str_eq x.ip ip)) [
    | inl same ↦
        rw same (ap (λ i. current_host_block_status now i after) (sym ((eq_iff x.ip ip).0 same)))
    | inr other ↦ rw other (h.0 ∙ sym (k x (ground (arith, other, eq_iff ip x.ip, eq_iff x.ip ip))))
  ],
  update_host-HasStatus now ip before after hs k h.1,
)

-- With unique ids, a change of a block's status leaves every host with the status of the blocks that
-- are in force for its address at that moment, if every host had it before.
pub update_block_status-HasStatuses :
    (now : ℕ) (block_id : String) (status : BlockStatus) (reason : Option String) (actor : String)
    (s : Store)
    → UniqueIds s.blocks
    → HasStatuses now s
    → HasStatuses now (update_block_status now block_id status reason actor s).1
unfolding update_block_status audit refresh_host get_block_entry
update_block_status-HasStatuses now block_id status reason actor s u h =
    elim (Option-cases (get_block_entry block_id s)) [
      | inl absent ↦
          rw (HasStatuses, update_block_status, absent)
            (subst (λ bs. All (HasStatus now bs) s.hosts)
              (sym (
                set_status-absent block_id status reason s.blocks
                  (first-absent block_id s.blocks absent)))
              h)
      | inr (row, found) ↦
          rw (HasStatuses, update_block_status, found)
            (update_host-HasStatus now row.source_ip s.blocks _ s.hosts
              (λ x other. status-other now x.ip block_id status reason s.blocks row u found other)
              h)
    ]
