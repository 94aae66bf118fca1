-- ===== src/Storage/Blocks/Sources.antt =====
-- `active_block_sources` of storage/database.py after a removal: which addresses another block keeps.
use pondsecndr.Prelude.{
  ℕ, ◌≡◌, refl, ap, ◌∙◌, arith, String, Bool, not, ◌&&◌, List, [], ◌∷◌, Option, any, keep, is_in,
  str_eq, eq_iff, Bool-cases, inl, inr,
}
use pondsecndr.Storage.{BlockEntry, removed, Store}
use pondsecndr.Storage.Blocks.{
  is_active_at, set_status, distinct_sources, active_block_sources, update_block_status,
}
use pondsecndr.Storage.Blocks.Ids.{has_id, blocks-update_block_status}

-- A block other than `block_id` is in force and has the address.
pub is_held : (now : ℕ) (block_id source_ip : String) → List BlockEntry → Bool
is_held now block_id source_ip bs =
    any (λ b. not (has_id block_id b) && is_active_at now b && str_eq source_ip b.source_ip) bs

is_in-distinct_sources :
    (ip : String) (bs : List BlockEntry)
    → is_in ip (distinct_sources bs) ≡ any (λ b. str_eq ip b.source_ip) bs
unfolding is_in distinct_sources any
is_in-distinct_sources ip [] = refl
is_in-distinct_sources ip (b ∷ bs) = elim (Bool-cases (is_in b.source_ip (distinct_sources bs))) [
  | inl listed ↦ ground (arith, listed, is_in-distinct_sources ip bs, eq_iff ip b.source_ip)
  | inr new ↦ ground (arith, new, is_in-distinct_sources ip bs)
]

any-keep :
    (p q : BlockEntry → Bool) (bs : List BlockEntry) → any p (keep q bs) ≡ any (λ b. q b && p b) bs
unfolding any keep
any-keep p q [] = refl
any-keep p q (b ∷ bs) = ground (arith, any-keep p q bs)

any-removed :
    (now : ℕ) (block_id ip : String) (reason : Option String) (bs : List BlockEntry)
    → any (λ b. is_active_at now b && str_eq ip b.source_ip) (set_status block_id removed reason bs)
      ≡ is_held now block_id ip bs
unfolding any set_status is_held
any-removed now block_id ip reason [] = refl
any-removed now block_id ip reason (b ∷ bs) = ground (arith, any-removed now block_id ip reason bs)

-- Once a block is removed, its address counts as active exactly if another block holds it.
pub active_block_sources-removed :
    (now : ℕ) (block_id ip : String) (reason : Option String) (actor : String) (s : Store)
    → is_in ip
        (active_block_sources now (update_block_status now block_id removed reason actor s).1)
      ≡ is_held now block_id ip s.blocks
unfolding active_block_sources
active_block_sources-removed now block_id ip reason actor s =
    is_in-distinct_sources ip
      (keep (is_active_at now) (update_block_status now block_id removed reason actor s).1.blocks)
    ∙ any-keep (λ b. str_eq ip b.source_ip) (is_active_at now)
        (update_block_status now block_id removed reason actor s).1.blocks
    ∙ ap (any (λ b. is_active_at now b && str_eq ip b.source_ip))
        (blocks-update_block_status now block_id removed reason actor s)
    ∙ any-removed now block_id ip reason s.blocks
