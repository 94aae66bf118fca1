-- ===== src/Storage/Blocks.antt =====
-- The block entries of storage/database.py: `add_block_entry` to `expire_block_entries`.
pub mod Ids
pub mod HostStatus
pub mod Expiry
pub mod Sources
use Prim.Native.String.{◌++◌ as concat}
use pondsecndr.Prelude.{
  ℕ, ◌+◌, ◌-◌, ◌*◌, String, Bool, true, false, not, ◌&&◌, List, [], ◌∷◌, ◌++◌, Option, none, some,
  map, keep, any, count_if, first, length, leb, ltb, str_eq, is_empty, is_in, if◌then◌else◌,
}
use pondsecndr.Python.Ipaddress.{Ipaddress, Address}
use pondsecndr.Storage.{
  BlockStatus, proposed, active, removed, expired, rejected, BlockEntry, Host, Store, audit,
  update_host, given, is_some_text,
}

abbrev pub microseconds : ℕ
microseconds = 1000000

-- status IN ('proposed', 'active')
abbrev pub is_open : BlockStatus → Bool
is_open proposed = true
is_open active = true
is_open _ = false

abbrev pub is_active : BlockStatus → Bool
is_active active = true
is_active _ = false

abbrev pub is_proposed : BlockStatus → Bool
is_proposed proposed = true
is_proposed _ = false

abbrev pub status_name : BlockStatus → String
status_name proposed = "proposed"
status_name active = "active"
status_name removed = "removed"
status_name expired = "expired"
status_name rejected = "rejected"

-- ... AND expires_at > now
abbrev pub is_current : ℕ → BlockEntry → Bool
is_current now b = is_open b.status && ltb now b.expires_at

abbrev pub is_active_at : ℕ → BlockEntry → Bool
is_active_at now b = is_active b.status && ltb now b.expires_at

-- `ORDER BY created_at DESC LIMIT 1`, and of two rows of one moment the earlier row.
unfoldable pub latest : List BlockEntry → Option BlockEntry
latest [] = none
latest (b ∷ bs) = elim (latest bs) [
  | none ↦ some b
  | some c ↦ if ltb b.created_at c.created_at then some c else some b
]

-- `ORDER BY created_at DESC`
unfoldable pub insert_by_age : BlockEntry → List BlockEntry → List BlockEntry
insert_by_age b [] = b ∷ []
insert_by_age b (c ∷ cs) =
    if ltb b.created_at c.created_at then c ∷ insert_by_age b cs else b ∷ c ∷ cs

unfoldable pub newest_first : List BlockEntry → List BlockEntry
unfolding insert_by_age
newest_first [] = []
newest_first (b ∷ bs) = insert_by_age b (newest_first bs)

-- `SELECT DISTINCT source_ip`
unfoldable pub distinct_sources : List BlockEntry → List String
distinct_sources [] = []
distinct_sources (b ∷ bs) =
    let rest = distinct_sources bs in if is_in b.source_ip rest then rest else b.source_ip ∷ rest

unfoldable pub get_block_entry : String → Store → Option BlockEntry
get_block_entry block_id s = first (λ b. str_eq b.block_id block_id) s.blocks

unfoldable pub matches : (now : ℕ) (incident_id source_ip : Option String) → BlockEntry → Bool
matches now incident_id source_ip b =
    is_current now b
    && (if given incident_id
        then elim incident_id [ none ↦ false | some i ↦ is_some_text b.incident_id i ]
        else true)
    && (if given source_ip then is_some_text source_ip b.source_ip else true)

unfoldable pub existing_response_block :
    (now : ℕ) (incident_id source_ip : Option String) → Store → Option BlockEntry
unfolding latest matches
existing_response_block now incident_id source_ip s =
    if not (given incident_id) && not (given source_ip)
    then none
    else latest (keep (matches now incident_id source_ip) s.blocks)

unfoldable pub active_response_blocks_for_incident : (now : ℕ) → String → Store → List BlockEntry
unfolding newest_first
active_response_blocks_for_incident now incident_id s =
    newest_first (keep (λ b. is_some_text b.incident_id incident_id && is_current now b) s.blocks)

unfoldable pub active_block_count : (now : ℕ) → Store → ℕ
active_block_count now s = count_if (is_active_at now) s.blocks

unfoldable pub active_block_sources : (now : ℕ) → Store → List String
unfolding distinct_sources
active_block_sources now s = distinct_sources (keep (is_active_at now) s.blocks)

unfoldable pub expired_active_block_sources : (now : ℕ) → Store → List String
unfolding distinct_sources
expired_active_block_sources now s =
    distinct_sources (keep (λ b. is_active b.status && leb b.expires_at now) s.blocks)

-- `_current_host_block_status`: the order of the query puts the active rows first, so the status of
-- the first row is active if there is one.
unfoldable pub current_host_block_status : (now : ℕ) → String → List BlockEntry → Option BlockStatus
current_host_block_status now source_ip blocks =
    if any (λ b. str_eq b.source_ip source_ip && is_active_at now b) blocks
    then some active
    else if any (λ b. str_eq b.source_ip source_ip && is_proposed b.status && ltb now b.expires_at)
        blocks
    then some proposed
    else none

unfoldable pub set_block_status : Option BlockStatus → Host → Host
set_block_status status h = record h { block_status = status }

-- `add_block_entry`, of a complete record.
unfoldable pub add_block_entry : (now : ℕ) (entry : BlockEntry) (actor : String) → Store → Store
unfolding set_block_status
add_block_entry now entry actor s =
    audit now actor (concat "block." (status_name entry.status)) (some entry.source_ip) (record s {
      blocks = s.blocks ++ entry ∷ [];
      hosts =
          if is_open entry.status
          then update_host entry.source_ip (set_block_status (some entry.status)) s.hosts
          else s.hosts;
    })

-- `COALESCE(new, old)`
abbrev pub coalesce : Option String → Option String → Option String
coalesce none old = old
coalesce (some s) old = some s

unfoldable pub set_status : String → BlockStatus → Option String → List BlockEntry → List BlockEntry
set_status block_id status reason blocks =
    map
      (λ b.
        if str_eq b.block_id block_id
        then record b { status = status; removal_reason = coalesce reason b.removal_reason }
        else b)
      blocks

unfoldable pub refresh_host : (now : ℕ) → Option BlockEntry → Store → Store
unfolding set_block_status
refresh_host now none s = s
refresh_host now (some row) s = record s {
  hosts =
      update_host row.source_ip
        (set_block_status (current_host_block_status now row.source_ip s.blocks)) s.hosts;
}

-- `update_block_status`; its result is whether a row has the id.
unfoldable pub update_block_status :
    (now : ℕ) (block_id : String) (status : BlockStatus) (reason : Option String) (actor : String)
    → Store
    → Bool × Store
unfolding refresh_host
update_block_status now block_id status reason actor s =
    let row = get_block_entry block_id s in
    let changed = any (λ b. str_eq b.block_id block_id) s.blocks in
    let updated = record s { blocks = set_status block_id status reason s.blocks } in
    (
      changed,
      audit now actor (concat "block." (status_name status)) (some block_id)
          (refresh_host now row updated),
    )

unfoldable pub is_due : ℕ → BlockEntry → Bool
is_due now b = is_open b.status && leb b.expires_at now

unfoldable pub expire_rows : (now : ℕ) (actor : String) → List BlockEntry → Store → Store
unfolding refresh_host
expire_rows now actor [] s = s
expire_rows now actor (row ∷ rows) s =
    let updated = record s { blocks = set_status row.block_id expired (some "expired") s.blocks } in
    expire_rows now actor rows
      (audit now actor "block.expired" (some row.block_id) (refresh_host now (some row) updated))

unfoldable pub expire_block_entries : (now : ℕ) (actor : String) → Store → ℕ × Store
unfolding is_due expire_rows
expire_block_entries now actor s =
    let rows = keep (is_due now) s.blocks in (length rows, expire_rows now actor rows s)

module _ (lib : Ipaddress) where
  -- `_is_private_address`
  unfoldable pub private_number : Option Address → Bool
  private_number none = false
  private_number (some a) = lib.is_private a

  unfoldable pub is_private_address : String → Bool
  unfolding private_number
  is_private_address value = if is_empty value then false else private_number (lib.ip_address value)

  -- status IN ('active', 'removed', 'expired')
  unfoldable pub was_enforced : BlockStatus → Bool
  was_enforced active = true
  was_enforced removed = true
  was_enforced expired = true
  was_enforced _ = false

  unfoldable pub recent_automatic_internal_block_count : (now since_seconds : ℕ) → Store → ℕ
  unfolding is_private_address was_enforced
  recent_automatic_internal_block_count now since_seconds s =
      count_if
        (λ b.
          b.automatic
          && leb (now - since_seconds * microseconds) b.created_at
          && was_enforced b.status
          && is_private_address b.source_ip)
        s.blocks
