-- ===== src/Storage/Allowlist.antt =====
-- The allowlist of storage/database.py.
use pondsecndr.Prelude.{
  ℕ, String, Bool, true, false, not, List, [], ◌∷◌, ◌++◌, Option, none, some, map, keep, any, first,
  ltb, str_eq,
}
use pondsecndr.Storage.{AllowlistEntry, Host, Store, audit, update_host}

unfoldable pub set_allowlisted : Bool → Host → Host
set_allowlisted b h = record h { allowlisted = b }

unfoldable pub add_allowlist_entry :
    (now : ℕ) (fresh value : String) (reason : Option String) (expires_at : Option ℕ)
    (actor : String)
    → Store
    → Store
unfolding set_allowlisted
add_allowlist_entry now fresh value reason expires_at actor s =
    let entry : AllowlistEntry = record {
      allowlist_id = fresh;
      value = value;
      reason = reason;
      created_at = now;
      expires_at = expires_at;
    } in
    audit now actor "allowlist.add" (some value) (record s {
      allowlist = s.allowlist ++ entry ∷ [];
      hosts = update_host value (set_allowlisted true) s.hosts;
    })

unfoldable pub forget_host : Option AllowlistEntry → List Host → List Host
unfolding set_allowlisted
forget_host none hosts = hosts
forget_host (some row) hosts = update_host row.value (set_allowlisted false) hosts

unfoldable pub remove_allowlist_entry :
    (now : ℕ) (allowlist_id actor : String) → Store → Bool × Store
unfolding forget_host
remove_allowlist_entry now allowlist_id actor s =
    let row = first (λ e. str_eq e.allowlist_id allowlist_id) s.allowlist in
    (
      any (λ e. str_eq e.allowlist_id allowlist_id) s.allowlist,
      audit now actor "allowlist.delete" (some allowlist_id) (record s {
        allowlist = keep (λ e. not (str_eq e.allowlist_id allowlist_id)) s.allowlist;
        hosts = forget_host row s.hosts;
      }),
    )

-- expires_at IS NULL OR expires_at > now
unfoldable pub is_in_force : ℕ → Option ℕ → Bool
is_in_force now none = true
is_in_force now (some t) = ltb now t

unfoldable pub allowlist_values : (now : ℕ) → Store → List String
unfolding is_in_force
allowlist_values now s = map (λ e. e.value) (keep (λ e. is_in_force now e.expires_at) s.allowlist)
