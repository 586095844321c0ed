-- ===== src/Config/Targets.antt =====
-- src/config.go: parseIPCSV, and the loops of parseFlags that fill DCPool and DCMap.
use tg_ws_proxy_go.Base.{
  ℤ, pos, List, [], ◌∷◌, ◌++◌, Bool, Option, none, some, Bytes, ◌==◌, if◌then◌else◌, length, GoMap,
  no_entries, insert,
}
use tg_ws_proxy_go.CfProxy.Names.{trim, is_space, contains}
use tg_ws_proxy_go.CfProxy.Fetch.{split_by}
use tg_ws_proxy_go.Config.{
  int_discrete, Result, ok, ◌>>=◌, or_error, check, cut, dc_ip, dc_ip_number, dc_ip_address,
  dc_ip_pool, dc_ip_pool_number, dc_ip_pool_addresses,
}

unfoldable pub append_unique_ip : List Bytes → Bytes → List Bytes
append_unique_ip dst ip = if contains dst ip then dst else dst ++ ip ∷ []

-- dcMap and dcPool.
pub record Targets : Type 0 where
  pub dc_map : GoMap ℤ Bytes
  pub dc_pool : GoMap ℤ (List Bytes)

abbrev pub no_targets : Targets
no_targets = record { dc_map = no_entries; dc_pool = no_entries }

-- `dcPool[dc] = ...; dcMap[dc] = ...` of a list that begins with `ip`.
abbrev pub set_targets : Targets → ℤ → Bytes → List Bytes → Targets
set_targets t dc ip ips = record {
  dc_map = insert int_discrete dc ip t.dc_map;
  dc_pool = insert int_discrete dc (ip ∷ ips) t.dc_pool;
}

module _ (parse_ip : Bytes → Bool) where
  -- The loop of parseIPCSV; `none` is its error.
  unfoldable pub parse_ips : List Bytes → List Bytes → Option (List Bytes)
  parse_ips out [] = some out
  parse_ips out (part ∷ parts) =
      let ip = trim is_space part in
      let skipped = parse_ips out parts in
      let taken = parse_ips (append_unique_ip out ip) parts in
      if length ip == 0 then skipped else if parse_ip ip then taken else none

  -- Its end: the first of the pool and the others, or the error of an empty pool.
  abbrev pub some_ips : Option (List Bytes) → Option (Bytes × List Bytes)
  some_ips none = none
  some_ips (some []) = none
  some_ips (some (ip ∷ ips)) = some (ip, ips)

  unfoldable pub parse_ip_csv : Bytes → Option (Bytes × List Bytes)
  parse_ip_csv raw = some_ips (parse_ips [] (split_by b',' raw))

module _ (parse_ip : Bytes → Bool) (atoi : Bytes → Option ℤ) where
  -- `for _, item := range dcIPs { ... }`.
  unfoldable pub add_dc_ips : Targets → List Bytes → Result Targets
  add_dc_ips t [] = ok t
  add_dc_ips t (item ∷ items) = do
    parts ← or_error (cut b':' item) dc_ip
    dc ← or_error (atoi parts.0) dc_ip_number
    valid ← check (parse_ip parts.1) dc_ip_address
    add_dc_ips (set_targets t dc parts.1 []) items

  -- `for _, item := range dcIPPools { ... }`.
  unfoldable pub add_dc_ip_pools : Targets → List Bytes → Result Targets
  add_dc_ip_pools t [] = ok t
  add_dc_ip_pools t (item ∷ items) = do
    parts ← or_error (cut b':' item) dc_ip_pool
    dc ← or_error (atoi parts.0) dc_ip_pool_number
    ips ← or_error (parse_ip_csv parse_ip parts.1) dc_ip_pool_addresses
    add_dc_ip_pools (set_targets t dc ips.0 ips.1) items

-- `for _, dc := range []int{2, 4} { ... }`.
abbrev pub default_targets : Bytes × List Bytes → Targets
default_targets pool =
    set_targets (set_targets no_targets (pos 2) pool.0 pool.1) (pos 4) pool.0 pool.1
