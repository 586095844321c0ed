-- ===== src/Config/Parse.antt =====
-- src/config.go: parseFlags behind fs.Parse. `rand_read` is rand.Read of 16 bytes, `defaults` what
-- defaultCFProxyDomains gives, `draw` the random choice of setCFProxyDomains.
use tg_ws_proxy_go.Base.{
  ℕ, ℤ, List, [], ◌∷◌, Bool, false, not, ◌||◌, ◌&&◌, Option, Bytes, ◌==◌, if◌then◌else◌, length,
  no_entries,
}
use tg_ws_proxy_go.CfProxy.Names.{
  Domain, trim, is_space, normalize_cf_proxy_domain, append_unique_domains, is_likely_domain,
}
use tg_ws_proxy_go.CfProxy.Fetch.{parse_cf_proxy_domain_csv}
use tg_ws_proxy_go.CfProxy.State.{CfState, set_cf_proxy_domains}
use tg_ws_proxy_go.Config.{
  Flags, Result, ok, ◌>>=◌, or_error, check, max_int, hex_encode, hex_decodes,
  print_link_without_secret, no_random, secret_length, secret_hex, default_ip, default_pool,
  both_domain_flags, domain_pool, many_domains, empty_domain, fake_tls_domain, worker_domains,
}
use tg_ws_proxy_go.Config.Targets.{
  Targets, parse_ip_csv, add_dc_ips, add_dc_ip_pools, default_targets,
}

-- The fields of Config that parseFlags computes; the others are flags as they are.
pub record Config : Type 0 where
  pub secret_hex : Bytes
  pub fake_tls_domain : Bytes
  pub targets : Targets
  pub fallback_cf_proxy : Bool
  pub fallback_cf_proxy_priority : Bool
  pub cf_proxy_user_domain : Bool
  pub cf_proxy_refresh : Bool
  pub cf_proxy_domains_url : Bytes
  pub buf_kb : ℕ
  pub pool_size : ℕ
  pub max_conns : ℕ
  pub log_backups : ℕ
  pub cf_state : CfState

abbrev pub is_blank : Bytes → Bool
is_blank text = length (trim is_space text) == 0

-- The statements on *secret.
unfoldable pub read_secret : Flags → Option Bytes → Result Bytes
read_secret f rand_read = do
  linked ← check (not (f.print_link && length f.secret == 0)) print_link_without_secret
  secret ←
      if length f.secret == 0
      then or_error rand_read no_random >>= (λ b. ok (hex_encode b))
      else ok f.secret
  sized ← check (length secret == 32) secret_length
  hex ← check (hex_decodes secret) secret_hex
  ok secret

-- defaultPool, as its first address and the others.
unfoldable pub read_default_pool : (Bytes → Bool) → Flags → Result (Bytes × List Bytes)
read_default_pool parse_ip f = do
  let ip = trim is_space f.dc_ip_default
  valid ← check (parse_ip ip) default_ip
  if is_blank f.dc_ip_default_pool
      then ok (ip, [])
      else or_error (parse_ip_csv parse_ip f.dc_ip_default_pool) default_pool

unfoldable pub read_targets : (Bytes → Bool) → (Bytes → Option ℤ) → Flags → Result Targets
read_targets parse_ip atoi f = do
  pool ← read_default_pool parse_ip f
  single ← add_dc_ips parse_ip atoi (default_targets pool) f.dc_ips
  add_dc_ip_pools parse_ip atoi single f.dc_ip_pools

abbrev pub contains_byte : ℕ → Bytes → Bool
contains_byte b [] = false
contains_byte b (c ∷ cs) = c == b || contains_byte b cs

-- `if userDomainProvided { ... }`.
unfoldable pub fixed_domain : Domain → Result (List Domain)
fixed_domain user_domain = do
  single ← check (not (contains_byte b',' user_domain)) many_domains
  given ← check (not (length user_domain == 0)) empty_domain
  ok (user_domain ∷ [])

-- domainPool.
unfoldable pub read_domain_pool : List Domain → Flags → Result (List Domain)
read_domain_pool defaults f = do
  let user_pool_provided = not (is_blank f.cfproxy_domains)
  let user_domain = normalize_cf_proxy_domain f.cfproxy_domain
  one_flag ← check (not (user_pool_provided && f.user_domain_provided)) both_domain_flags
  pool ←
      if user_pool_provided
      then or_error (parse_cf_proxy_domain_csv f.cfproxy_domains) domain_pool
      else ok defaults
  if f.user_domain_provided
      then fixed_domain user_domain
      else if not user_pool_provided && not (length user_domain == 0)
      then ok (append_unique_domains pool (user_domain ∷ []))
      else ok pool

unfoldable pub read_fake_tls_domain : Flags → Result Bytes
read_fake_tls_domain f = do
  let domain = normalize_cf_proxy_domain f.fake_tls_domain
  likely ← check (length domain == 0 || is_likely_domain domain) fake_tls_domain
  ok domain

unfoldable pub read_worker_domains : Flags → Result (List Domain)
read_worker_domains f =
    if is_blank f.cfproxy_worker_domains
    then ok []
    else or_error (parse_cf_proxy_domain_csv f.cfproxy_worker_domains) worker_domains

-- The domain state before setCFProxyDomains.
abbrev pub new_cf_state : List Domain → CfState
new_cf_state workers = record {
  domains = [];
  worker_domains = workers;
  active = [];
  per_dc_active = no_entries;
  last_domain = [];
  fail_until = no_entries;
  worker_fail_until = no_entries;
  fallback_dials = no_entries;
}

module _ (parse_ip : Bytes → Bool) (atoi : Bytes → Option ℤ) (defaults : List Domain)
    (draw : List Domain → ℕ → Domain) where
  unfoldable pub parse_flags : Flags → Option Bytes → Result Config
  parse_flags f rand_read = do
    secret ← read_secret f rand_read
    targets ← read_targets parse_ip atoi f
    pool ← read_domain_pool defaults f
    masking ← read_fake_tls_domain f
    workers ← read_worker_domains f
    ok (record {
      secret_hex = secret;
      fake_tls_domain = masking;
      targets = targets;
      fallback_cf_proxy = not f.no_cfproxy;
      fallback_cf_proxy_priority = f.cfproxy_priority;
      cf_proxy_user_domain =
          (f.user_domain_provided && not (length (normalize_cf_proxy_domain f.cfproxy_domain) == 0))
          || not (is_blank f.cfproxy_domains);
      cf_proxy_refresh = not f.no_cfproxy_domain_refresh;
      cf_proxy_domains_url = trim is_space f.cfproxy_domains_url;
      buf_kb = max_int f.buf_kb 4;
      pool_size = max_int f.pool_size 0;
      max_conns = max_int f.max_conns 1;
      log_backups = max_int f.log_backups 0;
      cf_state = set_cf_proxy_domains (new_cf_state workers) defaults pool draw;
    })
