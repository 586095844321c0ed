-- ===== src/Config/Tests.antt =====
-- parseFlags on flags with a default target and one target of its own; an address is one that has a dot.
use tg_ws_proxy_go.Base.{
  ℕ, ℤ, pos, negsuc, ◌≡◌, refl, List, [], ◌∷◌, Bool, true, false, ◌||◌, Option, none, some, Bytes,
  codes, ◌==◌, ◌&&◌, replicate, length, bytes_equal_refl, arith,
}
use tg_ws_proxy_go.CfProxy.Names.{
  Domain, trim, trim_left, trim_right, is_space, contains, lower, to_lower,
  normalize_cf_proxy_domain,
}
use tg_ws_proxy_go.CfProxy.Fetch.{split_by, split_first}
use tg_ws_proxy_go.Config.{Flags, ok, cut, hex_decodes, all_hex_digits, is_hex_digit}
use tg_ws_proxy_go.Config.Targets.{
  append_unique_ip, parse_ips, parse_ip_csv, add_dc_ips, add_dc_ip_pools,
}
use tg_ws_proxy_go.Config.Parse.{
  Config, read_secret, read_default_pool, read_targets, read_domain_pool, fixed_domain,
  read_fake_tls_domain, read_worker_domains, parse_flags,
}
use tg_ws_proxy_go.Config.Valid.{
  IsConfigured, parse_flags-IsConfigured, all_ips, some_ip, is_some, parse_ip_csv-is_some,
}

abbrev has_dot : Bytes → Bool
has_dot [] = false
has_dot (c ∷ cs) = c == b'.' || has_dot cs

abbrev one_digit : Bytes → Option ℤ
one_digit [] = none
one_digit (c ∷ cs) = some (pos c)

abbrev one_domain : List Domain
one_domain = codes "a.bc" ∷ []

abbrev first_of : List Domain → ℕ → Domain
first_of [] i = []
first_of (d ∷ ds) i = d

first_of-contains :
    (pool : List Domain) (i : ℕ) → length pool == 0 ≡ false → contains pool (first_of pool i) ≡ true
unfolding contains
first_of-contains [] i h = ground arith
first_of-contains (d ∷ ds) i h = ground (arith, bytes_equal_refl d)

abbrev flags : Flags
flags = record {
  secret = replicate 32 b'a';
  gen_secret = false;
  print_link = false;
  buf_kb = pos 1;
  pool_size = pos 4;
  max_conns = negsuc 0;
  log_backups = pos 0;
  fake_tls_domain = [];
  cfproxy_domain = codes "d.ef";
  user_domain_provided = true;
  cfproxy_domains = [];
  cfproxy_worker_domains = [];
  no_cfproxy = false;
  cfproxy_priority = true;
  no_cfproxy_domain_refresh = false;
  cfproxy_domains_url = [];
  dc_ip_default = codes "1.2";
  dc_ip_default_pool = [];
  dc_ips = codes "4:3.4" ∷ [];
  dc_ip_pools = codes "2: 5.6,5.6 ,,7.8" ∷ [];
}

parsed : (cfg : Config) × (parse_flags has_dot one_digit one_domain first_of flags none ≡ ok cfg)
unfolding parse_flags read_secret hex_decodes all_hex_digits is_hex_digit read_targets
    read_default_pool parse_ip_csv trim trim_right trim_left is_space add_dc_ips cut add_dc_ip_pools
    parse_ips split_by split_first append_unique_ip contains read_domain_pool fixed_domain
    normalize_cf_proxy_domain lower to_lower read_fake_tls_domain read_worker_domains
parsed = (_, refl)

parse_flags-IsConfigured_example : IsConfigured has_dot parsed.0
unfolding contains
parse_flags-IsConfigured_example =
    parse_flags-IsConfigured has_dot one_digit one_domain first_of flags none parsed.0 (refl, tt)
      refl first_of-contains parsed.1

parse_ip_csv-is_some_example :
    is_some (parse_ip_csv has_dot (codes "1.2, ,3"))
    ≡ all_ips has_dot (split_by b',' (codes "1.2, ,3")) && some_ip (split_by b',' (codes "1.2, ,3"))
parse_ip_csv-is_some_example = parse_ip_csv-is_some has_dot (codes "1.2, ,3")
