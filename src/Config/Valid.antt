-- ===== src/Config/Valid.antt =====
-- What parseFlags (src/config.go) promises of a configuration that it returns, and when parseIPCSV refuses.
use tg_ws_proxy_go.Base.{
  ℕ, ℤ, pos, negsuc, ◌≤◌, ◌%◌, List, [], ◌∷◌, Bool, true, false, not, ◌||◌, ◌&&◌, Option, none,
  some, Bytes, ◌==◌, length-append, if◌then◌else◌, length, ◌≡◌, refl, subst, ==_iff, arith,
}
use tg_ws_proxy_go.CfProxy.Names.{
  Domain, trim, is_space, contains, Distinct, normalize_cf_proxy_domain, is_likely_domain,
}
use tg_ws_proxy_go.CfProxy.Fetch.{split_by}
use tg_ws_proxy_go.CfProxy.Pool.{IsPool, set_cf_proxy_domains-IsPool}
use tg_ws_proxy_go.Config.{
  Flags, ok, ◌>>=◌, or_error, check, max_int, hex_encode, all_hex_digits, hex_decodes, no_random,
  print_link_without_secret, secret_length, secret_hex, fake_tls_domain,
}
use tg_ws_proxy_go.Config.Targets.{append_unique_ip, parse_ips, some_ips, parse_ip_csv}
use tg_ws_proxy_go.Config.Parse.{
  Config, read_secret, read_targets, read_domain_pool, read_fake_tls_domain, read_worker_domains,
  new_cf_state, parse_flags,
}
use tg_ws_proxy_go.Config.Pools.{bind_ok, ok_injective, check_ok, IsTargetAt, read_targets-IsTarget}

-- A configuration that the rest of the program may rely on.
pub record IsConfigured (parse_ip : Bytes → Bool) (cfg : Config) : Type 0 where
  pub secret_is_32 : length cfg.secret_hex ≡ 32
  pub secret_is_hex : all_hex_digits cfg.secret_hex ≡ true
  pub each_target : (dc : ℤ) → IsTargetAt parse_ip cfg.targets dc
  pub masking : (length cfg.fake_tls_domain == 0 || is_likely_domain cfg.fake_tls_domain) ≡ true
  pub buffers : 4 ≤ cfg.buf_kb
  pub conns : 1 ≤ cfg.max_conns
  pub pool : IsPool cfg.cf_state

max_int-bound : (a : ℤ) (b : ℕ) → b ≤ max_int a b
unfolding max_int
max_int-bound (pos a) b = ground arith
max_int-bound (negsuc a) b = omega arith

read_secret-hex :
    (f : Flags) (rand_read : Option Bytes) (secret : Bytes)
    → read_secret f rand_read ≡ ok secret
    → (length secret ≡ 32) × (all_hex_digits secret ≡ true)
unfolding read_secret hex_decodes
read_secret-hex f rand_read secret e =
    let (u, l, e₁) =
      bind_ok (check (not (f.print_link && length f.secret == 0)) print_link_without_secret) _
        secret e in
    let (s, d, e₂) =
      bind_ok
        (if length f.secret == 0
          then or_error rand_read no_random >>= (λ b. ok (hex_encode b))
          else ok f.secret)
        _ secret e₁ in
    let (v, n, e₃) = bind_ok (check (length s == 32) secret_length) _ secret e₂ in
    let (w, h, e₄) = bind_ok (check (hex_decodes s) secret_hex) _ secret e₃ in
    subst (λ t. (length t ≡ 32) × (all_hex_digits t ≡ true)) (ok_injective s secret e₄)
      (
        (==_iff (length s) 32).0 (check_ok (length s == 32) secret_length v n),
        and_right (length s % 2 == 0) (all_hex_digits s) (check_ok (hex_decodes s) secret_hex w h),
      )
  where
    and_right : (a b : Bool) → (a && b) ≡ true → b ≡ true
    and_right a b h = ground arith

read_fake_tls_domain-likely :
    (f : Flags) (domain : Bytes)
    → read_fake_tls_domain f ≡ ok domain
    → (length domain == 0 || is_likely_domain domain) ≡ true
unfolding read_fake_tls_domain
read_fake_tls_domain-likely f domain e =
    let d = normalize_cf_proxy_domain f.fake_tls_domain in
    let (u, l, e₁) =
      bind_ok (check (length d == 0 || is_likely_domain d) fake_tls_domain) _ domain e in
    subst (λ t. (length t == 0 || is_likely_domain t) ≡ true) (ok_injective d domain e₁)
      (check_ok (length d == 0 || is_likely_domain d) fake_tls_domain u l)

module _ (parse_ip : Bytes → Bool) (atoi : Bytes → Option ℤ) (defaults : List Domain)
    (draw : List Domain → ℕ → Domain) where
  -- Where the default domains are not empty and have no doubles, and the draw picks from its pool: whatever
  -- flags parseFlags accepts, the secret is 32 hexadecimal digits; each data centre has either no
  -- target, or a pool of different valid addresses whose first is its entry in DCMap; the masking
  -- domain is empty or likely; buffers are of 4 KB at least and one client at least is allowed; and the
  -- domain pool has no doubles and holds every active domain.
  pub parse_flags-IsConfigured :
      (f : Flags) (rand_read : Option Bytes) (cfg : Config)
      → Distinct defaults
      → length defaults == 0 ≡ false
      → ((pool : List Domain) (i : ℕ)
          → length pool == 0 ≡ false
          → contains pool (draw pool i) ≡ true)
      → parse_flags parse_ip atoi defaults draw f rand_read ≡ ok cfg
      → IsConfigured parse_ip cfg
  unfolding parse_flags
  parse_flags-IsConfigured f rand_read cfg distinct full picks e =
      let (secret, s, e₁) = bind_ok (read_secret f rand_read) _ cfg e in
      let (targets, t, e₂) = bind_ok (read_targets parse_ip atoi f) _ cfg e₁ in
      let (pool, p, e₃) = bind_ok (read_domain_pool defaults f) _ cfg e₂ in
      let (masking, m, e₄) = bind_ok (read_fake_tls_domain f) _ cfg e₃ in
      let (workers, w, e₅) = bind_ok (read_worker_domains f) _ cfg e₄ in
      let hex = read_secret-hex f rand_read secret s in
      subst (IsConfigured parse_ip) (ok_injective _ cfg e₅) (record {
        secret_is_32 = hex.0;
        secret_is_hex = hex.1;
        each_target = λ dc. read_targets-IsTarget parse_ip atoi dc f targets t;
        masking = read_fake_tls_domain-likely f masking m;
        buffers = max_int-bound f.buf_kb 4;
        conns = max_int-bound f.max_conns 1;
        pool =
            set_cf_proxy_domains-IsPool (new_cf_state workers) defaults pool draw distinct full
              picks;
      })

-- Whether each part, without the white space around it, is empty or an address; and whether some is not empty.
abbrev pub all_ips : (Bytes → Bool) → List Bytes → Bool
all_ips parse_ip [] = true
all_ips parse_ip (part ∷ parts) =
    (length (trim is_space part) == 0 || parse_ip (trim is_space part)) && all_ips parse_ip parts

abbrev pub some_ip : List Bytes → Bool
some_ip [] = false
some_ip (part ∷ parts) = not (length (trim is_space part) == 0) || some_ip parts

abbrev pub is_some : {A : Type 0} → Option A → Bool
is_some none = false
is_some (some a) = true

module _ (parse_ip : Bytes → Bool) where
  append_unique_ip-length :
      (out : List Bytes) (ip : Bytes) → (length (append_unique_ip out ip) == 0) ≡ false
  unfolding append_unique_ip contains
  append_unique_ip-length [] ip = refl
  append_unique_ip-length (x ∷ xs) ip = ground (arith, length-append (x ∷ xs) (ip ∷ []))

  parse_ips-is_some :
      (out parts : List Bytes)
      → is_some (some_ips parse_ip (parse_ips parse_ip out parts))
        ≡ all_ips parse_ip parts && (not (length out == 0) || some_ip parts)
  unfolding parse_ips
  parse_ips-is_some [] [] = refl
  parse_ips-is_some (x ∷ xs) [] = ground arith
  parse_ips-is_some out (part ∷ parts) =
      let ip = trim is_space part in
      ground (
        arith,
        parse_ips-is_some out parts,
        parse_ips-is_some (append_unique_ip out ip) parts,
        append_unique_ip-length out ip,
      )

  -- parseIPCSV refuses a text exactly if one of its parts, without the white space around it, is neither empty
  -- nor an address that net.ParseIP takes, or if all of its parts are empty.
  pub parse_ip_csv-is_some :
      (raw : Bytes)
      → is_some (parse_ip_csv parse_ip raw)
        ≡ all_ips parse_ip (split_by b',' raw) && some_ip (split_by b',' raw)
  unfolding parse_ip_csv
  parse_ip_csv-is_some raw = parse_ips-is_some [] (split_by b',' raw)
