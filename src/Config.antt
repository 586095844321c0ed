-- ===== src/Config.antt =====
-- src/config.go, parseFlags: from the values of the flags to the configuration. The package flag, which
-- parses the arguments, gives the record Flags; net.ParseIP, strconv.Atoi and crypto/rand are
-- parameters. Texts are ASCII; an error is the place of its return.
pub mod Targets
pub mod Parse
pub mod Pools
pub mod Valid
mod Tests
use tg_ws_proxy_go.Base.{
  ℕ, ℤ, pos, negsuc, ◌+◌, ◌/◌, ◌%◌, List, [], ◌∷◌, ◌++◌, Bool, true, false, not, ◌||◌, ◌&&◌, Option,
  none, some, Bytes, leb, ltb, ◌==◌, if◌then◌else◌, max, length, GoMap, ℕ_discrete, read_or,
}

pub int_discrete : Discrete ℤ
int_discrete = hlevel ℕ_discrete

pub data ConfigError : Type 0 where
  print_link_without_secret no_random secret_length secret_hex : ConfigError
  default_ip default_pool dc_ip dc_ip_number dc_ip_address : ConfigError
  dc_ip_pool dc_ip_pool_number dc_ip_pool_addresses : ConfigError
  both_domain_flags domain_pool many_domains empty_domain fake_tls_domain worker_domains :
      ConfigError

pub data Result {ℓ} (A : Type ℓ) : Type ℓ where
  ok : A → Result A
  error : ConfigError → Result A

infixl 5 ◌>>=◌
abbrev pub ◌>>=◌ {ℓ κ} : {A : Type ℓ} {B : Type κ} → Result A → (A → Result B) → Result B
ok a >>= f = f a
error e >>= f = error e

-- `if err != nil { return nil, ... }` on a result of another function.
abbrev pub or_error {ℓ} : {A : Type ℓ} → Option A → ConfigError → Result A
or_error none e = error e
or_error (some a) e = ok a

abbrev pub check : Bool → ConfigError → Result (Unit {0})
check true e = ok tt
check false e = error e

-- The values of the flags; `user_domain_provided` is provided["cfproxy-domain"].
pub record Flags : Type 0 where
  pub secret : Bytes
  pub gen_secret : Bool
  pub print_link : Bool
  pub buf_kb : ℤ
  pub pool_size : ℤ
  pub max_conns : ℤ
  pub log_backups : ℤ
  pub fake_tls_domain : Bytes
  pub cfproxy_domain : Bytes
  pub user_domain_provided : Bool
  pub cfproxy_domains : Bytes
  pub cfproxy_worker_domains : Bytes
  pub no_cfproxy : Bool
  pub cfproxy_priority : Bool
  pub no_cfproxy_domain_refresh : Bool
  pub cfproxy_domains_url : Bytes
  pub dc_ip_default : Bytes
  pub dc_ip_default_pool : Bytes
  pub dc_ips : List Bytes
  pub dc_ip_pools : List Bytes

-- maxInt against a bound that is not negative.
unfoldable pub max_int : ℤ → ℕ → ℕ
max_int (pos a) b = if ltb b a then a else b
max_int (negsuc a) b = b

-- encoding/hex: EncodeToString, and whether DecodeString succeeds.
abbrev pub hex_digit : ℕ → ℕ
hex_digit n = if ltb n 10 then 48 + n else 87 + n

unfoldable pub hex_encode : Bytes → Bytes
hex_encode [] = []
hex_encode (b ∷ bs) = hex_digit (b / 16) ∷ hex_digit (b % 16) ∷ hex_encode bs

unfoldable pub is_hex_digit : ℕ → Bool
is_hex_digit c =
    (leb b'0' c && leb c b'9') || (leb b'a' c && leb c b'f') || (leb b'A' c && leb c b'F')

unfoldable pub all_hex_digits : Bytes → Bool
all_hex_digits [] = true
all_hex_digits (c ∷ cs) = is_hex_digit c && all_hex_digits cs

unfoldable pub hex_decodes : Bytes → Bool
hex_decodes b = length b % 2 == 0 && all_hex_digits b

-- strings.SplitN(item, ":", 2), where it has two parts.
unfoldable pub cut : ℕ → Bytes → Option (Bytes × Bytes)
cut sep [] = none
cut sep (c ∷ cs) =
    if c == sep
    then some ([], cs)
    else elim (cut sep cs) [ none ↦ none | some (before, after) ↦ some (c ∷ before, after) ]
