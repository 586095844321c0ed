-- ===== src/CfProxy/Fetch.antt =====
-- src/cfproxy_domains.go: where the domains come from: parseCFProxyDomainCSV, defaultCFProxyDomains,
-- decodeCFProxyDomain, isValidCFProxyDomain and the loop of fetchCFProxyDomains over the body of the
-- answer. The HTTP request itself is not modelled. All texts are ASCII, as in Names.
use tg_ws_proxy_go.Base.{
  ℕ, suc, ◌+◌, ◌-◌, ◌%◌, List, [], ◌∷◌, ◌++◌, Bool, true, false, not, ◌||◌, ◌&&◌, Option, none,
  some, Bytes, ltb, leb, ◌==◌, if◌then◌else◌, length, take, drop, bytes_equal,
}
use tg_ws_proxy_go.CfProxy.Names.{
  Domain, trim, is_space, normalize_cf_proxy_domain, append_unique_domains, is_likely_domain,
  is_name_char,
}

abbrev pub default_cf_proxy_refresh_min_valid_domains : ℕ
default_cf_proxy_refresh_min_valid_domains = 3

-- strings.Split by a byte: the part before the first one, and the parts behind it.
unfoldable pub split_first : ℕ → Bytes → Bytes × List Bytes
split_first sep [] = ([], [])
split_first sep (c ∷ cs) =
    let (part, parts) = split_first sep cs in
    if c == sep then ([], part ∷ parts) else (c ∷ part, parts)

unfoldable pub split_by : ℕ → Bytes → List Bytes
split_by sep b = let (part, parts) = split_first sep b in part ∷ parts

unfoldable pub has_prefix : Bytes → Bytes → Bool
has_prefix b p = bytes_equal (take (length p) b) p

unfoldable pub has_suffix : Bytes → Bytes → Bool
has_suffix b s = leb (length s) (length b) && bytes_equal (drop (length b - length s) b) s

abbrev pub is_lower : ℕ → Bool
is_lower c = leb b'a' c && leb c b'z'

abbrev pub dot_com : Bytes
dot_com = b'.' ∷ b'c' ∷ b'o' ∷ b'm' ∷ []

abbrev pub dot_co_uk : Bytes
dot_co_uk = b'.' ∷ b'c' ∷ b'o' ∷ b'.' ∷ b'u' ∷ b'k' ∷ []

-- The loop that counts letters.
unfoldable pub letters : Bytes → ℕ
letters [] = 0
letters (c ∷ cs) = let rest = letters cs in if is_lower c then suc rest else rest

-- `((shift % 26) + 26) % 26` for shift = c - 'a' - letters: the remainder of Go takes the sign of the
-- dividend.
unfoldable pub shift_back : ℕ → ℕ → ℕ
shift_back n c =
    let x = c - b'a' in if leb n x then ((x - n) % 26 + 26) % 26 else (26 - (n - x) % 26) % 26

unfoldable pub decode_base : ℕ → Bytes → Bytes
decode_base n [] = []
decode_base n (c ∷ cs) = (if is_lower c then b'a' + shift_back n c else c) ∷ decode_base n cs

unfoldable pub decode_cf_proxy_domain : Bytes → Domain
decode_cf_proxy_domain raw =
    let s = normalize_cf_proxy_domain raw in
    let base = take (length s - length dot_com) s in
    if has_suffix s dot_com then decode_base (letters base) base ++ dot_co_uk else s

-- One label of isValidCFProxyDomain.
unfoldable pub is_label : Bytes → Bool
is_label label =
    not (length label == 0)
    && leb (length label) 63
    && not (has_prefix label (b'-' ∷ []))
    && not (has_suffix label (b'-' ∷ []))
    && all_name label
  where
    all_name : Bytes → Bool
    all_name [] = true
    all_name (c ∷ cs) = is_name_char c && all_name cs

unfoldable pub all_labels : List Bytes → Bool
all_labels [] = true
all_labels (label ∷ labels) = is_label label && all_labels labels

-- The checks of the last label.
unfoldable pub is_tld : List Bytes → Bool
is_tld [] = false
is_tld (tld ∷ []) = leb 2 (length tld) && not (letters tld == 0)
is_tld (_ ∷ label ∷ labels) = is_tld (label ∷ labels)

-- isValidCFProxyDomain behind its normalisation.
unfoldable pub is_valid_name : Domain → Bool
is_valid_name d =
    let labels = split_by b'.' d in
    not
      (length d == 0 || ltb 253 (length d) || has_prefix d (b'.' ∷ []) || has_suffix d (b'.' ∷ []))
    && leb 2 (length labels)
    && all_labels labels
    && is_tld labels

abbrev pub is_valid_cf_proxy_domain : Bytes → Bool
is_valid_cf_proxy_domain domain = is_valid_name (normalize_cf_proxy_domain domain)

-- One line of the body.
unfoldable pub take_line : List Domain → Bytes → List Domain
take_line pool raw =
    let line = trim is_space raw in
    let domain = decode_cf_proxy_domain line in
    if length line == 0 || has_prefix line (b'#' ∷ [])
    then pool
    else if not (is_valid_cf_proxy_domain domain)
    then pool
    else append_unique_domains pool (domain ∷ [])

unfoldable pub take_lines : List Domain → List Bytes → List Domain
take_lines pool [] = pool
take_lines pool (line ∷ lines) = take_lines (take_line pool line) lines

-- The end of fetchCFProxyDomains, from the body.
unfoldable pub fetched_cf_proxy_domains : Bytes → Option (List Domain)
fetched_cf_proxy_domains body =
    let pool = take_lines [] (split_by 10 body) in
    if ltb (length pool) default_cf_proxy_refresh_min_valid_domains then none else some pool

-- The loop of parseCFProxyDomainCSV; `none` is its error.
unfoldable pub parse_parts : List Domain → List Bytes → Option (List Domain)
parse_parts out [] = some out
parse_parts out (part ∷ parts) =
    let domain = normalize_cf_proxy_domain part in
    let skipped = parse_parts out parts in
    let taken = parse_parts (append_unique_domains out (domain ∷ [])) parts in
    if length domain == 0 then skipped else if is_likely_domain domain then taken else none

-- `if len(out) == 0 { return nil, ... }`.
abbrev pub some_domains : Option (List Domain) → Option (List Domain)
some_domains none = none
some_domains (some out) = if length out == 0 then none else some out

unfoldable pub parse_cf_proxy_domain_csv : Bytes → Option (List Domain)
parse_cf_proxy_domain_csv raw = some_domains (parse_parts [] (split_by b',' raw))

-- defaultCFProxyDomains, over the texts of cfProxyDefaultDomainPool.
unfoldable pub default_loop : List Domain → List Bytes → List Domain
default_loop out [] = out
default_loop out (domain ∷ domains) =
    let normalized = normalize_cf_proxy_domain (decode_cf_proxy_domain domain) in
    let rest = default_loop out domains in
    let taken = default_loop (append_unique_domains out (normalized ∷ [])) domains in
    if length normalized == 0 then rest else taken
