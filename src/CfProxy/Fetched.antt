-- ===== src/CfProxy/Fetched.antt =====
-- src/cfproxy_domains.go: what the pools are that fetchCFProxyDomains and parseCFProxyDomainCSV answer,
-- and how decodeCFProxyDomain undoes the shift of the letters of a published name.
use tg_ws_proxy_go.Base.{
  leb, ℕ, ◌+◌, ◌-◌, ◌%◌, ◌≤◌, ◌≡◌, refl, ap, subst, ◌∙◌, inl, inr, List, [], ◌∷◌, ◌++◌, Bool, true,
  false, not, ◌||◌, ◌&&◌, none, some, arith, Bytes, ◌==◌, if◌then◌else◌, length, take, drop,
  bytes_equal, bytes_equal→eq, Bool-cases, length-append, take-length_append, drop-length_append,
}
use tg_ws_proxy_go.CfProxy.Names.{
  Domain, trim, is_space, contains, normalize_cf_proxy_domain, append_unique_domains, append_unique,
  trim_left, trim_right, lower, append_unique_domains_lem, is_likely_domain, offers, Distinct,
}
use tg_ws_proxy_go.CfProxy.Fetch.{
  split_by, has_prefix, has_suffix, is_lower, dot_com, dot_co_uk, letters, shift_back, decode_base,
  decode_cf_proxy_domain, is_valid_name, is_valid_cf_proxy_domain, take_line, take_lines,
  fetched_cf_proxy_domains, parse_parts, parse_cf_proxy_domain_csv,
}

-- A pool without doubles, of valid names only.
abbrev AllValid : List Domain → Type 0
AllValid pool = Distinct pool × ((y : Domain) → contains pool y ≡ true → is_valid_name y ≡ true)

append-AllValid :
    (pool : List Domain) (domain : Bytes)
    → is_valid_cf_proxy_domain domain ≡ true
    → AllValid pool
    → AllValid (append_unique_domains pool (domain ∷ []))
append-AllValid pool domain v h = (
  (append_unique_domains_lem pool (domain ∷ []) [] h.0).0,
  λ y e.
      let x = normalize_cf_proxy_domain domain in
      let added = (append_unique_domains_lem pool (domain ∷ []) y h.0).1 in
      elim (Bool-cases (bytes_equal x y)) [
        | inl k ↦ subst (λ z. is_valid_name z ≡ true) (bytes_equal→eq x y k) v
        | inr k ↦ h.1 y (ground (arith, added, e, k))
      ],
)

take_line-AllValid :
    (pool : List Domain) (raw : Bytes) → AllValid pool → AllValid (take_line pool raw)
unfolding take_line
take_line-AllValid pool raw h =
    let domain = decode_cf_proxy_domain (trim is_space raw) in
    let skipped = length (trim is_space raw) == 0 || has_prefix (trim is_space raw) (b'#' ∷ []) in
    elim (Bool-cases skipped) [
      | inl e ↦ rw (e) h
      | inr e ↦ rw (e) (elim (Bool-cases (is_valid_cf_proxy_domain domain)) [
        | inl v ↦ rw (v) (append-AllValid pool domain v h)
        | inr v ↦ rw (v) h
      ])
    ]

take_lines-AllValid :
    (pool : List Domain) (lines : List Bytes) → AllValid pool → AllValid (take_lines pool lines)
unfolding take_lines
take_lines-AllValid pool [] h = h
take_lines-AllValid pool (line ∷ lines) h =
    take_lines-AllValid (take_line pool line) lines (take_line-AllValid pool line h)

nil-AllValid : AllValid []
unfolding contains
nil-AllValid = (tt, λ y e. ground arith)

-- Whatever the answer's body is: a pool that is made of it has no domain twice, at least three, and
-- none that fails the checks of isValidCFProxyDomain.
pub fetched_cf_proxy_domains-valid :
    (body : Bytes) (pool : List Domain) (y : Domain)
    → fetched_cf_proxy_domains body ≡ some pool
    → Distinct pool × (3 ≤ length pool) × (contains pool y && not (is_valid_name y) ≡ false)
unfolding fetched_cf_proxy_domains
fetched_cf_proxy_domains-valid body pool y h =
    let made = take_lines [] (split_by 10 body) in
    let valid : AllValid made = take_lines-AllValid [] (split_by 10 body) nil-AllValid in
    let enough : 3 ≤ length made = ground (arith, h) in
    let same : made ≡ pool = ground (arith, h) in
    let checked : contains made y && not (is_valid_name y) ≡ false =
      elim (Bool-cases (contains made y)) [
        | inl e ↦ ground (arith, valid.1 y e)
        | inr e ↦ ground arith
      ] in
    subst (λ p. Distinct p × (3 ≤ length p) × (contains p y && not (is_valid_name y) ≡ false)) same
      (valid.0, enough, checked)

-- The letters of a name moved forward by their number, as the published list has them.
abbrev pub shift_forward : ℕ → ℕ → ℕ
shift_forward n c = (c - b'a' + n) % 26

abbrev pub encode_base : ℕ → Bytes → Bytes
encode_base n [] = []
encode_base n (c ∷ cs) =
    (if leb 97 c && leb c 122 then b'a' + shift_forward n c else c) ∷ encode_base n cs

shift_back-shift_forward :
    (n c : ℕ) → is_lower c ≡ true → b'a' + shift_back n (b'a' + shift_forward n c) ≡ c
unfolding shift_back
shift_back-shift_forward n c h = ground arith

letters-encode_base : (n : ℕ) (b : Bytes) → letters (encode_base n b) ≡ letters b
unfolding letters
letters-encode_base n [] = refl
letters-encode_base n (c ∷ cs) = ground (arith, letters-encode_base n cs)

decode_base-encode_base : (n : ℕ) (b : Bytes) → decode_base n (encode_base n b) ≡ b
unfolding decode_base
decode_base-encode_base n [] = refl
decode_base-encode_base n (c ∷ cs) =
    ground (arith, decode_base-encode_base n cs, shift_back-shift_forward n c)

decode_suffix :
    (b : Bytes) (s : Domain)
    → s ≡ b ++ dot_com
    → (has_suffix s dot_com ≡ true) × (take (length s - length dot_com) s ≡ b)
unfolding has_suffix
decode_suffix b s e =
    let whole : length s ≡ length b + 4 = ap length e ∙ length-append b dot_com in
    let n : length s - 4 ≡ length b = omega (arith, whole) in
    let suffix : drop (length s - 4) s ≡ dot_com = rw (n, e) (drop-length_append b dot_com) in
    (
      ground (arith, whole, ap (λ z. bytes_equal z dot_com) suffix),
      rw (n, e) (take-length_append b dot_com),
    )

-- The characters from a to z.
abbrev pub small_letters : Bytes → Bytes
small_letters [] = []
small_letters (c ∷ cs) = if leb 97 c && leb c 122 then c ∷ small_letters cs else small_letters cs

letters-small_letters : (b : Bytes) → letters b ≡ length (small_letters b)
unfolding letters
letters-small_letters [] = refl
letters-small_letters (c ∷ cs) = ground (arith, letters-small_letters cs)

-- A published name ends in .com, and before that the letters from a to z of `base` are moved forward in the
-- alphabet by their number in `base`, while all else stays; it is decoded to `base` with .co.uk.
pub decode_cf_proxy_domain-encode_base :
    (raw base : Bytes)
    → normalize_cf_proxy_domain raw ≡ encode_base (length (small_letters base)) base ++ dot_com
    → decode_cf_proxy_domain raw ≡ base ++ dot_co_uk
unfolding decode_cf_proxy_domain
decode_cf_proxy_domain-encode_base raw base e =
    let n = length (small_letters base) in
    let s = decode_suffix (encode_base n base) (normalize_cf_proxy_domain raw) e in
    rw
      (
        s.0,
        s.1,
        letters-encode_base n base ∙ letters-small_letters base,
        decode_base-encode_base n base,
      )
      refl

-- The parts that are not blank are likely domains.
abbrev pub accepted : List Bytes → Bool
accepted [] = true
accepted (part ∷ parts) =
    (length (normalize_cf_proxy_domain part) == 0
      || is_likely_domain (normalize_cf_proxy_domain part))
    && accepted parts

abbrev pub normalized : List Bytes → List Bytes
normalized [] = []
normalized (part ∷ parts) = normalize_cf_proxy_domain part ∷ normalized parts

append-blank :
    (out : List Domain) (x : Bytes)
    → length x == 0 ≡ true
    → append_unique_domains out (x ∷ []) ≡ out
unfolding append_unique_domains append_unique normalize_cf_proxy_domain trim trim_left trim_right
    lower
append-blank out [] e = refl
append-blank out (c ∷ cs) e = ground arith

append-both :
    (out : List Domain) (x : Bytes) (xs : List Bytes)
    → append_unique_domains (append_unique_domains out (x ∷ [])) xs
      ≡ append_unique_domains out (x ∷ xs)
unfolding append_unique_domains
append-both out x xs = refl

parse_parts_lem :
    (out : List Domain) (parts : List Bytes)
    → parse_parts out parts
      ≡ (if accepted parts then some (append_unique_domains out (normalized parts)) else none)
unfolding parse_parts
parse_parts_lem out [] = unfold append_unique_domains in refl
parse_parts_lem out (part ∷ parts) =
    let x = normalize_cf_proxy_domain part in
    let both = append-both out x (normalized parts) in
    elim (Bool-cases (length x == 0)) [
      | inl e ↦ ground (
        arith,
        e,
        parse_parts_lem out parts,
        both,
        ap (λ l. append_unique_domains l (normalized parts)) (append-blank out x e),
      )
      | inr e ↦ ground (arith, e, both, parse_parts_lem (append_unique_domains out (x ∷ [])) parts)
    ]

no_domains : (y : Domain) → contains [] y ≡ false
unfolding contains
no_domains y = refl

-- The domains that a user gives, separated by commas: an error exactly where a part is neither blank
-- nor a likely domain or where all are blank, else a pool without doubles of exactly the parts that
-- are not blank.
pub parse_cf_proxy_domain_csv_lem :
    (raw : Bytes) (y : Domain)
    → let parts = split_by b',' raw in
      let pool = append_unique_domains [] (normalized parts) in
      (parse_cf_proxy_domain_csv raw
        ≡ (if accepted parts && not (length pool == 0) then some pool else none))
      × Distinct pool
      × (contains pool y ≡ offers (normalized parts) y)
unfolding parse_cf_proxy_domain_csv
parse_cf_proxy_domain_csv_lem raw y =
    let parts = split_by b',' raw in
    let made = append_unique_domains_lem [] (normalized parts) y tt in
    (
      rw (parse_parts_lem [] parts) (ground arith),
      made.0,
      made.1 ∙ ap (λ b. b || offers (normalized parts) y) (no_domains y),
    )
