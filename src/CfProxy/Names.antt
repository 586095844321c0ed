-- ===== src/CfProxy/Names.antt =====
-- src/cfproxy_domains.go: normalizeCFProxyDomain, appendUniqueDomains, isLikelyDomain. A domain is
-- the list of its bytes, and all texts are ASCII: TrimSpace and ToLower treat no other letters here.
use tg_ws_proxy_go.Base.{
  ℕ, ◌+◌, ◌≡◌, inl, inr, refl, ap, List, [], ◌∷◌, ◌++◌, Bool, true, false, not, ◌||◌, ◌&&◌, arith,
  Bytes, ltb, leb, ◌==◌, if◌then◌else◌, length, bytes_equal, bytes_equal→eq, Bool-cases,
}

abbrev pub Domain : Type 0
Domain = Bytes

module _ (p : ℕ → Bool) where
  unfoldable pub trim_left : Bytes → Bytes
  trim_left [] = []
  trim_left (c ∷ cs) = if p c then trim_left cs else c ∷ cs

  unfoldable pub trim_right : Bytes → Bytes
  trim_right [] = []
  trim_right (c ∷ cs) = let rest = trim_right cs in if p c && length rest == 0 then [] else c ∷ rest

  unfoldable pub trim : Bytes → Bytes
  trim b = trim_right (trim_left b)

-- The white space of ASCII.
unfoldable pub is_space : ℕ → Bool
is_space c = c == 0x20 || (leb 0x09 c && leb c 0x0d)

abbrev pub is_dot : ℕ → Bool
is_dot c = c == b'.'

unfoldable pub to_lower : ℕ → ℕ
to_lower c = if leb b'A' c && leb c b'Z' then c + 32 else c

unfoldable pub lower : Bytes → Bytes
lower [] = []
lower (c ∷ cs) = to_lower c ∷ lower cs

unfoldable pub normalize_cf_proxy_domain : Bytes → Domain
normalize_cf_proxy_domain raw = lower (trim is_dot (trim is_space raw))

-- `for _, existing := range dst { if existing == normalized ... }`.
unfoldable pub contains : List Domain → Domain → Bool
contains [] domain = false
contains (x ∷ xs) domain = bytes_equal x domain || contains xs domain

-- One round of appendUniqueDomains, on the normalised domain.
unfoldable pub append_unique : List Domain → Domain → List Domain
append_unique dst domain =
    if length domain == 0 then dst else if contains dst domain then dst else dst ++ domain ∷ []

unfoldable pub append_unique_domains : List Domain → List Bytes → List Domain
append_unique_domains dst [] = dst
append_unique_domains dst (domain ∷ domains) =
    append_unique_domains (append_unique dst (normalize_cf_proxy_domain domain)) domains

unfoldable pub is_name_char : ℕ → Bool
is_name_char c = (leb b'a' c && leb c b'z') || (leb b'0' c && leb c b'9') || c == b'-'

unfoldable pub is_likely_domain : Domain → Bool
is_likely_domain domain = not (ltb (length domain) 3) && has_dot domain && all_likely domain
  where
    has_dot : Domain → Bool
    has_dot [] = false
    has_dot (c ∷ cs) = is_dot c || has_dot cs

    all_likely : Domain → Bool
    all_likely [] = true
    all_likely (c ∷ cs) = (is_name_char c || is_dot c) && all_likely cs

-- No domain stands twice.
abbrev pub Distinct : List Domain → Type 0
Distinct [] = Unit {0}
Distinct (x ∷ xs) = (contains xs x ≡ false) × Distinct xs

pub contains-append :
    (xs ys : List Domain) (x : Domain) → contains (xs ++ ys) x ≡ contains xs x || contains ys x
unfolding contains
contains-append [] ys x = refl
contains-append (y ∷ xs) ys x = ground (arith, contains-append xs ys x)

pub bytes_equal_comm : (x y : Domain) → bytes_equal x y ≡ bytes_equal y x
bytes_equal_comm [] [] = refl
bytes_equal_comm [] (y ∷ ys) = refl
bytes_equal_comm (x ∷ xs) [] = refl
bytes_equal_comm (x ∷ xs) (y ∷ ys) = ground (arith, bytes_equal_comm xs ys)

pub Distinct-snoc :
    (xs : List Domain) (x : Domain) → Distinct xs → contains xs x ≡ false → Distinct (xs ++ x ∷ [])
unfolding contains
Distinct-snoc [] x h k = (refl, tt)
Distinct-snoc (y ∷ xs) x h k =
    ground (arith, Distinct-snoc xs x h.1, contains-append xs (x ∷ []) y, bytes_equal_comm x y, h.0)

append_unique-Distinct :
    (dst : List Domain) (x : Domain) → Distinct dst → Distinct (append_unique dst x)
unfolding append_unique
append_unique-Distinct dst x h = ground (arith, Distinct-snoc dst x h, h)

contains-append_unique :
    (dst : List Domain) (x y : Domain)
    → contains (append_unique dst x) y ≡ contains dst y || (not (length x == 0) && bytes_equal x y)
unfolding append_unique contains
contains-append_unique dst x y = elim (Bool-cases (bytes_equal x y)) [
  | inl e ↦
      let same = ap (contains dst) (bytes_equal→eq x y e) in
      ground (arith, contains-append dst (x ∷ []) y, same)
  | inr e ↦ ground (arith, contains-append dst (x ∷ []) y)
]

-- Some of the texts stands, normalised and not empty, for the domain.
abbrev pub offers : List Bytes → Domain → Bool
offers [] y = false
offers (raw ∷ raws) y =
    (not (length (normalize_cf_proxy_domain raw) == 0)
      && bytes_equal (normalize_cf_proxy_domain raw) y)
    || offers raws y

-- Texts added to a pool without doubles: no domain stands twice, what was there stays, and
-- exactly the normalised texts that are not empty are added.
pub append_unique_domains_lem :
    (dst : List Domain) (raws : List Bytes) (y : Domain)
    → Distinct dst
    → Distinct (append_unique_domains dst raws)
      × (contains (append_unique_domains dst raws) y ≡ contains dst y || offers raws y)
unfolding append_unique_domains
append_unique_domains_lem dst [] y h = (h, ground arith)
append_unique_domains_lem dst (raw ∷ raws) y h =
    let x = normalize_cf_proxy_domain raw in
    let later =
      append_unique_domains_lem (append_unique dst x) raws y (append_unique-Distinct dst x h) in
    (later.0, ground (arith, later.1, contains-append_unique dst x y))
