-- ===== src/FakeTls/ClientHello.antt =====
-- src/fake_tls.go, parseFakeTLSClientHello: the cipher suites and key shares that a ClientHello
-- offers. Every index and slice of the source is a call that may panic.
use tg_ws_proxy_go.Base.{
  ℕ, zero, suc, ◌+◌, ◌-◌, ◌*◌, ◌/◌, ◌%◌, List, [], ◌∷◌, ◌++◌, Bool, true, false, not, ◌||◌, Option,
  none, some, Bytes, ltb, leb, ◌==◌, if◌then◌else◌, length,
}
use tg_ws_proxy_go.FakeTls.Records.{tls_record_handshake}
use tg_ws_proxy_go.FakeTls.Parser.{
  Parse, fault, malformed, parsed, ◌>>=◌, ◌>>◌, reject_if, index, u16, slice_from, slice_to,
}

-- The map keyShares is an association list; a nil map reads like an empty one.
pub record FakeTlsClientHelloInfo : Type 0 where
  pub cipher_suites : List ℕ
  pub key_shares : List (ℕ × ℕ)

abbrev pub empty_info : FakeTlsClientHelloInfo
empty_info = record { cipher_suites = []; key_shares = [] }

-- info.keyShares[group], and whether it is there.
abbrev pub lookup : ℕ → List (ℕ × ℕ) → Option ℕ
lookup k [] = none
lookup k ((j, v) ∷ m) = if j == k then some v else lookup k m

-- `if _, exists := info.keyShares[group]; !exists { info.keyShares[group] = keyLen }`
unfoldable pub add_share : List (ℕ × ℕ) → ℕ → ℕ → List (ℕ × ℕ)
add_share m group key_len = elim (lookup group m) [ some _ ↦ m | none ↦ m ++ (group, key_len) ∷ [] ]

-- The loop over the shares of an extension. Each round takes four bytes at least; a loop that is out
-- of fuel counts as a fault.
unfoldable pub parse_shares : ℕ → List (ℕ × ℕ) → Bytes → Parse (List (ℕ × ℕ))
parse_shares zero m shares = if length shares == 0 then parsed m else fault
parse_shares (suc fuel) m shares = elim (length shares == 0) [
  | true ↦ parsed m
  | false ↦ do
    reject_if (ltb (length shares) 4)
    group ← u16 shares 0
    key_len ← u16 shares 2
    shares' ← slice_from shares 4
    reject_if (ltb (length shares') key_len)
    rest ← slice_from shares' key_len
    parse_shares fuel (add_share m group key_len) rest
]

-- The body of the key share extension.
unfoldable pub parse_key_share : List (ℕ × ℕ) → Bytes → Parse (List (ℕ × ℕ))
parse_key_share m ext = do
  reject_if (ltb (length ext) 2)
  n ← u16 ext 0
  reject_if (not (n == length ext - 2))
  shares ← slice_from ext 2
  parse_shares (length shares) m shares

unfoldable pub parse_extension : List (ℕ × ℕ) → ℕ → Bytes → Parse (List (ℕ × ℕ))
parse_extension m ext_type ext =
    if not (ext_type == 0x0033) then parsed m else parse_key_share m ext

-- The loop over the extensions, on fuel like `parse_shares`.
unfoldable pub parse_extensions : ℕ → List (ℕ × ℕ) → Bytes → Parse (List (ℕ × ℕ))
parse_extensions zero m exts = if length exts == 0 then parsed m else fault
parse_extensions (suc fuel) m exts = elim (length exts == 0) [
  | true ↦ parsed m
  | false ↦ do
    reject_if (ltb (length exts) 4)
    ext_type ← u16 exts 0
    ext_len ← u16 exts 2
    exts' ← slice_from exts 4
    reject_if (ltb (length exts') ext_len)
    ext ← slice_to exts' ext_len
    rest ← slice_from exts' ext_len
    m' ← parse_extension m ext_type ext
    parse_extensions fuel m' rest
]

-- `for off := 0; off < suitesLen; off += 2`, on the rounds left.
unfoldable pub parse_suites : ℕ → ℕ → Bytes → Parse (List ℕ)
parse_suites zero off b = parsed []
parse_suites (suc rounds) off b = do
  suite ← u16 b off
  rest ← parse_suites rounds (off + 2) b
  parsed (suite ∷ rest)

-- From the compression methods on.
unfoldable pub parse_tail : List ℕ → Bytes → Parse FakeTlsClientHelloInfo
parse_tail suites b = do
  compression_len ← index b 0
  reject_if (compression_len == 0 || ltb (length b) (1 + compression_len + 2))
  b₁ ← slice_from b (1 + compression_len)
  exts_len ← u16 b₁ 0
  reject_if (not (exts_len == length b₁ - 2))
  exts ← slice_from b₁ 2
  shares ← parse_extensions (length exts) [] exts
  parsed (record { cipher_suites = suites; key_shares = shares })

-- From the length of the cipher suites on.
unfoldable pub parse_body : Bytes → Parse FakeTlsClientHelloInfo
parse_body b = do
  suites_len ← u16 b 0
  b₁ ← slice_from b 2
  reject_if (suites_len == 0 || not (suites_len % 2 == 0) || leb (length b₁) suites_len)
  suites ← parse_suites (suites_len / 2) 0 b₁
  b₂ ← slice_from b₁ suites_len
  parse_tail suites b₂

-- From the session identifier on.
unfoldable pub parse_session : Bytes → Parse FakeTlsClientHelloInfo
parse_session b = do
  session_len ← index b 43
  reject_if (ltb 32 session_len || ltb (length b) (44 + session_len + 2))
  b₁ ← slice_from b (44 + session_len)
  parse_body b₁

-- The condition on the two headers, of the record and of the handshake message.
unfoldable pub bad_headers : ℕ → ℕ → ℕ → ℕ → ℕ → ℕ → ℕ → Bool
bad_headers kind message record_len l₀ l₁ l₂ len =
    not (kind == tls_record_handshake)
    || not (message == 0x01)
    || not (record_len == len - 5)
    || not (65536 * l₀ + 256 * l₁ + l₂ == len - 9)

-- The whole function. `||` stops early in the source, where all of these indices are in range.
unfoldable pub parse_hello : Bytes → Parse FakeTlsClientHelloInfo
parse_hello b = do
  reject_if (ltb (length b) 44)
  kind ← index b 0
  message ← index b 5
  record_len ← u16 b 3
  l₀ ← index b 6
  l₁ ← index b 7
  l₂ ← index b 8
  reject_if (bad_headers kind message record_len l₀ l₁ l₂ (length b))
  parse_session b

-- `none` is a panic.
unfoldable pub parse_fake_tls_client_hello : Bytes → Option FakeTlsClientHelloInfo
parse_fake_tls_client_hello b = elim (parse_hello b) [
  | fault ↦ none
  | malformed ↦ some empty_info
  | parsed info ↦ some info
]
