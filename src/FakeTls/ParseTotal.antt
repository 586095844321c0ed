-- ===== src/FakeTls/ParseTotal.antt =====
-- parseFakeTLSClientHello of src/fake_tls.go answers on every input: no index and no slice is out of
-- range, and its loops end.
use tg_ws_proxy_go.Base.{
  ℕ, zero, suc, ◌+◌, ◌-◌, ◌*◌, ◌/◌, ◌%◌, ◌≤◌, ◌<◌, ◌≡◌, ◌≢◌, inl, inr, refl, List, [], ◌∷◌, Bool,
  true, false, not, ◌||◌, some, arith, Bytes, ltb, leb, ◌==◌, length, take, drop, length-drop,
  Bool-cases, ltb→le,
}
use tg_ws_proxy_go.FakeTls.Parser.{
  Parse, fault, malformed, parsed, ◌>>=◌, ◌>>◌, reject_if, index_total, u16_total, slice_from_total,
  slice_to_total,
}
use tg_ws_proxy_go.FakeTls.ClientHello.{
  FakeTlsClientHelloInfo, empty_info, add_share, parse_shares, parse_key_share, parse_extension,
  parse_extensions, parse_suites, parse_tail, parse_body, parse_session, bad_headers, parse_hello,
  parse_fake_tls_client_hello,
}

-- A parser that does not panic here.
data NoFault {ℓ} {A : Type ℓ} (m : Parse A) : Type ℓ where
  no_fault : m ≢ fault → NoFault m

value_NoFault {ℓ κ} :
    {A : Type ℓ} {B : Type κ} (m : Parse A) (f : A → Parse B) {a : A}
    → m ≡ parsed a
    → NoFault (f a)
    → NoFault (m >>= f)
value_NoFault m f e h = rw e h

bind-NoFault {ℓ κ} :
    {A : Type ℓ} {B : Type κ} (m : Parse A) (f : A → Parse B)
    → NoFault m
    → ((a : A) → NoFault (f a))
    → NoFault (m >>= f)
bind-NoFault (parsed a) f h k = k a
bind-NoFault malformed f h k = no_fault (λ e. cc)
bind-NoFault fault f (no_fault h) k = absurd (h refl)

reject-NoFault {ℓ} :
    {B : Type ℓ} (t : Bool) (m : Parse B) → (t ≡ false → NoFault m) → NoFault (reject_if t >> m)
reject-NoFault true m h = no_fault (λ e. cc)
reject-NoFault false m h = h refl

parsed-NoFault {ℓ} : {A : Type ℓ} (a : A) → NoFault (parsed a)
parsed-NoFault a = no_fault (λ e. cc)

Bool-NoFault {ℓ} :
    {B : Type ℓ} (t : Bool) (m k : Parse B)
    → NoFault m
    → (t ≡ false → NoFault k)
    → NoFault (elim t [ true ↦ m | false ↦ k ])
Bool-NoFault true m k h g = h
Bool-NoFault false m k h g = g refl

parse_shares-NoFault :
    (fuel : ℕ) (m : List (ℕ × ℕ)) (b : Bytes) → length b ≤ fuel → NoFault (parse_shares fuel m b)
unfolding parse_shares
parse_shares-NoFault zero m b h = no_fault (λ e. ground arith)
parse_shares-NoFault (suc fuel) m b h = Bool-NoFault (length b == 0) _ _ (parsed-NoFault m) λ more.
    reject-NoFault (ltb (length b) 4) _ λ short.
      let big : 4 ≤ length b = ltb→le _ _ short in
      let (group, e₁) = u16_total b 0 (omega arith) in
      let (key_len, e₂) = u16_total b 2 (omega arith) in
      value_NoFault _ _ e₁ (
        value_NoFault _ _ e₂ (
          value_NoFault _ _ (slice_from_total b 4 big) (
            reject-NoFault (ltb (length (drop 4 b)) key_len) _ λ fits.
              value_NoFault _ _ (slice_from_total (drop 4 b) key_len (ltb→le _ _ fits)) (
                parse_shares-NoFault fuel (add_share m group key_len) (drop key_len (drop 4 b))
                  (omega (arith, length-drop key_len (drop 4 b), length-drop 4 b))))))

parse_key_share-NoFault : (m : List (ℕ × ℕ)) (b : Bytes) → NoFault (parse_key_share m b)
unfolding parse_key_share
parse_key_share-NoFault m b = reject-NoFault (ltb (length b) 2) _ λ short.
    let (n, e) = u16_total b 0 (omega (arith, ltb→le (length b) 2 short)) in
    value_NoFault _ _ e (
      reject-NoFault (not (n == length b - 2)) _ λ fits.
        value_NoFault _ _ (slice_from_total b 2 (ltb→le _ _ short))
          (parse_shares-NoFault (length (drop 2 b)) m (drop 2 b) (omega arith)))

parse_extension-NoFault : (m : List (ℕ × ℕ)) (t : ℕ) (b : Bytes) → NoFault (parse_extension m t b)
unfolding parse_extension
parse_extension-NoFault m t b = elim (Bool-cases (not (t == 0x0033))) [
  | inl e ↦ rw (e, parse_extension) (parsed-NoFault m)
  | inr e ↦ rw (e, parse_extension) (parse_key_share-NoFault m b)
]

parse_extensions-NoFault :
    (fuel : ℕ) (m : List (ℕ × ℕ)) (b : Bytes)
    → length b ≤ fuel
    → NoFault (parse_extensions fuel m b)
unfolding parse_extensions
parse_extensions-NoFault zero m b h = no_fault (λ e. ground arith)
parse_extensions-NoFault (suc fuel) m b h =
    Bool-NoFault (length b == 0) _ _ (parsed-NoFault m) λ more.
      reject-NoFault (ltb (length b) 4) _ λ short.
        let big : 4 ≤ length b = ltb→le _ _ short in
        let (ext_type, e₁) = u16_total b 0 (omega arith) in
        let (ext_len, e₂) = u16_total b 2 (omega arith) in
        value_NoFault _ _ e₁ (
          value_NoFault _ _ e₂ (
            value_NoFault _ _ (slice_from_total b 4 big) (
              reject-NoFault (ltb (length (drop 4 b)) ext_len) _ λ fits.
                value_NoFault _ _ (slice_to_total (drop 4 b) ext_len (ltb→le _ _ fits)) (
                  value_NoFault _ _ (slice_from_total (drop 4 b) ext_len (ltb→le _ _ fits)) (
                    bind-NoFault _ _ (parse_extension-NoFault m ext_type (take ext_len (drop 4 b)))
                      λ m'.
                        parse_extensions-NoFault fuel m' (drop ext_len (drop 4 b))
                          (omega (arith, length-drop ext_len (drop 4 b), length-drop 4 b)))))))

parse_suites-NoFault :
    (rounds off : ℕ) (b : Bytes) → off + 2 * rounds ≤ length b → NoFault (parse_suites rounds off b)
unfolding parse_suites
parse_suites-NoFault zero off b h = parsed-NoFault []
parse_suites-NoFault (suc rounds) off b h =
    let (suite, e) = u16_total b off (omega arith) in
    value_NoFault _ _ e (
      bind-NoFault _ _ (parse_suites-NoFault rounds (off + 2) b (omega arith))
        λ rest. parsed-NoFault (suite ∷ rest))

parse_tail-NoFault : (suites : List ℕ) (b : Bytes) → 1 ≤ length b → NoFault (parse_tail suites b)
unfolding parse_tail
parse_tail-NoFault suites b h =
    let (n, e) = index_total b 0 h in
    value_NoFault _ _ e (
      reject-NoFault (n == 0 || ltb (length b) (1 + n + 2)) _ λ fits.
        let room : 1 + n + 2 ≤ length b = ground arith in
        let (m, e₂) = u16_total (drop (1 + n) b) 0 (omega (arith, length-drop (1 + n) b)) in
        value_NoFault _ _ (slice_from_total b (1 + n) (omega arith)) (
          value_NoFault _ _ e₂ (
            reject-NoFault (not (m == length (drop (1 + n) b) - 2)) _ λ whole.
              value_NoFault _ _
                (slice_from_total (drop (1 + n) b) 2 (omega (arith, length-drop (1 + n) b)))
                (bind-NoFault _ _
                  (parse_extensions-NoFault (length (drop 2 (drop (1 + n) b))) []
                    (drop 2 (drop (1 + n) b)) (omega arith))
                  λ shares. parsed-NoFault _))))

parse_body-NoFault : (b : Bytes) → 2 ≤ length b → NoFault (parse_body b)
unfolding parse_body
parse_body-NoFault b h =
    let (n, e) = u16_total b 0 (omega arith) in
    value_NoFault _ _ e (
      value_NoFault _ _ (slice_from_total b 2 h) (
        reject-NoFault (n == 0 || not (n % 2 == 0) || leb (length (drop 2 b)) n) _ λ fits.
          let room : n < length (drop 2 b) = ground arith in
          bind-NoFault _ _ (parse_suites-NoFault (n / 2) 0 (drop 2 b) (omega arith)) λ suites.
            value_NoFault _ _ (slice_from_total (drop 2 b) n (omega arith)) (
              parse_tail-NoFault suites (drop n (drop 2 b))
                (omega (arith, length-drop n (drop 2 b))))))

parse_session-NoFault : (b : Bytes) → 44 ≤ length b → NoFault (parse_session b)
unfolding parse_session
parse_session-NoFault b big =
    let (n, e) = index_total b 43 (omega arith) in
    value_NoFault _ _ e (
      reject-NoFault (ltb 32 n || ltb (length b) (44 + n + 2)) _ λ fits.
        let room : 44 + n + 2 ≤ length b = ground arith in
        value_NoFault _ _ (slice_from_total b (44 + n) (omega arith))
          (parse_body-NoFault (drop (44 + n) b) (omega (arith, length-drop (44 + n) b))))

parse_hello-NoFault : (b : Bytes) → NoFault (parse_hello b)
unfolding parse_hello
parse_hello-NoFault b = reject-NoFault (ltb (length b) 44) _ λ short.
    let big : 44 ≤ length b = ltb→le (length b) 44 short in
    let (kind, e₁) = index_total b 0 (omega arith) in
    let (message, e₂) = index_total b 5 (omega arith) in
    let (record_len, e₃) = u16_total b 3 (omega arith) in
    let (l₀, e₄) = index_total b 6 (omega arith) in
    let (l₁, e₅) = index_total b 7 (omega arith) in
    let (l₂, e₆) = index_total b 8 (omega arith) in
    value_NoFault _ _ e₁ (
      value_NoFault _ _ e₂ (
        value_NoFault _ _ e₃ (
          value_NoFault _ _ e₄ (
            value_NoFault _ _ e₅ (
              value_NoFault _ _ e₆ (
                reject-NoFault (bad_headers kind message record_len l₀ l₁ l₂ (length b)) _
                  λ sizes. parse_session-NoFault b big))))))

-- parseFakeTLSClientHello returns on every input, whatever a client sends: it does not panic on an
-- index or a slice out of range, and both of its loops end.
pub parse_fake_tls_client_hello_total :
    (b : Bytes) → (info : FakeTlsClientHelloInfo) × (parse_fake_tls_client_hello b ≡ some info)
parse_fake_tls_client_hello_total b = answer (parse_hello b) refl (parse_hello-NoFault b)
  where
    answer :
        (r : Parse FakeTlsClientHelloInfo)
        → parse_hello b ≡ r
        → NoFault r
        → (info : FakeTlsClientHelloInfo) × (parse_fake_tls_client_hello b ≡ some info)
    answer fault e (no_fault h) = absurd (h refl)
    answer malformed e h =
        unfold parse_fake_tls_client_hello in (empty_info, rw (e, parse_fake_tls_client_hello))
    answer (parsed info) e h =
        unfold parse_fake_tls_client_hello in (info, rw (e, parse_fake_tls_client_hello))
