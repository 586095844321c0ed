-- ===== src/FakeTls/ServerHello.antt =====
-- src/fake_tls.go, buildFakeTLSServerHello: the flight that answers a ClientHello. What crypto/ecdh and
-- crypto/rand give, or their errors, is a parameter of the model.
use tg_ws_proxy_go.Base.{
  ℕ, ◌+◌, ◌-◌, ◌%◌, List, [], ◌∷◌, ◌++◌, Bool, true, false, Option, none, some, Bytes, put_be16,
  ltb, ◌==◌, ◌>>=◌, if◌then◌else◌, min, max, length, take, drop, replicate,
}
use tg_ws_proxy_go.FakeTls.Records.{
  tls_record_ccs, tls_record_handshake, tls_record_app_data, tls_record_max_len,
}
use tg_ws_proxy_go.FakeTls.ClientHello.{FakeTlsClientHelloInfo, lookup}

abbrev pub tls_group_x25519 : ℕ
tls_group_x25519 = 0x001d

abbrev pub tls_group_x25519_mlkem768 : ℕ
tls_group_x25519_mlkem768 = 0x11ec

abbrev pub fake_tls_ccs_frame : Bytes
fake_tls_ccs_frame = tls_record_ccs ∷ 0x03 ∷ 0x03 ∷ 0x00 ∷ 0x01 ∷ 0x01 ∷ []

-- The public key of ecdh.X25519().GenerateKey; rand.Read of n bytes for the ciphertext and for the
-- application data; and rand.Int below a bound. `none` stands for their errors.
pub record Entropy : Type 0 where
  pub public_key : Option Bytes
  pub ciphertext : ℕ → Option Bytes
  pub app_data : ℕ → Option Bytes
  pub rand_int : ℕ → Option ℕ

unfoldable pub random_int_in_range : (ℕ → Option ℕ) → ℕ → ℕ → Option ℕ
random_int_in_range rand_int min_val max_val =
    if ltb max_val min_val
    then none
    else elim (rand_int (max_val - min_val + 1)) [ none ↦ none | some n ↦ some (min_val + n) ]

abbrev pub contains_suite : ℕ → List ℕ → Bool
contains_suite preferred [] = false
contains_suite preferred (offered ∷ suites) =
    if offered == preferred then true else contains_suite preferred suites

-- The loops at selectCipher.
unfoldable pub select_cipher : List ℕ → List ℕ → ℕ
select_cipher [] suites = 0x1301
select_cipher (preferred ∷ others) suites =
    if contains_suite preferred suites then preferred else select_cipher others suites

abbrev pub preferred_suites : List ℕ
preferred_suites = 0x1301 ∷ 0x1303 ∷ 0x1302 ∷ []

-- The group and its key share, from what info.keyShares has for the hybrid group.
unfoldable pub select_share : Option ℕ → Entropy → Bytes → Option (ℕ × Bytes)
select_share none e key = some (tls_group_x25519, key)
select_share (some n) e key =
    if n == 1216
    then e.ciphertext 1088 >>= (λ c. some (tls_group_x25519_mlkem768, c ++ key))
    else some (tls_group_x25519, key)

-- binary.BigEndian.PutUint16(b[at:at+2], v), and copy(b[at:at+n], src) where b is long enough.
abbrev pub set_u16 : ℕ → ℕ → Bytes → Bytes
set_u16 at v b = take at b ++ (put_be16 v ++ drop (at + 2) b)

abbrev pub copy_at : ℕ → ℕ → Bytes → Bytes → Bytes
copy_at at n src b = take at b ++ (take n src ++ drop (at + min n (length src)) b)

-- The first 44 bytes of `sh`, and what is appended to them.
abbrev pub hello_start : ℕ → Bytes
hello_start session_len =
    tls_record_handshake
    ∷ 0x03
    ∷ 0x03
    ∷ 0x00
    ∷ 0x00
    ∷ 0x02
    ∷ 0x00
    ∷ 0x00
    ∷ 0x00
    ∷ 0x03
    ∷ 0x03
    ∷ (replicate 32 0 ++ (session_len % 256) ∷ [])

abbrev pub hello_end : Bytes → ℕ → ℕ → Bytes → Bytes
hello_end session_id suite group share =
    session_id
    ++ (put_be16 suite
        ++ (0x00
            ∷ (put_be16 (14 + length share)
                ++ (0x00
                    ∷ 0x2b
                    ∷ 0x00
                    ∷ 0x02
                    ∷ 0x03
                    ∷ 0x04
                    ∷ 0x00
                    ∷ 0x33
                    ∷ (put_be16 (4 + length share)
                        ++ (put_be16 group ++ (put_be16 (length share) ++ share)))))))

unfoldable pub server_hello_record : Bytes → ℕ → ℕ → Bytes → Bytes
server_hello_record session_id suite group share =
    let sh = hello_start (length session_id) ++ hello_end session_id suite group share in
    set_u16 7 (length sh - 9) (set_u16 3 (length sh - 5) sh)

unfoldable pub enc_size : ℕ → Entropy → Option ℕ
enc_size app_data_len e =
    if app_data_len == 0
    then random_int_in_range e.rand_int 64 160
    else some (max 64 (min app_data_len tls_record_max_len))

abbrev pub app_record : ℕ → Bytes → Bytes
app_record size enc_data = tls_record_app_data ∷ 0x03 ∷ 0x03 ∷ (put_be16 size ++ enc_data)

-- The hash over the client's random and the response, copied into the response.
unfoldable pub sign_response : (Bytes → Bytes → Bytes) → Bytes → Bytes → Bytes → Bytes
sign_response hmac_sha256 secret client_random response =
    copy_at 11 32 (hmac_sha256 secret (client_random ++ response)) response

-- appDataLen is 0 for all that are not positive.
unfoldable pub build_server_hello :
    (Bytes → Bytes → Bytes)
    → Entropy
    → Bytes
    → Bytes
    → Bytes
    → FakeTlsClientHelloInfo
    → ℕ
    → Option Bytes
build_server_hello hmac_sha256 e secret client_random session_id info app_data_len = do
  key ← e.public_key
  chosen ← select_share (lookup tls_group_x25519_mlkem768 info.key_shares) e key
  size ← enc_size app_data_len e
  enc_data ← e.app_data size
  some (
      sign_response hmac_sha256 secret client_random (
        server_hello_record session_id (select_cipher preferred_suites info.cipher_suites) chosen.0
          chosen.1
        ++ (fake_tls_ccs_frame ++ app_record size enc_data)))
