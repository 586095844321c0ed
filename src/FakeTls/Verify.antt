-- ===== src/FakeTls/Verify.antt =====
-- src/fake_tls.go, verifyFakeTLSClientHello: the check that a ClientHello was signed with the secret
-- and lately. HMAC-SHA-256 is a parameter: crypto/hmac and crypto/sha256 compute it.
use tg_ws_proxy_go.Base.{
  ℕ, ◌+◌, ◌-◌, ◌++◌, Bool, not, ◌||◌, ◌&&◌, Option, none, some, Bytes, le32, ltb, leb, ◌==◌,
  if◌then◌else◌, length, take, drop, get_or, replicate, xor_bytes, bytes_equal,
}
use tg_ws_proxy_go.FakeTls.Records.{tls_record_handshake}

abbrev pub tls_client_random_offset : ℕ
tls_client_random_offset = 11

abbrev pub tls_client_random_len : ℕ
tls_client_random_len = 32

abbrev pub tls_session_id_offset : ℕ
tls_session_id_offset = 44

abbrev pub tls_session_id_len : ℕ
tls_session_id_len = 32

abbrev pub tls_timestamp_tolerance : ℕ
tls_timestamp_tolerance = 120

-- clientRandom: data[11:43].
abbrev pub client_random : Bytes → Bytes
client_random hello = take tls_client_random_len (drop tls_client_random_offset hello)

-- The hello with its random bytes set to zero.
abbrev pub zeroed : Bytes → Bytes
zeroed hello =
    take tls_client_random_offset hello
    ++ (replicate tls_client_random_len 0
        ++ drop (tls_client_random_offset + tls_client_random_len) hello)

-- The Unix time that the last four random bytes hold, under the MAC.
unfoldable pub timestamp : Bytes → Bytes → ℕ
timestamp random mac =
    let ts = xor_bytes (drop 28 random) (drop 28 mac) in
    le32 (get_or ts 0 0) (get_or ts 1 0) (get_or ts 2 0) (get_or ts 3 0)

-- `now-timestamp > tolerance || timestamp-now > tolerance`: a difference below 0 stops at 0, and is
-- not above the tolerance either way.
unfoldable pub out_of_time : ℕ → ℕ → Bool
out_of_time now ts =
    ltb tls_timestamp_tolerance (now - ts) || ltb tls_timestamp_tolerance (ts - now)

unfoldable pub session_id : Bytes → Bytes
session_id hello =
    if leb (tls_session_id_offset + tls_session_id_len) (length hello) && get_or hello 43 0 == 0x20
    then take tls_session_id_len (drop tls_session_id_offset hello)
    else replicate tls_session_id_len 0

-- `now` is time.Now().Unix(). The answer is the client's random and the session identifier.
unfoldable pub verify_fake_tls_client_hello :
    (Bytes → Bytes → Bytes) → Bytes → Bytes → ℕ → Option (Bytes × Bytes)
verify_fake_tls_client_hello hmac_sha256 hello secret now =
    if ltb (length hello) 43
    then none
    else if not (get_or hello 0 0 == tls_record_handshake) || not (get_or hello 5 0 == 0x01)
    then none
    else let expected = hmac_sha256 secret (zeroed hello) in
      if not (bytes_equal (take 28 expected) (take 28 (client_random hello)))
      then none
      else if out_of_time now (timestamp (client_random hello) expected)
      then none
      else some (client_random hello, session_id hello)
