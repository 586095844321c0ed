-- ===== src/FakeTls/Accept.antt =====
-- src/fake_tls.go, acceptFakeTLSClient: the fake TLS handshake of one client. The raw connection is what the
-- client sends before it closes; the random delay, the context and the write of the answer are inputs.
use tg_ws_proxy_go.Base.{
  ℕ, zero, suc, ◌-◌, ◌*◌, [], ◌++◌, Bool, not, ◌||◌, Option, none, some, Bytes, be16, ltb, ◌==◌,
  if◌then◌else◌, length, get_or,
}
use tg_ws_proxy_go.FakeTls.Records.{tls_record_handshake}
use tg_ws_proxy_go.FakeTls.Conn.{got, failed, read_full, FakeTlsConn, read}
use tg_ws_proxy_go.FakeTls.ClientHello.{FakeTlsClientHelloInfo, parse_fake_tls_client_hello}
use tg_ws_proxy_go.FakeTls.Verify.{verify_fake_tls_client_hello}
use tg_ws_proxy_go.FakeTls.ServerHello.{Entropy, random_int_in_range, build_server_hello}

-- How the handshake ends: in a panic; dropped; a redirect is written; the bytes read go to the masking domain;
-- or the wrapped connection with the client's first bytes.
pub data Handshaken : Type 0 where
  panics is_dropped is_redirected : Handshaken
  is_masked : Bytes → Handshaken
  is_accepted : FakeTlsConn → Bytes → Handshaken

-- The parameters: the hash, the random sources, the time in seconds, whether the context ends in the
-- delay, whether the write of the answer succeeds.
pub record Surroundings : Type 0 where
  pub hmac_sha256 : Bytes → Bytes → Bytes
  pub entropy : Entropy
  pub now : ℕ
  pub ended : Bool
  pub writes : Bool

abbrev pub handshake_len : ℕ
handshake_len = 64

-- io.ReadFull of n bytes from a fakeTLSConn. Each call of Read that has no error gives a byte at least,
-- so that fuel n is enough.
unfoldable pub read_full_conn : ℕ → ℕ → FakeTlsConn → Option (FakeTlsConn × Bytes)
read_full_conn zero n c = if n == 0 then some (c, []) else none
read_full_conn (suc fuel) n c =
    let r = read n c in
    let later = read_full_conn fuel (n - length r.out) r.conn in
    if n == 0 then some (c, []) else elim r.error [
      | some e ↦ none
      | none ↦ elim later [ none ↦ none | some (c', out) ↦ some (c', r.out ++ out) ]
    ]

-- The end of acceptFakeTLSClient, behind the write of the answer.
unfoldable pub read_handshake : Bytes → Bytes → Handshaken
read_handshake server_hello rest =
    elim (read_full_conn handshake_len handshake_len
      (record { raw_in = rest; raw_out = server_hello; read_buf = [] })) [
        | none ↦ is_dropped
        | some (c, hs) ↦ is_accepted c hs
      ]

-- The part behind verifyFakeTLSClientHello, which has given the client's random and its session.
unfoldable pub answer_client :
    Surroundings → Bytes → Bytes × Bytes → FakeTlsClientHelloInfo → ℕ → Bytes → Handshaken
answer_client w secret signed info app_data_len rest =
    elim (build_server_hello w.hmac_sha256 w.entropy secret signed.0 signed.1 info app_data_len) [
      | none ↦ is_dropped
      | some server_hello ↦ elim (random_int_in_range w.entropy.rand_int 8000 24000) [
        | none ↦ is_dropped
        | some delay ↦
            if w.ended || not w.writes then is_dropped else read_handshake server_hello rest
      ]
    ]

unfoldable pub check_hello : Surroundings → Bytes → ℕ → Bytes → Bytes → Handshaken
check_hello w secret app_data_len hello rest =
    elim (verify_fake_tls_client_hello w.hmac_sha256 hello secret w.now) [
      | none ↦ is_masked hello
      | some signed ↦ elim (parse_fake_tls_client_hello hello) [
        | none ↦ panics
        | some info ↦ answer_client w secret signed info app_data_len rest
      ]
    ]

unfoldable pub accept_fake_tls_client : Surroundings → Bytes → ℕ → Bytes → Handshaken
accept_fake_tls_client w secret app_data_len raw = elim (read_full 1 raw) [
  | failed e rest ↦ is_dropped
  | got first rest ↦
      if not (get_or first 0 0 == tls_record_handshake)
      then is_redirected
      else elim (read_full 4 rest) [
        | failed e rest1 ↦ is_dropped
        | got header rest1 ↦
            let record_len = be16 (get_or header 2 0) (get_or header 3 0) in
            if record_len == 0 || ltb (64 * 1024) record_len
            then is_dropped
            else elim (read_full record_len rest1) [
              | failed e rest2 ↦ is_dropped
              | got body rest2 ↦ check_hello w secret app_data_len (first ++ (header ++ body)) rest2
            ]
      ]
]
