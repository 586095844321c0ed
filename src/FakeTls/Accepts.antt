-- ===== src/FakeTls/Accepts.antt =====
-- What acceptFakeTLSClient (src/fake_tls.go) does with the ClientHello of a client that knows the secret, and
-- of one that does not.
use tg_ws_proxy_go.Base.{
  ℕ, ◌*◌, ◌≤◌, ◌<◌, ◌≡◌, refl, ◌∙◌, [], ◌∷◌, ◌++◌, false, not, ◌||◌, none, some, Bytes, put_be16,
  be16-put_be16, ltb, ◌==◌, length, take, drop, arith,
}
use tg_ws_proxy_go.FakeTls.Records.{tls_record_handshake, frame, Carries}
use tg_ws_proxy_go.FakeTls.Conn.{FakeTlsConn}
use tg_ws_proxy_go.FakeTls.Payload.{read_full_enough}
use tg_ws_proxy_go.FakeTls.Reads.{Pending}
use tg_ws_proxy_go.FakeTls.ReadFull.{read_full_conn-IsReadFull}
use tg_ws_proxy_go.FakeTls.ClientHello.{FakeTlsClientHelloInfo, parse_fake_tls_client_hello}
use tg_ws_proxy_go.FakeTls.Verify.{client_random, zeroed, session_id, verify_fake_tls_client_hello}
use tg_ws_proxy_go.FakeTls.Signed.{IsMac, IsSigned, verify_fake_tls_client_hello_accepts}
use tg_ws_proxy_go.FakeTls.ServerHello.{random_int_in_range, build_server_hello}
use tg_ws_proxy_go.FakeTls.Accept.{
  is_masked, is_accepted, Surroundings, read_handshake, answer_client, check_hello,
  accept_fake_tls_client,
}

-- A ClientHello in one record.
abbrev pub hello_record : ℕ → ℕ → Bytes → Bytes
hello_record major minor body = frame tls_record_handshake major minor body

not_too_long : (n : ℕ) → 1 ≤ n → n < 65536 → (n == 0 || ltb (64 * 1024) n) ≡ false
not_too_long n h l = ground (arith, h, l)

accept_fake_tls_client-hello_record :
    (w : Surroundings) (secret : Bytes) (app_data_len major minor : ℕ) (body rest : Bytes)
    → 1 ≤ length body
    → length body < 65536
    → accept_fake_tls_client w secret app_data_len (hello_record major minor body ++ rest)
      ≡ check_hello w secret app_data_len (hello_record major minor body) rest
unfolding accept_fake_tls_client
accept_fake_tls_client-hello_record w secret app_data_len major minor body rest h l =
    rw
      (
        accept_fake_tls_client,
        read_full_enough (tls_record_handshake ∷ [])
            (major ∷ minor ∷ (put_be16 (length body) ++ (body ++ rest))),
        read_full_enough (major ∷ minor ∷ put_be16 (length body)) (body ++ rest),
        be16-put_be16 (length body) l,
        not_too_long (length body) h l,
        read_full_enough body rest,
      )
      refl

read_handshake-accepts :
    (server_hello rest payload : Bytes)
    → Carries rest payload
    → 64 ≤ length payload
    → (c : FakeTlsConn) × (read_handshake server_hello rest ≡ is_accepted c (take 64 payload))
      × Pending c (drop 64 payload)
      × (c.raw_out ≡ server_hello)
unfolding read_handshake
read_handshake-accepts server_hello rest payload carried l =
    let c : FakeTlsConn = record { raw_in = rest; raw_out = server_hello; read_buf = [] } in
    let full =
      read_full_conn-IsReadFull 64 64 c payload (omega arith) l
        (record { later = payload; carried = carried; joined = refl }) in
    (full.conn, rw (read_handshake, full.returns) refl, full.left, full.sent)

-- Where the hash of the hello has 32 bytes, the answer could be built, the delay was drawn, the context goes
-- on and the answer is written: a client that sends a ClientHello signed with the secret lately, and then
-- records that carry 64 bytes at least, is accepted; the first 64 bytes are those of its records, the
-- connection holds the rest of them, and what was sent to it is the answer.
pub accept_fake_tls_client-signed :
    (w : Surroundings) (secret : Bytes) (app_data_len major minor delay : ℕ)
    (body rest payload server_hello : Bytes) (info : FakeTlsClientHelloInfo)
    → 1 ≤ length body
    → length body < 65536
    → IsMac (w.hmac_sha256 secret (zeroed (hello_record major minor body)))
    → IsSigned
        (w.hmac_sha256 secret (zeroed (hello_record major minor body)))
        (hello_record major minor body)
        w.now
    → parse_fake_tls_client_hello (hello_record major minor body) ≡ some info
    → build_server_hello w.hmac_sha256 w.entropy secret
        (client_random (hello_record major minor body))
        (session_id (hello_record major minor body))
        info
        app_data_len
      ≡ some server_hello
    → random_int_in_range w.entropy.rand_int 8000 24000 ≡ some delay
    → (w.ended || not w.writes) ≡ false
    → Carries rest payload
    → 64 ≤ length payload
    → (c : FakeTlsConn) × (accept_fake_tls_client w secret app_data_len
          (hello_record major minor body ++ rest)
        ≡ is_accepted c (take 64 payload))
      × Pending c (drop 64 payload)
      × (c.raw_out ≡ server_hello)
unfolding check_hello answer_client
accept_fake_tls_client-signed w secret app_data_len major minor delay body rest payload server_hello
      info h l mac signed parses builds drawn sent carried enough =
    let hello = hello_record major minor body in
    let (c, accepts, left, out) = read_handshake-accepts server_hello rest payload carried enough in
    (
      c,
      accept_fake_tls_client-hello_record w secret app_data_len major minor body rest h l
          ∙ rw
              (
                check_hello,
                verify_fake_tls_client_hello_accepts w.hmac_sha256 hello secret w.now mac signed,
                parses,
                answer_client,
                builds,
                drawn,
                sent,
              )
              accepts,
      left,
      out,
    )

-- A ClientHello that the check refuses, in one record: the masking domain gets exactly the bytes of that
-- record, and nothing behind them is read.
pub accept_fake_tls_client-masked :
    (w : Surroundings) (secret : Bytes) (app_data_len major minor : ℕ) (body rest : Bytes)
    → 1 ≤ length body
    → length body < 65536
    → verify_fake_tls_client_hello w.hmac_sha256 (hello_record major minor body) secret w.now ≡ none
    → accept_fake_tls_client w secret app_data_len (hello_record major minor body ++ rest)
      ≡ is_masked (hello_record major minor body)
unfolding check_hello
accept_fake_tls_client-masked w secret app_data_len major minor body rest h l refused =
    accept_fake_tls_client-hello_record w secret app_data_len major minor body rest h l
    ∙ rw (check_hello, refused) refl
