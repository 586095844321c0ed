-- ===== src/FakeTls/Tests.antt =====
-- The theorems on src/fake_tls.go at concrete inputs.
use tg_ws_proxy_go.Base.{
  ℕ, List, ◌≡◌, ◌<◌, ◌∙◌, refl, sym, ap, [], ◌∷◌, ◌++◌, none, some, true, false, arith, Bytes,
  replicate, length, take, drop, ◌==◌, if◌then◌else◌, some_injective, length-replicate,
}
use tg_ws_proxy_go.FakeTls.Records.{wrap_fake_tls_records, wrap_fake_tls_records-Carries}
use tg_ws_proxy_go.FakeTls.Streams.{PendingUntil, IsStreamRead, read-IsStreamRead}
use tg_ws_proxy_go.FakeTls.Conn.{ReadError, FakeTlsConn, read, write, reads}
use tg_ws_proxy_go.FakeTls.Reads.{Pending, reads-write}
use tg_ws_proxy_go.FakeTls.ClientHello.{
  FakeTlsClientHelloInfo, empty_info, parse_hello, parse_fake_tls_client_hello,
}
use tg_ws_proxy_go.FakeTls.ServerHello.{
  tls_group_x25519, fake_tls_ccs_frame, Entropy, random_int_in_range, select_cipher, select_share,
  server_hello_record, enc_size, app_record, sign_response, build_server_hello,
}
use tg_ws_proxy_go.FakeTls.Flight.{IsServerFlight, build_server_hello-IsServerFlight}
use tg_ws_proxy_go.FakeTls.Profile.{
  app_data_len, probe_records, TlsRecord, frames, probe_records-frames,
}
use tg_ws_proxy_go.FakeTls.Accept.{Surroundings, is_accepted, accept_fake_tls_client}
use tg_ws_proxy_go.FakeTls.Accepts.{hello_record, accept_fake_tls_client-signed}
use tg_ws_proxy_go.FakeTls.Guard.{IsGuarded, accept_fake_tls_client-IsGuarded}
use tg_ws_proxy_go.FakeTls.ParseTotal.{parse_fake_tls_client_hello_total}
use tg_ws_proxy_go.FakeTls.Verify.{client_random, session_id, zeroed}
use tg_ws_proxy_go.FakeTls.Signed.{
  IsMac, IsSigned, verify_fake_tls_client_hello_accepts, verify_fake_tls_client_hello_sound,
}

abbrev three_bytes : Bytes
three_bytes = 1 ∷ 2 ∷ 3 ∷ []

-- A connection that holds a byte back and has a record of three to come.
abbrev behind : FakeTlsConn
behind = record { raw_in = wrap_fake_tls_records three_bytes; raw_out = []; read_buf = 9 ∷ [] }

behind-Pending : Pending behind (9 ∷ three_bytes)
behind-Pending = record {
  later = three_bytes;
  carried = wrap_fake_tls_records-Carries three_bytes;
  joined = refl;
}

read-IsStreamRead_example :
    (payload : Bytes) × (e : ReadError) × PendingUntil behind payload e
    × IsStreamRead 2 payload e (read 2 behind)
read-IsStreamRead_example = read-IsStreamRead 2 behind (omega arith)

abbrev sender : FakeTlsConn
sender = record { raw_in = []; raw_out = []; read_buf = [] }

abbrev receiver : FakeTlsConn
receiver = record { raw_in = (write sender three_bytes).0.raw_out; raw_out = []; read_buf = [] }

reads-write_example : reads (2 ∷ 1 ∷ 7 ∷ []) receiver ≡ three_bytes
reads-write_example =
    reads-write three_bytes (2 ∷ 1 ∷ 7 ∷ []) sender receiver refl refl refl (omega arith)
      (omega arith)

parse_fake_tls_client_hello_total_example :
    (info : FakeTlsClientHelloInfo) × (parse_fake_tls_client_hello (0x16 ∷ 3 ∷ 1 ∷ []) ≡ some info)
parse_fake_tls_client_hello_total_example = parse_fake_tls_client_hello_total (0x16 ∷ 3 ∷ 1 ∷ [])

-- A hash that gives the same bytes for all inputs, and a hello signed with it at 1000 seconds.
abbrev constant_hash : Bytes → Bytes → Bytes
constant_hash key text = replicate 32 7

abbrev signed_hello : Bytes
signed_hello =
    0x16 ∷ 3 ∷ 1 ∷ 0 ∷ 0 ∷ 1 ∷ 0 ∷ 0 ∷ 0 ∷ 3 ∷ 3 ∷ (replicate 28 7 ++ 239 ∷ 4 ∷ 7 ∷ 7 ∷ [])

constant_hash-IsMac : IsMac (constant_hash [] (zeroed signed_hello))
constant_hash-IsMac = record { length_is = refl; are_bytes = omega arith }

signed_hello-IsSigned : IsSigned (constant_hash [] (zeroed signed_hello)) signed_hello 1100
signed_hello-IsSigned = record {
  long = omega arith;
  is_handshake = refl;
  is_client_hello = refl;
  ts = 1000;
  is_word = omega arith;
  signed = refl;
  early = omega arith;
  late = omega arith;
}

abbrev answer : Bytes × Bytes
answer = (client_random signed_hello, session_id signed_hello)

verify_fake_tls_client_hello_sound_example :
    IsSigned (constant_hash [] (zeroed signed_hello)) signed_hello 1100
    × (answer ≡ (client_random signed_hello, session_id signed_hello))
verify_fake_tls_client_hello_sound_example =
    verify_fake_tls_client_hello_sound constant_hash signed_hello [] 1100 answer constant_hash-IsMac
      (omega arith)
      (verify_fake_tls_client_hello_accepts constant_hash signed_hello [] 1100 constant_hash-IsMac
        signed_hello-IsSigned)

-- Random sources that give the same bytes always.
abbrev constant_entropy : Entropy
constant_entropy = record {
  public_key = some (replicate 32 1);
  ciphertext = λ n. some (replicate n 2);
  app_data = λ n. some (replicate n 3);
  rand_int = λ n. if n == 0 then none else some 0;
}

abbrev response : Bytes
response = sign_response constant_hash [] (replicate 32 4) (
    server_hello_record (replicate 32 5) 0x1301 tls_group_x25519 (replicate 32 1)
    ++ (fake_tls_ccs_frame ++ app_record 64 (replicate 64 3)))

keys : (key : Bytes) → constant_entropy.public_key ≡ some key → length key ≡ 32
keys key e = sym (ap length (some_injective (replicate 32 1) key e))

ciphertexts : (n : ℕ) (c : Bytes) → constant_entropy.ciphertext n ≡ some c → length c ≡ n
ciphertexts n c e = sym (ap length (some_injective (replicate n 2) c e)) ∙ length-replicate n 2

datas : (n : ℕ) (c : Bytes) → constant_entropy.app_data n ≡ some c → length c ≡ n
datas n c e = sym (ap length (some_injective (replicate n 3) c e)) ∙ length-replicate n 3

ints : (n x : ℕ) → constant_entropy.rand_int n ≡ some x → x < n
ints n x e = ground (arith, e)

built :
    build_server_hello constant_hash constant_entropy []
      (replicate 32 4)
      (replicate 32 5)
      empty_info
      0
    ≡ some response
unfolding build_server_hello select_share enc_size random_int_in_range select_cipher
built = refl

build_server_hello-IsServerFlight_example :
    IsServerFlight constant_hash [] (replicate 32 4) (replicate 32 5) empty_info response
build_server_hello-IsServerFlight_example =
    build_server_hello-IsServerFlight constant_hash constant_entropy [] (replicate 32 4)
      (replicate 32 5) empty_info 0 response (λ key text. refl) keys ciphertexts datas ints built

abbrev around : Surroundings
around = record {
  hmac_sha256 = constant_hash;
  entropy = constant_entropy;
  now = 1100;
  ended = false;
  writes = true;
}

abbrev signed_body : Bytes
signed_body = 1 ∷ 0 ∷ 0 ∷ 0 ∷ 3 ∷ 3 ∷ (replicate 28 7 ++ 239 ∷ 4 ∷ 7 ∷ 7 ∷ [])

record-IsSigned : IsSigned (constant_hash [] []) (hello_record 3 1 signed_body) 1100
record-IsSigned = record {
  long = omega arith;
  is_handshake = refl;
  is_client_hello = refl;
  ts = 1000;
  is_word = omega arith;
  signed = refl;
  early = omega arith;
  late = omega arith;
}

abbrev reply : Bytes
reply = sign_response constant_hash [] (client_random (hello_record 3 1 signed_body)) (
    server_hello_record (session_id (hello_record 3 1 signed_body)) 0x1301 tls_group_x25519
      (replicate 32 1)
    ++ (fake_tls_ccs_frame ++ app_record 64 (replicate 64 3)))

accept_fake_tls_client-signed_example :
    (c : FakeTlsConn) × (accept_fake_tls_client around [] 0
        (hello_record 3 1 signed_body ++ wrap_fake_tls_records (replicate 70 8))
      ≡ is_accepted c (take 64 (replicate 70 8)))
    × Pending c (drop 64 (replicate 70 8))
    × (c.raw_out ≡ reply)
unfolding build_server_hello select_share enc_size random_int_in_range select_cipher
    parse_fake_tls_client_hello parse_hello
accept_fake_tls_client-signed_example =
    accept_fake_tls_client-signed around [] 0 3 1 8000 signed_body
      (wrap_fake_tls_records (replicate 70 8)) (replicate 70 8) reply empty_info (omega arith)
      (omega arith) constant_hash-IsMac record-IsSigned refl refl refl refl
      (wrap_fake_tls_records-Carries (replicate 70 8)) (omega arith)

accept_fake_tls_client-IsGuarded_example :
    IsGuarded around []
      (hello_record 3 1 signed_body)
      (accept_fake_tls_client around [] 0 (hello_record 3 1 signed_body))
accept_fake_tls_client-IsGuarded_example =
    accept_fake_tls_client-IsGuarded around [] 0 (hello_record 3 1 signed_body)

-- A server hello, a change cipher spec and application data.
abbrev site_records : List TlsRecord
site_records =
    record { kind = 22; major = 3; minor = 3; body = 2 ∷ 0 ∷ 0 ∷ [] }
    ∷ record { kind = 20; major = 3; minor = 3; body = 1 ∷ [] }
    ∷ record { kind = 23; major = 3; minor = 3; body = 7 ∷ 8 ∷ [] }
    ∷ []

probe_records-frames_example : probe_records 26 (frames site_records) ≡ app_data_len 2
probe_records-frames_example =
    probe_records-frames 26 site_records (omega arith, (omega arith, (omega arith, tt)))
      (omega arith)
