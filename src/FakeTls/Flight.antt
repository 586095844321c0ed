-- ===== src/FakeTls/Flight.antt =====
-- What buildFakeTLSServerHello (src/fake_tls.go) sends, as TLS records, and how a client checks it.
use tg_ws_proxy_go.Base.{
  ℕ, ◌%◌, ◌≤◌, ◌<◌, ◌≡◌, refl, sym, subst, ap, ap₂, ◌∙◌, inl, inr, ◌∷◌, ◌++◌, Bool, Option, none,
  some, Bytes, ◌==◌, ◌>>=◌, bind_some, some_injective, Bool-cases, Option-cases, if◌then◌else◌,
  length, length-append, arith,
}
use tg_ws_proxy_go.FakeTls.Records.{tls_record_max_len}
use tg_ws_proxy_go.FakeTls.ClientHello.{FakeTlsClientHelloInfo, lookup}
use tg_ws_proxy_go.FakeTls.Verify.{zeroed}
use tg_ws_proxy_go.FakeTls.ServerHello.{
  tls_group_x25519, tls_group_x25519_mlkem768, fake_tls_ccs_frame, Entropy, random_int_in_range,
  select_cipher, preferred_suites, select_share, hello_end, server_hello_record, enc_size,
  app_record, sign_response, build_server_hello,
}
use tg_ws_proxy_go.FakeTls.Answer.{
  hello_body, answer_body, hello_body-answer_body, best_suite, select_cipher-best_suite, flight,
  server_hello_record-frame, sign_response-frame, share_kind, share_of,
}

-- An answer to a client, from the secret: whole records with a ServerHello, whose session identifier is
-- the client's, whose random is the hash over the client's random and the answer without its own, and
-- whose application data has a length that a record may have.
pub record IsServerFlight (hmac_sha256 : Bytes → Bytes → Bytes)
    (secret client_random session_id : Bytes) (info : FakeTlsClientHelloInfo) (response : Bytes)
    : Type 0 where
  pub random : Bytes
  pub share : Bytes
  pub enc_data : Bytes
  pub framed :
      response
      ≡ flight
          (answer_body random session_id (best_suite info.cipher_suites) (share_of info).0 share)
          enc_data
  pub signed : random ≡ hmac_sha256 secret (client_random ++ zeroed response)
  pub random_length : length random ≡ 32
  pub share_length : length share ≡ (share_of info).1
  pub enough : 64 ≤ length enc_data
  pub short : length enc_data ≤ tls_record_max_len

hybrid_share :
    (o : Option Bytes) (key : Bytes) (chosen : ℕ × Bytes)
    → length key ≡ 32
    → ((c : Bytes) → o ≡ some c → length c ≡ 1088)
    → (o >>= (λ c. some (tls_group_x25519_mlkem768, c ++ key))) ≡ some chosen
    → (chosen.0 ≡ tls_group_x25519_mlkem768) × (length chosen.1 ≡ 1120)
hybrid_share none key chosen k l h = ground arith
hybrid_share (some c) key (group, share) k l h = ground (arith, length-append c key, l c refl, k)

plain_share :
    (key : Bytes) (chosen : ℕ × Bytes)
    → length key ≡ 32
    → some (tls_group_x25519, key) ≡ some chosen
    → (chosen.0 ≡ tls_group_x25519) × (length chosen.1 ≡ 32)
plain_share key (group, share) k h = ground (arith, k)

select_share-length :
    (offered : Option ℕ) (e : Entropy) (key : Bytes) (chosen : ℕ × Bytes)
    → length key ≡ 32
    → ((n : ℕ) (c : Bytes) → e.ciphertext n ≡ some c → length c ≡ n)
    → select_share offered e key ≡ some chosen
    → (chosen.0 ≡ (share_kind offered).0) × (length chosen.1 ≡ (share_kind offered).1)
unfolding select_share
select_share-length none e key chosen k l h = plain_share key chosen k h
select_share-length (some n) e key chosen k l h = elim (Bool-cases (n == 1216)) [
  | inl f ↦
      rw (f) (hybrid_share (e.ciphertext 1088) key chosen k (l 1088) (subst (λ b. by_size b) f h))
  | inr f ↦ rw (f) (plain_share key chosen k (subst (λ b. by_size b) f h))
]
  where
    by_size : Bool → Type 0
    by_size hybrid =
        (if hybrid
          then e.ciphertext 1088 >>= (λ c. some (tls_group_x25519_mlkem768, c ++ key))
          else some (tls_group_x25519, key))
        ≡ some chosen

enc_size-bounds :
    (app_data_len size : ℕ) (e : Entropy)
    → ((n x : ℕ) → e.rand_int n ≡ some x → x < n)
    → enc_size app_data_len e ≡ some size
    → (64 ≤ size) × (size ≤ tls_record_max_len)
unfolding enc_size random_int_in_range
enc_size-bounds app_data_len size e l h = elim (Option-cases (e.rand_int 97)) [
  | inl f ↦ ground (arith, f, h)
  | inr (x, f) ↦ ground (arith, f, h, l 97 x f)
]

-- The answer from the parts that the random sources have given.
assembled :
    (Bytes → Bytes → Bytes)
    → Bytes
    → Bytes
    → Bytes
    → FakeTlsClientHelloInfo
    → ℕ × Bytes
    → ℕ
    → Bytes
    → Bytes
assembled hmac_sha256 secret client_random session_id info chosen size enc_data =
    sign_response hmac_sha256 secret client_random (
      server_hello_record session_id (select_cipher preferred_suites info.cipher_suites) chosen.0
        chosen.1
      ++ (fake_tls_ccs_frame ++ app_record size enc_data))

assembled-IsServerFlight :
    (hmac_sha256 : Bytes → Bytes → Bytes) (secret client_random session_id : Bytes)
    (info : FakeTlsClientHelloInfo) (chosen : ℕ × Bytes) (size : ℕ) (enc_data : Bytes)
    → ((key text : Bytes) → length (hmac_sha256 key text) ≡ 32)
    → (chosen.0 ≡ (share_of info).0) × (length chosen.1 ≡ (share_of info).1)
    → length enc_data ≡ size
    → (64 ≤ size) × (size ≤ tls_record_max_len)
    → IsServerFlight hmac_sha256 secret client_random session_id info
        (assembled hmac_sha256 secret client_random session_id info chosen size enc_data)
unfolding assembled
assembled-IsServerFlight hmac_sha256 secret client_random session_id info chosen size enc_data mac
      kinds sized bounds =
    let suite = select_cipher preferred_suites info.cipher_suites in
    let tail : Bytes = (length session_id % 256) ∷ hello_end session_id suite chosen.0 chosen.1 in
    let more : Bytes = fake_tls_ccs_frame ++ app_record (length enc_data) enc_data in
    let (random, framed, signed, l) =
      sign_response-frame hmac_sha256 secret client_random tail more mac in
    let joined =
      ap₂
        (λ (r : Bytes) (n : ℕ).
          sign_response hmac_sha256 secret client_random
            (r ++ (fake_tls_ccs_frame ++ app_record n enc_data)))
        (server_hello_record-frame session_id suite chosen.0 chosen.1) (sym sized)
      ∙ framed in
    record {
      random = random;
      share = chosen.1;
      enc_data = enc_data;
      framed =
          joined
          ∙ ap₂ (λ (c g : ℕ). flight (hello_body random session_id c g chosen.1) enc_data)
              (select_cipher-best_suite info.cipher_suites) kinds.0
          ∙ ap (λ body. flight body enc_data)
              (hello_body-answer_body random session_id (best_suite info.cipher_suites)
                (share_of info).0 chosen.1);
      signed = signed ∙ ap (λ r. hmac_sha256 secret (client_random ++ zeroed r)) (sym joined);
      random_length = l;
      share_length = kinds.1;
      enough = omega (arith, sized, bounds);
      short = omega (arith, sized, bounds);
    }

-- Where the hash has 32 bytes, and the random sources give as many bytes as they are asked for and
-- numbers below their bound: whatever buildFakeTLSServerHello returns without an error, for every
-- ClientHello and every length of a masking profile, is three whole records. The first is a ServerHello
-- with the session identifier, the best suite that the client offers, and a key share of the group
-- and the length that go with its own; its random is the hash over the client's random and the
-- answer without that random; and the application data has from 64 to 16384 bytes.
pub build_server_hello-IsServerFlight :
    (hmac_sha256 : Bytes → Bytes → Bytes) (e : Entropy) (secret client_random session_id : Bytes)
    (info : FakeTlsClientHelloInfo) (app_data_len : ℕ) (response : Bytes)
    → ((key text : Bytes) → length (hmac_sha256 key text) ≡ 32)
    → ((key : Bytes) → e.public_key ≡ some key → length key ≡ 32)
    → ((n : ℕ) (c : Bytes) → e.ciphertext n ≡ some c → length c ≡ n)
    → ((n : ℕ) (c : Bytes) → e.app_data n ≡ some c → length c ≡ n)
    → ((n x : ℕ) → e.rand_int n ≡ some x → x < n)
    → build_server_hello hmac_sha256 e secret client_random session_id info app_data_len
      ≡ some response
    → IsServerFlight hmac_sha256 secret client_random session_id info response
unfolding build_server_hello assembled
build_server_hello-IsServerFlight hmac_sha256 e secret client_random session_id info app_data_len
      response mac keys ciphertexts datas ints h =
    let (key, k, h₁) = bind_some e.public_key _ response h in
    let (chosen, c, h₂) =
      bind_some (select_share (lookup tls_group_x25519_mlkem768 info.key_shares) e key) _ response
        h₁ in
    let (size, s, h₃) = bind_some (enc_size app_data_len e) _ response h₂ in
    let (enc_data, d, h₄) = bind_some (e.app_data size) _ response h₃ in
    subst (IsServerFlight hmac_sha256 secret client_random session_id info)
      (some_injective
        (assembled hmac_sha256 secret client_random session_id info chosen size enc_data) response
        h₄)
      (assembled-IsServerFlight hmac_sha256 secret client_random session_id info chosen size
        enc_data mac
        (select_share-length (lookup tls_group_x25519_mlkem768 info.key_shares) e key chosen
          (keys key k) ciphertexts c)
        (datas size enc_data d) (enc_size-bounds app_data_len size e ints s))
