-- ===== src/FakeTls/Answer.antt =====
-- What an answer to a ClientHello has to be, and that the parts of buildFakeTLSServerHello
-- (src/fake_tls.go) make such a one.
use tg_ws_proxy_go.Base.{
  List, false, ◌||◌, ℕ, ◌+◌, ◌%◌, ◌≡◌, refl, sym, ap, ap₂, ◌∙◌, [], ◌∷◌, ◌++◌, Bool, Option, none,
  some, Bytes, put_be16, ◌==◌, if◌then◌else◌, min, length, drop, replicate, append_assoc,
  length-append, drop_at, take_all, arith,
}
use tg_ws_proxy_go.FakeTls.Records.{
  tls_record_ccs, tls_record_handshake, tls_record_app_data, frame,
}
use tg_ws_proxy_go.FakeTls.ClientHello.{FakeTlsClientHelloInfo, lookup}
use tg_ws_proxy_go.FakeTls.Verify.{zeroed}
use tg_ws_proxy_go.FakeTls.ServerHello.{
  contains_suite, select_cipher, preferred_suites, copy_at, hello_end, server_hello_record,
  sign_response,
}

-- A ServerHello message: its type, the three bytes of its length, and its body, which is the version,
-- 32 bytes of random, the session identifier and the rest.
abbrev pub hello_body : Bytes → Bytes → ℕ → ℕ → Bytes → Bytes
hello_body random session_id suite group share =
    0x03 ∷ 0x03 ∷ (random ++ ((length session_id % 256) ∷ hello_end session_id suite group share))

abbrev pub hello_message : Bytes → Bytes
hello_message body = 0x02 ∷ 0x00 ∷ (put_be16 (length body) ++ body)

-- An extension: its number, the length of its body, and its body.
abbrev pub extension : ℕ → Bytes → Bytes
extension kind body = put_be16 kind ++ (put_be16 (length body) ++ body)

-- The version TLS 1.3, and the key share: its group, its length and itself.
abbrev pub extensions : ℕ → Bytes → Bytes
extensions group share =
    extension 43 (put_be16 772)
    ++ extension 51 (put_be16 group ++ (put_be16 (length share) ++ share))

-- The body of an answer to a client: TLS 1.2, the random, the session identifier with its length, the
-- cipher suite, no compression, and the extensions with their length.
abbrev pub answer_body : Bytes → Bytes → ℕ → ℕ → Bytes → Bytes
answer_body random session_id suite group share =
    put_be16 771
    ++ (random
        ++ ((length session_id % 256)
            ∷ (session_id
                ++ (put_be16 suite
                    ++ (0
                        ∷ (put_be16 (length (extensions group share))
                            ++ extensions group share))))))

length-extensions :
    (group : ℕ) (share : Bytes) → length (extensions group share) ≡ 14 + length share
length-extensions group share = omega arith

length-key_share :
    (group : ℕ) (share : Bytes)
    → length (put_be16 group ++ (put_be16 (length share) ++ share)) ≡ 4 + length share
length-key_share group share = omega arith

pub hello_body-answer_body :
    (random session_id : Bytes) (suite group : ℕ) (share : Bytes)
    → hello_body random session_id suite group share
      ≡ answer_body random session_id suite group share
hello_body-answer_body random session_id suite group share =
    ap₂
      (λ (a b : ℕ).
        0x03
        ∷ 0x03
        ∷ (random
            ++ ((length session_id % 256)
                ∷ (session_id
                    ++ (put_be16 suite
                        ++ (0x00
                            ∷ (put_be16 a
                                ++ (0x00
                                    ∷ 0x2b
                                    ∷ 0x00
                                    ∷ 0x02
                                    ∷ 0x03
                                    ∷ 0x04
                                    ∷ 0x00
                                    ∷ 0x33
                                    ∷ (put_be16 b
                                        ++ (put_be16 group
                                            ++ (put_be16 (length share) ++ share)))))))))))
      (sym (length-extensions group share)) (sym (length-key_share group share))

-- The suite of an answer: 0x1301 or 0x1303 or 0x1302, the first of these that the client offers, and
-- 0x1301 where it offers none.
abbrev pub is_offered : ℕ → List ℕ → Bool
is_offered suite [] = false
is_offered suite (s ∷ suites) = s == suite || is_offered suite suites

abbrev pub best_suite : List ℕ → ℕ
best_suite suites =
    if is_offered 4865 suites
    then 4865
    else if is_offered 4867 suites
    then 4867
    else if is_offered 4866 suites
    then 4866
    else 4865

contains_suite-is_offered :
    (suite : ℕ) (suites : List ℕ) → contains_suite suite suites ≡ is_offered suite suites
contains_suite-is_offered suite [] = refl
contains_suite-is_offered suite (s ∷ suites) =
    ground (arith, contains_suite-is_offered suite suites)

pub select_cipher-best_suite :
    (suites : List ℕ) → select_cipher preferred_suites suites ≡ best_suite suites
unfolding select_cipher
select_cipher-best_suite suites =
    rw
      (
        contains_suite-is_offered 4865 suites,
        contains_suite-is_offered 4867 suites,
        contains_suite-is_offered 4866 suites,
      )
      refl

-- Three whole records: the ServerHello, a change of the cipher, and application data.
abbrev pub flight : Bytes → Bytes → Bytes
flight body enc_data =
    frame tls_record_handshake 0x03 0x03 (hello_message body)
    ++ (frame tls_record_ccs 0x03 0x03 (0x01 ∷ []) ++ frame tls_record_app_data 0x03 0x03 enc_data)

pub server_hello_record-frame :
    (session_id : Bytes) (suite group : ℕ) (share : Bytes)
    → server_hello_record session_id suite group share
      ≡ frame tls_record_handshake 0x03 0x03
          (hello_message (hello_body (replicate 32 0) session_id suite group share))
unfolding server_hello_record
server_hello_record-frame session_id suite group share =
    let rest = hello_end session_id suite group share in
    ap₂
      (λ (a b : ℕ).
        tls_record_handshake
        ∷ 0x03
        ∷ 0x03
        ∷ (put_be16 a
            ++ (0x02
                ∷ 0x00
                ∷ (put_be16 b ++ hello_body (replicate 32 0) session_id suite group share))))
      (omega arith) (omega arith)

-- The eleven bytes before the random, and what follows them.
abbrev shape : ℕ → ℕ → Bytes → Bytes
shape a b text =
    tls_record_handshake
    ∷ 0x03
    ∷ 0x03
    ∷ (put_be16 a ++ (0x02 ∷ 0x00 ∷ (put_be16 b ++ (0x03 ∷ 0x03 ∷ text))))

copy_at-shape :
    (a b : ℕ) (mac text : Bytes)
    → length mac ≡ 32
    → copy_at 11 32 mac (shape a b (replicate 32 0 ++ text)) ≡ shape a b (mac ++ text)
copy_at-shape a b mac text l =
    let at : 11 + min 32 (length mac) ≡ 43 = omega (arith, l) in
    ap₂ (λ (m rest : Bytes). shape a b (m ++ rest)) (take_all 32 mac (omega (arith, l)))
      (ap (λ n. drop n (shape a b (replicate 32 0 ++ text))) at)

zeroed-shape :
    (a b : ℕ) (mac text : Bytes)
    → length mac ≡ 32
    → zeroed (shape a b (mac ++ text)) ≡ shape a b (replicate 32 0 ++ text)
zeroed-shape a b mac text l =
    ap (λ rest. shape a b (replicate 32 0 ++ rest)) (drop_at 32 mac text l)

frame-shape :
    (random tail more : Bytes)
    → length random ≡ 32
    → frame tls_record_handshake 0x03 0x03 (hello_message (0x03 ∷ 0x03 ∷ (random ++ tail))) ++ more
      ≡ shape (length tail + 38) (length tail + 34) (random ++ (tail ++ more))
frame-shape random tail more l =
    let n : length (hello_message (0x03 ∷ 0x03 ∷ (random ++ tail))) ≡ length tail + 38 =
      omega (arith, length-append random tail, l) in
    let m : length (0x03 ∷ 0x03 ∷ (random ++ tail)) ≡ length tail + 34 =
      omega (arith, length-append random tail, l) in
    ap₂ (λ (a b : ℕ). shape a b ((random ++ tail) ++ more)) n m
    ∙ ap (shape (length tail + 38) (length tail + 34)) (append_assoc random tail more)

-- The hash goes into the first record, and what a client hashes again is what the server hashed.
pub sign_response-frame :
    (hmac_sha256 : Bytes → Bytes → Bytes) (secret client_random tail more : Bytes)
    → ((key text : Bytes) → length (hmac_sha256 key text) ≡ 32)
    → (random : Bytes) × (sign_response hmac_sha256 secret client_random (
          frame tls_record_handshake 0x03 0x03
            (hello_message (0x03 ∷ 0x03 ∷ (replicate 32 0 ++ tail)))
          ++ more)
        ≡ frame tls_record_handshake 0x03 0x03 (hello_message (0x03 ∷ 0x03 ∷ (random ++ tail)))
          ++ more)
      × (random
          ≡ hmac_sha256 secret (
              client_random
              ++ zeroed (
                  frame tls_record_handshake 0x03 0x03
                    (hello_message (0x03 ∷ 0x03 ∷ (random ++ tail)))
                  ++ more)))
      × (length random ≡ 32)
unfolding sign_response
sign_response-frame hmac_sha256 secret client_random tail more is_mac =
    let zeros : Bytes = replicate 32 0 in
    let a = length tail + 38 in
    let b = length tail + 34 in
    let text = tail ++ more in
    let random = hmac_sha256 secret (client_random ++ shape a b (zeros ++ text)) in
    let l : length random ≡ 32 = is_mac secret (client_random ++ shape a b (zeros ++ text)) in
    (
      random,
      ap (λ r. copy_at 11 32 (hmac_sha256 secret (client_random ++ r)) r)
            (frame-shape zeros tail more refl)
          ∙ copy_at-shape a b random text l
          ∙ sym (frame-shape random tail more l),
      ap (λ r. hmac_sha256 secret (client_random ++ r))
          (sym (ap zeroed (frame-shape random tail more l) ∙ zeroed-shape a b random text l)),
      l,
    )

-- The group and the length of the key share: X25519MLKEM768 for a client that has offered a share of it with
-- 1216 bytes, and X25519 for any other.
abbrev pub share_kind : Option ℕ → ℕ × ℕ
share_kind none = (29, 32)
share_kind (some n) = if n == 1216 then (4588, 1120) else (29, 32)

abbrev pub share_of : FakeTlsClientHelloInfo → ℕ × ℕ
share_of info = share_kind (lookup 4588 info.key_shares)
