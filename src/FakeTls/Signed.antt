-- ===== src/FakeTls/Signed.antt =====
-- verifyFakeTLSClientHello of src/fake_tls.go accepts exactly the hellos that were signed with the
-- secret within two minutes of now.
use tg_ws_proxy_go.Base.{
  ℕ, ◌+◌, ◌%◌, ◌/◌, ◌≤◌, ◌<◌, ◌≡◌, ◌↔◌, refl, sym, ap, ap₂, ◌∙◌, [], ◌∷◌, ◌++◌, Bool, true, false,
  not, ◌||◌, Option, none, some, arith, Bytes, IsByte, le32, put_le32, ltb, ◌==◌, if◌then◌else◌,
  length, take, drop, get_or, xor_bytes, bytes_equal, bytes_equal_refl, bytes_equal→eq,
  xor_bytes-xor_bytes, xor_bytes-IsByte, length-xor_bytes, All, le→ltb, ltb→le, length-take,
  length-drop, take-append-drop, take_at, drop_at, All-take, All-drop,
}
use tg_ws_proxy_go.FakeTls.Records.{tls_record_handshake}
use tg_ws_proxy_go.FakeTls.Verify.{
  client_random, zeroed, timestamp, out_of_time, session_id, verify_fake_tls_client_hello,
  tls_timestamp_tolerance,
}

-- The random that a client puts into its hello: the MAC of the hello without it, with the time laid
-- over its last four bytes.
abbrev pub signature : Bytes → ℕ → Bytes
signature mac ts = take 28 mac ++ xor_bytes (put_le32 ts) (drop 28 mac)

-- A hello of a client that knows the secret, signed at a time near `now`.
pub record IsSigned (mac hello : Bytes) (now : ℕ) : Type 0 where
  pub long : 43 ≤ length hello
  pub is_handshake : get_or hello 0 0 ≡ tls_record_handshake
  pub is_client_hello : get_or hello 5 0 ≡ 0x01
  pub ts : ℕ
  pub is_word : ts < 4294967296
  pub signed : client_random hello ≡ signature mac ts
  pub early : now ≤ ts + tls_timestamp_tolerance
  pub late : ts ≤ now + tls_timestamp_tolerance

-- What the hash gives: 32 bytes.
pub record IsMac (mac : Bytes) : Type 0 where
  pub length_is : length mac ≡ 32
  pub are_bytes : All IsByte mac

le32-put_le32 :
    (n : ℕ)
    → n < 4294967296
    → le32 (n % 256) (n / 256 % 256) (n / 65536 % 256) (n / 16777216 % 256) ≡ n
le32-put_le32 n h = omega arith

-- Four bytes are the digits of the number that they stand for.
four_digits :
    (b : Bytes)
    → length b ≡ 4
    → All IsByte b
    → (put_le32 (le32 (get_or b 0 0) (get_or b 1 0) (get_or b 2 0) (get_or b 3 0)) ≡ b)
      × (le32 (get_or b 0 0) (get_or b 1 0) (get_or b 2 0) (get_or b 3 0) < 4294967296)
four_digits [] l h = absurd (omega arith)
four_digits (a ∷ []) l h = absurd (omega arith)
four_digits (a ∷ b ∷ []) l h = absurd (omega arith)
four_digits (a ∷ b ∷ c ∷ []) l h = absurd (omega arith)
four_digits (a ∷ b ∷ c ∷ d ∷ []) l h =
    let e₀ : le32 a b c d % 256 ≡ a = omega arith in
    let e₁ : le32 a b c d / 256 % 256 ≡ b = omega arith in
    let e₂ : le32 a b c d / 65536 % 256 ≡ c = omega arith in
    let e₃ : le32 a b c d / 16777216 % 256 ≡ d = omega arith in (cc, omega arith)
four_digits (a ∷ b ∷ c ∷ d ∷ e ∷ r) l h = absurd (omega arith)

put_le32-IsByte : (n : ℕ) → All IsByte (put_le32 n)
put_le32-IsByte n = omega arith

module _ (mac : Bytes) (m : IsMac mac) where
  tail_length : length (drop 28 mac) ≡ 4
  tail_length = omega (arith, length-drop 28 mac, m.length_is)

  head_length : length (take 28 mac) ≡ 28
  head_length = omega (arith, length-take 28 mac, m.length_is)

  drop-signature : (ts : ℕ) → drop 28 (signature mac ts) ≡ xor_bytes (put_le32 ts) (drop 28 mac)
  drop-signature ts = drop_at 28 (take 28 mac) (xor_bytes (put_le32 ts) (drop 28 mac)) head_length

  timestamp-signature : (ts : ℕ) → ts < 4294967296 → timestamp (signature mac ts) mac ≡ ts
  unfolding timestamp
  timestamp-signature ts h =
      rw
        (
          drop-signature ts,
          xor_bytes-xor_bytes (put_le32 ts) (drop 28 mac) (put_le32-IsByte ts)
              (All-drop IsByte 28 mac m.are_bytes) (omega (arith, tail_length)),
        )
        (le32-put_le32 ts h)

  -- Any 32 bytes that begin like the MAC are its signature of the time that they hold.
  signature-timestamp :
      (random : Bytes)
      → length random ≡ 32
      → All IsByte random
      → take 28 random ≡ take 28 mac
      → (random ≡ signature mac (timestamp random mac)) × (timestamp random mac < 4294967296)
  unfolding timestamp
  signature-timestamp random l h e =
      let tail_is : length (drop 28 random) ≡ 4 = omega (arith, length-drop 28 random) in
      let tail_bytes = All-drop IsByte 28 random h in
      let mac_bytes = All-drop IsByte 28 mac m.are_bytes in
      let ts = xor_bytes (drop 28 random) (drop 28 mac) in
      let ts_length : length ts ≡ 4 =
        omega (arith, length-xor_bytes (drop 28 random) (drop 28 mac), tail_length) in
      let digits =
        four_digits ts ts_length
          (xor_bytes-IsByte (drop 28 random) (drop 28 mac) tail_bytes mac_bytes) in
      (
        sym (take-append-drop 28 random)
            ∙ ap₂ ◌++◌ e (
                sym (
                  ap (λ t. xor_bytes t (drop 28 mac)) digits.0
                  ∙ xor_bytes-xor_bytes (drop 28 random) (drop 28 mac) tail_bytes mac_bytes
                      (omega (arith, tail_length)))),
        digits.1,
      )

-- The early returns, one after another.
abbrev ladder {ℓ} : {A : Type ℓ} → Bool → Bool → Bool → Bool → A → Option A
ladder a b c d x =
    if a then none else if b then none else if c then none else if d then none else some x

ladder_accepts {ℓ} :
    {A : Type ℓ} (a b c d : Bool) (x : A)
    → a ≡ false
    → b ≡ false
    → c ≡ false
    → d ≡ false
    → ladder a b c d x ≡ some x
ladder_accepts a b c d x ha hb hc hd = rw (ha, hb, hc, hd)

ladder_sound {ℓ} :
    {A : Type ℓ} (a b c d : Bool) (x : A) {y : A}
    → ladder a b c d x ≡ some y
    → (a ≡ false) × (b ≡ false) × (c ≡ false) × (d ≡ false) × (y ≡ x)
ladder_sound a b c d x e = ground arith

wrong_type_iff : (a b k m : ℕ) → ((not (a == k) || not (b == m)) ≡ false) ↔ ((a ≡ k) × (b ≡ m))
wrong_type_iff a b k m = (λ e. ground arith, λ h. ground arith)

out_of_time_iff :
    (now ts : ℕ)
    → (out_of_time now ts ≡ false)
      ↔ ((now ≤ ts + tls_timestamp_tolerance) × (ts ≤ now + tls_timestamp_tolerance))
unfolding out_of_time
out_of_time_iff now ts = (λ e. ground arith, λ h. ground arith)

not-false : (b : Bool) → not b ≡ false → b ≡ true
not-false true e = refl
not-false false e = cc

-- Where the hash of the hello has 32 bytes: a hello that is signed with the secret, at a time
-- within the tolerance, is accepted, and the answer is its random and its session identifier.
pub verify_fake_tls_client_hello_accepts :
    (hmac_sha256 : Bytes → Bytes → Bytes) (hello secret : Bytes) (now : ℕ)
    → IsMac (hmac_sha256 secret (zeroed hello))
    → IsSigned (hmac_sha256 secret (zeroed hello)) hello now
    → verify_fake_tls_client_hello hmac_sha256 hello secret now
      ≡ some (client_random hello, session_id hello)
unfolding verify_fake_tls_client_hello
verify_fake_tls_client_hello_accepts hmac_sha256 hello secret now m s =
    let mac = hmac_sha256 secret (zeroed hello) in
    let starts : take 28 (client_random hello) ≡ take 28 mac =
      ap (take 28) s.signed ∙ take_at 28 (take 28 mac) _ (head_length mac m) in
    let stamped : timestamp (client_random hello) mac ≡ s.ts =
      ap (λ r. timestamp r mac) s.signed ∙ timestamp-signature mac m s.ts s.is_word in
    let fits : bytes_equal (take 28 mac) (take 28 (client_random hello)) ≡ true =
      rw starts (bytes_equal_refl (take 28 mac)) in
    let timely : out_of_time now (timestamp (client_random hello) mac) ≡ false =
      rw stamped ((out_of_time_iff now s.ts).1 (s.early, s.late)) in
    ladder_accepts _ _ _ _ _ (le→ltb (length hello) 43 s.long)
      ((wrong_type_iff _ _ _ _).1 (s.is_handshake, s.is_client_hello)) (ap not fits) timely

-- Where the hash of the hello has 32 bytes and the hello is of bytes: if it is accepted, it is
-- signed with the secret at a time within the tolerance, and the answer is its random and its
-- session identifier.
pub verify_fake_tls_client_hello_sound :
    (hmac_sha256 : Bytes → Bytes → Bytes) (hello secret : Bytes) (now : ℕ) (answer : Bytes × Bytes)
    → IsMac (hmac_sha256 secret (zeroed hello))
    → All IsByte hello
    → verify_fake_tls_client_hello hmac_sha256 hello secret now ≡ some answer
    → IsSigned (hmac_sha256 secret (zeroed hello)) hello now
      × (answer ≡ (client_random hello, session_id hello))
unfolding verify_fake_tls_client_hello
verify_fake_tls_client_hello_sound hmac_sha256 hello secret now answer m b e =
    let mac = hmac_sha256 secret (zeroed hello) in
    let passed =
      ladder_sound (ltb (length hello) 43)
        (not (get_or hello 0 0 == tls_record_handshake) || not (get_or hello 5 0 == 0x01))
        (not (bytes_equal (take 28 mac) (take 28 (client_random hello))))
        (out_of_time now (timestamp (client_random hello) mac))
        (client_random hello, session_id hello) e in
    let long : 43 ≤ length hello = ltb→le (length hello) 43 passed.0 in
    let types =
      (wrong_type_iff (get_or hello 0 0) (get_or hello 5 0) tls_record_handshake 0x01).0 passed.1 in
    let times = (out_of_time_iff now (timestamp (client_random hello) mac)).0 passed.3 in
    let starts =
      bytes_equal→eq (take 28 mac) (take 28 (client_random hello)) (not-false _ passed.2) in
    let sig =
      signature-timestamp mac m (client_random hello)
        (omega (arith, length-take 32 (drop 11 hello), length-drop 11 hello))
        (All-take IsByte 32 (drop 11 hello) (All-drop IsByte 11 hello b)) (sym starts) in
    (
      record {
        long = long;
        is_handshake = types.0;
        is_client_hello = types.1;
        ts = timestamp (client_random hello) mac;
        is_word = sig.1;
        signed = sig.0;
        early = times.0;
        late = times.1;
      },
      passed.4,
    )
