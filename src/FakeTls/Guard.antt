-- ===== src/FakeTls/Guard.antt =====
-- acceptFakeTLSClient of src/fake_tls.go on every input: which clients it lets in, and what the others get.
use tg_ws_proxy_go.Base.{
  true, Bool, ◌+◌, ◌≤◌, ◌&&◌, subst, length_zero, length-append, length-take, length-drop, take_at,
  ℕ, ◌*◌, ◌≡◌, refl, sym, ap, ◌∙◌, ◌⊎◌, inl, inr, [], ◌∷◌, ◌++◌, false, not, ◌||◌, none, some,
  Bytes, be16, ltb, leb, ◌==◌, if◌then◌else◌, length, take, drop, get_or, take-append-drop,
  append_assoc, Option-cases, Bool-cases, arith,
}
use tg_ws_proxy_go.FakeTls.Records.{tls_record_handshake}
use tg_ws_proxy_go.FakeTls.Conn.{got, failed, ReadError, eof, unexpected_eof, read_full}
use tg_ws_proxy_go.FakeTls.ClientHello.{FakeTlsClientHelloInfo}
use tg_ws_proxy_go.FakeTls.ParseTotal.{parse_fake_tls_client_hello_total}
use tg_ws_proxy_go.FakeTls.Verify.{verify_fake_tls_client_hello}
use tg_ws_proxy_go.FakeTls.ServerHello.{random_int_in_range, build_server_hello}
use tg_ws_proxy_go.FakeTls.Accept.{
  Handshaken, panics, is_dropped, is_redirected, is_masked, is_accepted, Surroundings,
  handshake_len, read_full_conn, read_handshake, answer_client, check_hello, accept_fake_tls_client,
}

-- The length that the header of the first record tells, and the record: the ClientHello.
abbrev pub hello_len : Bytes → ℕ
hello_len raw = be16 (get_or raw 3 0) (get_or raw 4 0)

abbrev pub hello_of : Bytes → Bytes
hello_of raw = take (5 + hello_len raw) raw

-- Whether the client has sent one whole handshake record, with 1 to 65536 bytes in it.
abbrev pub is_whole : Bytes → Bool
is_whole raw =
    (get_or raw 0 0 == 0x16 && leb 1 (hello_len raw))
    && (leb (hello_len raw) 65536 && leb (5 + hello_len raw) (length raw))

abbrev pub IsVerified : Surroundings → Bytes → Bytes → Type 0
IsVerified w secret hello =
    (answer : Bytes × Bytes) × (verify_fake_tls_client_hello w.hmac_sha256 hello secret w.now
      ≡ some answer)

-- The handshake of a client that sends `raw`: never a panic; a redirect only where a first byte begins no
-- handshake; the masking domain gets the whole ClientHello, only where the check refuses it; a
-- client is let in only behind a whole hello that the check accepts; and a client is dropped, with
-- nothing or a part of an answer, only if it has sent no whole hello or one that the check accepts.
abbrev pub IsGuarded : Surroundings → Bytes → Bytes → Handshaken → Type 0
IsGuarded w secret raw panics = ⊥
IsGuarded w secret raw is_dropped =
    ((raw ≡ []) ⊎ ((get_or raw 0 0 == 0x16) ≡ true))
    × (is_whole raw ≡ true → IsVerified w secret (hello_of raw))
IsGuarded w secret raw is_redirected = (1 ≤ length raw) × ((get_or raw 0 0 == 0x16) ≡ false)
IsGuarded w secret raw (is_masked hello) =
    (is_whole raw ≡ true)
    × (hello ≡ hello_of raw)
    × (verify_fake_tls_client_hello w.hmac_sha256 (hello_of raw) secret w.now ≡ none)
IsGuarded w secret raw (is_accepted c hs) =
    (is_whole raw ≡ true) × IsVerified w secret (hello_of raw)

-- Behind a hello that the check accepts.
module _ (w : Surroundings) (secret raw : Bytes) (begins : (get_or raw 0 0 == 0x16) ≡ true)
    (whole : is_whole raw ≡ true) where
  read_handshake-IsGuarded :
      (server_hello rest : Bytes)
      → IsVerified w secret (hello_of raw)
      → IsGuarded w secret raw (read_handshake server_hello rest)
  unfolding read_handshake
  read_handshake-IsGuarded server_hello rest v =
      elim (Option-cases (
        read_full_conn handshake_len handshake_len
          (record { raw_in = rest; raw_out = server_hello; read_buf = [] }))) [
            | inl f ↦ rw (read_handshake, f) (inr begins, λ _. v)
            | inr (c, f) ↦ rw (read_handshake, f) (whole, v)
          ]

  answer_client-IsGuarded :
      (rest : Bytes) (answer : Bytes × Bytes) (info : FakeTlsClientHelloInfo) (n : ℕ)
      → verify_fake_tls_client_hello w.hmac_sha256 (hello_of raw) secret w.now ≡ some answer
      → IsGuarded w secret raw (answer_client w secret answer info n rest)
  unfolding answer_client
  answer_client-IsGuarded rest answer info n v =
      let dropped : IsGuarded w secret raw is_dropped = (inr begins, λ _. (answer, v)) in
      elim (Option-cases
        (build_server_hello w.hmac_sha256 w.entropy secret answer.0 answer.1 info n)) [
          | inl f ↦ rw (answer_client, f) dropped
          | inr (sh, f) ↦ elim (Option-cases (random_int_in_range w.entropy.rand_int 8000 24000)) [
            | inl g ↦ rw (answer_client, f, g) dropped
            | inr (d, g) ↦ elim (Bool-cases (w.ended || not w.writes)) [
              | inl k ↦ rw (answer_client, f, g, k) dropped
              | inr k ↦ rw (answer_client, f, g, k) (read_handshake-IsGuarded sh rest (answer, v))
            ]
          ]
        ]

  check_hello-IsGuarded :
      (n : ℕ) (hello rest : Bytes)
      → hello ≡ hello_of raw
      → IsGuarded w secret raw (check_hello w secret n hello rest)
  unfolding check_hello
  check_hello-IsGuarded n hello rest e =
      subst (λ h. IsGuarded w secret raw (check_hello w secret n h rest)) (sym e)
        (checked (hello_of raw) refl)
    where
      checked :
          (h : Bytes) → h ≡ hello_of raw → IsGuarded w secret raw (check_hello w secret n h rest)
      checked h same =
          let (info, parses) = parse_fake_tls_client_hello_total h in
          elim (Option-cases (verify_fake_tls_client_hello w.hmac_sha256 h secret w.now)) [
            | inl v ↦
                rw (check_hello, v)
                  (
                    whole,
                    same,
                    subst (λ b. verify_fake_tls_client_hello w.hmac_sha256 b secret w.now ≡ none)
                        same v,
                  )
            | inr (answer, v) ↦
                rw (check_hello, v, parses)
                  (answer_client-IsGuarded rest answer info n (
                    subst
                      (λ b. verify_fake_tls_client_hello w.hmac_sha256 b secret w.now ≡ some answer)
                      same v))
          ]

read_full-cases :
    (n : ℕ) (raw : Bytes)
    → ((e : ReadError) × (rest : Bytes) × (read_full n raw ≡ failed e rest)
        × (leb n (length raw) ≡ false))
      ⊎ ((read_full n raw ≡ got (take n raw) (drop n raw)) × (leb n (length raw) ≡ true))
unfolding read_full
read_full-cases n raw = elim (Bool-cases (leb n (length raw))) [
  | inl e ↦ inr (rw (e) refl, e)
  | inr e ↦ inl (if length raw == 0 then eof else unexpected_eof, [], ground (arith, e), e)
]

first_byte : (raw : Bytes) → get_or (take 1 raw) 0 0 ≡ get_or raw 0 0
first_byte [] = refl
first_byte (b ∷ bs) = refl

-- The length in the second read is that of the record.
hello_len-header :
    (raw : Bytes)
    → be16 (get_or (take 4 (drop 1 raw)) 2 0) (get_or (take 4 (drop 1 raw)) 3 0) ≡ hello_len raw
hello_len-header [] = refl
hello_len-header (_ ∷ []) = refl
hello_len-header (_ ∷ _ ∷ []) = refl
hello_len-header (_ ∷ _ ∷ _ ∷ []) = refl
hello_len-header (_ ∷ _ ∷ _ ∷ _ ∷ []) = refl
hello_len-header (_ ∷ _ ∷ _ ∷ _ ∷ _ ∷ bs) = refl

-- The three reads of the hello, and the rest.
three_reads :
    (raw : Bytes) (n : ℕ)
    → raw
      ≡ (take 1 raw ++ (take 4 (drop 1 raw) ++ take n (drop 4 (drop 1 raw))))
        ++ drop n (drop 4 (drop 1 raw))
three_reads raw n =
    let r₁ = drop 1 raw in
    let r₂ = drop 4 r₁ in
    sym (
      append_assoc (take 1 raw) (take 4 r₁ ++ take n r₂) (drop n r₂)
      ∙ ap (λ t. take 1 raw ++ t)
          (append_assoc (take 4 r₁) (take n r₂) (drop n r₂)
            ∙ ap (λ t. take 4 r₁ ++ t) (take-append-drop n r₂)
            ∙ take-append-drop 4 r₁)
      ∙ take-append-drop 1 raw)

three_reads-hello_of :
    (raw : Bytes) (n : ℕ)
    → n ≡ hello_len raw
    → 5 + n ≤ length raw
    → take 1 raw ++ (take 4 (drop 1 raw) ++ take n (drop 4 (drop 1 raw))) ≡ hello_of raw
three_reads-hello_of raw n e h =
    let r₁ = drop 1 raw in
    let r₂ = drop 4 r₁ in
    let front = take 1 raw ++ (take 4 r₁ ++ take n r₂) in
    let size : length front ≡ 5 + n = omega (
      arith,
      length-append (take 1 raw) (take 4 r₁ ++ take n r₂),
      length-append (take 4 r₁) (take n r₂),
      length-take 1 raw,
      length-take 4 r₁,
      length-take n r₂,
      length-drop 1 raw,
      length-drop 4 r₁,
    ) in
    sym (take_at (5 + n) front (drop n r₂) size)
    ∙ ap (take (5 + n)) (sym (three_reads raw n))
    ∙ ap (λ k. take (5 + k) raw) e

is_whole-bounds :
    (raw : Bytes) (n : ℕ)
    → (get_or raw 0 0 == 0x16) ≡ true
    → n ≡ hello_len raw
    → (n == 0 || ltb (64 * 1024) n) ≡ false
    → 5 + n ≤ length raw
    → is_whole raw ≡ true
is_whole-bounds raw n t e k h = rw (t) (
    bounds (hello_len raw) (subst (λ m. (m == 0 || ltb (64 * 1024) m) ≡ false) e k)
      (subst (λ m. 5 + m ≤ length raw) e h))
  where
    bounds :
        (m : ℕ)
        → (m == 0 || ltb (64 * 1024) m) ≡ false
        → 5 + m ≤ length raw
        → (leb 1 m && (leb m 65536 && leb (5 + m) (length raw))) ≡ true
    bounds m k h = ground (arith, k, h)

-- Whatever a client sends, and whatever happens around it: acceptFakeTLSClient ends in one of its returns,
-- never in a panic. It redirects only where a first byte has come that begins no handshake; the
-- masking domain gets exactly the first record, whole, and only where the check refuses it; a client
-- is let in only behind a whole first record that the check accepts; and a client is dropped only if it
-- has sent nothing, or its first byte begins a handshake and it has sent no whole record of 1 to 65536
-- bytes or one that the check accepts.
pub accept_fake_tls_client-IsGuarded :
    (w : Surroundings) (secret : Bytes) (app_data_len : ℕ) (raw : Bytes)
    → IsGuarded w secret raw (accept_fake_tls_client w secret app_data_len raw)
unfolding accept_fake_tls_client
accept_fake_tls_client-IsGuarded w secret app_data_len raw = elim (read_full-cases 1 raw) [
  | inl (e, rest, f, l) ↦
      rw (accept_fake_tls_client, f)
        (inl (length_zero raw (ground (arith, l))), λ h. absurd (ground (arith, l, h)))
  | inr (f, l) ↦ elim (Bool-cases (get_or raw 0 0 == tls_record_handshake)) [
    | inr t ↦ rw (accept_fake_tls_client, f, first_byte raw, t) (ground (arith, l), t)
    | inl t ↦ elim (read_full-cases 4 (drop 1 raw)) [
      | inl (e, rest, g, m) ↦
          rw (accept_fake_tls_client, f, first_byte raw, t, g)
            (inr t, λ h. absurd (ground (arith, h, m, length-drop 1 raw)))
      | inr (g, m) ↦
          let header = take 4 (drop 1 raw) in
          let n = be16 (get_or header 2 0) (get_or header 3 0) in
          let r₂ = drop 4 (drop 1 raw) in
          let same : n ≡ hello_len raw = hello_len-header raw in
          elim (Bool-cases (n == 0 || ltb (64 * 1024) n)) [
            | inl k ↦
                rw (accept_fake_tls_client, f, first_byte raw, t, g, k)
                  (inr t, λ h. absurd (ground (arith, same, k, h)))
            | inr k ↦ elim (read_full-cases n r₂) [
              | inl (e, rest, o, q) ↦
                  rw (accept_fake_tls_client, f, first_byte raw, t, g, k, o)
                    (
                      inr t,
                      λ h. absurd (
                          ground
                            (arith, h, same, q, length-drop 1 raw, length-drop 4 (drop 1 raw))),
                    )
              | inr (o, q) ↦
                  let long : 5 + n ≤ length raw =
                    ground (arith, m, q, length-drop 1 raw, length-drop 4 (drop 1 raw)) in
                  rw (accept_fake_tls_client, f, first_byte raw, t, g, k, o)
                    (check_hello-IsGuarded w secret raw t (is_whole-bounds raw n t same k long)
                      app_data_len (take 1 raw ++ (header ++ take n r₂)) (drop n r₂)
                      (three_reads-hello_of raw n same long))
            ]
          ]
    ]
  ]
]
