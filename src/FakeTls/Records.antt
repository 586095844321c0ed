-- ===== src/FakeTls/Records.antt =====
-- src/fake_tls.go, wrapFakeTLSRecords: the payload of a Write as TLS application data records.
use tg_ws_proxy_go.Base.{
  ℕ, min, zero, suc, ◌≤◌, ◌<◌, ◌≡◌, refl, sym, ap, ap₂, ◌∙◌, [], ◌∷◌, ◌++◌, true, false, arith,
  Bytes, put_be16, ltb, ◌==◌, if◌then◌else◌, length, take, drop, append_assoc, append-nil, lt→ltb,
  le→ltb, take_all, dec_le, take-append-drop, length-take, length-drop,
}

abbrev pub tls_record_ccs : ℕ
tls_record_ccs = 0x14

abbrev pub tls_record_handshake : ℕ
tls_record_handshake = 0x16

abbrev pub tls_record_app_data : ℕ
tls_record_app_data = 0x17

abbrev pub tls_record_max_len : ℕ
tls_record_max_len = 16384

-- `chunk := data; if len(chunk) > limit { chunk = chunk[:limit] }`.
unfoldable pub first_chunk : ℕ → Bytes → Bytes
first_chunk limit payload = if ltb limit (length payload) then take limit payload else payload

abbrev record_chunk : Bytes → Bytes
record_chunk payload = first_chunk tls_record_max_len payload

-- The loop on the rounds left: each takes a byte at least, so the length of the payload is enough.
unfoldable pub wrap_loop : ℕ → Bytes → Bytes → Bytes
wrap_loop zero out payload = out
wrap_loop (suc fuel) out payload = elim (ltb 0 (length payload)) [
  | false ↦ out
  | true ↦
      let chunk = record_chunk payload in
      wrap_loop fuel (out ++ (tls_record_app_data ∷ 0x03 ∷ 0x03 ∷ put_be16 (length chunk)) ++ chunk)
        (drop (length chunk) payload)
]

unfoldable pub wrap_fake_tls_records : Bytes → Bytes
wrap_fake_tls_records payload =
    if length payload == 0 then [] else wrap_loop (length payload) [] payload

-- One TLS record: its type, two version bytes, the length of its body, and its body.
abbrev pub frame : ℕ → ℕ → ℕ → Bytes → Bytes
frame kind major minor body = kind ∷ major ∷ minor ∷ (put_be16 (length body) ++ body)

-- `raw` is a row of whole records, and `payload` is what their application data is together. Other
-- records than application data are empty of it: change cipher spec records.
pub data Carries : Bytes → Bytes → Type 0 where
  done : Carries [] []
  app :
      {raw rest payload later : Bytes} (major minor : ℕ) (body : Bytes)
      → raw ≡ frame tls_record_app_data major minor body ++ rest
      → payload ≡ body ++ later
      → length body < 65536
      → Carries rest later
      → Carries raw payload
  ccs :
      {raw rest payload : Bytes} (major minor : ℕ) (body : Bytes)
      → raw ≡ frame tls_record_ccs major minor body ++ rest
      → length body < 65536
      → Carries rest payload
      → Carries raw payload

first_chunk-take :
    (limit : ℕ) (payload : Bytes)
    → first_chunk limit payload ≡ take (min limit (length payload)) payload
unfolding first_chunk
first_chunk-take limit payload = elim (dec_le (length payload) limit) [
  | yes h ↦
      let short : min limit (length payload) ≡ length payload = omega arith in
      rw (le→ltb limit (length payload) h, short)
        (sym (take_all (length payload) payload (omega arith)))
  | no h ↦
      let long : min limit (length payload) ≡ limit = omega arith in
      rw (lt→ltb limit (length payload) (omega arith), long)
]

length-first_chunk :
    (limit : ℕ) (payload : Bytes) → length (first_chunk limit payload) ≡ min limit (length payload)
length-first_chunk limit payload = omega (
  arith,
  ap length (first_chunk-take limit payload),
  length-take (min limit (length payload)) payload,
)

record_chunk-length :
    (payload : Bytes)
    → 1 ≤ length payload
    → (1 ≤ length (record_chunk payload)) × (length (record_chunk payload) ≤ tls_record_max_len)
record_chunk-length payload h = omega (arith, length-first_chunk tls_record_max_len payload)

record_chunk-append :
    (payload : Bytes)
    → record_chunk payload ++ drop (length (record_chunk payload)) payload ≡ payload
record_chunk-append payload =
    ap₂ (λ t n. t ++ drop n payload) (first_chunk-take tls_record_max_len payload)
      (length-first_chunk tls_record_max_len payload)
    ∙ take-append-drop (min tls_record_max_len (length payload)) payload

-- The record that a round of the loop appends.
abbrev next_record : Bytes → Bytes
next_record payload = frame tls_record_app_data 0x03 0x03 (record_chunk payload)

abbrev after_record : Bytes → Bytes
after_record payload = drop (length (record_chunk payload)) payload

wrap_loop_end : (fuel : ℕ) (out : Bytes) → wrap_loop fuel out [] ≡ out
unfolding wrap_loop
wrap_loop_end zero out = refl
wrap_loop_end (suc fuel) out = refl

wrap_loop_step :
    (fuel : ℕ) (out payload : Bytes)
    → 1 ≤ length payload
    → wrap_loop (suc fuel) out payload
      ≡ wrap_loop fuel (out ++ next_record payload) (after_record payload)
unfolding wrap_loop
wrap_loop_step fuel out payload h =
    rw (lt→ltb 0 (length payload) h, wrap_loop)
      (ap (λ t. wrap_loop fuel t (after_record payload))
        (append_assoc out
          (tls_record_app_data ∷ 0x03 ∷ 0x03 ∷ put_be16 (length (record_chunk payload)))
          (record_chunk payload)))

wrap_loop-Carries :
    (fuel : ℕ) (out payload : Bytes)
    → length payload ≤ fuel
    → (raw : Bytes) × (wrap_loop fuel out payload ≡ out ++ raw) × Carries raw payload
wrap_loop-Carries fuel out [] h = ([], wrap_loop_end fuel out ∙ sym (append-nil out), done)
wrap_loop-Carries zero out (b ∷ bs) h = absurd (omega arith)
wrap_loop-Carries (suc fuel) out (b ∷ bs) h =
    let payload : Bytes = b ∷ bs in
    let bound = record_chunk-length payload (omega arith) in
    let (raw, e, carried) =
      wrap_loop-Carries fuel (out ++ next_record payload) (after_record payload)
        (omega (arith, length-drop (length (record_chunk payload)) payload)) in
    (
      next_record payload ++ raw,
      wrap_loop_step fuel out payload (omega arith)
          ∙ e
          ∙ append_assoc out (next_record payload) raw,
      app 0x03 0x03 (record_chunk payload) refl (sym (record_chunk-append payload)) (omega arith)
          carried,
    )

-- What Write sends is a row of whole application data records that carries the written bytes.
pub wrap_fake_tls_records-Carries :
    (payload : Bytes) → Carries (wrap_fake_tls_records payload) payload
unfolding wrap_fake_tls_records
wrap_fake_tls_records-Carries [] = done
wrap_fake_tls_records-Carries (b ∷ bs) =
    let (raw, e, carried) = wrap_loop-Carries (length (b ∷ bs)) [] (b ∷ bs) (omega arith) in
    rw (suc_is_not_zero (length bs), e) carried
  where
    suc_is_not_zero : (n : ℕ) → (suc n == 0) ≡ false
    suc_is_not_zero n = ground arith
