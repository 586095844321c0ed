-- ===== src/FakeTls/Payload.antt =====
-- readTLSPayload of src/fake_tls.go on a raw connection that carries whole records: reads of one header
-- and of one body, and what the loop answers.
use tg_ws_proxy_go.Base.{
  ℕ, zero, suc, ◌%◌, ◌/◌, ◌≤◌, ◌<◌, ◌≡◌, refl, ap, [], ◌∷◌, ◌++◌, true, false, arith, Bytes, be16,
  put_be16, be16-put_be16, ltb, length, take-length_append, drop-length_append, length-append,
  lt→ltb,
}
use tg_ws_proxy_go.FakeTls.Records.{
  Carries, done, app, ccs, frame, tls_record_ccs, tls_record_app_data,
}
use tg_ws_proxy_go.FakeTls.Conn.{RawRead, got, failed, eof, read_full, copy_n, read_tls_payload}

pub read_full_enough : (body rest : Bytes) → read_full (length body) (body ++ rest) ≡ got body rest
unfolding read_full
read_full_enough body rest =
    ground
      (arith, length-append body rest, take-length_append body rest, drop-length_append body rest)

pub copy_n_enough : (body rest : Bytes) → copy_n (length body) (body ++ rest) ≡ got body rest
unfolding copy_n
copy_n_enough body rest =
    ground
      (arith, length-append body rest, take-length_append body rest, drop-length_append body rest)

pub read_header :
    (kind major minor : ℕ) (body rest : Bytes)
    → read_full 5 (frame kind major minor body ++ rest)
      ≡ got (kind ∷ major ∷ minor ∷ put_be16 (length body)) (body ++ rest)
read_header kind major minor body rest =
    read_full_enough (kind ∷ major ∷ minor ∷ put_be16 (length body)) (body ++ rest)

-- The same, with the length read back from the header.
pub read_full_body :
    (body rest : Bytes)
    → length body < 65536
    → read_full (be16 (length body % 65536 / 256) (length body % 256)) (body ++ rest)
      ≡ got body rest
read_full_body body rest h = rw (be16-put_be16 (length body) h) (read_full_enough body rest)

copy_n_body :
    (body rest : Bytes)
    → length body < 65536
    → copy_n (be16 (length body % 65536 / 256) (length body % 256)) (body ++ rest) ≡ got body rest
copy_n_body body rest h = rw (be16-put_be16 (length body) h) (copy_n_enough body rest)

module _ (fuel major minor : ℕ) (body rest : Bytes) (short : length body < 65536) where
  read_tls_payload_app :
      1 ≤ length body
      → read_tls_payload (suc fuel) (frame tls_record_app_data major minor body ++ rest)
        ≡ got body rest
  unfolding read_tls_payload
  read_tls_payload_app h =
      rw
        (
          read_header tls_record_app_data major minor body rest,
          read_tls_payload,
          be16-put_be16 (length body) short,
        )
        (ground (arith, read_full_body body rest))

  read_tls_payload_ccs :
      read_tls_payload (suc fuel) (frame tls_record_ccs major minor body ++ rest)
      ≡ read_tls_payload fuel rest
  unfolding read_tls_payload
  read_tls_payload_ccs =
      rw
        (
          read_header tls_record_ccs major minor body rest,
          read_tls_payload,
          be16-put_be16 (length body) short,
        )
        (ccs_body body short)
    where
      ccs_body :
          (body : Bytes)
          → length body < 65536
          → elim (ltb 0 (length body)) [
            | false ↦ read_tls_payload fuel (body ++ rest)
            | true ↦
                elim (copy_n
                  (be16 (length body % 65536 / 256) (length body % 256))
                  (body ++ rest)) [
                    | failed e after ↦ failed e after
                    | got _ after ↦ read_tls_payload fuel after
                  ]
          ]
            ≡ read_tls_payload fuel rest
      ccs_body [] h = refl
      ccs_body (b ∷ bs) h =
          rw (lt→ltb 0 (length (b ∷ bs)) (omega arith), copy_n_body (b ∷ bs) rest h)

module _ (fuel major minor : ℕ) (rest : Bytes) where
  read_tls_payload_empty :
      read_tls_payload (suc fuel) (frame tls_record_app_data major minor [] ++ rest)
      ≡ read_tls_payload fuel rest
  unfolding read_tls_payload
  read_tls_payload_empty =
      rw (read_header tls_record_app_data major minor [] rest, read_tls_payload)

-- What readTLSPayload answers on a raw connection that carries the payload.
pub data Serves (payload : Bytes) (r : RawRead) : Type 0 where
  ended : payload ≡ [] → r ≡ failed eof [] → Serves payload r
  served :
      (body rest later : Bytes)
      → r ≡ got body rest
      → payload ≡ body ++ later
      → 1 ≤ length body
      → Carries rest later
      → Serves payload r

app-Serves :
    (fuel major minor : ℕ) (body rest later : Bytes)
    → length body < 65536
    → Carries rest later
    → Serves later (read_tls_payload fuel rest)
    → Serves
        (body ++ later)
        (read_tls_payload (suc fuel) (frame tls_record_app_data major minor body ++ rest))
app-Serves fuel major minor [] rest later h c s =
    rw (read_tls_payload_empty fuel major minor rest) s
app-Serves fuel major minor (b ∷ bs) rest later h c s =
    served (b ∷ bs) rest later (read_tls_payload_app fuel major minor (b ∷ bs) rest h (omega arith))
      refl (omega arith) c

pub read_tls_payload-Serves :
    {raw payload : Bytes}
    → Carries raw payload
    → (fuel : ℕ) → length raw < fuel
    → Serves payload (read_tls_payload fuel raw)
read_tls_payload-Serves c zero h = absurd (omega arith)
read_tls_payload-Serves done (suc fuel) h = ended refl (unfold read_tls_payload read_full in refl)
read_tls_payload-Serves (app {rest} {later} major minor body e p short c) (suc fuel) h =
    rw (e, p)
      (app-Serves fuel major minor body rest later short c (
        read_tls_payload-Serves c fuel (
          omega
            (arith, ap length e, length-append (frame tls_record_app_data major minor body) rest))))
read_tls_payload-Serves (ccs {rest} major minor body e short c) (suc fuel) h =
    rw (e, read_tls_payload_ccs fuel major minor body rest short)
      (read_tls_payload-Serves c fuel
        (omega (arith, ap length e, length-append (frame tls_record_ccs major minor body) rest)))
