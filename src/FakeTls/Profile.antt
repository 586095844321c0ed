-- ===== src/FakeTls/Profile.antt =====
-- src/fake_tls_profile.go, the loop of probeFakeTLSConn behind the ClientHello: the length of the first
-- application data record that the masking site answers with. Its dial and hello are left out.
use tg_ws_proxy_go.Base.{
  false, sym, ap, ◌∙◌, leb, ◌&&◌, Bool-cases, inl, inr, ℕ, zero, suc, ◌+◌, ◌<◌, ◌≡◌, refl, Bool,
  not, ◌||◌, List, [], ◌∷◌, ◌++◌, Bytes, be16, be16-put_be16, ltb, ◌==◌, if◌then◌else◌, length,
  get_or, length-append, arith,
}
use tg_ws_proxy_go.FakeTls.Records.{
  frame, tls_record_app_data, tls_record_handshake, tls_record_ccs, tls_record_max_len,
}
use tg_ws_proxy_go.FakeTls.Conn.{got, failed, eof, ReadError, read_full, copy_n}
use tg_ws_proxy_go.FakeTls.Payload.{read_header, copy_n_enough}

-- The length, or the error: of a read, of a header, or of a kind of record.
pub data Probe : Type 0 where
  app_data_len : ℕ → Probe
  read_failed : ReadError → Probe
  invalid_record : Probe
  unexpected_record : ℕ → Probe

abbrev pub is_invalid : ℕ → ℕ → ℕ → Bool
is_invalid major minor size =
    not (major == 0x03) || not (minor == 0x03) || size == 0 || ltb (tls_record_max_len + 256) size

-- On the rounds left: each takes a header at least, so that one more than the bytes is enough.
unfoldable pub probe_records : ℕ → Bytes → Probe
probe_records zero raw = read_failed eof
probe_records (suc fuel) raw = elim (read_full 5 raw) [
  | failed e rest ↦ read_failed e
  | got header rest ↦
      let kind = get_or header 0 0 in
      let size = be16 (get_or header 3 0) (get_or header 4 0) in
      if is_invalid (get_or header 1 0) (get_or header 2 0) size
      then invalid_record
      else if kind == tls_record_app_data
      then app_data_len size
      else if kind == tls_record_handshake || kind == tls_record_ccs
      then elim (copy_n size rest) [
        | failed e after ↦ read_failed e
        | got _ after ↦ probe_records fuel after
      ]
      else unexpected_record kind
]

pub record TlsRecord : Type 0 where
  pub kind : ℕ
  pub major : ℕ
  pub minor : ℕ
  pub body : Bytes

abbrev pub frames : List TlsRecord → Bytes
frames [] = []
frames (r ∷ records) = frame r.kind r.major r.minor r.body ++ frames records

abbrev pub AreShort : List TlsRecord → Type 0
AreShort [] = Unit
AreShort (r ∷ records) = (length r.body < 65536) × AreShort records

-- TLS 1.2 on the wire, and a body of 1 to 16640 bytes.
abbrev pub is_fine : TlsRecord → Bool
is_fine r = (r.major == 3 && r.minor == 3) && (leb 1 (length r.body) && leb (length r.body) 16640)

-- A handshake or a change cipher spec.
abbrev pub is_prelude : TlsRecord → Bool
is_prelude r = is_fine r && (r.kind == 22 || r.kind == 20)

-- The records from the first on that is not of the prelude.
abbrev pub behind_prelude : List TlsRecord → List TlsRecord
behind_prelude [] = []
behind_prelude (r ∷ records) = if is_prelude r then behind_prelude records else r ∷ records

abbrev pub profile_of : List TlsRecord → Probe
profile_of [] = read_failed eof
profile_of (r ∷ records) =
    if is_fine r && r.kind == 23
    then app_data_len (length r.body)
    else if is_fine r
    then unexpected_record r.kind
    else invalid_record

is_fine-is_invalid : (r : TlsRecord) → is_invalid r.major r.minor (length r.body) ≡ not (is_fine r)
is_fine-is_invalid r = ground arith

not_fine :
    (r : TlsRecord) (records : List TlsRecord)
    → is_fine r ≡ false
    → profile_of (behind_prelude (r ∷ records)) ≡ invalid_record
not_fine r records f =
    ap
      (λ b.
        profile_of
          (if b && (r.kind == 22 || r.kind == 20) then behind_prelude records else r ∷ records))
      f
    ∙ ap
        (λ b.
          if b && r.kind == 23
          then app_data_len (length r.body)
          else if b
          then unexpected_record r.kind
          else invalid_record)
        f

-- The decision on the first record.
profile_of-cons :
    (r : TlsRecord) (records : List TlsRecord) (later : Probe)
    → later ≡ profile_of (behind_prelude records)
    → (if is_invalid r.major r.minor (length r.body)
        then invalid_record
        else if r.kind == tls_record_app_data
        then app_data_len (length r.body)
        else if r.kind == tls_record_handshake || r.kind == tls_record_ccs
        then later
        else unexpected_record r.kind)
      ≡ profile_of (behind_prelude (r ∷ records))
profile_of-cons r records later e = elim (Bool-cases (is_fine r)) [
  | inl f ↦ rw (is_fine-is_invalid r, f) (ground (arith, e))
  | inr f ↦
      ap
        (λ b.
          if b
          then invalid_record
          else if r.kind == tls_record_app_data
          then app_data_len (length r.body)
          else if r.kind == tls_record_handshake || r.kind == tls_record_ccs
          then later
          else unexpected_record r.kind)
        (is_fine-is_invalid r ∙ ap not f)
      ∙ sym (not_fine r records f)
]

-- For every row of whole records with which the masking site answers, on more rounds than it has bytes. A
-- record is fine that has the version 3.3 and from 1 to 16640 bytes; the prelude is the fine records
-- of a handshake or a change cipher spec at the front. What stands behind it decides: the length of a
-- fine record of application data, an error for a fine record of another kind and one for a record
-- that is not fine, and the end of the input where nothing does.
pub probe_records-frames :
    (fuel : ℕ) (records : List TlsRecord)
    → AreShort records
    → length (frames records) < fuel
    → probe_records fuel (frames records) ≡ profile_of (behind_prelude records)
unfolding probe_records
probe_records-frames zero records s h = absurd (omega arith)
probe_records-frames (suc fuel) [] s h = unfold read_full in refl
probe_records-frames (suc fuel) (r ∷ records) (s, ss) h =
    rw
      (
        read_header r.kind r.major r.minor r.body (frames records),
        probe_records,
        be16-put_be16 (length r.body) s,
      )
      (rw (copy_n_enough r.body (frames records)) (
        profile_of-cons r records (probe_records fuel (frames records)) (
          probe_records-frames fuel records ss
            (omega (arith, length-append r.body (frames records))))))
