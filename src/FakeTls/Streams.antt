-- ===== src/FakeTls/Streams.antt =====
-- fakeTLSConn of src/fake_tls.go on every input: the bytes that a raw connection carries, and the error
-- with which it ends.
use tg_ws_proxy_go.Base.{
  ℕ, zero, suc, ◌+◌, ◌≤◌, ◌<◌, ◌≡◌, ◌⊎◌, refl, sym, ap, subst, ◌∙◌, inl, inr, Bool-cases, [], ◌∷◌,
  ◌++◌, false, none, some, arith, Bytes, be16, ◌==◌, ==_iff, length, take, drop, append_assoc,
  dec_le, take-append-drop, length-take, length-drop, length_zero, length-append,
}
use tg_ws_proxy_go.FakeTls.Conn.{
  RawRead, got, failed, ReadError, eof, unexpected_eof, read_full, copy_n, read_tls_payload,
  FakeTlsConn, ReadResult, deliver, read,
}
use tg_ws_proxy_go.FakeTls.Payload.{read_full_enough, copy_n_enough}
use tg_ws_proxy_go.FakeTls.Reads.{deliver_whole, deliver_part, read_held, read_fresh}

-- io.ReadFull at the end of the input: whether it has got some bytes.
abbrev pub cut_error : Bytes → ReadError
cut_error [] = eof
cut_error (b ∷ bs) = unexpected_eof

-- The raw input carries the payload, and then ends with the error: at its end; in a header; at a record
-- that is neither of application data (23) nor a change cipher spec (20); or in the body of one.
-- `a` and `b` are the version, which is not looked at, `hi` and `lo` the length.
pub data Streams : Bytes → Bytes → ReadError → Type 0 where
  silent : Streams [] [] eof
  cut_header : {raw : Bytes} → 1 ≤ length raw → length raw < 5 → Streams raw [] unexpected_eof
  other_kind :
      (kind a b hi lo : ℕ) (rest : Bytes)
      → (kind == 20) ≡ false
      → (kind == 23) ≡ false
      → Streams (kind ∷ a ∷ b ∷ hi ∷ lo ∷ rest) [] eof
  cut_ccs :
      (a b hi lo : ℕ) (rest : Bytes)
      → length rest < be16 hi lo
      → Streams (20 ∷ a ∷ b ∷ hi ∷ lo ∷ rest) [] eof
  cut_app :
      (a b hi lo : ℕ) (rest : Bytes)
      → length rest < be16 hi lo
      → Streams (23 ∷ a ∷ b ∷ hi ∷ lo ∷ rest) [] (cut_error rest)
  ccs :
      (a b hi lo : ℕ) (body rest : Bytes) {payload : Bytes} {e : ReadError}
      → length body ≡ be16 hi lo
      → Streams rest payload e
      → Streams (20 ∷ a ∷ b ∷ hi ∷ lo ∷ (body ++ rest)) payload e
  app :
      (a b hi lo : ℕ) (body rest : Bytes) {later : Bytes} {e : ReadError}
      → length body ≡ be16 hi lo
      → Streams rest later e
      → Streams (23 ∷ a ∷ b ∷ hi ∷ lo ∷ (body ++ rest)) (body ++ later) e

header_read :
    (kind a b hi lo : ℕ) (rest : Bytes)
    → read_full 5 (kind ∷ a ∷ b ∷ hi ∷ lo ∷ rest) ≡ got (kind ∷ a ∷ b ∷ hi ∷ lo ∷ []) rest
header_read kind a b hi lo rest = read_full_enough (kind ∷ a ∷ b ∷ hi ∷ lo ∷ []) rest

cut_read : (rest : Bytes) (n : ℕ) → length rest < n → read_full n rest ≡ failed (cut_error rest) []
unfolding read_full
cut_read [] n h = ground (arith, h)
cut_read (x ∷ xs) n h = ground (arith, h)

-- What readTLSPayload answers.
pub data Answers (payload : Bytes) (e : ReadError) (r : RawRead) : Type 0 where
  ends : (rest : Bytes) → payload ≡ [] → r ≡ failed e rest → Answers payload e r
  gives :
      (body rest later : Bytes)
      → r ≡ got body rest
      → payload ≡ body ++ later
      → 1 ≤ length body
      → Streams rest later e
      → Answers payload e r

module _ (fuel a b hi lo : ℕ) where
  at_other :
      (kind : ℕ) (rest : Bytes)
      → (kind == 20) ≡ false
      → (kind == 23) ≡ false
      → read_tls_payload (suc fuel) (kind ∷ a ∷ b ∷ hi ∷ lo ∷ rest) ≡ failed eof rest
  unfolding read_tls_payload
  at_other kind rest f g = rw (header_read kind a b hi lo rest, read_tls_payload, f, g) refl

  at_cut_ccs :
      (rest : Bytes)
      → length rest < be16 hi lo
      → read_tls_payload (suc fuel) (20 ∷ a ∷ b ∷ hi ∷ lo ∷ rest) ≡ failed eof []
  unfolding read_tls_payload copy_n
  at_cut_ccs rest h = rw (header_read 20 a b hi lo rest, read_tls_payload) (ground (arith, h))

  at_cut_app :
      (rest : Bytes)
      → length rest < be16 hi lo
      → read_tls_payload (suc fuel) (23 ∷ a ∷ b ∷ hi ∷ lo ∷ rest) ≡ failed (cut_error rest) []
  unfolding read_tls_payload
  at_cut_app rest h =
      rw (header_read 23 a b hi lo rest, read_tls_payload)
        (ground (arith, h, cut_read rest (be16 hi lo) h))

  at_ccs :
      (body rest : Bytes)
      → length body ≡ be16 hi lo
      → read_tls_payload (suc fuel) (20 ∷ a ∷ b ∷ hi ∷ lo ∷ (body ++ rest))
        ≡ read_tls_payload fuel rest
  unfolding read_tls_payload
  at_ccs [] rest h = rw (header_read 20 a b hi lo rest, read_tls_payload, sym h) refl
  at_ccs (x ∷ xs) rest h =
      rw (header_read 20 a b hi lo ((x ∷ xs) ++ rest), read_tls_payload, sym h)
        (ground (arith, copy_n_enough (x ∷ xs) rest))

  at_app_empty :
      (rest : Bytes)
      → 0 ≡ be16 hi lo
      → read_tls_payload (suc fuel) (23 ∷ a ∷ b ∷ hi ∷ lo ∷ rest) ≡ read_tls_payload fuel rest
  unfolding read_tls_payload
  at_app_empty rest h = rw (header_read 23 a b hi lo rest, read_tls_payload, sym h) refl

  at_app :
      (body rest : Bytes)
      → 1 ≤ length body
      → length body ≡ be16 hi lo
      → read_tls_payload (suc fuel) (23 ∷ a ∷ b ∷ hi ∷ lo ∷ (body ++ rest)) ≡ got body rest
  unfolding read_tls_payload
  at_app body rest f h =
      rw (header_read 23 a b hi lo (body ++ rest), read_tls_payload, sym h)
        (ground (arith, f, read_full_enough body rest))

read_tls_payload-Answers :
    {raw payload : Bytes} {e : ReadError}
    → Streams raw payload e
    → (fuel : ℕ) → length raw < fuel
    → Answers payload e (read_tls_payload fuel raw)
read_tls_payload-Answers s zero h = absurd (omega arith)
read_tls_payload-Answers silent (suc fuel) h =
    ends [] refl (unfold read_tls_payload read_full in refl)
read_tls_payload-Answers (cut_header {raw} f g) (suc fuel) h =
    ends [] refl (unfold read_tls_payload read_full in ground (arith, f, g))
read_tls_payload-Answers (other_kind kind a b hi lo rest f g) (suc fuel) h =
    ends rest refl (at_other fuel a b hi lo kind rest f g)
read_tls_payload-Answers (cut_ccs a b hi lo rest f) (suc fuel) h =
    ends [] refl (at_cut_ccs fuel a b hi lo rest f)
read_tls_payload-Answers (cut_app a b hi lo rest f) (suc fuel) h =
    ends [] refl (at_cut_app fuel a b hi lo rest f)
read_tls_payload-Answers (ccs a b hi lo body rest f s) (suc fuel) h =
    rw (at_ccs fuel a b hi lo body rest f)
      (read_tls_payload-Answers s fuel (omega (arith, length-append body rest)))
read_tls_payload-Answers (app a b hi lo [] rest f s) (suc fuel) h =
    rw (at_app_empty fuel a b hi lo rest f) (read_tls_payload-Answers s fuel (omega arith))
read_tls_payload-Answers (app a b hi lo (x ∷ xs) rest {later} f s) (suc fuel) h =
    gives (x ∷ xs) rest later (at_app fuel a b hi lo (x ∷ xs) rest (omega arith) f) refl
      (omega arith) s

-- The connection has still these bytes to hand out, and then this error.
pub record PendingUntil (c : FakeTlsConn) (payload : Bytes) (e : ReadError) : Type 0 where
  pub later : Bytes
  pub streams : Streams c.raw_in later e
  pub joined : payload ≡ c.read_buf ++ later

-- One Read of such a stream: between one and `n` bytes from the front, without an error, and the rest is still
-- to come; or, if there are no bytes left, the error.
pub record IsStreamRead (n : ℕ) (payload : Bytes) (e : ReadError) (r : ReadResult) : Type 0 where
  pub rest : Bytes
  pub splits : payload ≡ r.out ++ rest
  pub bound : length r.out ≤ n
  pub outcome :
      ((payload ≡ []) × (r.error ≡ some e))
      ⊎ ((1 ≤ length r.out) × (r.error ≡ none) × PendingUntil r.conn rest e)

deliver-IsStreamRead :
    (n : ℕ) (c : FakeTlsConn) (payload : Bytes) (e : ReadError) {r : RawRead}
    → 1 ≤ n
    → c.read_buf ≡ []
    → Answers payload e r
    → IsStreamRead n payload e (deliver n c r)
unfolding deliver
deliver-IsStreamRead n c payload e k b (ends left p f) =
    rw (f, deliver) (record { rest = []; splits = p; bound = omega arith; outcome = inl (p, refl) })
deliver-IsStreamRead n c payload e k b (gives body left later f p full s) =
    elim (dec_le (length body) n) [
      | yes h ↦
          rw (f, deliver_whole n c body left full h)
            (record {
              rest = later;
              splits = p;
              bound = h;
              outcome = inr (full, refl, record { later = later; streams = s; joined = rw b });
            })
      | no h ↦
          rw (f, deliver_part n c body left (omega arith))
            (record {
              rest = drop n body ++ later;
              splits =
                  p
                  ∙ ap (λ t. t ++ later) (sym (take-append-drop n body))
                  ∙ append_assoc (take n body) (drop n body) later;
              bound = omega (arith, length-take n body);
              outcome = inr (
                omega (arith, length-take n body),
                refl,
                record { later = later; streams = s; joined = refl },
              );
            })
    ]

read-PendingUntil :
    (n : ℕ) (c : FakeTlsConn) (payload : Bytes) (e : ReadError)
    → 1 ≤ n
    → PendingUntil c payload e
    → IsStreamRead n payload e (read n c)
read-PendingUntil n c payload e k p = elim (dec_le 1 (length c.read_buf)) [
  | yes h ↦ rw (read_held n c k h) (record {
    rest = drop n c.read_buf ++ p.later;
    splits =
        p.joined
        ∙ ap (λ t. t ++ p.later) (sym (take-append-drop n c.read_buf))
        ∙ append_assoc (take n c.read_buf) (drop n c.read_buf) p.later;
    bound = omega (arith, length-take n c.read_buf);
    outcome = inr (
      omega (arith, length-take n c.read_buf),
      refl,
      record { later = p.later; streams = p.streams; joined = refl },
    );
  })
  | no h ↦
      let empty = length_zero c.read_buf (omega arith) in
      rw (read_fresh n c k (omega arith)) (
        deliver-IsStreamRead n c payload e k empty (
          subst (λ t. Answers t e (read_tls_payload (length c.raw_in + 1) c.raw_in))
            (sym (p.joined ∙ ap (λ t. t ++ p.later) empty))
            (read_tls_payload-Answers p.streams (length c.raw_in + 1) (omega arith))))
]

-- What a raw input carries, and how it ends.
abbrev pub Carried : Bytes → Type 0
Carried raw = (payload : Bytes) × (e : ReadError) × Streams raw payload e

-- A whole record at the front, by its kind, with what its rest carries.
record-Carried :
    (kind a b hi lo : ℕ) (rest : Bytes)
    → Carried (drop (be16 hi lo) rest)
    → Carried (kind ∷ a ∷ b ∷ hi ∷ lo ∷ rest)
record-Carried kind a b hi lo rest (payload, e, s) = elim (Bool-cases (kind == 20)) [
  | inl f ↦ subst (λ k. Carried (k ∷ a ∷ b ∷ hi ∷ lo ∷ rest)) (sym ((==_iff kind 20).0 f)) at_20
  | inr f ↦ elim (Bool-cases (kind == 23)) [
    | inl g ↦ subst (λ k. Carried (k ∷ a ∷ b ∷ hi ∷ lo ∷ rest)) (sym ((==_iff kind 23).0 g)) at_23
    | inr g ↦ ([], eof, other_kind kind a b hi lo rest f g)
  ]
]
  where
    size : be16 hi lo ≤ length rest → length (take (be16 hi lo) rest) ≡ be16 hi lo
    size h = omega (arith, length-take (be16 hi lo) rest)

    parts : take (be16 hi lo) rest ++ drop (be16 hi lo) rest ≡ rest
    parts = take-append-drop (be16 hi lo) rest

    at_20 : Carried (20 ∷ a ∷ b ∷ hi ∷ lo ∷ rest)
    at_20 = elim (dec_le (be16 hi lo) (length rest)) [
      | yes h ↦
          subst (λ t. Carried (20 ∷ a ∷ b ∷ hi ∷ lo ∷ t)) parts
            (payload, e, ccs a b hi lo (take (be16 hi lo) rest) (drop (be16 hi lo) rest) (size h) s)
      | no h ↦ ([], eof, cut_ccs a b hi lo rest (omega arith))
    ]

    at_23 : Carried (23 ∷ a ∷ b ∷ hi ∷ lo ∷ rest)
    at_23 = elim (dec_le (be16 hi lo) (length rest)) [
      | yes h ↦
          subst (λ t. Carried (23 ∷ a ∷ b ∷ hi ∷ lo ∷ t)) parts
            (
              take (be16 hi lo) rest ++ payload,
              e,
              app a b hi lo (take (be16 hi lo) rest) (drop (be16 hi lo) rest) (size h) s,
            )
      | no h ↦ ([], cut_error rest, cut_app a b hi lo rest (omega arith))
    ]

raw-Carried : (fuel : ℕ) (raw : Bytes) → length raw < fuel → Carried raw
raw-Carried zero raw h = absurd (omega arith)
raw-Carried (suc fuel) [] h = ([], eof, silent)
raw-Carried (suc fuel) (x ∷ []) h = ([], unexpected_eof, cut_header (omega arith) (omega arith))
raw-Carried (suc fuel) (x ∷ y ∷ []) h = ([], unexpected_eof, cut_header (omega arith) (omega arith))
raw-Carried (suc fuel) (x ∷ y ∷ z ∷ []) h =
    ([], unexpected_eof, cut_header (omega arith) (omega arith))
raw-Carried (suc fuel) (x ∷ y ∷ z ∷ u ∷ []) h =
    ([], unexpected_eof, cut_header (omega arith) (omega arith))
raw-Carried (suc fuel) (x ∷ y ∷ z ∷ u ∷ v ∷ rest) h =
    record-Carried x y z u v rest
      (raw-Carried fuel (drop (be16 u v) rest) (omega (arith, length-drop (be16 u v) rest)))

-- Every connection, whatever its raw input is, has some payload still to hand out and then an error: that of
-- the end of the input, of a header that is cut, of a record of another kind, or of a body that is cut.
-- And a Read into a buffer that is not empty hands out the next bytes of that payload, at least one
-- while there are any, and keeps the rest for later calls; then it returns the error.
pub read-IsStreamRead :
    (n : ℕ) (c : FakeTlsConn)
    → 1 ≤ n
    → (payload : Bytes) × (e : ReadError) × PendingUntil c payload e
      × IsStreamRead n payload e (read n c)
read-IsStreamRead n c k =
    let (later, e, s) = raw-Carried (suc (length c.raw_in)) c.raw_in (omega arith) in
    let p : PendingUntil c (c.read_buf ++ later) e = record {
      later = later;
      streams = s;
      joined = refl;
    } in
    (c.read_buf ++ later, e, p, read-PendingUntil n c (c.read_buf ++ later) e k p)
