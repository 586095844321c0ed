-- ===== src/FakeTls/Reads.antt =====
-- fakeTLSConn of src/fake_tls.go as a byte stream: what Read hands out, in terms of the application
-- data that the records of the raw connection carry.
use tg_ws_proxy_go.Base.{
  ℕ, ◌+◌, ◌≤◌, ◌<◌, ◌≡◌, ◌⊎◌, inl, inr, refl, sym, ap, subst, ◌∙◌, List, [], ◌∷◌, ◌++◌, none, some,
  arith, Bytes, length, take, drop, append_assoc, append-nil, dec_le, take-append-drop, length-take,
  length_zero, length-append, All,
}
use tg_ws_proxy_go.FakeTls.Records.{
  Carries, done, wrap_fake_tls_records, wrap_fake_tls_records-Carries,
}
use tg_ws_proxy_go.FakeTls.Conn.{
  RawRead, got, eof, read_tls_payload, FakeTlsConn, ReadResult, deliver, read, write, reads,
}
use tg_ws_proxy_go.FakeTls.Payload.{Serves, ended, served, read_tls_payload-Serves}

-- The connection has still these bytes to hand out: what it holds, and what the records carry.
pub record Pending (c : FakeTlsConn) (payload : Bytes) : Type 0 where
  pub later : Bytes
  pub carried : Carries c.raw_in later
  pub joined : payload ≡ c.read_buf ++ later

-- One Read of a stream: it hands out between one and `n` bytes from the front, or io.EOF if there
-- are none left.
pub record IsRead (n : ℕ) (payload : Bytes) (r : ReadResult) : Type 0 where
  pub rest : Bytes
  pub splits : payload ≡ r.out ++ rest
  pub left : Pending r.conn rest
  pub bound : length r.out ≤ n
  pub ends : ((payload ≡ []) × (r.error ≡ some eof)) ⊎ ((1 ≤ length r.out) × (r.error ≡ none))

module _ (n : ℕ) (c : FakeTlsConn) (body rest : Bytes) where
  pub deliver_whole :
      1 ≤ length body
      → length body ≤ n
      → deliver n c (got body rest)
        ≡ record { conn = record c { raw_in = rest }; out = body; error = none }
  unfolding deliver
  deliver_whole f h = ground arith

  pub deliver_part :
      n < length body
      → deliver n c (got body rest) ≡ record {
        conn = record c { raw_in = rest; read_buf = drop n body };
        out = take n body;
        error = none;
      }
  unfolding deliver
  deliver_part h = ground arith

module _ (n : ℕ) (c : FakeTlsConn) (h : 1 ≤ n) where
  pub read_held :
      1 ≤ length c.read_buf
      → read n c ≡ record {
        conn = record c { read_buf = drop n c.read_buf };
        out = take n c.read_buf;
        error = none;
      }
  unfolding read
  read_held f = ground arith

  pub read_fresh :
      length c.read_buf ≡ 0
      → read n c ≡ deliver n c (read_tls_payload (length c.raw_in + 1) c.raw_in)
  unfolding read
  read_fresh f = ground arith

deliver-IsRead :
    (n : ℕ) (c : FakeTlsConn) (payload : Bytes) {r : RawRead}
    → 1 ≤ n
    → c.read_buf ≡ []
    → Serves payload r
    → IsRead n payload (deliver n c r)
unfolding deliver
deliver-IsRead n c payload k b (ended p e) =
    rw (e, deliver)
      (record {
        rest = [];
        splits = p;
        left = record { later = []; carried = done; joined = rw b };
        bound = omega arith;
        ends = inl (p, refl);
      })
deliver-IsRead n c payload k b (served body rest later e p full carried) =
    elim (dec_le (length body) n) [
      | yes h ↦
          rw (e, deliver_whole n c body rest full h)
            (record {
              rest = later;
              splits = p;
              left = record { later = later; carried = carried; joined = rw b };
              bound = h;
              ends = inr (full, refl);
            })
      | no h ↦
          rw (e, deliver_part n c body rest (omega arith))
            (record {
              rest = drop n body ++ later;
              splits =
                  p
                  ∙ ap (λ t. t ++ later) (sym (take-append-drop n body))
                  ∙ append_assoc (take n body) (drop n body) later;
              left = record { later = later; carried = carried; joined = refl };
              bound = omega (arith, length-take n body);
              ends = inr (omega (arith, length-take n body), refl);
            })
    ]

-- Where the raw connection is a row of whole records of application data and of changes of the cipher: a
-- Read into a buffer that is not empty hands out the next bytes of what they carry, at least one
-- while there are any, and keeps the rest for later calls; then io.EOF.
pub read-IsRead :
    (n : ℕ) (c : FakeTlsConn) (payload : Bytes)
    → 1 ≤ n
    → Pending c payload
    → IsRead n payload (read n c)
read-IsRead n c payload k p = elim (dec_le 1 (length c.read_buf)) [
  | yes h ↦ rw (read_held n c k h) (record {
    rest = drop n c.read_buf ++ p.later;
    splits =
        p.joined
        ∙ ap (λ t. t ++ p.later) (sym (take-append-drop n c.read_buf))
        ∙ append_assoc (take n c.read_buf) (drop n c.read_buf) p.later;
    left = record { later = p.later; carried = p.carried; joined = refl };
    bound = omega (arith, length-take n c.read_buf);
    ends = inr (omega (arith, length-take n c.read_buf), refl);
  })
  | no h ↦
      let empty = length_zero c.read_buf (omega arith) in
      rw (read_fresh n c k (omega arith)) (
        deliver-IsRead n c payload k empty (
          subst (λ t. Serves t (read_tls_payload (length c.raw_in + 1) c.raw_in))
            (sym (p.joined ∙ ap (λ t. t ++ p.later) empty))
            (read_tls_payload-Serves p.carried (length c.raw_in + 1) (omega arith))))
]

reads_step :
    (n : ℕ) (sizes : List ℕ) (c : FakeTlsConn) (payload : Bytes)
    → ((r : ReadResult)
        → IsRead n payload r
        → elim r.error [ some _ ↦ r.out | none ↦ r.out ++ reads sizes r.conn ] ≡ payload)
    → 1 ≤ n
    → Pending c payload
    → reads (n ∷ sizes) c ≡ payload
unfolding reads
reads_step n sizes c payload go k p = go (read n c) (read-IsRead n c payload k p)

reads-Pending :
    (sizes : List ℕ) (c : FakeTlsConn) (payload : Bytes)
    → All (λ n. 1 ≤ n) sizes
    → length payload ≤ length sizes
    → Pending c payload
    → reads sizes c ≡ payload
reads-Pending [] c payload s h p = unfold reads in sym (length_zero payload (omega arith))
reads-Pending (n ∷ sizes) c payload s h p =
    reads_step n sizes c payload (λ r g. step r g (reads-Pending sizes r.conn g.rest s.1)) s.0 p
  where
    step :
        (r : ReadResult) (g : IsRead n payload r)
        → (length g.rest ≤ length sizes → Pending r.conn g.rest → reads sizes r.conn ≡ g.rest)
        → elim r.error [ some _ ↦ r.out | none ↦ r.out ++ reads sizes r.conn ] ≡ payload
    step r g ih = elim g.ends [
      | inl (e, f) ↦ rw f (ended_out r.out (sym g.splits ∙ e) ∙ sym e)
      | inr (full, f) ↦ rw f (
          ap (λ t. r.out ++ t)
            (ih (omega (arith, ap length g.splits, length-append r.out g.rest)) g.left)
          ∙ sym g.splits)
    ]
      where
        ended_out : (out : Bytes) → out ++ g.rest ≡ [] → out ≡ []
        ended_out [] e = refl
        ended_out (x ∷ xs) e = cc

-- What one side writes, the other side reads back in full, where nothing was written before and
-- nothing is kept from an earlier read: whatever the size of the write and of the buffers, none
-- of them empty, with at least as many calls as there are bytes.
pub reads-write :
    (payload : Bytes) (sizes : List ℕ) (sender receiver : FakeTlsConn)
    → sender.raw_out ≡ []
    → receiver.read_buf ≡ []
    → receiver.raw_in ≡ (write sender payload).0.raw_out
    → All (λ n. 1 ≤ n) sizes
    → length payload ≤ length sizes
    → reads sizes receiver ≡ payload
reads-write payload sizes sender receiver fresh empty wire s h =
    reads-Pending sizes receiver payload s h (record {
      later = payload;
      carried =
          rw (wire ∙ write-raw_out sender payload, fresh) (wrap_fake_tls_records-Carries payload);
      joined = rw empty;
    })
  where
    write-raw_out :
        (c : FakeTlsConn) (p : Bytes) → (write c p).0.raw_out ≡ c.raw_out ++ wrap_fake_tls_records p
    write-raw_out c [] = unfold write wrap_fake_tls_records in sym (append-nil c.raw_out)
    write-raw_out c (b ∷ bs) = unfold write in ground arith
