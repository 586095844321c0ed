-- ===== src/FakeTls/ReadFull.antt =====
-- io.ReadFull over a fakeTLSConn of src/fake_tls.go: it gives the first bytes that the records carry.
use tg_ws_proxy_go.Base.{
  ℕ, zero, suc, ◌+◌, ◌-◌, ◌≤◌, ◌≡◌, refl, sym, subst, ap, ◌∙◌, inl, inr, [], ◌∷◌, ◌++◌, false,
  Option, some, Bytes, ◌==◌, length, take, drop, length-append, arith,
}
use tg_ws_proxy_go.FakeTls.Conn.{
  RawRead, got, failed, FakeTlsConn, ReadResult, deliver, read_tls_payload, read,
}
use tg_ws_proxy_go.FakeTls.Reads.{Pending, IsRead, read-IsRead}
use tg_ws_proxy_go.FakeTls.Accept.{read_full_conn}

take-append_more :
    (n : ℕ) (xs ys : Bytes) → length xs ≤ n → take n (xs ++ ys) ≡ xs ++ take (n - length xs) ys
take-append_more n [] ys h = ap (λ k. take k ys) (omega arith)
take-append_more zero (x ∷ xs) ys h = absurd (omega arith)
take-append_more (suc n) (x ∷ xs) ys h =
    ap (λ t. x ∷ t)
      (take-append_more n xs ys (omega (arith, h)) ∙ ap (λ k. xs ++ take k ys) (omega arith))

drop-append_more :
    (n : ℕ) (xs ys : Bytes) → length xs ≤ n → drop n (xs ++ ys) ≡ drop (n - length xs) ys
drop-append_more n [] ys h = ap (λ k. drop k ys) (omega arith)
drop-append_more zero (x ∷ xs) ys h = absurd (omega arith)
drop-append_more (suc n) (x ∷ xs) ys h =
    drop-append_more n xs ys (omega (arith, h)) ∙ ap (λ k. drop k ys) (omega arith)

deliver-raw_out : (n : ℕ) (c : FakeTlsConn) (r : RawRead) → (deliver n c r).conn.raw_out ≡ c.raw_out
unfolding deliver
deliver-raw_out n c (failed e rest) = refl
deliver-raw_out n c (got payload rest) = ground arith

read-raw_out : (n : ℕ) (c : FakeTlsConn) → (read n c).conn.raw_out ≡ c.raw_out
unfolding read
read-raw_out n c =
    ground (arith, deliver-raw_out n c (read_tls_payload (length c.raw_in + 1) c.raw_in))

-- io.ReadFull that succeeds: the connection behind it, with the rest of the stream.
pub record IsReadFull (n : ℕ) (payload raw_out : Bytes) (o : Option (FakeTlsConn × Bytes))
    : Type 0 where
  pub conn : FakeTlsConn
  pub returns : o ≡ some (conn, take n payload)
  pub left : Pending conn (drop n payload)
  pub sent : conn.raw_out ≡ raw_out

IsRead-gives :
    (n : ℕ) (payload : Bytes) (r : ReadResult)
    → IsRead n payload r
    → 1 ≤ n
    → n ≤ length payload
    → 1 ≤ length r.out
IsRead-gives n payload r g k l = elim g.ends [
  | inl (empty, f) ↦ absurd (omega (arith, ap length empty))
  | inr (full, f) ↦ full
]

read_full_conn_step :
    (fuel n : ℕ) (c : FakeTlsConn) (payload : Bytes) (g : IsRead n payload (read n c))
    → 1 ≤ n
    → n ≤ length payload
    → IsReadFull
        (n - length (read n c).out)
        g.rest
        (read n c).conn.raw_out
        (read_full_conn fuel (n - length (read n c).out) (read n c).conn)
    → IsReadFull n payload c.raw_out (read_full_conn (suc fuel) n c)
unfolding read_full_conn
read_full_conn_step fuel n c payload g k l later = elim g.ends [
  | inl (empty, f) ↦ absurd (omega (arith, ap length empty))
  | inr (full, f) ↦
      let out = (read n c).out in
      let positive : (n == 0) ≡ false = ground (arith, k) in
      let front : out ++ take (n - length out) g.rest ≡ take n payload =
        sym (ap (take n) g.splits ∙ take-append_more n out g.rest g.bound) in
      let back : drop (n - length out) g.rest ≡ drop n payload =
        sym (ap (drop n) g.splits ∙ drop-append_more n out g.rest g.bound) in
      record {
        conn = later.conn;
        returns =
            rw (read_full_conn, f, later.returns, positive)
              (ap (λ (b : Bytes). some (later.conn, b)) front);
        left = subst (Pending later.conn) back later.left;
        sent = later.sent ∙ read-raw_out n c;
      }
]

-- A stream that has n bytes still to give, read with fuel for them.
pub read_full_conn-IsReadFull :
    (fuel n : ℕ) (c : FakeTlsConn) (payload : Bytes)
    → n ≤ fuel
    → n ≤ length payload
    → Pending c payload
    → IsReadFull n payload c.raw_out (read_full_conn fuel n c)
unfolding read_full_conn
read_full_conn-IsReadFull zero zero c payload h l p = record {
  conn = c;
  returns = refl;
  left = p;
  sent = refl;
}
read_full_conn-IsReadFull zero (suc n) c payload h l p = absurd (omega (arith, h))
read_full_conn-IsReadFull (suc fuel) zero c payload h l p = record {
  conn = c;
  returns = refl;
  left = p;
  sent = refl;
}
read_full_conn-IsReadFull (suc fuel) (suc n) c payload h l p =
    let g = read-IsRead (suc n) c payload (omega arith) p in
    read_full_conn_step fuel (suc n) c payload g (omega arith) l (
      read_full_conn-IsReadFull fuel (suc n - length (read (suc n) c).out) (read (suc n) c).conn
        g.rest (omega (arith, h, IsRead-gives (suc n) payload (read (suc n) c) g (omega arith) l))
        (omega (arith, l, ap length g.splits, length-append (read (suc n) c).out g.rest)) g.left)
