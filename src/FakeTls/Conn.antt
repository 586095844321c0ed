-- ===== src/FakeTls/Conn.antt =====
-- src/fake_tls.go, fakeTLSConn: Read, readTLSPayload and Write over the raw connection. The raw
-- connection is what the peer has still to send before it closes, and what was sent to it; the
-- deadlines and addresses that the type passes on to the raw connection are left out.
use tg_ws_proxy_go.Base.{
  ℕ, zero, suc, ◌+◌, List, [], ◌∷◌, ◌++◌, true, false, Option, none, some, Bytes, be16, ltb, leb,
  ◌==◌, if◌then◌else◌, length, take, drop, get_or,
}
use tg_ws_proxy_go.FakeTls.Records.{tls_record_ccs, tls_record_app_data, wrap_fake_tls_records}

pub data ReadError : Type 0 where
  eof unexpected_eof : ReadError

-- A read of the raw connection: the bytes, or the error; and what is left to read.
pub data RawRead : Type 0 where
  got : Bytes → Bytes → RawRead
  failed : ReadError → Bytes → RawRead

-- io.ReadFull of n bytes.
unfoldable pub read_full : ℕ → Bytes → RawRead
read_full n raw =
    if leb n (length raw)
    then got (take n raw) (drop n raw)
    else failed (if length raw == 0 then eof else unexpected_eof) []

-- io.CopyN to io.Discard.
unfoldable pub copy_n : ℕ → Bytes → RawRead
copy_n n raw = if leb n (length raw) then got (take n raw) (drop n raw) else failed eof []

-- The loop of readTLSPayload on the rounds left: each takes a header at least, so that one more than
-- the bytes of the raw connection is enough.
unfoldable pub read_tls_payload : ℕ → Bytes → RawRead
read_tls_payload zero raw = failed eof raw
read_tls_payload (suc fuel) raw = elim (read_full 5 raw) [
  | failed e rest ↦ failed e rest
  | got header rest ↦
      let rec_type = get_or header 0 0 in
      let rec_len = be16 (get_or header 3 0) (get_or header 4 0) in
      elim (rec_type == tls_record_ccs) [
        | true ↦ elim (ltb 0 rec_len) [
          | false ↦ read_tls_payload fuel rest
          | true ↦ elim (copy_n rec_len rest) [
            | failed e after ↦ failed e after
            | got _ after ↦ read_tls_payload fuel after
          ]
        ]
        | false ↦ elim (rec_type == tls_record_app_data) [
          | false ↦ failed eof rest
          | true ↦ elim (rec_len == 0) [
            | true ↦ read_tls_payload fuel rest
            | false ↦ read_full rec_len rest
          ]
        ]
      ]
]

pub record FakeTlsConn : Type 0 where
  pub raw_in : Bytes
  pub raw_out : Bytes
  pub read_buf : Bytes

-- What a Read call leaves: the connection, the bytes that it put into `p`, and its error.
pub record ReadResult : Type 0 where
  pub conn : FakeTlsConn
  pub out : Bytes
  pub error : Option ReadError

-- The part of Read behind the call of readTLSPayload.
unfoldable pub deliver : ℕ → FakeTlsConn → RawRead → ReadResult
deliver p_len c (failed e rest) = record {
  conn = record c { raw_in = rest };
  out = [];
  error = some e;
}
deliver p_len c (got payload rest) =
    if length payload == 0
    then record { conn = record c { raw_in = rest }; out = []; error = some eof }
    else if ltb p_len (length payload)
    then record {
      conn = record c { raw_in = rest; read_buf = drop p_len payload };
      out = take p_len payload;
      error = none;
    }
    else record { conn = record c { raw_in = rest }; out = payload; error = none }

-- Read into a `p` of the given length.
unfoldable pub read : ℕ → FakeTlsConn → ReadResult
read p_len c =
    if p_len == 0
    then record { conn = c; out = []; error = none }
    else if ltb 0 (length c.read_buf)
    then record {
      conn = record c { read_buf = drop p_len c.read_buf };
      out = take p_len c.read_buf;
      error = none;
    }
    else deliver p_len c (read_tls_payload (length c.raw_in + 1) c.raw_in)

-- Write, on a raw connection that takes all bytes: the new connection and the count returned.
unfoldable pub write : FakeTlsConn → Bytes → FakeTlsConn × ℕ
write c p =
    if length p == 0
    then (c, 0)
    else (record c { raw_out = c.raw_out ++ wrap_fake_tls_records p }, length p)

-- A client of the connection that reads with the given buffer sizes until an error.
unfoldable pub reads : List ℕ → FakeTlsConn → Bytes
reads [] c = []
reads (n ∷ sizes) c =
    let r = read n c in elim r.error [ some _ ↦ r.out | none ↦ r.out ++ reads sizes r.conn ]
