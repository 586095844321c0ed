-- ===== src/Bridge.antt =====
-- src/transport.go, the loops of bridgeWS and tcpFallback: bytes are read from one side, decrypted,
-- encrypted for the other side and written there. The reads are a list of chunks, ended by the error
-- that ends the loop; every write succeeds, but in Loops; closing, deadlines and the idle watchdog are left out.
pub mod Session
pub mod Loops
pub mod Written
pub mod Delivered
mod Tests
use tg_ws_proxy_go.Base.{
  ℕ, ◌+◌, ◌*◌, ◌<◌, List, [], ◌∷◌, ◌++◌, Bytes, length, ltb, leb, if◌then◌else◌, Bool,
}
use tg_ws_proxy_go.Splitter.{MsgSplitter, split, flush}
use tg_ws_proxy_go.Crypto.Stream.{KeyStream, Stream, xor_key_stream}

-- statsFlushBytes.
abbrev pub stats_flush_bytes : ℕ
stats_flush_bytes = 256 * 1024

-- The bytes counted but not yet added to the statistics, and those added.
pub record Counted : Type 0 where
  pub pending : ℕ
  pub added : ℕ

-- `upPending += n; if upPending >= statsFlushBytes { ... }`.
unfoldable pub count : Counted → ℕ → Counted
count c n =
    if leb stats_flush_bytes (c.pending + n)
    then record { pending = 0; added = c.added + (c.pending + n) }
    else record c { pending = c.pending + n }

-- The deferred addition of what is pending.
unfoldable pub count_end : Counted → ℕ
count_end c = if ltb 0 c.pending then c.added + c.pending else c.added

unfoldable pub count_all : Counted → List Bytes → ℕ
count_all c [] = count_end c
count_all c (chunk ∷ chunks) = count_all (count c (length chunk)) chunks

module _ (ctr : KeyStream) where
  -- `for _, p := range parts { tgEnc.XORKeyStream(p, p); ws.WriteMessage(p) }`.
  unfoldable pub send : Stream → List Bytes → Stream × List Bytes
  send enc [] = (enc, [])
  send enc (p ∷ parts) =
      let (enc', out) = xor_key_stream ctr enc p in
      let (enc'', outs) = send enc' parts in (enc'', out ∷ outs)

  -- The client's side of bridgeWS with a splitter: the messages written upstream.
  unfoldable pub bridge_up : MsgSplitter → Stream → Stream → List Bytes → List Bytes
  bridge_up m dec enc [] = (send enc (flush m).1).1
  bridge_up m dec enc (chunk ∷ chunks) =
      let (dec', plain) = xor_key_stream ctr dec chunk in
      let (m', parts) = split m plain in
      let (enc', outs) = send enc parts in outs ++ bridge_up m' dec' enc' chunks

  -- Each chunk through both streams: the upstream side of bridgeWS, its client's side without a
  -- splitter, and both sides of tcpFallback.
  unfoldable pub forward : Stream → Stream → List Bytes → List Bytes
  forward dec enc [] = []
  forward dec enc (chunk ∷ chunks) =
      let (dec', plain) = xor_key_stream ctr dec chunk in
      let (enc', out) = xor_key_stream ctr enc plain in out ∷ forward dec' enc' chunks
