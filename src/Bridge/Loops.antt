-- ===== src/Bridge/Loops.antt =====
-- The loops of bridgeWS in src/transport.go with writes that may fail. A connection gives reads without an
-- error and then, from some read on, its error; that read may still have bytes. `writes` tells
-- whether the write of each number succeeds. Closing and deadlines act through these.
use tg_ws_proxy_go.Base.{
  ℕ, suc, List, [], ◌∷◌, ◌++◌, Bool, true, false, not, Bytes, length, ◌==◌, if◌then◌else◌,
}
use tg_ws_proxy_go.Splitter.{MsgSplitter, split, flush}
use tg_ws_proxy_go.Crypto.Stream.{KeyStream, Stream, xor_key_stream}
use tg_ws_proxy_go.Bridge.{send}

-- The operation that reportEnd names.
pub data Operation : Type 0 where
  client_read upstream_write upstream_read upstream_body_read client_write : Operation

-- The messages of a loop, the last of which may have failed, and how it stops.
pub record Loop : Type 0 where
  pub out : List Bytes
  pub stopped : Operation

-- The messages of one read, the stream and the number of writes behind them, and whether none failed.
pub record Sent : Type 0 where
  pub enc : Stream
  pub out : List Bytes
  pub next : ℕ
  pub is_ok : Bool

abbrev pub is_empty : List Bytes → Bool
is_empty [] = true
is_empty (p ∷ parts) = false

abbrev pub behind : List Bytes → Loop → Loop
behind out l = record l { out = out ++ l.out }

-- A message from upstream: whether it is binary, the reads of its body, and whether they end with
-- io.EOF.
pub record WsMessage : Type 0 where
  pub is_binary : Bool
  pub body : List Bytes
  pub is_whole : Bool

module _ (ctr : KeyStream) (writes : ℕ → Bool) where
  -- `for _, p := range parts { ... }`.
  unfoldable pub send_parts : ℕ → Stream → List Bytes → Sent
  send_parts k enc [] = record { enc = enc; out = []; next = k; is_ok = true }
  send_parts k enc (p ∷ parts) =
      let (enc', out) = xor_key_stream ctr enc p in
      let rest = send_parts (suc k) enc' parts in
      if writes k
      then record rest { out = out ∷ rest.out }
      else record { enc = enc'; out = out ∷ []; next = suc k; is_ok = false }

  -- `for _, p := range splitter.flush() { ... }`, whose writes are not looked at.
  unfoldable pub flush_parts : MsgSplitter → Stream → Loop
  flush_parts m enc = record { out = (send ctr enc (flush m).1).1; stopped = client_read }

  -- The read that has the error; behind it, every read has no bytes and the error.
  unfoldable pub up_last : ℕ → MsgSplitter → Stream → Stream → Bytes → Loop
  up_last k m dec enc last =
      let (dec', plain) = xor_key_stream ctr dec last in
      let (m', parts) = split m plain in
      let sent = send_parts k enc parts in
      if length last == 0
      then flush_parts m enc
      else if is_empty parts
      then flush_parts m' enc
      else if sent.is_ok
      then behind sent.out (flush_parts m' sent.enc)
      else record { out = sent.out; stopped = upstream_write }

  -- The client's side with a splitter: the reads without an error, and the one that has it.
  unfoldable pub up_loop : ℕ → MsgSplitter → Stream → Stream → List Bytes → Bytes → Loop
  up_loop k m dec enc [] last = up_last k m dec enc last
  up_loop k m dec enc (chunk ∷ chunks) last =
      let (dec', plain) = xor_key_stream ctr dec chunk in
      let (m', parts) = split m plain in
      let sent = send_parts k enc parts in
      let skipped = up_loop k m dec enc chunks last in
      let kept = up_loop k m' dec' enc chunks last in
      let later = up_loop sent.next m' dec' sent.enc chunks last in
      if length chunk == 0
      then skipped
      else if is_empty parts
      then kept
      else if sent.is_ok
      then behind sent.out later
      else record { out = sent.out; stopped = upstream_write }

  -- One read of the body after another; `is_ok` is whether no write to the client has failed.
  unfoldable pub down_body : ℕ → Stream → Stream → List Bytes → (ℕ × Stream) × Sent
  down_body k dec enc [] = ((k, dec), record { enc = enc; out = []; next = k; is_ok = true })
  down_body k dec enc (chunk ∷ chunks) =
      let (dec', plain) = xor_key_stream ctr dec chunk in
      let (enc', out) = xor_key_stream ctr enc plain in
      let skipped = down_body k dec enc chunks in
      let rest = down_body (suc k) dec' enc' chunks in
      if length chunk == 0
      then skipped
      else if writes k
      then (rest.0, record rest.1 { out = out ∷ rest.1.out })
      else ((suc k, dec'), record { enc = enc'; out = out ∷ []; next = suc k; is_ok = false })

  -- Telegram's side: messages until the error of NextReader.
  unfoldable pub down_loop : ℕ → Stream → Stream → List WsMessage → Loop
  down_loop k dec enc [] = record { out = []; stopped = upstream_read }
  down_loop k dec enc (message ∷ messages) =
      let ((k', dec'), sent) = down_body k dec enc message.body in
      let skipped = down_loop k dec enc messages in
      let later = down_loop k' dec' sent.enc messages in
      if not message.is_binary
      then skipped
      else if not sent.is_ok
      then record { out = sent.out; stopped = client_write }
      else if message.is_whole
      then behind sent.out later
      else record { out = sent.out; stopped = upstream_body_read }
