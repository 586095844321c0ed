-- ===== src/Splitter.antt =====
-- src/splitter.go: the message splitter that cuts the client's decrypted byte stream into the
-- MTProto transport packets that go out as single WebSocket messages. Slices are values here: the
-- parts are disjoint prefixes of the buffer, so encrypting one in place changes no other.
pub mod Frames
mod Steps
pub mod Stream
pub mod Packets
pub mod Sound
mod Tests
use tg_ws_proxy_go.Base.{
  ℕ, zero, suc, ◌+◌, ◌-◌, ◌*◌, ◌%◌, ◌^◌, Bool, true, false, ◌||◌, List, [], ◌∷◌, ◌++◌, ℤ, pos,
  negsuc, Bytes, le24, le32, ltb, leb, ◌==◌, if◌then◌else◌, length, get_or, take, drop,
}

-- maxSplitterPacketBytes.
abbrev pub max_splitter_packet_bytes : ℕ
max_splitter_packet_bytes = 8 * 1024 * 1024

abbrev pub proto_abridged_int : ℕ
proto_abridged_int = 0xEFEFEFEF

abbrev pub proto_intermediate_int : ℕ
proto_intermediate_int = 0xEEEEEEEE

abbrev pub proto_padded_intermediate_int : ℕ
proto_padded_intermediate_int = 0xDDDDDDDD

pub record MsgSplitter : Type 0 where
  pub proto : ℕ
  pub plain_buf : Bytes
  pub disabled : Bool

-- The second half of nextAbridgedLen, from `if payloadLen <= 0` on.
abridged_packet_len : Bytes → ℕ → ℕ → ℤ
abridged_packet_len buf header_len payload_len =
    if leb payload_len 0
    then pos 0
    else if ltb max_splitter_packet_bytes (header_len + payload_len)
    then pos 0
    else if ltb (length buf) (header_len + payload_len)
    then negsuc 0
    else pos (header_len + payload_len)

-- The callers have checked that the buffer is not empty.
unfoldable pub next_abridged_len : Bytes → ℤ
unfolding abridged_packet_len
next_abridged_len buf =
    if get_or buf 0 0 == 0x7F || get_or buf 0 0 == 0xFF
    then if ltb (length buf) 4
      then negsuc 0
      else abridged_packet_len buf 4 (le24 (get_or buf 1 0) (get_or buf 2 0) (get_or buf 3 0) * 4)
    else abridged_packet_len buf 1 (get_or buf 0 0 % 128 * 4)

-- The second half of nextIntermediateLen, on the masked length.
intermediate_packet_len : Bytes → ℕ → ℤ
intermediate_packet_len buf payload_len =
    if payload_len == 0 || ltb (max_splitter_packet_bytes - 4) payload_len
    then pos 0
    else if ltb (length buf) (4 + payload_len)
    then negsuc 0
    else pos (4 + payload_len)

unfoldable pub next_intermediate_len : Bytes → ℤ
unfolding intermediate_packet_len
next_intermediate_len buf =
    if ltb (length buf) 4
    then negsuc 0
    else intermediate_packet_len buf
        (le32 (get_or buf 0 0) (get_or buf 1 0) (get_or buf 2 0) (get_or buf 3 0) % 2 ^ 31)

-- -1 asks for more bytes, 0 means that the stream cannot be framed.
unfoldable pub next_packet_len : ℕ → Bytes → ℤ
unfolding next_abridged_len next_intermediate_len
next_packet_len proto buf =
    if length buf == 0
    then negsuc 0
    else if proto == proto_abridged_int
    then next_abridged_len buf
    else if proto == proto_intermediate_int || proto == proto_padded_intermediate_int
    then next_intermediate_len buf
    else pos 0

-- The loop of split on the rounds left. Each round takes a byte at least, so that the length of the
-- buffer is fuel enough; the loop ends by `len(m.plainBuf) > 0` or one of its breaks.
unfoldable pub split_loop : ℕ → MsgSplitter → List Bytes → MsgSplitter × List Bytes
split_loop zero m parts = (m, parts)
split_loop (suc fuel) m parts = elim (ltb 0 (length m.plain_buf)) [
  | false ↦ (m, parts)
  | true ↦ elim (next_packet_len m.proto m.plain_buf) [
    | negsuc _ ↦ (m, parts)
    | pos zero ↦ (record m { plain_buf = []; disabled = true }, parts ++ m.plain_buf ∷ [])
    | pos (suc next) ↦
        split_loop fuel (record m { plain_buf = drop (suc next) m.plain_buf })
          (parts ++ take (suc next) m.plain_buf ∷ [])
  ]
]

-- What split appends of the buffer when it gives up: `if len(m.plainBuf) > 0 { parts = ... }`.
unfoldable pub pending_parts : Bytes → List Bytes
pending_parts buf = if ltb 0 (length buf) then buf ∷ [] else []

unfoldable pub split : MsgSplitter → Bytes → MsgSplitter × List Bytes
split m chunk =
    if length chunk == 0
    then (m, [])
    else if m.disabled
    then (m, chunk ∷ [])
    else if ltb max_splitter_packet_bytes (length m.plain_buf + length chunk)
    then (record m { plain_buf = []; disabled = true }, pending_parts m.plain_buf ++ chunk ∷ [])
    else let buffered = record m { plain_buf = m.plain_buf ++ chunk } in
      split_loop (length buffered.plain_buf) buffered []

unfoldable pub flush : MsgSplitter → MsgSplitter × List Bytes
flush m =
    if length m.plain_buf == 0 then (m, []) else (record m { plain_buf = [] }, m.plain_buf ∷ [])

-- The client's side of bridgeWS with a splitter: the chunks that the client sent, decrypted, become
-- the messages that are written upstream, and the tail is flushed when the client stops.
unfoldable pub relay_up : MsgSplitter → List Bytes → List Bytes
relay_up m [] = (flush m).1
relay_up m (chunk ∷ chunks) = let (m', parts) = split m chunk in parts ++ relay_up m' chunks

-- `&msgSplitter{proto: protoInt}`.
abbrev pub new_splitter : ℕ → MsgSplitter
new_splitter proto = record { proto = proto; plain_buf = []; disabled = false }
