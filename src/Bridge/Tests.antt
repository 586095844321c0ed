-- ===== src/Bridge/Tests.antt =====
-- The theorems on the loops of src/transport.go at concrete inputs.
use tg_ws_proxy_go.Base.{
  ℕ, ◌%◌, ◌≡◌, Bool, true, false, ltb, refl, inl, List, [], ◌∷◌, ◌++◌, arith, Bytes, IsByte, concat,
}
use tg_ws_proxy_go.Splitter.{new_splitter, proto_abridged_int}
use tg_ws_proxy_go.Splitter.Frames.{IsPacket}
use tg_ws_proxy_go.Crypto.Stream.{KeyStream, Stream, xor_all, xor_key_stream}
use tg_ws_proxy_go.Bridge.{bridge_up, forward}
use tg_ws_proxy_go.Bridge.Loops.{WsMessage, client_write, up_loop, down_loop, down_body}
use tg_ws_proxy_go.Bridge.Written.{up_messages, IsWritten, up_loop-IsWritten}
use tg_ws_proxy_go.Bridge.Delivered.{all_whole, IsDelivered, binary_reads, down_loop-IsDelivered}
use tg_ws_proxy_go.Bridge.Session.{IsUnder, bridge_up-packets}

abbrev counting : KeyStream
counting key iv pos = pos % 256

counting-IsByte : (key iv : Bytes) (pos : ℕ) → IsByte (counting key iv pos)
counting-IsByte key iv pos = omega arith

abbrev client_stream : Stream
client_stream = record { key = []; iv = []; position = 64 }

abbrev telegram_stream : Stream
telegram_stream = record { key = []; iv = []; position = 3 }

-- Two abridged packets, in three reads.
abbrev two_packets : List Bytes
two_packets = (1 ∷ 10 ∷ 11 ∷ 12 ∷ 13 ∷ []) ∷ (1 ∷ 20 ∷ 21 ∷ 22 ∷ 23 ∷ []) ∷ []

abbrev three_reads : List Bytes
three_reads = (1 ∷ 10 ∷ 11 ∷ []) ∷ (12 ∷ 13 ∷ 1 ∷ 20 ∷ []) ∷ (21 ∷ 22 ∷ 23 ∷ []) ∷ []

abbrev encrypted_reads : List Bytes
encrypted_reads = xor_all counting client_stream three_reads

encrypted_reads-IsUnder :
    IsUnder counting counting-IsByte client_stream (concat two_packets) encrypted_reads
unfolding xor_all xor_key_stream
encrypted_reads-IsUnder = refl

one_word : (a b c d : ℕ) → IsPacket proto_abridged_int (1 ∷ a ∷ b ∷ c ∷ d ∷ [])
one_word a b c d = inl (refl, inl (omega arith))

bridge_up-packets_example :
    bridge_up counting
      (new_splitter proto_abridged_int)
      client_stream
      telegram_stream
      encrypted_reads
    ≡ xor_all counting telegram_stream two_packets
bridge_up-packets_example =
    bridge_up-packets counting counting-IsByte proto_abridged_int client_stream telegram_stream
      two_packets encrypted_reads (one_word 10 11 12 13, (one_word 20 21 22 23, tt)) (omega arith)
      (unfold xor_all xor_key_stream in omega arith) (omega arith) encrypted_reads-IsUnder

-- The first write succeeds.
abbrev one_write : ℕ → Bool
one_write k = ltb k 1

abbrev all_messages : List Bytes × List Bytes
all_messages =
    up_messages counting (new_splitter proto_abridged_int) client_stream telegram_stream
      (encrypted_reads ++ [] ∷ [])

up_loop-IsWritten_example :
    (bridge_up counting
        (new_splitter proto_abridged_int)
        client_stream
        telegram_stream
        (encrypted_reads ++ [] ∷ [])
      ≡ all_messages.0 ++ all_messages.1)
    × IsWritten one_write 0
        (up_loop counting one_write 0
          (new_splitter proto_abridged_int)
          client_stream
          telegram_stream
          encrypted_reads
          []).stopped
        (up_loop counting one_write 0
          (new_splitter proto_abridged_int)
          client_stream
          telegram_stream
          encrypted_reads
          []).out
        all_messages.0
        all_messages.1
up_loop-IsWritten_example =
    up_loop-IsWritten counting one_write 0 (new_splitter proto_abridged_int) client_stream
      telegram_stream encrypted_reads []

-- A text message, a binary message in two reads and one whose body fails.
abbrev three_messages : List WsMessage
three_messages =
    record { is_binary = false; body = (7 ∷ []) ∷ []; is_whole = true }
    ∷ record { is_binary = true; body = (1 ∷ 2 ∷ []) ∷ [] ∷ (3 ∷ []) ∷ []; is_whole = true }
    ∷ record { is_binary = true; body = (4 ∷ []) ∷ []; is_whole = false }
    ∷ []

-- The client's write fails at the second read.
down_loop_stops :
    down_loop counting one_write 0 telegram_stream client_stream three_messages
    ≡ record { out = (66 ∷ 71 ∷ []) ∷ (68 ∷ []) ∷ []; stopped = client_write }
unfolding down_loop down_body xor_key_stream
down_loop_stops = refl

down_loop-IsDelivered_example :
    IsDelivered one_write 0
      (down_loop counting one_write 0 telegram_stream client_stream three_messages).stopped
      (down_loop counting one_write 0 telegram_stream client_stream three_messages).out
      (forward counting telegram_stream client_stream (binary_reads three_messages))
      (all_whole three_messages)
down_loop-IsDelivered_example =
    down_loop-IsDelivered counting one_write 0 telegram_stream client_stream three_messages
