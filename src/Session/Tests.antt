-- ===== src/Session/Tests.antt =====
-- A session of a client for the media side of data centre 2, with two packets in three reads.
use tg_ws_proxy_go.Base.{
  ℕ, ◌%◌, ◌≡◌, refl, inl, List, [], ◌∷◌, ◌++◌, some, Bytes, IsByte, put_le16, length, replicate,
  arith,
}
use tg_ws_proxy_go.Splitter.{proto_abridged_int}
use tg_ws_proxy_go.Splitter.Frames.{IsPacket}
use tg_ws_proxy_go.Crypto.Stream.{KeyStream, xor_all, xor_key_stream}
use tg_ws_proxy_go.Crypto.Dc.{proto_tag_abridged, is_proto_tag, proto_from_tag}
use tg_ws_proxy_go.Crypto.Handshake.{sealed_tail}
use tg_ws_proxy_go.Crypto.RelayInit.{
  is_usable, draw_usable, generate_relay_init, relay_packet, tail_plain, IsRelayInit,
}
use tg_ws_proxy_go.Session.{Opened, open_session, session_up}
use tg_ws_proxy_go.Session.EndToEnd.{telegram_stream, client_stream, session_up-packets}

abbrev constant_hash : Bytes → Bytes
constant_hash text = replicate 32 5

length-constant_hash : (b : Bytes) → length (constant_hash b) ≡ 32
length-constant_hash b = refl

abbrev counting : KeyStream
counting key iv pos = pos % 256

counting-IsByte : (key iv : Bytes) (pos : ℕ) → IsByte (counting key iv pos)
counting-IsByte key iv pos = omega arith

abbrev head : Bytes
head = replicate 56 3

abbrev two_packets : List Bytes
two_packets = (1 ∷ 10 ∷ 11 ∷ 12 ∷ 13 ∷ []) ∷ (1 ∷ 20 ∷ 21 ∷ 22 ∷ 23 ∷ []) ∷ []

abbrev three_reads : List Bytes
three_reads = (1 ∷ 10 ∷ 11 ∷ []) ∷ (12 ∷ 13 ∷ 1 ∷ 20 ∷ []) ∷ (21 ∷ 22 ∷ 23 ∷ []) ∷ []

abbrev reads : List Bytes
reads =
    xor_all counting
      (client_stream constant_hash counting length-constant_hash counting-IsByte head (1 ∷ 2 ∷ []))
      three_reads

one_word : (a b c d : ℕ) → IsPacket proto_abridged_int (1 ∷ a ∷ b ∷ c ∷ d ∷ [])
one_word a b c d = inl (refl, inl (omega arith))

abbrev drawn : Bytes
drawn = replicate 64 3

session_up-packets_example :
    (o : Opened) × (open_session constant_hash counting
        (drawn ∷ [])
        (6 ∷ 7 ∷ [])
        (head
          ++ sealed_tail constant_hash counting head
              (1 ∷ 2 ∷ [])
              (proto_tag_abridged ++ (put_le16 65534 ++ 8 ∷ 9 ∷ [])))
        (1 ∷ 2 ∷ [])
      ≡ some o)
    × IsRelayInit counting (tail_plain proto_tag_abridged 65534 (6 ∷ 7 ∷ [])) o.relay_init
    × (xor_all counting (telegram_stream o.relay_init) (session_up constant_hash counting o reads)
        ≡ two_packets)
unfolding generate_relay_init draw_usable is_usable is_proto_tag proto_from_tag xor_all
    xor_key_stream
session_up-packets_example =
    session_up-packets constant_hash counting length-constant_hash counting-IsByte (drawn ∷ [])
      two_packets reads head (1 ∷ 2 ∷ []) proto_tag_abridged (8 ∷ 9 ∷ []) (6 ∷ 7 ∷ [])
      (relay_packet counting drawn (tail_plain proto_tag_abridged 65534 (6 ∷ 7 ∷ []))) 65534 refl
      refl refl refl (omega arith) (omega arith) (omega arith) refl ((refl, omega arith), tt) refl
      (one_word 10 11 12 13, (one_word 20 21 22 23, tt)) (omega arith) (omega arith) (omega arith)
      refl
