-- ===== src/Crypto/Tests.antt =====
-- The theorems on src/crypto.go at concrete inputs, with a hash and a key stream that are easy to
-- follow in place of SHA-256 and AES.
use tg_ws_proxy_go.Base.{
  true, ℕ, ◌%◌, ◌≡◌, refl, [], ◌∷◌, ◌++◌, arith, Bytes, IsByte, replicate, length, put_le16,
}
use tg_ws_proxy_go.Crypto.Stream.{KeyStream}
use tg_ws_proxy_go.Crypto.Dc.{proto_tag_abridged}
use tg_ws_proxy_go.Crypto.Handshake.{try_handshake, sealed_tail}
use tg_ws_proxy_go.Crypto.Sealed.{info_of, try_handshake-sealed_tail}
use tg_ws_proxy_go.Crypto.RelayInit.{
  is_usable, draw_usable, generate_relay_init, relay_packet, tail_plain, IsRelayInit,
  generate_relay_init-IsRelayInit,
}

abbrev constant_hash : Bytes → Bytes
constant_hash text = replicate 32 5

length-constant_hash : (b : Bytes) → length (constant_hash b) ≡ 32
length-constant_hash b = refl

abbrev counting : KeyStream
counting key iv pos = pos % 256

counting-IsByte : (key iv : Bytes) (pos : ℕ) → IsByte (counting key iv pos)
counting-IsByte key iv pos = omega arith

-- -2, the media side of data centre 2.
try_handshake-sealed_tail_example :
    try_handshake constant_hash counting
      (replicate 56 3
        ++ sealed_tail constant_hash counting
            (replicate 56 3)
            (1 ∷ 2 ∷ [])
            (proto_tag_abridged ++ (put_le16 65534 ++ 8 ∷ 9 ∷ [])))
      (1 ∷ 2 ∷ [])
    ≡ info_of (replicate 56 3) proto_tag_abridged 2 true
try_handshake-sealed_tail_example =
    try_handshake-sealed_tail constant_hash counting length-constant_hash counting-IsByte
      (replicate 56 3) (1 ∷ 2 ∷ []) proto_tag_abridged (8 ∷ 9 ∷ []) 2 true refl refl refl
      (omega arith) (omega arith, omega arith)

abbrev unusable_draw : Bytes
unusable_draw = 0xef ∷ replicate 63 3

abbrev drawn : Bytes
drawn = replicate 64 3

generate_relay_init-IsRelayInit_example :
    IsRelayInit counting
      (tail_plain proto_tag_abridged 2 (8 ∷ 9 ∷ []))
      (relay_packet counting drawn (tail_plain proto_tag_abridged 2 (8 ∷ 9 ∷ [])))
generate_relay_init-IsRelayInit_example =
    generate_relay_init-IsRelayInit counting counting-IsByte (unusable_draw ∷ drawn ∷ [])
      (8 ∷ 9 ∷ []) proto_tag_abridged
      (relay_packet counting drawn (tail_plain proto_tag_abridged 2 (8 ∷ 9 ∷ []))) 2
      ((refl, omega arith), ((refl, omega arith), tt)) refl refl (omega arith)
      (unfold generate_relay_init draw_usable is_usable in refl)
