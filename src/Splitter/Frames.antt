-- ===== src/Splitter/Frames.antt =====
-- The MTProto transport packets, said without the splitter's code, and what the three length
-- functions of src/splitter.go answer on a packet, on a proper prefix of one, and in general.
use tg_ws_proxy_go.Base.{
  ℕ, zero, suc, ◌+◌, ◌*◌, ◌%◌, ◌^◌, ◌≤◌, ◌<◌, ◌≡◌, ◌≢◌, ◌⊎◌, refl, [], ◌∷◌, ◌++◌, pos, negsuc,
  arith, Bytes, le24, le32, length, take, length-append, length-take,
}
use tg_ws_proxy_go.Splitter.{
  max_splitter_packet_bytes, proto_abridged_int, proto_intermediate_int,
  proto_padded_intermediate_int, next_packet_len,
}

-- A long abridged packet without its first byte.
abbrev IsLong : Bytes → Type 0
IsLong (b0 ∷ b1 ∷ b2 ∷ payload) =
    (0 < le24 b0 b1 b2)
    × (4 + 4 * le24 b0 b1 b2 ≤ max_splitter_packet_bytes)
    × (length payload ≡ 4 * le24 b0 b1 b2)
IsLong _ = ⊥

abbrev IsAbridged : Bytes → Type 0
IsAbridged [] = ⊥
IsAbridged (first ∷ rest) =
    ((first ≢ 0x7F) × (first ≢ 0xFF) × (0 < first % 128) × (length rest ≡ 4 * (first % 128)))
    ⊎ (((first ≡ 0x7F) ⊎ (first ≡ 0xFF)) × IsLong rest)

abbrev IsIntermediate : Bytes → Type 0
IsIntermediate (b0 ∷ b1 ∷ b2 ∷ b3 ∷ payload) =
    (0 < le32 b0 b1 b2 b3 % 2 ^ 31)
    × (4 + le32 b0 b1 b2 b3 % 2 ^ 31 ≤ max_splitter_packet_bytes)
    × (length payload ≡ le32 b0 b1 b2 b3 % 2 ^ 31)
IsIntermediate _ = ⊥

-- One packet of the transport that the protocol number names.
abbrev pub IsPacket : ℕ → Bytes → Type 0
IsPacket proto p =
    ((proto ≡ proto_abridged_int) × IsAbridged p)
    ⊎ (((proto ≡ proto_intermediate_int) ⊎ (proto ≡ proto_padded_intermediate_int))
        × IsIntermediate p)

pub IsPacket-ne_nil : (proto : ℕ) (p : Bytes) → IsPacket proto p → 1 ≤ length p
IsPacket-ne_nil proto [] h = ground arith
IsPacket-ne_nil proto (x ∷ p) h = omega arith

pub IsPacket-bounded :
    (proto : ℕ) (p : Bytes) → IsPacket proto p → length p ≤ max_splitter_packet_bytes
IsPacket-bounded proto [] h = omega arith
IsPacket-bounded proto (a ∷ []) h = omega arith
IsPacket-bounded proto (a ∷ b ∷ []) h = omega arith
IsPacket-bounded proto (a ∷ b ∷ c ∷ []) h = omega arith
IsPacket-bounded proto (a ∷ b ∷ c ∷ d ∷ p) h = ground arith

pub next_packet_len-packet :
    (proto : ℕ) (p rest : Bytes)
    → IsPacket proto p
    → next_packet_len proto (p ++ rest) ≡ pos (length p)
unfolding next_packet_len
next_packet_len-packet proto [] rest h = ground arith
next_packet_len-packet proto (a ∷ []) rest h = ground arith
next_packet_len-packet proto (a ∷ b ∷ []) rest h = ground (arith, length-append (b ∷ []) rest)
next_packet_len-packet proto (a ∷ b ∷ c ∷ []) rest h =
    ground (arith, length-append (b ∷ c ∷ []) rest)
next_packet_len-packet proto (a ∷ b ∷ c ∷ d ∷ p) rest h = ground (arith, length-append p rest)

pub next_packet_len-prefix :
    (proto : ℕ) (q r : Bytes)
    → IsPacket proto (q ++ r)
    → 1 ≤ length r
    → next_packet_len proto q ≡ negsuc 0
unfolding next_packet_len
next_packet_len-prefix proto [] r h k = refl
next_packet_len-prefix proto (a ∷ []) r h k = ground arith
next_packet_len-prefix proto (a ∷ b ∷ []) r h k = ground (arith, length-append (b ∷ []) r)
next_packet_len-prefix proto (a ∷ b ∷ c ∷ []) r h k = ground (arith, length-append (b ∷ c ∷ []) r)
next_packet_len-prefix proto (a ∷ b ∷ c ∷ d ∷ p) r h k = ground (arith, length-append p r)

pub next_packet_len_sound :
    (proto : ℕ) (buf : Bytes) (n : ℕ)
    → next_packet_len proto buf ≡ pos (suc n)
    → (suc n ≤ length buf) × IsPacket proto (take (suc n) buf)
unfolding next_packet_len
next_packet_len_sound proto [] n e = ground arith
next_packet_len_sound proto (a ∷ []) n e = ground arith
next_packet_len_sound proto (a ∷ b ∷ []) n e = ground arith
next_packet_len_sound proto (a ∷ b ∷ c ∷ []) n e = ground arith
next_packet_len_sound proto (a ∷ b ∷ c ∷ d ∷ p) zero e = ground arith
next_packet_len_sound proto (a ∷ b ∷ c ∷ d ∷ p) (suc zero) e = ground arith
next_packet_len_sound proto (a ∷ b ∷ c ∷ d ∷ p) (suc (suc zero)) e = ground arith
next_packet_len_sound proto (a ∷ b ∷ c ∷ d ∷ p) (suc (suc (suc n))) e =
    ground (arith, length-take n p)
