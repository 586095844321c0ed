-- ===== src/Crypto/Dc.antt =====
-- src/crypto.go and src/types.go: data centre numbers, transport tags and protocol numbers. An int16
-- is its bit pattern, below 65536.
use tg_ws_proxy_go.Base.{
  ℕ, ◌-◌, ◌%◌, ◌<◌, ◌≡◌, [], ◌∷◌, Bool, ◌||◌, arith, Bytes, ltb, leb, if◌then◌else◌, bytes_equal,
}
use tg_ws_proxy_go.Splitter.{
  proto_abridged_int, proto_intermediate_int, proto_padded_intermediate_int,
}

abbrev pub proto_tag_abridged : Bytes
proto_tag_abridged = 0xef ∷ 0xef ∷ 0xef ∷ 0xef ∷ []

abbrev pub proto_tag_intermediate : Bytes
proto_tag_intermediate = 0xee ∷ 0xee ∷ 0xee ∷ 0xee ∷ []

abbrev pub proto_tag_secure : Bytes
proto_tag_secure = 0xdd ∷ 0xdd ∷ 0xdd ∷ 0xdd ∷ []

-- The three tags that a handshake may carry.
unfoldable pub is_proto_tag : Bytes → Bool
is_proto_tag tag =
    bytes_equal tag proto_tag_abridged
    || bytes_equal tag proto_tag_intermediate
    || bytes_equal tag proto_tag_secure

unfoldable pub proto_from_tag : Bytes → ℕ
proto_from_tag tag =
    if bytes_equal tag proto_tag_abridged
    then proto_abridged_int
    else if bytes_equal tag proto_tag_intermediate
    then proto_intermediate_int
    else proto_padded_intermediate_int

-- int(math.Abs(float64(dcIdx))) and dcIdx < 0.
unfoldable pub abs_dc : ℕ → ℕ
abs_dc dc_idx = if ltb dc_idx 32768 then dc_idx else 65536 - dc_idx

unfoldable pub is_media_dc : ℕ → Bool
is_media_dc dc_idx = leb 32768 dc_idx

-- int16(-dc) or int16(dc).
unfoldable pub signed_dc : ℕ → Bool → ℕ
signed_dc dc media = if media then (65536 - dc % 65536) % 65536 else dc % 65536

-- The number that the proxy sends on is the one that the client sent, for every int16: the split into
-- a data centre and a media flag loses nothing, not even of -32768.
pub signed_dc-abs_dc :
    (dc_idx : ℕ) → dc_idx < 65536 → signed_dc (abs_dc dc_idx) (is_media_dc dc_idx) ≡ dc_idx
unfolding signed_dc abs_dc is_media_dc
signed_dc-abs_dc dc_idx h = ground arith
