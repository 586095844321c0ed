-- ===== src/Crypto/Handshake.antt =====
-- src/crypto.go, tryHandshake: the client's first packet, 64 bytes of which the last eight are under
-- the client's cipher. SHA-256 and the key stream of AES are parameters.
use tg_ws_proxy_go.Base.{
  ℕ, ◌+◌, ◌++◌, Bool, not, Option, none, some, Bytes, le16, ◌==◌, if◌then◌else◌, length, take, drop,
  get_or, xor_bytes,
}
use tg_ws_proxy_go.Crypto.Stream.{KeyStream, new_ctr, key_bytes, xor_key_stream}
use tg_ws_proxy_go.Crypto.Dc.{is_proto_tag, abs_dc, is_media_dc}

abbrev pub handshake_len : ℕ
handshake_len = 64

abbrev pub skip_len : ℕ
skip_len = 8

abbrev pub prekey_len : ℕ
prekey_len = 32

abbrev pub iv_len : ℕ
iv_len = 16

abbrev pub proto_tag_pos : ℕ
proto_tag_pos = 56

abbrev pub dc_idx_pos : ℕ
dc_idx_pos = 60

pub record HandshakeInfo : Type 0 where
  pub dc : ℕ
  pub is_media : Bool
  pub proto_tag : Bytes
  pub client_dec_i : Bytes

-- The prekey and the initial vector in a first packet, one behind the other.
abbrev pub prekey_and_iv : Bytes → Bytes
prekey_and_iv handshake = take (prekey_len + iv_len) (drop skip_len handshake)

unfoldable pub key_from_prekey_and_secret : (Bytes → Bytes) → Bytes → Bytes → Bytes
key_from_prekey_and_secret sha256 prekey secret = sha256 (prekey ++ secret)

-- What tryHandshake reads off the decrypted packet.
unfoldable pub read_handshake : Bytes → Bytes → Option HandshakeInfo
read_handshake pi decrypted =
    let tag = take 4 (drop proto_tag_pos decrypted) in
    let dc_idx =
      le16 (get_or (drop dc_idx_pos decrypted) 0 0) (get_or (drop dc_idx_pos decrypted) 1 0) in
    if not (is_proto_tag tag)
    then none
    else some (record {
      dc = abs_dc dc_idx;
      is_media = is_media_dc dc_idx;
      proto_tag = tag;
      client_dec_i = pi;
    })

module _ (sha256 : Bytes → Bytes) (ctr : KeyStream) where
  unfoldable pub try_handshake : Bytes → Bytes → Option HandshakeInfo
  try_handshake handshake secret =
      if not (length handshake == handshake_len)
      then none
      else let pi = prekey_and_iv handshake in
        let key = key_from_prekey_and_secret sha256 (take prekey_len pi) secret in
        elim (new_ctr key (drop prekey_len pi)) [
          | none ↦ none
          | some dec ↦ read_handshake pi (xor_key_stream ctr dec handshake).1
        ]

  -- The last eight bytes of a first packet, as a client with this secret writes them behind its 56
  -- random bytes: encrypted at their place in the key stream.
  abbrev pub sealed_tail : Bytes → Bytes → Bytes → Bytes
  sealed_tail head secret tail = xor_bytes tail (
      key_bytes ctr
        (key_from_prekey_and_secret sha256 (take prekey_len (prekey_and_iv head)) secret)
        (drop prekey_len (prekey_and_iv head)) 56 (length tail))
