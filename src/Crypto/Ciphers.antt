-- ===== src/Crypto/Ciphers.antt =====
-- src/crypto.go, buildCiphers: the four streams of a session, two towards the client and two towards
-- Telegram. The two that read on behind a first packet are moved past its 64 bytes.
use tg_ws_proxy_go.Base.{
  ◌≡◌, refl, [], ◌∷◌, ◌++◌, ◌>>=◌, Option, some, arith, Bytes, length, take, drop, replicate,
  length-take, length-drop, length-append,
}
use tg_ws_proxy_go.Crypto.Stream.{KeyStream, Stream, new_ctr, new_ctr_32, xor_key_stream}
use tg_ws_proxy_go.Crypto.Handshake.{key_from_prekey_and_secret, prekey_len, handshake_len}
use tg_ws_proxy_go.Crypto.RelayInit.{relay_key, relay_iv}

-- Byte `i` goes to the place `len - 1 - i`.
unfoldable pub reverse_bytes : Bytes → Bytes
reverse_bytes [] = []
reverse_bytes (b ∷ bs) = reverse_bytes bs ++ b ∷ []

pub length-reverse_bytes : (b : Bytes) → length (reverse_bytes b) ≡ length b
unfolding reverse_bytes
length-reverse_bytes [] = refl
length-reverse_bytes (b ∷ bs) =
    omega (arith, length-append (reverse_bytes bs) (b ∷ []), length-reverse_bytes bs)

pub record Ciphers : Type 0 where
  pub clt_dec : Stream
  pub clt_enc : Stream
  pub tg_enc : Stream
  pub tg_dec : Stream

module _ (sha256 : Bytes → Bytes) (ctr : KeyStream) where
  -- `none` is an error of aes.NewCipher. `zeros` are the 64 zero bytes.
  unfoldable pub build_ciphers : Bytes → Bytes → Bytes → Option Ciphers
  build_ciphers pi relay_init secret = do
    clt_dec ←
        new_ctr (key_from_prekey_and_secret sha256 (take prekey_len pi) secret) (drop prekey_len pi)
    let rev = reverse_bytes pi
    clt_enc ←
        new_ctr (key_from_prekey_and_secret sha256 (take prekey_len rev) secret)
          (drop prekey_len rev)
    tg_enc ← new_ctr (relay_key relay_init) (relay_iv relay_init)
    let relay_dec_pi = reverse_bytes (take 48 (drop 8 relay_init))
    tg_dec ← new_ctr (take 32 relay_dec_pi) (drop 32 relay_dec_pi)
    let zeros = replicate handshake_len 0
    some (record {
      clt_dec = (xor_key_stream ctr clt_dec zeros).0;
      clt_enc = clt_enc;
      tg_enc = (xor_key_stream ctr tg_enc zeros).0;
      tg_dec = tg_dec;
    })

-- What Telegram's clients and servers use in the other direction: the same material backwards.
abbrev pub backwards : Bytes → Bytes
backwards pi = reverse_bytes pi

module _ (sha256 : Bytes → Bytes) (ctr : KeyStream)
    (sha256_length : (b : Bytes) → length (sha256 b) ≡ 32) where
  -- Where a hash has 32 bytes, and with a relay packet of 64 bytes: there is no error, and each
  -- stream has the key, the initial vector and the position that the other end uses.
  pub build_ciphers_total :
      (pi relay_init secret : Bytes)
      → length relay_init ≡ 64
      → build_ciphers sha256 ctr pi relay_init secret
        ≡ some (record {
          clt_dec = record { key = sha256 (take 32 pi ++ secret); iv = drop 32 pi; position = 64 };
          clt_enc = record {
            key = sha256 (take 32 (backwards pi) ++ secret);
            iv = drop 32 (backwards pi);
            position = 0;
          };
          tg_enc = record { key = relay_key relay_init; iv = relay_iv relay_init; position = 64 };
          tg_dec = record {
            key = take 32 (backwards (take 48 (drop 8 relay_init)));
            iv = drop 32 (backwards (take 48 (drop 8 relay_init)));
            position = 0;
          };
        })
  unfolding build_ciphers key_from_prekey_and_secret xor_key_stream
  build_ciphers_total pi relay_init secret l =
      let rdpi = reverse_bytes (take 48 (drop 8 relay_init)) in
      let rdpi_length : length rdpi ≡ 48 = omega (
        arith,
        length-reverse_bytes (take 48 (drop 8 relay_init)),
        length-take 48 (drop 8 relay_init),
        length-drop 8 relay_init,
      ) in
      rw (
        new_ctr_32 (sha256 (take 32 pi ++ secret)) (drop 32 pi) (sha256_length _),
        new_ctr_32 (sha256 (take 32 (reverse_bytes pi) ++ secret)) (drop 32 (reverse_bytes pi))
            (sha256_length _),
        new_ctr_32 (relay_key relay_init) (relay_iv relay_init)
            (omega (arith, length-take 32 (drop 8 relay_init), length-drop 8 relay_init)),
        new_ctr_32 (take 32 rdpi) (drop 32 rdpi) (omega (arith, length-take 32 rdpi)),
      )
