-- ===== src/Crypto/Sealed.antt =====
-- tryHandshake of src/crypto.go on the packets that a client with the secret sends.
use tg_ws_proxy_go.Base.{
  ◌-◌, ◌≤◌, ◌||◌, bytes_equal, replicate, ℕ, ◌/◌, ◌%◌, ◌<◌, ◌≡◌, refl, sym, ap, ap₂, ◌∙◌, ◌++◌,
  Bool, true, false, not, Option, none, some, arith, Bytes, IsByte, le16, put_le16, if◌then◌else◌,
  length, take, drop, All, xor_bytes, take_at, drop_at, drop_append_le, take_append_le,
  length-append, length-drop, append_assoc, ==_iff,
}
use tg_ws_proxy_go.Crypto.Stream.{
  KeyStream, new_ctr_32, key_bytes, xor_key_stream, xor_key_bytes-append, xor_key_bytes_undone,
  length-xor_key_bytes,
}
use tg_ws_proxy_go.Crypto.Dc.{is_proto_tag, abs_dc, is_media_dc}
use tg_ws_proxy_go.Crypto.Handshake.{
  HandshakeInfo, prekey_and_iv, key_from_prekey_and_secret, read_handshake, try_handshake,
  sealed_tail, prekey_len,
}

-- The three tags: four times 239, 238 or 221.
abbrev pub is_transport : Bytes → Bool
is_transport tag =
    bytes_equal tag (replicate 4 239)
    || (bytes_equal tag (replicate 4 238) || bytes_equal tag (replicate 4 221))

-- The int16 by which a client asks for a data centre, negative for its media servers, as a bit pattern.
abbrev pub dc_index : ℕ → Bool → ℕ
dc_index dc is_media = if is_media then 65536 - dc else dc

-- The numbers that an int16 can hold: 0 to 32767, and -1 to -32768.
abbrev pub IsDcIndex : ℕ → Bool → Type 0
IsDcIndex dc true = (1 ≤ dc) × (dc ≤ 32768)
IsDcIndex dc false = dc < 32768

-- What a packet with this tail stands for.
abbrev pub info_of : Bytes → Bytes → ℕ → Bool → Option HandshakeInfo
info_of head tag dc is_media =
    if is_transport tag
    then some (record {
      dc = dc;
      is_media = is_media;
      proto_tag = tag;
      client_dec_i = prekey_and_iv head;
    })
    else none

-- The same, in the terms of the code.
abbrev pub read_off : Bytes → Bytes → ℕ → Option HandshakeInfo
read_off head tag dc_idx =
    if is_proto_tag tag
    then some (record {
      dc = abs_dc dc_idx;
      is_media = is_media_dc dc_idx;
      proto_tag = tag;
      client_dec_i = prekey_and_iv head;
    })
    else none

is_proto_tag-is_transport : (tag : Bytes) → is_proto_tag tag ≡ is_transport tag
unfolding is_proto_tag
is_proto_tag-is_transport tag = ground arith

abs_dc-dc_index :
    (dc : ℕ) (is_media : Bool)
    → IsDcIndex dc is_media
    → (abs_dc (dc_index dc is_media) ≡ dc)
      × (is_media_dc (dc_index dc is_media) ≡ is_media)
      × (dc_index dc is_media < 65536)
unfolding abs_dc is_media_dc
abs_dc-dc_index dc true h = (ground (arith, h), ground (arith, h), omega (arith, h))
abs_dc-dc_index dc false h = (ground (arith, h), ground (arith, h), omega (arith, h))

prekey_and_iv-append :
    (head rest : Bytes) → length head ≡ 56 → prekey_and_iv (head ++ rest) ≡ prekey_and_iv head
prekey_and_iv-append head rest h =
    ap (take 48) (drop_append_le 8 head rest (omega arith))
    ∙ take_append_le 48 (drop 8 head) rest (omega (arith, length-drop 8 head))

le16-put_le16 : (n : ℕ) → n < 65536 → le16 (n % 256) (n / 256 % 256) ≡ n
le16-put_le16 n h = omega arith

read_handshake_tail :
    (pi head front tag : Bytes) (dc_idx : ℕ) (salt : Bytes)
    → pi ≡ prekey_and_iv head
    → length front ≡ 56
    → length tag ≡ 4
    → dc_idx < 65536
    → read_handshake pi (front ++ (tag ++ (put_le16 dc_idx ++ salt))) ≡ read_off head tag dc_idx
read_handshake_tail pi head front tag dc_idx salt p f t w =
    let at_tag : drop 56 (front ++ (tag ++ (put_le16 dc_idx ++ salt)))
        ≡ tag ++ (put_le16 dc_idx ++ salt) =
      drop_at 56 front _ f in
    let at_dc : drop 60 (front ++ (tag ++ (put_le16 dc_idx ++ salt))) ≡ put_le16 dc_idx ++ salt =
      ap (drop 60) (sym (append_assoc front tag (put_le16 dc_idx ++ salt)))
      ∙ drop_at 60 (front ++ tag) _ (omega (arith, length-append front tag)) in
    unfold read_handshake in
    rw (at_tag, at_dc, take_at 4 tag (put_le16 dc_idx ++ salt) t, le16-put_le16 dc_idx w, p)
      (flip (is_proto_tag tag) _)
  where
    flip :
        (b : Bool) (x : HandshakeInfo)
        → (if not b then none else some x) ≡ (if b then some x else none)
    flip true x = refl
    flip false x = refl

module _ (sha256 : Bytes → Bytes) (ctr : KeyStream)
    (sha256_length : (b : Bytes) → length (sha256 b) ≡ 32)
    (ctr_byte : (key iv : Bytes) (pos : ℕ) → IsByte (ctr key iv pos)) where
  try_handshake_opens :
      (handshake secret : Bytes)
      → length handshake ≡ 64
      → try_handshake sha256 ctr handshake secret
        ≡ read_handshake (prekey_and_iv handshake) (
            xor_bytes handshake (
              key_bytes ctr
                (key_from_prekey_and_secret sha256
                  (take prekey_len (prekey_and_iv handshake))
                  secret)
                (drop prekey_len (prekey_and_iv handshake))
                0
                (length handshake)))
  try_handshake_opens handshake secret h =
      unfold try_handshake xor_key_stream key_from_prekey_and_secret in
      rw (
        (==_iff (length handshake) 64).1 h,
        new_ctr_32 (sha256 (take 32 (prekey_and_iv handshake) ++ secret))
            (drop 32 (prekey_and_iv handshake)) (sha256_length _),
      )

  pub try_handshake-tail :
      (head secret tag salt : Bytes) (dc_idx : ℕ)
      → length head ≡ 56
      → length tag ≡ 4
      → length salt ≡ 2
      → All IsByte (tag ++ (put_le16 dc_idx ++ salt))
      → dc_idx < 65536
      → try_handshake sha256 ctr
          (head ++ sealed_tail sha256 ctr head secret (tag ++ (put_le16 dc_idx ++ salt)))
          secret
        ≡ read_off head tag dc_idx
  try_handshake-tail head secret tag salt dc_idx hh ht hs b w =
      let tail = tag ++ (put_le16 dc_idx ++ salt) in
      let key = key_from_prekey_and_secret sha256 (take 32 (prekey_and_iv head)) secret in
      let iv = drop 32 (prekey_and_iv head) in
      let sealed = sealed_tail sha256 ctr head secret tail in
      let tail_length : length tail ≡ 8 =
        omega (arith, length-append tag (put_le16 dc_idx ++ salt)) in
      let sealed_length : length sealed ≡ length tail = length-xor_key_bytes ctr key iv tail 56 in
      let front = xor_bytes head (key_bytes ctr key iv 0 (length head)) in
      let pi = prekey_and_iv-append head sealed hh in
      let opened : xor_bytes (head ++ sealed) (key_bytes ctr key iv 0 (length (head ++ sealed)))
          ≡ front ++ tail =
        xor_key_bytes-append ctr key iv head sealed 0
        ∙ ap (λ t. front ++ t)
            (ap₂ (λ p n. xor_bytes sealed (key_bytes ctr key iv p n)) (omega arith) sealed_length
              ∙ xor_key_bytes_undone ctr ctr_byte key iv tail 56 b) in
      try_handshake_opens (head ++ sealed) secret (omega (arith, length-append head sealed))
      ∙ ap
          (λ t. read_handshake t (
            xor_bytes (head ++ sealed) (
              key_bytes ctr (key_from_prekey_and_secret sha256 (take prekey_len t) secret)
                (drop prekey_len t) 0 (length (head ++ sealed)))))
          pi
      ∙ ap (read_handshake (prekey_and_iv head)) opened
      ∙ read_handshake_tail (prekey_and_iv head) head front tag dc_idx salt refl
          (length-xor_key_bytes ctr key iv head 0 ∙ hh) ht w

  -- Where a hash has 32 bytes and the key stream is of bytes: the packet of a client that knows
  -- the secret, 56 bytes of its choice with the prekey in them and a sealed tail of bytes, is
  -- accepted exactly if the tag in its tail is one of the three; the answer is the tag, the
  -- data centre and the media flag that the client has written as one int16, and the key material of
  -- the packet.
  pub try_handshake-sealed_tail :
      (head secret tag salt : Bytes) (dc : ℕ) (is_media : Bool)
      → length head ≡ 56
      → length tag ≡ 4
      → length salt ≡ 2
      → All IsByte (tag ++ (put_le16 (dc_index dc is_media) ++ salt))
      → IsDcIndex dc is_media
      → try_handshake sha256 ctr
          (head
            ++ sealed_tail sha256 ctr head secret
                (tag ++ (put_le16 (dc_index dc is_media) ++ salt)))
          secret
        ≡ info_of head tag dc is_media
  try_handshake-sealed_tail head secret tag salt dc is_media hh ht hs b i =
      let (abs, media, w) = abs_dc-dc_index dc is_media i in
      try_handshake-tail head secret tag salt (dc_index dc is_media) hh ht hs b w
      ∙ ap₂
          (λ (accepts : Bool) (asked : ℕ × Bool).
            if accepts
            then some (record {
              dc = asked.0;
              is_media = asked.1;
              proto_tag = tag;
              client_dec_i = prekey_and_iv head;
            })
            else none)
          (is_proto_tag-is_transport tag) (ap₂ (λ (n : ℕ) (m : Bool). (n, m)) abs media)
