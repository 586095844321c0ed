-- ===== src/Session/EndToEnd.antt =====
-- A session of src/server.go from end to end: what Telegram gets of what the client sends.
use tg_ws_proxy_go.Base.{
  ℕ, ◌+◌, ◌<◌, ◌≡◌, refl, sym, subst, ap, ap₂, ◌∙◌, List, [], ◌∷◌, ◌++◌, true, some, Bytes, IsByte,
  All, concat, length, take, drop, put_le16, arith, xor_bytes, take_all, All-append,
}
use tg_ws_proxy_go.Splitter.Packets.{IsRoomy, IsChunk}
use tg_ws_proxy_go.Splitter.Frames.{IsPacket}
use tg_ws_proxy_go.Crypto.Stream.{
  KeyStream, Stream, xor_key_stream, xor_all, key_bytes, length-xor_key_bytes, xor_key_bytes_undone,
}
use tg_ws_proxy_go.Crypto.Dc.{is_proto_tag, proto_from_tag, abs_dc, is_media_dc, signed_dc-abs_dc}
use tg_ws_proxy_go.Crypto.Handshake.{prekey_and_iv, sealed_tail}
use tg_ws_proxy_go.Crypto.Sealed.{try_handshake-tail}
use tg_ws_proxy_go.Crypto.RelayInit.{
  generate_relay_init, relay_key, relay_iv, tail_plain, IsRelayInit,
  generate_relay_init-IsRelayInit,
}
use tg_ws_proxy_go.Crypto.Ciphers.{Ciphers, build_ciphers, build_ciphers_total}
use tg_ws_proxy_go.Bridge.Session.{IsUnder, bridge_up-packets}
use tg_ws_proxy_go.Session.{Opened, open_session, session_up}

-- The stream that Telegram reads, from the proxy's first packet alone, past its 64 bytes.
abbrev pub telegram_stream : Bytes → Stream
telegram_stream relay_init = record {
  key = relay_key relay_init;
  iv = relay_iv relay_init;
  position = 64;
}

module _ (sha256 : Bytes → Bytes) (ctr : KeyStream)
    (sha256_length : (b : Bytes) → length (sha256 b) ≡ 32)
    (ctr_byte : (key iv : Bytes) (pos : ℕ) → IsByte (ctr key iv pos)) where
  -- The stream that a client writes, from its first packet and the secret.
  abbrev pub client_stream : Bytes → Bytes → Stream
  client_stream head secret = record {
    key = sha256 (take 32 (prekey_and_iv head) ++ secret);
    iv = drop 32 (prekey_and_iv head);
    position = 64;
  }

  All-front : (xs ys : Bytes) → All IsByte (xs ++ ys) → All IsByte xs × All IsByte ys
  All-front [] ys h = (tt, h)
  All-front (x ∷ xs) ys h = ((h.0, (All-front xs ys h.1).0), (All-front xs ys h.1).1)

  xor_all_undone :
      (s : Stream) (packets : List Bytes)
      → All IsByte (concat packets)
      → xor_all ctr s (xor_all ctr s packets) ≡ packets
  unfolding xor_all xor_key_stream
  xor_all_undone s [] h = refl
  xor_all_undone s (p ∷ packets) h =
      let parts = All-front p (concat packets) h in
      let out = xor_bytes p (key_bytes ctr s.key s.iv s.position (length p)) in
      let same : length out ≡ length p = length-xor_key_bytes ctr s.key s.iv p s.position in
      let next : Stream = record s { position = s.position + length p } in
      ap₂ ◌∷◌
        (ap (λ n. xor_bytes out (key_bytes ctr s.key s.iv s.position n)) same
          ∙ xor_key_bytes_undone ctr ctr_byte s.key s.iv p s.position parts.0)
        (ap (λ n. xor_all ctr (record s { position = s.position + n }) (xor_all ctr next packets))
            same
          ∙ xor_all_undone next packets parts.1)

  ciphers_up :
      (pi relay_init secret : Bytes)
      → length relay_init ≡ 64
      → (c : Ciphers) × (build_ciphers sha256 ctr pi relay_init secret ≡ some c)
        × (c.clt_dec
            ≡ record { key = sha256 (take 32 pi ++ secret); iv = drop 32 pi; position = 64 })
        × (c.tg_enc ≡ telegram_stream relay_init)
  ciphers_up pi relay_init secret l =
      (_, build_ciphers_total sha256 ctr sha256_length pi relay_init secret l, refl, refl)

  -- The session that handleClient opens for such a packet.
  open_session-sealed_tail :
      (draws : List Bytes) (head secret tag salt own_salt relay_init : Bytes) (dc_idx : ℕ)
      → length head ≡ 56
      → length tag ≡ 4
      → length salt ≡ 2
      → All IsByte (tag ++ (put_le16 dc_idx ++ salt))
      → dc_idx < 65536
      → is_proto_tag tag ≡ true
      → generate_relay_init ctr draws own_salt tag dc_idx ≡ some relay_init
      → length relay_init ≡ 64
      → (o : Opened) × (open_session sha256 ctr draws own_salt
            (head ++ sealed_tail sha256 ctr head secret (tag ++ (put_le16 dc_idx ++ salt)))
            secret
          ≡ some o)
        × (o.relay_init ≡ relay_init)
        × (o.info.proto_tag ≡ tag)
        × (o.ciphers.clt_dec ≡ client_stream head secret)
        × (o.ciphers.tg_enc ≡ telegram_stream relay_init)
  unfolding open_session
  open_session-sealed_tail draws head secret tag salt own_salt relay_init dc_idx hh ht hs b w is_tag
        drawn l =
      let (c, built, dec, enc) = ciphers_up (prekey_and_iv head) relay_init secret l in
      (
        record {
          info = record {
            dc = abs_dc dc_idx;
            is_media = is_media_dc dc_idx;
            proto_tag = tag;
            client_dec_i = prekey_and_iv head;
          };
          relay_init = relay_init;
          ciphers = c;
        },
        rw
            (
              open_session,
              try_handshake-tail sha256 ctr sha256_length ctr_byte head secret tag salt dc_idx hh ht
                  hs b w,
              is_tag,
              signed_dc-abs_dc dc_idx w,
              drawn,
              built,
            )
            refl,
        refl,
        refl,
        dec,
        enc,
      )

  -- From end to end, where a hash has 32 bytes and the key stream is of bytes: a client that knows the secret
  -- sends its first packet, with one of the three tags and any number of a data centre, and then
  -- packets of its transport, of up to 8 MiB less one read, under its stream in reads of at most 64
  -- KiB. If the proxy draws usable bytes, it opens a session; its first packet opens, with nothing but the
  -- packet itself, to the client's tag and number; and Telegram, which knows no secret, decrypts the
  -- messages to exactly the client's packets, one message each.
  pub session_up-packets :
      (draws packets chunks : List Bytes) (head secret tag salt own_salt relay_init : Bytes)
      (dc_idx : ℕ)
      → length head ≡ 56
      → length tag ≡ 4
      → length salt ≡ 2
      → length own_salt ≡ 2
      → All IsByte (tag ++ (put_le16 dc_idx ++ salt))
      → All IsByte own_salt
      → dc_idx < 65536
      → is_proto_tag tag ≡ true
      → All (λ d. (length d ≡ 64) × All IsByte d) draws
      → generate_relay_init ctr draws own_salt tag dc_idx ≡ some relay_init
      → All (IsPacket (proto_from_tag tag)) packets
      → All IsRoomy packets
      → All IsChunk chunks
      → All IsByte (concat packets)
      → IsUnder ctr ctr_byte (client_stream head secret) (concat packets) chunks
      → (o : Opened) × (open_session sha256 ctr draws own_salt
            (head ++ sealed_tail sha256 ctr head secret (tag ++ (put_le16 dc_idx ++ salt)))
            secret
          ≡ some o)
        × IsRelayInit ctr (tail_plain tag dc_idx own_salt) o.relay_init
        × (xor_all ctr (telegram_stream o.relay_init) (session_up sha256 ctr o chunks) ≡ packets)
  unfolding session_up
  session_up-packets draws packets chunks head secret tag salt own_salt relay_init dc_idx hh ht hs
        ho b bo w is_tag ds drawn p r k pb u =
      let parts = All-front tag (put_le16 dc_idx ++ salt) b in
      let words = All-front (put_le16 dc_idx) salt parts.1 in
      let is_relay =
        generate_relay_init-IsRelayInit ctr ctr_byte draws own_salt tag relay_init dc_idx ds ho ht
          (rw (take_all 4 tag (omega (arith, ht))) (
            All-append IsByte tag (put_le16 dc_idx ++ own_salt) parts.0
              (All-append IsByte (put_le16 dc_idx) own_salt words.0 bo)))
          drawn in
      let (o, opens, relay_is, tag_is, dec, enc) =
        open_session-sealed_tail draws head secret tag salt own_salt relay_init dc_idx hh ht hs b w
          is_tag drawn is_relay.length_is in
      let sent =
        bridge_up-packets ctr ctr_byte (proto_from_tag tag) (client_stream head secret)
          (telegram_stream relay_init) packets chunks p r k pb u in
      (
        o,
        opens,
        subst (IsRelayInit ctr (tail_plain tag dc_idx own_salt)) (sym relay_is) is_relay,
        rw (session_up, relay_is, tag_is, dec, enc, sent)
            (xor_all_undone (telegram_stream relay_init) packets pb),
      )
