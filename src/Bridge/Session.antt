-- ===== src/Bridge/Session.antt =====
-- What the two ends of a session see of the loops in src/transport.go.
use tg_ws_proxy_go.Base.{
  ℕ, ◌+◌, ◌≡◌, refl, sym, ap, ap₂, ◌∙◌, List, [], ◌∷◌, ◌++◌, arith, Bytes, IsByte, All, length,
  concat, length-append, xor_bytes,
}
use tg_ws_proxy_go.Splitter.{MsgSplitter, split, flush, relay_up, new_splitter}
use tg_ws_proxy_go.Splitter.Stream.{relay_up-concat}
use tg_ws_proxy_go.Splitter.Packets.{relay_up-new_splitter, IsRoomy, IsChunk}
use tg_ws_proxy_go.Splitter.Frames.{IsPacket}
use tg_ws_proxy_go.Crypto.Stream.{
  KeyStream, Stream, xor_key_stream, xor_all, concat-xor_all, key_bytes, length-xor_key_bytes,
  xor_key_bytes_undone,
}
use tg_ws_proxy_go.Bridge.{Counted, count, count_end, count_all, send, bridge_up, forward}

count-total :
    (c : Counted) (n : ℕ) → (count c n).added + (count c n).pending ≡ c.added + c.pending + n
unfolding count
count-total c n = ground arith

-- The statistics get exactly the bytes that were read, whenever they are flushed on the way.
pub count_all-total :
    (c : Counted) (chunks : List Bytes)
    → count_all c chunks ≡ c.added + c.pending + length (concat chunks)
unfolding count_all count_end
count_all-total c [] = ground arith
count_all-total c (chunk ∷ chunks) = omega (
  arith,
  count_all-total (count c (length chunk)) chunks,
  count-total c (length chunk),
  length-append chunk (concat chunks),
)

module _ (ctr : KeyStream) where
  send-xor_all :
      (enc : Stream) (parts : List Bytes) → (send ctr enc parts).1 ≡ xor_all ctr enc parts
  unfolding send xor_all
  send-xor_all enc [] = refl
  send-xor_all enc (p ∷ parts) =
      let (enc', out) = xor_key_stream ctr enc p in ap (λ t. out ∷ t) (send-xor_all enc' parts)

  xor_all-append :
      (enc : Stream) (xs ys : List Bytes)
      → xor_all ctr enc (xs ++ ys) ≡ xor_all ctr enc xs ++ xor_all ctr (send ctr enc xs).0 ys
  unfolding send xor_all
  xor_all-append enc [] ys = refl
  xor_all-append enc (x ∷ xs) ys =
      let (enc', out) = xor_key_stream ctr enc x in ap (λ t. out ∷ t) (xor_all-append enc' xs ys)

  -- The loop is decryption of all chunks, the splitter, and encryption of all parts.
  bridge_up-relay_up :
      (chunks : List Bytes) (m : MsgSplitter) (dec enc : Stream)
      → bridge_up ctr m dec enc chunks ≡ xor_all ctr enc (relay_up m (xor_all ctr dec chunks))
  unfolding bridge_up relay_up xor_all
  bridge_up-relay_up [] m dec enc = send-xor_all enc (flush m).1
  bridge_up-relay_up (chunk ∷ chunks) m dec enc =
      let (dec', plain) = xor_key_stream ctr dec chunk in
      let (m', parts) = split m plain in
      let (enc', outs) = send ctr enc parts in
      ap₂ ◌++◌ (send-xor_all enc parts) (bridge_up-relay_up chunks m' dec' enc')
      ∙ sym (xor_all-append enc parts (relay_up m' (xor_all ctr dec' chunks)))

  xor_all-IsChunk :
      (s : Stream) (chunks : List Bytes) → All IsChunk chunks → All IsChunk (xor_all ctr s chunks)
  unfolding xor_all xor_key_stream
  xor_all-IsChunk s [] k = tt
  xor_all-IsChunk s (c ∷ cs) k = (
    omega (arith, length-xor_key_bytes ctr s.key s.iv c s.position, k.0),
    xor_all-IsChunk (record s { position = s.position + length c }) cs k.1,
  )

  forward-xor_all :
      (chunks : List Bytes) (dec enc : Stream)
      → forward ctr dec enc chunks ≡ xor_all ctr enc (xor_all ctr dec chunks)
  unfolding forward xor_all
  forward-xor_all [] dec enc = refl
  forward-xor_all (chunk ∷ chunks) dec enc =
      let (dec', plain) = xor_key_stream ctr dec chunk in
      let (enc', out) = xor_key_stream ctr enc plain in
      ap (λ t. out ∷ t) (forward-xor_all chunks dec' enc')

module _ (ctr : KeyStream) (ctr_byte : (key iv : Bytes) (pos : ℕ) → IsByte (ctr key iv pos)) where
  -- Chunks that hold a text under the key stream of `s`, at its position.
  abbrev pub IsUnder : Stream → Bytes → List Bytes → Type 0
  IsUnder s text chunks =
      concat chunks ≡ xor_bytes text (key_bytes ctr s.key s.iv s.position (length text))

  IsUnder-opens :
      (s : Stream) (text : Bytes) (chunks : List Bytes)
      → All IsByte text
      → IsUnder s text chunks
      → concat (xor_all ctr s chunks) ≡ text
  IsUnder-opens s text chunks b u =
      concat-xor_all ctr s chunks
      ∙ ap₂ (λ t n. xor_bytes t (key_bytes ctr s.key s.iv s.position n)) u
          (ap length u ∙ length-xor_key_bytes ctr s.key s.iv text s.position)
      ∙ xor_key_bytes_undone ctr ctr_byte s.key s.iv text s.position b

  -- Where the key stream is of bytes, from client to Telegram with a splitter: the text of
  -- bytes that the client encrypts comes out of the messages, decrypted by Telegram, byte for
  -- byte, for every protocol and division into reads.
  pub bridge_up-IsUnder :
      (proto : ℕ) (dec enc : Stream) (text : Bytes) (chunks : List Bytes)
      → All IsByte text
      → IsUnder dec text chunks
      → IsUnder enc text (bridge_up ctr (new_splitter proto) dec enc chunks)
  bridge_up-IsUnder proto dec enc text chunks b u =
      let parts = relay_up (new_splitter proto) (xor_all ctr dec chunks) in
      let plain : concat parts ≡ text =
        relay_up-concat proto (xor_all ctr dec chunks) ∙ IsUnder-opens dec text chunks b u in
      ap concat (bridge_up-relay_up ctr chunks (new_splitter proto) dec enc)
      ∙ concat-xor_all ctr enc parts
      ∙ ap (λ t. xor_bytes t (key_bytes ctr enc.key enc.iv enc.position (length t))) plain

  -- Where the key stream is of bytes, without a splitter and from Telegram to the client: the
  -- text of bytes that one side encrypts is what the other side decrypts, for every division
  -- into reads.
  pub forward-IsUnder :
      (dec enc : Stream) (text : Bytes) (chunks : List Bytes)
      → All IsByte text
      → IsUnder dec text chunks
      → IsUnder enc text (forward ctr dec enc chunks)
  forward-IsUnder dec enc text chunks b u =
      ap concat (forward-xor_all ctr chunks dec enc)
      ∙ concat-xor_all ctr enc (xor_all ctr dec chunks)
      ∙ ap (λ t. xor_bytes t (key_bytes ctr enc.key enc.iv enc.position (length t)))
          (IsUnder-opens dec text chunks b u)

  -- Where the key stream is of bytes: if the client sends packets of its transport, of up to 8
  -- MiB less one read, in reads of at most 64 KiB, then the messages are exactly those packets,
  -- each encrypted at its place in the stream.
  pub bridge_up-packets :
      (proto : ℕ) (dec enc : Stream) (packets chunks : List Bytes)
      → All (IsPacket proto) packets
      → All IsRoomy packets
      → All IsChunk chunks
      → All IsByte (concat packets)
      → IsUnder dec (concat packets) chunks
      → bridge_up ctr (new_splitter proto) dec enc chunks ≡ xor_all ctr enc packets
  bridge_up-packets proto dec enc packets chunks p r k b u =
      bridge_up-relay_up ctr chunks (new_splitter proto) dec enc
      ∙ ap (xor_all ctr enc) (
          relay_up-new_splitter proto packets (xor_all ctr dec chunks) p r
            (xor_all-IsChunk ctr dec chunks k) (IsUnder-opens dec (concat packets) chunks b u))
