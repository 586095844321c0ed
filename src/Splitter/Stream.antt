-- ===== src/Splitter/Stream.antt =====
-- The byte stream through src/splitter.go: no byte is lost, made up or moved, no message is empty,
-- and the buffer stays below the largest packet.
use tg_ws_proxy_go.Base.{
  ℕ, zero, suc, ◌≤◌, ◌<◌, ◌≡◌, inl, inr, refl, sym, ap, ◌∙◌, List, [], ◌∷◌, ◌++◌, negsuc, true,
  false, arith, Bytes, length, take, drop, concat, lt→ltb, All, All-append, append_assoc,
  append-nil, concat-append, take-append-drop, length-drop, length-take, Bool-cases, length_zero,
}
use tg_ws_proxy_go.Splitter.Steps.{
  ℤ-cases, next_packet_len_neg, next_packet_len_waits, split_loop_wait, split_loop_opaque,
  split_loop_packet, next_packet_len_pos, split_cases, flush-pending_parts, concat-pending_parts,
}
use tg_ws_proxy_go.Splitter.{
  MsgSplitter, max_splitter_packet_bytes, next_packet_len, split_loop, split, relay_up,
  pending_parts, new_splitter,
}

-- What holds between two calls: a disabled splitter buffers nothing, an enabled one holds less than
-- a packet.
pub record IsSettled (m : MsgSplitter) : Type 0 where
  pub off : m.disabled ≡ true → m.plain_buf ≡ []
  pub on : m.disabled ≡ false → next_packet_len m.proto m.plain_buf ≡ negsuc 0

-- All bytes that the splitter has handed out or holds.
abbrev pub bytes_of : MsgSplitter × List Bytes → Bytes
bytes_of r = concat r.1 ++ r.0.plain_buf

concat_snoc : (parts : List Bytes) (p : Bytes) → concat (parts ++ p ∷ []) ≡ concat parts ++ p
concat_snoc parts p = rw (concat-append parts (p ∷ []), append-nil p)

split_loop-bytes_of :
    (fuel : ℕ) (m : MsgSplitter) (parts : List Bytes)
    → bytes_of (split_loop fuel m parts) ≡ concat parts ++ m.plain_buf
split_loop-bytes_of zero m parts = unfold split_loop in refl
split_loop-bytes_of (suc fuel) m parts = elim (ℤ-cases (next_packet_len m.proto m.plain_buf)) [
  | inl (k, e) ↦ rw (split_loop_wait m parts (suc fuel) k e)
  | inr (inl e) ↦
      rw (split_loop_opaque m parts fuel e) (append-nil _ ∙ concat_snoc parts m.plain_buf)
  | inr (inr (n, e)) ↦ rw (split_loop_packet m parts fuel n e) (
      split_loop-bytes_of fuel _ _
      ∙ ap (λ t. t ++ drop (suc n) m.plain_buf) (concat_snoc parts (take (suc n) m.plain_buf))
      ∙ append_assoc (concat parts) _ _
      ∙ ap (λ t. concat parts ++ t) (take-append-drop (suc n) m.plain_buf))
]

split_loop-IsSettled :
    (fuel : ℕ) (m : MsgSplitter) (parts : List Bytes)
    → m.disabled ≡ false
    → length m.plain_buf ≤ fuel
    → IsSettled (split_loop fuel m parts).0
split_loop-IsSettled zero m parts d h =
    unfold split_loop next_packet_len in
    record { off = λ e. cc; on = λ e. rw (length_zero m.plain_buf (omega arith)) }
split_loop-IsSettled (suc fuel) m parts d h = elim (ℤ-cases (next_packet_len m.proto m.plain_buf)) [
  | inl (k, e) ↦ rw (split_loop_wait m parts (suc fuel) k e) (record {
    off = λ t. cc;
    on = λ t. e ∙ ap negsuc (next_packet_len_neg m.proto m.plain_buf k e);
  })
  | inr (inl e) ↦ rw (split_loop_opaque m parts fuel e) (record { off = λ t. refl; on = λ t. cc })
  | inr (inr (n, e)) ↦
      rw (split_loop_packet m parts fuel n e)
        (split_loop-IsSettled fuel _ _ d (omega (arith, length-drop (suc n) m.plain_buf)))
]

-- One call on a settled splitter hands out or keeps exactly the bytes that were buffered and
-- those of the chunk, in order.
pub split-bytes_of :
    (m : MsgSplitter) (chunk : Bytes)
    → IsSettled m
    → bytes_of (split m chunk) ≡ m.plain_buf ++ chunk
split-bytes_of m [] s = unfold split in sym (append-nil m.plain_buf)
split-bytes_of m (c ∷ cs) s =
    split_cases (λ r. bytes_of r ≡ m.plain_buf ++ c ∷ cs) m c cs
      (λ d. rw (s.off d) (append-nil _ ∙ append-nil _))
      (λ d.
        append-nil _
        ∙ concat_snoc (pending_parts m.plain_buf) (c ∷ cs)
        ∙ ap (λ t. t ++ c ∷ cs) (concat-pending_parts m.plain_buf))
      (λ d h. split_loop-bytes_of _ _ [])

pub split-IsSettled : (m : MsgSplitter) (chunk : Bytes) → IsSettled m → IsSettled (split m chunk).0
split-IsSettled m [] s = unfold split in s
split-IsSettled m (c ∷ cs) s =
    split_cases (λ r. IsSettled r.0) m c cs (λ d. s) (λ d. record { off = λ t. refl; on = λ t. cc })
      (λ d h. split_loop-IsSettled _ _ [] d (omega arith))

new_splitter-IsSettled : (proto : ℕ) → IsSettled (new_splitter proto)
unfolding next_packet_len
new_splitter-IsSettled proto = record { off = λ t. refl; on = λ t. refl }

-- Every settled splitter buffers less than the largest packet, and every call leaves it settled.
pub split_bounded :
    (m : MsgSplitter) (chunk : Bytes)
    → IsSettled m
    → IsSettled (split m chunk).0 × (length (split m chunk).0.plain_buf < max_splitter_packet_bytes)
split_bounded m chunk s =
    (split-IsSettled m chunk s, IsSettled-bounded (split m chunk).0 (split-IsSettled m chunk s))
  where
    IsSettled-bounded :
        (n : MsgSplitter) → IsSettled n → length n.plain_buf < max_splitter_packet_bytes
    IsSettled-bounded n t = elim (Bool-cases n.disabled) [
      | inl d ↦ rw (t.off d) (omega arith)
      | inr d ↦ next_packet_len_waits n.proto n.plain_buf 0 (t.on d)
    ]

relay_up-bytes :
    (m : MsgSplitter) (chunks : List Bytes)
    → IsSettled m
    → concat (relay_up m chunks) ≡ m.plain_buf ++ concat chunks
unfolding relay_up
relay_up-bytes m [] s =
    ap concat (flush-pending_parts m)
    ∙ concat-pending_parts m.plain_buf
    ∙ sym (append-nil m.plain_buf)
relay_up-bytes m (chunk ∷ chunks) s =
    let next = split m chunk in
    concat-append next.1 (relay_up next.0 chunks)
    ∙ ap (λ t. concat next.1 ++ t) (relay_up-bytes next.0 chunks (split-IsSettled m chunk s))
    ∙ sym (append_assoc (concat next.1) next.0.plain_buf (concat chunks))
    ∙ ap (λ t. t ++ concat chunks) (split-bytes_of m chunk s)
    ∙ append_assoc m.plain_buf chunk (concat chunks)

-- The messages that a session writes upstream, the flushed tail included, are together exactly the
-- bytes that the client sent, in order: for every protocol, every content and every chunking.
pub relay_up-concat :
    (proto : ℕ) (chunks : List Bytes)
    → concat (relay_up (new_splitter proto) chunks) ≡ concat chunks
relay_up-concat proto chunks =
    relay_up-bytes (new_splitter proto) chunks (new_splitter-IsSettled proto)

-- No message of zero length.
abbrev pub IsFull : Bytes → Type 0
IsFull p = 1 ≤ length p

split_loop-IsFull :
    (fuel : ℕ) (m : MsgSplitter) (parts : List Bytes)
    → All IsFull parts
    → All IsFull (split_loop fuel m parts).1
split_loop-IsFull zero m parts f = unfold split_loop in f
split_loop-IsFull (suc fuel) m parts f = elim (ℤ-cases (next_packet_len m.proto m.plain_buf)) [
  | inl (k, e) ↦ rw (split_loop_wait m parts (suc fuel) k e) f
  | inr (inl e) ↦
      rw (split_loop_opaque m parts fuel e)
        (All-append IsFull parts _ f (next_packet_len_pos m.proto m.plain_buf 0 e, tt))
  | inr (inr (n, e)) ↦ rw (split_loop_packet m parts fuel n e) (
      split_loop-IsFull fuel _ _ (
        All-append IsFull parts _ f (
          omega (
            arith,
            length-take (suc n) m.plain_buf,
            next_packet_len_pos m.proto m.plain_buf (suc n) e,
          ),
          tt,
        )))
]

pending_parts-IsFull : (buf : Bytes) → All IsFull (pending_parts buf)
unfolding pending_parts
pending_parts-IsFull [] = tt
pending_parts-IsFull (b ∷ buf) = rw (lt→ltb 0 (length (b ∷ buf)) (omega arith)) (omega arith)

split-IsFull : (m : MsgSplitter) (chunk : Bytes) → All IsFull (split m chunk).1
split-IsFull m [] = unfold split in tt
split-IsFull m (c ∷ cs) =
    split_cases (λ r. All IsFull r.1) m c cs (λ d. omega arith)
      (λ d.
        All-append IsFull (pending_parts m.plain_buf) _ (pending_parts-IsFull m.plain_buf)
          (omega arith))
      (λ d h. split_loop-IsFull _ _ [] tt)

-- Whatever is buffered and whatever the client sends, no message that is written upstream is
-- empty.
pub relay_up-IsFull : (m : MsgSplitter) (chunks : List Bytes) → All IsFull (relay_up m chunks)
unfolding relay_up
relay_up-IsFull m [] = rw (flush-pending_parts m) (pending_parts-IsFull m.plain_buf)
relay_up-IsFull m (chunk ∷ chunks) =
    All-append IsFull (split m chunk).1 _ (split-IsFull m chunk)
      (relay_up-IsFull (split m chunk).0 chunks)
