-- ===== src/Splitter/Packets.antt =====
-- The packets through src/splitter.go: the messages of a session are the packets of the client,
-- however the client's bytes were cut into reads.
use tg_ws_proxy_go.Base.{
  ℕ, zero, suc, ◌+◌, ◌-◌, ◌*◌, ◌≤◌, ◌<◌, ◌≡◌, refl, sym, ap, ap₂, subst, ◌∙◌, List, [], ◌∷◌, ◌++◌,
  negsuc, false, arith, Bytes, length, take, drop, concat, All, append_assoc, append-nil,
  length-append, length-drop, length_zero, dec_le, take-length_append, drop-length_append,
}
use tg_ws_proxy_go.Splitter.Steps.{
  split_loop_wait, split_loop_packet, split_fits, flush-pending_parts,
}
use tg_ws_proxy_go.Splitter.Frames.{
  IsPacket, IsPacket-ne_nil, next_packet_len-packet, next_packet_len-prefix,
}
use tg_ws_proxy_go.Splitter.{
  MsgSplitter, max_splitter_packet_bytes, next_packet_len, split_loop, split, relay_up,
  new_splitter, pending_parts,
}

module _ {ℓ} {A : Type ℓ} where
  -- Where two ways to cut one list meet.
  append_split :
      (xs ys us vs : List A)
      → xs ++ ys ≡ us ++ vs
      → length xs ≤ length us
      → (us ≡ xs ++ drop (length xs) us) × (ys ≡ drop (length xs) us ++ vs)
  append_split [] ys us vs e h = (refl, e)
  append_split (x ∷ xs) ys [] vs e h = absurd (omega arith)
  append_split (x ∷ xs) ys (u ∷ us) vs e h =
      ground (arith, append_split xs ys us vs (ground arith) (omega arith))

-- The buffer holds a proper part of the first packet that is still to come.
abbrev IsShort : Bytes → List Bytes → Type 0
IsShort kept [] = kept ≡ []
IsShort kept (p ∷ _) = length kept < length p

-- A run of the loop sends some of the packets and keeps a proper part of the next one.
record Progress (m : MsgSplitter) (parts packets : List Bytes) (later : Bytes)
    (r : MsgSplitter × List Bytes) : Type 0 where
  sent : List Bytes
  left : List Bytes
  kept : Bytes
  splits : packets ≡ sent ++ left
  ends : r ≡ (record m { plain_buf = kept }, parts ++ sent)
  aligned : kept ++ later ≡ concat left
  short : IsShort kept left

split_loop_whole :
    (fuel : ℕ) (m : MsgSplitter) (parts : List Bytes) (p rest : Bytes)
    → 1 ≤ fuel
    → IsPacket m.proto p
    → m.plain_buf ≡ p ++ rest
    → split_loop fuel m parts
      ≡ split_loop (fuel - 1) (record m { plain_buf = rest }) (parts ++ p ∷ [])
split_loop_whole zero m parts p rest f h e = absurd (omega arith)
split_loop_whole (suc fuel) m parts [] rest f h e =
    absurd (omega (arith, IsPacket-ne_nil m.proto [] h))
split_loop_whole (suc fuel) m parts (b ∷ bs) rest f h e =
    split_loop_packet m parts fuel (length bs)
      (ap (next_packet_len m.proto) e ∙ next_packet_len-packet m.proto (b ∷ bs) rest h)
    ∙ ap₂ (λ t u. split_loop fuel (record m { plain_buf = t }) (parts ++ u ∷ []))
        (ap (drop (length (b ∷ bs))) e ∙ drop-length_append (b ∷ bs) rest)
        (ap (take (length (b ∷ bs))) e ∙ take-length_append (b ∷ bs) rest)
    ∙ ap (λ t. split_loop t (record m { plain_buf = rest }) (parts ++ (b ∷ bs) ∷ [])) (omega arith)

Progress-cons :
    (m : MsgSplitter) (parts packets : List Bytes) (p buf later : Bytes)
    {r : MsgSplitter × List Bytes}
    → Progress (record m { plain_buf = buf }) (parts ++ p ∷ []) packets later r
    → Progress m parts (p ∷ packets) later r
Progress-cons m parts packets p buf later g = record {
  sent = p ∷ g.sent;
  left = g.left;
  kept = g.kept;
  splits = ap (◌∷◌ p) g.splits;
  ends =
      g.ends ∙ ap (λ t. (record m { plain_buf = g.kept }, t)) (append_assoc parts (p ∷ []) g.sent);
  aligned = g.aligned;
  short = g.short;
}

Progress-wait :
    (fuel : ℕ) (m : MsgSplitter) (parts packets : List Bytes) (later : Bytes)
    → next_packet_len m.proto m.plain_buf ≡ negsuc 0
    → m.plain_buf ++ later ≡ concat packets
    → IsShort m.plain_buf packets
    → Progress m parts packets later (split_loop fuel m parts)
Progress-wait fuel m parts packets later w e h = record {
  sent = [];
  left = packets;
  kept = m.plain_buf;
  splits = refl;
  ends = split_loop_wait m parts fuel 0 w ∙ ap (λ t. (m, t)) (sym (append-nil parts));
  aligned = e;
  short = h;
}

split_loop-Progress :
    (packets : List Bytes) (fuel : ℕ) (m : MsgSplitter) (parts : List Bytes) (later : Bytes)
    → All (IsPacket m.proto) packets
    → m.plain_buf ++ later ≡ concat packets
    → length m.plain_buf ≤ fuel
    → Progress m parts packets later (split_loop fuel m parts)
split_loop-Progress [] fuel m parts later ps e h =
    Progress-wait fuel m parts [] later (unfold next_packet_len in rw empty) e empty
  where
    empty : m.plain_buf ≡ []
    empty = length_zero m.plain_buf (omega (arith, ap length e, length-append m.plain_buf later))
split_loop-Progress (p ∷ packets) fuel m parts later ps e h =
    elim (dec_le (length p) (length m.plain_buf)) [
      | no part ↦
          let cut = append_split m.plain_buf later p (concat packets) e (omega arith) in
          Progress-wait fuel m parts (p ∷ packets) later
            (next_packet_len-prefix m.proto m.plain_buf (drop (length m.plain_buf) p)
              (subst (IsPacket m.proto) cut.0 ps.0)
              (omega (arith, length-drop (length m.plain_buf) p)))
            e (omega arith)
      | yes whole ↦
          let rest : Bytes = drop (length p) m.plain_buf in
          let cut = append_split p (concat packets) m.plain_buf later (sym e) whole in
          rw
            (split_loop_whole fuel m parts p rest (omega (arith, IsPacket-ne_nil m.proto p ps.0))
              ps.0 cut.0)
            (Progress-cons m parts packets p rest later (
              split_loop-Progress packets (fuel - 1) (record m { plain_buf = rest })
                (parts ++ p ∷ []) later ps.1 (sym cut.1)
                (omega
                  (arith, length-drop (length p) m.plain_buf, IsPacket-ne_nil m.proto p ps.0))))
    ]

-- The size of the read buffers of bridgeWS (`ioBufPool`).
abbrev pub io_buf_len : ℕ
io_buf_len = 64 * 1024

-- A chunk as `client.Read(buf)` gives it.
abbrev pub IsChunk : Bytes → Type 0
IsChunk c = length c ≤ io_buf_len

-- A packet that leaves room for one more read in the splitter's buffer.
abbrev pub IsRoomy : Bytes → Type 0
IsRoomy p = length p ≤ max_splitter_packet_bytes - io_buf_len

IsShort-fits :
    (kept : Bytes) (packets : List Bytes) (c : Bytes)
    → IsShort kept packets
    → All IsRoomy packets
    → IsChunk c
    → length kept + length c ≤ max_splitter_packet_bytes
IsShort-fits kept [] c s h k = omega (arith, ap length s)
IsShort-fits kept (p ∷ packets) c s h k = omega arith

All-append_right {ℓ κ} :
    {A : Type ℓ} (P : A → Type κ) (xs ys : List A) → All P (xs ++ ys) → All P ys
All-append_right P [] ys h = h
All-append_right P (x ∷ xs) ys h = All-append_right P xs ys h.1

flush_short :
    (kept : Bytes) (packets : List Bytes)
    → IsShort kept packets
    → kept ++ [] ≡ concat packets
    → pending_parts kept ≡ packets
flush_short kept [] s e = unfold pending_parts in rw s
flush_short kept (p ∷ packets) s e =
    absurd (omega (arith, ap length e, length-append kept [], length-append p (concat packets)))

split-Progress :
    (m : MsgSplitter) (c : Bytes) (packets : List Bytes) (later : Bytes)
    → m.disabled ≡ false
    → All (IsPacket m.proto) packets
    → All IsRoomy packets
    → IsChunk c
    → IsShort m.plain_buf packets
    → m.plain_buf ++ (c ++ later) ≡ concat packets
    → Progress m [] packets later (split m c)
split-Progress m [] packets later d ps room k s e = record {
  sent = [];
  left = packets;
  kept = m.plain_buf;
  splits = refl;
  ends = unfold split in refl;
  aligned = e;
  short = s;
}
split-Progress m (b ∷ c) packets later d ps room k s e =
    rw (split_fits m (b ∷ c) (omega arith) d (IsShort-fits m.plain_buf packets (b ∷ c) s room k)) (
      widen (
        split_loop-Progress packets (length (m.plain_buf ++ b ∷ c))
          (record m { plain_buf = m.plain_buf ++ b ∷ c }) [] later ps
          (append_assoc m.plain_buf (b ∷ c) later ∙ e) (omega arith)))
  where
    widen :
        {r : MsgSplitter × List Bytes}
        → Progress (record m { plain_buf = m.plain_buf ++ b ∷ c }) [] packets later r
        → Progress m [] packets later r
    widen g = record {
      sent = g.sent;
      left = g.left;
      kept = g.kept;
      splits = g.splits;
      ends = g.ends;
      aligned = g.aligned;
      short = g.short;
    }

relay_up-packets :
    (chunks : List Bytes) (m : MsgSplitter) (packets : List Bytes)
    → m.disabled ≡ false
    → All (IsPacket m.proto) packets
    → All IsRoomy packets
    → All IsChunk chunks
    → IsShort m.plain_buf packets
    → m.plain_buf ++ concat chunks ≡ concat packets
    → relay_up m chunks ≡ packets
unfolding relay_up
relay_up-packets [] m packets d ps room k s e =
    flush-pending_parts m ∙ flush_short m.plain_buf packets s e
relay_up-packets (c ∷ chunks) m packets d ps room k s e =
    let g = split-Progress m c packets (concat chunks) d ps room k.0 s e in
    let left_ps =
      All-append_right (IsPacket m.proto) g.sent g.left
        (subst (All (IsPacket m.proto)) g.splits ps) in
    let left_room = All-append_right IsRoomy g.sent g.left (subst (All IsRoomy) g.splits room) in
    ap (λ t. t.1 ++ relay_up t.0 chunks) g.ends
    ∙ ap (λ t. g.sent ++ t)
        (relay_up-packets chunks (record m { plain_buf = g.kept }) g.left d left_ps left_room k.1
          g.short g.aligned)
    ∙ sym g.splits

-- A client that sends packets of its transport gets each packet written upstream as one message,
-- and nothing else, however its bytes were cut into reads of at most 64 KiB: for packets of up to
-- 8 MiB less one read.
pub relay_up-new_splitter :
    (proto : ℕ) (packets chunks : List Bytes)
    → All (IsPacket proto) packets
    → All IsRoomy packets
    → All IsChunk chunks
    → concat chunks ≡ concat packets
    → relay_up (new_splitter proto) chunks ≡ packets
relay_up-new_splitter proto packets chunks ps room k e =
    relay_up-packets chunks (new_splitter proto) packets refl ps room k (start packets ps) e
  where
    start : (packets : List Bytes) → All (IsPacket proto) packets → IsShort [] packets
    start [] h = refl
    start (p ∷ packets) h = omega (arith, IsPacket-ne_nil proto p h.0)
