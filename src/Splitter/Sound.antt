-- ===== src/Splitter/Sound.antt =====
-- What src/splitter.go sends out of a stream of any content: packets, and at most one unframed rest.
use tg_ws_proxy_go.Base.{
  ℕ, zero, suc, ◌+◌, ◌≤◌, ◌≡◌, ◌⊎◌, inl, inr, refl, sym, ◌∙◌, List, [], ◌∷◌, ◌++◌, pos, true, false,
  arith, Bytes, length, take, drop, All, append_assoc, append-nil,
}
use tg_ws_proxy_go.Splitter.Steps.{
  ℤ-cases, split_loop_wait, split_loop_opaque, split_loop_packet, split_fits,
}
use tg_ws_proxy_go.Splitter.Frames.{IsPacket, next_packet_len_sound}
use tg_ws_proxy_go.Splitter.{
  MsgSplitter, max_splitter_packet_bytes, next_packet_len, split_loop, split,
}

-- The parts of one call: packets, and then either nothing, with the splitter still on, or one rest
-- that begins no packet, with the splitter off.
pub record Framed (proto : ℕ) (before : List Bytes) (r : MsgSplitter × List Bytes) : Type 0 where
  pub packets : List Bytes
  pub rest : List Bytes
  pub parts_are : r.1 ≡ before ++ (packets ++ rest)
  pub are_packets : All (IsPacket proto) packets
  pub ends :
      ((rest ≡ []) × (r.0.disabled ≡ false))
      ⊎ ((p : Bytes) × (rest ≡ p ∷ [])
          × (next_packet_len proto p ≡ pos 0)
          × (r.0.disabled ≡ true)
          × (r.0.plain_buf ≡ []))

Framed-cons :
    (proto : ℕ) (before : List Bytes) (p : Bytes) {r : MsgSplitter × List Bytes}
    → IsPacket proto p
    → Framed proto (before ++ p ∷ []) r
    → Framed proto before r
Framed-cons proto before p h f = record {
  packets = p ∷ f.packets;
  rest = f.rest;
  parts_are = f.parts_are ∙ append_assoc before (p ∷ []) (f.packets ++ f.rest);
  are_packets = (h, f.are_packets);
  ends = f.ends;
}

split_loop-Framed :
    (fuel : ℕ) (m : MsgSplitter) (parts : List Bytes)
    → m.disabled ≡ false
    → Framed m.proto parts (split_loop fuel m parts)
split_loop-Framed zero m parts d =
    unfold split_loop in
    record {
      packets = [];
      rest = [];
      parts_are = sym (append-nil parts);
      are_packets = tt;
      ends = inl (refl, d);
    }
split_loop-Framed (suc fuel) m parts d = elim (ℤ-cases (next_packet_len m.proto m.plain_buf)) [
  | inl (k, e) ↦ rw (split_loop_wait m parts (suc fuel) k e) (record {
    packets = [];
    rest = [];
    parts_are = sym (append-nil parts);
    are_packets = tt;
    ends = inl (refl, d);
  })
  | inr (inl e) ↦ rw (split_loop_opaque m parts fuel e) (record {
    packets = [];
    rest = m.plain_buf ∷ [];
    parts_are = refl;
    are_packets = tt;
    ends = inr (m.plain_buf, refl, e, refl, refl);
  })
  | inr (inr (n, e)) ↦ rw (split_loop_packet m parts fuel n e) (
      Framed-cons m.proto parts (take (suc n) m.plain_buf)
        (next_packet_len_sound m.proto m.plain_buf n e).1
        (split_loop-Framed fuel (record m { plain_buf = drop (suc n) m.plain_buf })
          (parts ++ take (suc n) m.plain_buf ∷ []) d))
]

-- A splitter that is on and has room for the chunk sends packets of its protocol only, but for one
-- last rest that no packet begins; it goes off exactly when it sends such a rest.
pub split-Framed :
    (m : MsgSplitter) (chunk : Bytes)
    → m.disabled ≡ false
    → length m.plain_buf + length chunk ≤ max_splitter_packet_bytes
    → Framed m.proto [] (split m chunk)
split-Framed m [] d h =
    unfold split in
    record { packets = []; rest = []; parts_are = refl; are_packets = tt; ends = inl (refl, d) }
split-Framed m (c ∷ cs) d h = rw (split_fits m (c ∷ cs) (omega arith) d h) (
    split_loop-Framed (length (m.plain_buf ++ c ∷ cs))
      (record m { plain_buf = m.plain_buf ++ c ∷ cs }) [] d)
