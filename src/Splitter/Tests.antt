-- ===== src/Splitter/Tests.antt =====
-- Runs of src/splitter.go on small streams, and the theorems at concrete inputs.
use tg_ws_proxy_go.Base.{ℕ, ◌≡◌, ◌<◌, refl, inl, List, [], ◌∷◌, arith, Bytes, concat, length}
use tg_ws_proxy_go.Splitter.Frames.{IsPacket}
use tg_ws_proxy_go.Splitter.Stream.{IsSettled, split_bounded, relay_up-concat}
use tg_ws_proxy_go.Splitter.Packets.{relay_up-new_splitter}
use tg_ws_proxy_go.Splitter.Sound.{Framed, split-Framed}
use tg_ws_proxy_go.Splitter.{
  MsgSplitter, max_splitter_packet_bytes, proto_abridged_int, proto_intermediate_int,
  next_packet_len, split, relay_up, new_splitter, split_loop, flush,
}

-- Two abridged packets of one word each.
abbrev two_packets : List Bytes
two_packets = (1 ∷ 10 ∷ 11 ∷ 12 ∷ 13 ∷ []) ∷ (1 ∷ 20 ∷ 21 ∷ 22 ∷ 23 ∷ []) ∷ []

abbrev three_reads : List Bytes
three_reads = (1 ∷ 10 ∷ 11 ∷ []) ∷ (12 ∷ 13 ∷ 1 ∷ 20 ∷ []) ∷ (21 ∷ 22 ∷ 23 ∷ []) ∷ []

relay_up_runs : relay_up (new_splitter proto_abridged_int) three_reads ≡ two_packets
unfolding relay_up split split_loop next_packet_len flush
relay_up_runs = refl

-- One byte of a packet is buffered.
abbrev waiting : MsgSplitter
waiting = record (new_splitter proto_abridged_int) { plain_buf = 1 ∷ [] }

waiting-IsSettled : IsSettled waiting
unfolding next_packet_len
waiting-IsSettled = record { off = λ e. cc; on = λ e. refl }

split_bounded_example :
    IsSettled (split waiting (10 ∷ 11 ∷ [])).0
    × (length (split waiting (10 ∷ 11 ∷ [])).0.plain_buf < max_splitter_packet_bytes)
split_bounded_example = split_bounded waiting (10 ∷ 11 ∷ []) waiting-IsSettled

relay_up-concat_example :
    concat (relay_up (new_splitter proto_intermediate_int) three_reads) ≡ concat three_reads
relay_up-concat_example = relay_up-concat proto_intermediate_int three_reads

one_word : (a b c d : ℕ) → IsPacket proto_abridged_int (1 ∷ a ∷ b ∷ c ∷ d ∷ [])
one_word a b c d = inl (refl, inl (omega arith))

relay_up-new_splitter_example : relay_up (new_splitter proto_abridged_int) three_reads ≡ two_packets
relay_up-new_splitter_example =
    relay_up-new_splitter proto_abridged_int two_packets three_reads
      (one_word 10 11 12 13, (one_word 20 21 22 23, tt)) (omega arith) (omega arith) refl

split-Framed_example : Framed proto_abridged_int [] (split waiting (10 ∷ 11 ∷ 12 ∷ 13 ∷ 0 ∷ []))
split-Framed_example = split-Framed waiting (10 ∷ 11 ∷ 12 ∷ 13 ∷ 0 ∷ []) refl (omega arith)
