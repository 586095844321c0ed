-- ===== src/Splitter/Steps.antt =====
-- The rounds of the splitter's loop, one lemma for each way a round can go.
use tg_ws_proxy_go.Base.{
  ℕ, zero, suc, ◌+◌, ◌≤◌, ◌<◌, ◌≡◌, ◌⊎◌, inl, inr, refl, List, [], ◌∷◌, ◌++◌, ℤ, pos, negsuc, true,
  false, arith, Bytes, length, take, drop, lt→ltb, Bool-cases, dec_le, concat, append-nil,
}
use tg_ws_proxy_go.Splitter.{
  MsgSplitter, max_splitter_packet_bytes, next_packet_len, split_loop, split, flush, pending_parts,
}

pub ℤ-cases : (z : ℤ) → ((k : ℕ) × (z ≡ negsuc k)) ⊎ ((z ≡ pos 0) ⊎ ((n : ℕ) × (z ≡ pos (suc n))))
ℤ-cases (negsuc k) = inl (k, refl)
ℤ-cases (pos zero) = inr (inl refl)
ℤ-cases (pos (suc n)) = inr (inr (n, refl))

pub next_packet_len_neg :
    (proto : ℕ) (buf : Bytes) (k : ℕ) → next_packet_len proto buf ≡ negsuc k → k ≡ 0
unfolding next_packet_len
next_packet_len_neg proto buf k e = ground arith

-- A buffer that asks for more is shorter than the largest packet.
pub next_packet_len_waits :
    (proto : ℕ) (buf : Bytes) (k : ℕ)
    → next_packet_len proto buf ≡ negsuc k
    → length buf < max_splitter_packet_bytes
unfolding next_packet_len
next_packet_len_waits proto buf k e = ground arith

pub next_packet_len_pos :
    (proto : ℕ) (buf : Bytes) (n : ℕ) → next_packet_len proto buf ≡ pos n → 1 ≤ length buf
unfolding next_packet_len
next_packet_len_pos proto [] n e = ground arith
next_packet_len_pos proto (x ∷ buf) n e = omega arith

module _ (m : MsgSplitter) (parts : List Bytes) where
  pub split_loop_wait :
      (fuel k : ℕ)
      → next_packet_len m.proto m.plain_buf ≡ negsuc k
      → split_loop fuel m parts ≡ (m, parts)
  unfolding split_loop
  split_loop_wait zero k e = refl
  split_loop_wait (suc fuel) k e = ground arith

  pub split_loop_opaque :
      (fuel : ℕ)
      → next_packet_len m.proto m.plain_buf ≡ pos 0
      → split_loop (suc fuel) m parts
        ≡ (record m { plain_buf = []; disabled = true }, parts ++ m.plain_buf ∷ [])
  unfolding split_loop
  split_loop_opaque fuel e = ground (arith, next_packet_len_pos m.proto m.plain_buf 0)

  pub split_loop_packet :
      (fuel n : ℕ)
      → next_packet_len m.proto m.plain_buf ≡ pos (suc n)
      → split_loop (suc fuel) m parts
        ≡ split_loop fuel
            (record m { plain_buf = drop (suc n) m.plain_buf })
            (parts ++ take (suc n) m.plain_buf ∷ [])
  unfolding split_loop
  split_loop_packet fuel n e = ground (arith, next_packet_len_pos m.proto m.plain_buf (suc n))

module _ (m : MsgSplitter) (chunk : Bytes) (full : 1 ≤ length chunk) where
  pub split_disabled : m.disabled ≡ true → split m chunk ≡ (m, chunk ∷ [])
  unfolding split
  split_disabled d = ground arith

  pub split_over :
      m.disabled ≡ false
      → max_splitter_packet_bytes < length m.plain_buf + length chunk
      → split m chunk
        ≡ (record m { plain_buf = []; disabled = true }, pending_parts m.plain_buf ++ chunk ∷ [])
  unfolding split
  split_over d h = ground arith

  pub split_fits :
      m.disabled ≡ false
      → length m.plain_buf + length chunk ≤ max_splitter_packet_bytes
      → split m chunk
        ≡ split_loop
            (length (m.plain_buf ++ chunk))
            (record m { plain_buf = m.plain_buf ++ chunk })
            []
  unfolding split
  split_fits d h = ground arith

-- The ways a call of split with a chunk that is not empty can go.
pub split_cases {ℓ} :
    (P : MsgSplitter × List Bytes → Type ℓ) (m : MsgSplitter) (c : ℕ) (cs : Bytes)
    → (m.disabled ≡ true → P (m, (c ∷ cs) ∷ []))
    → (m.disabled ≡ false
        → P (
          record m { plain_buf = []; disabled = true },
          pending_parts m.plain_buf ++ (c ∷ cs) ∷ [],
        ))
    → (m.disabled ≡ false
        → length m.plain_buf + length (c ∷ cs) ≤ max_splitter_packet_bytes
        → P (
            split_loop
              (length (m.plain_buf ++ c ∷ cs))
              (record m { plain_buf = m.plain_buf ++ c ∷ cs })
              []))
    → P (split m (c ∷ cs))
split_cases P m c cs off over fits = elim (Bool-cases m.disabled) [
  | inl d ↦ rw (split_disabled m (c ∷ cs) (omega arith) d) (off d)
  | inr d ↦ elim (dec_le (length m.plain_buf + length (c ∷ cs)) max_splitter_packet_bytes) [
    | yes h ↦ rw (split_fits m (c ∷ cs) (omega arith) d h) (fits d h)
    | no h ↦ rw (split_over m (c ∷ cs) (omega arith) d (omega arith)) (over d)
  ]
]

pub flush-pending_parts : (m : MsgSplitter) → (flush m).1 ≡ pending_parts m.plain_buf
unfolding flush pending_parts
flush-pending_parts m = ground arith

pub concat-pending_parts : (buf : Bytes) → concat (pending_parts buf) ≡ buf
unfolding pending_parts
concat-pending_parts [] = refl
concat-pending_parts (b ∷ buf) =
    rw (lt→ltb 0 (length (b ∷ buf)) (omega arith)) (append-nil (b ∷ buf))
