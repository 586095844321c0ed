-- ===== src/Crypto/RelayInit.antt =====
-- src/crypto.go, generateRelayInit: the proxy's own first packet. crypto/rand is a list of draws.
use tg_ws_proxy_go.Base.{
  ==_iff, ℕ, ◌≤◌, ◌≡◌, refl, sym, ap, ap₂, ◌∙◌, List, [], ◌∷◌, ◌++◌, Bool, true, false, not, ◌||◌,
  ◌&&◌, Option, none, some, arith, Bytes, IsByte, put_le16, ◌==◌, if◌then◌else◌, length, take, drop,
  get_or, All, All-drop, bytes_equal, bytes_equal_refl, replicate, xor_bytes, xor_bytes_back,
  take_at, drop_at, take-append-drop, drop_append_le, take_append_le, length-append, length-take,
  length-drop, Bool-cases, Option-cases, subst, inl, inr,
}
use tg_ws_proxy_go.Crypto.Stream.{
  KeyStream, key_bytes, key_bytes-IsByte, length-key_bytes, xor_key_bytes-append,
  xor_key_bytes_undone, length-xor_key_bytes,
}
use tg_ws_proxy_go.Crypto.Dc.{proto_tag_intermediate, proto_tag_secure}

-- HEAD, POST, "GET ", OPTI, the two tags, and the start of a TLS record.
abbrev reserved_start : List Bytes
reserved_start =
    (0x48 ∷ 0x45 ∷ 0x41 ∷ 0x44 ∷ [])
    ∷ (0x50 ∷ 0x4f ∷ 0x53 ∷ 0x54 ∷ [])
    ∷ (0x47 ∷ 0x45 ∷ 0x54 ∷ 0x20 ∷ [])
    ∷ (0x4f ∷ 0x50 ∷ 0x54 ∷ 0x49 ∷ [])
    ∷ proto_tag_intermediate
    ∷ proto_tag_secure
    ∷ (0x16 ∷ 0x03 ∷ 0x01 ∷ 0x02 ∷ [])
    ∷ []

is_one_of : List Bytes → Bytes → Bool
is_one_of [] b = false
is_one_of (r ∷ rs) b = bytes_equal b r || is_one_of rs b

-- The draws that the loop takes.
unfoldable pub is_usable : Bytes → Bool
unfolding is_one_of
is_usable rnd =
    not (get_or rnd 0 0 == 0xef)
    && not (is_one_of reserved_start (take 4 rnd))
    && not (bytes_equal (take 4 (drop 4 rnd)) (0 ∷ 0 ∷ 0 ∷ 0 ∷ []))

-- The loop: the first draw that is usable; `none` if the list ends before.
unfoldable pub draw_usable : List Bytes → Option Bytes
draw_usable [] = none
draw_usable (rnd ∷ draws) = if is_usable rnd then some rnd else draw_usable draws

abbrev pub relay_key : Bytes → Bytes
relay_key rnd = take 32 (drop 8 rnd)

abbrev pub relay_iv : Bytes → Bytes
relay_iv rnd = take 16 (drop 40 rnd)

-- tailPlain, whose last two bytes are random.
abbrev pub tail_plain : Bytes → ℕ → Bytes → Bytes
tail_plain proto_tag dc_idx salt = take 4 proto_tag ++ (put_le16 dc_idx ++ salt)

module _ (ctr : KeyStream) where
  -- The packet made of a draw: its last eight bytes are the tail under the key stream, which is what
  -- the encrypted draw and the draw leave together.
  unfoldable pub relay_packet : Bytes → Bytes → Bytes
  relay_packet rnd tail =
      let encrypted = xor_bytes rnd (key_bytes ctr (relay_key rnd) (relay_iv rnd) 0 (length rnd)) in
      take 56 rnd ++ xor_bytes tail (xor_bytes (drop 56 encrypted) (drop 56 rnd))

  unfoldable pub generate_relay_init : List Bytes → Bytes → Bytes → ℕ → Option Bytes
  generate_relay_init draws salt proto_tag dc_idx = elim (draw_usable draws) [
    | none ↦ none
    | some rnd ↦ some (relay_packet rnd (tail_plain proto_tag dc_idx salt))
  ]

draw_usable_lem :
    (draws : List Bytes) {rnd : Bytes}
    → All (λ d. (length d ≡ 64) × All IsByte d) draws
    → draw_usable draws ≡ some rnd
    → (length rnd ≡ 64) × All IsByte rnd × (is_usable rnd ≡ true)
unfolding draw_usable
draw_usable_lem [] h e = cc
draw_usable_lem (d ∷ draws) {rnd} h e = elim (Bool-cases (is_usable d)) [
  | inl u ↦
      let same : d ≡ rnd = ground arith in
      subst (λ r. (length r ≡ 64) × All IsByte r × (is_usable r ≡ true)) same (h.0.0, h.0.1, u)
  | inr u ↦ draw_usable_lem draws h.1 (ground arith)
]

get_or-append : (xs ys : Bytes) → 1 ≤ length xs → get_or (xs ++ ys) 0 0 ≡ get_or xs 0 0
get_or-append [] ys h = absurd (omega arith)
get_or-append (x ∷ xs) ys h = refl

module _ (front rest : Bytes) (long : length front ≡ 56) where
  is_usable_front : is_usable (front ++ rest) ≡ is_usable front
  unfolding is_usable
  is_usable_front = rw (
    get_or-append front rest (omega arith),
    take_append_le 4 front rest (omega arith),
    drop_append_le 4 front rest (omega arith),
    take_append_le 4 (drop 4 front) rest (omega (arith, length-drop 4 front)),
  )

  relay_key_front : relay_key (front ++ rest) ≡ relay_key front
  relay_key_front =
      ap (take 32) (drop_append_le 8 front rest (omega arith))
      ∙ take_append_le 32 (drop 8 front) rest (omega (arith, length-drop 8 front))

  relay_iv_front : relay_iv (front ++ rest) ≡ relay_iv front
  relay_iv_front =
      ap (take 16) (drop_append_le 40 front rest (omega arith))
      ∙ take_append_le 16 (drop 40 front) rest (omega (arith, length-drop 40 front))

-- The starts by which Telegram takes a connection for another protocol: HTTP, TLS, and the transports
-- that are not obfuscated.
abbrev pub other_protocols : List Bytes
other_protocols =
    (b'H' ∷ b'E' ∷ b'A' ∷ b'D' ∷ [])
    ∷ (b'P' ∷ b'O' ∷ b'S' ∷ b'T' ∷ [])
    ∷ (b'G' ∷ b'E' ∷ b'T' ∷ b' ' ∷ [])
    ∷ (b'O' ∷ b'P' ∷ b'T' ∷ b'I' ∷ [])
    ∷ replicate 4 238
    ∷ replicate 4 221
    ∷ (22 ∷ 3 ∷ 1 ∷ 2 ∷ [])
    ∷ []

-- A first packet that Telegram takes for none of them: it does not begin with the byte 239 or with four
-- bytes of another protocol, and its second four bytes are not all zero.
abbrev pub IsFresh : Bytes → Type 0
IsFresh packet =
    ((get_or packet 0 0 ≡ 239) → ⊥)
    × All (λ start. (take 4 packet ≡ start) → ⊥) other_protocols
    × ((take 4 (drop 4 packet) ≡ replicate 4 0) → ⊥)

not_one_of : (b : Bytes) (rs : List Bytes) → is_one_of rs b ≡ false → All (λ r. (b ≡ r) → ⊥) rs
unfolding is_one_of
not_one_of b [] h = tt
not_one_of b (r ∷ rs) h = (
  λ e. absurd (ground (arith, h, ap (λ t. bytes_equal t r) e, bytes_equal_refl r)),
  not_one_of b rs (ground (arith, h)),
)

all_refused :
    (a b c : Bool) → (not a && not b && not c) ≡ true → (a ≡ false) × (b ≡ false) × (c ≡ false)
all_refused a b c h = (ground (arith, h), ground (arith, h), ground (arith, h))

is_usable-IsFresh : (packet : Bytes) → is_usable packet ≡ true → IsFresh packet
unfolding is_usable
is_usable-IsFresh packet h =
    let zeros : Bytes = 0 ∷ 0 ∷ 0 ∷ 0 ∷ [] in
    let (a, b, c) =
      all_refused (get_or packet 0 0 == 0xef) (is_one_of reserved_start (take 4 packet))
        (bytes_equal (take 4 (drop 4 packet)) zeros) h in
    (
      λ e. true_false (sym ((==_iff (get_or packet 0 0) 239).1 e) ∙ a),
      not_one_of (take 4 packet) reserved_start b,
      λ e. true_false (sym (ap (λ t. bytes_equal t zeros) e ∙ bytes_equal_refl zeros) ∙ c),
    )
  where
    true_false : true ≡ false → ⊥
    true_false h = absurd (ground (arith, h))

-- The packet that a server reads: 64 bytes that start like nothing reserved, whose tail, under the
-- key and initial vector that the packet itself holds, is the given one.
pub record IsRelayInit (ctr : KeyStream) (tail packet : Bytes) : Type 0 where
  pub length_is : length packet ≡ 64
  pub fresh : IsFresh packet
  pub opens :
      drop 56
        (xor_bytes packet (key_bytes ctr (relay_key packet) (relay_iv packet) 0 (length packet)))
      ≡ tail

module _ (ctr : KeyStream) (ctr_byte : (key iv : Bytes) (pos : ℕ) → IsByte (ctr key iv pos)) where
  -- The tail of the packet, of a draw in two parts: the key stream at its place.
  relay_packet-sealed :
      (front back tail : Bytes)
      → length front ≡ 56
      → All IsByte back
      → relay_packet ctr (front ++ back) tail
        ≡ front
          ++ xor_bytes tail (key_bytes ctr (relay_key front) (relay_iv front) 56 (length back))
  relay_packet-sealed front back tail l b =
      let key = relay_key front in
      let iv = relay_iv front in
      let ks = key_bytes ctr key iv 56 (length back) in
      let encrypted : drop 56
            (xor_bytes (front ++ back) (key_bytes ctr key iv 0 (length (front ++ back))))
          ≡ xor_bytes back ks =
        ap (drop 56) (xor_key_bytes-append ctr key iv front back 0)
        ∙ drop_at 56 (xor_bytes front (key_bytes ctr key iv 0 (length front))) _
            (length-xor_key_bytes ctr key iv front 0 ∙ l)
        ∙ ap (λ p. xor_bytes back (key_bytes ctr key iv p (length back))) (omega arith) in
      let key_stream : xor_bytes (xor_bytes back ks) back ≡ ks =
        xor_bytes_back back ks b (key_bytes-IsByte ctr ctr_byte key iv 56 (length back))
          (sym (length-key_bytes ctr key iv 56 (length back))) in
      unfold relay_packet in
      rw (
        relay_key_front front back l,
        relay_iv_front front back l,
        encrypted,
        take_at 56 front back l,
        drop_at 56 front back l,
        key_stream,
      )

  relay_packet-IsRelayInit :
      (front back tail : Bytes)
      → length front ≡ 56
      → length back ≡ 8
      → length tail ≡ 8
      → All IsByte back
      → All IsByte tail
      → is_usable (front ++ back) ≡ true
      → IsRelayInit ctr tail (relay_packet ctr (front ++ back) tail)
  relay_packet-IsRelayInit front back tail l k t b bt u =
      let key = relay_key front in
      let iv = relay_iv front in
      let sealed = xor_bytes tail (key_bytes ctr key iv 56 (length tail)) in
      let sealed_length : length sealed ≡ length tail = length-xor_key_bytes ctr key iv tail 56 in
      let is_sealed : relay_packet ctr (front ++ back) tail ≡ front ++ sealed =
        relay_packet-sealed front back tail l b
        ∙ ap (λ n. front ++ xor_bytes tail (key_bytes ctr key iv 56 n)) (k ∙ sym t) in
      subst (IsRelayInit ctr tail) (sym is_sealed) (record {
        length_is = omega (arith, length-append front sealed);
        fresh =
            is_usable-IsFresh (front ++ sealed)
              (is_usable_front front sealed l ∙ sym (is_usable_front front back l) ∙ u);
        opens =
            ap₂
              (λ x y.
                drop 56
                  (xor_bytes (front ++ sealed) (key_bytes ctr x y 0 (length (front ++ sealed)))))
              (relay_key_front front sealed l) (relay_iv_front front sealed l)
            ∙ ap (drop 56) (xor_key_bytes-append ctr key iv front sealed 0)
            ∙ drop_at 56 (xor_bytes front (key_bytes ctr key iv 0 (length front))) _
                (length-xor_key_bytes ctr key iv front 0 ∙ l)
            ∙ ap₂ (λ p n. xor_bytes sealed (key_bytes ctr key iv p n)) (omega arith) sealed_length
            ∙ xor_key_bytes_undone ctr ctr_byte key iv tail 56 bt;
      })

  -- Where the key stream is of bytes, each draw is of 64 bytes, and the tag, the data centre
  -- and the salt are of bytes: if the loop ends with a draw, the packet has 64 bytes, it starts
  -- with none of the nine patterns of other protocols, and its tail opens to the protocol tag, the data centre and the two random
  -- bytes.
  pub generate_relay_init-IsRelayInit :
      (draws : List Bytes) (salt proto_tag packet : Bytes) (dc_idx : ℕ)
      → All (λ d. (length d ≡ 64) × All IsByte d) draws
      → length salt ≡ 2
      → length proto_tag ≡ 4
      → All IsByte (tail_plain proto_tag dc_idx salt)
      → generate_relay_init ctr draws salt proto_tag dc_idx ≡ some packet
      → IsRelayInit ctr (tail_plain proto_tag dc_idx salt) packet
  generate_relay_init-IsRelayInit draws salt proto_tag packet dc_idx h s t b e =
      elim (Option-cases (draw_usable draws)) [
        | inl none_left ↦ absurd (unfold generate_relay_init in ground arith)
        | inr (rnd, drawn) ↦
            let d = draw_usable_lem draws h drawn in
            let is_packet : packet ≡ relay_packet ctr rnd (tail_plain proto_tag dc_idx salt) =
              unfold generate_relay_init in ground arith in
            let parts = take-append-drop 56 rnd in
            let made =
              relay_packet-IsRelayInit (take 56 rnd) (drop 56 rnd)
                (tail_plain proto_tag dc_idx salt) (omega (arith, length-take 56 rnd))
                (omega (arith, length-drop 56 rnd)) (tail_length) (All-drop IsByte 56 rnd d.1) b
                (rw parts d.2) in
            rw is_packet (rw parts at made)
      ]
    where
      tail_length : length (tail_plain proto_tag dc_idx salt) ≡ 8
      tail_length = omega (
        arith,
        length-append (take 4 proto_tag) (put_le16 dc_idx ++ salt),
        length-take 4 proto_tag,
      )
