-- ===== src/Crypto/Stream.antt =====
-- cipher.Stream as src/crypto.go uses it: AES in counter mode. The key stream is a parameter, what
-- crypto/aes and crypto/cipher compute: the byte at each position, for a key and an initial vector.
use Prim.Native.Nat.{bit_xor}
use tg_ws_proxy_go.Base.{
  ℕ, zero, suc, ◌+◌, ◌≡◌, refl, sym, ap, ◌∙◌, List, [], ◌∷◌, ◌++◌, arith, Bytes, IsByte, length,
  All, xor_bytes, xor_bytes-xor_bytes, ◌||◌, ◌==◌, if◌then◌else◌, Option, none, some, concat,
  length-xor_bytes,
}

-- Key, initial vector, position: the byte of the key stream.
abbrev pub KeyStream : Type 0
KeyStream = Bytes → Bytes → ℕ → ℕ

pub record Stream : Type 0 where
  pub key : Bytes
  pub iv : Bytes
  pub position : ℕ

-- aes.NewCipher and cipher.NewCTR: an error if the key has none of the three sizes.
unfoldable pub new_ctr : Bytes → Bytes → Option Stream
new_ctr key iv =
    if length key == 16 || length key == 24 || length key == 32
    then some (record { key = key; iv = iv; position = 0 })
    else none

pub new_ctr_32 :
    (key iv : Bytes)
    → length key ≡ 32
    → new_ctr key iv ≡ some (record { key = key; iv = iv; position = 0 })
unfolding new_ctr
new_ctr_32 key iv h = ground arith

module _ (ctr : KeyStream) where
  -- `n` bytes of a stream from a position on.
  abbrev pub key_bytes : Bytes → Bytes → ℕ → ℕ → Bytes
  key_bytes key iv pos zero = []
  key_bytes key iv pos (suc n) = ctr key iv pos ∷ key_bytes key iv (suc pos) n

  -- XORKeyStream: the result, and the stream moved on.
  unfoldable pub xor_key_stream : Stream → Bytes → Stream × Bytes
  xor_key_stream s b = (
    record s { position = s.position + length b },
    xor_bytes b (key_bytes s.key s.iv s.position (length b)),
  )

  -- The results of a row of calls.
  unfoldable pub xor_all : Stream → List Bytes → List Bytes
  xor_all s [] = []
  xor_all s (b ∷ bs) = let (s', out) = xor_key_stream s b in out ∷ xor_all s' bs

  pub length-key_bytes : (key iv : Bytes) (pos n : ℕ) → length (key_bytes key iv pos n) ≡ n
  length-key_bytes key iv pos zero = refl
  length-key_bytes key iv pos (suc n) = ap suc (length-key_bytes key iv (suc pos) n)

  pub key_bytes-IsByte :
      ((key iv : Bytes) (pos : ℕ) → IsByte (ctr key iv pos))
      → (key iv : Bytes) (pos n : ℕ) → All IsByte (key_bytes key iv pos n)
  key_bytes-IsByte h key iv pos zero = tt
  key_bytes-IsByte h key iv pos (suc n) = (h key iv pos, key_bytes-IsByte h key iv (suc pos) n)

  pub xor_key_bytes-append :
      (key iv : Bytes) (xs ys : Bytes) (pos : ℕ)
      → xor_bytes (xs ++ ys) (key_bytes key iv pos (length (xs ++ ys)))
        ≡ xor_bytes xs (key_bytes key iv pos (length xs))
          ++ xor_bytes ys (key_bytes key iv (pos + length xs) (length ys))
  xor_key_bytes-append key iv [] ys pos =
      ap (λ p. xor_bytes ys (key_bytes key iv p (length ys))) (omega arith)
  xor_key_bytes-append key iv (x ∷ xs) ys pos =
      ap (λ t. bit_xor x (ctr key iv pos) ∷ t)
        (xor_key_bytes-append key iv xs ys (suc pos)
          ∙ ap
              (λ p.
                xor_bytes xs (key_bytes key iv (suc pos) (length xs))
                ++ xor_bytes ys (key_bytes key iv p (length ys)))
              (omega arith))

  -- A stream does not see where its input is cut.
  pub concat-xor_all :
      (s : Stream) (bs : List Bytes)
      → concat (xor_all s bs)
        ≡ xor_bytes (concat bs) (key_bytes s.key s.iv s.position (length (concat bs)))
  unfolding xor_all xor_key_stream
  concat-xor_all s [] = refl
  concat-xor_all s (b ∷ bs) =
      ap (λ t. xor_bytes b (key_bytes s.key s.iv s.position (length b)) ++ t)
        (concat-xor_all (record s { position = s.position + length b }) bs)
      ∙ sym (xor_key_bytes-append s.key s.iv b (concat bs) s.position)

  -- Two streams with the same key, initial vector and position undo one another.
  pub xor_key_bytes_undone :
      ((key iv : Bytes) (pos : ℕ) → IsByte (ctr key iv pos))
      → (key iv b : Bytes) (pos : ℕ) → All IsByte b
      → xor_bytes (xor_bytes b (key_bytes key iv pos (length b))) (key_bytes key iv pos (length b))
        ≡ b
  xor_key_bytes_undone h key iv b pos k =
      xor_bytes-xor_bytes b (key_bytes key iv pos (length b)) k
        (key_bytes-IsByte h key iv pos (length b))
        (omega (arith, length-key_bytes key iv pos (length b)))

  pub length-xor_key_bytes :
      (key iv b : Bytes) (pos : ℕ)
      → length (xor_bytes b (key_bytes key iv pos (length b))) ≡ length b
  length-xor_key_bytes key iv b pos = omega (
    arith,
    length-xor_bytes b (key_bytes key iv pos (length b)),
    length-key_bytes key iv pos (length b),
  )
