-- ===== src/Base/Words.antt =====
-- Bytes, and the fixed-width numbers that encoding/binary reads and writes.
use Prim.Native.Nat.{ℕ, ◌+◌, ◌*◌, ◌/◌, ◌%◌, ◌<◌}
use mathlib.Core.Path.{◌≡◌}
use mathlib.Core.List.{List, [], ◌∷◌}
use native.Mathlib.Omega.{arith}

-- A byte is a number below 256; where that matters it is a hypothesis.
abbrev pub Bytes : Type 0
Bytes = List ℕ

abbrev pub IsByte : ℕ → Type 0
IsByte b = b < 256

-- binary.BigEndian.Uint16 of two bytes.
abbrev pub be16 : ℕ → ℕ → ℕ
be16 b0 b1 = 256 * b0 + b1

-- binary.BigEndian.PutUint16 of uint16(n).
abbrev pub put_be16 : ℕ → Bytes
put_be16 n = (n % 65536 / 256) ∷ (n % 256) ∷ []

pub be16-put_be16 : (n : ℕ) → n < 65536 → be16 (n % 65536 / 256) (n % 256) ≡ n
be16-put_be16 n h = omega arith

-- b0 | b1 << 8 | b2 << 16 of three bytes: the bits do not overlap, so it is a sum.
abbrev pub le24 : ℕ → ℕ → ℕ → ℕ
le24 b0 b1 b2 = b0 + 256 * b1 + 65536 * b2

-- binary.LittleEndian.Uint32, and PutUint32 of a number below 2 ^ 32.
abbrev pub le32 : ℕ → ℕ → ℕ → ℕ → ℕ
le32 b0 b1 b2 b3 = b0 + 256 * b1 + 65536 * b2 + 16777216 * b3

abbrev pub put_le32 : ℕ → Bytes
put_le32 n = (n % 256) ∷ (n / 256 % 256) ∷ (n / 65536 % 256) ∷ (n / 16777216 % 256) ∷ []

-- binary.LittleEndian.Uint16 and PutUint16.
abbrev pub le16 : ℕ → ℕ → ℕ
le16 b0 b1 = b0 + 256 * b1

abbrev pub put_le16 : ℕ → Bytes
put_le16 n = (n % 256) ∷ (n / 256 % 256) ∷ []
