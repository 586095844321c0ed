-- ===== src/Base/Xor.antt =====
-- Exclusive or on bytes, and byte by byte on two lists, as a stream cipher combines them.
use Prim.Native.Nat.{bit_xor}
use tg_ws_proxy_go.Base.Tests.{ltb, ◌==◌}
use tg_ws_proxy_go.Base.Lists.{length, All}
use tg_ws_proxy_go.Base.Words.{Bytes, IsByte}
use Prim.Native.Nat.{ℕ, zero, suc, ◌<◌, ◌≤◌, min}
use mathlib.Core.Path.{◌≡◌, refl, ap₂}
use mathlib.Core.Bool.{Bool, true, false, ◌&&◌, ◌||◌, not}
use mathlib.Core.List.{[], ◌∷◌}
use native.Mathlib.Omega.{arith}

-- Some number below the bound fails the test.
finds_failure : (ℕ → Bool) → ℕ → Bool
finds_failure test zero = false
finds_failure test (suc bound) = finds_failure test bound || not (test bound)

no_failure :
    (test : ℕ → Bool) (bound b : ℕ) → finds_failure test bound ≡ false → b < bound → test b ≡ true
unfolding finds_failure
no_failure test zero b none below = absurd (omega (arith, below))
no_failure test (suc bound) b none below = ground (arith, no_failure test bound b, none, below)

-- What holds of two bytes: the key undoes itself, and the result is a byte.
abbrev xor_check : ℕ → ℕ → Bool
xor_check a b =
    bit_xor (bit_xor a b) b == a && ltb (bit_xor a b) 256 && bit_xor (bit_xor a b) a == b

passes_with : ℕ → Bool
unfolding finds_failure
passes_with a = not (finds_failure (xor_check a) 256)

no_byte_fails : finds_failure passes_with 256 ≡ false
unfolding finds_failure passes_with
no_byte_fails = refl

not-true : (b : Bool) → not b ≡ true → b ≡ false
not-true true h = cc
not-true false h = refl

xor_checked : (a b : ℕ) → IsByte a → IsByte b → xor_check a b ≡ true
unfolding passes_with
xor_checked a b h k =
    let row : passes_with a ≡ true = no_failure passes_with 256 a no_byte_fails h in
    no_failure (xor_check a) 256 b (not-true (finds_failure (xor_check a) 256) row) k

pub bit_xor-bit_xor : (a b : ℕ) → IsByte a → IsByte b → bit_xor (bit_xor a b) b ≡ a
bit_xor-bit_xor a b h k = ground (arith, xor_checked a b h k)

pub bit_xor-IsByte : (a b : ℕ) → IsByte a → IsByte b → IsByte (bit_xor a b)
bit_xor-IsByte a b h k = ground (arith, xor_checked a b h k)

bit_xor_back : (a b : ℕ) → IsByte a → IsByte b → bit_xor (bit_xor a b) a ≡ b
bit_xor_back a b h k = ground (arith, xor_checked a b h k)

-- The first list, each byte combined with the byte of the second at its place; what the second has
-- no byte for stays out.
abbrev pub xor_bytes : Bytes → Bytes → Bytes
xor_bytes [] ks = []
xor_bytes (a ∷ as') [] = []
xor_bytes (a ∷ as') (k ∷ ks) = bit_xor a k ∷ xor_bytes as' ks

-- bytes.Equal, and hmac.Equal but for its timing.
abbrev pub bytes_equal : Bytes → Bytes → Bool
bytes_equal [] [] = true
bytes_equal (x ∷ xs) (y ∷ ys) = x == y && bytes_equal xs ys
bytes_equal _ _ = false

pub xor_bytes-xor_bytes :
    (xs ks : Bytes)
    → All IsByte xs
    → All IsByte ks
    → length xs ≤ length ks
    → xor_bytes (xor_bytes xs ks) ks ≡ xs
xor_bytes-xor_bytes [] ks h k l = refl
xor_bytes-xor_bytes (x ∷ xs) [] h k l = absurd (omega arith)
xor_bytes-xor_bytes (x ∷ xs) (b ∷ ks) h k l =
    ap₂ ◌∷◌ (bit_xor-bit_xor x b h.0 k.0) (xor_bytes-xor_bytes xs ks h.1 k.1 (omega arith))

pub xor_bytes-IsByte :
    (xs ks : Bytes) → All IsByte xs → All IsByte ks → All IsByte (xor_bytes xs ks)
xor_bytes-IsByte [] ks h k = tt
xor_bytes-IsByte (x ∷ xs) [] h k = tt
xor_bytes-IsByte (x ∷ xs) (b ∷ ks) h k =
    (bit_xor-IsByte x b h.0 k.0, xor_bytes-IsByte xs ks h.1 k.1)

pub length-xor_bytes : (xs ks : Bytes) → length (xor_bytes xs ks) ≡ min (length xs) (length ks)
length-xor_bytes [] ks = omega arith
length-xor_bytes (x ∷ xs) [] = omega arith
length-xor_bytes (x ∷ xs) (b ∷ ks) = omega (arith, length-xor_bytes xs ks)

pub bytes_equal_refl : (xs : Bytes) → bytes_equal xs xs ≡ true
bytes_equal_refl [] = refl
bytes_equal_refl (x ∷ xs) = ground (arith, bytes_equal_refl xs)

pub bytes_equal→eq : (xs ys : Bytes) → bytes_equal xs ys ≡ true → xs ≡ ys
bytes_equal→eq [] [] h = refl
bytes_equal→eq [] (y ∷ ys) h = cc
bytes_equal→eq (x ∷ xs) [] h = cc
bytes_equal→eq (x ∷ xs) (y ∷ ys) h = ground (arith, bytes_equal→eq xs ys)

-- A key stream is what is left of its output when the input is taken out.
pub xor_bytes_back :
    (xs ks : Bytes)
    → All IsByte xs
    → All IsByte ks
    → length xs ≡ length ks
    → xor_bytes (xor_bytes xs ks) xs ≡ ks
xor_bytes_back [] [] h k l = refl
xor_bytes_back [] (b ∷ ks) h k l = absurd (omega arith)
xor_bytes_back (x ∷ xs) [] h k l = absurd (omega arith)
xor_bytes_back (x ∷ xs) (b ∷ ks) h k l =
    ap₂ ◌∷◌ (bit_xor_back x b h.0 k.0) (xor_bytes_back xs ks h.1 k.1 (omega arith))
