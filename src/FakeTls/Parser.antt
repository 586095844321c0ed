-- ===== src/FakeTls/Parser.antt =====
-- Indexing and slicing of Go byte slices, for code that parses by them: an index or a bound out of
-- range is a panic, and a parser may also reject its input.
use tg_ws_proxy_go.Base.{
  ℕ, ◌+◌, ◌≤◌, ◌<◌, ◌≡◌, refl, [], ◌∷◌, Bool, true, false, Option, none, some, arith, Bytes, be16,
  leb, if◌then◌else◌, length, get_elem?, take, drop, zero, suc,
}

-- `fault` is a panic, `malformed` the early return of a parser.
pub data Parse {ℓ} (A : Type ℓ) : Type ℓ where
  fault : Parse A
  malformed : Parse A
  parsed : A → Parse A

infixl 5 ◌>>=◌ ◌>>◌
abbrev pub ◌>>=◌ {ℓ κ} : {A : Type ℓ} {B : Type κ} → Parse A → (A → Parse B) → Parse B
fault >>= f = fault
malformed >>= f = malformed
parsed a >>= f = f a

abbrev pub ◌>>◌ {ℓ} : {B : Type ℓ} → Parse (Unit {0}) → Parse B → Parse B
m >> k = m >>= λ _. k

-- `if bad { return empty }`.
abbrev pub reject_if : Bool → Parse (Unit {0})
reject_if true = malformed
reject_if false = parsed tt

abbrev or_fault {ℓ} : {A : Type ℓ} → Option A → Parse A
or_fault none = fault
or_fault (some a) = parsed a

-- data[i]
unfoldable pub index : Bytes → ℕ → Parse ℕ
index b i = or_fault (get_elem? b i)

-- binary.BigEndian.Uint16(data[i : i+2])
unfoldable pub u16 : Bytes → ℕ → Parse ℕ
u16 b i = do hi ← index b i; lo ← index b (i + 1); parsed (be16 hi lo)

-- data[n:]
unfoldable pub slice_from : Bytes → ℕ → Parse Bytes
slice_from b n = if leb n (length b) then parsed (drop n b) else fault

-- data[:n]
unfoldable pub slice_to : Bytes → ℕ → Parse Bytes
slice_to b n = if leb n (length b) then parsed (take n b) else fault

get_elem?-some : (b : Bytes) (i : ℕ) → i < length b → (x : ℕ) × (get_elem? b i ≡ some x)
get_elem?-some [] i h = absurd (omega arith)
get_elem?-some (x ∷ b) zero h = (x, refl)
get_elem?-some (x ∷ b) (suc i) h = get_elem?-some b i (omega arith)

pub index_total : (b : Bytes) (i : ℕ) → i < length b → (x : ℕ) × (index b i ≡ parsed x)
unfolding index
index_total b i h = let (x, e) = get_elem?-some b i h in (x, rw e)

pub u16_total : (b : Bytes) (i : ℕ) → i + 1 < length b → (x : ℕ) × (u16 b i ≡ parsed x)
unfolding u16
u16_total b i h =
    let (x, e) = index_total b i (omega arith) in
    let (y, f) = index_total b (i + 1) h in (be16 x y, rw (e, ◌>>=◌, f))

pub slice_from_total : (b : Bytes) (n : ℕ) → n ≤ length b → slice_from b n ≡ parsed (drop n b)
unfolding slice_from
slice_from_total b n h = ground arith

pub slice_to_total : (b : Bytes) (n : ℕ) → n ≤ length b → slice_to b n ≡ parsed (take n b)
unfolding slice_to
slice_to_total b n h = ground arith
