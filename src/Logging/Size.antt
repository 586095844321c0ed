-- ===== src/Logging/Size.antt =====
-- The size of the file that Write of src/logging.go adds to.
use tg_ws_proxy_go.Base.{
  ℕ, suc, ◌+◌, ◌*◌, ◌%◌, ◌≤◌, ◌≡◌, refl, sym, subst, ap, ◌∙◌, inl, inr, Bool-cases, Option, some,
  none, Bytes, List, [], ◌∷◌, length, length-append, ◌==◌, leb, Bool, true, false, ◌&&◌, arith,
}
use native.Mathlib.Nat.{mul-le-mul_right}
use tg_ws_proxy_go.Logging.{
  Files, append_to, size_of, RotatingWriter, new_rotating_writer, rotate, rotate_if_full,
  append_log, write, write_all,
}
use tg_ws_proxy_go.Logging.Rotation.{rotate-rotated}

-- Each line has l bytes at most.
abbrev pub AreWithin : ℕ → List Bytes → Type 0
AreWithin l [] = Unit
AreWithin l (p ∷ lines) = (length p ≤ l) × AreWithin l lines

abbrev pub IsBounded : ℕ → RotatingWriter → Type 0
IsBounded l w = w.is_open ≡ true → size_of (w.files 0) ≤ w.max_bytes + (w.check_tick % 32 + 1) * l

size_of-append_to : (o : Option Bytes) (p : Bytes) → size_of (append_to o p) ≤ size_of o + length p
size_of-append_to none p = omega arith
size_of-append_to (some text) p = ground (arith, length-append text p)

-- Between two checks a line is added.
room-suc :
    (m t l size more : ℕ)
    → (suc t % 32 == 0) ≡ false
    → size ≤ m + (t % 32 + 1) * l
    → more ≤ l
    → size + more ≤ m + (suc t % 32 + 1) * l
room-suc m t l size more e h g =
    subst (λ k. size + more ≤ m + (k + 1) * l) (sym (next t e)) (grind arith)
  where
    next : (t : ℕ) → (suc t % 32 == 0) ≡ false → suc t % 32 ≡ t % 32 + 1
    next t e = ground (arith, e)

room-zero : (m k l size : ℕ) → size ≤ m + l → size ≤ m + (k + 1) * l
room-zero m k l size h = grind arith

rotate-size :
    (opens : Bool) (w : RotatingWriter)
    → (rotate opens w).0.is_open ≡ true
    → size_of ((rotate opens w).0.files 0) ≡ 0
rotate-size true w h = ap size_of ((rotate-rotated true w).0 0)
rotate-size false w h = ap size_of ((rotate-rotated false w).0 0)

rotate-kept :
    (opens : Bool) (w : RotatingWriter)
    → ((rotate opens w).0.max_bytes ≡ w.max_bytes) × ((rotate opens w).0.check_tick ≡ w.check_tick)
unfolding rotate
rotate-kept true w = (refl, refl)
rotate-kept false w = (refl, refl)

-- Whether Write rotates, by its three conditions.
abbrev is_due : RotatingWriter → Bool
is_due w = w.check_tick % 32 == 0 && w.is_open && leb w.max_bytes (size_of (w.files 0))

rotate_if_full-kept :
    (opens : Bool) (w : RotatingWriter)
    → ((rotate_if_full opens w).max_bytes ≡ w.max_bytes)
      × ((rotate_if_full opens w).check_tick ≡ w.check_tick)
rotate_if_full-kept opens w = elim (Bool-cases (is_due w)) [
  | inl e ↦ rw (rotate_if_full, e) (rotate-kept opens w)
  | inr e ↦ rw (rotate_if_full, e) (refl, refl)
]

-- Behind the check there is room for a line.
rotate_if_full-room :
    (opens : Bool) (w : RotatingWriter) (t l n : ℕ)
    → n ≤ l
    → w.check_tick ≡ suc t
    → (w.is_open ≡ true → size_of (w.files 0) ≤ w.max_bytes + (t % 32 + 1) * l)
    → (rotate_if_full opens w).is_open ≡ true
    → size_of ((rotate_if_full opens w).files 0) + n ≤ w.max_bytes + (suc t % 32 + 1) * l
rotate_if_full-room opens w t l n g c b = elim (Bool-cases (is_due w)) [
  | inl e ↦
      rw (rotate_if_full, e)
        (λ h.
          rw (rotate-size opens w h) (room-zero w.max_bytes (suc t % 32) l (0 + n) (omega arith)))
  | inr e ↦
      rw (rotate_if_full, e)
        (λ h. elim (Bool-cases (suc t % 32 == 0)) [
          | inl f ↦
              room-zero w.max_bytes (suc t % 32) l (size_of (w.files 0) + n)
                (ground (arith, e, f, h, c, g))
          | inr f ↦ room-suc w.max_bytes t l (size_of (w.files 0)) n f (b h) g
        ])
]

append_log-size :
    (p : Bytes) (w : RotatingWriter) (bound : ℕ)
    → (w.is_open ≡ true → size_of (w.files 0) + length p ≤ bound)
    → (append_log p w).0.is_open ≡ true
    → size_of ((append_log p w).0.files 0) ≤ bound
append_log-size p w bound b = elim (Bool-cases w.is_open) [
  | inl e ↦ rw (append_log, e) (λ h. omega (arith, b e, size_of-append_to (w.files 0) p))
  | inr e ↦ rw (append_log, e) (λ h. absurd (ground (arith, e, h)))
]

append_log-kept :
    (p : Bytes) (w : RotatingWriter)
    → ((append_log p w).0.max_bytes ≡ w.max_bytes) × ((append_log p w).0.check_tick ≡ w.check_tick)
append_log-kept p w = elim (Bool-cases w.is_open) [
  | inl e ↦ rw (append_log, e) (refl, refl)
  | inr e ↦ rw (append_log, e) (refl, refl)
]

write-kept :
    (opens : ℕ → Bool) (p : Bytes) (w : RotatingWriter)
    → ((write opens p w).0.max_bytes ≡ w.max_bytes)
      × ((write opens p w).0.check_tick ≡ suc w.check_tick)
unfolding write
write-kept opens p w =
    let ticked = record w { check_tick = suc w.check_tick } in
    let (m, c) = rotate_if_full-kept (opens ticked.check_tick) ticked in
    let (m', c') = append_log-kept p (rotate_if_full (opens ticked.check_tick) ticked) in
    (m' ∙ m, c' ∙ c)

write-IsBounded :
    (opens : ℕ → Bool) (p : Bytes) (w : RotatingWriter) (l : ℕ)
    → length p ≤ l
    → IsBounded l w
    → IsBounded l (write opens p w).0
unfolding write
write-IsBounded opens p w l g b h =
    let ticked = record w { check_tick = suc w.check_tick } in
    rw ((write-kept opens p w).0, (write-kept opens p w).1)
      (append_log-size p (rotate_if_full (opens ticked.check_tick) ticked)
        (w.max_bytes + (suc w.check_tick % 32 + 1) * l)
        (rotate_if_full-room (opens ticked.check_tick) ticked w.check_tick l (length p) g refl b) h)

write_all-IsBounded :
    (opens : ℕ → Bool) (lines : List Bytes) (w : RotatingWriter) (l : ℕ)
    → AreWithin l lines
    → IsBounded l w
    → IsBounded l (write_all opens lines w) × ((write_all opens lines w).max_bytes ≡ w.max_bytes)
unfolding write_all
write_all-IsBounded opens [] w l g b = (b, refl)
write_all-IsBounded opens (p ∷ lines) w l (g, gs) b =
    let (b', m) =
      write_all-IsBounded opens lines (write opens p w).0 l gs (write-IsBounded opens p w l g b) in
    (b', m ∙ (write-kept opens p w).0)

thirty_two : (t l : ℕ) → (t % 32 + 1) * l ≤ 32 * l
thirty_two t l = mul-le-mul_right l (omega arith)

-- However many lines of at most l bytes are written, while rotations fail or not: the log that is written to
-- never has more than maxBytes and 32 lines, if it had at most maxBytes when it was opened.
pub write_all-size :
    (opens : ℕ → Bool) (lines : List Bytes) (files : Files) (bytes backups l : ℕ)
    → AreWithin l lines
    → size_of (files 0) ≤ (new_rotating_writer files bytes backups).max_bytes
    → (write_all opens lines (new_rotating_writer files bytes backups)).is_open ≡ true
    → size_of ((write_all opens lines (new_rotating_writer files bytes backups)).files 0)
      ≤ (new_rotating_writer files bytes backups).max_bytes + 32 * l
write_all-size opens lines files bytes backups l g b h =
    let w = new_rotating_writer files bytes backups in
    let after = write_all opens lines w in
    let (bounded, m) = write_all-IsBounded opens lines w l g (λ e. omega (arith, b)) in
    omega (arith, bounded h, m, thirty_two after.check_tick l)
