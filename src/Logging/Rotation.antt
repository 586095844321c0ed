-- ===== src/Logging/Rotation.antt =====
-- Where rotate of src/logging.go leaves each file.
use tg_ws_proxy_go.Base.{
  ℕ, zero, suc, ◌-◌, ◌<◌, ◌≡◌, refl, sym, subst, ap, ==_iff, ◌∙◌, inl, inr, Bool-cases,
  Option-cases, Option, some, none, Bytes, [], ◌==◌, ltb, Bool, true, false, if◌then◌else◌, arith,
}
use tg_ws_proxy_go.Logging.{
  Files, set, rename, create, RotatingWriter, shift_backups, make_room, rotate,
}

-- The renames of rotate as one loop.
abbrev shift : ℕ → Files → Files
shift zero files = files
shift (suc i) files = shift i (rename files i (suc i))

rename-shift_backups :
    (n : ℕ) (files : Files) → rename (shift_backups n files) 0 1 ≡ shift (suc n) files
unfolding shift_backups
rename-shift_backups zero files = refl
rename-shift_backups (suc n) files = rename-shift_backups n (rename files (suc n) (suc (suc n)))

abbrev pub or_else : Option Bytes → Option Bytes → Option Bytes
or_else none y = y
or_else (some x) y = some x

set_same : (files : Files) (i : ℕ) (v : Option Bytes) → set files i v i ≡ v
set_same files i v = ground arith

set_other :
    (files : Files) (i j : ℕ) (v : Option Bytes) → (j == i) ≡ false → set files i v j ≡ files j
set_other files i j v h = rw (h) refl

rename-old : (files : Files) (i : ℕ) → rename files i (suc i) i ≡ none
rename-old files i = elim (Option-cases (files i)) [
  | inl e ↦ rw (rename, e) e
  | inr (text, e) ↦ rw (rename, e) (set_same (set files (suc i) (some text)) i none)
]

rename-new :
    (files : Files) (i : ℕ) → rename files i (suc i) (suc i) ≡ or_else (files i) (files (suc i))
rename-new files i = elim (Option-cases (files i)) [
  | inl e ↦ rw (rename, e) refl
  | inr (text, e) ↦
      rw (rename, e)
        (set_other (set files (suc i) (some text)) i (suc i) none (ground arith)
          ∙ set_same files (suc i) (some text))
]

rename-other :
    (files : Files) (i j : ℕ)
    → (j == i) ≡ false
    → (j == suc i) ≡ false
    → rename files i (suc i) j ≡ files j
rename-other files i j g h = elim (Option-cases (files i)) [
  | inl e ↦ rw (rename, e) refl
  | inr (text, e) ↦
      rw (rename, e)
        (set_other (set files (suc i) (some text)) i j none g
          ∙ set_other files (suc i) j (some text) h)
]

shift-above : (n : ℕ) (files : Files) (j : ℕ) → n < j → shift n files j ≡ files j
shift-above zero files j h = refl
shift-above (suc n) files j h =
    shift-above n (rename files n (suc n)) j (omega arith)
    ∙ rename-other files n j (ground (arith, h)) (ground (arith, h))

or_else-none : (x : Option Bytes) → or_else x none ≡ x
or_else-none none = refl
or_else-none (some t) = refl

shift-top :
    (n : ℕ) (files : Files) → shift (suc n) files (suc n) ≡ or_else (files n) (files (suc n))
shift-top n files =
    shift-above n (rename files n (suc n)) (suc n) (omega arith) ∙ rename-new files n

-- Where nothing is at the end of the row, each file moves up by one.
shift-below :
    (n : ℕ) (files : Files) (j : ℕ) → files n ≡ none → j < n → shift n files (suc j) ≡ files j
shift-below zero files j e h = absurd (omega arith)
shift-below (suc n) files j e h = elim (Bool-cases (j == n)) [
  | inl f ↦
      subst (λ i. shift (suc n) files (suc i) ≡ files i) (sym ((==_iff j n).0 f))
        (shift-top n files ∙ ap (or_else (files n)) e ∙ or_else-none (files n))
  | inr f ↦
      shift-below n (rename files n (suc n)) j (rename-old files n) (ground (arith, h, f))
      ∙ rename-other files n j f (ground (arith, h))
]

shift-first : (n : ℕ) (files : Files) → files n ≡ none → shift n files 0 ≡ none
shift-first zero files e = e
shift-first (suc n) files e = shift-first n (rename files n (suc n)) (rename-old files n)

-- What is at each number behind a rotation, by what was there.
abbrev pub rotated : ℕ → Bool → Files → Files
rotated backups opens files zero = if opens then some [] else none
rotated backups opens files (suc j) =
    if ltb (suc j) backups
    then files j
    else if suc j == backups
    then or_else (files j) (files backups)
    else files (suc j)

one_less : (n : ℕ) → suc n - 1 ≡ n
one_less n = omega arith

some_backups : (n : ℕ) → ltb 0 (suc n) ≡ true
some_backups n = ground arith

make_room-shift : (n : ℕ) (files : Files) → make_room (suc n) files ≡ shift (suc n) files
make_room-shift n files = rw (make_room, some_backups n, one_less n) (rename-shift_backups n files)

make_room-first : (n : ℕ) (files : Files) → make_room n files 0 ≡ none
make_room-first zero files = set_same files 0 none
make_room-first (suc n) files =
    ap (λ (t : Files). t 0) (make_room-shift n files)
    ∙ shift-first n (rename files n (suc n)) (rename-old files n)

make_room-later :
    (n : ℕ) (opens : Bool) (files : Files) (j : ℕ)
    → make_room n files (suc j) ≡ rotated n opens files (suc j)
make_room-later zero opens files j = ground arith
make_room-later (suc n) opens files j =
    ap (λ (t : Files). t (suc j)) (make_room-shift n files)
    ∙ elim (Bool-cases (ltb (suc j) (suc n))) [
      | inl e ↦ rw (e) (
          shift-below n (rename files n (suc n)) j (rename-old files n) (ground (arith, e))
          ∙ rename-other files n j (ground (arith, e)) (ground (arith, e)))
      | inr e ↦ elim (Bool-cases (suc j == suc n)) [
        | inl f ↦
            rw (e, f)
              (subst (λ i. shift (suc n) files (suc i) ≡ or_else (files i) (files (suc n)))
                (sym (ground (arith, f))) (shift-top n files))
        | inr f ↦ rw (e, f) (shift-above (suc n) files (suc j) (ground (arith, e, f)))
      ]
    ]

create-later : (files : Files) (j : ℕ) → files 0 ≡ none → create files (suc j) ≡ files (suc j)
create-later files j e = rw (create, e) (set_other files 0 (suc j) (some []) (ground arith))

-- For every number of backups and whatever files there are: rotate moves the log and each backup but the
-- oldest one number up, replaces the oldest only where a file comes to its place, and leaves higher
-- numbers as they are. Without backups the log is removed. Then the log is empty and open, or
-- missing and closed, with an error, where OpenFile fails.
pub rotate-rotated :
    (opens : Bool) (w : RotatingWriter)
    → ((j : ℕ) → (rotate opens w).0.files j ≡ rotated w.backups opens w.files j)
      × ((rotate opens w).0.is_open ≡ opens)
      × ((rotate opens w).1 ≡ opens)
unfolding rotate
rotate-rotated true w = (go, refl, refl)
  where
    go : (j : ℕ) → create (make_room w.backups w.files) j ≡ rotated w.backups true w.files j
    go zero = rw (create, make_room-first w.backups w.files) refl
    go (suc j) =
        create-later (make_room w.backups w.files) j (make_room-first w.backups w.files)
        ∙ make_room-later w.backups true w.files j
rotate-rotated false w = (go, refl, refl)
  where
    go : (j : ℕ) → make_room w.backups w.files j ≡ rotated w.backups false w.files j
    go zero = make_room-first w.backups w.files
    go (suc j) = make_room-later w.backups false w.files j
