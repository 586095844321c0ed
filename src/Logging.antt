-- ===== src/Logging.antt =====
-- src/logging.go, the rotatingWriter. The files are those of its directory by their number: 0 for the log
-- itself, i for the backup with the suffix i. A rename or a removal fails only where the file is missing;
-- whether OpenFile succeeds is a parameter, asked by the tick. The masking of domains is left out.
pub mod Rotation
pub mod Size
mod Tests
use tg_ws_proxy_go.Base.{
  ℕ, zero, suc, ◌+◌, ◌*◌, ◌-◌, ◌%◌, Option, some, none, List, [], ◌∷◌, ◌++◌, Bytes, length, ◌==◌,
  ltb, leb, Bool, true, false, not, ◌&&◌, if◌then◌else◌,
}

abbrev pub Files : Type 0
Files = ℕ → Option Bytes

abbrev pub set : Files → ℕ → Option Bytes → Files
set files i value j = if j == i then value else files j

-- os.Rename.
abbrev pub rename : Files → ℕ → ℕ → Files
rename files old new = elim (files old) [
  | none ↦ files
  | some text ↦ set (set files new (some text)) old none
]

-- os.OpenFile with O_CREATE and O_APPEND, where it succeeds.
abbrev pub create : Files → Files
create files = elim (files 0) [ none ↦ set files 0 (some []) | some text ↦ files ]

-- f.Write of a file opened with O_APPEND.
abbrev pub append_to : Option Bytes → Bytes → Option Bytes
append_to none p = none
append_to (some text) p = some (text ++ p)

-- st.Size().
abbrev pub size_of : Option Bytes → ℕ
size_of none = 0
size_of (some text) = length text

-- The file that `f` is, while it is open, has the number 0. `backups` is 0 for a negative number too.
pub record RotatingWriter : Type 0 where
  pub files : Files
  pub is_open : Bool
  pub max_bytes : ℕ
  pub backups : ℕ
  pub check_tick : ℕ

-- `bytes` is int64(maxMB * 1024 * 1024).
abbrev pub new_rotating_writer : Files → ℕ → ℕ → RotatingWriter
new_rotating_writer files bytes backups = record {
  files = files;
  is_open = true;
  max_bytes = if ltb bytes (32 * 1024) then 32 * 1024 else bytes;
  backups = backups;
  check_tick = 0;
}

-- `for i := backups - 1; i >= 1; i--`.
unfoldable pub shift_backups : ℕ → Files → Files
shift_backups zero files = files
shift_backups (suc i) files = shift_backups i (rename files (suc i) (suc (suc i)))

abbrev pub make_room : ℕ → Files → Files
make_room backups files =
    if ltb 0 backups then rename (shift_backups (backups - 1) files) 0 1 else set files 0 none

-- Whether there is no error stands beside the writer.
unfoldable pub rotate : Bool → RotatingWriter → RotatingWriter × Bool
rotate opens w =
    let files = make_room w.backups w.files in
    if opens
    then (record w { files = create files; is_open = true }, true)
    else (record w { files = files; is_open = false }, false)

abbrev pub rotate_if_full : Bool → RotatingWriter → RotatingWriter
rotate_if_full opens w =
    if w.check_tick % 32 == 0 && w.is_open && leb w.max_bytes (size_of (w.files 0))
    then (rotate opens w).0
    else w

abbrev pub append_log : Bytes → RotatingWriter → RotatingWriter × Bool
append_log p w =
    if w.is_open
    then (record w { files = set w.files 0 (append_to (w.files 0) p) }, true)
    else (w, false)

unfoldable pub write : (ℕ → Bool) → Bytes → RotatingWriter → RotatingWriter × Bool
write opens p w =
    let ticked = record w { check_tick = suc w.check_tick } in
    append_log p (rotate_if_full (opens ticked.check_tick) ticked)

-- One line after another.
unfoldable pub write_all : (ℕ → Bool) → List Bytes → RotatingWriter → RotatingWriter
write_all opens [] w = w
write_all opens (p ∷ lines) w = write_all opens lines (write opens p w).0
