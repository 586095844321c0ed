-- ===== src/Logging/Tests.antt =====
-- The theorems on the rotation of the log at concrete inputs.
use tg_ws_proxy_go.Base.{
  ℕ, zero, suc, ◌+◌, ◌*◌, ◌≤◌, ◌≡◌, refl, some, none, List, [], ◌∷◌, Bytes, Bool, true, arith,
}
use tg_ws_proxy_go.Logging.{
  Files, RotatingWriter, new_rotating_writer, size_of, rotate, shift_backups, write, write_all,
}
use tg_ws_proxy_go.Logging.Rotation.{rotated, rotate-rotated}
use tg_ws_proxy_go.Logging.Size.{write_all-size}

-- The log and one backup.
abbrev two_files : Files
two_files zero = some (1 ∷ 2 ∷ [])
two_files (suc zero) = some (3 ∷ [])
two_files (suc (suc _)) = none

abbrev two_backups : RotatingWriter
two_backups = new_rotating_writer two_files 0 2

rotate_moves :
    ((rotate true two_backups).0.files 0 ≡ some [])
    × ((rotate true two_backups).0.files 1 ≡ some (1 ∷ 2 ∷ []))
    × ((rotate true two_backups).0.files 2 ≡ some (3 ∷ []))
unfolding rotate shift_backups
rotate_moves = (refl, refl, refl)

rotate-rotated_example :
    ((j : ℕ) → (rotate true two_backups).0.files j ≡ rotated 2 true two_files j)
    × ((rotate true two_backups).0.is_open ≡ true)
    × ((rotate true two_backups).1 ≡ true)
rotate-rotated_example = rotate-rotated true two_backups

abbrev two_lines : List Bytes
two_lines = (4 ∷ 5 ∷ []) ∷ (6 ∷ []) ∷ []

abbrev always : ℕ → Bool
always k = true

two_lines_open : (write_all always two_lines two_backups).is_open ≡ true
unfolding write_all write rotate
two_lines_open = refl

write_all-size_example :
    size_of ((write_all always two_lines (new_rotating_writer two_files 0 2)).files 0)
    ≤ (new_rotating_writer two_files 0 2).max_bytes + 32 * 2
write_all-size_example =
    write_all-size always two_lines two_files 0 2 2 (omega arith, (omega arith, tt)) (omega arith)
      two_lines_open
