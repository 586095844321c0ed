-- ===== src/Base.antt =====
-- The names that the other modules share: the libraries' own, passed on, and those of the children
-- (tests on numbers, lists measured by native numbers, bytes, integers).
mod Tests
mod Lists
mod Words
mod Text
mod Options
mod Xor
mod Maps
pub mod Int
pub use Tests.*
pub use Lists.*
pub use Words.*
pub use Text.{codes}
pub use Options.*
unfoldable pub use Text.{digits, itoa}
pub use Xor.*
unfoldable pub use Maps.{insert, delete}
pub use Maps.{GoMap, no_entries, read_or, insert_self, insert_ne, delete_self, delete_ne}
pub use Int.*
pub use Prim.Native.Nat.{ℕ, zero, suc, ◌+◌, ◌-◌, ◌*◌, ◌/◌, ◌%◌, ◌^◌, ◌≤◌, ◌<◌, min, max}
pub use mathlib.Core.Path.{◌≡◌, refl, sym, ap, ap₂, ◌∙◌, subst, fun_ext, ◌≡⟨◌⟩◌, ◌∎}
pub use mathlib.Core.Logic.{◌≢◌, ◌↔◌, ◌⊎◌, inl, inr}
pub use mathlib.Core.Bool.{Bool, true, false, not, ◌&&◌, ◌||◌}
pub use mathlib.Core.Option.{Option, none, some}
pub use mathlib.Core.List.{List, [], ◌∷◌, ◌++◌, map, append_assoc, append-nil}
pub use native.Mathlib.Omega.{arith}
unfoldable pub use native.Mathlib.Decide.{dec_lt, dec_le, ℕ_discrete}
