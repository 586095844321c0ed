-- ===== src/Base/Text.antt =====
-- Texts of ASCII as their bytes, and strconv.Itoa of a number.
use Prim.Native.Nat.{ℕ, zero, suc, ◌+◌, ◌/◌, ◌%◌}
use Prim.Native.Char.{code}
use Prim.Native.String.{String}
use mathlib.Core.List.{[], ◌∷◌}
use tg_ws_proxy_go.Base.Tests.{ltb, if◌then◌else◌}
use tg_ws_proxy_go.Base.Words.{Bytes}

-- The bytes of a text of ASCII.
abbrev pub codes : String → Bytes
codes String.[] = []
codes (String.◌∷◌ c text) = code c ∷ codes text

-- The decimal digits of n before `behind`; each step divides by ten, so fuel n is enough.
unfoldable pub digits : ℕ → ℕ → Bytes → Bytes
digits zero n behind = (48 + n % 10) ∷ behind
digits (suc fuel) n behind =
    let more = digits fuel (n / 10) ((48 + n % 10) ∷ behind) in
    if ltb n 10 then (48 + n) ∷ behind else more

unfoldable pub itoa : ℕ → Bytes
itoa n = digits n n []
