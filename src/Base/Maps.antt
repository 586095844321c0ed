-- ===== src/Base/Maps.antt =====
-- Go maps as functions, over keys whose equality is decided: a missing key reads as `none`.
use mathlib.Core.Path.{◌≡◌, refl}
use mathlib.Core.Logic.{◌≢◌, ite, if_pos, if_neg}
use mathlib.Core.Option.{Option, none, some}

abbrev pub GoMap : Type 0 → Type 0 → Type 0
GoMap K V = K → Option V

abbrev pub no_entries : {K V : Type 0} → GoMap K V
no_entries k = none

-- m[k], with the zero value where the key is missing.
abbrev pub read_or {ℓ} : {V : Type ℓ} → Option V → V → V
read_or none z = z
read_or (some v) z = v

module _ {K V : Type 0} (d : Discrete K) where
  -- m[k] = v
  unfoldable pub insert : K → V → GoMap K V → GoMap K V
  insert k v m j = ite (d k j) (some v) (m j)

  -- delete(m, k)
  unfoldable pub delete : K → GoMap K V → GoMap K V
  delete k m j = ite (d k j) none (m j)

  pub insert_self : (k : K) (v : V) (m : GoMap K V) → insert k v m k ≡ some v
  unfolding insert
  insert_self k v m = if_pos (d k k) refl (some v) (m k)

  pub insert_ne : (k j : K) (v : V) (m : GoMap K V) → k ≢ j → insert k v m j ≡ m j
  unfolding insert
  insert_ne k j v m h = if_neg (d k j) h (some v) (m j)

  pub delete_self : (k : K) (m : GoMap K V) → delete k m k ≡ none
  unfolding delete
  delete_self k m = if_pos (d k k) refl none (m k)

  pub delete_ne : (k j : K) (m : GoMap K V) → k ≢ j → delete k m j ≡ m j
  unfolding delete
  delete_ne k j m h = if_neg (d k j) h none (m j)
