-- ===== src/Base/Texts.antt =====
-- Texts walked by characters.
use Prim.Native.Nat.{ℕ, suc}
use Prim.Native.Char.{code}
use Prim.Native.String
use Prim.Native.String.{String, [], ◌∷◌}
use mathlib.Core.Bool.{Bool, true, false, ◌||◌, ◌&&◌}
use mathlib.Core.List.{List}
use text.Mathlib.Text.{◌==◌}
use msa_tuto_server.Base.Tests.{eqb}

-- The number of characters.
abbrev pub size : String → ℕ
size [] = 0
size (c ∷ s) = suc (size s)

-- The text begins with the prefix, the first argument.
abbrev pub begins_with : String → String → Bool
begins_with [] s = true
begins_with (c ∷ p) [] = false
begins_with (c ∷ p) (d ∷ s) = eqb (code c) (code d) && begins_with p s

-- `keys.includes(k)`
abbrev pub includes : List String → String → Bool
includes List.[] k = false
includes (List.◌∷◌ x xs) k = x == k || includes xs k

-- A template literal, from its pieces.
abbrev pub template : List String → String
template List.[] = ""
template (List.◌∷◌ s ss) = String.◌++◌ s (template ss)
