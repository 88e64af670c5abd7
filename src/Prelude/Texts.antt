-- ===== src/Prelude/Texts.antt =====
-- Operations on texts as lists of code points, for the code that searches names.
use Prim.Native.Nat.{ℕ, ◌+◌}
use mathlib.Core.Bool.{Bool, true, false, ◌&&◌, ◌||◌}
use mathlib.Core.List.{List, [], ◌∷◌, ◌++◌}
use lucent.Prelude.Tests.{leb, if◌then◌else◌, ◌==◌, nat_eq}

abbrev pub Text : Type 0
Text = List ℕ

-- `lower` of an ASCII text
abbrev pub lower : Text → Text
lower [] = []
lower (c ∷ t) = (if leb 65 c && leb c 90 then c + 32 else c) ∷ lower t

abbrev pub starts_with : Text → Text → Bool
starts_with [] t = true
starts_with (c ∷ p) [] = false
starts_with (c ∷ p) (d ∷ t) = c == d && starts_with p t

-- `p in t`
abbrev pub occurs : Text → Text → Bool
occurs p [] = starts_with p []
occurs p (d ∷ t) = starts_with p (d ∷ t) || occurs p t

-- `separator.join(texts)`
abbrev pub join : Text → List Text → Text
join separator [] = []
join separator (t ∷ []) = t
join separator (t ∷ u ∷ ts) = t ++ separator ++ join separator (u ∷ ts)
