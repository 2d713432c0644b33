-- ===== src/Base/Texts.antt =====
-- Template literals.
use Prim.Native.String.{String, ◌++◌}
use mathlib.Core.List.{List, [], ◌∷◌}

abbrev pub joined : List String → String
joined [] = ""
joined (s ∷ ss) = s ++ joined ss
