-- ===== src/Text/Prefix.antt =====
-- strings.HasPrefix with strings.TrimPrefix, and strings.Cut at a byte.
use quantum_control.Prelude.{◌≡◌, Option, none, some, [], ◌∷◌, ◌++◌, arith, eqb, if◌then◌else◌}
use quantum_control.Text.Defs.{Text}

-- What follows the prefix, where the text has it.
unfoldable pub strip_prefix : Text → Text → Option Text
strip_prefix [] t = some t
strip_prefix (x ∷ xs) [] = none
strip_prefix (x ∷ xs) (y ∷ ys) = let rest = strip_prefix xs ys in if eqb x y then rest else none

pub strip_prefix_sound : (p t rest : Text) → strip_prefix p t ≡ some rest → t ≡ p ++ rest
unfolding strip_prefix
strip_prefix_sound [] t rest e = ground arith
strip_prefix_sound (x ∷ xs) [] rest e = absurd (ground arith)
strip_prefix_sound (x ∷ xs) (y ∷ ys) rest e = ground (arith, strip_prefix_sound xs ys rest)
