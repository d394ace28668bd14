-- ===== src/Security/Audit/Lines.antt =====
-- bufio.Scanner by lines: the bytes of each line, and the token that ScanLines makes of them.
use quantum_control.Prelude.{
  ◌≡◌, refl, sym, ap, ap₂, ◌∙◌, ◌⊎◌, inl, inr, false, List, [], ◌∷◌, ◌++◌, eqb, if◌then◌else◌,
  Bool-cases, All,
}
use quantum_control.Text.{Text}
use mathlib.Core.List.{append_assoc, append-nil}

-- A carriage return before the end of a line belongs to the end.
unfoldable pub drop_cr : Text → Text
drop_cr [] = []
drop_cr (b ∷ []) = if eqb b 13 then [] else b ∷ []
drop_cr (b ∷ c ∷ r) = b ∷ drop_cr (c ∷ r)

-- Lines end at \n; what follows the last end is a line if it is not empty. The first argument is
-- the part of the line that has been read.
unfoldable pub split_lines : Text → Text → List Text
split_lines [] [] = []
split_lines (b ∷ part) [] = (b ∷ part) ∷ []
split_lines part (b ∷ r) =
    let rest = split_lines [] r in
    let more = split_lines (part ++ b ∷ []) r in if eqb b 10 then part ∷ rest else more

unfoldable pub scan_lines : Text → List Text
unfolding split_lines
scan_lines = split_lines []

-- A text without the byte \n.
abbrev pub IsLine : Text → Type 0
IsLine = All (λ b. eqb b 10 ≡ false)

split_line :
    (part line r : Text)
    → IsLine line
    → split_lines part (line ++ 10 ∷ r) ≡ (part ++ line) ∷ split_lines [] r
unfolding split_lines
split_line part [] r l = rw append-nil refl
split_line part (b ∷ line) r l =
    rw (l.0, split_lines)
      (split_line (part ++ b ∷ []) line r l.1
        ∙ ap (λ p. p ∷ split_lines [] r) (append_assoc part (b ∷ []) line))

split_end :
    (part c r : Text)
    → split_lines part (c ++ 10 ∷ r) ≡ split_lines part (c ++ 10 ∷ []) ++ split_lines [] r
unfolding split_lines
split_end part [] r = refl
split_end part (b ∷ c) r = elim (Bool-cases (eqb b 10)) [
  | inl e ↦ rw (e, split_lines) (ap (◌∷◌ part) (split_end [] c r))
  | inr e ↦ rw (e, split_lines) (split_end (part ++ b ∷ []) c r)
]

-- A file of whole lines.
abbrev pub IsComplete : Text → Type 0
IsComplete bytes = (bytes ≡ []) ⊎ ((c : Text) × (bytes ≡ c ++ 10 ∷ []))

pub IsComplete-append : (bytes line : Text) → IsComplete (bytes ++ (line ++ 10 ∷ []))
IsComplete-append bytes line = inr (bytes ++ line, sym (append_assoc bytes line (10 ∷ [])))

-- A line that is appended to a file of whole lines is scanned after them.
pub scan_lines-append :
    (bytes line : Text)
    → IsComplete bytes
    → IsLine line
    → scan_lines (bytes ++ (line ++ 10 ∷ [])) ≡ scan_lines bytes ++ line ∷ []
unfolding scan_lines split_lines
scan_lines-append bytes line (inl e) l = rw e (split_line [] line [] l)
scan_lines-append bytes line (inr (c, e)) l =
    ap (λ b. split_lines [] (b ++ (line ++ 10 ∷ []))) e
    ∙ ap (split_lines []) (append_assoc c (10 ∷ []) (line ++ 10 ∷ []))
    ∙ split_end [] c (line ++ 10 ∷ [])
    ∙ ap₂ (◌++◌) (ap (split_lines []) (sym e)) (split_line [] line [] l)
