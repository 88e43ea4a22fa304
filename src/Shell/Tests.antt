-- ===== src/Shell/Tests.antt =====
-- Command lines, and the theorems on them.
use cs5600_computer_systems.Prelude.{◌≡◌, refl, List, [], ◌∷◌, ◌++◌, map, arith}
use cs5600_computer_systems.Shell.{split}
use cs5600_computer_systems.Shell.Words.{Word, text, line_of, split-line_of, split-full}

-- "wc" and "x", a space and a tab before the latter, and an end of line behind it.
abbrev command : Word
command = record { gap = []; first = b'w'; others = b'c' ∷ [] }

abbrev argument : Word
argument = record { gap = 32 ∷ 9 ∷ []; first = b'x'; others = [] }

not_nil : argument.gap ≡ [] → ⊥
not_nil e = cc e

split-line_of_example :
    split 10 (line_of (command ∷ argument ∷ []) (10 ∷ [])) ≡ map text (command ∷ argument ∷ [])
split-line_of_example =
    split-line_of 10 (command ∷ argument ∷ []) (10 ∷ [])
      (((tt, (refl, (refl, tt))), (((refl, (refl, tt)), (refl, tt)), not_nil, tt))) (refl, tt)
      (omega arith)

split-full_example :
    split 2 (line_of (command ∷ argument ∷ argument ∷ []) [])
    ≡ text command ∷ (text argument ++ line_of (argument ∷ []) []) ∷ []
split-full_example =
    split-full (command ∷ []) argument (argument ∷ []) []
      (
        (tt, (refl, (refl, tt))),
        (
          ((refl, (refl, tt)), (refl, tt)),
          not_nil,
          (((refl, (refl, tt)), (refl, tt)), not_nil, tt),
        ),
      )
      tt

abbrev words : List Word
words = command ∷ argument ∷ []
