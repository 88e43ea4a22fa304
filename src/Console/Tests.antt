-- ===== src/Console/Tests.antt =====
-- The line reader on a line that is too long.
use cs5600_computer_systems.Prelude.{◌-◌, ◌≡◌, some, [], ◌∷◌, Str, take, arith}
use cs5600_computer_systems.Console.{readline, typed, readline-typed, byte, IsOneLine}

abbrev typed_line : Str
typed_line = b'o' ∷ b'n' ∷ b'e' ∷ []

one_line : IsOneLine typed_line
one_line = (omega arith, (omega arith, (omega arith, tt)))

readline-typed_example :
    readline 3 (typed typed_line (byte 65 ∷ [])) ≡ some (take (3 - 1) typed_line, byte 65 ∷ [])
readline-typed_example = readline-typed 3 typed_line (byte 65 ∷ []) (omega arith) one_line
