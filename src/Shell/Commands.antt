-- ===== src/Shell/Commands.antt =====
-- A command line from the terminal to the program that it runs.
use cs5600_computer_systems.Prelude.{◌≢◌, [], ◌∷◌, Str}

-- No byte of the line is 0.
abbrev pub IsString : Str → Type 0
IsString [] = Unit
IsString (c ∷ r) = (c ≢ 0) × IsString r
