-- ===== src/Shell.antt =====
-- The command line of project1/part-2.c: `split`, `do_getarg`, and the loop of `main`, whose
-- `do_readline` and `do_print` are those of part-1.c under other names.
pub mod Commands
pub mod Words
mod Tests
use cs5600_computer_systems.Prelude.{
  ℕ, zero, suc, ◌≡◌, Bool, true, false, ◌||◌, Option, none, some, List, [], ◌∷◌, ◌==◌,
  if◌then◌else◌, Str, str_eq,
}
use cs5600_computer_systems.Console.{Input, readline, print, quit_text}
use cs5600_computer_systems.Loader.{Kernel, exec_file}

-- ' ', '\t' and '\n'
abbrev pub is_separator : ℕ → Bool
is_separator c = c == 32 || c == 9 || c == 10

-- `while (*p is a separator) *p++ = 0;`
unfoldable pub skip_separators : Str → Str
skip_separators [] = []
skip_separators (c ∷ r) = let rest = skip_separators r in if is_separator c then rest else c ∷ r

-- The line behind a word, after `while (*p is in the word) p++;`
unfoldable pub behind_word : Str → Str
behind_word [] = []
behind_word (c ∷ r) = let rest = behind_word r in if is_separator c then c ∷ r else rest

-- The word as it is read later, when the separator behind it is 0.
unfoldable pub first_word : Str → Str
first_word [] = []
first_word (c ∷ r) = let rest = first_word r in if is_separator c then [] else c ∷ rest

-- `split(argv, max_argc, line)`: the strings that `argv` points to when it returns. What ends a word is
-- overwritten when the next word is looked for, so the string of the last of `max_argc` words is the rest of the line.
unfoldable pub split : ℕ → Str → List Str
split zero l = []
split (suc n) l = elim (skip_separators l) [
  | [] ↦ []
  | c ∷ r ↦ elim n [
    | zero ↦ (c ∷ r) ∷ []
    | suc m ↦ first_word (c ∷ r) ∷ split n (behind_word (c ∷ r))
  ]
]

-- `do_getarg(i)` for an `i` that is not negative: `none` is NULL.
unfoldable pub getarg : List Str → ℕ → Option Str
getarg [] i = none
getarg (w ∷ ws) zero = some w
getarg (w ∷ ws) (suc i) = getarg ws i

-- MAX_ARGS and BUFFER_SIZE
abbrev pub max_args : ℕ
max_args = 10

abbrev pub buffer_size : ℕ
buffer_size = 200

-- A round of the loop of `main`: it exits, with status 0 or 1, or goes on, after a program was called with these
-- arguments or after none was.
pub data Round (S : Type 0) : Type 0 where
  exits : ℕ → Round S
  called : List Str → List Input → S → Round S
  idle : List Input → S → Round S

-- `do_readline` and `do_print`, which are the functions of part-1.c.
abbrev pub do_readline : ℕ → List Input → Option (Str × List Input)
do_readline = readline

abbrev pub do_print : Str → Str
do_print = print

module _ ⦃K : Kernel⦄ where
  -- From `argc = split(argv, MAX_ARGS, buffer)` on.
  unfoldable pub run_words : List Str → List Input → K.Space → Round K.Space
  run_words [] input s = idle input s
  run_words (w ∷ ws) input s = elim (exec_file w (w ∷ ws) input s) [
    | none ↦ exits 1
    | some (rest, s') ↦ called (w ∷ ws) rest s'
  ]

  -- `none` is the end of the input where `do_readline` tests a `ch` that was never read.
  unfoldable pub shell_round : List Input → K.Space → Option (Round K.Space)
  shell_round input s = elim (do_readline buffer_size input) [
    | none ↦ none
    | some (text, rest) ↦ elim (do_print text) [
      | [] ↦ some (idle rest s)
      | c ∷ r ↦
          if str_eq (c ∷ r) quit_text
          then some (exits 0)
          else some (run_words (split max_args (c ∷ r)) rest s)
    ]
  ]
