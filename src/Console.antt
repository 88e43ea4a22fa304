-- ===== src/Console.antt =====
-- The line echo of project1/part-1.c: `readline`, `print`, and the loop of `main`.
mod Tests
use cs5600_computer_systems.Prelude.{
  ℕ, zero, suc, ◌-◌, ◌≤◌, ◌≡◌, ◌≢◌, refl, Bool, true, false, Option, none, some, List, [], ◌∷◌,
  ◌++◌, map, take, arith, ◌==◌, if◌then◌else◌, Str, str_eq, ap, ◌∙◌, sym,
}

-- What a `read(0, &ch, 1)` yields: a byte, or -1. Behind the last one every `read` yields 0.
pub data Input : Type 0 where
  byte : ℕ → Input
  failure : Input

abbrev pub newline : ℕ
newline = 10

-- The end of the first loop of `readline`: the bytes in the buffer, the value of `ch`, `none` while it
-- is uninitialised, and the input that is left.
pub record Line : Type 0 where
  pub text : Str
  pub last : Option ℕ
  pub rest : List Input

abbrev pub line : Str → Option ℕ → List Input → Line
line text last rest = record { text = text; last = last; rest = rest }

abbrev pub put_first : ℕ → Line → Line
put_first c l = line (c ∷ l.text) l.last l.rest

-- The first loop, with room for `n` bytes.
unfoldable pub read_chars : ℕ → Option ℕ → List Input → Line
read_chars zero last input = line [] last input
read_chars (suc n) last [] = line [] last []
read_chars (suc n) last (failure ∷ input) = line [] last input
read_chars (suc n) last (byte c ∷ input) =
    let rest = read_chars n (some c) input in
    if c == newline then line [] (some c) input else put_first c rest

-- `while (ch != '\n' && read(0, &ch, 1) > 0);` after a byte that is not the end of the line.
unfoldable pub drain : List Input → List Input
drain [] = []
drain (failure ∷ input) = input
drain (byte c ∷ input) = let rest = drain input in if c == newline then input else rest

-- The second loop of `readline`. A `ch` that was never read makes its test undefined: `none`.
abbrev pub skip_rest : Line → Option (Str × List Input)
skip_rest l = elim l.last [
  | none ↦ none
  | some c ↦ some (l.text, if c == newline then l.rest else drain l.rest)
]

-- `readline(buf, len)`: the bytes before the NUL that it puts into the buffer, and the input left.
unfoldable pub readline : ℕ → List Input → Option (Str × List Input)
readline len input = skip_rest (read_chars (len - 1) none input)

-- `print(buf)`: the bytes that it writes.
unfoldable pub print : Str → Str
print [] = []
print (c ∷ r) = let rest = print r in if c == 0 then [] else c ∷ rest

abbrev pub quit_text : Str
quit_text = b'q' ∷ b'u' ∷ b'i' ∷ b't' ∷ []

-- A round of the loop of `main`, from the prompt on: it exits, or writes something.
pub data Echo : Type 0 where
  exits : Echo
  writes : Str → List Input → Echo

-- The texts "Output: " and "\n".
abbrev pub output_text : Str
output_text = b'O' ∷ b'u' ∷ b't' ∷ b'p' ∷ b'u' ∷ b't' ∷ b':' ∷ b' ' ∷ []

unfoldable pub echo_round : List Input → Option Echo
echo_round input = elim (readline 200 input) [
  | none ↦ none
  | some (text, rest) ↦
      if str_eq (print text) quit_text
      then some exits
      else some (writes (output_text ++ print text ++ newline ∷ []) rest)
]

-- No byte of the text ends a line.
abbrev pub IsOneLine : Str → Type 0
IsOneLine [] = Unit
IsOneLine (c ∷ r) = (c ≢ newline) × IsOneLine r

-- A line of input, with its end.
abbrev pub typed : Str → List Input → List Input
typed [] input = byte newline ∷ input
typed (c ∷ r) input = byte c ∷ typed r input

drain-typed : (text : Str) (input : List Input) → IsOneLine text → drain (typed text input) ≡ input
unfolding drain
drain-typed [] input h = refl
drain-typed (c ∷ r) input h =
    let more : (c == newline) ≡ false = ground (arith, h.0) in rw more (drain-typed r input h.1)

put_first-skip_rest :
    (c : ℕ) (l : Line) (text : Str) (input : List Input)
    → skip_rest l ≡ some (text, input)
    → skip_rest (put_first c l) ≡ some (c ∷ text, input)
put_first-skip_rest c l text input e = push l.last e
  where
    push :
        (o : Option ℕ)
        → skip_rest (line l.text o l.rest) ≡ some (text, input)
        → skip_rest (line (c ∷ l.text) o l.rest) ≡ some (c ∷ text, input)
    push none h = cc h
    push (some b) h =
        ap
          (λ (o : Option (Str × List Input)). elim o [ none ↦ none | some p ↦ some (c ∷ p.0, p.1) ])
          h

read_chars-typed :
    (n b : ℕ) (text : Str) (input : List Input)
    → b ≢ newline
    → IsOneLine text
    → skip_rest (read_chars n (some b) (typed text input)) ≡ some (take n text, input)
unfolding read_chars
read_chars-typed zero b text input ne h =
    let more : (b == newline) ≡ false = ground arith in rw (more, drain-typed text input h)
read_chars-typed (suc n) b [] input ne h = refl
read_chars-typed (suc n) b (c ∷ r) input ne h =
    let more : (c == newline) ≡ false = ground (arith, h.0) in
    rw more (
      put_first-skip_rest c (read_chars n (some c) (typed r input)) (take n r) input
        (read_chars-typed n c r input h.0 h.1))

first-typed :
    (n : ℕ) (text : Str) (input : List Input)
    → IsOneLine text
    → skip_rest (read_chars (suc n) none (typed text input)) ≡ some (take (suc n) text, input)
unfolding read_chars
first-typed n [] input h = refl
first-typed n (c ∷ r) input h =
    let more : (c == newline) ≡ false = ground (arith, h.0) in
    rw more (
      put_first-skip_rest c (read_chars n (some c) (typed r input)) (take n r) input
        (read_chars-typed n c r input h.0 h.1))

-- For a buffer of at least 2 bytes, and input that begins with a line: `readline` puts the line
-- into the buffer, cut to one byte less than the buffer's size, and goes on behind the end of
-- the line, whatever was cut.
pub readline-typed :
    (len : ℕ) (text : Str) (input : List Input)
    → 2 ≤ len
    → IsOneLine text
    → readline len (typed text input) ≡ some (take (len - 1) text, input)
unfolding readline
readline-typed len text input room h =
    let e : len - 1 ≡ suc (len - 2) = omega arith in
    ap (λ k. skip_rest (read_chars k none (typed text input))) e
    ∙ first-typed (len - 2) text input h
    ∙ ap (λ k. some (take k text, input)) (sym e)
