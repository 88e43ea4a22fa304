-- ===== src/Shell/Words.antt =====
-- The words of a command line.
use cs5600_computer_systems.Prelude.{
  ℕ, zero, suc, ◌<◌, ◌≡◌, ◌≢◌, refl, true, false, List, [], ◌∷◌, ◌++◌, map, length, arith, Str, ap,
  ◌∙◌,
}
use cs5600_computer_systems.Shell.{is_separator, skip_separators, behind_word, first_word, split}

-- All of these bytes are separators; none is.
abbrev pub IsGap : Str → Type 0
IsGap [] = Unit
IsGap (c ∷ r) = (is_separator c ≡ true) × IsGap r

abbrev pub IsPlain : Str → Type 0
IsPlain [] = Unit
IsPlain (c ∷ r) = (is_separator c ≡ false) × IsPlain r

-- A word with what separates it from the one before; the first word may have nothing before it.
pub record Word : Type 0 where
  pub gap : Str
  pub first : ℕ
  pub others : Str

abbrev pub text : Word → Str
text w = w.first ∷ w.others

-- The line of these words, with `end` behind the last.
abbrev pub line_of : List Word → Str → Str
line_of [] end = end
line_of (w ∷ ws) end = w.gap ++ (text w ++ line_of ws end)

abbrev pub IsWord : Word → Type 0
IsWord w = IsGap w.gap × IsPlain (text w)

-- Words in a row, each with something before it.
abbrev pub AllApart : List Word → Type 0
AllApart [] = Unit
AllApart (w ∷ ws) = IsWord w × (w.gap ≢ []) × AllApart ws

abbrev pub AllWords : List Word → Type 0
AllWords [] = Unit
AllWords (w ∷ ws) = IsWord w × AllApart ws

-- The line behind a word: it is at its end, or a separator follows.
abbrev Ends : Str → Type 0
Ends [] = Unit
Ends (c ∷ r) = is_separator c ≡ true

Ends-gap : (g : Str) (rest : Str) → IsGap g → g ≢ [] → Ends (g ++ rest)
Ends-gap [] rest gap ne = absurd (ne refl)
Ends-gap (c ∷ g) rest gap ne = gap.0

Ends-line : (ws : List Word) (end : Str) → AllApart ws → IsGap end → Ends (line_of ws end)
Ends-line [] [] apart gap = tt
Ends-line [] (c ∷ r) apart gap = gap.0
Ends-line (w ∷ ws) end apart gap = Ends-gap w.gap _ apart.0.0 apart.1

skip_separators-gap : (g rest : Str) → IsGap g → skip_separators (g ++ rest) ≡ skip_separators rest
unfolding skip_separators
skip_separators-gap [] rest gap = refl
skip_separators-gap (c ∷ g) rest gap = rw gap.0 (skip_separators-gap g rest gap.1)

skip_separators-word : (c : ℕ) (r : Str) → is_separator c ≡ false → skip_separators (c ∷ r) ≡ c ∷ r
unfolding skip_separators
skip_separators-word c r plain = rw plain refl

behind_word-plain : (t rest : Str) → IsPlain t → Ends rest → behind_word (t ++ rest) ≡ rest
unfolding behind_word
behind_word-plain [] [] plain ends = refl
behind_word-plain [] (c ∷ r) plain ends = rw ends refl
behind_word-plain (c ∷ t) rest plain ends = rw plain.0 (behind_word-plain t rest plain.1 ends)

first_word-plain : (t rest : Str) → IsPlain t → Ends rest → first_word (t ++ rest) ≡ t
unfolding first_word
first_word-plain [] [] plain ends = refl
first_word-plain [] (c ∷ r) plain ends = rw ends refl
first_word-plain (c ∷ t) rest plain ends =
    rw plain.0 (ap (λ l. c ∷ l) (first_word-plain t rest plain.1 ends))

skip_separators-line :
    (w : Word) (rest : Str)
    → IsWord w
    → skip_separators (w.gap ++ (text w ++ rest)) ≡ text w ++ rest
skip_separators-line w rest ok =
    skip_separators-gap w.gap (text w ++ rest) ok.0
    ∙ skip_separators-word w.first (w.others ++ rest) ok.1.0

skip_separators-end : (end : Str) → IsGap end → skip_separators end ≡ []
unfolding skip_separators
skip_separators-end [] gap = refl
skip_separators-end (c ∷ g) gap = rw gap.0 (skip_separators-end g gap.1)

split-none : (n : ℕ) (end : Str) → IsGap end → split n end ≡ []
unfolding split
split-none zero end gap = refl
split-none (suc n) end gap = rw (split, skip_separators-end end gap) refl

-- A word that is not the last that `argv` has room for.
split-word :
    (n : ℕ) (w : Word) (rest : Str)
    → IsWord w
    → Ends rest
    → split (suc (suc n)) (w.gap ++ (text w ++ rest)) ≡ text w ∷ split (suc n) rest
unfolding split
split-word n w rest ok ends =
    rw
      (
        split,
        skip_separators-line w rest ok,
        first_word-plain (text w) rest ok.1 ends,
        behind_word-plain (text w) rest ok.1 ends,
      )
      refl

-- The last one.
split-last :
    (w : Word) (rest : Str) → IsWord w → split 1 (w.gap ++ (text w ++ rest)) ≡ (text w ++ rest) ∷ []
unfolding split
split-last w rest ok = rw (split, skip_separators-line w rest ok) refl

split-apart :
    (n : ℕ) (ws : List Word) (end : Str)
    → AllApart ws
    → IsGap end
    → length ws < n
    → split n (line_of ws end) ≡ map text ws
split-apart n [] end apart gap lt = split-none n end gap
split-apart (suc (suc n)) (w ∷ ws) end apart gap lt =
    split-word n w (line_of ws end) apart.0 (Ends-line ws end apart.2 gap)
    ∙ ap (λ l. text w ∷ l) (split-apart (suc n) ws end apart.2 gap (omega arith))
split-apart (suc zero) (w ∷ ws) end apart gap lt = absurd (omega arith)
split-apart zero (w ∷ ws) end apart gap lt = absurd (omega arith)

-- Of a line of words with separators between them, and perhaps before the first and behind the
-- last, `split` with room for more strings than there are words gives just these words, in
-- order.
pub split-line_of :
    (n : ℕ) (ws : List Word) (end : Str)
    → AllWords ws
    → IsGap end
    → length ws < n
    → split n (line_of ws end) ≡ map text ws
split-line_of n [] end words gap lt = split-none n end gap
split-line_of (suc (suc n)) (w ∷ ws) end words gap lt =
    split-word n w (line_of ws end) words.0 (Ends-line ws end words.1 gap)
    ∙ ap (λ l. text w ∷ l) (split-apart (suc n) ws end words.1 gap (omega arith))
split-line_of (suc zero) (w ∷ ws) end words gap lt = absurd (omega arith)
split-line_of zero (w ∷ ws) end words gap lt = absurd (omega arith)

split-apart_full :
    (before : List Word) (w : Word) (after : List Word) (end : Str)
    → AllApart (before ++ w ∷ after)
    → IsGap end
    → split (suc (length before)) (line_of (before ++ w ∷ after) end)
      ≡ map text before ++ (text w ++ line_of after end) ∷ []
split-apart_full [] w after end apart gap = split-last w (line_of after end) apart.0
split-apart_full (v ∷ before) w after end apart gap =
    split-word (length before) v (line_of (before ++ w ∷ after) end) apart.0
      (Ends-line (before ++ w ∷ after) end apart.2 gap)
    ∙ ap (λ l. text v ∷ l) (split-apart_full before w after end apart.2 gap)

-- With room for fewer strings than there are words, all but the last string are words, and the last is the
-- rest of the line from its word on.
pub split-full :
    (before : List Word) (w : Word) (after : List Word) (end : Str)
    → AllWords (before ++ w ∷ after)
    → IsGap end
    → split (suc (length before)) (line_of (before ++ w ∷ after) end)
      ≡ map text before ++ (text w ++ line_of after end) ∷ []
split-full [] w after end words gap = split-last w (line_of after end) words.0
split-full (v ∷ before) w after end words gap =
    split-word (length before) v (line_of (before ++ w ∷ after) end) words.0
      (Ends-line (before ++ w ∷ after) end words.1 gap)
    ∙ ap (λ l. text v ∷ l) (split-apart_full before w after end words.1 gap)
