-- ===== src/Fs/Dirent/Find.antt =====
-- The loops over the 128 entries of a directory block.
use cs5600_computer_systems.Prelude.{
  ℕ, ◌≤◌, ◌<◌, ◌≡◌, ◌≢◌, Bool, true, false, not, none, some, arith, Str, length, ◌==◌,
  if◌then◌else◌, Bool-cases, inl, inr, subst, ◌∙◌, sym, str_eq, str_eq_refl, str_eq_sound,
  FirstFrom, find_from-FirstFrom, find_from-same, find_from-only,
}
use cs5600_computer_systems.Fs.Block.{Block}
use cs5600_computer_systems.Fs.Dirent.{
  matches, valid, find_entry, find_free, find_valid, put_entry, clear_valid, max_name_len,
}
use cs5600_computer_systems.Fs.Dirent.Slots.{IsDirBlock, IsBytes, IsText}
use cs5600_computer_systems.Fs.Dirent.Matches.{matches-put_entry, matches-clear_valid}

pub find_entry-first :
    (d : Block) (leaf : Str) → FirstFrom (matches d leaf) 128 0 (find_entry d leaf)
unfolding find_entry
find_entry-first d leaf = find_from-FirstFrom (matches d leaf) 128 0

pub find_free-first : (d : Block) → FirstFrom (λ i. not (valid d i)) 128 0 (find_free d)
unfolding find_free
find_free-first d = find_from-FirstFrom (λ i. not (valid d i)) 128 0

pub find_valid-first : (d : Block) → FirstFrom (valid d) 128 0 (find_valid d)
unfolding find_valid
find_valid-first d = find_from-FirstFrom (valid d) 128 0

pub if_eq-true : (i : ℕ) (b c : Bool) → b ≡ true → (if i == i then b else c) ≡ true
if_eq-true i b c h = ground arith

pub if_lt-false : (i k : ℕ) (b c : Bool) → k < i → c ≡ false → (if i == k then b else c) ≡ false
if_lt-false i k b c lt h = ground arith

pub if_eq-same : {A : Type 0} (i k : ℕ) (b c : A) → (i ≡ k → b ≡ c) → (if i == k then b else c) ≡ c
if_eq-same i k b c h = ground arith

pub str_eq-ne : (s t : Str) → s ≢ t → str_eq s t ≡ false
str_eq-ne s t ne = elim (Bool-cases (str_eq s t)) [
  | inl e ↦ absurd (ne (str_eq_sound s t e))
  | inr e ↦ e
]

pub str_ne : (s t : Str) → str_eq s t ≡ false → s ≢ t
str_ne s t h e = let r : str_eq s t ≡ true = subst (λ u. str_eq s u ≡ true) e (str_eq_refl s) in cc

pub matches-invalid : (d : Block) (t : Str) (i : ℕ) → valid d i ≡ false → matches d t i ≡ false
unfolding matches
matches-invalid d t i h = rw h

pub absent : (d : Block) (t : Str) (k : ℕ) → find_entry d t ≡ none → k < 128 → matches d t k ≡ false
absent d t k e lt =
    let all : FirstFrom (matches d t) 128 0 none = rw e at (find_entry-first d t) in
    all k (omega arith) (omega arith)

module _ (d : Block) (i inum : ℕ) (s : Str) (dir : IsDirBlock d) (li : i < 128) (text : IsText s)
    (fits : length s ≤ max_name_len) where
  -- A name that was not in the directory is found where it was put.
  pub find_entry-put_entry_self :
      find_entry d s ≡ none → find_entry (put_entry d i inum s) s ≡ some i
  unfolding find_entry
  find_entry-put_entry_self unused =
      find_from-only (matches (put_entry d i inum s) s) 128 0 i (omega arith) (omega arith)
        (matches-put_entry d i i inum s s dir li li text fits
          ∙ if_eq-true i (str_eq s s) (matches d s i) (str_eq_refl s))
        (λ k lo hi.
          matches-put_entry d i k inum s s dir li (omega arith) text fits
          ∙ if_lt-false i k (str_eq s s) (matches d s k) hi (absent d s k unused (omega arith)))

  -- Every other name is found where it was, if the entry that was filled was free.
  pub find_entry-put_entry_ne :
      (t : Str) → valid d i ≡ false → s ≢ t → find_entry (put_entry d i inum s) t ≡ find_entry d t
  unfolding find_entry
  find_entry-put_entry_ne t free ne =
      find_from-same (matches (put_entry d i inum s) t) (matches d t) 128 0 λ k lo hi.
        matches-put_entry d i k inum s t dir li (omega arith) text fits
        ∙ if_eq-same i k (str_eq s t) (matches d t k)
            (λ e. str_eq-ne s t ne ∙ sym (rw (← e) (matches-invalid d t i free)))

-- A name whose entries were all freed is no longer found, and every other name is found where it was.
module _ (d : Block) (i : ℕ) (t : Str) (dir : IsDirBlock d) (bytes : IsBytes d) where
  pub find_entry-clear_valid_ne :
      matches d t i ≡ false → find_entry (clear_valid d i) t ≡ find_entry d t
  unfolding find_entry
  find_entry-clear_valid_ne other =
      find_from-same (matches (clear_valid d i) t) (matches d t) 128 0 λ k lo hi.
        matches-clear_valid d i k t dir bytes (omega arith)
        ∙ if_eq-same i k false (matches d t k) (λ e. sym (rw (← e) other))
