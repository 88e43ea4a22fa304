-- ===== src/Fs/Dirent/Directory.antt =====
-- A directory block as a finite map from names to inode numbers.
use mathlib.Core.Option
use cs5600_computer_systems.Prelude.{
  ℕ, ◌≤◌, ◌<◌, ◌≡◌, ◌≢◌, refl, Bool, true, false, ◌&&◌, Option, none, some, arith, Str, length,
  ◌==◌, if◌then◌else◌, Bool-cases, Option-cases, inl, inr, ap, ◌∙◌, sym, subst, str_eq, str_eq_refl,
  str_eq_sound, FirstFrom, find_from-same, find_from-only, find_from-none,
}
use cs5600_computer_systems.Fs.Block.{Block}
use cs5600_computer_systems.Fs.Dirent.{
  matches, name, valid, inode_num, find_entry, put_name, put_entry, clear_valid, max_name_len,
}
use cs5600_computer_systems.Fs.Dirent.Find.{
  find_entry-first, find_entry-put_entry_self, find_entry-put_entry_ne, find_entry-clear_valid_ne,
  str_ne, absent, if_eq-same, if_lt-false, if_eq-true,
}
use cs5600_computer_systems.Fs.Dirent.Slots.{
  IsDirBlock, IsBytes, IsText, inode_num-put_entry, inode_num-put_name,
}
use cs5600_computer_systems.Fs.Dirent.Matches.{
  matches-put_name, matches-clear_valid, inode_num-clear_valid,
}

-- The inode number that the directory has under a name.
unfoldable pub lookup_in : Block → Str → Option ℕ
lookup_in d t = Option.map (inode_num d) (find_entry d t)

-- No two valid entries have one name.
abbrev pub IsUnique : Block → Type 0
IsUnique d =
    (i j : ℕ) (t : Str) → i < 128 → j < 128 → matches d t i ≡ true → matches d t j ≡ true → i ≡ j

-- The entry that `find_entry` returns is in the block, and answers to the name.
pub find_entry-hit :
    (d : Block) (t : Str) (i : ℕ) → find_entry d t ≡ some i → (i < 128) × (matches d t i ≡ true)
find_entry-hit d t i e =
    let (lo, hi, hit, before) = subst (FirstFrom (matches d t) 128 0) e (find_entry-first d t) in
    (omega arith, hit)

pub lookup_in-found :
    (d : Block) (t : Str) (i : ℕ) → find_entry d t ≡ some i → lookup_in d t ≡ some (inode_num d i)
unfolding lookup_in
lookup_in-found d t i e = rw e

pub lookup_in-absent : (d : Block) (t : Str) → find_entry d t ≡ none → lookup_in d t ≡ none
unfolding lookup_in
lookup_in-absent d t e = rw e

-- Two blocks that find a name in one entry, with one inode number there, agree on the name.
lookup_in-same :
    (d e : Block) (t : Str)
    → find_entry d t ≡ find_entry e t
    → ((i : ℕ) → find_entry e t ≡ some i → inode_num d i ≡ inode_num e i)
    → lookup_in d t ≡ lookup_in e t
lookup_in-same d e t same nums = elim (Option-cases (find_entry e t)) [
  | inl none_there ↦
      lookup_in-absent d t (same ∙ none_there) ∙ sym (lookup_in-absent e t none_there)
  | inr (i, there) ↦
      lookup_in-found d t i (same ∙ there)
      ∙ ap some (nums i there)
      ∙ sym (lookup_in-found e t i there)
]

valid-hit : (d : Block) (t : Str) (i : ℕ) → matches d t i ≡ true → valid d i ≡ true
unfolding matches
valid-hit d t i h = ground arith

-- In a block of entries whose names all end in a NUL, filling a free entry with an inode number
-- below 2 ^ 31 and a name of at most 27 bytes that is not there adds this binding to the block's
-- map from names to inode numbers, and changes no other.
pub lookup_in-put_entry :
    (d : Block) (i inum : ℕ) (s t : Str)
    → IsDirBlock d
    → i < 128
    → valid d i ≡ false
    → inum < 2147483648
    → IsText s
    → length s ≤ max_name_len
    → find_entry d s ≡ none
    → lookup_in (put_entry d i inum s) t ≡ (if str_eq s t then some inum else lookup_in d t)
lookup_in-put_entry d i inum s t dir li free small text fits new = elim (Bool-cases (str_eq s t)) [
  | inl same ↦ rw same (
      subst (λ u. lookup_in (put_entry d i inum s) u ≡ some inum) (str_eq_sound s t same)
        (lookup_in-found (put_entry d i inum s) s i
            (find_entry-put_entry_self d i inum s dir li text fits new)
          ∙ ap some (inode_num-put_entry d i i inum s small ∙ ground arith)))
  | inr other ↦ rw other (
      lookup_in-same (put_entry d i inum s) d t
        (find_entry-put_entry_ne d i inum s dir li text fits t free (str_ne s t other))
        (λ k hit.
          inode_num-put_entry d i k inum s small
          ∙ if_eq-same i k inum (inode_num d k) (λ e.
            let used : valid d i ≡ true =
              subst (λ m. valid d m ≡ true) (sym e)
                (valid-hit d t k (find_entry-hit d t k hit).1) in
            cc)))
]

-- An entry answers to no name but its own.
matches-other :
    (d : Block) (s t : Str) (i : ℕ)
    → matches d s i ≡ true
    → str_eq s t ≡ false
    → matches d t i ≡ false
unfolding matches
matches-other d s t i h other =
    let own : name d i ≡ s = str_eq_sound (name d i) s (ground arith) in
    rw (own, other) (ground arith)

if_hit-false :
    (i k : ℕ) (b c : Bool)
    → (i ≡ k → b ≡ false)
    → (i ≢ k → c ≡ false)
    → (if i == k then b else c) ≡ false
if_hit-false i k b c h g = ground arith

-- Where an entry has a name, no other entry answers to it.
unique-other :
    (d : Block) (i k : ℕ) (t : Str)
    → IsUnique d
    → i < 128
    → k < 128
    → matches d t i ≡ true
    → i ≢ k
    → matches d t k ≡ false
unique-other d i k t unique li lk h ne = elim (Bool-cases (matches d t k)) [
  | inl both ↦ absurd (ne (unique i k t li lk h both))
  | inr miss ↦ miss
]

and-false : (b : Bool) → (b && false) ≡ false
and-false b = ground arith

module _ (d : Block) (i : ℕ) (s t : Str) (dir : IsDirBlock d) (unique : IsUnique d)
    (here : find_entry d s ≡ some i) where
  clear_valid-none : IsBytes d → find_entry (clear_valid d i) s ≡ none
  unfolding find_entry
  clear_valid-none bytes =
      let (li, hit) = find_entry-hit d s i here in
      find_from-none (matches (clear_valid d i) s) 128 0 λ k lo hi.
        matches-clear_valid d i k s dir bytes (omega arith)
        ∙ if_hit-false i k false (matches d s k) (λ e. refl)
            (unique-other d i k s unique li (omega arith) hit)

  -- In a block of bytes whose names all end in a NUL and are distinct, clearing the valid bit of
  -- the entry that `find_entry` finds for a name removes the binding of that name from the
  -- block's map, and changes no other.
  pub lookup_in-clear_valid :
      IsBytes d → lookup_in (clear_valid d i) t ≡ (if str_eq s t then none else lookup_in d t)
  lookup_in-clear_valid bytes = elim (Bool-cases (str_eq s t)) [
    | inl same ↦ rw same (
        subst (λ u. lookup_in (clear_valid d i) u ≡ none) (str_eq_sound s t same)
          (lookup_in-absent (clear_valid d i) s (clear_valid-none bytes)))
    | inr other ↦
        let miss : matches d t i ≡ false =
          matches-other d s t i (find_entry-hit d s i here).1 other in
        rw other (
          lookup_in-same (clear_valid d i) d t (find_entry-clear_valid_ne d i t dir bytes miss)
            (λ k hit. inode_num-clear_valid d i k (λ e.
              let yes_there : matches d t i ≡ true =
                subst (λ m. matches d t m ≡ true) (sym e) (find_entry-hit d t k hit).1 in
              cc)))
  ]

  module _ (r : Str) (text : IsText r) (fits : length r ≤ max_name_len)
      (new : find_entry d r ≡ none) where
    put_name-new : find_entry (put_name d i r) r ≡ some i
    unfolding find_entry
    put_name-new =
        let (li, hit) = find_entry-hit d s i here in
        find_from-only (matches (put_name d i r) r) 128 0 i (omega arith) (omega arith)
          (matches-put_name d i i r r dir li li text fits
            ∙ if_eq-true i (valid d i && str_eq r r) (matches d r i)
                (rw (valid-hit d s i hit, str_eq_refl r)))
          (λ k lo hi.
            matches-put_name d i k r r dir li (omega arith) text fits
            ∙ if_lt-false i k (valid d i && str_eq r r) (matches d r k) hi
                (absent d r k new (omega arith)))

    put_name-old : str_eq r s ≡ false → find_entry (put_name d i r) s ≡ none
    unfolding find_entry
    put_name-old ne =
        let (li, hit) = find_entry-hit d s i here in
        find_from-none (matches (put_name d i r) s) 128 0 λ k lo hi.
          matches-put_name d i k r s dir li (omega arith) text fits
          ∙ if_hit-false i k (valid d i && str_eq r s) (matches d s k)
              (λ e. rw ne (and-false (valid d i)))
              (unique-other d i k s unique li (omega arith) hit)

    put_name-rest :
        str_eq r t ≡ false → str_eq s t ≡ false → find_entry (put_name d i r) t ≡ find_entry d t
    unfolding find_entry
    put_name-rest ner nes =
        let (li, hit) = find_entry-hit d s i here in
        find_from-same (matches (put_name d i r) t) (matches d t) 128 0 λ k lo hi.
          matches-put_name d i k r t dir li (omega arith) text fits
          ∙ if_eq-same i k (valid d i && str_eq r t) (matches d t k) (λ e. rw ner (
              and-false (valid d i)
              ∙ sym (subst (λ m. matches d t m ≡ false) e (matches-other d s t i hit nes))))

    -- In a block of entries whose names all end in a NUL and are distinct, giving the entry of
    -- the name `s` a name `r` of at most 27 bytes that is not there binds `r` to what `s` was
    -- bound to, unbinds `s`, and changes no other binding.
    pub lookup_in-put_name :
        lookup_in (put_name d i r) t
        ≡ (if str_eq r t then lookup_in d s else if str_eq s t then none else lookup_in d t)
    lookup_in-put_name = elim (Bool-cases (str_eq r t)) [
      | inl target ↦ rw target (
          subst (λ u. lookup_in (put_name d i r) u ≡ lookup_in d s) (str_eq_sound r t target)
            (lookup_in-found (put_name d i r) r i put_name-new
              ∙ ap some (inode_num-put_name d i i r)
              ∙ sym (lookup_in-found d s i here)))
      | inr other ↦ rw other (elim (Bool-cases (str_eq s t)) [
        | inl source ↦
            let e : s ≡ t = str_eq_sound s t source in
            rw source (
              subst (λ u. lookup_in (put_name d i r) u ≡ none) e
                (lookup_in-absent (put_name d i r) s
                  (put_name-old (subst (λ u. str_eq r u ≡ false) (sym e) other))))
        | inr rest ↦ rw rest (
            lookup_in-same (put_name d i r) d t (put_name-rest other rest)
              (λ k hit. inode_num-put_name d i k r))
      ])
    ]
