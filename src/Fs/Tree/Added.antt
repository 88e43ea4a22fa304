-- ===== src/Fs/Tree/Added.antt =====
-- A directory after an entry was filled: it has one child more.
use cs5600_computer_systems.Prelude.{
  ℕ, ◌<◌, ◌≤◌, ◌≡◌, ◌≢◌, Bool, true, false, not, none, some, arith, Str, length, str_eq,
  str_eq_refl, if◌then◌else◌, ◌∙◌, sym, subst, ◌↔◌, FirstFrom,
}
use cs5600_computer_systems.Fs.Block.{Block}
use cs5600_computer_systems.Fs.Host.{Host}
use cs5600_computer_systems.Fs.Dirent.{valid, find_entry, find_free, put_entry, max_name_len}
use cs5600_computer_systems.Fs.Dirent.Slots.{IsText, put_entry-IsDirBlock}
use cs5600_computer_systems.Fs.Dirent.Find.{find_free-first, str_eq-ne}
use cs5600_computer_systems.Fs.Dirent.Directory.{lookup_in, lookup_in-put_entry}
use cs5600_computer_systems.Fs.Disk.{Fs}
use cs5600_computer_systems.Fs.Path.Resolves.{Child}
use cs5600_computer_systems.Fs.Writes.{IsReliable, with_block}
use cs5600_computer_systems.Fs.Tree.{IsDirectory, Child-lookup_in, IsDirectory-entries}

-- After the new entry was written: the directory has one child more, `i` under the name `leaf`, and
-- the children of the other names are those of before.
pub record HasNewChild ⦃H : Host⦄ (s s' : Fs) (parent : ℕ) (leaf : Str) (i : ℕ) : Type 0 where
  pub entry : Child s' parent leaf i
  pub others : (t : Str) (j : ℕ) → leaf ≢ t → Child s' parent t j ↔ Child s parent t j

if_true : {A : Type 0} (b : Bool) (x y : A) → b ≡ true → (if b then x else y) ≡ x
if_true b x y h = rw h

if_false : {A : Type 0} (b : Bool) (x y : A) → b ≡ false → (if b then x else y) ≡ y
if_false b x y h = rw h

pub free_slot :
    (d : Block) (slot : ℕ) → find_free d ≡ some slot → (slot < 128) × (valid d slot ≡ false)
free_slot d slot free =
    let (lo, hi, hit, before) =
      subst (FirstFrom (λ k. not (valid d k)) 128 0) free (find_free-first d) in
    (omega arith, ground arith)

module _ ⦃H : Host⦄ (io : IsReliable) (s t : Fs) (m : Block) (parent block : ℕ) (d : Block)
    (dir : IsDirectory s m parent block d) (mid : IsDirectory t m parent block d) (leaf : Str)
    (text : IsText leaf) (fits : length leaf ≤ max_name_len) (new : find_entry d leaf ≡ none)
    (i slot : ℕ) (small : i < 2147483648) (free : find_free d ≡ some slot) where
  binding :
      (u : Str)
      → lookup_in (put_entry d slot i leaf) u ≡ (if str_eq leaf u then some i else lookup_in d u)
  binding u =
      let (lt, unused) = free_slot d slot free in
      lookup_in-put_entry d slot i leaf u dir.names lt unused small text fits new

  after :
      IsDirectory
        (with_block block (put_entry d slot i leaf) t)
        m
        parent
        block
        (put_entry d slot i leaf)
  after =
      IsDirectory-entries io t m parent block d mid (put_entry d slot i leaf)
        (put_entry-IsDirBlock d slot i leaf dir.names)

  pub entry-HasNewChild : HasNewChild s (with_block block (put_entry d slot i leaf) t) parent leaf i
  entry-HasNewChild = record {
    entry =
        (Child-lookup_in after leaf i).1 (
          binding leaf ∙ if_true (str_eq leaf leaf) (some i) (lookup_in d leaf) (str_eq_refl leaf));
    others = λ u j ne.
        let same : lookup_in (put_entry d slot i leaf) u ≡ lookup_in d u =
          binding u ∙ if_false (str_eq leaf u) (some i) (lookup_in d u) (str_eq-ne leaf u ne) in
        (
          λ c. (Child-lookup_in dir u j).1 (sym same ∙ (Child-lookup_in after u j).0 c),
          λ c. (Child-lookup_in after u j).1 (same ∙ (Child-lookup_in dir u j).0 c),
        );
  }
