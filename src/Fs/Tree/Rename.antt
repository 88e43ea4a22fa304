-- ===== src/Fs/Tree/Rename.antt =====
-- `fs_rename` on a sound parent directory.
use cs5600_computer_systems.Prelude.{
  ℕ, zero, suc, ◌+◌, ◌<◌, ◌≤◌, ◌≡◌, ◌≢◌, refl, Bool, true, false, ◌||◌, none, some, arith, Str,
  length, str_eq, str_eq_refl, if◌then◌else◌, ap, ◌∙◌, sym, subst, ◌↔◌, ◌⊎◌, ◌==◌, ==_iff,
  Bool-cases, inl, inr,
}
use cs5600_computer_systems.Fs.Block.{Block}
use cs5600_computer_systems.Fs.Host.{Host}
use cs5600_computer_systems.Fs.Dirent.{matches, find_entry, put_name, max_name_len}
use cs5600_computer_systems.Fs.Dirent.Slots.{IsText, put_name-IsDirBlock}
use cs5600_computer_systems.Fs.Dirent.Find.{str_eq-ne, absent}
use cs5600_computer_systems.Fs.Dirent.Directory.{
  IsUnique, lookup_in, lookup_in-put_name, find_entry-hit,
}
use cs5600_computer_systems.Fs.Disk.{Fs}
use cs5600_computer_systems.Fs.Path.{lookup_parent}
use cs5600_computer_systems.Fs.Path.Resolves.{Child, block_read-Holds, read_inode-Holds}
use cs5600_computer_systems.Fs.Namespace.{rename_scan, rename_in, fs_rename}
use cs5600_computer_systems.Fs.Writes.{IsReliable, with_block, block_write-done}
use cs5600_computer_systems.Fs.Tree.{IsDirectory, Child-lookup_in, IsDirectory-entries}
use cs5600_computer_systems.Fs.Action.{done, failed, eexist, enoent}

or_true : (b : Bool) → (b || true) ≡ true
or_true b = ground arith

-- With no entry of the destination's name the scan says whether the source was met.
scan-new :
    (d : Block) (src dst : Str) (n i : ℕ) (found : Bool)
    → ((k : ℕ) → i ≤ k → k < i + n → matches d dst k ≡ false)
    → (found ≡ true) ⊎ ((k : ℕ) × (i ≤ k) × (k < i + n) × (matches d src k ≡ true))
    → rename_scan d src dst n i found ≡ some true
unfolding rename_scan
scan-new d src dst zero i found new (inl h) = ap some h
scan-new d src dst zero i found new (inr (k, lo, hi, hit)) = absurd (omega arith)
scan-new d src dst (suc n) i found new h = rw (new i (omega arith) (omega arith)) (
    scan-new d src dst n (i + 1) (matches d src i || found)
      (λ k lo hi. new k (omega arith) (omega arith)) (later h))
  where
    later :
        (found ≡ true) ⊎ ((k : ℕ) × (i ≤ k) × (k < i + suc n) × (matches d src k ≡ true))
        → ((matches d src i || found) ≡ true)
          ⊎ ((k : ℕ) × (i + 1 ≤ k) × (k < i + 1 + n) × (matches d src k ≡ true))
    later (inl e) = inl (rw e (or_true (matches d src i)))
    later (inr (k, lo, hi, hit)) = elim (Bool-cases (i == k)) [
      | inl same ↦ inl (rw (subst (λ j. matches d src j ≡ true) (sym ((==_iff i k).0 same)) hit))
      | inr other ↦ inr (k, ground arith, omega arith, hit)
    ]

-- With neither name there the scan finds nothing.
scan-missing :
    (d : Block) (src dst : Str) (n i : ℕ)
    → ((k : ℕ) → i ≤ k → k < i + n → matches d dst k ≡ false)
    → ((k : ℕ) → i ≤ k → k < i + n → matches d src k ≡ false)
    → rename_scan d src dst n i false ≡ some false
unfolding rename_scan
scan-missing d src dst zero i new none_src = refl
scan-missing d src dst (suc n) i new none_src =
    rw (new i (omega arith) (omega arith), none_src i (omega arith) (omega arith))
      (scan-missing d src dst n (i + 1) (λ k lo hi. new k (omega arith) (omega arith))
        (λ k lo hi. none_src k (omega arith) (omega arith)))

-- With an entry of the destination's name it stops there.
scan-exists :
    (d : Block) (src dst : Str) (n i k : ℕ) (found : Bool)
    → i ≤ k
    → k < i + n
    → matches d dst k ≡ true
    → rename_scan d src dst n i found ≡ none
unfolding rename_scan
scan-exists d src dst zero i k found lo hi hit = absurd (omega arith)
scan-exists d src dst (suc n) i k found lo hi hit = elim (Bool-cases (matches d dst i)) [
  | inl now ↦ rw now
  | inr miss ↦
      rw miss (
        scan-exists d src dst n (i + 1) k (matches d src i || found) (passed miss) (omega arith)
          hit)
]
  where
    passed : matches d dst i ≡ false → i + 1 ≤ k
    passed miss = elim (Bool-cases (i == k)) [
      | inl same ↦ cc (subst (λ j. matches d dst j ≡ false) ((==_iff i k).0 same) miss, hit)
      | inr other ↦ ground arith
    ]

-- What `fs_rename` leaves behind: the child of the old name stands under the new one, and the
-- children of all other names are those of before.
pub record Renamed ⦃H : Host⦄ (s s' : Fs) (parent : ℕ) (src dst : Str) : Type 0 where
  pub moved : (j : ℕ) → Child s' parent dst j ↔ Child s parent src j
  pub gone : (j : ℕ) → Child s' parent src j → ⊥
  pub others : (t : Str) (j : ℕ) → src ≢ t → dst ≢ t → Child s' parent t j ↔ Child s parent t j

if_self : {A : Type 0} (t : Str) (x y : A) → (if str_eq t t then x else y) ≡ x
if_self t x y = rw (str_eq_refl t)

if_other : {A : Type 0} (t u : Str) (x y : A) → t ≢ u → (if str_eq t u then x else y) ≡ y
if_other t u x y ne = rw (str_eq-ne t u ne)

module _ ⦃H : Host⦄ (s : Fs) (m : Block) (parent block : ℕ) (d : Block)
    (dir : IsDirectory s m parent block d) (src_path dst_path src dst : Str)
    (src_at : lookup_parent src_path s ≡ done (parent, src) s)
    (dst_at : lookup_parent dst_path s ≡ done (parent, dst) s) where
  same_parent : (parent == parent) ≡ true
  same_parent = ground arith

  to_rename_in : fs_rename src_path dst_path s ≡ rename_in block d src dst s
  unfolding fs_rename
  to_rename_in = rw (
    src_at,
    dst_at,
    same_parent,
    read_inode-Holds s parent dir.inode,
    dir.first,
    block_read-Holds s block dir.listing,
  )

  -- With both paths in one sound directory that has an entry of the destination, `fs_rename`
  -- fails with EEXIST and changes nothing, whether or not the source is there.
  pub fs_rename-exists :
      (k : ℕ) → find_entry d dst ≡ some k → fs_rename src_path dst_path s ≡ failed eexist s
  unfolding rename_in
  fs_rename-exists k old =
      let (lt, hit) = find_entry-hit d dst k old in
      to_rename_in
      ∙ rw (scan-exists d src dst 128 0 k false (omega arith) (omega arith) hit, rename_in)

  -- With both paths in one sound directory that has neither the source nor the destination,
  -- `fs_rename` fails with ENOENT and changes nothing.
  pub fs_rename-missing :
      find_entry d src ≡ none
      → find_entry d dst ≡ none
      → fs_rename src_path dst_path s ≡ failed enoent s
  unfolding rename_in
  fs_rename-missing no_src no_dst =
      to_rename_in
      ∙ rw (
        scan-missing d src dst 128 0 (λ k lo hi. absent d dst k no_dst (omega arith))
            (λ k lo hi. absent d src k no_src (omega arith)),
        rename_in,
      )

  module _ (io : IsReliable) (unique : IsUnique d) (text : IsText dst)
      (fits : length dst ≤ max_name_len) (slot : ℕ) (here : find_entry d src ≡ some slot)
      (new : find_entry d dst ≡ none) where
    binding :
        (u : Str)
        → lookup_in (put_name d slot dst) u
          ≡ (if str_eq dst u then lookup_in d src else if str_eq src u then none else lookup_in d u)
    binding u = lookup_in-put_name d slot src u dir.names unique here dst text fits new

    after :
        IsDirectory (with_block block (put_name d slot dst) s) m parent block (put_name d slot dst)
    after =
        IsDirectory-entries io s m parent block d dir (put_name d slot dst)
          (put_name-IsDirBlock d slot dst dir.names)

    rename_in-done :
        rename_in block d src dst s ≡ done tt (with_block block (put_name d slot dst) s)
    unfolding rename_in
    rename_in-done =
        let (lt, hit) = find_entry-hit d src slot here in
        rw
          (
            scan-new d src dst 128 0 false (λ k lo hi. absent d dst k new (omega arith))
                (inr (slot, omega arith, omega arith, hit)),
            rename_in,
            here,
          )
          (block_write-done io (put_name d slot dst) block s (omega (arith, dir.block_above))
            dir.block_below)

    -- On a disk whose writes succeed, with both paths in one sound directory whose entries have
    -- distinct names, an entry of the source, none of the destination, and the destination a
    -- text of at most 27 bytes other than the source: `fs_rename` succeeds; the child of the
    -- source stands under the destination, the source is gone, and the children of all other
    -- names are as before.
    pub fs_rename-Renamed :
        dst ≢ src
        → (s' : Fs) × (fs_rename src_path dst_path s ≡ done tt s') × Renamed s s' parent src dst
    fs_rename-Renamed ne = (
      with_block block (put_name d slot dst) s,
      to_rename_in ∙ rename_in-done,
      record {
        moved = λ j.
            let same : lookup_in (put_name d slot dst) dst ≡ lookup_in d src =
              binding dst ∙ if_self dst (lookup_in d src) _ in
            (
              λ c. (Child-lookup_in dir src j).1 (sym same ∙ (Child-lookup_in after dst j).0 c),
              λ c. (Child-lookup_in after dst j).1 (same ∙ (Child-lookup_in dir src j).0 c),
            );
        gone = λ j c. cc (
          (Child-lookup_in after src j).0 c,
          binding src,
          if_other dst src (lookup_in d src) (if str_eq src src then none else lookup_in d src) ne,
          if_self src none (lookup_in d src),
        );
        others = λ u j nes ned.
            let same : lookup_in (put_name d slot dst) u ≡ lookup_in d u =
              binding u
              ∙ if_other dst u (lookup_in d src) _ ned
              ∙ if_other src u none (lookup_in d u) nes in
            (
              λ c. (Child-lookup_in dir u j).1 (sym same ∙ (Child-lookup_in after u j).0 c),
              λ c. (Child-lookup_in after u j).1 (same ∙ (Child-lookup_in dir u j).0 c),
            );
      },
    )
