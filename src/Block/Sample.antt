-- ===== src/Block/Sample.antt =====
-- A file system in memory that behaves as src/cache_block.c relies on: files and directories are
-- functions of their path, and `qsort` is insertion sort.
use mathlib.Core.List.{
  Perm, Pairwise, Pairwise-cons, eq-or-mem_of_mem-cons, not-mem-nil, rel_of_Pairwise-cons,
}
use mathlib.Core.List.Pairwise
use native.Mathlib.Nat.{le_trans}
use mathlib.Core.List.Perm
use mathlib.Core.Logic.Or
use mathlib.Core.Option
use native.Mathlib.Bridge.{le_prop}
use cachefs.Prelude.{
  ℕ, ◌≤◌, ◌≡◌, ◌≢◌, refl, Bool, true, false, Option, none, some, List, [], ◌∷◌, arith, length, take,
  drop, Str, str_eq, str_eq_iff, str_eq_refl, if◌then◌else◌, ltb, ◌⊎◌, inl, inr, Bool-cases,
}
use cachefs.Block.{BlockInfo, Sign, BlockFs, compare_block_atime}
use cachefs.Block.Contract.{BlockFsLaws, QsortLaws, IsUnlinkable}
use cachefs.Block.ReadWrite.{take-length}

abbrev is_some {ℓ} : {A : Type ℓ} → Option A → Bool
is_some none = false
is_some (some a) = true

pub record Disk : Type 0 where
  pub file : Str → Option (List ℕ)
  pub names : Str → Option (List Str)
  pub atime : Str → ℕ

abbrev pub disk_content : Disk → Str → Option (List ℕ)
disk_content d p = d.file p

abbrev put : Disk → Str → Option (List ℕ) → Disk
put d p b = record d { file = λ q. if str_eq p q then b else d.file q }

abbrev insert_by : (BlockInfo → BlockInfo → Sign) → BlockInfo → List BlockInfo → List BlockInfo
insert_by cmp b [] = b ∷ []
insert_by cmp b (a ∷ rest) = elim (cmp a b) [
  | Sign.positive ↦ b ∷ a ∷ rest
  | _ ↦ a ∷ insert_by cmp b rest
]

abbrev sort_by : (BlockInfo → BlockInfo → Sign) → List BlockInfo → List BlockInfo
sort_by cmp [] = []
sort_by cmp (b ∷ bs) = insert_by cmp b (sort_by cmp bs)

abbrev pub disk_fs : BlockFs Disk
disk_fs = record {
  mkdir = λ d p. d;
  stat = λ d p. Option.map (λ b. record { size = length b; atime = d.atime p }) (d.file p);
  unlink = λ d p. Option.map (λ _. put d p none) (d.file p);
  open_truncated = λ d p. some (put d p (some []));
  write = λ d p b. (some (length b), put d p (some b));
  can_open = λ d p. is_some (d.file p);
  pread = λ d p n o. Option.map (λ b. take n (drop o b)) (d.file p);
  readdir = λ d p. d.names p;
  qsort = sort_by;
}

pub disk-laws : BlockFsLaws disk_fs disk_content
disk-laws = record {
  content-mkdir = λ w d p. refl;
  size-stat = λ w p. ground arith;
  content-unlink_self = λ w w' p h. ground (arith, str_eq_refl p);
  content-unlink_ne = λ w w' p q h ne. ground (arith, str_eq_iff p q);
  content-open_self = λ w w' p h. ground (arith, str_eq_refl p);
  content-open_ne = λ w w' p q h ne. ground (arith, str_eq_iff p q);
  content-write_self = λ w w' p b n h e. ground (arith, str_eq_refl p, take-length b);
  content-write_ne = λ w p q b ne. ground (arith, str_eq_iff p q);
  can_open-some = λ w p b h. ground arith;
  can_open-none = λ w p h. ground arith;
  pread-content = λ w p b n o h. ground arith;
}

pub disk-IsUnlinkable : IsUnlinkable disk_fs disk_content
disk-IsUnlinkable = record { unlinks = λ w p h e. ground arith }

abbrev Earlier : BlockInfo → BlockInfo → Type 0
Earlier a b = a.atime ≤ b.atime

compare_cases :
    (a b : BlockInfo)
    → ((compare_block_atime a b ≡ Sign.positive) × Earlier b a)
      ⊎ ((c : Sign) × (compare_block_atime a b ≡ c) × (c ≢ Sign.positive) × Earlier a b)
unfolding compare_block_atime
compare_cases a b = elim (Bool-cases (ltb b.atime a.atime)) [
  | inl later ↦ inl (ground arith, ground arith)
  | inr not_later ↦ inr (compare_block_atime a b, refl, ground arith, ground arith)
]

not_positive : (a b : BlockInfo) → Earlier a b → compare_block_atime a b ≢ Sign.positive
unfolding compare_block_atime
not_positive a b h = ground arith

insert : BlockInfo → List BlockInfo → List BlockInfo
insert = insert_by compare_block_atime

insert_lem :
    (b a : BlockInfo) (rest : List BlockInfo)
    → ((insert b (a ∷ rest) ≡ b ∷ a ∷ rest) × Earlier b a)
      ⊎ ((insert b (a ∷ rest) ≡ a ∷ insert b rest) × Earlier a b)
unfolding insert
insert_lem b a rest = elim (compare_cases a b) [
  | inl (e, h) ↦ inl (ground arith, h)
  | inr (Sign.negative, e, ne, h) ↦ inr (ground arith, h)
  | inr (Sign.zero, e, ne, h) ↦ inr (ground arith, h)
  | inr (Sign.positive, e, ne, h) ↦ absurd (ne refl)
]

insert-perm : (b : BlockInfo) (l : List BlockInfo) → Perm (insert b l) (b ∷ l)
insert-perm b [] = unfold insert in Perm.refl (b ∷ [])
insert-perm b (a ∷ rest) = elim (insert_lem b a rest) [
  | inl (e, h) ↦ rw e (Perm.refl (b ∷ a ∷ rest))
  | inr (e, h) ↦ rw e (Perm.trans (Perm.cons a (insert-perm b rest)) (Perm.swap b a rest))
]

insert-sorted :
    (b : BlockInfo) (l : List BlockInfo) → Pairwise Earlier l → Pairwise Earlier (insert b l)
insert-sorted b [] s = unfold insert in Pairwise-cons.1 (λ a m. absurd (not-mem-nil m), s)
insert-sorted b (a ∷ rest) s = elim (insert_lem b a rest) [
  | inl (e, h) ↦ rw e (
      Pairwise-cons.1 (
        λ x m.
            Or.elim le_prop (eq-or-mem_of_mem-cons m) (λ here. rw here h)
              (λ there. le_trans h (rel_of_Pairwise-cons s there)),
        s,
      ))
  | inr (e, h) ↦ rw e (
      Pairwise-cons.1 (
        λ x m.
            Or.elim le_prop (eq-or-mem_of_mem-cons ((Perm.mem_iff (insert-perm b rest)).0 m))
              (λ here. rw here h) (λ there. rel_of_Pairwise-cons s there),
        insert-sorted b rest (Pairwise.of_cons s),
      ))
]

sort-cons :
    (b : BlockInfo) (bs : List BlockInfo)
    → sort_by compare_block_atime (b ∷ bs) ≡ insert b (sort_by compare_block_atime bs)
unfolding insert
sort-cons b bs = refl

sort-perm : (bs : List BlockInfo) → Perm (sort_by compare_block_atime bs) bs
sort-perm [] = Perm.refl []
sort-perm (b ∷ bs) =
    rw (sort-cons b bs)
      (Perm.trans (insert-perm b (sort_by compare_block_atime bs)) (Perm.cons b (sort-perm bs)))

sort-sorted : (bs : List BlockInfo) → Pairwise Earlier (sort_by compare_block_atime bs)
sort-sorted [] = Pairwise.nil
sort-sorted (b ∷ bs) =
    rw (sort-cons b bs) (insert-sorted b (sort_by compare_block_atime bs) (sort-sorted bs))

pub disk-sorts : QsortLaws disk_fs
disk-sorts = record {
  qsort-perm = sort-perm;
  qsort-sorted = λ bs. Pairwise.imp not_positive (sort-sorted bs);
}
