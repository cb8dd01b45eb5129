-- ===== src/Block/Tests.antt =====
-- src/cache_block.c at concrete inputs, over the file system in memory.
use mathlib.Core.List.{Mem, Pairwise, Pairwise-pair, Pairwise-singleton, mem-cons_self}
use mathlib.Core.HLevel.{¬_prop}
use cachefs.Prelude.{
  ℕ, ◌+◌, ◌/◌, ◌≤◌, ◌≡◌, ◌≢◌, refl, false, inl, inr, none, some, List, [], ◌∷◌, arith, ◌∙◌, Str,
  bytes, str_eq, str_eq_sound, ap, Bool-cases, has_prefix, add64, sub64, if◌then◌else◌,
}
use cachefs.Posix.{ok}
use cachefs.Block.{
  BlockInfo, BlockCtx, hash_path, hex, decimal, get_block_path, oldest_first, evict_lru_blocks,
}
use cachefs.Block.Operations.{
  create_block_dir, write_file, cache_block_write, cache_block_read, cache_block_exists,
  drop_blocks, drop_matching, cache_block_invalidate_range, cache_block_invalidate_file,
}
use cachefs.Block.Sample.{Disk, disk_fs, disk_content, disk-laws, disk-IsUnlinkable, disk-sorts}
use cachefs.Block.ReadWrite.{read-write}
use cachefs.Block.Collision.{read_of_other_file}
use cachefs.Block.Drop.{invalidate_range_lem}
use cachefs.Block.Evict.{evict-le-target}
use cachefs.Block.Oldest.{IsEvicted, evict-oldest}
use cachefs.Block.Account.{
  size_of, total_bytes, IsAccounted, invalidate_range-IsAccounted, invalidate_file-IsAccounted,
  write_counts_old_block,
}

abbrev disk : Disk
disk = record { file = λ p. none; names = λ d. none; atime = λ p. 0 }

abbrev ctx : BlockCtx
ctx = record { blocks_dir = bytes "/c"; block_size = 4; max_cache_size = 0; current_cache_size = 0 }

path_of_block : get_block_path ctx (bytes "/a") 12 ≡ bytes "/c/70/b5/00000000005970b5-12"
unfolding get_block_path hash_path hex decimal
path_of_block = refl

abbrev holding : Str → List ℕ → Disk → Disk
holding p b d = record d { file = λ q. if str_eq p q then some b else d.file q }

-- The disk after the bytes 1, 2, 3 were written as block 0 of `/a`.
abbrev disk_a : Disk
disk_a =
    holding (get_block_path ctx (bytes "/a") 0) (1 ∷ 2 ∷ 3 ∷ [])
      (holding (get_block_path ctx (bytes "/a") 0) [] disk)

abbrev ctx_a : BlockCtx
ctx_a = record ctx { current_cache_size = 3 }

write_runs :
    cache_block_write disk_fs (some ctx) (some (bytes "/a")) 0 (some (1 ∷ 2 ∷ 3 ∷ [])) disk
    ≡ (ok, some ctx_a, disk_a)
unfolding cache_block_write write_file create_block_dir get_block_path hash_path hex decimal add64
write_runs = refl

read-write_example :
    cache_block_read disk_fs (some ctx_a) (some (bytes "/a")) 0 8 1 disk_a ≡ some (2 ∷ 3 ∷ [])
read-write_example =
    read-write disk_fs disk_content disk-laws ctx ctx_a disk disk_a (bytes "/a") 0 (1 ∷ 2 ∷ 3 ∷ [])
      8 1 (inl refl) write_runs

abbrev disk_b : Disk
disk_b =
    holding (get_block_path ctx (bytes "/Bx") 0) (9 ∷ [])
      (holding (get_block_path ctx (bytes "/Bx") 0) [] disk)

abbrev ctx_b : BlockCtx
ctx_b = record ctx { current_cache_size = 1 }

write_b_runs :
    cache_block_write disk_fs (some ctx) (some (bytes "/Bx")) 0 (some (9 ∷ [])) disk
    ≡ (ok, some ctx_b, disk_b)
unfolding cache_block_write write_file create_block_dir get_block_path hash_path hex decimal add64
write_b_runs = refl

-- What was written for `/Bx` is read for `/CW`.
read_of_other_file_example :
    cache_block_read disk_fs (some ctx_b) (some (bytes "/CW")) 0 4 0 disk_b ≡ some (9 ∷ [])
read_of_other_file_example =
    read_of_other_file (bytes "/") [] b'B' b'W' (omega arith) (omega arith) disk_fs disk_content
      disk-laws ctx ctx_b disk disk_b 0 (9 ∷ []) 4 0 (inl refl) write_b_runs

invalidate_range_lem_example :
    (c' : BlockCtx) × (w' : Disk) × (cache_block_invalidate_range disk_fs
        (some ctx_a)
        (some (bytes "/a"))
        1
        2
        disk_a
      ≡ (ok, some c', w'))
    × (cache_block_exists disk_fs (some c') (some (bytes "/a")) (2 / 4) w' ≡ false)
    × ((q : Str)
        → ((j : ℕ) → 1 / 4 ≤ j → j ≤ (1 + 2) / 4 → get_block_path ctx_a (bytes "/a") j ≢ q)
        → disk_content w' q ≡ disk_content disk_a q)
invalidate_range_lem_example =
    invalidate_range_lem disk_fs disk_content disk-laws disk-IsUnlinkable ctx_a disk_a (bytes "/a")
      1 2 2 (omega arith) (omega arith) (omega arith) (omega arith)

-- Writing block 0 of `/a` again counts its three old bytes once more.
abbrev disk_aa : Disk
disk_aa =
    holding (get_block_path ctx (bytes "/a") 0) (4 ∷ 5 ∷ [])
      (holding (get_block_path ctx (bytes "/a") 0) [] disk_a)

abbrev ctx_aa : BlockCtx
ctx_aa = record ctx { current_cache_size = 5 }

rewrite_runs :
    cache_block_write disk_fs (some ctx_a) (some (bytes "/a")) 0 (some (4 ∷ 5 ∷ [])) disk_a
    ≡ (ok, some ctx_aa, disk_aa)
unfolding cache_block_write write_file create_block_dir get_block_path hash_path hex decimal add64
rewrite_runs = refl

total_a : 3 ≡ total_bytes disk_content disk_a (get_block_path ctx_a (bytes "/a") 0 ∷ [])
unfolding get_block_path hash_path hex decimal str_eq
total_a = refl

write_counts_old_block_example :
    5
    ≡ total_bytes disk_content disk_aa (get_block_path ctx_a (bytes "/a") 0 ∷ [])
      + size_of (disk_content disk_a (get_block_path ctx_a (bytes "/a") 0))
write_counts_old_block_example =
    write_counts_old_block disk_fs disk_content disk-laws ctx_a ctx_aa disk_a disk_aa (bytes "/a") 0
      (4 ∷ 5 ∷ []) [] (Pairwise-singleton ◌≢◌ (get_block_path ctx_a (bytes "/a") 0)) total_a
      (omega arith) (inl refl) rewrite_runs

-- Two block files: `x` of three bytes, read at time 10, and `y` of two bytes, read at time 5.
abbrev disk_xy : Disk
disk_xy = record {
  file = λ p.
      if str_eq p (bytes "/c/70/b5/x")
      then some (1 ∷ 2 ∷ 3 ∷ [])
      else if str_eq p (bytes "/c/70/b5/y")
      then some (4 ∷ 5 ∷ [])
      else none;
  names = λ d.
      if str_eq d (bytes "/c")
      then some (bytes "." ∷ bytes "70" ∷ [])
      else if str_eq d (bytes "/c/70")
      then some (bytes "b5" ∷ [])
      else some (bytes "x" ∷ bytes "y" ∷ []);
  atime = λ p. if str_eq p (bytes "/c/70/b5/x") then 10 else 5;
}

abbrev ctx_xy : BlockCtx
ctx_xy = record ctx { current_cache_size = 5 }

abbrev block_x : BlockInfo
block_x = record { path = bytes "/c/70/b5/x"; atime = 10; size = 3 }

abbrev block_y : BlockInfo
block_y = record { path = bytes "/c/70/b5/y"; atime = 5; size = 2 }

scan_xy : oldest_first disk_fs disk_xy (bytes "/c") ≡ block_y ∷ block_x ∷ []
unfolding oldest_first str_eq
scan_xy = refl

distinct_xy : Pairwise (λ (a b : BlockInfo). a.path ≢ b.path) (block_y ∷ block_x ∷ [])
unfolding str_eq
distinct_xy = (Pairwise-pair (λ a b. ¬_prop)).1 (λ e. cc (ap (str_eq (bytes "/c/70/b5/x")) e))

evict-le-target_example :
    ((evict_lru_blocks disk_fs ctx_xy disk_xy 3).0 ≡ ok)
    × ((evict_lru_blocks disk_fs ctx_xy disk_xy 3).1.current_cache_size ≤ 3)
unfolding str_eq
evict-le-target_example =
    evict-le-target disk_fs disk_content disk-laws disk-IsUnlinkable disk-sorts ctx_xy disk_xy 3
      (ground arith) (rw scan_xy distinct_xy) (rw scan_xy refl) (omega arith)

evict-oldest_example :
    (gone : List BlockInfo) × (spared : List BlockInfo) × ((evict_lru_blocks disk_fs ctx_xy disk_xy
        3).0
      ≡ ok)
    × IsEvicted disk_content disk_xy
        (evict_lru_blocks disk_fs ctx_xy disk_xy 3).2
        5
        (evict_lru_blocks disk_fs ctx_xy disk_xy 3).1.current_cache_size
        3
        (oldest_first disk_fs disk_xy (bytes "/c"))
        gone
        spared
    × ((a : BlockInfo) → Mem a gone → (b : BlockInfo) → Mem b spared → a.atime ≤ b.atime)
unfolding str_eq
evict-oldest_example =
    evict-oldest disk_content disk_fs disk-laws disk-IsUnlinkable disk-sorts ctx_xy disk_xy 3
      (ground arith) (rw scan_xy distinct_xy) (rw scan_xy (omega arith)) (omega arith) (omega arith)

-- Only `y` goes: the size is then the target.
evict_y :
    ((evict_lru_blocks disk_fs ctx_xy disk_xy 3).1 ≡ record ctx { current_cache_size = 3 })
    × (disk_content (evict_lru_blocks disk_fs ctx_xy disk_xy 3).2 (bytes "/c/70/b5/y") ≡ none)
    × (disk_content (evict_lru_blocks disk_fs ctx_xy disk_xy 3).2 (bytes "/c/70/b5/x")
        ≡ some (1 ∷ 2 ∷ 3 ∷ []))
unfolding evict_lru_blocks str_eq sub64 add64
evict_y = (refl, refl, refl)

abbrev Anywhere : Str → Type 0
Anywhere p = Unit

holding_ne :
    (p q : Str) (b : List ℕ) (d : Disk) → str_eq p q ≡ false → (holding p b d).file q ≡ d.file q
holding_ne p q b d e = rw e

IsAccounted-disk_a :
    IsAccounted disk_content Anywhere (get_block_path ctx_a (bytes "/a") 0 ∷ []) ctx_a disk_a
unfolding get_block_path
IsAccounted-disk_a = record {
  counts = total_a;
  fits = omega arith;
  listed = λ q own there. elim (Bool-cases (str_eq (get_block_path ctx_a (bytes "/a") 0) q)) [
    | inl e ↦ rw (← str_eq_sound (get_block_path ctx_a (bytes "/a") 0) q e) mem-cons_self
    | inr e ↦
        absurd
          (there (holding_ne p q (1 ∷ 2 ∷ 3 ∷ []) (holding p [] disk) e ∙ holding_ne p q [] disk e))
  ];
}
  where
    p : Str
    p = get_block_path ctx_a (bytes "/a") 0

single_a : Pairwise ◌≢◌ (get_block_path ctx_a (bytes "/a") 0 ∷ [])
single_a = Pairwise-singleton ◌≢◌ (get_block_path ctx_a (bytes "/a") 0)

abbrev disk_dropped : Disk
disk_dropped = record disk_a {
  file = λ q. if str_eq (get_block_path ctx (bytes "/a") 0) q then none else disk_a.file q;
}

invalidate_range-IsAccounted_example :
    IsAccounted disk_content Anywhere (get_block_path ctx_a (bytes "/a") 0 ∷ []) ctx disk_dropped
unfolding cache_block_invalidate_range drop_blocks get_block_path hash_path hex decimal str_eq sub64
    add64
invalidate_range-IsAccounted_example =
    invalidate_range-IsAccounted disk_fs disk_content disk-laws Anywhere
      (get_block_path ctx_a (bytes "/a") 0 ∷ []) single_a ctx_a ctx disk_a disk_dropped (bytes "/a")
      1 2 (λ j. tt) IsAccounted-disk_a refl

-- The disk with its hash directories listed.
abbrev listing : Disk → Disk
listing d = record d { names = λ q. some (bytes "00000000005970b5-0" ∷ []) }

invalidate_file-IsAccounted_example :
    IsAccounted disk_content Anywhere
      (get_block_path ctx_a (bytes "/a") 0 ∷ [])
      ctx
      (listing disk_dropped)
unfolding cache_block_invalidate_file drop_matching get_block_path hash_path hex decimal str_eq
    has_prefix sub64 add64
invalidate_file-IsAccounted_example =
    invalidate_file-IsAccounted disk_fs disk_content disk-laws Anywhere
      (get_block_path ctx_a (bytes "/a") 0 ∷ []) single_a ctx_a ctx (listing disk_a)
      (listing disk_dropped) (bytes "/a") (λ n. tt)
      (record {
        counts = IsAccounted-disk_a.counts;
        fits = IsAccounted-disk_a.fits;
        listed = IsAccounted-disk_a.listed;
      })
      refl
