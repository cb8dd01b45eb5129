-- ===== src/Misc/Tests.antt =====
-- src/misc.c at concrete inputs.
use cachefs.Prelude.{◌≡◌, refl, some, [], ◌∷◌, take, drop, arith, bytes, str_eq, has_prefix}
use cachefs.Posix.Strtok.{strtok}
use cachefs.Mount.Paths.{split_last}
use cachefs.Misc.Memory.{MemoryBlock, returns, unwritten, init_memory_block, append_to_memory_block}
use cachefs.Misc.Growth.{IsBlock, append_lem}
use cachefs.Misc.Args.{
  my_basename, merge_o_args, kept_tokens, filtered, filter_args, filter_o_opts, is_ignored,
  keep_option, filter_special_opts,
}

basenames : my_basename (some (bytes "/usr/bin/cachefs")) ≡ some (bytes "cachefs")
unfolding my_basename split_last
basenames = refl

filters :
    filter_special_opts (bytes "-o" ∷ bytes "ro,user,,dev" ∷ bytes "-f" ∷ bytes "-o" ∷ [])
    ≡ bytes "-oro,dev" ∷ bytes "-f" ∷ []
unfolding filter_special_opts filter_o_opts filter_args filtered kept_tokens merge_o_args
    keep_option is_ignored strtok has_prefix str_eq
filters = refl

-- The second argument is not filtered.
passes_over : filter_special_opts (bytes "-ouser" ∷ bytes "-oauto" ∷ []) ≡ bytes "-oauto" ∷ []
unfolding filter_special_opts filter_o_opts filter_args filtered kept_tokens merge_o_args
    keep_option is_ignored strtok has_prefix str_eq
passes_over = refl

abbrev fresh : MemoryBlock
unfolding init_memory_block unwritten
fresh = init_memory_block 4

fresh-IsBlock : IsBlock fresh
unfolding init_memory_block unwritten
fresh-IsBlock = record { allocated = refl; within = omega arith }

append_lem_example :
    (b : MemoryBlock) × (append_to_memory_block fresh (1 ∷ 2 ∷ 3 ∷ 4 ∷ 5 ∷ []) ≡ returns (0, b))
    × IsBlock b
    × (b.size ≡ 5)
    × (take 5 (drop 0 b.cells) ≡ some 1 ∷ some 2 ∷ some 3 ∷ some 4 ∷ some 5 ∷ [])
    × (take 0 b.cells ≡ [])
unfolding init_memory_block unwritten
append_lem_example = append_lem fresh (1 ∷ 2 ∷ 3 ∷ 4 ∷ 5 ∷ []) fresh-IsBlock (omega arith)
