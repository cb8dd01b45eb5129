-- ===== src/Misc/Args.antt =====
-- `my_basename` and `filter_o_opts` of src/misc.c, and `keep_option` of src/cachefs.c. The arguments are
-- copied first, so that the texts are values here, whatever the arena does with their memory.
use cachefs.Prelude.{
  ℕ, zero, suc, Bool, false, not, ◌||◌, Option, none, some, List, [], ◌∷◌, ◌++◌, length, drop,
  if◌then◌else◌, Str, bytes, str_eq, has_prefix,
}
use cachefs.Posix.Strtok.{strtok}
use cachefs.Mount.Paths.{split_last}

-- A NULL pointer is `none`.
unfoldable pub my_basename : Option Str → Option Str
my_basename none = none
my_basename (some path) = elim (split_last path) [
  | none ↦ some path
  | some (front, rest) ↦ some rest
]

-- ("-o", "...") becomes "-o...", and a "-o" at the end goes.
unfoldable pub merge_o_args : List Str → List Str
merge_o_args [] = []
merge_o_args (arg ∷ []) = if str_eq arg (bytes "-o") then [] else arg ∷ []
merge_o_args (arg ∷ next ∷ args) =
    let merged = (bytes "-o" ++ next) ∷ merge_o_args args in
    let rest = arg ∷ merge_o_args (next ∷ args) in if str_eq arg (bytes "-o") then merged else rest

module _ (keep : Str → Bool) where
  -- The kept options of a list, with fuel; each round takes at least one character.
  unfoldable pub kept_tokens : ℕ → Str → List Str
  kept_tokens zero text = []
  kept_tokens (suc fuel) text = elim (strtok b',' text) [
    | none ↦ []
    | some (tok, rest) ↦
        let later = kept_tokens fuel rest in if keep tok then tok ∷ later else later
  ]

  abbrev joined : List Str → Str
  joined [] = []
  joined (tok ∷ toks) = bytes "," ++ (tok ++ joined toks)

  -- The argument that is left of "-o...", if an option is.
  unfoldable pub filtered : Str → Option Str
  filtered arg = elim (kept_tokens (suc (length arg)) (drop 2 arg)) [
    | [] ↦ none
    | tok ∷ toks ↦ some (bytes "-o" ++ (tok ++ joined toks))
  ]

  -- Where an argument is removed, the next one takes its place and is passed over.
  unfoldable pub filter_args : List Str → List Str
  filter_args [] = []
  filter_args (arg ∷ []) =
      if has_prefix (bytes "-o") arg
      then elim (filtered arg) [ none ↦ [] | some left ↦ left ∷ [] ]
      else arg ∷ []
  filter_args (arg ∷ next ∷ args) =
      let rest = filter_args (next ∷ args) in
      let passed = next ∷ filter_args args in
      if has_prefix (bytes "-o") arg
      then elim (filtered arg) [ none ↦ passed | some left ↦ left ∷ rest ]
      else arg ∷ rest

  unfoldable pub filter_o_opts : List Str → List Str
  filter_o_opts argv = filter_args (merge_o_args argv)

-- The options that mount(8) passes on and libfuse would not take.
abbrev ignored_opts : List Str
ignored_opts =
    bytes ""
    ∷ bytes "user"
    ∷ bytes "nofail"
    ∷ bytes "nouser"
    ∷ bytes "users"
    ∷ bytes "auto"
    ∷ bytes "noauto"
    ∷ bytes "_netdev"
    ∷ []

unfoldable pub is_ignored : List Str → Str → Bool
is_ignored [] opt = false
is_ignored (o ∷ os) opt = str_eq o opt || is_ignored os opt

unfoldable pub keep_option : Str → Bool
keep_option opt = not (is_ignored ignored_opts opt)

-- The arguments for libfuse.
unfoldable pub filter_special_opts : List Str → List Str
filter_special_opts args = filter_o_opts keep_option args
