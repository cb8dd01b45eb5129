-- ===== src/Options/Start.antt =====
-- `main` of src/cachefs.c between the start and fuse_main, on Linux with FUSE 3, and `parse_byte_count`
-- of src/misc.c. The arguments that are added for libfuse and the table of its callbacks are left out.
use cachefs.Prelude.{
  ℕ, ◌-◌, ◌*◌, ◌%◌, ◌^◌, Bool, true, false, not, ◌||◌, Option, none, some, List, [], ◌∷◌, ◌==◌, ltb,
  if◌then◌else◌, Str, bytes, str_eq,
}
use cachefs.Posix.{ok, failed}
use cachefs.Posix.Strtol.{strtol}
use cachefs.Permchain.{Rule}
use cachefs.Permchain.Parse.{add_chmod_rules_to_permchain}
use cachefs.Usermap.Spec.{Maps}
use cachefs.Mount.{
  ℤ, pos, negsuc, Settings, ResolvedSymlinkDeletion, deny, symlink_only, symlink_first,
  target_first,
}
use cachefs.Options.{Doubles}
use cachefs.Options.Mirror.{MirrorResult, mirrors, invalid}

-- The texts that libfuse stores, and two flags.
pub record OptionData : Type 0 where
  pub user : Option Str
  pub deprecated_user : Option Str
  pub group : Option Str
  pub deprecated_group : Option Str
  pub perms : Option Str
  pub mirror : Option Str
  pub mirror_only : Option Str
  pub map : Option Str
  pub map_passwd : Option Str
  pub map_group : Option Str
  pub map_passwd_rev : Option Str
  pub map_group_rev : Option Str
  pub read_rate : Option Str
  pub write_rate : Option Str
  pub create_for_user : Option Str
  pub create_for_group : Option Str
  pub create_with_perms : Option Str
  pub chmod_filter : Option Str
  pub resolved_symlink_deletion : Option Str
  pub multithreaded : Bool
  pub forward_odirect : Option Str
  pub uid_offset : Option Str
  pub gid_offset : Option Str

-- The process and the system: getuid, realpath, the lines of a file that can be opened, whether a
-- directory can be, and HOME.
pub record MainOs : Type 0 where
  pub uid : ℕ
  pub realpath : Str → Option Str
  pub read_lines : Str → Option (List Str)
  pub can_open : Str → Bool
  pub home : Option Str

-- A return from `main` with a status, an abort, or the settings that it goes on with.
pub data Exit : Type 0 where
  exits_with : ℕ → Exit
  aborts : Exit
  goes_on : Settings → Exit

infixl 5 ◌>>=◌
unfoldable pub ◌>>=◌ : Exit → (Settings → Exit) → Exit
exits_with n >>= f = exits_with n
aborts >>= f = aborts
goes_on s >>= f = f s

abbrev pub or_text : Option Str → Option Str → Option Str
or_text (some text) other = some text
or_text none other = other

-- What is done with an option that is given.
unfoldable pub given : Option Str → (Str → Settings → Exit) → Settings → Exit
given none f s = goes_on s
given (some text) f s = f text s

-- An option for root only.
unfoldable pub as_root : ℕ → (Settings → Exit) → Settings → Exit
as_root uid f s = if uid == 0 then f s else exits_with 1

unfoldable pub with_id : Option ℕ → (ℕ → Settings) → Exit
with_id none f = exits_with 1
with_id (some id) f = goes_on (f id)

-- The suffix of a byte count, as a whole text.
unfoldable pub byte_multiplier : Str → Option ℕ
byte_multiplier end =
    if str_eq end []
    then some 1
    else if str_eq end (bytes "k")
    then some 1024
    else if str_eq end (bytes "M")
    then some (1024 * 1024)
    else if str_eq end (bytes "G")
    then some (1024 * 1024 * 1024)
    else if str_eq end (bytes "T")
    then some (1024 * 1024 * 1024 * 1024)
    else none

unfoldable pub parse_byte_count : (d : Doubles) → Str → Option d.Double
parse_byte_count d str =
    let (base, end) = d.strtod str in
    elim (byte_multiplier end) [ none ↦ none | some mul ↦ some (d.times base mul) ]

-- A rate that is given is a positive number; the limiter that it starts is not a setting here.
unfoldable pub check_rate : Doubles → Str → Settings → Exit
check_rate d rate s = elim (parse_byte_count d rate) [
  | none ↦ exits_with 1
  | some r ↦ if d.is_positive r then goes_on s else exits_with 1
]

-- The maps after a file or a list was read into them.
abbrev pub with_maps : Bool × Maps → Settings → Exit
with_maps (false, maps) s = exits_with 1
with_maps (true, (map, reverse_map)) s =
    goes_on (record s { usermap = map; usermap_reverse = reverse_map })

abbrev pub with_maps_reversed : Bool × Maps → Settings → Exit
with_maps_reversed (false, maps) s = exits_with 1
with_maps_reversed (true, (reverse_map, map)) s =
    goes_on (record s { usermap = map; usermap_reverse = reverse_map })

-- strtoll, if it takes the whole text.
unfoldable pub parse_offset : Str → Option ℤ
parse_offset text =
    let (minus, n, rest) = strtol text in
    elim rest [
      | [] ↦ some (
          if not minus || n == 0
          then pos (if ltb n (2 ^ 63) then n else 2 ^ 63 - 1)
          else negsuc (if ltb n (2 ^ 63) then n - 1 else 2 ^ 63 - 1))
      | c ∷ cs ↦ none
    ]

-- strtoul, if it takes the whole text.
unfoldable pub parse_alignment : Str → Option ℕ
parse_alignment text =
    let (minus, n, rest) = strtol text in
    elim rest [
      | [] ↦
          some (if ltb n (2 ^ 64) then (if minus then (2 ^ 64 - n) % 2 ^ 64 else n) else 2 ^ 64 - 1)
      | c ∷ cs ↦ none
    ]

-- strcmp with the four names.
unfoldable pub parse_deletion_policy : Str → Option ResolvedSymlinkDeletion
parse_deletion_policy text =
    if str_eq text (bytes "deny")
    then some deny
    else if str_eq text (bytes "symlink-only")
    then some symlink_only
    else if str_eq text (bytes "symlink-first")
    then some symlink_first
    else if str_eq text (bytes "target-first")
    then some target_first
    else none

-- Rules that are added to a chain, which is put back by `set`.
unfoldable pub add_rules_to : List Rule → (List Rule → Settings) → Str → Exit
add_rules_to pc set text =
    let (status, pc') = add_chmod_rules_to_permchain text pc in
    elim status [ failed ↦ exits_with 1 | ok ↦ goes_on (set pc') ]

-- An invalid name ends the program with the status 0.
unfoldable pub with_mirrors : Settings → MirrorResult → Exit
with_mirrors s invalid = exits_with 0
with_mirrors s (mirrors m) =
    goes_on (record s { mirrored_users = m.users; mirrored_members = m.members })
with_mirrors s other = aborts
