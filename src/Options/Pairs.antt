-- ===== src/Options/Pairs.antt =====
-- The maps that `main` of src/cachefs.c builds from the map files and --map undo one another.
use mathlib.Core.Path.{subst}
use cachefs.Prelude.{ℕ, ◌≡◌, refl, Bool, true, false, Option, some, List, All, Str}
use cachefs.Usermap.{IdTable, UserMap}
use cachefs.Usermap.Spec.{Maps, add_user_pair, add_group_pair}
use cachefs.Usermap.Slice.{NoMinusOne}
use cachefs.Usermap.Inverse.{
  AreInverse, IsMapPair, add_user_pair-IsMapPair, add_group_pair-IsMapPair,
  parse_user_map-IsMapPair,
}
use cachefs.Mount.{Settings}
use cachefs.Options.{Doubles}
use cachefs.Options.MapFile.{parse_map_file}
use cachefs.Options.Start.{
  OptionData, MainOs, goes_on, given, as_root, with_maps, with_maps_reversed,
}
use cachefs.Options.Configure.{parse_maps}
use cachefs.Options.Leads.{Leads, Leads-bind, Leads-given, Leads-given_eq, Leads-if_root}
use cachefs.Options.Lines.{Keeps, parse_map_file-IsMapPair}

abbrev Pair : Settings → Type 0
Pair s = IsMapPair (s.usermap, s.usermap_reverse)

AreInverse-sym : (t r : IdTable) → AreInverse t r → AreInverse r t
AreInverse-sym t r h = record {
  forth_table = h.back_table;
  back_table = h.forth_table;
  undoes = λ u v nu nv. ((h.undoes v u nv nu).1, (h.undoes v u nv nu).0);
}

IsMapPair-sym :
    (map reverse_map : UserMap) → IsMapPair (map, reverse_map) → IsMapPair (reverse_map, map)
IsMapPair-sym map reverse_map h = record {
  users = AreInverse-sym map.users reverse_map.users h.users;
  groups = AreInverse-sym map.groups reverse_map.groups h.groups;
}

with_maps-Pair :
    (r : Bool × Maps) (s : Settings)
    → ((maps : Maps) → r ≡ (true, maps) → IsMapPair maps)
    → Leads Pair (with_maps r s)
unfolding Leads
with_maps-Pair (false, maps) s h = tt
with_maps-Pair (true, (map, reverse_map)) s h = h (map, reverse_map) refl

with_maps_reversed-Pair :
    (r : Bool × Maps) (s : Settings)
    → ((maps : Maps) → r ≡ (true, maps) → IsMapPair maps)
    → Leads Pair (with_maps_reversed r s)
unfolding Leads
with_maps_reversed-Pair (false, maps) s h = tt
with_maps_reversed-Pair (true, (reverse_map, map)) s h =
    IsMapPair-sym reverse_map map (h (reverse_map, map) refl)

module _ (d : Doubles) (os : MainOs) (user_uid group_gid : Str → Option ℕ) (od : OptionData)
    (clean_users : (file : Str) (lines : List Str)
      → os.read_lines file ≡ some lines
      → All (NoMinusOne user_uid) lines)
    (clean_groups : (file : Str) (lines : List Str)
      → os.read_lines file ≡ some lines
      → All (NoMinusOne group_gid) lines)
    (clean_map : (spec : Str)
      → od.map ≡ some spec
      → NoMinusOne user_uid spec × NoMinusOne group_gid spec) where
  -- One of the four files.
  file_Pair :
      (o : Option Str) (lookup : Str → Option ℕ) (add : ℕ → ℕ → Maps → Bool × Maps) (s : Settings)
      → Keeps add
      → ((file : Str) (lines : List Str)
          → os.read_lines file ≡ some lines
          → All (NoMinusOne lookup) lines)
      → Pair s
      → Leads Pair (
          given o
            (λ file. as_root os.uid (λ t.
              with_maps
                (parse_map_file lookup add (os.read_lines file) (t.usermap, t.usermap_reverse))
                t))
            s)
  file_Pair o lookup add s keeps clean h = Leads-given Pair o _ s h (λ file.
      Leads-if_root Pair os.uid _ s (
        with_maps-Pair _ s (λ maps e.
          parse_map_file-IsMapPair lookup add keeps (os.read_lines file)
            (s.usermap, s.usermap_reverse) maps (clean file) h e)))

  reverse_file_Pair :
      (o : Option Str) (lookup : Str → Option ℕ) (add : ℕ → ℕ → Maps → Bool × Maps) (s : Settings)
      → Keeps add
      → ((file : Str) (lines : List Str)
          → os.read_lines file ≡ some lines
          → All (NoMinusOne lookup) lines)
      → Pair s
      → Leads Pair (
          given o
            (λ file. as_root os.uid (λ t.
              with_maps_reversed
                (parse_map_file lookup add (os.read_lines file) (t.usermap_reverse, t.usermap))
                t))
            s)
  reverse_file_Pair o lookup add s keeps clean h = Leads-given Pair o _ s h (λ file.
      Leads-if_root Pair os.uid _ s (
        with_maps_reversed-Pair _ s (λ maps e.
          parse_map_file-IsMapPair lookup add keeps (os.read_lines file)
            (s.usermap_reverse, s.usermap) maps (clean file)
            (IsMapPair-sym s.usermap s.usermap_reverse h) e)))

  -- Where no part of a line of a file, nor of the value of --map, stands for the user or the group -1: if
  -- the map and the reverse map undo one another, as two empty ones do, and `main` gets through
  -- --map-passwd, --map-passwd-rev, --map-group, --map-group-rev and --map, in any combination, they
  -- undo one another afterwards, for users and groups.
  pub parse_maps-IsMapPair :
      (s s' : Settings)
      → IsMapPair (s.usermap, s.usermap_reverse)
      → parse_maps d os user_uid group_gid od s ≡ goes_on s'
      → IsMapPair (s'.usermap, s'.usermap_reverse)
  unfolding parse_maps Leads
  parse_maps-IsMapPair s s' h e = subst (Leads Pair) e (
      Leads-bind Pair _ _
        (file_Pair od.map_passwd user_uid add_user_pair s add_user_pair-IsMapPair clean_users h)
        (λ s1 h1.
          Leads-bind Pair _ _
            (reverse_file_Pair od.map_passwd_rev user_uid add_user_pair s1 add_user_pair-IsMapPair
              clean_users h1)
            (λ s2 h2.
              Leads-bind Pair _ _
                (file_Pair od.map_group group_gid add_group_pair s2 add_group_pair-IsMapPair
                  clean_groups h2)
                (λ s3 h3.
                  Leads-bind Pair _ _
                    (reverse_file_Pair od.map_group_rev group_gid add_group_pair s3
                      add_group_pair-IsMapPair clean_groups h3)
                    (λ s4 h4. Leads-given_eq Pair od.map _ s4 h4 (λ spec is.
                      Leads-if_root Pair os.uid _ s4 (
                        with_maps-Pair _ s4 (λ maps f.
                          let (cu, cg) = clean_map spec is in
                          parse_user_map-IsMapPair user_uid group_gid spec
                            (s4.usermap, s4.usermap_reverse) maps cu cg h4 f))))))))
