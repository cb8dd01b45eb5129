-- ===== src/Usermap/Lookup.antt =====
-- What `usermap_get_uid_or_default` of src/usermap.c finds after `usermap_add_uid`, and a pair of maps
-- that are inverse to one another.
use cachefs.Prelude.{
  ◌↔◌, ℕ, ◌+◌, ◌≤◌, ◌≡◌, ◌≢◌, refl, inl, inr, List, [], ◌∷◌, ◌++◌, All, arith, length,
  length-append, ◌==◌, ==_iff, Bool-cases, if◌then◌else◌,
}
use cachefs.Usermap.{
  usermap_ok, duplicate_key, IdTable, UserMap, no_id, find_or_default, table_add, grow,
  usermap_add_uid, usermap_get_uid_or_default,
}

-- No entry maps to -1, and the arrays are large enough.
pub record IsTable (t : IdTable) : Type 0 where
  pub targets : All (λ e. e.1 ≢ no_id) t.entries
  pub within : length t.entries ≤ t.capacity

find-append :
    (es : List (ℕ × ℕ)) (from to u deflt : ℕ)
    → All (λ e. e.1 ≢ no_id) es
    → find_or_default es from no_id ≡ no_id
    → find_or_default (es ++ (from, to) ∷ []) u deflt
      ≡ (if from == u then to else find_or_default es u deflt)
unfolding find_or_default
find-append [] from to u deflt h e = refl
find-append ((f, t) ∷ es) from to u deflt h e = ground (arith, find-append es from to u deflt)

targets-append :
    (es : List (ℕ × ℕ)) (from to : ℕ)
    → All (λ e. e.1 ≢ no_id) es
    → to ≢ no_id
    → All (λ e. e.1 ≢ no_id) (es ++ (from, to) ∷ [])
targets-append [] from to h ne = (ne, tt)
targets-append (e ∷ es) from to h ne = (h.0, targets-append es from to h.1 ne)

entries-grow : (t : IdTable) → (grow t).entries ≡ t.entries
unfolding grow
entries-grow t = ground arith

capacity-grow :
    (t : IdTable) → length t.entries ≤ t.capacity → length t.entries + 1 ≤ (grow t).capacity
unfolding grow
capacity-grow t h = ground arith

grow-IsTable : (t : IdTable) → IsTable t → IsTable (grow t)
grow-IsTable t h = record {
  targets = rw (entries-grow t) h.targets;
  within = rw (entries-grow t) (omega (arith, capacity-grow t h.within));
}

pub table_add_lem :
    (t : IdTable) (from to u deflt : ℕ)
    → IsTable t
    → to ≢ no_id
    → IsTable (table_add t from to).1
      × ((table_add t from to).0 ≡ usermap_ok
          → find_or_default (table_add t from to).1.entries u deflt ≡ (
              if from == to
              then find_or_default t.entries u deflt
              else if from == u
              then to
              else find_or_default t.entries u deflt))
      × ((table_add t from to).0 ≡ duplicate_key
          → ((table_add t from to).1.entries ≡ t.entries)
            × (find_or_default t.entries from no_id ≢ no_id))
unfolding table_add
table_add_lem t from to u deflt h ne = elim (Bool-cases (from == to)) [
  | inl same ↦ rw (same, table_add) (h, λ e. refl, λ e. absurd (ground arith))
  | inr differ ↦ elim (Bool-cases (find_or_default t.entries from no_id == no_id)) [
    | inl new ↦
        rw (differ, new, table_add)
          (
            record {
              targets = targets-append t.entries from to h.targets ne;
              within =
                  omega
                    (arith, length-append t.entries ((from, to) ∷ []), capacity-grow t h.within);
            },
            λ e. find-append t.entries from to u deflt h.targets ((==_iff _ _).0 new),
            λ e. absurd (ground arith),
          )
    | inr old ↦
        rw (differ, old, table_add)
          (grow-IsTable t h, λ e. absurd (ground arith), λ e. (entries-grow t, ground arith))
  ]
]

-- On a table that maps nothing to -1, for a target other than -1: `usermap_add_uid` keeps that, and
-- the arrays large enough; if it returns ok, a lookup of the new user finds the target, unless user
-- and target are equal, and every other lookup finds what it found; if it returns the error, the
-- entries are as they were, and the user was mapped.
pub get_uid-add_uid :
    (map : UserMap) (from to u deflt : ℕ)
    → IsTable map.users
    → to ≢ no_id
    → IsTable (usermap_add_uid map from to).1.users
      × ((usermap_add_uid map from to).0 ≡ usermap_ok
          → usermap_get_uid_or_default (usermap_add_uid map from to).1 u deflt ≡ (
              if from == to
              then usermap_get_uid_or_default map u deflt
              else if from == u
              then to
              else usermap_get_uid_or_default map u deflt))
      × ((usermap_add_uid map from to).0 ≡ duplicate_key
          → ((usermap_add_uid map from to).1.users.entries ≡ map.users.entries)
            × (usermap_get_uid_or_default map from no_id ≢ no_id))
unfolding usermap_add_uid
get_uid-add_uid map from to u deflt h ne = table_add_lem map.users from to u deflt h ne

-- The second table maps back what the first maps.
abbrev pub IsInverse : List (ℕ × ℕ) → List (ℕ × ℕ) → Type 0
IsInverse es rs =
    (u v : ℕ)
    → u ≢ no_id
    → v ≢ no_id
    → (find_or_default es u no_id ≡ v) ↔ (find_or_default rs v no_id ≡ u)

pub add_added :
    (t : IdTable) (from to : ℕ)
    → (table_add t from to).0 ≡ usermap_ok
    → from ≢ to
    → find_or_default t.entries from no_id ≡ no_id
unfolding table_add
add_added t from to e ne = ground arith

pub table_add-IsInverse :
    (t r : IdTable) (from to : ℕ)
    → IsTable t
    → IsTable r
    → from ≢ no_id
    → to ≢ no_id
    → (table_add t from to).0 ≡ usermap_ok
    → (table_add r to from).0 ≡ usermap_ok
    → IsInverse t.entries r.entries
    → IsInverse (table_add t from to).1.entries (table_add r to from).1.entries
table_add-IsInverse t r from to ht hr nf nt et er h u v nu nv =
    let there = (table_add_lem t from to u no_id ht nt).1 et in
    let back = (table_add_lem r to from v no_id hr nf).1 er in
    ground
      (arith, there, back, add_added t from to et, add_added r to from er, h u v, h from v, h u to)
