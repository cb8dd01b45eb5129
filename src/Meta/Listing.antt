-- ===== src/Meta/Listing.antt =====
-- The rows of one directory under the loop of inserts of `cache_dir_store` in src/cache_meta.c, and
-- what `cache_dir_lookup` makes of them.
use cachefs.Prelude.{
  ℕ, ◌+◌, ◌≡◌, ◌≢◌, refl, ◌∙◌, Option, none, some, List, [], ◌∷◌, map, All, arith, ltb, Str, str_eq,
  str_eq_iff, str_lt, if◌then◌else◌, Bool-cases, Option-cases, inl, inr, ap,
}
use cachefs.Posix.{ok}
use cachefs.Meta.{EntryType, DirEntry, DirRow, Sqlite, dir_row, dir_entry, dir_hit, insert_rows}
use cachefs.Meta.Contract.{SqliteLaws, upsert}

-- The type that a listing gives for a name: of the first entry with it, and of the last.
abbrev pub first_type : Str → List DirEntry → Option EntryType
first_type n [] = none
first_type n (e ∷ es) = if str_eq e.name n then some e.type else first_type n es

abbrev pub last_type : Str → List DirEntry → Option EntryType
last_type n [] = none
last_type n (e ∷ es) = elim (last_type n es) [
  | none ↦ if str_eq e.name n then some e.type else none
  | some t ↦ some t
]

pub upserts : List DirRow → List DirRow → List DirRow
upserts [] acc = acc
upserts (r ∷ rs) acc = upserts rs (upsert r acc)

first_type-upsert :
    (n : Str) (r : DirRow) (rows : List DirRow)
    → first_type n (map dir_entry (upsert r rows))
      ≡ (if str_eq r.entry_name n then some r.entry_type else first_type n (map dir_entry rows))
unfolding upsert
first_type-upsert n r [] = refl
first_type-upsert n r (s ∷ ss) = ground (
  arith,
  str_eq_iff r.entry_name s.entry_name,
  str_eq_iff r.entry_name n,
  str_eq_iff s.entry_name n,
  first_type-upsert n r ss,
)

-- The types that a listing gives once `new` has been inserted row by row.
abbrev pub either_type : Option EntryType → Option EntryType → Option EntryType
either_type none t = t
either_type (some s) t = some s

pub first_type-upserts :
    (n : Str) (now ttl mtime : ℕ) (new : List DirEntry) (acc : List DirRow)
    → first_type n (map dir_entry (upserts (map (dir_row now ttl mtime) new) acc))
      ≡ either_type (last_type n new) (first_type n (map dir_entry acc))
unfolding upserts
first_type-upserts n now ttl mtime [] acc = refl
first_type-upserts n now ttl mtime (e ∷ es) acc = ground (
  arith,
  first_type-upserts n now ttl mtime es (upsert (dir_row now ttl mtime e) acc),
  first_type-upsert n (dir_row now ttl mtime e) acc,
)

abbrev pub Stamped : ℕ → ℕ → List DirRow → Type 0
Stamped mtime until = All (λ r. (r.dir_mtime ≡ mtime) × (r.valid_until ≡ until))

Stamped-upsert :
    (mtime until : ℕ) (r : DirRow) (rows : List DirRow)
    → r.dir_mtime ≡ mtime
    → r.valid_until ≡ until
    → Stamped mtime until rows
    → Stamped mtime until (upsert r rows)
unfolding upsert
Stamped-upsert mtime until r [] hm hu h = ((hm, hu), tt)
Stamped-upsert mtime until r (s ∷ ss) hm hu h =
    elim (Bool-cases (str_eq r.entry_name s.entry_name)) [
      | inl same ↦ rw same ((hm, hu), h.1)
      | inr differ ↦ rw differ (elim (Bool-cases (str_lt r.entry_name s.entry_name)) [
        | inl before ↦ rw before ((hm, hu), h)
        | inr after ↦ rw after (h.0, Stamped-upsert mtime until r ss hm hu h.1)
      ])
    ]

pub Stamped-upserts :
    (now ttl mtime : ℕ) (new : List DirEntry) (acc : List DirRow)
    → Stamped mtime (now + ttl) acc
    → Stamped mtime (now + ttl) (upserts (map (dir_row now ttl mtime) new) acc)
unfolding upserts
Stamped-upserts now ttl mtime [] acc h = h
Stamped-upserts now ttl mtime (e ∷ es) acc h =
    Stamped-upserts now ttl mtime es _
      (Stamped-upsert mtime (now + ttl) (dir_row now ttl mtime e) acc refl refl h)

upsert-ne-nil : (r : DirRow) (rows : List DirRow) → upsert r rows ≢ []
unfolding upsert
upsert-ne-nil r [] = ground arith
upsert-ne-nil r (s ∷ ss) = ground arith

upserts-ne-nil : (rs acc : List DirRow) → acc ≢ [] → upserts rs acc ≢ []
unfolding upserts
upserts-ne-nil [] acc h = h
upserts-ne-nil (r ∷ rs) acc h = upserts-ne-nil rs (upsert r acc) (upsert-ne-nil r acc)

pub upserts_cons-ne-nil : (r : DirRow) (rs acc : List DirRow) → upserts (r ∷ rs) acc ≢ []
unfolding upserts
upserts_cons-ne-nil r rs acc = upserts-ne-nil rs (upsert r acc) (upsert-ne-nil r acc)

pub dir_hit-Stamped :
    (mtime until later : ℕ) (rows : List DirRow)
    → rows ≢ []
    → Stamped mtime until rows
    → dir_hit later rows
      ≡ some (record { entries = map dir_entry rows; dir_mtime = mtime; valid = ltb later until })
unfolding dir_hit
dir_hit-Stamped mtime until later [] full h = absurd (full refl)
dir_hit-Stamped mtime until later (r ∷ rs) full h = rw (h.0.0, h.0.1)

module _ {Db : Type 0} (sql : Sqlite Db) (saved : Db → Option Db)
    (laws : SqliteLaws sql saved) where
  pub dir-insert_rows :
      (db db' : Db) (p : Str) (rows : List DirRow)
      → insert_rows sql db p rows ≡ (ok, db')
      → sql.select_dir db' p ≡ upserts rows (sql.select_dir db p)
  unfolding insert_rows upserts
  dir-insert_rows db db' p [] h = ground arith
  dir-insert_rows db db' p (r ∷ rs) h = elim (Option-cases (sql.insert_dir db p r)) [
    | inl e ↦ absurd (ground arith)
    | inr (db1, e) ↦
        dir-insert_rows db1 db' p rs (ground arith)
        ∙ ap (upserts rs) (laws.dir-insert_dir_self db db1 p r e)
  ]

  pub saved-insert_rows :
      (db : Db) (p : Str) (rows : List DirRow) → saved (insert_rows sql db p rows).1 ≡ saved db
  unfolding insert_rows
  saved-insert_rows db p [] = refl
  saved-insert_rows db p (r ∷ rs) = elim (Option-cases (sql.insert_dir db p r)) [
    | inl e ↦ rw (e, insert_rows)
    | inr (db1, e) ↦
        rw (e, insert_rows) (saved-insert_rows db1 p rs ∙ laws.saved-insert_dir db db1 p r e)
  ]
