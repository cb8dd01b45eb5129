-- ===== src/Mount/Prefix.antt =====
-- `path_starts_with` of src/misc.c against its description in src/misc.h.
use mathlib.Core.Path.{subst}
use mathlib.Core.List.{append_assoc, append-nil}
use cachefs.Prelude.{
  ℕ, ◌+◌, ◌-◌, ◌^◌, ◌<◌, ◌≡◌, ◌↔◌, inl, inr, refl, sym, ap, ◌∙◌, true, Bool-cases, Option-cases,
  Option, none, some, [], ◌∷◌, ◌++◌, length, length-append, drop, ◌==◌, ==_iff, if◌then◌else◌, Str,
  has_prefix, sub64, sub64-eq-sub, arith,
}
use cachefs.Mount.Paths.{strip_end, split_last, find_slash, last_part_len, path_starts_with}

has_prefix-append : (p r : Str) → has_prefix p (p ++ r) ≡ true
unfolding has_prefix
has_prefix-append [] r = refl
has_prefix-append (c ∷ p) r = ground (arith, has_prefix-append p r)

append-has_prefix : (p s : Str) → has_prefix p s ≡ true → (r : Str) × (s ≡ p ++ r)
unfolding has_prefix
append-has_prefix [] s h = (s, refl)
append-has_prefix (c ∷ p) [] h = absurd (ground arith)
append-has_prefix (c ∷ p) (d ∷ s) h =
    let (r, e) = append-has_prefix p s (ground arith) in
    let same : d ≡ c = ground arith in (r, rw same (ap (λ x. c ∷ x) e))

-- What is stripped does not end with a slash.
strip_end_idem : (s : Str) → strip_end (strip_end s) ≡ strip_end s
unfolding strip_end
strip_end_idem [] = refl
strip_end_idem (c ∷ cs) = from (strip_end cs) (strip_end_idem cs)
  where
    from :
        (rest : Str)
        → strip_end rest ≡ rest
        → strip_end (elim rest [ [] ↦ if c == b'/' then [] else c ∷ [] | d ∷ ds ↦ c ∷ d ∷ ds ])
          ≡ elim rest [ [] ↦ if c == b'/' then [] else c ∷ [] | d ∷ ds ↦ c ∷ d ∷ ds ]
    from [] h = ground arith
    from (d ∷ ds) h = rw (h, strip_end) refl

strip_end-append :
    (s : Str) (c : ℕ) (cs : Str)
    → find_slash (c ∷ cs) ≡ none
    → strip_end (s ++ c ∷ cs) ≡ s ++ c ∷ cs
unfolding strip_end find_slash
strip_end-append [] c [] h = ground arith
strip_end-append [] c (d ∷ ds) h = let later = strip_end-append [] d ds in ground arith
strip_end-append (x ∷ []) c cs h =
    let later = strip_end-append [] c cs h in rw (later, strip_end) refl
strip_end-append (x ∷ y ∷ s) c cs h =
    let later = strip_end-append (y ∷ s) c cs h in rw (later, strip_end) refl

split_last-none : (s : Str) → split_last s ≡ none → find_slash s ≡ none
unfolding split_last find_slash
split_last-none [] h = refl
split_last-none (c ∷ cs) h = elim (Option-cases (split_last cs)) [
  | inl e ↦ ground (arith, split_last-none cs e)
  | inr ((f, r), e) ↦ absurd (ground arith)
]

split_last-some :
    (s f r : Str) → split_last s ≡ some (f, r) → (s ≡ f ++ b'/' ∷ r) × (find_slash r ≡ none)
unfolding split_last
split_last-some [] f r h = absurd (ground arith)
split_last-some (c ∷ cs) f r h = elim (Option-cases (split_last cs)) [
  | inl e ↦ ground (arith, split_last-none cs e)
  | inr ((f', r'), e) ↦ let (parts, no_slash) = split_last-some cs f' r' e in ground arith
]

-- A path is what stands before its last part, and a last part of the computed length with no slash.
last_part_split :
    (s : Str)
    → (front : Str) × (part : Str) × (s ≡ front ++ part)
      × (find_slash part ≡ none)
      × (last_part_len s ≡ length part)
unfolding last_part_len
last_part_split s = elim (Option-cases (split_last s)) [
  | inl e ↦ ([], s, refl, split_last-none s e, rw (e, last_part_len) refl)
  | inr ((f, r), e) ↦
      let (parts, no_slash) = split_last-some s f r e in
      (
        f ++ b'/' ∷ [],
        r,
        parts ∙ sym (append_assoc f (b'/' ∷ []) r),
        no_slash,
        rw (e, last_part_len) refl,
      )
]

drop-length : (a b : Str) → drop (length a) (a ++ b) ≡ b
drop-length [] b = refl
drop-length (x ∷ a) b = drop-length a b

find_slash-append_none :
    (a b : Str) → find_slash a ≡ none → find_slash b ≡ none → find_slash (a ++ b) ≡ none
unfolding find_slash
find_slash-append_none [] b h k = k
find_slash-append_none (x ∷ a) b h k = elim (Option-cases (find_slash a)) [
  | inl e ↦ let later = find_slash-append_none a b e k in ground arith
  | inr (n, e) ↦ absurd (ground arith)
]

find_slash-append_some :
    (a b : Str) (n : ℕ)
    → find_slash a ≡ none
    → find_slash b ≡ some n
    → find_slash (a ++ b) ≡ some (length a + n)
unfolding find_slash
find_slash-append_some [] b n h k = k ∙ ap some (omega arith)
find_slash-append_some (x ∷ a) b n h k = elim (Option-cases (find_slash a)) [
  | inl e ↦ let later = find_slash-append_some a b n e k in ground arith
  | inr (m, e) ↦ absurd (ground arith)
]

-- The rest of a path after some of its components: nothing, or a slash and more.
abbrev pub IsRest : Str → Type 0
IsRest [] = Unit
IsRest (c ∷ cs) = c ≡ b'/'

IsRest-slash : (r : Str) (n : ℕ) → find_slash r ≡ some n → (n ≡ 0) ↔ IsRest r
unfolding find_slash
IsRest-slash [] n h = absurd (ground arith)
IsRest-slash (c ∷ cs) n h = elim (Option-cases (find_slash cs)) [
  | inl e ↦ ground (arith, ==_iff c b'/')
  | inr (m, e) ↦ ground (arith, ==_iff c b'/')
]

IsRest-no_slash : (r : Str) → find_slash r ≡ none → IsRest r → r ≡ []
unfolding find_slash
IsRest-no_slash [] h k = refl
IsRest-no_slash (c ∷ cs) h k = absurd (ground (arith, ==_iff c b'/'))

strip_end-start :
    (start r : Str)
    → strip_end start ≡ start
    → find_slash r ≡ none
    → strip_end (start ++ r) ≡ start ++ r
strip_end-start start [] h k = rw (append-nil start) h
strip_end-start start (c ∷ cs) h k = strip_end-append start c cs k

IsRest-empty : (r : Str) → find_slash r ≡ none → (length r ≡ 0) ↔ IsRest r
IsRest-empty [] h = (λ e. tt, λ k. refl)
IsRest-empty (c ∷ cs) h = (
  λ e. absurd (omega (arith, e)),
  λ k. absurd (ground (arith, ap length (IsRest-no_slash (c ∷ cs) h k))),
)

-- The length that is compared with that of the last part.
abbrev part_len : Str → ℕ → Option ℕ → ℕ
part_len path part_start none = sub64 (length (strip_end path)) part_start
part_len path part_start (some n) = n

module _ (start r : Str) (stripped : strip_end start ≡ start)
    (short : length (start ++ r) < 2 ^ 64) where
  tests-IsRest :
      (front part : Str)
      → start ≡ front ++ part
      → find_slash part ≡ none
      → last_part_len start ≡ length part
      → (last_part_len start
            == part_len
                (start ++ r)
                (length start - last_part_len start)
                (find_slash (drop (length start - last_part_len start) (start ++ r)))
          ≡ true)
        ↔ IsRest r
  tests-IsRest front part parts no_slash len =
      let sizes = ap length parts ∙ length-append front part in
      let place : length start - last_part_len start ≡ length front = omega (arith, sizes, len) in
      let dropped : drop (length start - last_part_len start) (start ++ r) ≡ part ++ r = rw place (
        ap (λ x. drop (length front) (x ++ r)) parts
        ∙ ap (drop (length front)) (append_assoc front part r)
        ∙ drop-length front (part ++ r)) in
      elim (Option-cases (find_slash r)) [
        | inr (n, e) ↦
            let found = ap find_slash dropped ∙ find_slash-append_some part r n no_slash e in
            let rest = IsRest-slash r n e in
            rw found (ground (arith, rest, len, ==_iff (last_part_len start) (length part + n)))
        | inl e ↦
            let found = ap find_slash dropped ∙ find_slash-append_none part r no_slash e in
            let whole = strip_end-start start r stripped e in
            let total = length-append start r in
            let small =
              sub64-eq-sub (length (start ++ r)) (length front) (omega (arith, total, sizes))
                short in
            let amount : part_len (start ++ r) (length start - last_part_len start)
                  (find_slash (drop (length start - last_part_len start) (start ++ r)))
                ≡ length part + length r =
              rw (found, place, whole, small) (omega (arith, total, sizes)) in
            let rest = IsRest-empty r e in
            rw amount
              (ground (arith, rest, len, ==_iff (last_part_len start) (length part + length r)))
      ]

starts_with-IsRest :
    (prefix_text r : Str)
    → length (strip_end prefix_text ++ r) < 2 ^ 64
    → (path_starts_with (strip_end prefix_text ++ r) prefix_text ≡ true) ↔ IsRest r
unfolding path_starts_with
starts_with-IsRest prefix_text r short =
    let start = strip_end prefix_text in
    let (front, part, parts, no_slash, len) = last_part_split start in
    rw (has_prefix-append start r, path_starts_with)
      (tests-IsRest start r (strip_end_idem prefix_text) short front part parts no_slash len)

-- For a path of fewer than 2 ^ 64 bytes: `path_starts_with` is true exactly when the path is the prefix
-- without its last slashes, followed by nothing or by a slash and more.
pub path_starts_with_iff :
    (path prefix_text : Str)
    → length path < 2 ^ 64
    → (path_starts_with path prefix_text ≡ true)
      ↔ ((r : Str) × (path ≡ strip_end prefix_text ++ r) × IsRest r)
unfolding path_starts_with
path_starts_with_iff path prefix_text short =
    let start = strip_end prefix_text in
    let shorter = λ (r : Str) (e : path ≡ start ++ r). subst (λ p. length p < 2 ^ 64) e short in
    (
      λ h. elim (Bool-cases (has_prefix start path)) [
        | inr e ↦ absurd (ground arith)
        | inl e ↦
            let (r, is) = append-has_prefix start path e in
            (
              r,
              is,
              (starts_with-IsRest prefix_text r (shorter r is)).0
                  (subst (λ p. path_starts_with p prefix_text ≡ true) is h),
            )
      ],
      λ (r, is, rest).
          subst (λ p. path_starts_with p prefix_text ≡ true) (sym is)
            ((starts_with-IsRest prefix_text r (shorter r is)).1 rest),
    )
