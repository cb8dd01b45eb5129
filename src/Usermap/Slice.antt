-- ===== src/Usermap/Slice.antt =====
-- The names that `parse_user_map` of src/cachefs.c looks up are parts of its text.
use mathlib.Core.List.{append_assoc, append-nil}
use cachefs.Prelude.{
  ℕ, ◌≡◌, ◌≢◌, refl, ap, ◌∙◌, inl, inr, Option, some, [], ◌∷◌, ◌++◌, arith, ==_iff, Str,
  Option-cases,
}
use cachefs.Usermap.{no_id}
use cachefs.Usermap.Spec.{past_delimiter, strdup_until, split_slash, split_slash_at}

abbrev pub IsSlice : Str → Str → Type 0
IsSlice n text = (a : Str) × (b : Str) × (a ++ (n ++ b) ≡ text)

-- No part of the text stands for -1.
abbrev pub NoMinusOne : (Str → Option ℕ) → Str → Type 0
NoMinusOne lookup text = (n : Str) → IsSlice n text → lookup n ≢ some no_id

pub IsSlice-trans : (m n t : Str) → IsSlice m n → IsSlice n t → IsSlice m t
IsSlice-trans m n t (a, b, e) (c, d, f) = (
  c ++ a,
  b ++ d,
  simp append_assoc (let inner = ap (λ x. c ++ (x ++ d)) e ∙ f in simp append_assoc at inner),
)

pub NoMinusOne-IsSlice :
    (lookup : Str → Option ℕ) (m t : Str) → IsSlice m t → NoMinusOne lookup t → NoMinusOne lookup m
NoMinusOne-IsSlice lookup m t s h n k = h n (IsSlice-trans n m t k s)

pub IsSlice-tail : (c : ℕ) (cs : Str) → IsSlice cs (c ∷ cs)
IsSlice-tail c cs = (c ∷ [], [], ap (λ x. c ∷ x) (append-nil cs))

strdup_until-append : (t : Str) → (strdup_until t).0 ++ (strdup_until t).1 ≡ t
unfolding strdup_until
strdup_until-append [] = refl
strdup_until-append (c ∷ cs) = ground (arith, strdup_until-append cs)

past_delimiter-IsSlice : (r : Str) → IsSlice (past_delimiter r) r
past_delimiter-IsSlice [] = ([], [], refl)
past_delimiter-IsSlice (c ∷ cs) = IsSlice-tail c cs

-- An element of the list and the text after its delimiter.
pub strdup_until-IsSlice :
    (t : Str) → IsSlice (strdup_until t).0 t × IsSlice (past_delimiter (strdup_until t).1) t
strdup_until-IsSlice t =
    let (front, rest) = strdup_until t in
    (
      ([], rest, strdup_until-append t),
      IsSlice-trans (past_delimiter rest) rest t (past_delimiter-IsSlice rest)
          (front, [], ap (λ x. front ++ x) (append-nil rest) ∙ strdup_until-append t),
    )

-- Two parts that a text consists of, with something between them.
pub parts-IsSlice : (q s r t : Str) → q ++ (s ++ r) ≡ t → IsSlice q t × IsSlice r t
parts-IsSlice q s r t e =
    (([], s ++ r, e), (q ++ s, [], ap (λ x. (q ++ s) ++ x) (append-nil r) ∙ append_assoc q s r ∙ e))

split_slash-append : (t q r : Str) → split_slash t ≡ some (q, r) → q ++ ((b'/' ∷ []) ++ r) ≡ t
unfolding split_slash
split_slash-append [] q r e = absurd (ground arith)
split_slash-append (c ∷ cs) q r e = elim (Option-cases (split_slash cs)) [
  | inl end ↦ ground (arith, ==_iff c b'/')
  | inr ((f, g), more) ↦ ground (arith, ==_iff c b'/', split_slash-append cs f g more)
]

pub split_slash-IsSlice : (t q r : Str) → split_slash t ≡ some (q, r) → IsSlice q t × IsSlice r t
split_slash-IsSlice t q r e = parts-IsSlice q (b'/' ∷ []) r t (split_slash-append t q r e)

split_slash_at-append :
    (t q r : Str) → split_slash_at t ≡ some (q, r) → q ++ ((b'/' ∷ b'@' ∷ []) ++ r) ≡ t
unfolding split_slash_at
split_slash_at-append [] q r e = absurd (ground arith)
split_slash_at-append (c ∷ []) q r e = absurd (ground arith)
split_slash_at-append (c ∷ d ∷ cs) q r e = elim (Option-cases (split_slash_at (d ∷ cs))) [
  | inl end ↦ ground arith
  | inr ((f, g), more) ↦ ground (arith, split_slash_at-append (d ∷ cs) f g more)
]

pub split_slash_at-IsSlice :
    (t q r : Str) → split_slash_at t ≡ some (q, r) → IsSlice q t × IsSlice r t
split_slash_at-IsSlice t q r e =
    parts-IsSlice q (b'/' ∷ b'@' ∷ []) r t (split_slash_at-append t q r e)
