-- ===== src/Posix/Strtok.antt =====
-- strtok of the C library with one delimiter: the next token and what follows the delimiter after it.
use mathlib.Core.Path.{subst}
use cachefs.Prelude.{
  ℕ, ◌≡◌, refl, ap, ◌∙◌, inl, inr, Bool-cases, Option, none, some, [], ◌∷◌, ◌++◌, arith, ◌==◌,
  if◌then◌else◌, Str,
}

skip_delimiters : ℕ → Str → Str
skip_delimiters d [] = []
skip_delimiters d (c ∷ cs) = let rest = skip_delimiters d cs in if c == d then rest else c ∷ cs

token : ℕ → Str → Str × Str
token d [] = ([], [])
token d (c ∷ cs) = let (front, rest) = token d cs in if c == d then ([], cs) else (c ∷ front, rest)

next_token : ℕ → Str → Option (Str × Str)
next_token d [] = none
next_token d (c ∷ cs) = some (token d (c ∷ cs))

unfoldable pub strtok : ℕ → Str → Option (Str × Str)
unfolding skip_delimiters token next_token
strtok d s = next_token d (skip_delimiters d s)

-- What is skipped stands before the rest, and a token before what follows its delimiter.
skip_delimiters_lem : (d : ℕ) (s : Str) → (a : Str) × (a ++ skip_delimiters d s ≡ s)
unfolding skip_delimiters
skip_delimiters_lem d [] = ([], refl)
skip_delimiters_lem d (c ∷ cs) = elim (Bool-cases (c == d)) [
  | inl e ↦
      let (a, h) = skip_delimiters_lem d cs in (c ∷ a, rw (e, skip_delimiters) (ap (λ x. c ∷ x) h))
  | inr e ↦ ([], rw (e, skip_delimiters) refl)
]

token_lem : (d : ℕ) (s : Str) → (b : Str) × ((token d s).0 ++ (b ++ (token d s).1) ≡ s)
unfolding token
token_lem d [] = ([], refl)
token_lem d (c ∷ cs) = elim (Bool-cases (c == d)) [
  | inl e ↦ (c ∷ [], rw (e, token) refl)
  | inr e ↦ let (b, h) = token_lem d cs in (b, rw (e, token) (ap (λ x. c ∷ x) h))
]

pub strtok-append :
    (d : ℕ) (s t r : Str)
    → strtok d s ≡ some (t, r)
    → (a : Str) × (b : Str) × (a ++ (t ++ (b ++ r)) ≡ s)
unfolding strtok next_token
strtok-append d s t r e = from (skip_delimiters d s) (skip_delimiters_lem d s) e
  where
    from :
        (u : Str)
        → ((a : Str) × (a ++ u ≡ s))
        → next_token d u ≡ some (t, r)
        → (a : Str) × (b : Str) × (a ++ (t ++ (b ++ r)) ≡ s)
    from [] h k = absurd (ground arith)
    from (c ∷ cs) (a, h) k =
        let (b, m) = token_lem d (c ∷ cs) in
        let same : token d (c ∷ cs) ≡ (t, r) = ground (arith, k) in
        (a, b, ap (λ x. a ++ x) (subst (λ q. q.0 ++ (b ++ q.1) ≡ c ∷ cs) same m) ∙ h)
