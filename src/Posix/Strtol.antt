-- ===== src/Posix/Strtol.antt =====
-- strtol of the C library in base 10: the sign, the digits' number before it is cut to the range of a
-- type, and the text at `endptr`.
use cachefs.Prelude.{
  ℕ, ◌+◌, ◌-◌, ◌*◌, Bool, true, false, ◌&&◌, ◌||◌, [], ◌∷◌, ◌==◌, leb, if◌then◌else◌, Str,
}

is_space : ℕ → Bool
is_space c = c == 32 || (leb 9 c && leb c 13)

skip_space : Str → Str
skip_space [] = []
skip_space (c ∷ cs) = let rest = skip_space cs in if is_space c then rest else c ∷ cs

is_digit : ℕ → Bool
is_digit c = leb b'0' c && leb c b'9'

-- The number so far, and the text that is left.
digits : ℕ → Str → ℕ × Str
digits n [] = (n, [])
digits n (c ∷ cs) =
    let rest = digits (n * 10 + (c - b'0')) cs in if is_digit c then rest else (n, c ∷ cs)

sign_of : Str → Bool × Str
sign_of [] = (false, [])
sign_of (c ∷ cs) =
    if c == b'-' then (true, cs) else if c == b'+' then (false, cs) else (false, c ∷ cs)

-- What is left after the sign; with no digit `endptr` is the start of the whole text.
after_sign : Str → Bool → Str → Bool × ℕ × Str
after_sign text minus [] = (false, 0, text)
after_sign text minus (c ∷ cs) =
    if is_digit c then (let (n, rest) = digits 0 (c ∷ cs) in (minus, n, rest)) else (false, 0, text)

unfoldable pub strtol : Str → Bool × ℕ × Str
unfolding skip_space is_space sign_of after_sign digits is_digit
strtol text = let (minus, rest) = sign_of (skip_space text) in after_sign text minus rest
