-- ===== src/Usermap/Fuel.antt =====
-- The fuel of the loop of `parse_user_map` in src/cachefs.c.
use mathlib.Core.Option
use cachefs.Prelude.{
  Bool, true, false, some, sym, ap, ◌∙◌, ℕ, zero, suc, ◌≤◌, ◌<◌, ◌≡◌, refl, inl, inr, ◌==◌, ◌||◌,
  Option, [], ◌∷◌, arith, length, Str, Bool-cases,
}
use cachefs.Usermap.Spec.{
  Maps, past_delimiter, strdup_until, add_element, parse_elements, parse_user_map,
}

strdup_until_le : (text : Str) → length (strdup_until text).1 ≤ length text
unfolding strdup_until
strdup_until_le [] = omega arith
strdup_until_le (c ∷ cs) = ground (arith, strdup_until_le cs)

past_delimiter_le : (text : Str) → length (past_delimiter text) ≤ length text
past_delimiter_le [] = omega arith
past_delimiter_le (c ∷ cs) = omega arith

rest_le : (c : ℕ) (cs : Str) → length (past_delimiter (strdup_until (c ∷ cs)).1) ≤ length cs
unfolding strdup_until
rest_le c cs = elim (Bool-cases (c == b',' || c == b':')) [
  | inl stop ↦ rw stop (omega arith)
  | inr on ↦ rw on (omega (arith, past_delimiter_le (strdup_until cs).1, strdup_until_le cs))
]

module _ (user_uid group_gid : Str → Option ℕ) where
  -- Two fuels above the length give one and the same result.
  ends_with :
      (k l : ℕ) (text : Str) (maps : Maps)
      → length text < k
      → length text < l
      → (result : Bool × Maps) × (parse_elements user_uid group_gid k text maps ≡ some result)
        × (parse_elements user_uid group_gid l text maps ≡ some result)
  unfolding parse_elements
  ends_with zero l text maps hk hl = absurd (omega arith)
  ends_with (suc k) zero text maps hk hl = absurd (omega arith)
  ends_with (suc k) (suc l) [] maps hk hl = ((true, maps), refl, refl)
  ends_with (suc k) (suc l) (c ∷ cs) maps hk hl =
      let (front, rest) = strdup_until (c ∷ cs) in
      let step = add_element user_uid group_gid front maps in
      let le = rest_le c cs in
      elim (Bool-cases step.0) [
        | inr bad ↦ ((false, step.1), rw (parse_elements, bad) refl, rw (parse_elements, bad) refl)
        | inl good ↦
            let (result, first, second) =
              ends_with k l (past_delimiter rest) step.1 (omega (arith, le)) (omega (arith, le)) in
            (result, rw (parse_elements, good) first, rw (parse_elements, good) second)
      ]

  -- The fuel of the loop of `parse_user_map` does not run out: with any fuel above the length of the
  -- text the loop comes to an end, and its result is that of `parse_user_map`.
  pub parse_elements-fuel :
      (fuel : ℕ) (text : Str) (maps : Maps)
      → length text < fuel
      → parse_elements user_uid group_gid fuel text maps
        ≡ some (parse_user_map user_uid group_gid text maps)
  unfolding parse_user_map
  parse_elements-fuel fuel text maps h =
      let (result, first, second) = ends_with fuel (suc (length text)) text maps h (omega arith) in
      first ∙ ap (λ o. some (Option.get_or o (false, maps))) (sym second)
