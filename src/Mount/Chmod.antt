-- ===== src/Mount/Chmod.antt =====
-- What `bindfs_chmod` of src/cachefs.c asks of the system under the policies that do not let a user
-- change a mode, where execute bits are exempt.
use cachefs.Prelude.{
  ℕ, ◌/◌, ◌%◌, ◌^◌, ◌≡◌, ◌⊎◌, refl, ap, sym, ◌∙◌, inl, inr, true, Option, none, some, arith, Str,
  Bool-cases,
}
use cachefs.Prelude.Bits.{bit_and, bit_xor_masked, bit_and-bit}
use cachefs.Posix.{Stat, Errno, is_reg}
use cachefs.Mount.{Result, error, done, Settings, Os, chmod_deny}
use cachefs.Mount.Paths.{process_path}
use cachefs.Mount.Policy.{old_mode, mode_diff, chmod_by, bindfs_chmod}

pub Result-cases :
    {A : Type 0} (r : Result A) → ((e : Errno) × (r ≡ error e)) ⊎ ((a : A) × (r ≡ done a))
Result-cases (error e) = inl (e, refl)
Result-cases (done a) = inr (a, refl)

module _ {W : Type 0} (os : Os W) (s : Settings) where
  old_mode-IsRegular :
      (w : W) (real_path : Str) (old : ℕ)
      → old_mode os s w real_path ≡ done (some old)
      → (s.chmod_allow_x ≡ true)
        × ((st : Stat) × (os.lstat w real_path ≡ done st) × (st.mode ≡ old) × (is_reg old ≡ true))
  unfolding old_mode
  old_mode-IsRegular w real_path old h = elim (Bool-cases s.chmod_allow_x) [
    | inr e ↦ absurd (ground arith)
    | inl e ↦ elim (Result-cases (os.lstat w real_path)) [
      | inl (err, bad) ↦ absurd (ground arith)
      | inr (st, found) ↦ elim (Bool-cases (is_reg st.mode)) [
        | inr other ↦ absurd (ground arith)
        | inl regular ↦ (e, (st, found, ground arith, ground arith))
      ]
    ]
  ]

  chmod_by-deny :
      (w w' : W) (real_path : Str) (mode : ℕ) (old : Option ℕ)
      → chmod_by os s chmod_deny w real_path mode old ≡ done w'
      → (m : ℕ) × (old ≡ some m)
        × (bit_and (mode_diff os s m mode) 0o7666 ≡ 0)
        × (os.chmod w real_path mode ≡ done w')
  unfolding chmod_by
  chmod_by-deny w w' real_path mode none h = absurd (ground arith)
  chmod_by-deny w w' real_path mode (some m) h = (m, refl, ground arith, ground arith)

  -- Under --chmod-deny, a `bindfs_chmod` that returns 0 was allowed by --chmod-allow-x, on a
  -- regular file: the system was asked for the given mode, and every bit of it under 07777 that is
  -- not an execute bit is that of the mode the file had.
  pub chmod_deny-keeps :
      (w w' : W) (path : Str) (mode : ℕ)
      → s.chmod_policy ≡ chmod_deny
      → bindfs_chmod os s w path mode ≡ done w'
      → (s.chmod_allow_x ≡ true)
        × ((real_path : Str) × (st : Stat) × (process_path os s w path true ≡ done real_path)
            × (os.lstat w real_path ≡ done st)
            × (is_reg st.mode ≡ true)
            × (os.chmod w real_path mode ≡ done w')
            × ((k : ℕ) → 0o7666 / 2 ^ k % 2 ≡ 1 → st.mode / 2 ^ k % 2 ≡ mode / 2 ^ k % 2))
  unfolding bindfs_chmod mode_diff
  chmod_deny-keeps w w' path mode deny h = elim (Result-cases (process_path os s w path true)) [
    | inl (e, bad) ↦ absurd (ground arith)
    | inr (real_path, proc) ↦ elim (Result-cases (old_mode os s w real_path)) [
      | inl (e, bad) ↦ absurd (ground arith)
      | inr (old, known) ↦
          let (m, is_m, same, asked) =
            chmod_by-deny w w' real_path mode old
              (ap (λ p. chmod_by os s p w real_path mode old) (sym deny) ∙ ground arith) in
          let (allowed, (st, found, is_st, regular)) =
            old_mode-IsRegular w real_path m (known ∙ ap done is_m) in
          (
            allowed,
            (
              real_path,
              st,
              proc,
              found,
              ap is_reg is_st ∙ regular,
              asked,
              λ k hk.
                  ap (λ t. t / 2 ^ k % 2) is_st
                  ∙ bit_xor_masked k m mode 0o7777 0o7666 same
                      (omega (arith, hk, bit_and-bit k 0o7666 0o7777)) hk,
            ),
          )
    ]
  ]
