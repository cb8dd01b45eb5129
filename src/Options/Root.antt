-- ===== src/Options/Root.antt =====
-- What `main` of src/cachefs.c leaves to root.
use mathlib.Core.Path.{subst}
use cachefs.Prelude.{
  ℕ, ◌≡◌, ◌≢◌, inl, inr, ◌==◌, ==_iff, Bool-cases, Option, none, some, Option-cases, List, [], ◌∷◌,
  arith, Str,
}
use cachefs.Mount.{Settings}
use cachefs.Options.{
  Doubles, Config, OptionKey, Processed, exits, refused, taken, left, default_settings,
  default_config,
}
use cachefs.Options.Process.{process_option, process_nonoption}
use cachefs.Options.Start.{OptionData, MainOs, goes_on}
use cachefs.Options.Configure.{process_options, start, with_options, main}
use cachefs.Options.Leads.{Leads, Leads-exit, Leads-option}
use cachefs.Options.Plain.{IsPlain, configure-IsPlain}

module _ (d : Doubles) (os : MainOs) (user_uid group_gid : Str → Option ℕ) (od : OptionData)
    (other : os.uid ≢ 0) where
  -- An option that is processed.
  IsPlainAfter : Processed → Type 0
  IsPlainAfter (exits n) = Unit
  IsPlainAfter refused = Unit
  IsPlainAfter (taken c) = IsPlain c.settings
  IsPlainAfter (left c) = IsPlain c.settings

  process_nonoption-IsPlain :
      (c : Config) (src dest : Option Str) (arg : Str)
      → IsPlain c.settings
      → IsPlainAfter (process_nonoption os.realpath c src dest arg)
  unfolding process_nonoption IsPlainAfter
  process_nonoption-IsPlain c none dest arg h = elim (Option-cases (os.realpath arg)) [
    | inl e ↦ ground arith
    | inr (real, e) ↦ ground arith
  ]
  process_nonoption-IsPlain c (some src) none arg h = elim (Option-cases (os.realpath arg)) [
    | inl e ↦ rw (e, process_nonoption) tt
    | inr (real, e) ↦ rw (e, process_nonoption) h
  ]
  process_nonoption-IsPlain c (some src) (some dest) arg h = tt

  process_option-IsPlain :
      (c : Config) (key : OptionKey) (arg : Str)
      → IsPlain c.settings
      → IsPlainAfter (process_option d os.realpath os.uid c key arg)
  unfolding process_option IsPlainAfter
  process_option-IsPlain c OptionKey.nonoption arg h =
      process_nonoption-IsPlain c c.mntsrc c.mntdest arg h
  process_option-IsPlain c OptionKey.create_as_user_key arg h = elim (Bool-cases (os.uid == 0)) [
    | inl e ↦ absurd (other ((==_iff os.uid 0).0 e))
    | inr e ↦ rw (e, process_option) tt
  ]
  process_option-IsPlain c key arg h = ground arith

  process_options-IsPlain :
      (options : List (OptionKey × Str)) (c : Config)
      → IsPlain c.settings
      → IsPlainAfter (process_options d os user_uid group_gid od options c)
  unfolding process_options IsPlainAfter
  process_options-IsPlain [] c h = h
  process_options-IsPlain ((key, arg) ∷ more) c h =
      after (process_option d os.realpath os.uid c key arg) (process_option-IsPlain c key arg h)
        (process_options-IsPlain more)
    where
      after :
          (r : Processed)
          → IsPlainAfter r
          → ((c' : Config)
              → IsPlain c'.settings
              → IsPlainAfter (process_options d os user_uid group_gid od more c'))
          → IsPlainAfter (elim r [
            | exits n ↦ exits n
            | refused ↦ refused
            | taken c' ↦ process_options d os user_uid group_gid od more c'
            | left c' ↦ process_options d os user_uid group_gid od more c'
          ])
      after (exits n) k ih = tt
      after refused k ih = tt
      after (taken c') k ih = ih c' k
      after (left c') k ih = ih c' k

  start-IsPlain :
      (c : Config) → IsPlain c.settings → Leads IsPlain (start d os user_uid group_gid od c)
  unfolding start
  start-IsPlain c h = Leads-option IsPlain c.mntsrc _ (λ src.
      Leads-option IsPlain c.mntdest _
        (λ dest. configure-IsPlain d os user_uid group_gid od other src _ (ground arith)))

  with_options-IsPlain :
      (r : Processed) → IsPlainAfter r → Leads IsPlain (with_options d os user_uid group_gid od r)
  unfolding with_options IsPlainAfter
  with_options-IsPlain (exits n) h = Leads-exit IsPlain n
  with_options-IsPlain refused h = Leads-exit IsPlain 1
  with_options-IsPlain (taken c) h = start-IsPlain c h
  with_options-IsPlain (left c) h = start-IsPlain c h

  default-IsPlain : IsPlain (default_settings os.uid)
  unfolding default_settings
  default-IsPlain = ground arith

  -- For a process whose user is not root, whatever the options are: if `main` comes to fuse_main, the
  -- settings map no user and no group, in neither direction, shift no owner, create files for no other
  -- user or group, and create them as the mounter.
  pub main-IsPlain :
      (options : List (OptionKey × Str)) (s : Settings)
      → main d os user_uid group_gid od options ≡ goes_on s
      → IsPlain s
  unfolding main Leads
  main-IsPlain options s e = subst (Leads IsPlain) e (
      with_options-IsPlain
        (process_options d os user_uid group_gid od options (default_config os.uid))
        (process_options-IsPlain options (default_config os.uid) default-IsPlain))
