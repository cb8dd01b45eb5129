-- ===== src/Options/Plain.antt =====
-- What the parts of `main` of src/cachefs.c do for a user that is not root.
use cachefs.Prelude.{
  ℕ, ◌≡◌, ◌≢◌, inl, inr, true, ◌==◌, Bool-cases, Option, none, some, Option-cases, List, arith, Str,
}
use cachefs.Posix.{Status, ok, failed}
use cachefs.Usermap.{no_id, usermap_create}
use cachefs.Permchain.{Rule}
use cachefs.Permchain.Parse.{add_chmod_rules_to_permchain}
use cachefs.Mount.{Settings, pos, create_as_mounter}
use cachefs.Options.{Doubles}
use cachefs.Options.Mirror.{MirrorResult, mirrors, parse_mirrored_users}
use cachefs.Options.Start.{
  OptionData, MainOs, Exit, exits_with, goes_on, given, as_root, check_rate, parse_byte_count,
  parse_alignment, parse_deletion_policy, add_rules_to, with_mirrors,
}
use cachefs.Options.Configure.{
  parse_owner, parse_rates, parse_maps, parse_offsets, parse_odirect, parse_create_for,
  parse_mirror, parse_permissions, parse_deletion, choose_cache_root, prepare_mount, configure,
}
use cachefs.Options.Leads.{
  Leads, Leads-bind, Leads-given, Leads-as_root, Leads-with_id, Leads-exit, Leads-go, Leads-if,
  Leads-option,
}

-- No user or group is mapped, and new files get no other owner.
pub record IsPlain (s : Settings) : Type 0 where
  pub no_map : s.usermap ≡ usermap_create
  pub no_reverse : s.usermap_reverse ≡ usermap_create
  pub no_uid_offset : s.uid_offset ≡ pos 0
  pub no_gid_offset : s.gid_offset ≡ pos 0
  pub no_create_uid : s.create_for_uid ≡ no_id
  pub no_create_gid : s.create_for_gid ≡ no_id
  pub as_mounter : s.create_policy ≡ create_as_mounter

add_rules_to-IsPlain :
    (pc : List Rule) (set : List Rule → Settings) (text : Str)
    → ((rules : List Rule) → IsPlain (set rules))
    → Leads IsPlain (add_rules_to pc set text)
unfolding add_rules_to Leads
add_rules_to-IsPlain pc set text h = by_status (add_chmod_rules_to_permchain text pc)
  where
    by_status :
        (r : Status × List Rule)
        → Leads IsPlain (elim r.0 [ failed ↦ exits_with 1 | ok ↦ goes_on (set r.1) ])
    by_status (ok, rules) = h rules
    by_status (failed, rules) = tt

with_mirrors-IsPlain :
    (s : Settings) (r : MirrorResult) → IsPlain s → Leads IsPlain (with_mirrors s r)
unfolding with_mirrors Leads
with_mirrors-IsPlain s MirrorResult.invalid h = tt
with_mirrors-IsPlain s MirrorResult.overrun h = tt
with_mirrors-IsPlain s MirrorResult.asserts h = tt
with_mirrors-IsPlain s MirrorResult.unfinished h = tt
with_mirrors-IsPlain s (mirrors m) h = ground arith

module _ (d : Doubles) (os : MainOs) (user_uid group_gid : Str → Option ℕ) (od : OptionData)
    (other : os.uid ≢ 0) where
  parse_owner-IsPlain :
      (s : Settings) → IsPlain s → Leads IsPlain (parse_owner d os user_uid group_gid od s)
  unfolding parse_owner
  parse_owner-IsPlain s h =
      Leads-bind IsPlain _ _
        (Leads-given IsPlain _ _ s h (λ name. Leads-with_id IsPlain _ _ (λ id. ground arith)))
        (λ t k.
          Leads-given IsPlain _ _ t k (λ name. Leads-with_id IsPlain _ _ (λ id. ground arith)))

  check_rate-IsPlain : (rate : Str) (s : Settings) → IsPlain s → Leads IsPlain (check_rate d rate s)
  unfolding check_rate Leads
  check_rate-IsPlain rate s h = elim (Option-cases (parse_byte_count d rate)) [
    | inl e ↦ rw (e, check_rate) tt
    | inr (r, e) ↦ elim (Bool-cases (d.is_positive r)) [
      | inl p ↦ rw (e, p, check_rate) h
      | inr p ↦ rw (e, p, check_rate) tt
    ]
  ]

  parse_rates-IsPlain :
      (s : Settings) → IsPlain s → Leads IsPlain (parse_rates d os user_uid group_gid od s)
  unfolding parse_rates
  parse_rates-IsPlain s h =
      Leads-bind IsPlain _ _ (Leads-given IsPlain _ _ s h (λ rate. check_rate-IsPlain rate s h))
        (λ t k. Leads-given IsPlain _ _ t k (λ rate. check_rate-IsPlain rate t k))

  -- An option for root only.
  root_only :
      (o : Option Str) (f : Str → Settings → Exit) (s : Settings)
      → IsPlain s
      → Leads IsPlain (given o (λ text. as_root os.uid (f text)) s)
  root_only o f s h =
      Leads-given IsPlain o (λ text. as_root os.uid (f text)) s h
        (λ text. Leads-as_root IsPlain os.uid (f text) s other)

  parse_maps-IsPlain :
      (s : Settings) → IsPlain s → Leads IsPlain (parse_maps d os user_uid group_gid od s)
  unfolding parse_maps
  parse_maps-IsPlain s h = Leads-bind IsPlain _ _ (root_only _ _ s h) (λ s1 h1.
      Leads-bind IsPlain _ _ (root_only _ _ s1 h1) (λ s2 h2.
        Leads-bind IsPlain _ _ (root_only _ _ s2 h2)
          (λ s3 h3. Leads-bind IsPlain _ _ (root_only _ _ s3 h3) (λ s4 h4. root_only _ _ s4 h4))))

  parse_offsets-IsPlain :
      (s : Settings) → IsPlain s → Leads IsPlain (parse_offsets d os user_uid group_gid od s)
  unfolding parse_offsets
  parse_offsets-IsPlain s h = Leads-bind IsPlain _ _ (root_only _ _ s h) (λ t k. root_only _ _ t k)

  parse_create_for-IsPlain :
      (s : Settings) → IsPlain s → Leads IsPlain (parse_create_for d os user_uid group_gid od s)
  unfolding parse_create_for
  parse_create_for-IsPlain s h =
      Leads-bind IsPlain _ _ (root_only _ _ s h) (λ t k. root_only _ _ t k)

  parse_odirect-IsPlain :
      (s : Settings) → IsPlain s → Leads IsPlain (parse_odirect d os user_uid group_gid od s)
  unfolding parse_odirect
  parse_odirect-IsPlain s h = Leads-given IsPlain _ _ s h (λ text.
      Leads-option IsPlain (parse_alignment text) _ (λ n.
        Leads-if IsPlain (n == 0) _ _ (Leads-exit IsPlain 1) (Leads-go IsPlain _ (ground arith))))

  parse_mirror-IsPlain :
      (s : Settings) → IsPlain s → Leads IsPlain (parse_mirror d os user_uid group_gid od s)
  unfolding parse_mirror
  parse_mirror-IsPlain s h = by_option od.mirror_only od.mirror
    where
      by_option :
          (only mirror : Option Str)
          → Leads IsPlain (elim only [
            | none ↦
                given mirror
                  (λ names t. with_mirrors t (parse_mirrored_users user_uid group_gid names))
                  s
            | some names ↦ elim mirror [
              | some other_names ↦ exits_with 1
              | none ↦
                  with_mirrors
                    (record s { mirrored_users_only = true })
                    (parse_mirrored_users user_uid group_gid names)
            ]
          ])
      by_option none mirror =
          Leads-given IsPlain _ _ s h
            (λ names. with_mirrors-IsPlain s (parse_mirrored_users user_uid group_gid names) h)
      by_option (some names) none =
          with_mirrors-IsPlain (record s { mirrored_users_only = true }) _ (ground arith)
      by_option (some names) (some more) = Leads-exit IsPlain 1

  parse_permissions-IsPlain :
      (s : Settings) → IsPlain s → Leads IsPlain (parse_permissions d os user_uid group_gid od s)
  unfolding parse_permissions
  parse_permissions-IsPlain s h =
      Leads-bind IsPlain _ _
        (Leads-given IsPlain _ _ s h
          (λ text. add_rules_to-IsPlain _ _ text (λ rules. ground arith)))
        (λ s1 h1.
          Leads-bind IsPlain _ _
            (Leads-given IsPlain _ _ s1 h1
              (λ text. add_rules_to-IsPlain _ _ text (λ rules. ground arith)))
            (λ s2 h2.
              Leads-given IsPlain _ _ s2 h2
                (λ text. add_rules_to-IsPlain _ _ text (λ rules. ground arith))))

  parse_deletion-IsPlain :
      (s : Settings) → IsPlain s → Leads IsPlain (parse_deletion d os user_uid group_gid od s)
  unfolding parse_deletion
  parse_deletion-IsPlain s h = Leads-given IsPlain _ _ s h (λ text.
      Leads-option IsPlain (parse_deletion_policy text) _
        (λ policy. Leads-go IsPlain _ (ground arith)))

  choose_cache_root-IsPlain :
      (src : Str) (s : Settings)
      → IsPlain s
      → IsPlain (choose_cache_root d os user_uid group_gid od src s)
  unfolding choose_cache_root
  choose_cache_root-IsPlain src s h = ground arith

  prepare_mount-IsPlain :
      (src : Str) (s : Settings)
      → IsPlain s
      → Leads IsPlain (prepare_mount d os user_uid group_gid od src s)
  unfolding prepare_mount
  prepare_mount-IsPlain src s h =
      Leads-if IsPlain (os.can_open src) _ _
        (Leads-if IsPlain _ _ _ (Leads-exit IsPlain 1)
          (Leads-go IsPlain _ (choose_cache_root-IsPlain src s h)))
        (Leads-exit IsPlain 1)

  pub configure-IsPlain :
      (src : Str) (s : Settings)
      → IsPlain s
      → Leads IsPlain (configure d os user_uid group_gid od src s)
  unfolding configure
  configure-IsPlain src s h = Leads-bind IsPlain _ _ (parse_owner-IsPlain s h) (λ s1 h1.
      Leads-bind IsPlain _ _ (parse_rates-IsPlain s1 h1) (λ s2 h2.
        Leads-bind IsPlain _ _ (parse_maps-IsPlain s2 h2) (λ s3 h3.
          Leads-bind IsPlain _ _ (parse_offsets-IsPlain s3 h3) (λ s4 h4.
            Leads-bind IsPlain _ _ (parse_odirect-IsPlain s4 h4) (λ s5 h5.
              Leads-bind IsPlain _ _ (parse_create_for-IsPlain s5 h5) (λ s6 h6.
                Leads-bind IsPlain _ _ (parse_mirror-IsPlain s6 h6) (λ s7 h7.
                  Leads-bind IsPlain _ _ (parse_permissions-IsPlain s7 h7) (λ s8 h8.
                    Leads-bind IsPlain _ _ (parse_deletion-IsPlain s8 h8)
                      (λ s9 h9. prepare_mount-IsPlain src s9 h9)))))))))
