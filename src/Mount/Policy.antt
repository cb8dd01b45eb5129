-- ===== src/Mount/Policy.antt =====
-- `chown_new_file`, `bindfs_chmod` and `bindfs_chown` of src/cachefs.c. What they return is the
-- world that is left, since they do not touch the caches.
use cachefs.Prelude.Bits.{bit_and, bit_xor}
use cachefs.Prelude.{
  ℕ, true, ◌&&◌, Option, none, some, ◌==◌, if◌then◌else◌, Str, bytes, str_eq, [], ◌∷◌,
}
use cachefs.Posix.{Errno, is_reg}
use cachefs.Permchain.{permchain_apply}
use cachefs.Usermap.{no_id, usermap_get_uid_or_default, usermap_get_gid_or_default}
use cachefs.Mount.{
  Result, error, done, Settings, FuseContext, Os, CreatePolicy, create_as_user, create_as_mounter,
  ChownPolicy, chown_normal, chown_ignore, chown_deny, ChgrpPolicy, chgrp_normal, chgrp_ignore,
  chgrp_deny, ChmodPolicy, chmod_normal, chmod_ignore, chmod_deny,
}
use cachefs.Mount.Ids.{unapply_uid_offset, unapply_gid_offset}
use cachefs.Mount.Paths.{process_path, split_last}

-- `my_dirname` of src/misc.c on a path that is not empty.
unfoldable pub my_dirname : Str → Str
my_dirname path =
    if str_eq path (bytes ".")
    then bytes ".."
    else if str_eq path (bytes "/")
    then bytes "/"
    else elim (split_last path) [
      | none ↦ bytes "."
      | some ([], rest) ↦ bytes "/"
      | some (c ∷ cs, rest) ↦ c ∷ cs
    ]

-- An id of -1 is left alone.
unfoldable pub unless_no_id : (ℕ → Option ℕ) → ℕ → Option ℕ
unless_no_id f id = if id == no_id then some id else f id

module _ {W : Type 0} (os : Os W) (s : Settings) where
  -- The owner and the group to begin with: a set-group-ID directory gives its own group.
  unfoldable pub new_owner : FuseContext → W → Str → CreatePolicy → ℕ × ℕ
  new_owner fc w path create_as_mounter = (no_id, no_id)
  new_owner fc w path create_as_user = elim (os.lstat w (my_dirname path)) [
    | error e ↦ (fc.uid, fc.gid)
    | done st ↦ (fc.uid, if bit_and st.mode 0o2000 == 0 then fc.gid else no_id)
  ]

  -- The chown at the end, whose failure is passed over.
  unfoldable pub try_chown : (W → Str → ℕ → ℕ → Result W) → W → Str → ℕ → ℕ → W
  try_chown chown_func w path owner group =
      if owner == no_id && group == no_id
      then w
      else elim (chown_func w path owner group) [ error e ↦ w | done w' ↦ w' ]

  unfoldable pub chown_new_file :
      Str → FuseContext → (W → Str → ℕ → ℕ → Result W) → W → Result Unit × W
  chown_new_file path fc chown_func w =
      let (owner, group) = new_owner fc w path s.create_policy in
      let file_owner = usermap_get_uid_or_default s.usermap_reverse fc.uid owner in
      let file_group = usermap_get_gid_or_default s.usermap_reverse fc.gid group in
      elim (unless_no_id (unapply_uid_offset s) file_owner) [
        | none ↦ (error Errno.eio, w)
        | some uid ↦ elim (unless_no_id (unapply_gid_offset s) file_group) [
          | none ↦ (error Errno.eio, w)
          | some gid ↦ (
            done tt,
            try_chown chown_func w path
                (if s.create_for_uid == no_id then uid else s.create_for_uid)
                (if s.create_for_gid == no_id then gid else s.create_for_gid),
          )
        ]
      ]

  -- The old mode of a regular file, where execute bits may change; `none` for other files.
  unfoldable pub old_mode : W → Str → Result (Option ℕ)
  old_mode w real_path =
      if s.chmod_allow_x
      then elim (os.lstat w real_path) [
        | error e ↦ error e
        | done st ↦ done (if is_reg st.mode then some st.mode else none)
      ]
      else done none

  -- The bits that would change.
  unfoldable pub mode_diff : ℕ → ℕ → ℕ
  mode_diff old mode = bit_xor (bit_and old 0o7777) (bit_and mode 0o7777)

  -- The `switch` on the policy.
  unfoldable pub chmod_by : ChmodPolicy → W → Str → ℕ → Option ℕ → Result W
  chmod_by chmod_normal w real_path mode old =
      os.chmod w real_path (permchain_apply s.chmod_permchain mode)
  chmod_by chmod_ignore w real_path mode none = done w
  chmod_by chmod_ignore w real_path mode (some old) =
      os.chmod w real_path (bit_xor old (bit_and (mode_diff old mode) 0o111))
  chmod_by chmod_deny w real_path mode none = error Errno.eperm
  chmod_by chmod_deny w real_path mode (some old) =
      if bit_and (mode_diff old mode) 0o7666 == 0
      then os.chmod w real_path mode
      else error Errno.eperm

  unfoldable pub bindfs_chmod : W → Str → ℕ → Result W
  bindfs_chmod w path mode = elim (process_path os s w path true) [
    | error e ↦ error e
    | done real_path ↦ elim (old_mode w real_path) [
      | error e ↦ error e
      | done old ↦ chmod_by s.chmod_policy w real_path mode old
    ]
  ]

  -- The user to set, by the policy.
  unfoldable pub target_uid : ChownPolicy → ℕ → Result ℕ
  target_uid policy uid = if uid == no_id then done uid else elim policy [
    | chown_normal ↦
        elim (unapply_uid_offset s (usermap_get_uid_or_default s.usermap_reverse uid uid)) [
          | none ↦ error Errno.eio
          | some id ↦ done id
        ]
    | chown_ignore ↦ done no_id
    | chown_deny ↦ error Errno.eperm
  ]

  unfoldable pub target_gid : ChgrpPolicy → ℕ → Result ℕ
  target_gid policy gid = if gid == no_id then done gid else elim policy [
    | chgrp_normal ↦
        elim (unapply_gid_offset s (usermap_get_gid_or_default s.usermap_reverse gid gid)) [
          | none ↦ error Errno.eio
          | some id ↦ done id
        ]
    | chgrp_ignore ↦ done no_id
    | chgrp_deny ↦ error Errno.eperm
  ]

  unfoldable pub bindfs_chown : W → Str → ℕ → ℕ → Result W
  bindfs_chown w path uid gid = elim (target_uid s.chown_policy uid) [
    | error e ↦ error e
    | done owner ↦ elim (target_gid s.chgrp_policy gid) [
      | error e ↦ error e
      | done group ↦
          if owner == no_id && group == no_id
          then done w
          else elim (process_path os s w path true) [
            | error e ↦ error e
            | done real_path ↦ os.lchown w real_path owner group
          ]
    ]
  ]
