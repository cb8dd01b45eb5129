-- ===== src/Mount/Owner.antt =====
-- The owner that `bindfs_getattr` of src/cachefs.c shows under --map, and the one that `bindfs_chown`
-- sets for it.
use cachefs.Prelude.{
  ℕ, ◌≤◌, ◌≡◌, ◌≢◌, refl, ap, sym, ◌∙◌, ◌==◌, some, List, [], ◌∷◌, Str, true, false, not, ◌&&◌,
  none, inl, inr, Bool-cases, arith, if◌then◌else◌,
}
use cachefs.Posix.{Stat, is_blk}
use cachefs.Usermap.{no_id, find_or_default, usermap_get_uid_or_default, usermap_get_gid_or_default}
use cachefs.Usermap.Inverse.{AreInverse}
use cachefs.Mount.{FuseContext, pos, done, Settings, Os, chown_normal}
use cachefs.Mount.Ids.{
  id_max, bounded_add, negate, apply_uid_offset, apply_gid_offset, unapply_uid_offset,
}
use cachefs.Mount.Attr.{
  is_mirroring_enabled, show_owner, show_device, show_mode, show_file, show_mirrored,
  getattr_common,
}
use cachefs.Mount.Policy.{target_uid, target_gid, bindfs_chown}
use cachefs.Mount.Paths.{process_path}
use cachefs.Mount.Chmod.{Result-cases}

-- What is found does not depend on the default.
find-found :
    (es : List (ℕ × ℕ)) (u v deflt : ℕ)
    → find_or_default es u no_id ≡ v
    → v ≢ no_id
    → find_or_default es u deflt ≡ v
unfolding find_or_default
find-found [] u v deflt h ne = absurd (ne (sym h))
find-found ((from, to) ∷ es) u v deflt h ne = ground (arith, find-found es u v deflt)

no_offset :
    (s : Settings) (u : ℕ) → s.uid_offset ≡ pos 0 → u ≤ id_max → apply_uid_offset s u ≡ some u
unfolding apply_uid_offset bounded_add
no_offset s u h fits = ap (λ o. bounded_add u o id_max) h ∙ ground arith

no_gid_offset :
    (s : Settings) (g : ℕ) → s.gid_offset ≡ pos 0 → g ≤ id_max → apply_gid_offset s g ≡ some g
unfolding apply_gid_offset bounded_add
no_gid_offset s g h fits = ap (λ o. bounded_add g o id_max) h ∙ ground arith

no_offset_back :
    (s : Settings) (u : ℕ) → s.uid_offset ≡ pos 0 → u ≤ id_max → unapply_uid_offset s u ≡ some u
unfolding unapply_uid_offset bounded_add negate
no_offset_back s u h fits = ap (λ o. bounded_add u (negate o) id_max) h ∙ ground arith

module _ {W : Type 0} (os : Os W) (s : Settings) (offset : s.uid_offset ≡ pos 0)
    (gid_offset : s.gid_offset ≡ pos 0) where
  target_mapped :
      (u v : ℕ)
      → find_or_default s.usermap_reverse.users.entries v no_id ≡ u
      → u ≤ id_max
      → v ≤ id_max
      → target_uid os s chown_normal v ≡ done u
  unfolding target_uid
  target_mapped u v h hu hv =
      let back = find-found s.usermap_reverse.users.entries v u v h (λ e. omega (arith, e)) in
      ground (arith, back, no_offset_back s u offset hu)

  show_mapped :
      (st : Stat) (v : ℕ)
      → s.new_uid ≡ no_id
      → find_or_default s.usermap.users.entries st.uid no_id ≡ v
      → v ≤ id_max
      → usermap_get_gid_or_default s.usermap st.gid st.gid ≤ id_max
      → (shown : Stat) × (show_owner os s st ≡ done shown) × (shown.uid ≡ v)
  unfolding show_owner
  show_mapped st v forced maps fits fits_g =
      let t =
        if s.ctime_from_mtime
        then record st { ctime = st.mtime; ctime_nsec = st.mtime_nsec }
        else st in
      let g = usermap_get_gid_or_default s.usermap st.gid st.gid in
      let same_uid : t.uid ≡ st.uid = ground arith in
      let same_gid : t.gid ≡ st.gid = ground arith in
      let forth = find-found s.usermap.users.entries st.uid v st.uid maps (λ e. omega (arith, e)) in
      let uid : apply_uid_offset s (usermap_get_uid_or_default s.usermap t.uid t.uid) ≡ some v =
        ap (λ u. apply_uid_offset s (usermap_get_uid_or_default s.usermap u u)) same_uid
        ∙ ap (apply_uid_offset s) forth
        ∙ no_offset s v offset fits in
      let gid : apply_gid_offset s (usermap_get_gid_or_default s.usermap t.gid t.gid) ≡ some g =
        ap (λ u. apply_gid_offset s (usermap_get_gid_or_default s.usermap u u)) same_gid
        ∙ no_gid_offset s g gid_offset fits_g in
      (
        record t {
          uid = if s.new_uid == no_id then v else s.new_uid;
          gid = if s.new_gid == no_id then g else s.new_gid;
        },
        rw (show_owner, uid, gid) refl,
        ap (λ n. if n == no_id then v else n) forced,
      )

module _ {W : Type 0} (os : Os W) (s : Settings) where
  uid-show_device :
      (w : W) (p : Str) (st shown : Stat)
      → show_device os s w p st ≡ done shown
      → shown.uid ≡ st.uid
  unfolding show_device
  uid-show_device w p st shown h = elim (Bool-cases (s.block_devices_as_files && is_blk st.mode)) [
    | inr other ↦ ground arith
    | inl device ↦ elim (Result-cases (os.device_size w p)) [
      | inl (e, bad) ↦ ground arith
      | inr (none, good) ↦ ground arith
      | inr (some n, good) ↦ ground arith
    ]
  ]

  uid-show_mode : (w : W) (p : Str) (st : Stat) → (show_mode os s w p st).uid ≡ st.uid
  unfolding show_mode
  uid-show_mode w p st = ground arith

  uid-show_file :
      (w : W) (p : Str) (st shown : Stat) → show_file os s w p st ≡ done shown → shown.uid ≡ st.uid
  unfolding show_file
  uid-show_file w p st shown h =
      let linked = if s.hide_hard_links then record st { nlink = 1 } else st in
      let same : linked.uid ≡ st.uid = ground arith in
      elim (Result-cases (show_device os s w p linked)) [
        | inl (e, bad) ↦ absurd (ground arith)
        | inr (file, good) ↦
            ground (arith, uid-show_device w p linked file good, uid-show_mode w p file, same)
      ]

  uid-show_mirrored :
      (fc : FuseContext) (w : W) (p : Str) (st shown : Stat)
      → is_mirroring_enabled os s ≡ false
      → show_mirrored os s fc w p st ≡ done shown
      → shown.uid ≡ st.uid
  unfolding show_mirrored
  uid-show_mirrored fc w p st shown off h =
      elim (Bool-cases (s.mirrored_users_only && not (fc.uid == 0))) [
        | inl denied ↦ ground arith
        | inr shows ↦ uid-show_file w p st shown (ground arith)
      ]

  chown_owner :
      (w : W) (path real_path : Str) (u v : ℕ)
      → s.chown_policy ≡ chown_normal
      → target_uid os s chown_normal v ≡ done u
      → u ≤ id_max
      → process_path os s w path true ≡ done real_path
      → bindfs_chown os s w path v no_id ≡ os.lchown w real_path u no_id
  unfolding bindfs_chown target_gid target_uid
  chown_owner w path real_path u v policy target fits proc =
      rw (bindfs_chown, policy, target, proc) (ground arith)

-- Without offsets, a forced owner and mirroring, under the normal policy, where the map and the
-- reverse map undo one another, and the ids are at most UID_T_MAX, for a file whose user the map
-- maps: if `getattr_common`, the last part of `bindfs_getattr`, shows attributes, they have the user
-- that the map gives, and `bindfs_chown` of any path to that user, and to no group, asks the system
-- to give the processed path the user that the file has.
pub chown-getattr_common :
    {W : Type 0} (os : Os W) (s : Settings) (fc : FuseContext) (w : W)
    (procpath path real_path : Str) (st shown : Stat) (v : ℕ)
    → AreInverse s.usermap.users s.usermap_reverse.users
    → s.uid_offset ≡ pos 0
    → s.gid_offset ≡ pos 0
    → s.new_uid ≡ no_id
    → is_mirroring_enabled os s ≡ false
    → s.chown_policy ≡ chown_normal
    → find_or_default s.usermap.users.entries st.uid no_id ≡ v
    → v ≤ id_max
    → st.uid ≤ id_max
    → usermap_get_gid_or_default s.usermap st.gid st.gid ≤ id_max
    → getattr_common os s fc w procpath st ≡ done shown
    → process_path os s w path true ≡ done real_path
    → (shown.uid ≡ v)
      × (bindfs_chown os s w path shown.uid no_id ≡ os.lchown w real_path st.uid no_id)
unfolding getattr_common
chown-getattr_common os s fc w procpath path real_path st shown v inverse offset gid_offset forced
      off policy maps fits_v fits fits_g shows proc =
    let back = (inverse.undoes st.uid v (λ e. omega (arith, e)) (λ e. omega (arith, e))).0 maps in
    let (owned, owner, is_v) = show_mapped os s offset gid_offset st v forced maps fits_v fits_g in
    let is_shown : shown.uid ≡ v =
      uid-show_mirrored os s fc w procpath owned shown off (ground arith) ∙ is_v in
    (
      is_shown,
      ap (λ u. bindfs_chown os s w path u no_id) is_shown
          ∙ chown_owner os s w path real_path st.uid v policy
              (target_mapped os s offset gid_offset st.uid v back fits fits_v) fits proc,
    )
