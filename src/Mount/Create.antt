-- ===== src/Mount/Create.antt =====
-- `bindfs_mknod`, `bindfs_create` and `bindfs_link` of src/cachefs.c, on Linux.
use cachefs.Prelude.Bits.{bit_and, bit_or}
use cachefs.Prelude.{ℕ, Bool, true, some, ◌==◌, if◌then◌else◌, Str}
use cachefs.Posix.{file_type}
use cachefs.Meta.{Sqlite, cache_meta_invalidate}
use cachefs.Block.{BlockFs}
use cachefs.Permchain.{permchain_apply}
use cachefs.Mount.{Result, error, done, Settings, FuseContext, FuseFileInfo, Os, State}
use cachefs.Mount.Paths.{process_path}
use cachefs.Mount.Files.{open_flags}
use cachefs.Mount.Policy.{chown_new_file}
use cachefs.Mount.Entries.{forget_new}

-- S_ISFIFO
abbrev is_fifo : ℕ → Bool
is_fifo mode = file_type mode == 1

module _ {W Db : Type 0} (os : Os W) (fs : BlockFs W) (sql : Sqlite Db) (s : Settings) where
  -- mkfifo or mknod, by the type that the chain leaves.
  unfoldable pub make_node : W → Str → ℕ → ℕ → Result W
  make_node w real_path mode rdev =
      if is_fifo mode then os.mkfifo w real_path mode else os.mknod w real_path mode rdev

  -- The caches are left alone.
  unfoldable pub bindfs_mknod : FuseContext → State W Db → Str → ℕ → ℕ → Result Unit × State W Db
  bindfs_mknod fc st path mode rdev = elim (process_path os s st.world path true) [
    | error e ↦ (error e, st)
    | done real_path ↦
        elim (make_node st.world real_path (permchain_apply s.create_permchain mode) rdev) [
          | error e ↦ (error e, st)
          | done made ↦
              let (res, w) = chown_new_file os s real_path fc os.chown made in
              (res, record st { world = w })
        ]
  ]

  -- What the change of the owner returns is not looked at.
  unfoldable pub bindfs_create :
      FuseContext → State W Db → Str → ℕ → FuseFileInfo → Result FuseFileInfo × State W Db
  bindfs_create fc st path mode fi = elim (process_path os s st.world path true) [
    | error e ↦ (error e, st)
    | done real_path ↦
        let shown = permchain_apply s.create_permchain (bit_or mode 0o100000) in
        elim (os.create_file st.world real_path (open_flags os fs sql s fi.flags)
          (bit_and shown 0o777)) [
            | error e ↦ (error e, st)
            | done (fd, made) ↦
                let (res, w) = chown_new_file os s real_path fc os.chown made in
                (
                  done (record fi { fh = fd }),
                  forget_new os fs sql s (record st { world = w }) real_path,
                )
          ]
  ]

  -- Only the entry of the new name is dropped, not the listing of its directory.
  unfoldable pub bindfs_link : State W Db → Str → Str → Result Unit × State W Db
  bindfs_link st from to = elim (process_path os s st.world from true) [
    | error e ↦ (error e, st)
    | done real_from ↦ elim (process_path os s st.world to true) [
      | error e ↦ (error e, st)
      | done real_to ↦ elim (os.link st.world real_from real_to) [
        | error e ↦ (error e, st)
        | done w ↦ (
          done tt,
          record st {
            cache_meta_ctx = (cache_meta_invalidate sql st.cache_meta_ctx (some real_to)).1;
            world = w;
          },
        )
      ]
    ]
  ]
