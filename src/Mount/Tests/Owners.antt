-- ===== src/Mount/Tests/Owners.antt =====
-- The owners that src/cachefs.c shows and sets, at a concrete input.
use cachefs.Prelude.{bytes, ◌≡◌, refl, [], ◌∷◌, arith}
use cachefs.Posix.{Stat}
use cachefs.Mount.Sample.{disk, fc, memory_os, options, x_stat}
use cachefs.Usermap.{no_id, IdTable, usermap_create, find_or_default}
use cachefs.Usermap.Inverse.{AreInverse}
use cachefs.Mount.{Settings, pos}
use cachefs.Mount.Attr.{getattr_common, is_mirroring_enabled}
use cachefs.Mount.Policy.{bindfs_chown}
use cachefs.Mount.Paths.{process_path, or_dot, skip_slashes}
use cachefs.Mount.Ids.{apply_uid_offset, bounded_add, apply_gid_offset}
use cachefs.Permchain.{permchain_apply}
use cachefs.Mount.Owner.{chown-getattr_common}

abbrev forth : IdTable
forth = record { entries = (1000, 2000) ∷ []; capacity = 8 }

abbrev back : IdTable
back = record { entries = (2000, 1000) ∷ []; capacity = 8 }

-- --map=1000/2000
abbrev mapping : Settings
mapping = record options {
  usermap = record usermap_create { users = forth };
  usermap_reverse = record usermap_create { users = back };
  uid_offset = pos 0;
}

pair-AreInverse : AreInverse forth back
unfolding find_or_default
pair-AreInverse = record {
  forth_table = record { targets = ((λ e. absurd (omega (arith, e))), tt); within = omega arith };
  back_table = record { targets = ((λ e. absurd (omega (arith, e))), tt); within = omega arith };
  undoes = λ u v nu nv. (λ e. ground arith, λ e. ground arith);
}

abbrev shown_x : Stat
shown_x = record x_stat { uid = 2000 }

-- The file of 1000 is shown as that of 2000, and a chown to 2000 sets 1000.
chown-getattr_common_example :
    (shown_x.uid ≡ 2000)
    × (bindfs_chown memory_os mapping disk (bytes "/x") shown_x.uid no_id
        ≡ memory_os.lchown disk (bytes "x") 1000 no_id)
unfolding find_or_default getattr_common is_mirroring_enabled process_path apply_uid_offset
    bounded_add apply_gid_offset permchain_apply or_dot skip_slashes
chown-getattr_common_example =
    chown-getattr_common memory_os mapping fc disk (bytes "x") (bytes "/x") (bytes "x") x_stat
      shown_x 2000 pair-AreInverse refl refl refl refl refl refl (omega arith) (omega arith)
      (omega arith) refl refl
