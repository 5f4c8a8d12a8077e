-- ===== src/Fs/Stat/Tests.antt =====
-- A regular file with the permission 644.
use couv.Prelude.{ℕ, ◌+◌, ◌%◌, ◌≤◌, ◌≡◌, refl, true, some, List, [], ◌∷◌, length, arith}
use couv.Prelude.Int.{pos}
use couv.Lua.{ok}
use couv.Fs.Calls.{Mode, fs_checkmode}
use couv.Fs.Stat.{Stat, strtoul, fs_stat_permission, fs_stat_is_file, octal}
use couv.Fs.Stat.Permission.{permission_round_trip}

abbrev unit : Unit {0}
unit = tt

abbrev file : Stat
file = record {
  st_dev = 1;
  st_ino = 2;
  st_mode = 33188;
  st_nlink = 1;
  st_gid = 0;
  st_uid = 0;
  st_rdev = 0;
  st_size = 10;
  st_blksize = 4096;
  st_blocks = 8;
  st_atime = 0;
  st_mtime = 0;
  st_ctime = 0;
}

-- "0644".
permission_of_file : fs_stat_permission (some file) unit ≡ ok (48 ∷ 54 ∷ 52 ∷ 52 ∷ []) unit
unfolding fs_stat_permission octal
permission_of_file = refl

it_is_a_file : fs_stat_is_file (some file) unit ≡ ok true unit
unfolding fs_stat_is_file
it_is_a_file = refl

permission_round_trip_example :
    (text : List ℕ) × (fs_stat_permission (some file) unit ≡ ok text unit)
    × (length text + 1 ≤ 16)
    × (fs_checkmode strtoul 2 (Mode.string text) unit ≡ ok (pos (file.st_mode % 4096)) unit)
permission_round_trip_example = permission_round_trip unit file 2 (omega arith)
