-- ===== src/Flags/Volume.antt =====
-- src/statvfs.c, the branch for Windows: three calls about a volume.
use extunix.Base.{ℕ, ◌-◌, ◌*◌, ◌/◌, ◌%◌, ◌^◌, String, Option, none, some}
use extunix.Base.Int.{pos}
use extunix.Base.Call.{Errno, unix_error, Result, ok, raised}
use extunix.Base.Heap.{Heap, strdup, stat_free}
use extunix.Flags.Open.{Header}
use extunix.Flags.Statvfs.{Statvfs, copy_int64, convert_st_flags}

-- What `GetDiskFreeSpace` tells, in numbers of 32 bits.
pub record DiskSpace : Type 0 where
  pub sectors_per_cluster : ℕ
  pub bytes_per_sector : ℕ
  pub number_of_free_clusters : ℕ
  pub total_number_of_clusters : ℕ

-- What `GetVolumeInformation` tells.
pub record VolumeInfo : Type 0 where
  pub serial_number : ℕ
  pub file_system_flags : ℕ

-- The calls of Windows; `none` is a call that fails. `errno` is that of the C library, which the
-- calls do not set.
pub record Win32Volume (K : Type 0) : Type 0 where
  pub get_disk_free_space : String → K → Option DiskSpace × K
  pub get_disk_free_space_ex : String → K → Option ℕ × K
  pub get_volume_information : String → K → Option VolumeInfo × K
  pub errno : K → Errno

-- `LLONG_MAX` and `MAX_PATH`
abbrev pub llong_max : ℕ
llong_max = 2 ^ 63 - 1

abbrev pub max_path : ℕ
max_path = 260

unfoldable pub volume_stats : Header → DiskSpace → ℕ → VolumeInfo → Statvfs
unfolding convert_st_flags
volume_stats hdr d total_free v =
    let bsize = (d.bytes_per_sector * d.sectors_per_cluster) % 2 ^ 32 in
    record {
      bsize = pos bsize;
      blocks = copy_int64 d.total_number_of_clusters;
      bfree = copy_int64 (total_free / bsize);
      bavail = copy_int64 d.number_of_free_clusters;
      files = copy_int64 llong_max;
      ffree = copy_int64 llong_max;
      favail = copy_int64 llong_max;
      fsid = copy_int64 v.serial_number;
      flag = pos v.file_system_flags;
      flags = convert_st_flags hdr v.file_system_flags;
      namemax = pos max_path;
    }

module _ {K : Type 0} (sys : Win32Volume K) (hdr : Header) where
  -- The copy of the path is freed, and the error is what `errno` holds.
  abbrev pub volume_fails : Heap K → Result Statvfs × Heap K
  volume_fails s = (raised (unix_error (sys.errno s.kernel) "statvfs"), stat_free s)

  abbrev pub with_volume : DiskSpace → ℕ → Option VolumeInfo → Heap K → Result Statvfs × Heap K
  with_volume d total_free none s = volume_fails s
  with_volume d total_free (some v) s = (ok (volume_stats hdr d total_free v), stat_free s)

  abbrev pub with_free_bytes : String → DiskSpace → Option ℕ → Heap K → Result Statvfs × Heap K
  with_free_bytes path d none s = volume_fails s
  with_free_bytes path d (some total_free) s =
      let (v, k) = sys.get_volume_information path s.kernel in
      with_volume d total_free v (record s { kernel = k })

  abbrev pub with_clusters : String → Option DiskSpace → Heap K → Result Statvfs × Heap K
  with_clusters path none s = volume_fails s
  with_clusters path (some d) s =
      let (f, k) = sys.get_disk_free_space_ex path s.kernel in
      with_free_bytes path d f (record s { kernel = k })

  -- Each call is made if the one before it succeeds.
  unfoldable pub win32_statvfs : String → Heap K → Result Statvfs × Heap K
  unfolding volume_stats
  win32_statvfs v_path s =
      let s' = strdup s in
      let (d, k) = sys.get_disk_free_space v_path s'.kernel in
      with_clusters v_path d (record s' { kernel = k })
