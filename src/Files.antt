-- ===== src/Files.antt =====
-- `MappedReadOnlyFile` of include/util.h and src/util/util.cpp. The system calls are a parameter.
pub mod Mapping
use echo_web_server.Prelude.{
  ℕ, Bool, not, [], ◌++◌, Option, none, some, ◌⊎◌, inl, inr, if◌then◌else◌,
}
use echo_web_server.Run.{
  Bytes, codes, Exception, invalid_argument, out_of_range, runtime_error, system_error,
}

-- What `stat` tells of a file.
pub record FileStat : Type 0 where
  pub is_directory : Bool
  pub readable : Bool
  pub size : ℕ

-- `stat`, and `open` with `mmap` of a number of bytes, each with its `errno` where it fails, and the
-- message of a system error.
pub record FileSystem : Type 0 where
  pub stat : Bytes → ℕ ⊎ FileStat
  pub mmap : Bytes → ℕ → ℕ ⊎ Bytes
  pub error_message : ℕ → Bytes

pub record MappedFile : Type 0 where
  pub path : Bytes
  pub size : ℕ
  -- `data_`: what is mapped, if anything.
  pub bytes : Option Bytes

abbrev pub unmapped : MappedFile
unmapped = record { path = []; size = 0; bytes = none }

-- Unmapping releases the mapping, if there is one, and clears the status and the path.
unfoldable pub unmap : MappedFile → MappedFile
unmap m = record m { path = []; size = 0; bytes = none }

-- The new object, and what the source is left as.
unfoldable pub move : MappedFile → MappedFile × MappedFile
move o =
    (record { path = o.path; size = o.size; bytes = o.bytes }, record o { path = []; bytes = none })

-- `Check`
unfoldable pub check : FileSystem → MappedFile → Option Exception × MappedFile
check fs m = elim (fs.stat m.path) [
  | inl errno ↦ (some (system_error errno), m)
  | inr s ↦
      let m' = record m { size = s.size } in
      if s.is_directory
      then (some (invalid_argument (codes "'" ++ (m.path ++ codes "' is a directory"))), m')
      else if not s.readable
      then (some (runtime_error (codes "No permission to access '" ++ (m.path ++ codes "'"))), m')
      else (none, m')
]

-- `Map` behind its check: an exception ends it.
unfoldable pub mmap_checked :
    FileSystem → Option Exception × MappedFile → Option Exception × MappedFile
mmap_checked fs (some e, m) = (some e, m)
mmap_checked fs (none, m) = elim (fs.mmap m.path m.size) [
  | inl errno ↦ (some (system_error errno), m)
  | inr bytes ↦ (none, record m { bytes = some bytes })
]

-- `Map`
unfoldable pub map_file : FileSystem → Bytes → MappedFile → Option Exception × MappedFile
unfolding unmap check mmap_checked
map_file fs path m = mmap_checked fs (check fs (record (unmap m) { path = path }))

-- `err.what()`
unfoldable pub what : FileSystem → Exception → Bytes
what fs (invalid_argument message) = message
what fs (out_of_range message) = message
what fs (runtime_error message) = message
what fs (system_error errno) = fs.error_message errno
