-- ===== src/Files/Mapping.antt =====
-- What `Map` gives for a file that is there, and for one that is refused.
use echo_web_server.Prelude.{◌≡◌, ap, ◌∙◌, Option, none, some, inr, arith, length, true, false}
use echo_web_server.Run.{Bytes, Exception}
use echo_web_server.Files.{FileStat, FileSystem, MappedFile, map_file, mmap_checked, check, unmap}

-- A file that `stat` and `mmap` give: neither a directory nor unreadable, with its bytes.
pub record IsFile (fs : FileSystem) (path : Bytes) (bytes : Bytes) : Type 0 where
  pub status : FileStat
  pub found : fs.stat path ≡ inr status
  pub not_directory : status.is_directory ≡ false
  pub readable : status.readable ≡ true
  pub sized : status.size ≡ length bytes
  pub mapped : fs.mmap path status.size ≡ inr bytes

abbrev pub mapped_file : Bytes → Bytes → MappedFile
mapped_file path bytes = record { path = path; size = length bytes; bytes = some bytes }

check-IsFile :
    (fs : FileSystem) (path bytes : Bytes)
    → IsFile fs path bytes
    → check fs (record { path = path; size = 0; bytes = none })
      ≡ (none, record { path = path; size = length bytes; bytes = none })
unfolding check
check-IsFile fs path bytes f = rw (f.found, check) (rw (f.not_directory, f.readable) (rw f.sized))

pub map_file-IsFile :
    (fs : FileSystem) (path bytes : Bytes) (m : MappedFile)
    → IsFile fs path bytes
    → map_file fs path m ≡ (none, mapped_file path bytes)
unfolding map_file mmap_checked unmap
map_file-IsFile fs path bytes m f =
    ap (mmap_checked fs) (check-IsFile fs path bytes f) ∙ rw (rw f.sized at f.mapped, mmap_checked)

check-bytes : (fs : FileSystem) (m : MappedFile) → (check fs m).1.bytes ≡ m.bytes
unfolding check
check-bytes fs m = ground arith

mmap_checked-bytes :
    (fs : FileSystem) (c : Option Exception × MappedFile) (e : Exception) (file : MappedFile)
    → c.1.bytes ≡ none
    → mmap_checked fs c ≡ (some e, file)
    → file.bytes ≡ none
unfolding mmap_checked
mmap_checked-bytes fs (some x, m) e file h q = cc
mmap_checked-bytes fs (none, m) e file h q = ground arith

pub map_file-refused :
    (fs : FileSystem) (path : Bytes) (m : MappedFile) (e : Exception) (file : MappedFile)
    → map_file fs path m ≡ (some e, file)
    → file.bytes ≡ none
unfolding map_file unmap
map_file-refused fs path m e file q =
    mmap_checked-bytes fs (check fs (record (unmap m) { path = path })) e file
      (check-bytes fs (record (unmap m) { path = path })) q
