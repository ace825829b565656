-- ===== src/Io.antt =====
-- include/io.h and src/io/io.cpp: readers and writers over a buffer, and the buffer's own `ReadFrom`
-- and `WriteTo`. What a system call answers is an argument: an `errno`, or what it transferred.
pub mod Transfer
mod Tests
use echo_web_server.Prelude.{
  ℕ, ◌+◌, ◌-◌, Bool, true, false, ◌||◌, ◌&&◌, List, [], ◌∷◌, ◌++◌, ◌⊎◌, inl, inr, leb, ◌==◌,
  if◌then◌else◌, length, take, drop,
}
use echo_web_server.Run.{Bytes, Exception, system_error, Run, ok, ◌>>=◌, ◌>>◌}
use echo_web_server.Buffer.{
  Buffer, writable_size, readable_bytes, has_written, retrieve, retrieve_all,
  retrieve_all_to_string, copy_in, append,
}
use echo_web_server.Http.{is_space}

-- A call that throws or returns the number of bytes.
abbrev pub Transfer : Type 0
Transfer = (Exception ⊎ ℕ) × Buffer

unfoldable pub null_write_to : Buffer → Run Transfer
unfolding writable_size has_written
null_write_to buf = do
  let size = writable_size buf
  written ← has_written size buf
  ok (inr size, written)

unfoldable pub null_read_from : Buffer → Run Transfer
unfolding retrieve_all
null_read_from buf = do r ← retrieve_all buf; ok (inr r.0, r.1)

abbrev pub skip_spaces : Bytes → Bytes
skip_spaces [] = []
skip_spaces (c ∷ s) = let rest = skip_spaces s in if is_space c then rest else c ∷ s

-- A word, and what stands behind it.
abbrev pub cut_word : Bytes → Bytes × Bytes
cut_word [] = ([], [])
cut_word (c ∷ s) =
    let (word, rest) = cut_word s in if is_space c then ([], c ∷ s) else (c ∷ word, rest)

-- `read_ >> str` takes the next word of the input stream.
unfoldable pub string_stream_write_to : Bytes → Buffer → Run (Bytes × Transfer)
unfolding append
string_stream_write_to input buf = do
  let (str, rest) = cut_word (skip_spaces input)
  filled ← append str buf
  ok (rest, (inr (length str), filled))

unfoldable pub string_stream_read_from : Bytes → Buffer → Run (Bytes × Transfer)
unfolding retrieve_all_to_string
string_stream_read_from output buf = do
  r ← retrieve_all_to_string buf
  ok (output ++ r.0, (inr (length r.0), r.1))

-- `ext_bytes.size()`
abbrev pub ext_size : ℕ
ext_size = 65536

-- `readv` fills the writable bytes of the buffer first and the additional bytes behind.
unfoldable pub file_descriptor_write_to : ℕ ⊎ Bytes → Buffer → Run Transfer
unfolding writable_size copy_in has_written append
file_descriptor_write_to (inl errno) buf = ok (inl (system_error errno), buf)
file_descriptor_write_to (inr bytes) buf = do
  let room = writable_size buf
  let few : Run Buffer = copy_in bytes buf >>= has_written (length bytes)
  let many : Run Buffer =
      copy_in (take room bytes) buf >>= has_written room >>= append (drop room bytes)
  filled ← if leb (length bytes) room then few else many
  ok (inr (length bytes), filled)

-- `write` takes a number of the readable bytes.
unfoldable pub file_descriptor_read_from : ℕ ⊎ ℕ → Buffer → Run Transfer
unfolding retrieve
file_descriptor_read_from (inl errno) buf = ok (inl (system_error errno), buf)
file_descriptor_read_from (inr size) buf = do rest ← retrieve size buf; ok (inr size, rest)
