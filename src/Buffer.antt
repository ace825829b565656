-- ===== src/Buffer.antt =====
-- include/containers/buffer.h and src/containers/buffer/buffer.cpp: the auto-expandable buffer.
pub mod Valid
pub mod Space
pub mod Append
pub mod Retrieve
pub mod Queue
pub mod Move
mod Tests
use echo_web_server.Prelude.{
  ℕ, ◌+◌, ◌-◌, ◌≤◌, ◌^◌, Bool, not, List, [], ◌∷◌, ◌++◌, Option, none, some, leb, ltb, ◌==◌,
  if◌then◌else◌, length, get_elem?, take, drop, replicate, add_size, sub_size,
}
use echo_web_server.Run.{Bytes, codes, Run, ok, fault, ◌>>=◌, ◌>>◌, assert}

-- The vector, and the reading and the writing offset.
pub record Buffer : Type 0 where
  pub buf : Bytes
  pub read_pos : ℕ
  pub write_pos : ℕ

pub data NewLine : Type 0 where
  lf crlf : NewLine

-- `std::vector<std::byte>::max_size`: the greatest pointer difference.
abbrev pub max_size : ℕ
max_size = 2 ^ 63 - 1

-- `Buffer(size)`
unfoldable pub of_size : ℕ → Buffer
of_size size = record { buf = replicate size 0; read_pos = 0; write_pos = 0 }

abbrev pub no_bytes : Buffer
no_bytes = record { buf = []; read_pos = 0; write_pos = 0 }

unfoldable pub writable_size : Buffer → ℕ
writable_size b = sub_size (length b.buf) b.write_pos

unfoldable pub readable_size : Buffer → ℕ
readable_size b = sub_size b.write_pos b.read_pos

unfoldable pub prependable_size : Buffer → ℕ
prependable_size b = b.read_pos

unfoldable pub empty : Buffer → Bool
unfolding readable_size
empty b = readable_size b == 0

unfoldable pub peek : Buffer → Option ℕ
unfolding empty
peek b = if empty b then none else get_elem? b.buf b.read_pos

-- The bytes of the span that starts at the reading offset.
unfoldable pub readable_bytes : Buffer → Bytes
unfolding readable_size
readable_bytes b = take (readable_size b) (drop b.read_pos b.buf)

unfoldable pub readable_string : Buffer → Bytes
unfolding readable_bytes
readable_string b = readable_bytes b

unfoldable pub has_written : ℕ → Buffer → Run Buffer
unfolding writable_size
has_written size b = do
  assert (leb size (writable_size b))
  ok (record b { write_pos = add_size b.write_pos size })

unfoldable pub retrieve : ℕ → Buffer → Run Buffer
unfolding readable_size
retrieve size b = do
  assert (leb size (readable_size b))
  ok (record b { read_pos = add_size b.read_pos size })

unfoldable pub clear : Buffer → Run Buffer
unfolding empty
clear b = do
  let cleared = record b { read_pos = 0; write_pos = 0 }
  assert (empty cleared)
  ok cleared

-- `buf_.resize(n)`: past `max_size` it throws `std::length_error`, which no `noexcept` caller lets out.
unfoldable pub resize : ℕ → Buffer → Run Buffer
resize n b =
    if ltb max_size n
    then fault
    else ok (record b { buf = take n b.buf ++ replicate (n - length b.buf) 0 })

-- Compaction: the readable bytes go to the front of the vector.
unfoldable pub compact : Buffer → Run Buffer
unfolding readable_size readable_bytes
compact b = do
  let size = readable_size b
  let moved = record b {
    buf = readable_bytes b ++ drop (length (readable_bytes b)) b.buf;
    read_pos = 0;
    write_pos = add_size 0 size;
  }
  assert (size == readable_size moved)
  ok moved

unfoldable pub make_space : ℕ → Buffer → Run Buffer
unfolding writable_size prependable_size resize compact
make_space size b =
    if ltb (add_size (writable_size b) (prependable_size b)) size
    then resize (add_size b.write_pos size) b
    else compact b

unfoldable pub ensure_writeable_size : ℕ → Buffer → Run Buffer
unfolding writable_size make_space
ensure_writeable_size size b = do
  roomy ← if ltb (writable_size b) size then make_space size b else ok b
  assert (leb size (writable_size roomy))
  ok roomy

-- `std::copy` to the writing offset; a copy past the end of the vector is undefined.
unfoldable pub copy_in : Bytes → Buffer → Run Buffer
copy_in bytes b =
    if ltb (length b.buf) (b.write_pos + length bytes)
    then fault
    else ok (record b {
      buf = take b.write_pos b.buf ++ (bytes ++ drop (b.write_pos + length bytes) b.buf);
    })

-- `Append(data, size)`
unfoldable pub append : Bytes → Buffer → Run Buffer
unfolding ensure_writeable_size copy_in has_written readable_size
append bytes b = if length bytes == 0 then ok b else do
  roomy ← ensure_writeable_size (length bytes) b
  filled ← copy_in bytes roomy
  grown ← has_written (length bytes) filled
  assert (leb (length bytes) (readable_size grown))
  ok grown

abbrev pub new_line_bytes : Option NewLine → Bytes
new_line_bytes none = []
new_line_bytes (some lf) = 10 ∷ []
new_line_bytes (some crlf) = 13 ∷ 10 ∷ []

-- `Append(str, new_line)`
unfoldable pub append_string : Bytes → Option NewLine → Buffer → Run Buffer
unfolding append
append_string str new_line b = append (str ++ new_line_bytes new_line) b

-- `Append(const Buffer&)`, of another buffer.
unfoldable pub append_buffer : Buffer → Buffer → Run Buffer
unfolding append readable_bytes
append_buffer from b = append (readable_bytes from) b

-- `Buffer(bytes)` and `Buffer(str)`
unfoldable pub of_bytes : Bytes → Run Buffer
unfolding append
of_bytes bytes = append bytes no_bytes

unfoldable pub retrieve_all : Buffer → Run (ℕ × Buffer)
unfolding clear readable_size
retrieve_all b = do let read_size = readable_size b; cleared ← clear b; ok (read_size, cleared)

unfoldable pub retrieve_all_to_string : Buffer → Run (Bytes × Buffer)
unfolding clear readable_string
retrieve_all_to_string b = do let str = readable_string b; cleared ← clear b; ok (str, cleared)

-- `RetrieveUntil(addr)`, with the address as an offset into the vector.
unfoldable pub retrieve_until : ℕ → Buffer → Run (ℕ × Buffer)
unfolding retrieve
retrieve_until end b = do
  assert (leb b.read_pos end)
  let read_size = end - b.read_pos
  rest ← retrieve read_size b
  ok (read_size, rest)

-- Copying takes all three members.
unfoldable pub copy : Buffer → Buffer
copy o = record { buf = o.buf; read_pos = o.read_pos; write_pos = o.write_pos }

-- Moving takes the vector and copies the offsets: the new buffer, and what the source is left as.
unfoldable pub move : Buffer → Buffer × Buffer
move o = (
  record { buf = o.buf; read_pos = o.read_pos; write_pos = o.write_pos },
  record { buf = []; read_pos = o.read_pos; write_pos = o.write_pos },
)
