-- ===== src/Connection.antt =====
-- `ConnectionImpl` of include/http.h and src/http/http.cpp: receiving, processing and sending. What the
-- system calls on the socket answer, one after the other, is an argument; where the answers are used
-- up before the connection is done, the result is `out_of_fuel`.
pub mod Receive
pub mod Send
pub mod Meaning
pub mod Serve
mod Tests
use echo_web_server.Prelude.{
  ℕ, ◌+◌, ◌-◌, Bool, true, false, List, [], ◌∷◌, ◌++◌, Option, none, some, ◌⊎◌, inl, inr, ltb, ◌==◌,
  if◌then◌else◌, length, take, drop, add_size, min,
}
use echo_web_server.Run.{
  Bytes, codes, Exception, invalid_argument, out_of_range, runtime_error, system_error, Run, ok,
  out_of_fuel, ◌>>=◌, ◌>>◌, or_fault,
}
use echo_web_server.Buffer.{Buffer, readable_size, readable_bytes, empty}
use echo_web_server.Http.{bad_request, Parameters, equal, emplace, c_str}
use echo_web_server.Files.{FileSystem, MappedFile, unmap, what}
use echo_web_server.Request.{Request, Step, post_of, keep_alive, parse, or_empty}
use echo_web_server.Response.{
  Response, response_of, set_keep_alive, build_file, build_page, build_status,
}
use echo_web_server.Io.{Transfer, file_descriptor_write_to, file_descriptor_read_from}

-- A valid socket is some file descriptor.
pub record Connection : Type 0 where
  pub socket : Option ℕ
  pub keep_alive : Bool
  pub read_buf : Buffer
  pub write_buf : Buffer
  pub file : MappedFile

unfoldable pub valid : Connection → Bool
valid c = elim c.socket [ none ↦ false | some _ ↦ true ]

unfoldable pub close : Connection → Connection
close c = record c { socket = none }

-- `EAGAIN`
abbrev pub try_again : ℕ
try_again = 11

-- What the `catch` of `Receive` makes of an exception.
abbrev pub caught : Exception → ℕ → Exception ⊎ ℕ
caught (system_error errno) size = if errno == try_again then inr size else inl (system_error errno)
caught (invalid_argument message) size = inl (invalid_argument message)
caught (out_of_range message) size = inl (out_of_range message)
caught (runtime_error message) size = inl (runtime_error message)

-- `Receive`: the `while (true)`, behind `size` bytes.
unfoldable pub receive_loop : List (ℕ ⊎ Bytes) → ℕ → Buffer → Run Transfer
unfolding file_descriptor_write_to
receive_loop [] size buf = out_of_fuel
receive_loop (a ∷ answers) size buf = file_descriptor_write_to a buf >>= λ t. elim t.0 [
  | inl e ↦ ok (caught e size, t.1)
  | inr n ↦ receive_loop answers (add_size size n) t.1
]

unfoldable pub receive : List (ℕ ⊎ Bytes) → Connection → Run ((Exception ⊎ ℕ) × Connection)
unfolding receive_loop
receive answers c = do r ← receive_loop answers 0 c.read_buf; ok (r.0, record c { read_buf = r.1 })

-- What `write` answers, for `count` bytes: an answer offers to take so many bytes at most.
abbrev pub offered : ℕ ⊎ ℕ → ℕ → ℕ ⊎ ℕ
offered (inl errno) count = inl errno
offered (inr n) count = inr (min n count)

-- What a part of `Send` leaves: an exception or the number of bytes, what was written, and the answers.
pub record Sent : Type 0 where
  pub outcome : Exception ⊎ ℕ
  pub written : Bytes
  pub answers : List (ℕ ⊎ ℕ)
  pub buf : Buffer

-- `Send`: the loop over the buffer.
unfoldable pub send_buffer : List (ℕ ⊎ ℕ) → ℕ → Bytes → Buffer → Run Sent
unfolding empty file_descriptor_read_from readable_size readable_bytes
send_buffer [] size written buf =
    if empty buf
    then ok (record { outcome = inr size; written = written; answers = []; buf = buf })
    else out_of_fuel
send_buffer (a ∷ answers) size written buf =
    let next : Run Sent = file_descriptor_read_from (offered a (readable_size buf)) buf >>= λ t.
    elim t.0 [
      | inl e ↦ ok (record { outcome = inl e; written = written; answers = answers; buf = t.1 })
      | inr n ↦ send_buffer answers (add_size size n) (written ++ take n (readable_bytes buf)) t.1
    ] in
    if empty buf
    then ok (record { outcome = inr size; written = written; answers = a ∷ answers; buf = buf })
    else next

-- `Send`: the loop over the mapped file, behind `size` of its bytes.
unfoldable pub send_file : List (ℕ ⊎ ℕ) → ℕ → Bytes → Bytes → Buffer → Run Sent
send_file [] size written bytes buf =
    if ltb size (length bytes)
    then out_of_fuel
    else ok (record { outcome = inr size; written = written; answers = []; buf = buf })
send_file (a ∷ answers) size written bytes buf =
    let next : Run Sent = elim (offered a (length bytes - size)) [
      | inl errno ↦ ok (record {
        outcome = inl (system_error errno);
        written = written;
        answers = answers;
        buf = buf;
      })
      | inr n ↦ send_file answers (size + n) (written ++ take n (drop size bytes)) bytes buf
    ] in
    if ltb size (length bytes)
    then next
    else ok (record { outcome = inr size; written = written; answers = a ∷ answers; buf = buf })

-- The bytes of a mapped file; with no mapping there is nothing to send unless the size says so.
abbrev pub file_bytes : MappedFile → Run Bytes
file_bytes m = if m.size == 0 then ok [] else or_fault m.bytes

unfoldable pub send : List (ℕ ⊎ ℕ) → Connection → Run (Sent × Connection)
unfolding send_buffer send_file
send answers c = do
  head ← send_buffer answers 0 [] c.write_buf
  elim head.outcome [
    | inl e ↦ ok (head, record c { write_buf = head.buf })
    | inr header_size ↦ do
      bytes ← file_bytes c.file
      rest ← send_file head.answers 0 head.written bytes head.buf
      ok (
        (elim rest.outcome [
          | inl e ↦ rest
          | inr file_size ↦ record rest { outcome = inr (add_size header_size file_size) }
        ]),
        record c { write_buf = rest.buf },
      )
  ]

-- `ExtractUserMessage`
unfoldable pub extract_user_message : Request → Option Parameters
unfolding post_of
extract_user_message r =
    let user = or_empty (post_of (codes "user") r) in
    let msg = or_empty (post_of (codes "msg") r) in
    if length user == 0
    then none
    else some ((codes "user", c_str user) ∷ (codes "msg", c_str msg) ∷ [])

abbrev pub index_page : Bytes
index_page = codes "/index.html"

abbrev pub target_of : Request → Bytes
target_of r =
    if length r.path == 0
    then index_page
    else if equal r.path (codes "/")
    then index_page
    else r.path

-- The parameters of the index page.
unfoldable pub index_params : Request → Parameters
unfolding extract_user_message emplace
index_params r = elim (extract_user_message r) [
  | none ↦ emplace (codes "hide-msg") (codes "true") []
  | some params ↦ emplace (codes "hide-msg") (codes "false") params
]

-- The answer to a request that was parsed.
unfoldable pub answer : FileSystem → Request → Response → Connection → Run Connection
unfolding index_params build_page build_file equal
answer fs request response c =
    let index : Run Connection = do
      r ← build_page fs index_page (index_params request) response c.write_buf
      ok (record c { write_buf = r.1.1 })
    in let other : Run Connection = do
      r ← build_file fs (target_of request) response c.write_buf
      ok (record c { write_buf = r.1.1.1; file = elim r.0 [ none ↦ c.file | some file ↦ file ] })
      in if equal (target_of request) index_page then index else other

-- `Process` behind the parsing.
unfoldable pub respond : FileSystem → Bytes → Connection → Step (Request × Buffer) → Run Connection
unfolding keep_alive set_keep_alive answer build_status what
respond fs root_dir c (e, (request, buf)) =
    let response = set_keep_alive (keep_alive request) (response_of root_dir) in
    let c' = record c { keep_alive = keep_alive request; read_buf = buf } in
    elim e [
      | none ↦ answer fs request response c'
      | some x ↦ build_status fs bad_request (what fs x) response c'.write_buf >>= λ r.
          ok (record c' { write_buf = r.1 })
    ]

-- `Process`, with the root directory.
unfoldable pub process : FileSystem → Bytes → Connection → Run (Bool × Connection)
unfolding unmap readable_size parse respond
process fs root_dir c =
    let c' = record c { file = unmap c.file } in
    let parsed : Run (Bool × Connection) =
      parse c'.read_buf >>= λ p. respond fs root_dir c' p >>= λ done. ok (true, done) in
    if readable_size c'.read_buf == 0 then ok (false, c') else parsed
