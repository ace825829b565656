-- ===== src/Response.antt =====
-- src/http/response.h and src/http/response.cpp: the HTTP response builder.
pub mod Decimal
pub mod Writes
pub mod Build
pub mod Answer
mod Tests
use echo_web_server.Prelude.{
  ℕ, zero, suc, ◌+◌, ◌-◌, ◌*◌, ◌/◌, ◌%◌, Bool, true, false, List, [], ◌∷◌, ◌++◌, Option, none, some,
  ltb, ◌==◌, if◌then◌else◌, length, add_size, size_mod,
}
use echo_web_server.Run.{
  Bytes, codes, Exception, Run, ok, throw, fault, out_of_fuel, ◌>>=◌, ◌>>◌, or_fault,
}
use echo_web_server.Buffer.{Buffer, lf, crlf, append_string}
use echo_web_server.Text.{replace_all_substring, split_string_to_lines}
use echo_web_server.Http.{
  StatusCode, ok_status, bad_request, Parameters, status_code_to_integer, status_code_to_message,
  content_type_by_file_name, c_str, html_placeholder, put_param_into_html,
}
use echo_web_server.Files.{FileSystem, MappedFile, unmapped, unmap, map_file, move, what}

-- Decimal digits, as `fmt::format` and `std::to_string` print an unsigned number.
unfoldable pub decimal_digits : ℕ → ℕ → Bytes
decimal_digits zero n = []
decimal_digits (suc fuel) n =
    let front = decimal_digits fuel (n / 10) in
    if ltb n 10 then (b'0' + n) ∷ [] else front ++ (b'0' + n % 10) ∷ []

-- Each digit divides by ten.
unfoldable pub decimal : ℕ → Bytes
unfolding decimal_digits
decimal n = decimal_digits (n + 1) n

pub record Response : Type 0 where
  pub root_dir : Bytes
  pub file_path : Bytes
  pub file : MappedFile
  pub keep_alive : Bool
  pub status_code : StatusCode

abbrev pub response_of : Bytes → Response
response_of root_dir = record {
  root_dir = root_dir;
  file_path = [];
  file = unmapped;
  keep_alive = false;
  status_code = ok_status;
}

unfoldable pub clear : Response → Response
unfolding unmap
clear r = record r { file = unmap r.file; status_code = ok_status; file_path = [] }

unfoldable pub set_keep_alive : Bool → Response → Response
set_keep_alive set r = record r { keep_alive = set }

-- `path::relative_path`: without the slashes at the front.
unfoldable pub relative_path : Bytes → Bytes
relative_path [] = []
relative_path (c ∷ s) = let rest = relative_path s in if c == b'/' then rest else c ∷ s

abbrev pub ends_with_slash : Bytes → Bool
ends_with_slash [] = false
ends_with_slash (c ∷ []) = c == b'/'
ends_with_slash (c ∷ s) = ends_with_slash s

-- `dir / path`, for a relative path and a directory that is not empty.
abbrev pub join_paths : Bytes → Bytes → Bytes
join_paths dir path = if ends_with_slash dir then dir ++ path else dir ++ (b'/' ∷ path)

unfoldable pub full_path : Response → Bytes
unfolding relative_path
full_path r =
    if length r.root_dir == 0
    then r.file_path
    else join_paths r.root_dir (relative_path r.file_path)

unfoldable pub add_status_line : Response → Buffer → Run Buffer
unfolding append_string decimal status_code_to_integer status_code_to_message
add_status_line r buf =
    append_string
      (codes "HTTP/1.1 "
        ++ (decimal (status_code_to_integer r.status_code)
            ++ (b' ' ∷ status_code_to_message r.status_code)))
      (some crlf) buf

unfoldable pub add_headers : Response → Buffer → Run Buffer
unfolding append_string
add_headers r buf = append_string (codes "Connection: ") none buf >>= λ b.
    let kept : Run Buffer =
      append_string (codes "keep-alive") (some crlf) b
      >>= append_string (codes "keep-alive: max=6, timeout=120") (some crlf) in
    if r.keep_alive then kept else append_string (codes "close") (some crlf) b

-- `file_.Data()` of a file that has been asserted to be mapped.
abbrev pub data_of : Response → Run Bytes
data_of r = or_fault r.file.bytes

abbrev pub content_type : Response → Bytes
content_type r = content_type_by_file_name (c_str r.file_path)

unfoldable pub add_type_and_length : Bytes → ℕ → Buffer → Run Buffer
unfolding append_string decimal
add_type_and_length type size buf =
    append_string (codes "Content-type: " ++ type) (some crlf) buf
    >>= append_string (codes "Content-length: " ++ decimal size) (some crlf)
    >>= append_string (13 ∷ 10 ∷ []) none

unfoldable pub add_mapped_content : Response → Buffer → Run Buffer
unfolding add_type_and_length content_type_by_file_name
add_mapped_content r buf = data_of r >>= λ _. add_type_and_length (content_type r) r.file.size buf

-- The sum of the sizes of the lines.
abbrev pub sum_sizes : List Bytes → ℕ
sum_sizes [] = 0
sum_sizes (l ∷ ls) = length l + sum_sizes ls

-- Computed modulo 2⁶⁴.
unfoldable pub length_of_lines : List Bytes → ℕ
length_of_lines lines = (2 * (length lines - 1) + sum_sizes lines) % size_mod

-- The `for` over the lines: each but the last is followed by the line separator.
unfoldable pub add_lines : List Bytes → Buffer → Run Buffer
unfolding append_string
add_lines [] buf = ok buf
add_lines (l ∷ []) buf = append_string l none buf
add_lines (l ∷ m ∷ ls) buf = append_string l (some crlf) buf >>= add_lines (m ∷ ls)

unfoldable pub add_param_content : Parameters → Response → Buffer → Run Buffer
unfolding add_type_and_length content_type_by_file_name put_param_into_html split_string_to_lines
    length_of_lines add_lines
add_param_content params r buf = do
  bytes ← data_of r
  content ← put_param_into_html bytes params
  lines ← split_string_to_lines content
  head ← add_type_and_length (content_type r) (length_of_lines lines) buf
  add_lines lines head

abbrev pub line : Bytes → Bytes
line s = s ++ (13 ∷ 10 ∷ [])

-- The page that `AddPredefinedErrorContent` writes into its stream.
unfoldable pub error_page : StatusCode → Bytes → Bytes
unfolding decimal status_code_to_integer status_code_to_message
error_page code msg =
    line (codes "<html>")
    ++ (line (codes "<title>ERROR</title>")
        ++ (line (codes "<body>")
            ++ (line (
                  codes "<p>"
                  ++ (decimal (status_code_to_integer code)
                      ++ (codes " : " ++ (status_code_to_message code ++ codes "</p>"))))
                ++ ((if length msg == 0 then [] else line (codes "<p>" ++ (msg ++ codes "</p>")))
                    ++ (line (codes "</body>") ++ codes "</html>")))))

unfoldable pub add_predefined_error_content : Bytes → Response → Buffer → Run Buffer
unfolding add_type_and_length error_page append_string
add_predefined_error_content msg r buf = do
  let body = error_page r.status_code msg
  head ← add_type_and_length (codes "text/html") (length body) buf
  append_string body none head

abbrev pub content_for : Option Parameters → Response → Buffer → Run Buffer
content_for none r buf = add_mapped_content r buf
content_for (some params) r buf = add_param_content params r buf

-- What is left of the response where its file could not be mapped.
abbrev pub with_status : Option Exception → MappedFile → Response → Response
with_status none file r = record r { file = file }
with_status (some _) file r = record r { file = file; status_code = bad_request }

-- `Build(buf, params)` behind the mapping of the file.
unfoldable pub build_mapped :
    FileSystem
    → Option Parameters
    → Response
    → Option Exception × MappedFile
    → Buffer
    → Run (Response × Buffer)
unfolding add_status_line add_headers add_mapped_content add_param_content
    add_predefined_error_content what
build_mapped fs params r (e, file) buf = do
  let r' = with_status e file r
  b ← add_status_line r' buf >>= add_headers r'
  b' ← elim e [
    | none ↦ content_for params r' b
    | some x ↦ add_predefined_error_content (what fs x) r' b
  ]
  ok (r', b')

-- `Build(buf, params)`
unfoldable pub build : FileSystem → Option Parameters → Response → Buffer → Run (Response × Buffer)
unfolding full_path map_file build_mapped
build fs params r buf = build_mapped fs params r (map_file fs (full_path r) r.file) buf

-- The settings of a response for a path.
abbrev pub settings : Bytes → StatusCode → Response → Response
settings path code r = record (clear r) { file_path = path; status_code = code }

-- The mapped file is moved out, if there is one.
unfoldable pub give_file :
    Response → Buffer → Option MappedFile × (StatusCode × (Response × Buffer))
unfolding move
give_file r buf = elim r.file.bytes [
  | none ↦ (none, (r.status_code, (r, buf)))
  | some _ ↦
      let (taken, left) = move r.file in
      (some taken, (r.status_code, (record r { file = left }, buf)))
]

-- `Build(buf, file, code)`
unfoldable pub build_file :
    FileSystem
    → Bytes
    → Response
    → Buffer
    → Run (Option MappedFile × (StatusCode × (Response × Buffer)))
unfolding clear build give_file
build_file fs path r buf = do
  built ← build fs none (settings path ok_status r) buf
  ok (give_file built.0 built.1)

-- `Build(buf, file, params, code)`
unfoldable pub build_page :
    FileSystem → Bytes → Parameters → Response → Buffer → Run (StatusCode × (Response × Buffer))
unfolding clear build
build_page fs path params r buf = do
  built ← build fs (some params) (settings path ok_status r) buf
  ok (built.0.status_code, built)

-- In one of the orders in which the map may be iterated.
abbrev pub status_params : StatusCode → Bytes → Parameters
status_params code msg =
    (codes "status-code", decimal (status_code_to_integer code))
    ∷ (codes "status", status_code_to_message code)
    ∷ (codes "msg", msg)
    ∷ []

-- `Build(buf, code, msg)`
unfoldable pub build_status :
    FileSystem → StatusCode → Bytes → Response → Buffer → Run (Response × Buffer)
unfolding clear build decimal status_code_to_integer status_code_to_message
build_status fs code msg r buf =
    build fs (some (status_params code msg)) (settings (codes "/http-status.html") code r) buf
