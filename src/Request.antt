-- ===== src/Request.antt =====
-- src/http/request.h and src/http/request.cpp: the HTTP request parser.
pub mod Form
pub mod Lines
pub mod Parse
pub mod Print
mod Tests
use echo_web_server.Prelude.{
  ℕ, zero, suc, ◌+◌, ◌-◌, Bool, true, false, not, ◌&&◌, ◌||◌, List, [], ◌∷◌, ◌++◌, Option, none,
  some, ◌==◌, if◌then◌else◌, length, take, drop,
}
use echo_web_server.Run.{
  Bytes, codes, Run, Exception, invalid_argument, returned, raise, ok, throw, fault, out_of_fuel,
  ◌>>=◌, ◌>>◌, assert,
}
use echo_web_server.Buffer.{Buffer, readable_string, retrieve, empty}
use echo_web_server.Text.{starts_with, find}
use echo_web_server.Http.{
  Method, get, post, Parameters, equal, lookup, emplace, method_to_string, string_to_method,
  decode_url_encoded_string, c_str,
}

pub data State : Type 0 where
  not_started header body finished : State

pub record Request : Type 0 where
  pub state : State
  pub method : Method
  pub version : Bytes
  pub path : Bytes
  pub headers : Parameters
  pub posts : Parameters

-- What `Clear` leaves, whatever was there.
abbrev pub cleared : Request
cleared = record {
  state = not_started;
  method = get;
  version = [];
  path = [];
  headers = [];
  posts = [];
}

unfoldable pub header_of : Bytes → Request → Option Bytes
unfolding lookup
header_of key r = lookup (c_str key) r.headers

unfoldable pub post_of : Bytes → Request → Option Bytes
unfolding lookup
post_of key r = lookup (c_str key) r.posts

unfoldable pub post_size : Request → ℕ
post_size r = length r.posts

unfoldable pub keep_alive : Request → Bool
unfolding lookup equal
keep_alive r = elim (lookup (codes "Connection") r.headers) [
  | none ↦ false
  | some conn ↦ equal r.version (codes "1.1") && equal conn (codes "keep-alive")
]

abbrev pub cons_before : ℕ → Option (Bytes × Bytes) → Option (Bytes × Bytes)
cons_before x none = none
cons_before x (some (pre, suf)) = some (x ∷ pre, suf)

-- What stands before and behind the first `c`.
unfoldable pub cut_at : ℕ → Bytes → Option (Bytes × Bytes)
cut_at c [] = none
cut_at c (x ∷ s) = if x == c then some ([], s) else cons_before x (cut_at c s)

unfoldable pub contains : ℕ → Bytes → Bool
contains c [] = false
contains c (x ∷ s) = if x == c then true else contains c s

-- `HTTP/([^ ]*)$`
unfoldable pub match_protocol : Bytes → Option Bytes
unfolding starts_with contains
match_protocol s =
    if starts_with (codes "HTTP/") s && not (contains b' ' (drop 5 s))
    then some (drop 5 s)
    else none

abbrev pub StatusLine : Type 0
StatusLine = Bytes × Bytes × Bytes

abbrev pub with_protocol : Bytes → Bytes → Option Bytes → Option StatusLine
with_protocol method path none = none
with_protocol method path (some version) = some (method, path, version)

-- `^([^ ]*) ([^ ]*) HTTP/([^ ]*)$`: no group holds a space, so the first two spaces end the first two.
unfoldable pub match_status_line : Bytes → Option StatusLine
unfolding cut_at match_protocol
match_status_line line = elim (cut_at b' ' line) [
  | none ↦ none
  | some (method, rest) ↦ elim (cut_at b' ' rest) [
    | none ↦ none
    | some (path, protocol) ↦ with_protocol method path (match_protocol protocol)
  ]
]

abbrev pub skip_space : Bytes → Bytes
skip_space [] = []
skip_space (c ∷ s) = if c == b' ' then s else c ∷ s

-- `^([^:]*): ?(.*)$`: the first group ends at the first colon, and a dot matches no line terminator.
unfoldable pub match_header : Bytes → Option (Bytes × Bytes)
unfolding cut_at contains
match_header line = elim (cut_at b':' line) [
  | none ↦ none
  | some (key, rest) ↦
      if contains 10 (skip_space rest) || contains 13 (skip_space rest)
      then none
      else some (key, skip_space rest)
]

-- A parsing step: the exception that it ends with, if any, and what it leaves.
abbrev pub Step : Type 0 → Type 0
Step A = Option Exception × A

abbrev pub invalid : Bytes → Option Exception
invalid message = some (invalid_argument message)

unfoldable pub parse_status_line : Bytes → Request → Step Request
unfolding match_status_line string_to_method
parse_status_line line r = elim (match_status_line line) [
  | none ↦ (invalid (codes "Invalid HTTP status line: '" ++ (line ++ codes "'")), r)
  | some (method, path, version) ↦ elim (string_to_method method) [
    | returned m ↦ (none, record r { state = header; method = m; path = path; version = version })
    | raise e ↦ (some e, r)
  ]
]

unfoldable pub parse_header : Bytes → Request → Step Request
unfolding match_header emplace
parse_header line r = elim (match_header line) [
  | some (key, value) ↦ (none, record r { headers = emplace key value r.headers })
  | none ↦
      if length line == 0
      then (none, record r { state = body })
      else (invalid (codes "There must be an empty line between HTTP headers and the body"), r)
]

-- The loop of `ParseURLEncodedPost`: the variables so far, the key, and the bytes of the view from
-- `begin`, in which each `+` that was passed has become a space.
pub record FormLoop : Type 0 where
  pub posts : Parameters
  pub key : Bytes
  pub segment : Bytes

-- One round. A key that has been moved into the map is empty afterwards.
unfoldable pub form_step : ℕ → FormLoop → Option FormLoop
unfolding emplace
form_step c f =
    if c == b'='
    then some (record f { key = f.segment; segment = [] })
    else if c == b'+'
    then some (record f { segment = f.segment ++ b' ' ∷ [] })
    else if c == b'&'
    then (if length f.key == 0
        then none
        else some (record { posts = emplace f.key f.segment f.posts; key = []; segment = [] }))
    else some (record f { segment = f.segment ++ c ∷ [] })

-- The last pair is saved behind the loop. What comes back with `false` has been refused.
unfoldable pub form_loop : Bytes → FormLoop → Bool × Parameters
unfolding form_step lookup emplace
form_loop [] f =
    let is_new : Bool = elim (lookup f.key f.posts) [ none ↦ true | some _ ↦ false ] in
    if not (length f.key == 0) && (is_new && not (length f.segment == 0))
    then (true, emplace f.key f.segment f.posts)
    else (false, f.posts)
form_loop (c ∷ s) f = elim (form_step c f) [ none ↦ (false, f.posts) | some g ↦ form_loop s g ]

abbrev pub invalid_post : Bytes → Option Exception
invalid_post text = invalid (codes "Invalid HTTP POST data: '" ++ (text ++ codes "'"))

unfoldable pub parse_url_encoded_post : Bytes → Request → Step Request
unfolding decode_url_encoded_string form_loop
parse_url_encoded_post text r = elim (decode_url_encoded_string text) [
  | returned decoded ↦
      let (accepted, posts) =
        form_loop decoded (record { posts = r.posts; key = []; segment = [] }) in
      (if accepted then none else invalid_post text, record r { posts = posts })
  | raise e ↦ (some e, r)
]

abbrev pub or_empty : Option Bytes → Bytes
or_empty none = []
or_empty (some s) = s

unfoldable pub parse_post : Bytes → Request → Step Request
unfolding header_of parse_url_encoded_post equal
parse_post text r =
    let content_type = or_empty (header_of (codes "Content-Type") r) in
    if equal content_type (codes "application/x-www-form-urlencoded")
    then parse_url_encoded_post text r
    else (invalid (codes "Unsupported HTTP content type: '" ++ (content_type ++ codes "'")), r)

-- Only a `POST` may have a body; the state changes only if nothing was thrown.
unfoldable pub parse_body : Bytes → Request → Step Request
unfolding parse_post method_to_string
parse_body content r = elim r.method [
  | post ↦
      let (e, r') = parse_post content r in
      (e, elim e [ none ↦ record r' { state = finished } | some _ ↦ r' ])
  | _ ↦
      (invalid (codes "Unsupported HTTP method: '" ++ (method_to_string r.method ++ codes "'")), r)
]

-- `state_->Parse(line)`
unfoldable pub parse_line : State → Bytes → Request → Step Request
unfolding parse_status_line parse_header parse_body
parse_line not_started line r = parse_status_line line r
parse_line header line r = parse_header line r
parse_line body line r = parse_body line r
parse_line finished line r = (invalid (codes "The parsing shoud have finished"), r)

abbrev pub new_line : Bytes
new_line = 13 ∷ 10 ∷ []

-- `content.substr(0, line_end)`
abbrev pub line_to : Option ℕ → Bytes → Bytes
line_to none content = content
line_to (some i) content = take i content

-- What `buf` and `content` lose behind a line: its bytes, and the line separator if there is one.
unfoldable pub consume_line : Option ℕ → Bytes → Bytes → Buffer → Run (Bytes × Buffer)
unfolding retrieve
consume_line line_end line content buf = do
  past ← retrieve (length line) buf
  let rest = drop (length line) content
  elim line_end [
    | none ↦ ok (rest, past)
    | some _ ↦ do next ← retrieve (length new_line) past; ok (drop (length new_line) rest, next)
  ]

-- The `while` of `Request::Parse`. On an exception the buffer still begins with the line in question.
unfoldable pub parse_loop : ℕ → Bytes → Request → Buffer → Run (Step (Request × Buffer))
unfolding parse_line consume_line find
parse_loop zero content r buf = out_of_fuel
parse_loop (suc fuel) [] r buf = ok (none, (r, buf))
parse_loop (suc fuel) (c ∷ s) r buf =
    let line_end = find new_line (c ∷ s) in
    let line = line_to line_end (c ∷ s) in
    let (e, r') = parse_line r.state line r in
    let onward : Run (Step (Request × Buffer)) =
      consume_line line_end line (c ∷ s) buf >>= λ n. parse_loop fuel n.0 r' n.1 in
    elim e [ some x ↦ ok (some x, (r', buf)) | none ↦ onward ]

-- Each round consumes a byte at least. An earlier request is cleared.
unfoldable pub parse : Buffer → Run (Step (Request × Buffer))
unfolding parse_loop empty readable_string
parse buf =
    let content = readable_string buf in
    let run : Run (Step (Request × Buffer)) = parse_loop (length content + 1) content cleared buf in
    if empty buf then ok (invalid (codes "The buffer is empty"), (cleared, buf)) else run
