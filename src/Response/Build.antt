-- ===== src/Response/Build.antt =====
-- What the builders of src/http/response.cpp append to a buffer.
use echo_web_server.Prelude.{
  ℕ, ◌+◌, ◌*◌, ◌<◌, ◌≡◌, ◌≢◌, refl, ap, ◌∙◌, Bool, true, false, List, [], ◌∷◌, ◌++◌, none, some,
  arith, append-nil, append_assoc, if◌then◌else◌, length, length-append, size_mod,
}
use mathlib.Core.Path.{subst}
use echo_web_server.Run.{
  Bytes, codes, ok, ◌>>=◌, Yields, yields, Yields-bind, Yields-weaken, Yields-value,
}
use echo_web_server.Buffer.{crlf, append_string}
use echo_web_server.Text.{split_string_to_lines}
use echo_web_server.Text.Replace.{Replaced, replace_all_substring-Replaced}
use echo_web_server.Text.Lines.{join_lines, split_string_to_lines-IsLine}
use echo_web_server.Http.{
  StatusCode, Parameters, status_code_to_integer, status_code_to_message, html_placeholder,
  put_param_into_html,
}
use echo_web_server.Response.{
  Response, decimal, add_status_line, add_headers, add_type_and_length, add_lines, length_of_lines,
  sum_sizes, add_param_content, error_page, add_predefined_error_content, content_type, line,
}
use echo_web_server.Response.Writes.{Writes, Writes-append_string, Writes-bind}

-- The text of a response: the status line, the connection headers, and the rest.
abbrev pub head_text : StatusCode → Bool → Bytes
head_text code keep_alive =
    line (
      codes "HTTP/1.1 "
      ++ (decimal (status_code_to_integer code) ++ (b' ' ∷ status_code_to_message code)))
    ++ (if keep_alive
        then line (codes "Connection: keep-alive") ++ line (codes "keep-alive: max=6, timeout=120")
        else line (codes "Connection: close"))

-- The content headers and the empty line.
abbrev pub content_text : Bytes → ℕ → Bytes
content_text type size =
    (line (codes "Content-type: " ++ type) ++ line (codes "Content-length: " ++ decimal size))
    ++ line []

-- A response whose `Content-length` is the length of its body.
abbrev pub response_text : StatusCode → Bool → Bytes → Bytes → Bytes
response_text code keep_alive type body =
    head_text code keep_alive ++ (content_text type (length body) ++ body)

pub Writes-head :
    (r : Response)
    → Writes (head_text r.status_code r.keep_alive) (λ b. add_status_line r b >>= add_headers r)
unfolding add_status_line add_headers
Writes-head r = Writes-bind status (headers r.keep_alive refl)
  where
    status :
        Writes
          (line (
            codes "HTTP/1.1 "
            ++ (decimal (status_code_to_integer r.status_code)
                ++ (b' ' ∷ status_code_to_message r.status_code))))
          (add_status_line r)
    status =
        Writes-append_string
          (codes "HTTP/1.1 "
            ++ (decimal (status_code_to_integer r.status_code)
                ++ (b' ' ∷ status_code_to_message r.status_code)))
          (some crlf)

    headers :
        (k : Bool)
        → r.keep_alive ≡ k
        → Writes
            (if k
              then line (codes "Connection: keep-alive")
                ++ line (codes "keep-alive: max=6, timeout=120")
              else line (codes "Connection: close"))
            (add_headers r)
    headers true e = rw e (
        Writes-bind (Writes-append_string (codes "Connection: ") none) (
          Writes-bind (Writes-append_string (codes "keep-alive") (some crlf))
            (Writes-append_string (codes "keep-alive: max=6, timeout=120") (some crlf))))
    headers false e = rw e (
        Writes-bind (Writes-append_string (codes "Connection: ") none)
          (Writes-append_string (codes "close") (some crlf)))

pub Writes-content :
    (type : Bytes) (size : ℕ) → Writes (content_text type size) (add_type_and_length type size)
unfolding add_type_and_length
Writes-content type size =
    Writes-bind
      (Writes-bind (Writes-append_string (codes "Content-type: " ++ type) (some crlf))
        (Writes-append_string (codes "Content-length: " ++ decimal size) (some crlf)))
      (Writes-append_string (13 ∷ 10 ∷ []) none)

Writes-string : (s : Bytes) → Writes s (append_string s none)
Writes-string s =
    subst (λ t. Writes t (append_string s none)) (append-nil s) (Writes-append_string s none)

pub Writes-error :
    (msg : Bytes) (r : Response)
    → Writes
        (content_text (codes "text/html") (length (error_page r.status_code msg))
          ++ error_page r.status_code msg)
        (add_predefined_error_content msg r)
unfolding add_predefined_error_content
Writes-error msg r =
    Writes-bind (Writes-content (codes "text/html") (length (error_page r.status_code msg)))
      (Writes-string (error_page r.status_code msg))

Writes-lines : (l : Bytes) (ls : List Bytes) → Writes (join_lines l ls) (add_lines (l ∷ ls))
unfolding add_lines
Writes-lines l [] = Writes-string l
Writes-lines l (m ∷ ls) =
    subst (λ t. Writes t (λ b. append_string l (some crlf) b >>= add_lines (m ∷ ls)))
      (append_assoc l (13 ∷ 10 ∷ []) (join_lines m ls))
      (Writes-bind (Writes-append_string l (some crlf)) (Writes-lines m ls))

length-join_lines :
    (l : Bytes) (ls : List Bytes) → length (join_lines l ls) ≡ 2 * length ls + sum_sizes (l ∷ ls)
length-join_lines l [] = omega arith
length-join_lines l (m ∷ ls) =
    omega (arith, length-append l (13 ∷ 10 ∷ join_lines m ls), length-join_lines m ls)

length_of_lines-join_lines :
    (l : Bytes) (ls : List Bytes)
    → length (join_lines l ls) < size_mod
    → length_of_lines (l ∷ ls) ≡ length (join_lines l ls)
unfolding length_of_lines
length_of_lines-join_lines l ls h = omega (arith, length-join_lines l ls)

-- The page with the placeholder of each parameter replaced in turn.
pub data Filled : Parameters → Bytes → Bytes → Type 0 where
  no_more : {page : Bytes} → Filled [] page page
  next :
      {params : Parameters} {page filled out : Bytes} (key value : Bytes)
      → Replaced (html_placeholder key) value page filled
      → Filled params filled out
      → Filled ((key, value) ∷ params) page out

placeholder_ne_nil : (key : Bytes) → html_placeholder key ≢ []
unfolding html_placeholder
placeholder_ne_nil key e = cc

-- Filling a page with parameters always ends, with each placeholder replaced in turn.
pub put_param_into_html-Filled :
    (html : Bytes) (params : Parameters)
    → Yields (Filled params html) (put_param_into_html html params)
unfolding put_param_into_html
put_param_into_html-Filled html [] = yields no_more
put_param_into_html-Filled html ((key, value) ∷ params) =
    Yields-bind
      (replace_all_substring-Replaced html (html_placeholder key) value (placeholder_ne_nil key))
      λ filled p.
        Yields-weaken (put_param_into_html-Filled filled params) λ out q. next key value p q

-- A body: the filled page, with each line end replaced by CRLF.
pub record IsBody (params : Parameters) (page : Bytes) (first : Bytes) (others : List Bytes)
    : Type 0 where
  pub content : Bytes
  pub filled : Filled params page content
  pub put : put_param_into_html page params ≡ ok content
  pub split : split_string_to_lines content ≡ ok (first ∷ others)

given_lines : (ls : List Bytes) → 0 < length ls → (l : Bytes) × (ms : List Bytes) × (ls ≡ l ∷ ms)
given_lines [] h = absurd (omega arith)
given_lines (l ∷ ms) h = (l, ms, refl)

pub page-IsBody :
    (params : Parameters) (page : Bytes) → (l : Bytes) × (ls : List Bytes) × IsBody params page l ls
page-IsBody params page =
    let (content, put, filled) = Yields-value (put_param_into_html-Filled page params) in
    let (ls, split, p) = Yields-value (split_string_to_lines-IsLine content) in
    let (l, ms, e) = given_lines ls p.1 in
    (l, ms, record { content = content; filled = filled; put = put; split = split ∙ ap ok e })

pub Writes-param_content :
    (params : Parameters) (r : Response) {page l : Bytes} {ls : List Bytes}
    → r.file.bytes ≡ some page
    → IsBody params page l ls
    → length (join_lines l ls) < size_mod
    → Writes
        (content_text (content_type r) (length (join_lines l ls)) ++ join_lines l ls)
        (add_param_content params r)
unfolding add_param_content
Writes-param_content params r {page} {l} {ls} e b small =
    rw (e, add_param_content)
      (rw b.put (
        rw b.split (
          rw (length_of_lines-join_lines l ls small) (
            Writes-bind (Writes-content (content_type r) (length (join_lines l ls)))
              (Writes-lines l ls)))))
