-- ===== src/Request/Print.antt =====
-- A printed request is parsed back.
use echo_web_server.Prelude.{
  ◌≡◌, ◌≢◌, refl, sym, ap, ◌∙◌, false, [], ◌∷◌, ◌++◌, Option, none, some, arith,
}
use mathlib.Core.Path.{subst}
use echo_web_server.Run.{Bytes, codes, Exception, Yields, Yields-weaken}
use echo_web_server.Buffer.{Buffer, readable_bytes}
use echo_web_server.Buffer.Valid.{IsValid}
use echo_web_server.Text.{starts_with, find}
use echo_web_server.Text.Lines.{IsCleanLine}
use echo_web_server.Http.{
  Method, get, post, put, patch, delete, Parameters, lookup, method_to_string,
}
use echo_web_server.Http.Encoding.{Encodes}
use echo_web_server.Request.{
  header, body, finished, Request, cleared, contains, parse_line, parse_body, parse_post, header_of,
  new_line, parse,
}
use echo_web_server.Request.Form.{IsForm, parse_url_encoded_post-form}
use echo_web_server.Request.Parse.{Consumes, ended, refused, accepted, after_line, parse_behaviour}
use echo_web_server.Request.Lines.{
  line-Consumes, print_status_line, method_to_string-clean, parse_status_line-of, All-append,
  print_headers, AreHeaders, headers-Consumes,
}

-- A request without a body, as a client sends it.
abbrev pub print_request : Method → Bytes → Bytes → Parameters → Bytes → Bytes
print_request m path version hs rest =
    print_status_line (method_to_string m) path version ++ (13 ∷ 10 ∷ print_headers hs rest)

-- What the parser makes of it.
abbrev pub head_of : Method → Bytes → Bytes → Parameters → Request
head_of m path version hs = record cleared {
  state = body;
  method = m;
  path = path;
  version = version;
  headers = hs;
}

-- The path and the version hold no space and no line terminator, and the headers are as above.
pub record IsSendable (path version : Bytes) (hs : Parameters) : Type 0 where
  pub path_word : contains b' ' path ≡ false
  pub path_line : IsCleanLine path
  pub version_word : contains b' ' version ≡ false
  pub version_line : IsCleanLine version
  pub fields : AreHeaders [] hs

head-Consumes :
    (m : Method) (path version : Bytes) (hs : Parameters) (rest : Bytes) {s : Request}
    {left : Bytes} {e : Option Exception}
    → IsSendable path version hs
    → Consumes (head_of m path version hs) rest e s left
    → Consumes cleared (print_request m path version hs rest) e s left
head-Consumes m path version hs rest w c =
    line-Consumes (print_status_line (method_to_string m) path version)
      (record cleared { state = header; method = m; path = path; version = version })
      (All-append _ (method_to_string m) _ (method_to_string-clean m) (
        omega arith,
        All-append _ path _ w.path_line
            (omega arith, All-append _ (codes "HTTP/") version (omega arith) w.version_line),
      ))
      (unfold parse_line in parse_status_line-of m path version cleared w.path_word w.version_word)
      (headers-Consumes hs rest _ refl w.fields c)

-- The parser over lines has one result.
Consumes-unique :
    {r s s' : Request} {content left left' : Bytes} {e e' : Option Exception}
    → Consumes r content e s left
    → Consumes r content e' s' left'
    → (e ≡ e') × (s ≡ s') × (left ≡ left')
Consumes-unique (ended r) (ended _) = (refl, refl, refl)
Consumes-unique (ended r) (refused n p) = absurd (n refl)
Consumes-unique (ended r) (accepted n p c) = absurd (n refl)
Consumes-unique (refused n p) (ended r) = absurd (n refl)
Consumes-unique (refused n p) (refused m q) = let same = sym p ∙ q in (cc, cc, refl)
Consumes-unique (refused n p) (accepted m q c) = absurd (cc (sym p ∙ q))
Consumes-unique (accepted n p c) (ended r) = absurd (n refl)
Consumes-unique (accepted n p c) (refused m q) = absurd (cc (sym p ∙ q))
Consumes-unique {s' = s'} {content = content} {left' = left'} {e' = e'} (accepted {r' = a} n p c)
      (accepted {r' = b} m q d) =
    let same : a ≡ b = cc (sym p ∙ q) in
    Consumes-unique c (subst (λ x. Consumes x (after_line content) e' s' left') (sym same) d)

-- What the parser over lines gives is what `Parse` gives for a buffer that holds the text.
parse-of_Consumes :
    {buf : Buffer} {content left : Bytes} {e : Option Exception} {r : Request}
    → IsValid buf
    → readable_bytes buf ≡ content
    → content ≢ []
    → Consumes cleared content e r left
    → Yields
        (λ s. (s.0 ≡ e) × (s.1.0 ≡ r) × (readable_bytes s.1.1 ≡ left) × IsValid s.1.1)
        (parse buf)
parse-of_Consumes {buf} v same given c =
    Yields-weaken ((parse_behaviour v).1 (rw same given))
      λ s p. let (x, y, z) = Consumes-unique (rw same at p.1) c in (x, y, z, p.0)

pub print_request_ne_nil :
    (m : Method) (path version : Bytes) (hs : Parameters) (rest : Bytes)
    → print_request m path version hs rest ≢ []
unfolding method_to_string
print_request_ne_nil get path version hs rest e = cc
print_request_ne_nil post path version hs rest e = cc
print_request_ne_nil put path version hs rest e = cc
print_request_ne_nil patch path version hs rest e = cc
print_request_ne_nil delete path version hs rest e = cc

-- A buffer that holds a printed request without a body is parsed with no exception into exactly the
-- method, path, version and headers that were printed, and is left empty and valid.
pub parse-print_request :
    (m : Method) (path version : Bytes) (hs : Parameters) {buf : Buffer}
    → IsSendable path version hs
    → IsValid buf
    → readable_bytes buf ≡ print_request m path version hs []
    → Yields
        (λ s.
          (s.0 ≡ none)
          × (s.1.0 ≡ head_of m path version hs)
          × (readable_bytes s.1.1 ≡ [])
          × IsValid s.1.1)
        (parse buf)
parse-print_request m path version hs w v same =
    parse-of_Consumes v same (print_request_ne_nil m path version hs [])
      (head-Consumes m path version hs [] w (ended _))

find-clean : (l : Bytes) → IsCleanLine l → find new_line l ≡ none
unfolding find starts_with
find-clean [] h = refl
find-clean (c ∷ l) h = ground (arith, find-clean l h.1)

abbrev pub form_type : Bytes
form_type = codes "application/x-www-form-urlencoded"

parse_post-form :
    {text : Bytes} (r : Request) (e : Bytes) (posts : Parameters)
    → r.posts ≡ []
    → lookup (codes "Content-Type") r.headers ≡ some form_type
    → IsForm [] text posts
    → Encodes e text
    → parse_post e r ≡ (none, record r { posts = posts })
unfolding parse_post header_of
parse_post-form r e posts start typed form enc =
    rw typed (parse_url_encoded_post-form r posts start form enc)

parse_body-form :
    {e text : Bytes} (path version : Bytes) (hs posts : Parameters)
    → lookup (codes "Content-Type") hs ≡ some form_type
    → IsForm [] text posts
    → Encodes e text
    → parse_line body e (head_of post path version hs)
      ≡ (none, record (head_of post path version hs) { state = finished; posts = posts })
unfolding parse_line parse_body
parse_body-form {e} path version hs posts typed form enc =
    ap (λ s. (s.0, elim s.0 [ none ↦ record s.1 { state = finished } | some _ ↦ s.1 ]))
      (parse_post-form (head_of post path version hs) e posts refl typed form enc)

-- A buffer that holds a printed `POST` request with a form as its body, of the form's content type, is
-- parsed with no exception into what was printed and the pairs of the form, and is left empty. The body
-- is one line, a URL encoding of `k=v&k=v` in which a space may stand as a plus sign; keys and values hold
-- no other `+`, no `=` and no `&`, encoded or not, no key is empty, of a repeated key the first value
-- counts, and the last key is new and its value not empty.
pub parse-print_post :
    {e text : Bytes} (path version : Bytes) (hs posts : Parameters) {buf : Buffer}
    → IsSendable path version hs
    → lookup (codes "Content-Type") hs ≡ some form_type
    → IsForm [] text posts
    → Encodes e text
    → IsCleanLine e
    → e ≢ []
    → IsValid buf
    → readable_bytes buf ≡ print_request post path version hs e
    → Yields
        (λ s.
          (s.0 ≡ none)
          × (s.1.0 ≡ record (head_of post path version hs) { state = finished; posts = posts })
          × (readable_bytes s.1.1 ≡ [])
          × IsValid s.1.1)
        (parse buf)
parse-print_post {e} path version hs posts w typed form enc clean given v same =
    parse-of_Consumes v same (print_request_ne_nil post path version hs e) (
      head-Consumes post path version hs e w (
        accepted {r' = record (head_of post path version hs) { state = finished; posts = posts }}
          given (rw (find-clean e clean) (parse_body-form path version hs posts typed form enc))
          (rw (find-clean e clean) (ended _))))
