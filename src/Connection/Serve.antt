-- ===== src/Connection/Serve.antt =====
-- `Process`: from the bytes of a request in the reading buffer to the response in the writing buffer.
use echo_web_server.Prelude.{
  ◌+◌, ◌≤◌, ◌≡◌, ◌≢◌, refl, sym, ◌∙◌, Bool, true, false, List, [], ◌++◌, none, some, arith, ◌==◌,
  length,
}
use mathlib.Core.Path.{subst}
use echo_web_server.Run.{Bytes, codes, ok, Yields, yields, Yields-bind, Yields-else, Yields-then}
use echo_web_server.Buffer.{Buffer, max_size, readable_size, readable_bytes}
use echo_web_server.Buffer.Valid.{IsValid, length-readable_bytes}
use echo_web_server.Buffer.Append.{Appended}
use echo_web_server.Text.Lines.{IsCleanLine, join_lines}
use echo_web_server.Http.{post, ok_status, Parameters, equal, lookup}
use echo_web_server.Http.Encoding.{Encodes}
use echo_web_server.Files.{FileSystem, MappedFile, unmap}
use echo_web_server.Request.{Request, Step, finished, keep_alive, parse}
use echo_web_server.Request.Form.{IsForm}
use echo_web_server.Request.Print.{
  print_request, print_request_ne_nil, head_of, IsSendable, form_type, parse-print_post,
}
use echo_web_server.Response.{Response, response_of, set_keep_alive}
use echo_web_server.Response.Build.{head_text, content_text, response_text, IsBody}
use echo_web_server.Files.Mapping.{IsFile, mapped_file}
use echo_web_server.Response.Answer.{page_path, type_of, build_page-filled}
use echo_web_server.Connection.{
  Connection, index_page, target_of, index_params, answer, respond, process,
}
use echo_web_server.Connection.Meaning.{
  AsksToStay, keep_alive-AsksToStay, IsIndex, target_of-index, Shows, index_params-Shows,
}

-- The builder of the response to a request that is to be kept or not.
abbrev pub responder : Bytes → Bool → Response
responder root_dir kept = set_keep_alive kept (response_of root_dir)

-- The connection behind the parsing of a request.
abbrev pub with_request : Request → Buffer → Connection → Connection
with_request request buf c = record c {
  file = unmap c.file;
  keep_alive = keep_alive request;
  read_buf = buf;
}

-- Where the request is parsed, processing is answering it.
process-answer {κ} :
    (fs : FileSystem) (root_dir : Bytes) (c : Connection) (request : Request)
    (P : Connection → Type κ)
    → IsValid c.read_buf
    → readable_bytes c.read_buf ≢ []
    → Yields
        (λ (s : Step (Request × Buffer)).
          (s.0 ≡ none) × (s.1.0 ≡ request) × (readable_bytes s.1.1 ≡ []) × IsValid s.1.1)
        (parse c.read_buf)
    → ((buf : Buffer)
        → readable_bytes buf ≡ []
        → IsValid buf
        → Yields P (
            answer fs request
              (responder root_dir (keep_alive request))
              (with_request request buf c)))
    → Yields (λ (r : Bool × Connection). (r.0 ≡ true) × P r.1) (process fs root_dir c)
unfolding process respond
process-answer fs root_dir c request P v given parsed k =
    let some_left : (readable_size c.read_buf == 0) ≡ false =
      ground (arith, length-readable_bytes v) in
    Yields-else (ok (false, record c { file = unmap c.file })) (readable_size c.read_buf == 0)
      some_left (Yields-bind parsed λ s h. Yields-bind (accepted s h) λ d p. yields (refl, p))
  where
    accepted :
        (s : Step (Request × Buffer))
        → (s.0 ≡ none) × (s.1.0 ≡ request) × (readable_bytes s.1.1 ≡ []) × IsValid s.1.1
        → Yields P (respond fs root_dir (record c { file = unmap c.file }) s)
    accepted (some x, s) h = cc
    accepted (none, (q, buf)) h =
        subst
          (λ q. Yields P (respond fs root_dir (record c { file = unmap c.file }) (none, (q, buf))))
          (sym h.1) (k buf h.2 h.3)

-- What a file answer leaves.
pub record IsServed (c : Connection) (text : Bytes) (file : MappedFile) (kept : Bool)
    (d : Connection) : Type 0 where
  pub appended : Appended text c.write_buf d.write_buf
  pub mapped : d.file ≡ file
  pub emptied : readable_bytes d.read_buf ≡ []
  pub readable : IsValid d.read_buf
  pub alive : d.keep_alive ≡ kept

answer-index :
    (fs : FileSystem) (root_dir : Bytes) (c : Connection) (request : Request) (buf : Buffer)
    {page l : Bytes} {ls : List Bytes}
    → readable_bytes buf ≡ []
    → IsValid buf
    → IsValid c.write_buf
    → equal (target_of request) index_page ≡ true
    → IsFile fs (page_path index_page (responder root_dir (keep_alive request))) page
    → IsBody (index_params request) page l ls
    → c.write_buf.write_pos
        + length (
            response_text ok_status
              (keep_alive request)
              (type_of index_page (responder root_dir (keep_alive request)))
              (join_lines l ls))
      ≤ max_size
    → Yields
        (IsServed c
          (response_text ok_status
            (keep_alive request)
            (type_of index_page (responder root_dir (keep_alive request)))
            (join_lines l ls))
          (unmap c.file)
          (keep_alive request))
        (answer fs request (responder root_dir (keep_alive request)) (with_request request buf c))
unfolding answer set_keep_alive
answer-index fs root_dir c request buf emptied readable v this f b fits =
    Yields-then _ (equal (target_of request) index_page) this (
      Yields-bind
        (build_page-filled fs index_page (responder root_dir (keep_alive request))
          (index_params request) v f b fits)
        λ s h. yields (record {
          appended = h.1;
          mapped = refl;
          emptied = emptied;
          readable = readable;
          alive = refl;
        }))

-- What is said of a file answer, for a target and for what becomes of the connection.
abbrev ServesFile :
    FileSystem → Bytes → Connection → Request → Buffer → Bytes → Bytes → Bool → Type 0
ServesFile fs root_dir c request buf bytes target kept =
    equal target index_page ≡ false
    → IsFile fs (page_path target (responder root_dir kept)) bytes
    → c.write_buf.write_pos
        + length (
            head_text ok_status kept
            ++ content_text (type_of target (responder root_dir kept)) (length bytes))
      ≤ max_size
    → Yields
        (IsServed c
          (head_text ok_status kept
            ++ content_text (type_of target (responder root_dir kept)) (length bytes))
          (mapped_file (page_path target (responder root_dir kept)) bytes) kept)
        (answer fs request (responder root_dir (keep_alive request)) (with_request request buf c))

-- What the parser makes of a posted form.
abbrev pub form_request : Bytes → Bytes → Parameters → Parameters → Request
form_request path version hs posts = record (head_of post path version hs) {
  state = finished;
  posts = posts;
}

abbrev ServesPage :
    FileSystem
    → Bytes
    → Connection
    → Request
    → Buffer
    → Bytes
    → Bytes
    → List Bytes
    → Parameters
    → Bool
    → Type 0
ServesPage fs root_dir c request buf page l ls params kept =
    IsFile fs (page_path index_page (responder root_dir kept)) page
    → IsBody params page l ls
    → c.write_buf.write_pos
        + length (
            response_text ok_status kept (type_of index_page (responder root_dir kept))
              (join_lines l ls))
      ≤ max_size
    → Yields
        (IsServed c
          (response_text ok_status kept (type_of index_page (responder root_dir kept))
            (join_lines l ls))
          (unmap c.file) kept)
        (answer fs request (responder root_dir (keep_alive request)) (with_request request buf c))

answer-params :
    (fs : FileSystem) (root_dir : Bytes) (c : Connection) (request : Request) (buf : Buffer)
    (page l : Bytes) (ls : List Bytes) {params : Parameters} {kept : Bool}
    → readable_bytes buf ≡ []
    → IsValid buf
    → IsValid c.write_buf
    → equal (target_of request) index_page ≡ true
    → index_params request ≡ params
    → keep_alive request ≡ kept
    → ServesPage fs root_dir c request buf page l ls params kept
answer-params fs root_dir c request buf page l ls {params} emptied readable v this p k =
    subst (ServesPage fs root_dir c request buf page l ls params) k (
      subst (λ x. ServesPage fs root_dir c request buf page l ls x (keep_alive request)) p
        (λ f b fits. answer-index fs root_dir c request buf emptied readable v this f b fits))

-- A form that is posted to a path of the index page, in the reading buffer as a client prints it, where
-- the page is there and the response fits the writing buffer: `Process` returns true and appends a
-- response with status OK whose body is the page filled with the form's user and message, if it names a
-- user, and with whether there is a message to hide, and whose `Content-length` is the length of that
-- body; no file is left mapped, the reading buffer is left empty, and the connection is kept alive
-- exactly for HTTP 1.1 with the header `Connection: keep-alive`. The form is one line, a URL encoding of
-- `k=v&k=v` in which a space may stand as a plus sign; keys and values hold no other `+`, no `=` and no
-- `&`, encoded or not, no key is empty, of a repeated key the first value counts, and the last key is
-- new and its value not empty.
pub process-serves_form :
    {e text : Bytes} (fs : FileSystem) (root_dir : Bytes) (c : Connection) (path version : Bytes)
    (hs posts params : Parameters) {page l : Bytes} {ls : List Bytes} {kept : Bool}
    → IsSendable path version hs
    → AsksToStay version hs kept
    → IsIndex path
    → lookup (codes "Content-Type") hs ≡ some form_type
    → IsForm [] text posts
    → Encodes e text
    → IsCleanLine e
    → e ≢ []
    → Shows posts params
    → IsValid c.read_buf
    → readable_bytes c.read_buf ≡ print_request post path version hs e
    → IsValid c.write_buf
    → IsFile fs (page_path index_page (responder root_dir kept)) page
    → IsBody params page l ls
    → c.write_buf.write_pos
        + length (
            response_text ok_status kept
              (type_of index_page (responder root_dir kept))
              (join_lines l ls))
      ≤ max_size
    → Yields
        (λ (r : Bool × Connection).
          (r.0 ≡ true)
          × IsServed c
              (response_text ok_status kept
                (type_of index_page (responder root_dir kept))
                (join_lines l ls))
              (unmap c.file)
              kept
              r.1)
        (process fs root_dir c)
process-serves_form {e} fs root_dir c path version hs posts params {page} {l} {ls} w stay home typed
      form enc clean given shows readable same v f b fits =
    let request = form_request path version hs posts in
    process-answer fs root_dir c request _ readable
      (λ q. print_request_ne_nil post path version hs e (sym same ∙ q))
      (parse-print_post path version hs posts w typed form enc clean given readable same)
      λ buf q u.
        answer-params fs root_dir c request buf page l ls q u v (target_of-index request home)
          (index_params-Shows request shows) (keep_alive-AsksToStay request stay) f b fits
