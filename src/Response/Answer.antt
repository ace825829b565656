-- ===== src/Response/Answer.antt =====
-- The responses that `Response` builds for a page and for a file, on each outcome of the mapping.
use echo_web_server.Prelude.{
  ◌+◌, ◌≤◌, ◌<◌, ◌≡◌, refl, sym, ap, Bool, List, ◌++◌, Option, none, some, arith, length,
  length-append, size_mod,
}
use mathlib.Core.Path.{subst}
use echo_web_server.Run.{Bytes, codes, Exception, ok, Yields, yields, Yields-bind}
use echo_web_server.Buffer.{Buffer, max_size}
use echo_web_server.Buffer.Valid.{IsValid}
use echo_web_server.Buffer.Append.{Appended}
use echo_web_server.Text.Lines.{join_lines}
use echo_web_server.Http.{StatusCode, ok_status, bad_request, Parameters}
use echo_web_server.Files.{FileSystem, MappedFile, map_file, move, what}
use echo_web_server.Response.{
  Response, clear, settings, full_path, add_mapped_content, error_page, content_type, with_status,
  build_mapped, build, give_file, build_file, build_page,
}
use echo_web_server.Response.Writes.{Writes, Writes-pair}
use echo_web_server.Response.Build.{
  head_text, content_text, response_text, Writes-head, Writes-content, Writes-error, IsBody,
  Writes-param_content,
}
use echo_web_server.Files.Mapping.{IsFile, mapped_file, map_file-IsFile, map_file-refused}

-- What the mapping of the file of a response gives.
abbrev pub mapping : FileSystem → Response → Option Exception × MappedFile
mapping fs r = map_file fs (full_path r) r.file

-- The response that refuses a file.
abbrev pub refusal_text : FileSystem → Bool → Exception → Bytes
refusal_text fs keep_alive e =
    response_text bad_request keep_alive (codes "text/html") (error_page bad_request (what fs e))

module _ (fs : FileSystem) (r : Response) {buf : Buffer} (v : IsValid buf) where
  -- The file could not be mapped.
  build-refused :
      (params : Option Parameters) (e : Exception) (file : MappedFile)
      → buf.write_pos + length (refusal_text fs r.keep_alive e) ≤ max_size
      → Yields
          (λ (s : Response × Buffer).
            (s.0 ≡ with_status (some e) file r) × Appended (refusal_text fs r.keep_alive e) buf s.1)
          (build_mapped fs params r (some e, file) buf)
  unfolding build_mapped
  build-refused params e file fits =
      let r' = with_status (some e) file r in
      Writes-pair r' (Writes-head r') (Writes-error (what fs e) r') v fits

  -- The page has been mapped and is filled.
  build-filled :
      (params : Parameters) (file : MappedFile) {page l : Bytes} {ls : List Bytes}
      → file.bytes ≡ some page
      → IsBody params page l ls
      → buf.write_pos
          + length (response_text r.status_code r.keep_alive (content_type r) (join_lines l ls))
        ≤ max_size
      → Yields
          (λ (s : Response × Buffer).
            (s.0 ≡ with_status none file r)
            × Appended
                (response_text r.status_code r.keep_alive (content_type r) (join_lines l ls))
                buf
                s.1)
          (build_mapped fs (some params) r (none, file) buf)
  unfolding build_mapped
  build-filled params file {page} {l} {ls} q b fits =
      let r' = with_status none file r in
      let parts =
        length-append (head_text r.status_code r.keep_alive)
          (content_text (content_type r) (length (join_lines l ls)) ++ join_lines l ls) in
      let body =
        length-append (content_text (content_type r) (length (join_lines l ls)))
          (join_lines l ls) in
      let small : length (join_lines l ls) < size_mod = omega (arith, fits, parts, body) in
      Writes-pair r' (Writes-head r') (Writes-param_content params r' q b small) v fits

  -- The file has been mapped, and its content goes its own way.
  build-mapped :
      (file : MappedFile) {bytes : Bytes}
      → file.bytes ≡ some bytes
      → buf.write_pos
          + length (head_text r.status_code r.keep_alive ++ content_text (content_type r) file.size)
        ≤ max_size
      → Yields
          (λ (s : Response × Buffer).
            (s.0 ≡ with_status none file r)
            × Appended
                (head_text r.status_code r.keep_alive ++ content_text (content_type r) file.size)
                buf
                s.1)
          (build_mapped fs none r (none, file) buf)
  unfolding build_mapped
  build-mapped file q fits =
      let r' = with_status none file r in Writes-pair r' (Writes-head r') Writes-mapped v fits
    where
      Writes-mapped :
          Writes
            (content_text (content_type r) file.size)
            (add_mapped_content (with_status none file r))
      Writes-mapped =
          unfold add_mapped_content in
          rw (q, add_mapped_content) (Writes-content (content_type r) file.size)

-- `Build`, once the outcome of the mapping is known.
build-outcome {κ} :
    (fs : FileSystem) (params : Option Parameters) (r : Response) (buf : Buffer)
    (P : Response × Buffer → Type κ) (p : Option Exception × MappedFile)
    → mapping fs r ≡ p
    → Yields P (build_mapped fs params r p buf)
    → Yields P (build fs params r buf)
unfolding build
build-outcome fs params r buf P p e y =
    subst (λ q. Yields P (build_mapped fs params r q buf)) (sym e) y

abbrev pub page_path : Bytes → Response → Bytes
page_path path r = full_path (settings path ok_status r)

abbrev pub type_of : Bytes → Response → Bytes
type_of path r = content_type (settings path ok_status r)

module _ (fs : FileSystem) (path : Bytes) (r : Response) {buf : Buffer} where
  -- `Build` of a page whose file is there sets the status OK and appends a response whose body is the
  -- page with its placeholders replaced by the parameters and its lines joined by CRLF, and whose
  -- `Content-length` is the length of that body.
  pub build_page-filled :
      (params : Parameters) {page l : Bytes} {ls : List Bytes}
      → IsValid buf
      → IsFile fs (page_path path r) page
      → IsBody params page l ls
      → buf.write_pos
          + length (response_text ok_status r.keep_alive (type_of path r) (join_lines l ls))
        ≤ max_size
      → Yields
          (λ (s : StatusCode × (Response × Buffer)).
            (s.0 ≡ ok_status)
            × Appended
                (response_text ok_status r.keep_alive (type_of path r) (join_lines l ls))
                buf
                s.1.1)
          (build_page fs path params r buf)
  unfolding build_page build clear
  build_page-filled params {page} v f b fits =
      let file = mapped_file (page_path path r) page in
      Yields-bind
        (build-outcome fs (some params) (settings path ok_status r) buf _ (none, file)
          (map_file-IsFile fs (page_path path r) page (settings path ok_status r).file f)
          (build-filled fs (settings path ok_status r) v params file refl b fits))
        λ s h. yields (ap (λ (q : Response). q.status_code) h.0, h.1)

  -- `Build` of a file that is there sets the status OK, gives the mapped file, and appends the headers
  -- of a response, with the file's type and its length as `Content-length`.
  pub build_file-mapped :
      {bytes : Bytes}
      → IsValid buf
      → IsFile fs (page_path path r) bytes
      → buf.write_pos
          + length
              (head_text ok_status r.keep_alive ++ content_text (type_of path r) (length bytes))
        ≤ max_size
      → Yields
          (λ (s : Option MappedFile × (StatusCode × (Response × Buffer))).
            (s.0 ≡ some (mapped_file (page_path path r) bytes))
            × (s.1.0 ≡ ok_status)
            × Appended
                (head_text ok_status r.keep_alive ++ content_text (type_of path r) (length bytes))
                buf
                s.1.1.1)
          (build_file fs path r buf)
  unfolding build_file build clear give_file move
  build_file-mapped {bytes} v f fits =
      let file = mapped_file (page_path path r) bytes in
      Yields-bind
        (build-outcome fs none (settings path ok_status r) buf _ (none, file)
          (map_file-IsFile fs (page_path path r) bytes (settings path ok_status r).file f)
          (build-mapped fs (settings path ok_status r) v file refl fits))
        λ s h.
          subst
            (λ (q : Response).
              Yields
                (λ (o : Option MappedFile × (StatusCode × (Response × Buffer))).
                  (o.0 ≡ some file)
                  × (o.1.0 ≡ ok_status)
                  × Appended
                      (head_text ok_status r.keep_alive
                        ++ content_text (type_of path r) (length bytes))
                      buf o.1.1.1)
                (ok (give_file q s.1)))
            (sym h.0) (yields (refl, refl, h.1))

  -- `Build` of a page or a file that could not be mapped sets the status Bad Request and appends a
  -- response whose body is the error page with the message of the exception.
  pub build-answers_refusal :
      (params : Parameters) (e : Exception) (file : MappedFile)
      → IsValid buf
      → map_file fs (page_path path r) (settings path ok_status r).file ≡ (some e, file)
      → buf.write_pos + length (refusal_text fs r.keep_alive e) ≤ max_size
      → Yields
          (λ (s : StatusCode × (Response × Buffer)).
            (s.0 ≡ bad_request) × Appended (refusal_text fs r.keep_alive e) buf s.1.1)
          (build_page fs path params r buf)
        × Yields
            (λ (s : Option MappedFile × (StatusCode × (Response × Buffer))).
              (s.0 ≡ none)
              × (s.1.0 ≡ bad_request)
              × Appended (refusal_text fs r.keep_alive e) buf s.1.1.1)
            (build_file fs path r buf)
  unfolding build_page build_file build clear give_file move
  build-answers_refusal params e file v m fits = (
    Yields-bind
        (build-outcome fs (some params) (settings path ok_status r) buf _ (some e, file) m
          (build-refused fs (settings path ok_status r) v (some params) e file fits))
        λ s h. yields (ap (λ (q : Response). q.status_code) h.0, h.1),
    Yields-bind
        (build-outcome fs none (settings path ok_status r) buf _ (some e, file) m
          (build-refused fs (settings path ok_status r) v none e file fits))
        λ s h.
          subst
            (λ (q : Response).
              Yields
                (λ (o : Option MappedFile × (StatusCode × (Response × Buffer))).
                  (o.0 ≡ none)
                  × (o.1.0 ≡ bad_request)
                  × Appended (refusal_text fs r.keep_alive e) buf o.1.1.1)
                (ok (give_file q s.1)))
            (sym h.0)
            (rw
              (
                map_file-refused fs (page_path path r) (settings path ok_status r).file e file m,
                give_file,
              )
              (yields (refl, refl, h.1))),
  )
