-- ===== src/Request/Tests.antt =====
-- Tests of the request parser, and its theorems at concrete requests.
use echo_web_server.Prelude.{
  ◌≡◌, ◌≢◌, refl, true, [], ◌∷◌, Option, none, some, arith, length, sub_size, add_size,
}
use echo_web_server.Run.{Bytes, codes, Run, ok, Yields}
use echo_web_server.Buffer.{Buffer, readable_bytes}
use echo_web_server.Buffer.Valid.{IsValid}
use echo_web_server.Http.{get, post, Parameters, lookup, method_to_string}
use echo_web_server.Http.Encoding.{Encodes, nothing, plain, escaped}
use echo_web_server.Request.{
  finished, Request, cleared, contains, header_of, post_of, keep_alive, match_status_line,
  match_header, Step, invalid, parse, parse_url_encoded_post, invalid_post,
}
use echo_web_server.Request.Form.{
  ampersand_value-refused, IsForm, ends, byte, space, last_pair, new_pair,
}
use echo_web_server.Request.Parse.{Parses, parse_behaviour}
use echo_web_server.Request.Print.{print_request, head_of, IsSendable, form_type, parse-print_post}

test_status_line :
    match_status_line (codes "GET /a HTTP/1.1") ≡ some (codes "GET", codes "/a", codes "1.1")
unfolding match_status_line
test_status_line = refl

test_status_line_bad : match_status_line (codes "GET /a b HTTP/1.1") ≡ none
unfolding match_status_line
test_status_line_bad = refl

test_header : match_header (codes "Host: a:b ") ≡ some (codes "Host", codes "a:b ")
unfolding match_header
test_header = refl

abbrev buffer_of : Bytes → Buffer
buffer_of bytes = record { buf = bytes; read_pos = 0; write_pos = length bytes }

abbrev request_of : Run (Step (Request × Buffer)) → Option Request
request_of (ok (none, (r, _))) = some r
request_of _ = none

abbrev fields : Parameters
fields = (codes "Connection", codes "keep-alive") ∷ (codes "Content-Type", form_type) ∷ []

abbrev get_text : Bytes
get_text = print_request get (codes "/a") (codes "1.1") fields []

abbrev get_buffer : Buffer
get_buffer = buffer_of get_text

get_buffer-IsValid : IsValid get_buffer
unfolding method_to_string
get_buffer-IsValid = record { ordered = omega arith; inside = omega arith; bounded = omega arith }

test_parse : request_of (parse get_buffer) ≡ some (head_of get (codes "/a") (codes "1.1") fields)
unfolding parse sub_size add_size method_to_string
test_parse = refl

test_keep_alive : keep_alive (head_of get (codes "/a") (codes "1.1") fields) ≡ true
unfolding keep_alive
test_keep_alive = refl

test_header_of :
    header_of (codes "Connection") (head_of get (codes "/a") (codes "1.1") fields)
    ≡ some (codes "keep-alive")
unfolding header_of
test_header_of = refl

test_post_of : post_of (codes "k") cleared ≡ none
unfolding post_of
test_post_of = refl

sendable : IsSendable (codes "/a") (codes "1.1") fields
unfolding contains lookup
sendable = record {
  path_word = refl;
  path_line = omega arith;
  version_word = refl;
  version_line = omega arith;
  fields = (refl, omega arith, omega arith, refl, (refl, omega arith, omega arith, refl, tt));
}

parse_behaviour_example :
    (readable_bytes get_buffer ≡ []
      → parse get_buffer ≡ ok (invalid (codes "The buffer is empty"), (cleared, get_buffer)))
    × (readable_bytes get_buffer ≢ []
        → Yields (Parses cleared (readable_bytes get_buffer)) (parse get_buffer))
parse_behaviour_example = parse_behaviour get_buffer-IsValid

abbrev posted : Parameters
posted = (codes "user", codes "mike chen") ∷ (codes "msg", codes "hi!") ∷ []

encoded : Encodes (codes "user=mike+chen&msg=hi%21") (codes "user=mike+chen&msg=hi!")
encoded = plain b'u' (omega arith) (
    plain b's' (omega arith) (
      plain b'e' (omega arith) (
        plain b'r' (omega arith) (
          plain b'=' (omega arith) (
            plain b'm' (omega arith) (
              plain b'i' (omega arith) (
                plain b'k' (omega arith) (
                  plain b'e' (omega arith) (
                    plain b'+' (omega arith) (
                      plain b'c' (omega arith) (
                        plain b'h' (omega arith) (
                          plain b'e' (omega arith) (
                            plain b'n' (omega arith) (
                              plain b'&' (omega arith) (
                                plain b'm' (omega arith) (
                                  plain b's' (omega arith) (
                                    plain b'g' (omega arith) (
                                      plain b'=' (omega arith) (
                                        plain b'h' (omega arith) (
                                          plain b'i' (omega arith) (
                                            escaped b'2' b'1' 2 1 refl refl
                                              nothing)))))))))))))))))))))

form : IsForm [] (codes "user=mike+chen&msg=hi!") posted
unfolding lookup
form =
    new_pair {kt = codes "user"} {vt = codes "mike+chen"} {text = codes "msg=hi!"}
      {k = codes "user"} {v = codes "mike chen"}
      (byte b'u' (omega arith) (omega arith) (omega arith) (
        byte b's' (omega arith) (omega arith) (omega arith) (
          byte b'e' (omega arith) (omega arith) (omega arith)
            (byte b'r' (omega arith) (omega arith) (omega arith) (ends)))))
      (byte b'm' (omega arith) (omega arith) (omega arith) (
        byte b'i' (omega arith) (omega arith) (omega arith) (
          byte b'k' (omega arith) (omega arith) (omega arith) (
            byte b'e' (omega arith) (omega arith) (omega arith) (
              space (
                byte b'c' (omega arith) (omega arith) (omega arith) (
                  byte b'h' (omega arith) (omega arith) (omega arith) (
                    byte b'e' (omega arith) (omega arith) (omega arith)
                      (byte b'n' (omega arith) (omega arith) (omega arith) (ends))))))))))
      (cc) refl
      (last_pair {kt = codes "msg"} {vt = codes "hi!"}
        (byte b'm' (omega arith) (omega arith) (omega arith) (
          byte b's' (omega arith) (omega arith) (omega arith)
            (byte b'g' (omega arith) (omega arith) (omega arith) (ends))))
        (byte b'h' (omega arith) (omega arith) (omega arith) (
          byte b'i' (omega arith) (omega arith) (omega arith)
            (byte b'!' (omega arith) (omega arith) (omega arith) (ends))))
        (cc) refl (cc))

abbrev post_text : Bytes
post_text = print_request post (codes "/a") (codes "1.1") fields (codes "user=mike+chen&msg=hi%21")

abbrev post_buffer : Buffer
post_buffer = buffer_of post_text

post_buffer-IsValid : IsValid post_buffer
unfolding method_to_string
post_buffer-IsValid = record { ordered = omega arith; inside = omega arith; bounded = omega arith }

parse-print_post_example :
    Yields
      (λ s.
        (s.0 ≡ none)
        × (s.1.0 ≡ record (head_of post (codes "/a") (codes "1.1") fields) {
          state = finished;
          posts = posted;
        })
        × (readable_bytes s.1.1 ≡ [])
        × IsValid s.1.1)
      (parse post_buffer)
parse-print_post_example =
    parse-print_post (codes "/a") (codes "1.1") fields posted sendable (unfold lookup in refl) form
      encoded (omega arith) (cc) post_buffer-IsValid
      (unfold readable_bytes sub_size method_to_string in refl)

-- `k=a%26b`
encoded_ampersand : Encodes (codes "k=a%26b") (codes "k=a&b")
encoded_ampersand = plain b'k' (omega arith) (
    plain b'=' (omega arith) (
      plain b'a' (omega arith)
        (escaped b'2' b'6' 2 6 refl refl (plain b'b' (omega arith) nothing))))

ampersand_value-refused_example :
    parse_url_encoded_post (codes "k=a%26b") cleared
    ≡ (invalid_post (codes "k=a%26b"), record cleared { posts = (codes "k", codes "a") ∷ [] })
unfolding lookup
ampersand_value-refused_example =
    ampersand_value-refused cleared (codes "k") (codes "a") (codes "b")
      ((omega arith, omega arith, omega arith), tt) ((omega arith, omega arith, omega arith), tt)
      ((omega arith, omega arith, omega arith), tt) (λ e. cc e) refl encoded_ampersand
