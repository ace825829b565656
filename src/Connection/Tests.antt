-- ===== src/Connection/Tests.antt =====
-- Tests of the connection, and its theorems at concrete requests.
use echo_web_server.Prelude.{
  ◌+◌, ◌≡◌, refl, Bool, true, false, [], ◌∷◌, ◌++◌, some, inr, arith, length, replicate, sub_size,
}
use echo_web_server.Run.{Bytes, codes, ok, out_of_fuel, Yields, Yields-ok}
use echo_web_server.Buffer.{Buffer, of_size, readable_bytes}
use echo_web_server.Buffer.Valid.{IsValid, of_size-IsValid}
use echo_web_server.Text.{split_string_to_lines}
use echo_web_server.Http.{
  get, post, ok_status, Parameters, lookup, method_to_string, status_code_to_integer,
  status_code_to_message, content_type_by_file_name, put_param_into_html,
}
use echo_web_server.Http.Encoding.{Encodes, nothing, plain}
use echo_web_server.Files.{FileSystem, unmapped, unmap}
use echo_web_server.Request.{Request, contains}
use echo_web_server.Request.Form.{IsForm, ends, byte, space, last_pair, new_pair}
use echo_web_server.Connection.Meaning.{AsksToStay, stays, root, Shows, says}
use echo_web_server.Request.Print.{print_request, head_of, IsSendable, form_type}
use echo_web_server.Response.{clear, set_keep_alive, decimal}
use echo_web_server.Response.Build.{response_text, IsBody, put_param_into_html-Filled}
use echo_web_server.Files.Mapping.{IsFile}
use echo_web_server.Response.Answer.{page_path, type_of}
use echo_web_server.Connection.{
  Connection, valid, close, receive_loop, Sent, send, index_page, process,
}
use echo_web_server.Connection.Receive.{receive-end_of_stream}
use echo_web_server.Connection.Send.{offers, send-all}
use echo_web_server.Connection.Serve.{IsServed, responder, process-serves_form}

abbrev buffer_of : Bytes → Buffer
buffer_of bytes = record { buf = bytes; read_pos = 0; write_pos = length bytes }

abbrev roomy : Buffer
roomy = of_size 1000

roomy-IsValid : IsValid roomy
roomy-IsValid = of_size-IsValid 1000 (omega arith)

abbrev page : Bytes
page = codes "<$user$>"

-- Every path is a readable file.
abbrev pages : FileSystem
pages = record {
  stat = λ path. inr (record { is_directory = false; readable = true; size = 8 });
  mmap = λ path n. inr page;
  error_message = λ errno. [];
}

page_there : (path : Bytes) → IsFile pages path page
page_there path = record {
  status = record { is_directory = false; readable = true; size = 8 };
  found = refl;
  not_directory = refl;
  readable = refl;
  sized = refl;
  mapped = refl;
}

abbrev fields : Parameters
fields = (codes "Connection", codes "keep-alive") ∷ (codes "Content-Type", form_type) ∷ []

index-IsSendable : IsSendable (codes "/") (codes "1.1") fields
unfolding contains lookup
index-IsSendable = record {
  path_word = refl;
  path_line = omega arith;
  version_word = refl;
  version_line = omega arith;
  fields = (refl, omega arith, omega arith, refl, (refl, omega arith, omega arith, refl, tt));
}

abbrev reading : Bytes → Connection
reading bytes = record {
  socket = some 5;
  keep_alive = false;
  read_buf = buffer_of bytes;
  write_buf = roomy;
  file = unmapped;
}

test_valid : (valid (reading []) ≡ true) × (valid (close (reading [])) ≡ false)
unfolding valid close
test_valid = (refl, refl)

receive-end_of_stream_example : receive_loop (replicate 100 (inr [])) 0 roomy ≡ out_of_fuel
receive-end_of_stream_example = receive-end_of_stream 100 0 roomy-IsValid

abbrev sending : Connection
sending = record {
  socket = some 5;
  keep_alive = false;
  read_buf = roomy;
  write_buf = buffer_of (codes "ab");
  file = record { path = codes "a"; size = 3; bytes = some (codes "cde") };
}

send-all_example :
    Yields
      (λ (r : Sent × Connection).
        (r.0.outcome ≡ inr (length (readable_bytes sending.write_buf) + 3))
        × (r.0.written ≡ readable_bytes sending.write_buf ++ codes "cde")
        × (readable_bytes r.1.write_buf ≡ [])
        × IsValid r.1.write_buf)
      (send (offers (0 ∷ 7 ∷ 1 ∷ 0 ∷ 0 ∷ [])) sending)
send-all_example =
    send-all (0 ∷ 7 ∷ 1 ∷ 0 ∷ 0 ∷ []) sending
      (record { ordered = omega arith; inside = omega arith; bounded = omega arith }) refl
      (unfold readable_bytes sub_size in omega arith)
      (unfold readable_bytes sub_size in omega arith)

abbrev get_connection : Connection
get_connection = reading (print_request get (codes "/a.txt") (codes "1.1") fields [])

abbrev get_request : Request
get_request = head_of get (codes "/a.txt") (codes "1.1") fields

kept_alive : AsksToStay (codes "1.1") fields true
unfolding lookup
kept_alive = stays refl refl

abbrev posted : Parameters
posted = (codes "user", codes "mike chen") ∷ (codes "msg", codes "hi") ∷ []

encoded : Encodes (codes "user=mike+chen&msg=hi") (codes "user=mike+chen&msg=hi")
encoded = plain b'u' (omega arith) (
    plain b's' (omega arith) (
      plain b'e' (omega arith) (
        plain b'r' (omega arith) (
          plain b'=' (omega arith) (
            plain b'm' (omega arith) (
              plain b'i' (omega arith) (
                plain b'k' (omega arith) (
                  plain b'e' (omega arith) (
                    plain b'+' (omega arith) (
                      plain b'c' (omega arith) (
                        plain b'h' (omega arith) (
                          plain b'e' (omega arith) (
                            plain b'n' (omega arith) (
                              plain b'&' (omega arith) (
                                plain b'm' (omega arith) (
                                  plain b's' (omega arith) (
                                    plain b'g' (omega arith) (
                                      plain b'=' (omega arith) (
                                        plain b'h' (omega arith)
                                          (plain b'i' (omega arith) (nothing)))))))))))))))))))))

form : IsForm [] (codes "user=mike+chen&msg=hi") posted
unfolding lookup
form =
    new_pair {kt = codes "user"} {vt = codes "mike+chen"} {text = codes "msg=hi"} {k = codes "user"}
      {v = codes "mike chen"}
      (byte b'u' (omega arith) (omega arith) (omega arith) (
        byte b's' (omega arith) (omega arith) (omega arith) (
          byte b'e' (omega arith) (omega arith) (omega arith)
            (byte b'r' (omega arith) (omega arith) (omega arith) (ends)))))
      (byte b'm' (omega arith) (omega arith) (omega arith) (
        byte b'i' (omega arith) (omega arith) (omega arith) (
          byte b'k' (omega arith) (omega arith) (omega arith) (
            byte b'e' (omega arith) (omega arith) (omega arith) (
              space (
                byte b'c' (omega arith) (omega arith) (omega arith) (
                  byte b'h' (omega arith) (omega arith) (omega arith) (
                    byte b'e' (omega arith) (omega arith) (omega arith)
                      (byte b'n' (omega arith) (omega arith) (omega arith) (ends))))))))))
      (cc) refl
      (last_pair {kt = codes "msg"} {vt = codes "hi"}
        (byte b'm' (omega arith) (omega arith) (omega arith) (
          byte b's' (omega arith) (omega arith) (omega arith)
            (byte b'g' (omega arith) (omega arith) (omega arith) (ends))))
        (byte b'h' (omega arith) (omega arith) (omega arith)
          (byte b'i' (omega arith) (omega arith) (omega arith) (ends)))
        (cc) refl (cc))

abbrev shown : Parameters
shown =
    (codes "user", codes "mike chen")
    ∷ (codes "msg", codes "hi")
    ∷ (codes "hide-msg", codes "false")
    ∷ []

shows : Shows posted shown
unfolding lookup
shows = says refl (cc) refl

abbrev post_connection : Connection
post_connection =
    reading (print_request post (codes "/") (codes "1.1") fields (codes "user=mike+chen&msg=hi"))

post-IsValid : IsValid post_connection.read_buf
unfolding method_to_string
post-IsValid = record { ordered = omega arith; inside = omega arith; bounded = omega arith }

page_put : put_param_into_html page shown ≡ ok (codes "mike chen")
unfolding put_param_into_html
page_put = refl

shown-IsBody : IsBody shown page (codes "mike chen") []
unfolding split_string_to_lines
shown-IsBody = record {
  content = codes "mike chen";
  filled = Yields-ok (rw page_put at (put_param_into_html-Filled page shown));
  put = page_put;
  split = refl;
}

process-serves_form_example :
    Yields
      (λ (r : Bool × Connection).
        (r.0 ≡ true)
        × IsServed post_connection
            (response_text ok_status true
              (type_of index_page (responder (codes "/r") true))
              (codes "mike chen"))
            (unmap post_connection.file)
            true
            r.1)
      (process pages (codes "/r") post_connection)
process-serves_form_example =
    process-serves_form pages (codes "/r") post_connection (codes "/") (codes "1.1") fields posted
      shown index-IsSendable kept_alive (root refl) (unfold lookup in refl) form encoded
      (omega arith) (cc) shows post-IsValid
      (unfold readable_bytes sub_size method_to_string in refl) roomy-IsValid
      (page_there (page_path index_page (responder (codes "/r") true))) shown-IsBody
      (unfold of_size decimal status_code_to_integer status_code_to_message
          content_type_by_file_name clear set_keep_alive in
        omega arith)
