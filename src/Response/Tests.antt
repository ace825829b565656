-- ===== src/Response/Tests.antt =====
-- Tests of the response builder, and its theorems at a concrete file system.
use echo_web_server.Prelude.{◌≡◌, refl, true, false, [], ◌∷◌, inl, inr, arith, if◌then◌else◌}
use echo_web_server.Run.{Bytes, codes, ok, Yields, Yields-ok}
use echo_web_server.Buffer.{Buffer, of_size}
use echo_web_server.Buffer.Valid.{IsValid, of_size-IsValid}
use echo_web_server.Buffer.Append.{Appended}
use echo_web_server.Text.{split_string_to_lines}
use echo_web_server.Http.{
  StatusCode, ok_status, Parameters, equal, status_code_to_integer, status_code_to_message,
  content_type_by_file_name, put_param_into_html,
}
use echo_web_server.Files.{FileSystem}
use echo_web_server.Response.{
  Response, response_of, decimal, clear, full_path, relative_path, settings, build_page,
  length_of_lines,
}
use echo_web_server.Response.Build.{response_text, IsBody, put_param_into_html-Filled}
use echo_web_server.Files.Mapping.{IsFile}
use echo_web_server.Response.Answer.{page_path, type_of, build_page-filled}

test_decimal : decimal 12045 ≡ codes "12045"
unfolding decimal
test_decimal = refl

test_length_of_lines : length_of_lines (codes "ab" ∷ [] ∷ codes "c" ∷ []) ≡ 7
unfolding length_of_lines
test_length_of_lines = refl

abbrev page : Bytes
page = codes "<$user$>"

-- One readable file, `/r/a.html`.
abbrev one_file : FileSystem
one_file = record {
  stat = λ path.
      if equal path (codes "/r/a.html")
      then inr (record { is_directory = false; readable = true; size = 8 })
      else inl 2;
  mmap = λ path n. inr page;
  error_message = λ errno. codes "No such file or directory";
}

abbrev builder : Response
builder = response_of (codes "/r")

test_full_path : full_path (settings (codes "//a.html") ok_status builder) ≡ codes "/r/a.html"
unfolding full_path clear
test_full_path = refl

page_there : IsFile one_file (page_path (codes "/a.html") builder) page
unfolding full_path relative_path equal clear
page_there = record {
  status = record { is_directory = false; readable = true; size = 8 };
  found = refl;
  not_directory = refl;
  readable = refl;
  sized = refl;
  mapped = refl;
}

abbrev params : Parameters
params = (codes "user", codes "me") ∷ []

abbrev roomy : Buffer
roomy = of_size 1000

roomy-IsValid : IsValid roomy
roomy-IsValid = of_size-IsValid 1000 (omega arith)

page_put : put_param_into_html page params ≡ ok (codes "me")
unfolding put_param_into_html
page_put = refl

me-IsBody : IsBody params page (codes "me") []
unfolding split_string_to_lines
me-IsBody = record {
  content = codes "me";
  filled = Yields-ok (rw page_put at (put_param_into_html-Filled page params));
  put = page_put;
  split = refl;
}

build_page-filled_example :
    Yields
      (λ (s : StatusCode × (Response × Buffer)).
        (s.0 ≡ ok_status)
        × Appended
            (response_text ok_status false (type_of (codes "/a.html") builder) (codes "me"))
            roomy
            s.1.1)
      (build_page one_file (codes "/a.html") params builder roomy)
build_page-filled_example =
    build_page-filled one_file (codes "/a.html") builder params roomy-IsValid page_there me-IsBody (
      unfold of_size decimal status_code_to_integer status_code_to_message content_type_by_file_name
        clear in
      omega arith)
