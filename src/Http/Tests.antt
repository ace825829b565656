-- ===== src/Http/Tests.antt =====
-- Tests of the tables and of the URL encoding, and their theorems at concrete texts.
use echo_web_server.Prelude.{◌≡◌, refl, [], ◌∷◌, arith}
use echo_web_server.Run.{codes, returned, raise, invalid_argument, ok}
use echo_web_server.Http.{
  get, string_to_method, content_type_by_file_name, decode_url_encoded_string, put_param_into_html,
}
use echo_web_server.Http.Encoding.{Encodes, nothing, plain, escaped, decode-Encodes}

test_string_to_method : string_to_method (codes "gEt") ≡ returned get
unfolding string_to_method
test_string_to_method = refl

test_content_type : content_type_by_file_name (codes "a.b/index.HTML") ≡ codes "text/html"
unfolding content_type_by_file_name
test_content_type = refl

test_content_type_hidden :
    content_type_by_file_name (codes "dir/.html") ≡ codes "application/octet-stream"
unfolding content_type_by_file_name
test_content_type_hidden = refl

test_decode : decode_url_encoded_string (codes "a%2Bb%7e+") ≡ returned (codes "a+b~+")
unfolding decode_url_encoded_string
test_decode = refl

-- One digit and any character behind it are taken as one digit.
test_decode_one_digit : decode_url_encoded_string (codes "%1g") ≡ returned (1 ∷ [])
unfolding decode_url_encoded_string
test_decode_one_digit = refl

test_decode_short :
    decode_url_encoded_string (codes "a%2")
    ≡ raise (invalid_argument (codes "Invalid HTTP URL-encoding strings: 'a%2'"))
unfolding decode_url_encoded_string
test_decode_short = refl

test_put_param :
    put_param_into_html (codes "<p><$user$></p>") ((codes "user", codes "me") ∷ [])
    ≡ ok (codes "<p>me</p>")
unfolding put_param_into_html
test_put_param = refl

-- `a%2Bb`
escaped_plus : Encodes (codes "a%2Bb") (codes "a+b")
escaped_plus =
    plain b'a' (omega arith) (escaped b'2' b'B' 2 11 refl refl (plain b'b' (omega arith) nothing))

decode-Encodes_example : decode_url_encoded_string (codes "a%2Bb") ≡ returned (codes "a+b")
decode-Encodes_example = decode-Encodes escaped_plus
