-- ===== src/Http.antt =====
-- include/http.h and src/http/http.cpp: methods, status codes, content types, and the URL encoding.
pub mod Tables
pub mod Encoding
mod Tests
use Prim.Native.String.{String}
use echo_web_server.Prelude.{
  ℕ, zero, suc, ◌+◌, ◌-◌, ◌*◌, ◌%◌, ◌^◌, ◌≤◌, ◌<◌, Bool, true, false, not, ◌&&◌, ◌||◌, List, [],
  ◌∷◌, ◌++◌, map, Option, none, some, leb, ltb, ◌==◌, if◌then◌else◌, length, take, drop,
}
use echo_web_server.Run.{
  Bytes, codes, Try, returned, raise, and_then, Run, Exception, invalid_argument, out_of_range, ok,
  throw, fault, out_of_fuel, ◌>>=◌, ◌>>◌,
}
use echo_web_server.Text.{string_to_lower, string_to_upper, replace_all_substring}

pub data StatusCode : Type 0 where
  ok_status bad_request forbidden not_found : StatusCode

pub data Method : Type 0 where
  get post put patch delete : Method

-- `Parameters`: an unordered map, as the list of its pairs in the order in which it is iterated.
abbrev pub Parameters : Type 0
Parameters = List (Bytes × Bytes)

unfoldable pub equal : Bytes → Bytes → Bool
equal [] [] = true
equal (x ∷ a) (y ∷ b) = x == y && equal a b
equal _ _ = false

-- `map.find(key)`
unfoldable pub lookup {ℓ} : {V : Type ℓ} → Bytes → List (Bytes × V) → Option V
unfolding equal
lookup key [] = none
lookup key ((k, v) ∷ m) = if equal k key then some v else lookup key m

-- `map.emplace(key, value)` and `map.insert`: a key that is there keeps its value.
unfoldable pub emplace : Bytes → Bytes → Parameters → Parameters
unfolding lookup
emplace key value m = elim (lookup key m) [ none ↦ m ++ (key, value) ∷ [] | some _ ↦ m ]

unfoldable pub status_code_to_message : StatusCode → Bytes
status_code_to_message ok_status = codes "OK"
status_code_to_message bad_request = codes "Bad Request"
status_code_to_message forbidden = codes "Forbidden"
status_code_to_message not_found = codes "Not Found"

unfoldable pub status_code_to_integer : StatusCode → ℕ
status_code_to_integer ok_status = 200
status_code_to_integer bad_request = 400
status_code_to_integer forbidden = 403
status_code_to_integer not_found = 404

unfoldable pub method_to_string : Method → Bytes
method_to_string get = codes "GET"
method_to_string patch = codes "PATCH"
method_to_string post = codes "POST"
method_to_string delete = codes "DELETE"
method_to_string put = codes "PUT"

abbrev pub methods : List (Bytes × Method)
methods =
    (codes "GET", get)
    ∷ (codes "PATCH", patch)
    ∷ (codes "POST", post)
    ∷ (codes "DELETE", delete)
    ∷ (codes "PUT", put)
    ∷ []

unfoldable pub string_to_method : Bytes → Try Method
unfolding string_to_upper lookup
string_to_method str = elim (lookup (string_to_upper str) methods) [
  | some m ↦ returned m
  | none ↦
      raise
        (invalid_argument (codes "Invalid HTTP method: '" ++ (string_to_upper str ++ codes "'")))
]

abbrev pub types : List (Bytes × Bytes)
types =
    (codes ".html", codes "text/html")
    ∷ (codes ".xml", codes "text/xml")
    ∷ (codes ".xhtml", codes "application/xhtml+xml")
    ∷ (codes ".txt", codes "text/plain")
    ∷ (codes ".rtf", codes "application/rtf")
    ∷ (codes ".pdf", codes "application/pdf")
    ∷ (codes ".word", codes "application/nsword")
    ∷ (codes ".png", codes "image/png")
    ∷ (codes ".gif", codes "image/gif")
    ∷ (codes ".jpg", codes "image/jpeg")
    ∷ (codes ".jpeg", codes "image/jpeg")
    ∷ (codes ".au", codes "audio/basic")
    ∷ (codes ".mpeg", codes "video/mpeg")
    ∷ (codes ".mpg", codes "video/mpeg")
    ∷ (codes ".avi", codes "video/x-msvideo")
    ∷ (codes ".gz", codes "application/x-gzip")
    ∷ (codes ".tar", codes "application/x-tar")
    ∷ (codes ".css", codes "text/css")
    ∷ (codes ".js", codes "text/javascript")
    ∷ []

-- The last component of a path: what follows its last slash.
abbrev last_component : Bytes → Bytes → Bytes
last_component start [] = start
last_component start (c ∷ s) = last_component (if c == b'/' then s else start) s

unfoldable pub filename : Bytes → Bytes
filename p = last_component p p

-- What begins with the last dot, if there is one.
unfoldable pub from_last_dot : Bytes → Option Bytes
from_last_dot [] = none
from_last_dot (c ∷ s) = elim (from_last_dot s) [
  | some e ↦ some e
  | none ↦ if c == b'.' then some (c ∷ s) else none
]

-- `std::filesystem::path::extension`: a leading dot begins no extension, and ".." has none.
unfoldable pub extension : Bytes → Bytes
unfolding filename from_last_dot equal
extension p =
    let name = filename p in
    if equal name (codes "..")
    then []
    else (elim (from_last_dot (drop 1 name)) [ none ↦ [] | some e ↦ e ])

-- A text as a C string: what stands before its first null character.
abbrev pub c_str : Bytes → Bytes
c_str [] = []
c_str (c ∷ s) = let rest = c_str s in if c == 0 then [] else c ∷ rest

unfoldable pub content_type_by_file_name : Bytes → Bytes
unfolding extension string_to_lower lookup
content_type_by_file_name name = elim (lookup (c_str (string_to_lower (extension name))) types) [
  | none ↦ codes "application/octet-stream"
  | some t ↦ t
]

-- `isspace` in the "C" locale.
abbrev pub is_space : ℕ → Bool
is_space c = c == 32 || (leb 9 c && leb c 13)

abbrev pub hex_digit : ℕ → Option ℕ
hex_digit c =
    if leb b'0' c && leb c b'9'
    then some (c - b'0')
    else if leb b'A' c && leb c b'F'
    then some (c - b'A' + 10)
    else if leb b'a' c && leb c b'f'
    then some (c - b'a' + 10)
    else none

-- `std::stoi(s, nullptr, 16)` of a text of two characters, as a byte: the conversion to `char` keeps the
-- value modulo 256. Leading space, a sign and a `0x` with digits behind it are read over, and what
-- follows the digits is ignored.
unfoldable pub stoi_two : ℕ → ℕ → Try ℕ
stoi_two c d =
    let bad : Try ℕ = raise (invalid_argument (codes "stoi")) in
    let one : Try ℕ = elim (hex_digit d) [ none ↦ bad | some low ↦ returned low ] in
    let minus : Try ℕ = elim (hex_digit d) [
      | none ↦ bad
      | some low ↦ returned ((256 - low) % 256)
    ] in
    elim (hex_digit c) [
      | some high ↦ elim (hex_digit d) [
        | none ↦ returned high
        | some low ↦ returned (high * 16 + low)
      ]
      | none ↦ if is_space c || c == b'+' then one else if c == b'-' then minus else bad
    ]

-- `DecodeURLEncodedCharacter`
unfoldable pub decode_url_encoded_character : Bytes → Try ℕ
unfolding stoi_two
decode_url_encoded_character (p ∷ c ∷ d ∷ []) =
    if p == b'%'
    then stoi_two c d
    else raise (
        invalid_argument
          (codes "Invalid HTTP URL-encoding character: '" ++ (p ∷ c ∷ d ∷ codes "'")))
decode_url_encoded_character str =
    raise (invalid_argument (codes "Invalid HTTP URL-encoding character: '" ++ (str ++ codes "'")))

-- The `while` of `DecodeURLEncodedString`, on what is left of the text `str`.
unfoldable pub decode_from : Bytes → Bytes → Try Bytes
unfolding decode_url_encoded_character
decode_from str [] = returned []
decode_from str (p ∷ []) =
    if p == b'%'
    then raise
        (invalid_argument (codes "Invalid HTTP URL-encoding strings: '" ++ (str ++ codes "'")))
    else returned (p ∷ [])
decode_from str (p ∷ c ∷ []) =
    let plain : Try Bytes = and_then (decode_from str (c ∷ [])) (λ s. returned (p ∷ s)) in
    if p == b'%'
    then raise
        (invalid_argument (codes "Invalid HTTP URL-encoding strings: '" ++ (str ++ codes "'")))
    else plain
decode_from str (p ∷ c ∷ d ∷ rest) =
    let plain : Try Bytes = and_then (decode_from str (c ∷ d ∷ rest)) (λ s. returned (p ∷ s)) in
    let encoded : Try Bytes =
      and_then (decode_url_encoded_character (p ∷ c ∷ d ∷ []))
        (λ x. and_then (decode_from str rest) (λ s. returned (x ∷ s))) in
    if p == b'%' then encoded else plain

unfoldable pub decode_url_encoded_string : Bytes → Try Bytes
unfolding decode_from
decode_url_encoded_string str = decode_from str str

-- `HTMLPlaceholder`
unfoldable pub html_placeholder : Bytes → Bytes
html_placeholder key = codes "<$" ++ (key ++ codes "$>")

unfoldable pub put_param_into_html : Bytes → Parameters → Run Bytes
unfolding html_placeholder replace_all_substring
put_param_into_html html [] = ok html
put_param_into_html html ((key, value) ∷ params) =
    replace_all_substring html (html_placeholder key) value >>= λ replaced.
    put_param_into_html replaced params
