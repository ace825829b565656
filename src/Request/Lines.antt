-- ===== src/Request/Lines.antt =====
-- Printed lines of a request, and what the parser over lines makes of them.
use echo_web_server.Prelude.{
  ℕ, ◌+◌, ◌≡◌, ◌≢◌, refl, ap, ◌∙◌, false, [], ◌∷◌, ◌++◌, Option, none, some, arith, length,
  append-nil, append_assoc, take-append, take-all, drop-append_past,
}
use echo_web_server.Run.{Bytes, codes, Exception}
use echo_web_server.Text.{starts_with, find}
use echo_web_server.Text.Lines.{All, IsCleanLine}
use echo_web_server.Http.{
  Method, get, post, put, patch, delete, Parameters, lookup, emplace, method_to_string,
}
use echo_web_server.Http.Tables.{string_to_method_iff}
use echo_web_server.Request.{
  header, body, Request, contains, cut_at, match_protocol, match_status_line, match_header,
  parse_status_line, parse_header, parse_line, new_line,
}
use echo_web_server.Request.Parse.{Consumes, accepted, first_line, after_line}

find-line_end :
    (l rest : Bytes) → IsCleanLine l → find new_line (l ++ (13 ∷ 10 ∷ rest)) ≡ some (length l)
unfolding find starts_with
find-line_end [] rest h = refl
find-line_end (c ∷ l) rest h = ground (arith, find-line_end l rest h.1)

first_line-of_clean : (l rest : Bytes) → IsCleanLine l → first_line (l ++ (13 ∷ 10 ∷ rest)) ≡ l
first_line-of_clean l rest h =
    rw (find-line_end l rest h, take-append (length l) l (13 ∷ 10 ∷ rest) (omega arith))
      (take-all (length l) l (omega arith))

after_line-of_clean : (l rest : Bytes) → IsCleanLine l → after_line (l ++ (13 ∷ 10 ∷ rest)) ≡ rest
after_line-of_clean l rest h =
    rw (find-line_end l rest h) (drop-append_past l (13 ∷ 10 ∷ rest) (length l + 2) 2 refl)

-- One clean line that is accepted.
pub line-Consumes :
    {r s : Request} {rest left : Bytes} {e : Option Exception} (l : Bytes) (r' : Request)
    → IsCleanLine l
    → parse_line r.state l r ≡ (none, r')
    → Consumes r' rest e s left
    → Consumes r (l ++ (13 ∷ 10 ∷ rest)) e s left
line-Consumes {r} {s} {rest} {left} {e} l r' h p c =
    accepted {r' = r'} (joined_ne_nil l) (rw (first_line-of_clean l rest h) p)
      (rw (after_line-of_clean l rest h) c)
  where
    joined_ne_nil : (l : Bytes) → l ++ (13 ∷ 10 ∷ rest) ≢ []
    joined_ne_nil [] q = cc
    joined_ne_nil (x ∷ l) q = cc

cut_at-first : (c : ℕ) (a s : Bytes) → contains c a ≡ false → cut_at c (a ++ (c ∷ s)) ≡ some (a, s)
unfolding cut_at contains
cut_at-first c [] s h = ground arith
cut_at-first c (x ∷ a) s h = ground (arith, cut_at-first c a s)

match_protocol-of :
    (version : Bytes)
    → contains b' ' version ≡ false
    → match_protocol (codes "HTTP/" ++ version) ≡ some version
unfolding match_protocol starts_with
match_protocol-of version h = ground arith

-- `METHOD path HTTP/version`
abbrev pub print_status_line : Bytes → Bytes → Bytes → Bytes
print_status_line method path version =
    method ++ (b' ' ∷ (path ++ (b' ' ∷ (codes "HTTP/" ++ version))))

match_status_line-of :
    (method path version : Bytes)
    → contains b' ' method ≡ false
    → contains b' ' path ≡ false
    → contains b' ' version ≡ false
    → match_status_line (print_status_line method path version) ≡ some (method, path, version)
unfolding match_status_line
match_status_line-of method path version hm hp hv =
    rw
      (cut_at-first b' ' method (path ++ (b' ' ∷ (codes "HTTP/" ++ version))) hm, match_status_line)
      (rw (cut_at-first b' ' path (codes "HTTP/" ++ version) hp)
        (rw (match_protocol-of version hv)))

method_to_string-spaceless : (m : Method) → contains b' ' (method_to_string m) ≡ false
unfolding contains method_to_string
method_to_string-spaceless get = refl
method_to_string-spaceless post = refl
method_to_string-spaceless put = refl
method_to_string-spaceless patch = refl
method_to_string-spaceless delete = refl

pub method_to_string-clean : (m : Method) → IsCleanLine (method_to_string m)
unfolding method_to_string
method_to_string-clean get = omega arith
method_to_string-clean post = omega arith
method_to_string-clean put = omega arith
method_to_string-clean patch = omega arith
method_to_string-clean delete = omega arith

pub parse_status_line-of :
    (m : Method) (path version : Bytes) (r : Request)
    → contains b' ' path ≡ false
    → contains b' ' version ≡ false
    → parse_status_line (print_status_line (method_to_string m) path version) r
      ≡ (none, record r { state = header; method = m; path = path; version = version })
unfolding parse_status_line
parse_status_line-of m path version r hp hv =
    rw
      (
        match_status_line-of (method_to_string m) path version (method_to_string-spaceless m) hp hv,
        parse_status_line,
      )
      (rw ((string_to_method_iff [] m).1))

-- `key: value`
abbrev print_header : Bytes → Bytes → Bytes
print_header key val = key ++ (b':' ∷ b' ' ∷ val)

contains-of_clean : (s : Bytes) → IsCleanLine s → (contains 10 s ≡ false) × (contains 13 s ≡ false)
unfolding contains
contains-of_clean [] h = (refl, refl)
contains-of_clean (c ∷ s) h = ground (arith, contains-of_clean s h.1)

match_header-of :
    (key val : Bytes)
    → contains b':' key ≡ false
    → IsCleanLine val
    → match_header (print_header key val) ≡ some (key, val)
unfolding match_header
match_header-of key val hk hv =
    let clean = contains-of_clean val hv in
    rw (cut_at-first b':' key (b' ' ∷ val) hk, match_header) (rw (clean.0, clean.1))

pub All-append {ℓ} : (P : ℕ → Type ℓ) (a b : Bytes) → All P a → All P b → All P (a ++ b)
All-append P [] b ha hb = hb
All-append P (x ∷ a) b ha hb = (ha.0, All-append P a b ha.1 hb)

-- The header lines, the empty line, and what follows.
abbrev pub print_headers : Parameters → Bytes → Bytes
print_headers [] rest = 13 ∷ 10 ∷ rest
print_headers ((key, val) ∷ hs) rest = print_header key val ++ (13 ∷ 10 ∷ print_headers hs rest)

-- No colon in a key, no line terminator anywhere, and no key twice.
abbrev pub AreHeaders : Parameters → Parameters → Type 0
AreHeaders m [] = Unit
AreHeaders m ((key, val) ∷ hs) =
    (contains b':' key ≡ false)
    × IsCleanLine key
    × IsCleanLine val
    × (lookup key m ≡ none)
    × AreHeaders (m ++ (key, val) ∷ []) hs

emplace-new : (k v : Bytes) (m : Parameters) → lookup k m ≡ none → emplace k v m ≡ m ++ (k, v) ∷ []
unfolding emplace
emplace-new k v m e = rw (e, emplace)

pub headers-Consumes :
    (hs : Parameters) (rest : Bytes) (r : Request) {s : Request} {left : Bytes}
    {e : Option Exception}
    → r.state ≡ header
    → AreHeaders r.headers hs
    → Consumes (record r { state = body; headers = r.headers ++ hs }) rest e s left
    → Consumes r (print_headers hs rest) e s left
headers-Consumes [] rest r st h c =
    line-Consumes [] (record r { state = body }) tt (ap (λ q. parse_line q [] r) st ∙ empty_line)
      (rw (← append-nil r.headers) c)
  where
    empty_line : parse_line header [] r ≡ (none, record r { state = body })
    empty_line = unfold parse_line parse_header match_header cut_at in refl
headers-Consumes ((key, val) ∷ hs) rest r st h c =
    line-Consumes (print_header key val) (record r { headers = r.headers ++ (key, val) ∷ [] })
      (All-append _ key (b':' ∷ b' ' ∷ val) h.1 (omega arith, (omega arith, h.2)))
      (ap (λ q. parse_line q (print_header key val) r) st ∙ header_line)
      (headers-Consumes hs rest (record r { headers = r.headers ++ (key, val) ∷ [] }) st h.4
        (rw (append_assoc r.headers ((key, val) ∷ []) hs) c))
  where
    header_line :
        parse_line header (print_header key val) r
        ≡ (none, record r { headers = r.headers ++ (key, val) ∷ [] })
    header_line =
        unfold parse_line parse_header in
        rw (match_header-of key val h.0 h.2, parse_header) (rw (emplace-new key val r.headers h.3))
