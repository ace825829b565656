-- ===== src/Http/Encoding.antt =====
-- The URL encoding: decoding undoes any encoding, and what a decoded text no longer tells apart.
use echo_web_server.Prelude.{ℕ, ◌+◌, ◌*◌, ◌≡◌, ◌≢◌, refl, [], ◌∷◌, ◌++◌, some, arith}
use echo_web_server.Run.{Bytes, returned}
use echo_web_server.Http.{hex_digit, stoi_two, decode_from, decode_url_encoded_string}

-- `e` is an encoding of `s`: each byte stands for itself, unless it is a `%`, or as a `%` with the two
-- hexadecimal digits of its value, in upper or lower case.
pub data Encodes : Bytes → Bytes → Type 0 where
  nothing : Encodes [] []
  plain : {e s : Bytes} (c : ℕ) → c ≢ b'%' → Encodes e s → Encodes (c ∷ e) (c ∷ s)
  escaped :
      {e s : Bytes} (c d high low : ℕ)
      → hex_digit c ≡ some high
      → hex_digit d ≡ some low
      → Encodes e s
      → Encodes (b'%' ∷ c ∷ d ∷ e) ((high * 16 + low) ∷ s)

decode_plain :
    (str e : Bytes) (c : ℕ) {s : Bytes}
    → c ≢ b'%'
    → decode_from str e ≡ returned s
    → decode_from str (c ∷ e) ≡ returned (c ∷ s)
unfolding decode_from
decode_plain str [] c h r = ground arith
decode_plain str (d ∷ []) c h r = ground arith
decode_plain str (d ∷ f ∷ e) c h r = ground arith

decode_escaped :
    (str e : Bytes) (c d high low : ℕ) {s : Bytes}
    → hex_digit c ≡ some high
    → hex_digit d ≡ some low
    → decode_from str e ≡ returned s
    → decode_from str (b'%' ∷ c ∷ d ∷ e) ≡ returned ((high * 16 + low) ∷ s)
unfolding decode_from stoi_two
decode_escaped str e c d high low hc hd r = rw (hc, stoi_two) (rw hd (rw r))

pub decode_from-Encodes : (str : Bytes) {e s : Bytes} → Encodes e s → decode_from str e ≡ returned s
unfolding decode_from
decode_from-Encodes str nothing = refl
decode_from-Encodes str (plain {e} c h p) = decode_plain str e c h (decode_from-Encodes str p)
decode_from-Encodes str (escaped {e} c d high low hc hd p) =
    decode_escaped str e c d high low hc hd (decode_from-Encodes str p)

-- `DecodeURLEncodedString` gives back the bytes of every URL encoding of them.
pub decode-Encodes : {e s : Bytes} → Encodes e s → decode_url_encoded_string e ≡ returned s
unfolding decode_url_encoded_string
decode-Encodes {e} p = decode_from-Encodes e p

pub Encodes-append : {e s f t : Bytes} → Encodes e s → Encodes f t → Encodes (e ++ f) (s ++ t)
Encodes-append nothing q = q
Encodes-append (plain c h p) q = plain c h (Encodes-append p q)
Encodes-append (escaped c d high low hc hd p) q = escaped c d high low hc hd (Encodes-append p q)
