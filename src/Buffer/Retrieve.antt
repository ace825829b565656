-- ===== src/Buffer/Retrieve.antt =====
-- Reading and consuming: the readable bytes behave as a queue of bytes.
use echo_web_server.Prelude.{
  ℕ, zero, suc, ◌+◌, ◌-◌, ◌≤◌, ◌<◌, ◌≡◌, refl, sym, ◌∙◌, false, [], ◌∷◌, inl, inr, Option, none,
  some, arith, length, take, drop, get_elem?, drop-take, drop-drop, add_size, add_size_exact,
  sub_size, leb, ◌==◌, le→leb, Bool-cases,
}
use echo_web_server.Run.{Bytes, ok, fault, ◌>>◌, assert, Yields, yields, Yields-value}
use echo_web_server.Buffer.{
  Buffer, readable_size, peek, readable_bytes, retrieve, clear, retrieve_until,
}
use echo_web_server.Buffer.Valid.{
  IsValid, readable_size_lem, readable_bytes_lem, length-readable_bytes,
}

-- The first `n` readable bytes are gone, and the rest is as before.
pub record Retrieved (n : ℕ) (b r : Buffer) : Type 0 where
  pub valid : IsValid r
  pub content : readable_bytes r ≡ drop n (readable_bytes b)
  pub same_end : r.write_pos ≡ b.write_pos

-- `Retrieve(n)` on a valid buffer consumes exactly the first `n` readable bytes where there are as
-- many, and fails its assertion where there are fewer.
pub retrieve_behaviour :
    (n : ℕ) {b : Buffer}
    → IsValid b
    → (n ≤ length (readable_bytes b) → Yields (Retrieved n b) (retrieve n b))
      × (length (readable_bytes b) < n → retrieve n b ≡ fault)
unfolding retrieve
retrieve_behaviour n {b} v = (enough, few)
  where
    len : length (readable_bytes b) ≡ b.write_pos - b.read_pos
    len = length-readable_bytes v ∙ readable_size_lem v

    enough :
        n ≤ length (readable_bytes b)
        → Yields
            (Retrieved n b)
            (assert (leb n (readable_size b)) >> ok (record b { read_pos = add_size b.read_pos n }))
    enough h =
        let valid : IsValid (record b { read_pos = b.read_pos + n }) = record {
          ordered = omega (arith, len, v.ordered);
          inside = v.inside;
          bounded = v.bounded;
        } in
        rw
          (
            le→leb n (readable_size b) (omega (arith, length-readable_bytes v)),
            add_size_exact b.read_pos n (omega (arith, len, v.ordered, v.inside, v.bounded)),
          )
          (yields (record {
            valid = valid;
            content =
                readable_bytes_lem valid
                ∙ rw (
                  readable_bytes_lem v,
                  drop-drop b.read_pos n b.buf (b.read_pos + n) refl,
                  drop-take n (b.write_pos - b.read_pos) (drop b.read_pos b.buf)
                      (b.write_pos - (b.read_pos + n)) (omega (arith, len)),
                );
            same_end = refl;
          }))

    few :
        length (readable_bytes b) < n
        → (assert (leb n (readable_size b)) >> ok (record b { read_pos = add_size b.read_pos n }))
          ≡ fault
    few h =
        let no_room : leb n (readable_size b) ≡ false = ground (arith, length-readable_bytes v) in
        rw no_room

abbrev pub cleared : Buffer → Buffer
cleared b = record b { read_pos = 0; write_pos = 0 }

pub clear-eq : (b : Buffer) → clear b ≡ ok (cleared b)
unfolding clear sub_size
clear-eq b = refl

pub cleared-IsValid : {b : Buffer} → IsValid b → IsValid (cleared b)
cleared-IsValid v = record { ordered = omega arith; inside = omega arith; bounded = v.bounded }

pub cleared-content : (b : Buffer) → readable_bytes (cleared b) ≡ []
unfolding readable_bytes sub_size
cleared-content b = refl

-- `RetrieveUntil(addr)` with the address of the `n`-th readable byte consumes the first `n` bytes
-- and reports their number.
pub retrieve_until-Retrieved :
    (n : ℕ) {b : Buffer}
    → IsValid b
    → n ≤ length (readable_bytes b)
    → Yields (λ r. (r.0 ≡ n) × Retrieved n b r.1) (retrieve_until (b.read_pos + n) b)
unfolding retrieve_until
retrieve_until-Retrieved n {b} v h =
    let size : b.read_pos + n - b.read_pos ≡ n = omega arith in
    let (r, e, p) = Yields-value ((retrieve_behaviour n v).0 h) in
    rw (le→leb b.read_pos (b.read_pos + n) (omega arith), size) (rw e (yields (refl, p)))

abbrev pub head? : Bytes → Option ℕ
head? [] = none
head? (x ∷ xs) = some x

take-head : (n : ℕ) (xs : Bytes) → head? (take (suc n) xs) ≡ head? xs
take-head n [] = refl
take-head n (x ∷ xs) = refl

drop-head : (n : ℕ) (xs : Bytes) → head? (drop n xs) ≡ get_elem? xs n
drop-head zero [] = refl
drop-head zero (x ∷ xs) = refl
drop-head (suc n) [] = refl
drop-head (suc n) (x ∷ xs) = drop-head n xs

-- `Peek` on a valid buffer gives the first readable byte, and nothing exactly where there is none.
pub peek-head : {b : Buffer} → IsValid b → peek b ≡ head? (readable_bytes b)
unfolding peek
peek-head {b} v = elim (Bool-cases (readable_size b == 0)) [
  | inl e ↦
      let none_left : b.write_pos - b.read_pos ≡ 0 = ground (arith, readable_size_lem v) in
      rw e (rw (readable_bytes_lem v, none_left))
  | inr e ↦
      let some_left : b.write_pos - b.read_pos ≡ suc (b.write_pos - b.read_pos - 1) =
        ground (arith, readable_size_lem v) in
      rw e (
        rw (readable_bytes_lem v, some_left)
          (sym (
            take-head (b.write_pos - b.read_pos - 1) (drop b.read_pos b.buf)
            ∙ drop-head b.read_pos b.buf)))
]
