-- ===== src/Buffer/Append.antt =====
-- Appending: the new bytes follow the readable ones, which are kept.
use echo_web_server.Prelude.{
  ◌+◌, ◌-◌, ◌≤◌, ◌≡◌, sym, ap, ◌∙◌, [], ◌++◌, inl, inr, arith, length, take, drop, append-nil,
  length-append, length-take, length-drop, take-append, drop-append, take-append_past, take-all,
  drop-take, add_size_exact, leb, ◌==◌, le→not_ltb, le→leb, Bool-cases,
}
use echo_web_server.Run.{Bytes, ok, ◌>>=◌, ◌>>◌, assert, Yields, yields, Yields-bind, Yields-weaken}
use echo_web_server.Buffer.{
  Buffer, max_size, writable_size, readable_size, readable_bytes, copy_in, has_written, append,
}
use echo_web_server.Buffer.Valid.{IsValid, writable_size_lem, readable_size_lem, readable_bytes_lem}
use echo_web_server.Buffer.Space.{ensure_writeable_size-HasRoom}

-- The bytes stand behind the old content, and the buffer is valid.
pub record Appended (bytes : Bytes) (b r : Buffer) : Type 0 where
  pub valid : IsValid r
  pub content : readable_bytes r ≡ readable_bytes b ++ bytes
  pub no_later : r.write_pos ≤ b.write_pos + length bytes

module _ (bytes : Bytes) {b : Buffer} (v : IsValid b)
    (room : b.write_pos + length bytes ≤ length b.buf) where
  abbrev filled : Buffer
  filled = record b {
    buf = take b.write_pos b.buf ++ (bytes ++ drop (b.write_pos + length bytes) b.buf);
  }

  abbrev grown : Buffer
  grown = record filled { write_pos = b.write_pos + length bytes }

  length-filled : length filled.buf ≡ length b.buf
  length-filled = omega (
    arith,
    length-append (take b.write_pos b.buf) (bytes ++ drop (b.write_pos + length bytes) b.buf),
    length-append bytes (drop (b.write_pos + length bytes) b.buf),
    length-take b.write_pos b.buf,
    length-drop (b.write_pos + length bytes) b.buf,
  )

  filled-IsValid : IsValid filled
  filled-IsValid = record {
    ordered = v.ordered;
    inside = omega (arith, length-filled, v.inside);
    bounded = omega (arith, length-filled, v.bounded);
  }

  grown-IsValid : IsValid grown
  grown-IsValid = record {
    ordered = omega (arith, v.ordered);
    inside = omega (arith, length-filled);
    bounded = omega (arith, length-filled, v.bounded);
  }

  grown-content : readable_bytes grown ≡ readable_bytes b ++ bytes
  grown-content =
      let before = take b.write_pos b.buf in
      let after = drop (b.write_pos + length bytes) b.buf in
      readable_bytes_lem grown-IsValid
      ∙ ap (take (grown.write_pos - b.read_pos)) (
          drop-append b.read_pos before (bytes ++ after)
            (omega (arith, v.ordered, v.inside, length-take b.write_pos b.buf)))
      ∙ take-append_past (drop b.read_pos before) (bytes ++ after) (grown.write_pos - b.read_pos)
          (length bytes)
          (omega (
            arith,
            v.ordered,
            v.inside,
            length-drop b.read_pos before,
            length-take b.write_pos b.buf,
          ))
      ∙ rw (
        take-append (length bytes) bytes after (omega arith),
        take-all (length bytes) bytes (omega arith),
        drop-take b.read_pos b.write_pos b.buf (b.write_pos - b.read_pos)
            (omega (arith, v.ordered)),
        readable_bytes_lem v,
      )

  -- Bytes that are put into the vector directly, and reported.
  pub fill-Appended : Yields (Appended bytes b) (copy_in bytes b >>= has_written (length bytes))
  unfolding copy_in has_written
  fill-Appended = rw (le→not_ltb (length b.buf) (b.write_pos + length bytes) room) (
      rw
        (
          le→leb (length bytes) (writable_size filled)
              (omega (arith, writable_size_lem filled-IsValid, length-filled)),
          add_size_exact b.write_pos (length bytes) (omega (arith, v.bounded)),
        )
        (yields
          (record { valid = grown-IsValid; content = grown-content; no_later = omega arith })))

  write-Appended : Yields (Appended bytes b) (do
    copied ← copy_in bytes b
    written ← has_written (length bytes) copied
    assert (leb (length bytes) (readable_size written))
    ok written)
  unfolding copy_in has_written
  write-Appended = rw (le→not_ltb (length b.buf) (b.write_pos + length bytes) room) (
      rw
        (
          le→leb (length bytes) (writable_size filled)
              (omega (arith, writable_size_lem filled-IsValid, length-filled)),
          add_size_exact b.write_pos (length bytes) (omega (arith, v.bounded)),
        )
        (rw
          (le→leb (length bytes) (readable_size grown)
            (omega (arith, readable_size_lem grown-IsValid, v.ordered)))
          (yields
            (record { valid = grown-IsValid; content = grown-content; no_later = omega arith }))))

-- `Append` on a valid buffer whose end stays within the greatest vector size runs through without a
-- failed assertion, leaves a valid buffer, and adds exactly the bytes behind the old content.
pub append-Appended :
    (bytes : Bytes) {b : Buffer}
    → IsValid b
    → b.write_pos + length bytes ≤ max_size
    → Yields (Appended bytes b) (append bytes b)
unfolding append
append-Appended bytes {b} v fits = elim (Bool-cases (length bytes == 0)) [
  | inl none_given ↦
      let e : bytes ≡ [] = ground arith in
      rw none_given (
        yields (record {
          valid = v;
          content = rw e (sym (append-nil (readable_bytes b)));
          no_later = omega arith;
        }))
  | inr some_given ↦ rw some_given (
      Yields-bind (ensure_writeable_size-HasRoom (length bytes) v fits) λ r h.
        Yields-weaken
          (write-Appended bytes h.valid
            (ground (arith, h.room, h.valid.inside, writable_size_lem h.valid)))
          λ g a. record {
            valid = a.valid;
            content = a.content ∙ ap (λ (c : Bytes). c ++ bytes) h.same;
            no_later = omega (arith, a.no_later, h.no_later);
          })
]
