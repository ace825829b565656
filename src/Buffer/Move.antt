-- ===== src/Buffer/Move.antt =====
-- Copying and moving a buffer.
use echo_web_server.Prelude.{
  ◌+◌, ◌≤◌, ◌<◌, ◌≡◌, refl, true, false, [], ◌↔◌, arith, length, sub_size_wraps, sub_size, ltb,
  le→leb, le→not_ltb, lt→ltb, ◌≢◌, ◌==◌,
}
use echo_web_server.Run.{Bytes, ok, fault}
use echo_web_server.Buffer.{
  Buffer, max_size, writable_size, ensure_writeable_size, copy_in, append, copy, move,
}
use echo_web_server.Buffer.Valid.{IsValid}

-- Copying gives an equal buffer, and so does moving on the receiving side. The source of a move keeps
-- its offsets without the bytes: it is a valid buffer exactly if its writing offset was zero.
pub move_source :
    {b : Buffer}
    → IsValid b
    → (copy b ≡ b) × ((move b).0 ≡ b) × (IsValid (move b).1 ↔ (b.write_pos ≡ 0))
unfolding copy move
move_source {b} v = (
  refl,
  refl,
  (
    (λ w. omega (arith, w.inside)),
    λ e. record { ordered = v.ordered; inside = omega arith; bounded = omega arith },
  ),
)

-- Appending to the source of a move from a buffer that had been written to: the wrapped writable size
-- passes for enough room, no space is made, and the bytes are copied outside the vector.
pub append-move_source :
    (bytes : Bytes) {b : Buffer}
    → IsValid b
    → 0 < b.write_pos
    → bytes ≢ []
    → length bytes ≤ max_size
    → (ensure_writeable_size (length bytes) (move b).1 ≡ ok (move b).1)
      × (append bytes (move b).1 ≡ fault)
unfolding move append ensure_writeable_size copy_in writable_size
append-move_source bytes {b} v used some_given small =
    let wrapped = sub_size_wraps 0 b.write_pos used (omega (arith, v.inside, v.bounded)) in
    let room : length bytes ≤ sub_size 0 b.write_pos =
      omega (arith, wrapped, v.inside, v.bounded) in
    let given : (length bytes == 0) ≡ false = ground arith in
    let no_space : ltb (sub_size 0 b.write_pos) (length bytes) ≡ false = le→not_ltb _ _ room in
    let fits = le→leb _ _ room in
    let outside : ltb 0 (b.write_pos + length bytes) ≡ true = lt→ltb _ _ (omega arith) in
    (rw (no_space, fits), rw given (rw (no_space, fits) (rw outside)))
