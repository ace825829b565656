-- ===== src/Connection/Receive.antt =====
-- `Receive`: what it collects, and that it does not end at the end of the stream.
use echo_web_server.Prelude.{
  ℕ, zero, suc, ◌+◌, ◌≤◌, ◌<◌, ◌≡◌, refl, sym, ap, ◌∙◌, List, [], ◌∷◌, ◌++◌, ◌⊎◌, inl, inr, arith,
  append-nil, append_assoc, length, length-append, replicate, add_size, add_size_exact, size_mod,
}
use echo_web_server.Run.{
  Bytes, Exception, system_error, out_of_fuel, Yields, yields, Yields-bind, Yields-weaken,
  Yields-bind_eq,
}
use echo_web_server.Buffer.{Buffer, max_size, readable_bytes}
use echo_web_server.Buffer.Valid.{IsValid}
use echo_web_server.Buffer.Append.{Appended}
use echo_web_server.Io.{Transfer}
use echo_web_server.Io.Transfer.{write_to-Appended}
use echo_web_server.Connection.{Connection, caught, receive_loop, receive}

-- The pieces, one behind the other.
abbrev pub joined : List Bytes → Bytes
joined [] = []
joined (p ∷ ps) = p ++ joined ps

-- The socket delivers the pieces, and then a call fails.
abbrev pub delivering : List Bytes → ℕ → List (ℕ ⊎ Bytes)
delivering [] errno = inl errno ∷ []
delivering (p ∷ ps) errno = inr p ∷ delivering ps errno

receive_loop-Appended :
    (ps : List Bytes) (errno size : ℕ) {b : Buffer}
    → IsValid b
    → b.write_pos + length (joined ps) ≤ max_size
    → size + length (joined ps) < size_mod
    → Yields
        (λ (t : Transfer).
          (t.0 ≡ caught (system_error errno) (size + length (joined ps)))
          × Appended (joined ps) b t.1)
        (receive_loop (delivering ps errno) size b)
unfolding receive_loop
receive_loop-Appended [] errno size {b} v fits small = yields (
  ap (caught (system_error errno)) (omega arith),
  record { valid = v; content = sym (append-nil (readable_bytes b)); no_later = omega arith },
)
receive_loop-Appended (q ∷ ps) errno size {b} v fits small =
    let len = length-append q (joined ps) in
    Yields-bind (write_to-Appended (inr q) v (omega (arith, len, fits))) λ t p.
      rw (p.0, add_size_exact size (length q) (omega (arith, len, small)))
        (Yields-weaken
          (receive_loop-Appended ps errno (size + length q) p.1.valid
            (omega (arith, len, p.1.no_later, fits)) (omega (arith, len, small)))
          λ s h. (
            h.0 ∙ ap (caught (system_error errno)) (omega (arith, len)),
            record {
              valid = h.1.valid;
              content =
                  h.1.content
                  ∙ ap (λ (c : Bytes). c ++ joined ps) p.1.content
                  ∙ append_assoc (readable_bytes b) q (joined ps);
              no_later = omega (arith, len, h.1.no_later, p.1.no_later);
            },
          ))

-- `Receive` on a socket that delivers some pieces, and then has no more for now, returns the number of
-- bytes and has appended exactly the pieces to the reading buffer; where the last call fails in another
-- way it throws that system error, and the pieces are in the buffer all the same.
pub receive-Appended :
    (ps : List Bytes) (errno : ℕ) (c : Connection)
    → IsValid c.read_buf
    → c.read_buf.write_pos + length (joined ps) ≤ max_size
    → Yields
        (λ (r : (Exception ⊎ ℕ) × Connection).
          (r.0 ≡ caught (system_error errno) (length (joined ps)))
          × Appended (joined ps) c.read_buf r.1.read_buf)
        (receive (delivering ps errno) c)
unfolding receive
receive-Appended ps errno c v fits =
    Yields-bind (receive_loop-Appended ps errno 0 v fits (omega (arith, fits)))
      λ t h. yields (h.0 ∙ ap (caught (system_error errno)) (omega arith), h.1)

-- At the end of the stream `readv` gives no byte, again and again, and `Receive` does not return, for
-- any number of such answers.
pub receive-end_of_stream :
    (n size : ℕ) {b : Buffer} → IsValid b → receive_loop (replicate n (inr [])) size b ≡ out_of_fuel
unfolding receive_loop
receive-end_of_stream zero size v = refl
receive-end_of_stream (suc n) size {b} v =
    let bounded : b.write_pos + 0 ≤ max_size = omega (arith, v.inside, v.bounded) in
    Yields-bind_eq (write_to-Appended (inr []) v bounded)
      λ t p. rw p.0 (receive-end_of_stream n (add_size size 0) p.1.valid)
