-- ===== src/Io/Transfer.antt =====
-- What a transfer between a file descriptor and a buffer moves.
use echo_web_server.Prelude.{
  ℕ, ◌+◌, ◌≤◌, ◌<◌, ◌≡◌, refl, ◌∙◌, ◌⊎◌, inl, inr, arith, append_assoc, leb, Bool-cases, length,
  take, drop, length-take, length-drop, take-append-drop,
}
use echo_web_server.Run.{Bytes, system_error, ◌>>=◌, Yields, yields, Yields-bind, Yields-weaken}
use echo_web_server.Buffer.{Buffer, max_size, writable_size, copy_in, has_written, append}
use echo_web_server.Buffer.Valid.{IsValid, writable_size_lem}
use echo_web_server.Buffer.Append.{Appended, fill-Appended, append-Appended}
use echo_web_server.Io.{Transfer, file_descriptor_write_to}

-- More bytes than are writable: the first fill the buffer up, the others are appended.
many-Appended :
    (bytes : Bytes) {b : Buffer}
    → IsValid b
    → writable_size b < length bytes
    → b.write_pos + length bytes ≤ max_size
    → Yields (Appended bytes b) (
        copy_in (take (writable_size b) bytes) b
        >>= has_written (writable_size b)
        >>= append (drop (writable_size b) bytes))
many-Appended bytes {b} v few fits =
    let room = writable_size b in
    let size : length (take room bytes) ≡ room = omega (arith, length-take room bytes, few) in
    let rest = length-drop room bytes in
    let first : Yields (Appended (take room bytes) b)
        (copy_in (take room bytes) b >>= has_written room) =
      rw size at
        (fill-Appended (take room bytes) v (omega (arith, size, writable_size_lem v, v.inside))) in
    Yields-bind first λ r h.
      Yields-weaken
        (append-Appended (drop room bytes) h.valid (omega (arith, h.no_later, size, rest, fits)))
        λ s k. record {
          valid = k.valid;
          content = k.content ∙ rw (h.content, append_assoc, take-append-drop);
          no_later = omega (arith, k.no_later, h.no_later, size, rest);
        }

-- Reading from a file descriptor into a valid buffer appends exactly the bytes that `readv` gave, however
-- many were writable, and returns their number; on a failed call it throws the system error and leaves
-- the buffer alone.
pub write_to-Appended :
    (answer : ℕ ⊎ Bytes) {b : Buffer}
    → IsValid b
    → (elim answer [ inl _ ↦ 0 | inr bytes ↦ b.write_pos + length bytes ]) ≤ max_size
    → Yields
        (λ (t : Transfer). elim answer [
          | inl errno ↦ (t.0 ≡ inl (system_error errno)) × (t.1 ≡ b)
          | inr bytes ↦ (t.0 ≡ inr (length bytes)) × Appended bytes b t.1
        ])
        (file_descriptor_write_to answer b)
unfolding file_descriptor_write_to
write_to-Appended (inl errno) v fits = yields (refl, refl)
write_to-Appended (inr bytes) {b} v fits =
    elim (Bool-cases (leb (length bytes) (writable_size b))) [
      | inl e ↦ rw e (
          Yields-bind (fill-Appended bytes v (ground (arith, writable_size_lem v, v.inside)))
            λ r h. yields (refl, h))
      | inr e ↦
          rw e (Yields-bind (many-Appended bytes v (ground arith) fits) λ r h. yields (refl, h))
    ]
