-- ===== src/Buffer/Valid.antt =====
-- The invariant of the buffer, and the offsets and sizes under it.
use echo_web_server.Prelude.{
  ℕ, ◌+◌, ◌-◌, ◌≤◌, ◌≡◌, ap, arith, length, take, drop, length-take, length-drop, length-replicate,
  sub_size_exact,
}
use echo_web_server.Buffer.{
  Buffer, max_size, of_size, writable_size, readable_size, prependable_size, readable_bytes,
}

-- The offsets are in order and inside the vector, which has a size that a vector can have.
pub record IsValid (b : Buffer) : Type 0 where
  pub ordered : b.read_pos ≤ b.write_pos
  pub inside : b.write_pos ≤ length b.buf
  pub bounded : length b.buf ≤ max_size

module _ {b : Buffer} (v : IsValid b) where
  pub writable_size_lem : writable_size b ≡ length b.buf - b.write_pos
  unfolding writable_size
  writable_size_lem = sub_size_exact _ _ v.inside (omega arith)

  pub readable_size_lem : readable_size b ≡ b.write_pos - b.read_pos
  unfolding readable_size
  readable_size_lem = sub_size_exact _ _ v.ordered (omega arith)

  pub readable_bytes_lem :
      readable_bytes b ≡ take (b.write_pos - b.read_pos) (drop b.read_pos b.buf)
  unfolding readable_bytes
  readable_bytes_lem = ap (λ n. take n (drop b.read_pos b.buf)) readable_size_lem

  -- The span has the size that `readable_size` announces: no byte is read outside the vector.
  pub length-readable_bytes : length (readable_bytes b) ≡ readable_size b
  length-readable_bytes =
      rw (readable_bytes_lem, readable_size_lem)
        (omega (
          arith,
          length-take (b.write_pos - b.read_pos) (drop b.read_pos b.buf),
          length-drop b.read_pos b.buf,
        ))

  -- The three regions of the vector add up to its length.
  pub sizes_add_up : prependable_size b + readable_size b + writable_size b ≡ length b.buf
  unfolding prependable_size
  sizes_add_up = omega (arith, readable_size_lem, writable_size_lem)

pub of_size-IsValid : (size : ℕ) → size ≤ max_size → IsValid (of_size size)
unfolding of_size
of_size-IsValid size h = record {
  ordered = omega arith;
  inside = omega arith;
  bounded = omega (arith, length-replicate {0} size (let z : ℕ = 0 in z));
}
