-- ===== src/Buffer/Space.antt =====
-- Making space: the readable bytes are kept, and the new ones will fit.
use echo_web_server.Prelude.{
  ℕ, ◌+◌, ◌-◌, ◌≤◌, ◌<◌, ◌≡◌, refl, sym, ◌∙◌, true, ◌++◌, inl, inr, ◌⊎◌, arith, length, take, drop,
  replicate, append-nil, length-append, length-take, length-drop, length-replicate, take-append,
  drop-append, take-append_past, take-all, add_size, add_size_exact, ltb, ◌==◌, ltb→lt, le→not_ltb,
  le→leb, ==_iff, Bool-cases, if◌then◌else◌,
}
use echo_web_server.Run.{ok, Yields, yields, Yields-bind, Yields-weaken}
use echo_web_server.Buffer.{
  Buffer, max_size, writable_size, readable_size, prependable_size, readable_bytes, resize, compact,
  make_space, ensure_writeable_size,
}
use echo_web_server.Buffer.Valid.{
  IsValid, writable_size_lem, readable_size_lem, readable_bytes_lem, length-readable_bytes,
}

-- Room for `n` bytes has been made, and the content is as before.
pub record HasRoom (n : ℕ) (b r : Buffer) : Type 0 where
  pub valid : IsValid r
  pub room : n ≤ writable_size r
  pub same : readable_bytes r ≡ readable_bytes b
  pub no_later : r.write_pos ≤ b.write_pos

-- The vector has grown to end with the `n` bytes, and nothing has moved; or the content has moved to the
-- front of a vector of the same size.
pub record HasGrown (n : ℕ) (b r : Buffer) : Type 0 where
  pub size : length r.buf ≡ b.write_pos + n
  pub read_pos : r.read_pos ≡ b.read_pos
  pub write_pos : r.write_pos ≡ b.write_pos

pub record IsCompacted (b r : Buffer) : Type 0 where
  pub size : length r.buf ≡ length b.buf
  pub read_pos : r.read_pos ≡ 0
  pub write_pos : r.write_pos ≡ b.write_pos - b.read_pos

-- How the room has been made.
abbrev pub IsMade : ℕ → Buffer → Buffer → Type 0
IsMade n b r =
    ((length b.buf - b.write_pos + b.read_pos < n) × HasGrown n b r)
    ⊎ ((n ≤ length b.buf - b.write_pos + b.read_pos) × IsCompacted b r)

module _ (n : ℕ) {b : Buffer} (v : IsValid b) where
  abbrev resized : ℕ → Buffer
  resized m = record b { buf = take m b.buf ++ replicate (m - length b.buf) 0 }

  resized-IsValid : (m : ℕ) → length b.buf ≤ m → m ≤ max_size → IsValid (resized m)
  resized-IsValid m h k =
      let len = length-append (take m b.buf) (replicate (m - length b.buf) 0) in
      let tail = length-replicate (m - length b.buf) (let z : ℕ = 0 in z) in
      record {
        ordered = v.ordered;
        inside = omega (arith, v.inside, len, tail, length-take m b.buf);
        bounded = omega (arith, len, tail, length-take m b.buf);
      }

  length-resized : (m : ℕ) → length b.buf ≤ m → length (resized m).buf ≡ m
  length-resized m h = omega (
    arith,
    length-append (take m b.buf) (replicate (m - length b.buf) 0),
    length-replicate (m - length b.buf) (let z : ℕ = 0 in z),
    length-take m b.buf,
  )

  resized-same :
      (m : ℕ) → length b.buf ≤ m → m ≤ max_size → readable_bytes (resized m) ≡ readable_bytes b
  resized-same m h k =
      readable_bytes_lem (resized-IsValid m h k)
      ∙ rw
          (
            take-all m b.buf h,
            drop-append b.read_pos b.buf (replicate (m - length b.buf) 0)
                (omega (arith, v.ordered, v.inside)),
            take-append (b.write_pos - b.read_pos) (drop b.read_pos b.buf)
                (replicate (m - length b.buf) 0)
                (omega (arith, v.inside, length-drop b.read_pos b.buf)),
          )
          (sym (readable_bytes_lem v))

  resize-HasRoom :
      length b.buf < b.write_pos + n
      → b.write_pos + n ≤ max_size
      → Yields (λ r. HasRoom n b r × HasGrown n b r) (resize (b.write_pos + n) b)
  unfolding resize
  resize-HasRoom h k = rw (le→not_ltb max_size (b.write_pos + n) k) (
      yields (
        let valid = resized-IsValid (b.write_pos + n) (omega arith) k in
        (
          record {
            valid = valid;
            room =
                omega
                  (arith, writable_size_lem valid, length-resized (b.write_pos + n) (omega arith));
            same = resized-same (b.write_pos + n) (omega arith) k;
            no_later = omega arith;
          },
          record {
            size = length-resized (b.write_pos + n) (omega arith);
            read_pos = refl;
            write_pos = refl;
          },
        )))

  abbrev compacted : Buffer
  compacted = record b {
    buf = readable_bytes b ++ drop (length (readable_bytes b)) b.buf;
    read_pos = 0;
    write_pos = b.write_pos - b.read_pos;
  }

  length-content : length (readable_bytes b) ≡ b.write_pos - b.read_pos
  length-content = length-readable_bytes v ∙ readable_size_lem v

  length-compacted : length compacted.buf ≡ length b.buf
  length-compacted = omega (
    arith,
    v.inside,
    length-content,
    length-append (readable_bytes b) (drop (length (readable_bytes b)) b.buf),
    length-drop (length (readable_bytes b)) b.buf,
  )

  compacted-IsValid : IsValid compacted
  compacted-IsValid = record {
    ordered = omega arith;
    inside = omega (arith, v.inside, length-compacted);
    bounded = omega (arith, v.bounded, length-compacted);
  }

  compacted-same : readable_bytes compacted ≡ readable_bytes b
  compacted-same =
      readable_bytes_lem compacted-IsValid
      ∙ take-append_past (readable_bytes b) (drop (length (readable_bytes b)) b.buf)
          (b.write_pos - b.read_pos - 0) 0 (omega (arith, length-content))
      ∙ append-nil (readable_bytes b)

  compact-eq : compact b ≡ ok compacted
  unfolding compact
  compact-eq =
      let size = readable_size_lem v in
      let wpos : add_size 0 (readable_size b) ≡ b.write_pos - b.read_pos =
        omega (arith, size, v.inside, v.bounded, add_size_exact 0 (readable_size b)) in
      let after = readable_size_lem compacted-IsValid in
      let unchanged : (readable_size b == readable_size compacted) ≡ true =
        (==_iff _ _).1 (omega (arith, size, after)) in
      rw wpos (rw unchanged)

  compact-HasRoom :
      n + b.write_pos ≤ length b.buf + b.read_pos
      → Yields (λ r. HasRoom n b r × IsCompacted b r) (compact b)
  compact-HasRoom h = rw compact-eq (
      yields (
        record {
          valid = compacted-IsValid;
          room = omega (arith, v.ordered, writable_size_lem compacted-IsValid, length-compacted);
          same = compacted-same;
          no_later = omega arith;
        },
        record { size = length-compacted; read_pos = refl; write_pos = refl },
      ))

-- `MakeSpace(n)`, where the writable bytes are too few for `n` and a vector that ends with the new bytes
-- is not too long for one, makes room for them and keeps the content. The vector grows, to just that
-- length, only where the writable and the prependable bytes together are fewer than `n`; else it keeps
-- its size and the content moves to its front.
pub make_space-HasRoom :
    (n : ℕ) {b : Buffer}
    → IsValid b
    → writable_size b < n
    → b.write_pos + n ≤ max_size
    → Yields (λ r. HasRoom n b r × IsMade n b r) (make_space n b)
unfolding make_space prependable_size
make_space-HasRoom n {b} v few fits =
    let total : add_size (writable_size b) b.read_pos ≡ length b.buf - b.write_pos + b.read_pos =
      omega (
        arith,
        v.ordered,
        v.inside,
        v.bounded,
        writable_size_lem v,
        add_size_exact (writable_size b) b.read_pos,
      ) in
    let next : add_size b.write_pos n ≡ b.write_pos + n =
      add_size_exact b.write_pos n (omega arith) in
    elim (Bool-cases (ltb (add_size (writable_size b) b.read_pos) n)) [
      | inl short ↦
          rw (short, next)
            (Yields-weaken
              (resize-HasRoom n v (omega (arith, few, v.inside, writable_size_lem v)) fits)
              λ r h. (h.0, inl (omega (arith, total, ltb→lt _ _ short), h.1)))
      | inr enough ↦
          let fits_in : n ≤ length b.buf - b.write_pos + b.read_pos = ground (arith, total) in
          rw enough (
            Yields-weaken (compact-HasRoom n v (omega (arith, fits_in, v.inside, v.ordered)))
              λ r h. (h.0, inr (fits_in, h.1)))
    ]

pub ensure_writeable_size-HasRoom :
    (n : ℕ) {b : Buffer}
    → IsValid b
    → b.write_pos + n ≤ max_size
    → Yields (HasRoom n b) (ensure_writeable_size n b)
unfolding ensure_writeable_size
ensure_writeable_size-HasRoom n {b} v fits =
    Yields-bind {P = HasRoom n b} made λ r h. rw (le→leb n (writable_size r) h.room) (yields h)
  where
    made : Yields (HasRoom n b) (if ltb (writable_size b) n then make_space n b else ok b)
    made = elim (Bool-cases (ltb (writable_size b) n)) [
      | inl few ↦ rw few (Yields-weaken (make_space-HasRoom n v (ltb→lt _ _ few) fits) λ r h. h.0)
      | inr enough ↦
          rw enough (
            yields (record { valid = v; room = ground arith; same = refl; no_later = omega arith }))
    ]
