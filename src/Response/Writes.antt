-- ===== src/Response/Writes.antt =====
-- Operations that append a known text to a buffer, and their composition.
use echo_web_server.Prelude.{
  ◌+◌, ◌≤◌, ◌≡◌, refl, ap, ◌∙◌, ◌++◌, Option, arith, append_assoc, length, length-append,
}
use echo_web_server.Run.{Bytes, Run, ok, ◌>>=◌, Yields, yields, Yields-bind, Yields-weaken}
use echo_web_server.Buffer.{
  Buffer, NewLine, max_size, new_line_bytes, append_string, readable_bytes,
}
use echo_web_server.Buffer.Valid.{IsValid}
use echo_web_server.Buffer.Append.{Appended, append-Appended}

-- On every valid buffer with room for the text, the operation appends it.
pub record Writes (text : Bytes) (f : Buffer → Run Buffer) : Type 0 where
  pub writes :
      {b : Buffer}
      → IsValid b
      → b.write_pos + length text ≤ max_size
      → Yields (Appended text b) (f b)

pub Writes-append_string :
    (s : Bytes) (nl : Option NewLine) → Writes (s ++ new_line_bytes nl) (append_string s nl)
unfolding append_string
Writes-append_string s nl = record {
  writes = λ v fits. append-Appended (s ++ new_line_bytes nl) v fits;
}

Appended-trans :
    {x y : Bytes} {b r s : Buffer} → Appended x b r → Appended y r s → Appended (x ++ y) b s
Appended-trans {x} {y} {b} p q = record {
  valid = q.valid;
  content = q.content ∙ ap (λ (t : Bytes). t ++ y) p.content ∙ append_assoc (readable_bytes b) x y;
  no_later = omega (arith, p.no_later, q.no_later, length-append x y);
}

pub Writes-bind :
    {x y : Bytes} {f g : Buffer → Run Buffer}
    → Writes x f
    → Writes y g
    → Writes (x ++ y) (λ b. f b >>= g)
Writes-bind {x} {y} {f} {g} p q = record {
  writes = λ v fits. Yields-bind (p.writes v (omega (arith, length-append x y, fits))) λ r h.
      Yields-weaken (q.writes h.valid (omega (arith, length-append x y, h.no_later, fits)))
        λ s k. Appended-trans h k;
}

-- Two operations, one behind the other, and a value.
pub Writes-pair {ℓ} :
    {A : Type ℓ} (a : A) {x y : Bytes} {f g : Buffer → Run Buffer} {b : Buffer}
    → Writes x f
    → Writes y g
    → IsValid b
    → b.write_pos + length (x ++ y) ≤ max_size
    → Yields
        (λ (s : A × Buffer). (s.0 ≡ a) × Appended (x ++ y) b s.1)
        (f b >>= λ c. g c >>= λ d. ok (a, d))
Writes-pair a {x} {y} {f} {g} p q v fits =
    Yields-bind (p.writes v (omega (arith, length-append x y, fits))) λ r h.
      Yields-bind (q.writes h.valid (omega (arith, length-append x y, h.no_later, fits)))
        λ s k. yields (refl, Appended-trans h k)
