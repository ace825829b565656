-- ===== src/Request/Parse.antt =====
-- `Request::Parse` against its lines: no assertion fails, it ends, and it consumes what it has parsed.
use echo_web_server.Prelude.{
  ℕ, zero, suc, ◌+◌, ◌≤◌, ◌<◌, ◌≡◌, ◌≢◌, refl, sym, ap, ◌∙◌, true, false, [], ◌∷◌, Option, none,
  some, arith, ◌==◌, length, take, drop, length-take, length-drop, drop-all, drop-drop,
}
use mathlib.Core.Path.{subst}
use echo_web_server.Run.{
  Bytes, codes, Run, Exception, ok, ◌>>=◌, Yields, yields, Yields-bind, Yields-weaken, Yields-value,
}
use echo_web_server.Buffer.{Buffer, readable_size, readable_bytes, readable_string, empty}
use echo_web_server.Buffer.Valid.{IsValid, length-readable_bytes}
use echo_web_server.Buffer.Retrieve.{retrieve_behaviour}
use echo_web_server.Text.{find}
use echo_web_server.Text.Replace.{FirstAt, find-FindsFirst}
use echo_web_server.Request.{
  Request, cleared, Step, invalid, parse_line, new_line, line_to, consume_line, parse_loop, parse,
}

-- The first line of a text, and what stands behind it and its separator.
abbrev pub first_line : Bytes → Bytes
first_line content = line_to (find new_line content) content

abbrev pub drop_line : Option ℕ → Bytes → Bytes
drop_line none content = []
drop_line (some i) content = drop (i + 2) content

abbrev pub after_line : Bytes → Bytes
after_line content = drop_line (find new_line content) content

-- The request parser over lines: it ends with the text, or with the exception of a line, and in that
-- case the line is still there.
pub data Consumes : Request → Bytes → Option Exception → Request → Bytes → Type 0 where
  ended : (r : Request) → Consumes r [] none r []
  refused :
      {r r' : Request} {content : Bytes} {e : Exception}
      → content ≢ []
      → parse_line r.state (first_line content) r ≡ (some e, r')
      → Consumes r content (some e) r' content
  accepted :
      {r r' s : Request} {content rest : Bytes} {e : Option Exception}
      → content ≢ []
      → parse_line r.state (first_line content) r ≡ (none, r')
      → Consumes r' (after_line content) e s rest
      → Consumes r content e s rest

-- `FirstAt` for the line separator, as sizes.
found_inside : (content : Bytes) (i : ℕ) → find new_line content ≡ some i → i + 2 ≤ length content
found_inside content i e =
    let at : FirstAt new_line content i = rw e at (find-FindsFirst new_line content) in at.inside

-- Consuming a line from a buffer that holds the text.
consume_line-after :
    (o : Option ℕ) (content : Bytes) {buf : Buffer}
    → find new_line content ≡ o
    → IsValid buf
    → readable_bytes buf ≡ content
    → Yields
        (λ n. (n.0 ≡ drop_line o content) × IsValid n.1 × (readable_bytes n.1 ≡ n.0))
        (consume_line o (line_to o content) content buf)
unfolding consume_line
consume_line-after none content {buf} e v same =
    let (b, got, past) =
      Yields-value ((retrieve_behaviour (length content) v).0 (rw same (omega arith))) in
    rw got
      (yields (drop-all (length content) content (omega arith), past.valid, past.content ∙ rw same))
consume_line-after (some i) content {buf} e v same =
    let inside = found_inside content i e in
    let len : length (take i content) ≡ i = omega (arith, length-take i content) in
    let (b, got, past) = Yields-value ((retrieve_behaviour i v).0 (rw same (omega arith))) in
    let left : readable_bytes b ≡ drop i content = past.content ∙ rw same in
    let (c, got', next) =
      Yields-value
        ((retrieve_behaviour 2 past.valid).0 (rw left (omega (arith, length-drop i content)))) in
    rw len (
      rw got (
        rw got'
          (yields (sym (drop-drop i 2 content (i + 2) refl), next.valid, next.content ∙ rw left))))

length-drop_line :
    (o : Option ℕ) (c : ℕ) (s : Bytes) → length (drop_line o (c ∷ s)) < length (c ∷ s)
length-drop_line none c s = omega arith
length-drop_line (some i) c s = omega (arith, length-drop (i + 2) (c ∷ s))

-- How the parser ends on a buffer: with a valid buffer, as the parser over lines does on its text.
abbrev pub Parses : Request → Bytes → Step (Request × Buffer) → Type 0
Parses r content s = IsValid s.1.1 × Consumes r content s.0 s.1.0 (readable_bytes s.1.1)

parse_loop-Parses :
    (fuel : ℕ) (content : Bytes) (r : Request) (buf : Buffer)
    → length content < fuel
    → IsValid buf
    → readable_bytes buf ≡ content
    → Yields (Parses r content) (parse_loop fuel content r buf)
unfolding parse_loop
parse_loop-Parses zero content r buf f v same = absurd (omega arith)
parse_loop-Parses (suc fuel) [] r buf f v same = yields (v, rw same (ended r))
parse_loop-Parses (suc fuel) (c ∷ s) r buf f v same =
    step (λ content r' b. parse_loop-Parses fuel content r' b)
      (parse_line r.state (first_line (c ∷ s)) r) refl
  where
    onward : Request → Run (Step (Request × Buffer))
    onward r' = consume_line (find new_line (c ∷ s)) (first_line (c ∷ s)) (c ∷ s) buf >>= λ n.
        parse_loop fuel n.0 r' n.1

    step :
        ((content : Bytes) (r' : Request) (b : Buffer)
          → length content < fuel
          → IsValid b
          → readable_bytes b ≡ content
          → Yields (Parses r' content) (parse_loop fuel content r' b))
        → (p : Step Request) → parse_line r.state (first_line (c ∷ s)) r ≡ p
        → Yields
            (Parses r (c ∷ s))
            (elim p.0 [ some x ↦ ok (some x, (p.1, buf)) | none ↦ onward p.1 ])
    step again (some x, r') e = yields (v, rw same (refused (cc) e))
    step again (none, r') e =
        Yields-bind (consume_line-after (find new_line (c ∷ s)) (c ∷ s) refl v same) λ n h.
          let shorter = length-drop_line (find new_line (c ∷ s)) c s in
          Yields-weaken (again n.0 r' n.1 (omega (arith, ap length h.0)) h.1 h.2) λ t p. (
            p.0,
            accepted (cc) e (subst (λ x. Consumes r' x t.0 t.1.0 (readable_bytes t.1.1)) h.0 p.1),
          )

-- `Request::Parse` on a valid buffer runs through without a failed assertion and ends. On an empty
-- buffer it throws `std::invalid_argument` and leaves everything cleared. Else it does what the
-- parser over lines does on the buffer's text: on success the buffer is left empty, and on an
-- exception it still begins with the line that was refused, behind the lines that were consumed.
pub parse_behaviour :
    {buf : Buffer}
    → IsValid buf
    → (readable_bytes buf ≡ []
        → parse buf ≡ ok (invalid (codes "The buffer is empty"), (cleared, buf)))
      × (readable_bytes buf ≢ [] → Yields (Parses cleared (readable_bytes buf)) (parse buf))
unfolding parse empty readable_string
parse_behaviour {buf} v = (
  λ e.
      let none_left : (readable_size buf == 0) ≡ true =
        ground (arith, length-readable_bytes v, ap length e) in
      rw none_left,
  λ given.
      let some_left : (readable_size buf == 0) ≡ false = ground (arith, length-readable_bytes v) in
      rw some_left (
        parse_loop-Parses (length (readable_bytes buf) + 1) (readable_bytes buf) cleared buf
          (omega arith) v refl),
)
