-- ===== src/Connection/Send.antt =====
-- `Send`: with a socket that takes at least one byte each time, everything is sent, in order.
use echo_web_server.Prelude.{
  ℕ, suc, ◌+◌, ◌-◌, ◌≤◌, ◌<◌, ◌≡◌, refl, ap, ◌∙◌, List, [], ◌∷◌, ◌++◌, ◌⊎◌, inl, inr, arith,
  append-nil, append_assoc, min, Bool-cases, ltb, ◌==◌, true, false, length, take, drop,
  length-drop, take-append-drop, drop-drop, drop-all, add_size_exact, size_mod,
}
use echo_web_server.Run.{Bytes, ok, Yields, yields, Yields-bind, Yields-weaken, Yields-value}
use echo_web_server.Buffer.{Buffer, readable_size, readable_bytes, empty}
use echo_web_server.Buffer.Valid.{IsValid, length-readable_bytes}
use echo_web_server.Buffer.Retrieve.{retrieve_behaviour}
use echo_web_server.Connection.{Connection, Sent, send_buffer, send_file, file_bytes, send}

-- Offers of at least one byte each.
abbrev pub offers : List ℕ → List (ℕ ⊎ ℕ)
offers [] = []
offers (n ∷ ns) = inr (suc n) ∷ offers ns

-- Everything that was to be sent has been sent behind what was written, and the buffer is empty.
pub record IsSent (size : ℕ) (written bytes : Bytes) (s : Sent) : Type 0 where
  pub outcome : s.outcome ≡ inr (size + length bytes)
  pub all : s.written ≡ written ++ bytes

-- What the loop over the buffer leaves for the file.
pub record IsHeadSent (ns : List ℕ) (size : ℕ) (written : Bytes) (b : Buffer) (s : Sent)
    : Type 0 where
  pub sent : IsSent size written (readable_bytes b) s
  pub valid : IsValid s.buf
  pub emptied : readable_bytes s.buf ≡ []
  pub left : List ℕ
  pub offered : s.answers ≡ offers left
  pub enough : length ns ≤ length left + length (readable_bytes b)

-- Taking some bytes of what is left, and the rest later.
taken-all :
    (n : ℕ) (written bytes : Bytes) → (written ++ take n bytes) ++ drop n bytes ≡ written ++ bytes
taken-all n written bytes =
    append_assoc written (take n bytes) (drop n bytes) ∙ rw (take-append-drop n bytes)

send_buffer-Sent :
    (ns : List ℕ) (size : ℕ) (written : Bytes) {b : Buffer}
    → IsValid b
    → length (readable_bytes b) ≤ length ns
    → size + length (readable_bytes b) < size_mod
    → Yields (IsHeadSent ns size written b) (send_buffer (offers ns) size written b)
unfolding send_buffer empty
send_buffer-Sent [] size written {b} v enough small =
    let len = length-readable_bytes v in
    let none_left : readable_bytes b ≡ [] = ground arith in
    let e : (readable_size b == 0) ≡ true = ground (arith, len, ap length none_left) in
    rw e (
      yields (record {
        sent = record { outcome = ap inr (omega arith); all = rw (none_left, append-nil) };
        valid = v;
        emptied = none_left;
        left = [];
        offered = refl;
        enough = omega arith;
      }))
send_buffer-Sent (n ∷ ns) size written {b} v enough small =
    elim (Bool-cases (readable_size b == 0)) [
      | inl e ↦
          let none_left : readable_bytes b ≡ [] = ground (arith, len) in
          rw e (
            yields (record {
              sent = record {
                outcome = ap inr (omega (arith, ap length none_left));
                all = rw (none_left, append-nil);
              };
              valid = v;
              emptied = none_left;
              left = n ∷ ns;
              offered = refl;
              enough = omega arith;
            }))
      | inr e ↦
          let some_left : 0 < length (readable_bytes b) = ground (arith, len) in
          let (r, got, p) = Yields-value ((retrieve_behaviour m v).0 (omega (arith, len))) in
          let rest : length (readable_bytes r) ≡ length (readable_bytes b) - m =
            omega (arith, ap length p.content, length-drop m (readable_bytes b)) in
          rw e (
            rw got (
              rw (add_size_exact size m (omega (arith, len, small))) (
                Yields-weaken
                  (send_buffer-Sent ns (size + m) (written ++ take m (readable_bytes b)) p.valid
                    (omega (arith, len, rest, some_left, enough)) (omega (arith, len, rest, small)))
                  λ s h. record {
                    sent = record {
                      outcome = h.sent.outcome ∙ ap inr (omega (arith, len, rest));
                      all = h.sent.all ∙ rw p.content (taken-all m written (readable_bytes b));
                    };
                    valid = h.valid;
                    emptied = h.emptied;
                    left = h.left;
                    offered = h.offered;
                    enough = omega (arith, h.enough, rest, some_left, len);
                  })))
    ]
  where
    m : ℕ
    m = min (suc n) (readable_size b)

    len : length (readable_bytes b) ≡ readable_size b
    len = length-readable_bytes v

send_file-Sent :
    (ns : List ℕ) (size : ℕ) (written bytes : Bytes) (b : Buffer)
    → size ≤ length bytes
    → length bytes - size ≤ length ns
    → Yields
        (λ s. IsSent size written (drop size bytes) s × (s.buf ≡ b))
        (send_file (offers ns) size written bytes b)
unfolding send_file
send_file-Sent [] size written bytes b inside enough =
    let none_left = drop-all size bytes (omega arith) in
    let e : ltb size (length bytes) ≡ false = ground arith in
    rw e (
      yields (
        record {
          outcome = ap inr (omega (arith, length-drop size bytes));
          all = rw (none_left, append-nil);
        },
        refl,
      ))
send_file-Sent (n ∷ ns) size written bytes b inside enough =
    elim (Bool-cases (ltb size (length bytes))) [
      | inr e ↦
          let none_left = drop-all size bytes (ground arith) in
          rw e (
            yields (
              record {
                outcome = ap inr (ground (arith, length-drop size bytes));
                all = rw (none_left, append-nil);
              },
              refl,
            ))
      | inl e ↦
          let some_left : size < length bytes = ground arith in
          let m = min (suc n) (length bytes - size) in
          rw e (
            Yields-weaken
              (send_file-Sent ns (size + m) (written ++ take m (drop size bytes)) bytes b
                (omega arith) (omega arith))
              λ s h. (
                record {
                  outcome =
                      h.0.outcome
                      ∙ ap inr
                          (omega (arith, length-drop (size + m) bytes, length-drop size bytes));
                  all =
                      h.0.all
                      ∙ rw (drop-drop size m bytes (size + m) refl)
                          (taken-all m written (drop size bytes));
                },
                h.1,
              ))
    ]

-- `Send` of a response: where the socket takes at least one byte each time and is asked often enough,
-- the buffer's bytes and then the file's are written, exactly and in order, their number is returned,
-- and the writing buffer is left empty and valid.
pub send-all :
    (ns : List ℕ) (c : Connection) {bytes : Bytes}
    → IsValid c.write_buf
    → file_bytes c.file ≡ ok bytes
    → length (readable_bytes c.write_buf) + length bytes ≤ length ns
    → length (readable_bytes c.write_buf) + length bytes < size_mod
    → Yields
        (λ (r : Sent × Connection).
          (r.0.outcome ≡ inr (length (readable_bytes c.write_buf) + length bytes))
          × (r.0.written ≡ readable_bytes c.write_buf ++ bytes)
          × (readable_bytes r.1.write_buf ≡ [])
          × IsValid r.1.write_buf)
        (send (offers ns) c)
unfolding send
send-all ns c {bytes} v mapped enough small =
    Yields-bind (send_buffer-Sent ns 0 [] v (omega (arith, enough)) (omega (arith, small))) λ h p.
      rw (p.sent.outcome, send)
        (rw (mapped, p.offered)
          (Yields-bind
            (send_file-Sent p.left 0 h.written bytes h.buf (omega arith)
              (omega (arith, p.enough, enough)))
            λ s q.
              rw (q.0.outcome, send)
                (yields (
                  ap inr (
                      add_size_exact (0 + length (readable_bytes c.write_buf)) (0 + length bytes)
                        (omega (arith, small))
                      ∙ omega arith),
                  q.0.all ∙ rw p.sent.all,
                  rw q.1 p.emptied,
                  rw q.1 p.valid,
                ))))
