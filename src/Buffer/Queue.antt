-- ===== src/Buffer/Queue.antt =====
-- The buffer refines a queue of bytes: any sequence of calls gives what the queue gives.
use echo_web_server.Prelude.{
  ℕ, ◌+◌, ◌≤◌, ◌≡◌, refl, List, [], ◌∷◌, ◌++◌, inl, inr, ◌⊎◌, arith, length, drop, leb, leb→le,
  Bool-cases, if◌then◌else◌,
}
use echo_web_server.Run.{Bytes, Run, ok, fault, ◌>>=◌, Yields-value}
use echo_web_server.Buffer.{
  Buffer, max_size, readable_bytes, readable_string, retrieve, clear, retrieve_all,
  retrieve_all_to_string, append,
}
use echo_web_server.Buffer.Valid.{IsValid, length-readable_bytes}
use echo_web_server.Buffer.Append.{append-Appended}
use echo_web_server.Buffer.Retrieve.{retrieve_behaviour, clear-eq, cleared-IsValid, cleared-content}

-- The calls that change a buffer and what a client sees of them.
pub data Call : Type 0 where
  append_call : Bytes → Call
  retrieve_call : ℕ → Call
  clear_call retrieve_all_call to_string_call : Call

-- One call: its new buffer and the bytes or the count that it returns.
pub perform : Call → Buffer → Run ((Bytes ⊎ ℕ) × Buffer)
perform (append_call bytes) b = do r ← append bytes b; ok (inl [], r)
perform (retrieve_call n) b = do r ← retrieve n b; ok (inl [], r)
perform clear_call b = do r ← clear b; ok (inl [], r)
perform retrieve_all_call b = do r ← retrieve_all b; ok (inr r.0, r.1)
perform to_string_call b = do r ← retrieve_all_to_string b; ok (inl r.0, r.1)

pub perform_all : List Call → Buffer → Run (List (Bytes ⊎ ℕ) × Buffer)
perform_all [] b = ok ([], b)
perform_all (c ∷ cs) b = do r ← perform c b; rest ← perform_all cs r.1; ok (r.0 ∷ rest.0, rest.1)

-- The same calls on a queue of bytes.
pub queue_call : Call → Bytes → Run ((Bytes ⊎ ℕ) × Bytes)
queue_call (append_call bytes) q = ok (inl [], q ++ bytes)
queue_call (retrieve_call n) q = if leb n (length q) then ok (inl [], drop n q) else fault
queue_call clear_call q = ok (inl [], [])
queue_call retrieve_all_call q = ok (inr (length q), [])
queue_call to_string_call q = ok (inl q, [])

pub queue_all : List Call → Bytes → Run (List (Bytes ⊎ ℕ) × Bytes)
queue_all [] q = ok ([], q)
queue_all (c ∷ cs) q = do r ← queue_call c q; rest ← queue_all cs r.1; ok (r.0 ∷ rest.0, rest.1)

abbrev pub added : List Call → ℕ
added [] = 0
added (append_call bytes ∷ cs) = length bytes + added cs
added (_ ∷ cs) = added cs

-- How a call on the buffer ends, beside the same call on the queue: with the same result, a valid
-- buffer that holds what the queue holds, and an end no later than `limit`; or both fail.
pub data Agrees {ℓ} {A : Type ℓ} (limit : ℕ) (q : Run (A × Bytes)) : Run (A × Buffer) → Type ℓ where
  returns :
      {a : A} {b : Buffer}
      → IsValid b
      → b.write_pos ≤ limit
      → q ≡ ok (a, readable_bytes b)
      → Agrees limit q (ok (a, b))
  faults : q ≡ fault → Agrees limit q fault

Agrees-bind {ℓ κ} :
    {A : Type ℓ} {B : Type κ} {l m : ℕ} {q : Run (A × Bytes)} {r : Run (A × Buffer)}
    (g : A × Bytes → Run (B × Bytes)) (f : A × Buffer → Run (B × Buffer))
    → Agrees l q r
    → ((a : A) (b : Buffer)
        → IsValid b
        → b.write_pos ≤ l
        → Agrees m (g (a, readable_bytes b)) (f (a, b)))
    → Agrees m (q >>= g) (r >>= f)
Agrees-bind g f (returns {a} {b} v w e) k = rw e (k a b v w)
Agrees-bind g f (faults e) k = rw e (faults refl)

abbrev grows : Call → ℕ
grows (append_call bytes) = length bytes
grows _ = 0

perform-Agrees :
    (c : Call) {b : Buffer}
    → IsValid b
    → b.write_pos + grows c ≤ max_size
    → Agrees (b.write_pos + grows c) (queue_call c (readable_bytes b)) (perform c b)
unfolding queue_call perform retrieve_all retrieve_all_to_string readable_string
perform-Agrees (append_call bytes) {b} v fits =
    let (r, e, a) = Yields-value (append-Appended bytes v fits) in
    rw e (returns a.valid a.no_later (rw a.content))
perform-Agrees (retrieve_call n) {b} v fits =
    elim (Bool-cases (leb n (length (readable_bytes b)))) [
      | inl enough ↦
          let (r, e, a) = Yields-value ((retrieve_behaviour n v).0 (leb→le _ _ enough)) in
          rw (enough, e) (returns a.valid (omega (arith, a.same_end)) (rw a.content))
      | inr few ↦ rw (few, (retrieve_behaviour n v).1 (ground arith)) (faults refl)
    ]
perform-Agrees clear_call {b} v fits =
    rw (clear-eq b) (returns (cleared-IsValid v) (omega arith) (rw cleared-content))
perform-Agrees retrieve_all_call {b} v fits =
    rw (clear-eq b, length-readable_bytes v)
      (returns (cleared-IsValid v) (omega arith) (rw cleared-content))
perform-Agrees to_string_call {b} v fits =
    rw (clear-eq b) (returns (cleared-IsValid v) (omega arith) (rw (cleared-content b)))

added-cons : (c : Call) (cs : List Call) → added (c ∷ cs) ≡ grows c + added cs
added-cons (append_call bytes) cs = refl
added-cons (retrieve_call n) cs = omega arith
added-cons clear_call cs = omega arith
added-cons retrieve_all_call cs = omega arith
added-cons to_string_call cs = omega arith

-- On a valid buffer whose end, with all that the calls append, stays within the greatest vector
-- size, any sequence of Append, Retrieve, Clear, RetrieveAll and RetrieveAllToString returns what the
-- queue of the readable bytes returns, or fails an assertion exactly where the queue has too few
-- bytes, and leaves a valid buffer that holds what the queue holds.
pub perform_all-Agrees :
    (cs : List Call) {b : Buffer}
    → IsValid b
    → b.write_pos + added cs ≤ max_size
    → Agrees max_size (queue_all cs (readable_bytes b)) (perform_all cs b)
unfolding queue_all perform_all
perform_all-Agrees [] v fits = returns v (omega arith) refl
perform_all-Agrees (c ∷ cs) {b} v fits =
    let total = added-cons c cs in
    Agrees-bind _ _ (perform-Agrees c v (omega (arith, total))) λ a r w p.
      Agrees-bind _ _ (perform_all-Agrees cs w (omega (arith, total)))
        λ outs s u o. returns u o refl
