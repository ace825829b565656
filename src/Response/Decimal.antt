-- ===== src/Response/Decimal.antt =====
-- Decimal numbers in a response, read back.
use echo_web_server.Prelude.{
  ℕ, zero, suc, ◌+◌, ◌-◌, ◌*◌, ◌/◌, ◌%◌, ◌≤◌, ◌<◌, ◌≡◌, refl, ◌∙◌, [], ◌∷◌, ◌++◌, inl, inr, arith,
  ltb, Bool-cases,
}
use echo_web_server.Run.{Bytes}
use echo_web_server.Response.{decimal_digits, decimal}

-- The number that digits stand for, behind a number that was read before.
abbrev pub read_from : ℕ → Bytes → ℕ
read_from n [] = n
read_from n (c ∷ s) = read_from (n * 10 + (c - b'0')) s

abbrev pub read_decimal : Bytes → ℕ
read_decimal s = read_from 0 s

read_from-append :
    (n : ℕ) (s : Bytes) (c : ℕ) → read_from n (s ++ c ∷ []) ≡ read_from n s * 10 + (c - b'0')
read_from-append n [] c = refl
read_from-append n (d ∷ s) c = read_from-append (n * 10 + (d - b'0')) s c

read-decimal_digits : (fuel n : ℕ) → n < fuel → read_decimal (decimal_digits fuel n) ≡ n
unfolding decimal_digits
read-decimal_digits zero n h = absurd (omega arith)
read-decimal_digits (suc fuel) n h = elim (Bool-cases (ltb n 10)) [
  | inl e ↦ rw e (omega arith)
  | inr e ↦
      let big : 10 ≤ n = ground arith in
      let front = read-decimal_digits fuel (n / 10) (omega arith) in
      rw e
        (read_from-append 0 (decimal_digits fuel (n / 10)) (b'0' + n % 10) ∙ omega (arith, front))
]

-- The decimal digits of a number read as that number.
pub read-decimal : (n : ℕ) → read_decimal (decimal n) ≡ n
unfolding decimal
read-decimal n = read-decimal_digits (n + 1) n (omega arith)
