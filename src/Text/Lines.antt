-- ===== src/Text/Lines.antt =====
-- `SplitStringToLines`: it always ends, no line holds a line feed, and lines joined by CRLF come back.
use echo_web_server.Prelude.{
  ℕ, zero, suc, ◌+◌, ◌<◌, ◌≡◌, ◌≢◌, refl, false, List, [], ◌∷◌, ◌++◌, Option, none, some, inl, inr,
  ◌⊎◌, arith, ◌==◌, Option-cases, if◌then◌else◌, length, length-append,
}
use echo_web_server.Run.{Bytes, ok, Yields, yields, Yields-bind}
use echo_web_server.Text.{after_line_end, cons_first, cut_line, split_rest, split_string_to_lines}

abbrev pub All {ℓ κ} : {A : Type ℓ} → (A → Type κ) → List A → Type κ
All P [] = Unit
All P (x ∷ xs) = P x × All P xs

-- No line feed.
abbrev pub IsLine : Bytes → Type 0
IsLine = All (λ c. c ≢ 10)

-- Neither a line feed nor a carriage return.
abbrev pub IsCleanLine : Bytes → Type 0
IsCleanLine = All (λ c. (c ≢ 10) × (c ≢ 13))

after_line_end-shorter : (s rest : Bytes) → after_line_end s ≡ some rest → length rest < length s
unfolding after_line_end
after_line_end-shorter [] rest e = cc
after_line_end-shorter (c ∷ s) rest e = ground (arith, after_line_end-shorter s rest)

after_line_end-none_at : (c : ℕ) (s : Bytes) → after_line_end (c ∷ s) ≡ none → c ≢ 10
unfolding after_line_end
after_line_end-none_at c s e = ground arith

-- What a cut says: a line before, and a rest that is shorter; or the text is one line.
abbrev IsCut : Bytes → Option (Bytes × Bytes) → Type 0
IsCut s none = IsLine s
IsCut s (some (pre, suf)) = IsLine pre × (length suf < length s)

IsCut-cons :
    (c : ℕ) (s : Bytes) (o : Option (Bytes × Bytes))
    → c ≢ 10
    → IsCut s o
    → IsCut (c ∷ s) (cons_first c o)
IsCut-cons c s none h p = (h, p)
IsCut-cons c s (some (pre, suf)) h p = ((h, p.0), omega (arith, p.1))

cut_line-IsCut : (s : Bytes) → IsCut s (cut_line s)
unfolding cut_line
cut_line-IsCut [] = tt
cut_line-IsCut (c ∷ s) = elim (Option-cases (after_line_end (c ∷ s))) [
  | inl e ↦
      rw (e, cut_line)
        (IsCut-cons c s (cut_line s) (after_line_end-none_at c s e) (cut_line-IsCut s))
  | inr (rest, e) ↦ rw (e, cut_line) (tt, after_line_end-shorter (c ∷ s) rest e)
]

abbrev lines_of_rest : Bytes → List Bytes
lines_of_rest s = if length s == 0 then [] else s ∷ []

lines_of_rest-IsLine : (s : Bytes) → IsLine s → All IsLine (lines_of_rest s)
lines_of_rest-IsLine [] h = tt
lines_of_rest-IsLine (c ∷ s) h =
    let e : (suc (length s) == 0) ≡ false = ground arith in rw e (h, tt)

split_rest-IsLine :
    (fuel : ℕ) (s : Bytes) → length s < fuel → Yields (All IsLine) (split_rest fuel s)
unfolding split_rest
split_rest-IsLine zero s f = absurd (omega arith)
split_rest-IsLine (suc fuel) s f = elim (Option-cases (cut_line s)) [
  | inl e ↦ rw (e, split_rest) (yields (lines_of_rest-IsLine s (rw e at (cut_line-IsCut s))))
  | inr ((pre, suf), e) ↦
      let cut : IsLine pre × (length suf < length s) = rw e at (cut_line-IsCut s) in
      rw (e, split_rest)
        (Yields-bind (split_rest-IsLine fuel suf (omega arith)) λ rest p. yields (cut.0, p))
]

-- `SplitStringToLines` of any text ends with at least one line, and no line holds a line feed.
pub split_string_to_lines-IsLine :
    (s : Bytes) → Yields (λ ls. All IsLine ls × (0 < length ls)) (split_string_to_lines s)
unfolding split_string_to_lines
split_string_to_lines-IsLine s = elim (Option-cases (cut_line s)) [
  | inl e ↦ rw (e, split_string_to_lines) (yields ((rw e at (cut_line-IsCut s), tt), omega arith))
  | inr ((pre, suf), e) ↦
      let cut : IsLine pre × (length suf < length s) = rw e at (cut_line-IsCut s) in
      rw (e, split_string_to_lines)
        (Yields-bind (split_rest-IsLine (length s + 1) suf (omega arith))
          λ rest p. yields ((cut.0, p), omega arith))
]

-- The lines joined by CRLF.
abbrev pub join_lines : Bytes → List Bytes → Bytes
join_lines l [] = l
join_lines l (m ∷ ls) = l ++ (13 ∷ 10 ∷ join_lines m ls)

-- The last of the lines is not empty.
abbrev pub LastGiven : Bytes → List Bytes → Type 0
LastGiven l [] = l ≢ []
LastGiven l (m ∷ ls) = LastGiven m ls

cut_line-clean : (l : Bytes) → IsCleanLine l → cut_line l ≡ none
unfolding cut_line after_line_end
cut_line-clean [] h = refl
cut_line-clean (c ∷ l) h = ground (arith, cut_line-clean l h.1)

cut_line-joined :
    (l rest : Bytes) → IsCleanLine l → cut_line (l ++ (13 ∷ 10 ∷ rest)) ≡ some (l, rest)
unfolding cut_line after_line_end
cut_line-joined [] rest h = refl
cut_line-joined (c ∷ l) rest h = ground (arith, cut_line-joined l rest h.1)

split_rest-join :
    (fuel : ℕ) (l : Bytes) (ls : List Bytes)
    → length (join_lines l ls) < fuel
    → IsCleanLine l
    → All IsCleanLine ls
    → LastGiven l ls
    → split_rest fuel (join_lines l ls) ≡ ok (l ∷ ls)
unfolding split_rest
split_rest-join zero l ls f h hs g = absurd (omega arith)
split_rest-join (suc fuel) l [] f h hs g = rw (cut_line-clean l h, split_rest) (ground arith)
split_rest-join (suc fuel) l (m ∷ ls) f h hs g =
    rw (cut_line-joined l (join_lines m ls) h, split_rest)
      (rw (
        split_rest-join fuel m ls (omega (arith, length-append l (13 ∷ 10 ∷ join_lines m ls))) hs.0
          hs.1 g))

-- Lines without line feeds and carriage returns, joined by CRLF, come back as they were, where the
-- last is not empty or there is only one.
pub split-join_lines :
    (l : Bytes) (ls : List Bytes)
    → IsCleanLine l
    → All IsCleanLine ls
    → (ls ≡ []) ⊎ LastGiven l ls
    → split_string_to_lines (join_lines l ls) ≡ ok (l ∷ ls)
unfolding split_string_to_lines
split-join_lines l [] h hs g = rw (cut_line-clean l h, split_string_to_lines)
split-join_lines l (m ∷ ls) h hs (inl e) = cc
split-join_lines l (m ∷ ls) h hs (inr g) =
    rw (cut_line-joined l (join_lines m ls) h, split_string_to_lines)
      (rw (
        split_rest-join (length (join_lines l (m ∷ ls)) + 1) m ls
          (omega (arith, length-append l (13 ∷ 10 ∷ join_lines m ls))) hs.0 hs.1 g))
