-- ===== src/Text.antt =====
-- src/util/util.cpp: the string functions.
pub mod Replace
pub mod Lines
mod Tests
use echo_web_server.Prelude.{
  ℕ, zero, suc, ◌+◌, ◌-◌, Bool, true, false, ◌&&◌, List, [], ◌∷◌, ◌++◌, map, Option, none, some,
  leb, ◌==◌, if◌then◌else◌, length, take, drop,
}
use echo_web_server.Run.{Bytes, Run, ok, out_of_fuel, ◌>>=◌}

-- `std::tolower` and `std::toupper` in the "C" locale.
unfoldable pub to_lower : ℕ → ℕ
to_lower c = if leb b'A' c && leb c b'Z' then c + 32 else c

unfoldable pub to_upper : ℕ → ℕ
to_upper c = if leb b'a' c && leb c b'z' then c - 32 else c

unfoldable pub string_to_lower : Bytes → Bytes
unfolding to_lower
string_to_lower str = map to_lower str

unfoldable pub string_to_upper : Bytes → Bytes
unfolding to_upper
string_to_upper str = map to_upper str

-- Whether `str` begins with `from`.
unfoldable pub starts_with : Bytes → Bytes → Bool
starts_with [] str = true
starts_with (x ∷ from) [] = false
starts_with (x ∷ from) (c ∷ str) = x == c && starts_with from str

abbrev pub map_suc : Option ℕ → Option ℕ
map_suc none = none
map_suc (some i) = some (suc i)

-- `str.find(from)`, with `none` for `npos`.
unfoldable pub find : Bytes → Bytes → Option ℕ
unfolding starts_with
find from [] = if starts_with from [] then some 0 else none
find from (c ∷ str) = if starts_with from (c ∷ str) then some 0 else map_suc (find from str)

-- The `while` of `ReplaceAllSubstring`.
unfoldable pub replace_loop : ℕ → Bytes → Bytes → Bytes → Run Bytes
unfolding find
replace_loop zero str from to = out_of_fuel
replace_loop (suc fuel) [] from to = ok []
replace_loop (suc fuel) (c ∷ s) from to = elim (find from (c ∷ s)) [
  | none ↦ ok (c ∷ s)
  | some begin ↦ replace_loop fuel (drop (begin + length from) (c ∷ s)) from to >>= λ rest.
      ok (take begin (c ∷ s) ++ (to ++ rest))
]

-- With a `from` that is not empty each round takes at least one byte.
unfoldable pub replace_all_substring : Bytes → Bytes → Bytes → Run Bytes
unfolding replace_loop
replace_all_substring str from to = replace_loop (length str + 1) str from to

-- What follows a match of `\r*\n` at the head.
unfoldable pub after_line_end : Bytes → Option Bytes
after_line_end [] = none
after_line_end (c ∷ s) =
    let more = after_line_end s in if c == 10 then some s else if c == 13 then more else none

abbrev pub cons_first : ℕ → Option (Bytes × Bytes) → Option (Bytes × Bytes)
cons_first c none = none
cons_first c (some (pre, suf)) = some (c ∷ pre, suf)

-- What stands before and behind the leftmost match of `\r*\n`.
unfoldable pub cut_line : Bytes → Option (Bytes × Bytes)
unfolding after_line_end
cut_line [] = none
cut_line (c ∷ s) = elim (after_line_end (c ∷ s)) [
  | some rest ↦ some ([], rest)
  | none ↦ cons_first c (cut_line s)
]

-- The tokens of `std::sregex_token_iterator` behind a first match: a rest with no further match is a
-- token only if it is not empty.
unfoldable pub split_rest : ℕ → Bytes → Run (List Bytes)
unfolding cut_line
split_rest zero s = out_of_fuel
split_rest (suc fuel) s = elim (cut_line s) [
  | none ↦ ok (if length s == 0 then [] else s ∷ [])
  | some (pre, suf) ↦ split_rest fuel suf >>= λ rest. ok (pre ∷ rest)
]

-- `SplitString` with the pattern `\r*\n`: a text with no match is one token, also the empty text.
unfoldable pub split_string_to_lines : Bytes → Run (List Bytes)
unfolding cut_line split_rest
split_string_to_lines s = elim (cut_line s) [
  | none ↦ ok (s ∷ [])
  | some (pre, suf) ↦ split_rest (length s + 1) suf >>= λ rest. ok (pre ∷ rest)
]
