-- ===== src/Text/Tests.antt =====
-- Tests of the string functions, and their theorems at concrete texts.
use echo_web_server.Prelude.{◌≡◌, refl, [], ◌∷◌, some}
use echo_web_server.Run.{codes, ok, Yields}
use echo_web_server.Text.{
  string_to_lower, string_to_upper, find, replace_all_substring, split_string_to_lines,
}
use echo_web_server.Text.Replace.{Replaced, replace_all_substring-Replaced}

test_lower : string_to_lower (codes "Az[9") ≡ codes "az[9"
unfolding string_to_lower
test_lower = refl

test_upper : string_to_upper (codes "get{") ≡ codes "GET{"
unfolding string_to_upper
test_upper = refl

test_find : find (codes "ab") (codes "aab") ≡ some 1
unfolding find
test_find = refl

test_replace : replace_all_substring (codes "aaabaa") (codes "aa") (codes "c") ≡ ok (codes "cabc")
unfolding replace_all_substring
test_replace = refl

test_split :
    split_string_to_lines (97 ∷ 13 ∷ 13 ∷ 10 ∷ 98 ∷ 10 ∷ []) ≡ ok (codes "a" ∷ codes "b" ∷ [])
unfolding split_string_to_lines
test_split = refl

test_split_empty : split_string_to_lines [] ≡ ok ([] ∷ [])
unfolding split_string_to_lines
test_split_empty = refl

replace_all_substring-Replaced_example :
    Yields
      (Replaced (codes "aa") (codes "c") (codes "aaabaa"))
      (replace_all_substring (codes "aaabaa") (codes "aa") (codes "c"))
replace_all_substring-Replaced_example =
    replace_all_substring-Replaced (codes "aaabaa") (codes "aa") (codes "c") (cc)
