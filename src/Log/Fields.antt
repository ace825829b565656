-- ===== src/Log/Fields.antt =====
-- src/log/field.h, src/log/field.cpp and `Formatter` of src/log/log.cpp: patterns and the fields of a
-- formatter. `std::strftime` is a parameter, of a format and a time.
use echo_web_server.Prelude.{
  ℕ, zero, suc, ◌+◌, Bool, true, false, not, ◌&&◌, ◌||◌, List, [], ◌∷◌, ◌++◌, none, some, leb, ◌==◌,
  if◌then◌else◌, length,
}
use echo_web_server.Run.{Bytes, codes, invalid_argument, Run, ok, throw, out_of_fuel, ◌>>=◌}
use echo_web_server.Http.{lookup}
use echo_web_server.Response.{decimal}
use echo_web_server.Log.{level_to_string, Event}

pub record RawField : Type 0 where
  pub raw_str : Bool
  pub content : Bytes
  pub format : Bytes

abbrev pub raw : Bytes → RawField
raw content = record { raw_str = true; content = content; format = [] }

abbrev pub tagged : Bytes → Bytes → RawField
tagged tag format = record { raw_str = false; content = tag; format = format }

-- `std::isalpha` in the "C" locale.
unfoldable pub is_alpha : ℕ → Bool
is_alpha c = (leb b'A' c && leb c b'Z') || (leb b'a' c && leb c b'z')

abbrev pub is_empty : Bytes → Bool
is_empty [] = true
is_empty (c ∷ s) = false

-- What the loop over one field leaves: the tag, the format, whether a brace is still open, and what
-- stands at `j`.
pub record Scan : Type 0 where
  pub type : Bytes
  pub format : Bytes
  pub processing : Bool
  pub rest : Bytes

-- The `while` of `ParsePattern`: `passed` is the text from `i + 1` to `j`, `inside` the text behind the
-- brace.
unfoldable pub scan_open : Bytes → Bytes → Bytes → Bytes → Scan
scan_open type passed inside [] = record { type = type; format = []; processing = true; rest = [] }
scan_open type passed inside (c ∷ s) =
    let type' = if is_empty s && is_empty type then passed ++ c ∷ [] else type in
    let rest = scan_open type' (passed ++ c ∷ []) (inside ++ c ∷ []) s in
    if c == b'}'
    then record { type = type; format = inside; processing = false; rest = s }
    else rest

unfoldable pub scan : Bytes → Bytes → Bytes → Scan
unfolding is_alpha scan_open
scan type passed [] = record { type = type; format = []; processing = false; rest = [] }
scan type passed (c ∷ s) =
    let type' = if is_empty s && is_empty type then passed ++ c ∷ [] else type in
    let rest = scan type' (passed ++ c ∷ []) s in
    if not (is_alpha c) && (not (c == b'{') && not (c == b'}'))
    then record { type = passed; format = []; processing = false; rest = c ∷ s }
    else if c == b'{'
    then scan_open passed (passed ++ c ∷ []) [] s
    else rest

-- The raw string so far, if there is one, as a field.
abbrev pub flushed : Bytes → List RawField
flushed [] = []
flushed (c ∷ s) = raw (c ∷ s) ∷ []

-- `pattern[i] != '%' || (i + 1 < pattern.size() && pattern[i + 1] == '%')`
abbrev pub is_raw : ℕ → Bytes → Bool
is_raw c [] = not (c == b'%')
is_raw c (d ∷ s) = not (c == b'%') || d == b'%'

-- The `for` of `ParsePattern`, from the text at `i`.
unfoldable pub parse_loop : ℕ → Bytes → List RawField → Bytes → Run (List RawField)
unfolding scan
parse_loop zero raw_str fields pattern = out_of_fuel
parse_loop (suc fuel) raw_str fields [] = ok (fields ++ flushed raw_str)
parse_loop (suc fuel) raw_str fields (c ∷ s) =
    let r = scan [] [] s in
    let more : Run (List RawField) = parse_loop fuel (raw_str ++ c ∷ []) fields s in
    let next : Run (List RawField) =
      parse_loop fuel [] ((fields ++ flushed raw_str) ++ tagged r.type r.format ∷ []) r.rest in
    let refused : Run (List RawField) =
      throw (invalid_argument (codes "Invalid log format pattern: '" ++ ((c ∷ s) ++ codes "'"))) in
    if is_raw c s then more else if r.processing then refused else next

unfoldable pub parse_pattern : Bytes → Run (List RawField)
unfolding parse_loop
parse_pattern pattern = parse_loop (length pattern + 1) [] [] pattern

-- The fields of a formatter; a date has its format.
pub data Field : Type 0 where
  message level thread_id new_line logger_name file_name line_num tab : Field
  date_time raw_string : Bytes → Field

abbrev pub default_format : Bytes
default_format = codes "%Y-%m-%d %H:%M:%S"

-- What the creators do with the format.
abbrev pub date_format : Bytes → Bytes
date_format [] = default_format
date_format (c ∷ s) = c ∷ s

abbrev pub supported_fields : List (Bytes × (Bytes → Field))
supported_fields =
    (codes "m", λ _. message)
    ∷ (codes "p", λ _. level)
    ∷ (codes "t", λ _. thread_id)
    ∷ (codes "n", λ _. new_line)
    ∷ (codes "c", λ _. logger_name)
    ∷ (codes "d", λ format. date_time (date_format format))
    ∷ (codes "f", λ _. file_name)
    ∷ (codes "l", λ _. line_num)
    ∷ (codes "T", λ _. tab)
    ∷ []

unfoldable pub to_field : RawField → Run Field
unfolding lookup
to_field r =
    if r.raw_str then ok (raw_string r.content) else elim (lookup r.content supported_fields) [
      | some create ↦ ok (create r.format)
      | none ↦
          throw (invalid_argument (codes "Invalid log format field: '" ++ (r.content ++ codes "'")))
    ]

unfoldable pub raw_fields_to_format_fields : List RawField → Run (List Field)
unfolding to_field
raw_fields_to_format_fields [] = ok []
raw_fields_to_format_fields (r ∷ rs) =
    to_field r >>= λ f. raw_fields_to_format_fields rs >>= λ fs. ok (f ∷ fs)

-- `Formatter(pattern)`
unfoldable pub formatter_of : Bytes → Run (List Field)
unfolding parse_pattern raw_fields_to_format_fields
formatter_of pattern = do raw_fields ← parse_pattern pattern; raw_fields_to_format_fields raw_fields

-- `Format` of each field.
unfoldable pub format_field : (Bytes → ℕ → Bytes) → Bytes → Event → Field → Bytes
unfolding level_to_string decimal
format_field strftime name e message = e.message
format_field strftime name e level = level_to_string e.level
format_field strftime name e thread_id = decimal e.thread_id
format_field strftime name e new_line = codes "\n"
format_field strftime name e logger_name = name
format_field strftime name e file_name = e.file_name
format_field strftime name e line_num = decimal e.line_num
format_field strftime name e tab = codes "\t"
format_field strftime name e (date_time format) = strftime format e.time
format_field strftime name e (raw_string content) = content

-- `Formatter::Format`
unfoldable pub format : (Bytes → ℕ → Bytes) → Bytes → Event → List Field → Bytes
unfolding format_field
format strftime name e [] = []
format strftime name e (f ∷ fs) = format_field strftime name e f ++ format strftime name e fs
