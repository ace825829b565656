-- ===== src/Log/Pattern.antt =====
-- Patterns that are written from fields, and how they are parsed.
use echo_web_server.Prelude.{
  ℕ, zero, suc, ◌+◌, ◌-◌, ◌<◌, ◌≡◌, refl, sym, ap, ◌∙◌, true, false, not, ◌&&◌, ◌||◌, List, [], ◌∷◌,
  ◌++◌, inl, inr, ◌⊎◌, arith, ◌==◌, length, length-append, append-nil, append_assoc, if_true,
  if_false,
}
use echo_web_server.Run.{Bytes, ok}
use echo_web_server.Log.Fields.{
  RawField, raw, tagged, is_alpha, is_empty, scan_open, scan, flushed, is_raw, parse_loop,
  parse_pattern,
}

abbrev pub AllBytes : (ℕ → Type 0) → Bytes → Type 0
AllBytes P [] = Unit {0}
AllBytes P (c ∷ s) = P c × AllBytes P s

abbrev pub IsLetter : ℕ → Type 0
IsLetter c = is_alpha c ≡ true

-- What a raw string is made of, and the format in the braces.
abbrev pub IsPlain : ℕ → Type 0
IsPlain c = (c == b'%') ≡ false

abbrev pub IsInside : ℕ → Type 0
IsInside c = (c == b'}') ≡ false

-- A tag ends before such a text.
abbrev pub IsStop : Bytes → Type 0
IsStop [] = Unit {0}
IsStop (c ∷ s) = (is_alpha c || (c == b'{' || c == b'}')) ≡ false

-- A raw string ends before such a text.
abbrev pub IsFieldStart : Bytes → Type 0
IsFieldStart [] = Unit {0}
IsFieldStart (c ∷ s) = is_raw c s ≡ false

-- The text of a list of fields: a raw string as it stands; a tag of letters behind a percent sign, with
-- its format in braces if there is one.
pub data Writes : List RawField → Bytes → Type 0 where
  nothing : Writes [] []
  plain :
      {fields : List RawField} {text : Bytes} (c : ℕ) (s : Bytes)
      → AllBytes IsPlain (c ∷ s)
      → IsFieldStart text
      → Writes fields text
      → Writes (raw (c ∷ s) ∷ fields) ((c ∷ s) ++ text)
  tag :
      {fields : List RawField} {text : Bytes} (a : ℕ) (s : Bytes)
      → AllBytes IsLetter (a ∷ s)
      → IsStop text
      → Writes fields text
      → Writes (tagged (a ∷ s) [] ∷ fields) (b'%' ∷ (a ∷ s) ++ text)
  tag_with_format :
      {fields : List RawField} {text : Bytes} (a : ℕ) (s : Bytes) (d : ℕ) (format : Bytes)
      → AllBytes IsLetter (a ∷ s)
      → AllBytes IsInside (d ∷ format)
      → Writes fields text
      → Writes
          (tagged (a ∷ s) (d ∷ format) ∷ fields)
          (b'%' ∷ (a ∷ s) ++ (b'{' ∷ ((d ∷ format) ++ b'}' ∷ text)))

is_empty-append : (s : Bytes) (c : ℕ) (t : Bytes) → is_empty (s ++ c ∷ t) ≡ false
is_empty-append [] c t = refl
is_empty-append (x ∷ s) c t = refl

scan_open-closed :
    (type passed inside format text : Bytes)
    → AllBytes IsInside format
    → scan_open type passed inside (format ++ b'}' ∷ text)
      ≡ record { type = type; format = inside ++ format; processing = false; rest = text }
unfolding scan_open
scan_open-closed type passed inside [] text h = rw (append-nil inside) refl
scan_open-closed type passed inside (d ∷ format) text h =
    rw (h.0, is_empty-append format b'}' text)
      (scan_open-closed type (passed ++ d ∷ []) (inside ++ d ∷ []) format text h.1
        ∙ ap (λ f. record { type = type; format = f; processing = false; rest = text })
            (append_assoc inside (d ∷ []) format))

letter_goes_on :
    (c : ℕ)
    → is_alpha c ≡ true
    → ((not (is_alpha c) && (not (c == b'{') && not (c == b'}'))) ≡ false) × ((c == b'{') ≡ false)
unfolding is_alpha
letter_goes_on c h = ground (arith, h)

-- One letter of a tag.
scan-letter :
    (passed : Bytes) (c d : ℕ) (s : Bytes)
    → is_alpha c ≡ true
    → scan [] passed (c ∷ d ∷ s) ≡ scan [] (passed ++ c ∷ []) (d ∷ s)
unfolding scan
scan-letter passed c d s h =
    if_false _ _ _ (letter_goes_on c h).0 ∙ if_false _ _ _ (letter_goes_on c h).1

scan-last_letter :
    (passed : Bytes) (c : ℕ)
    → is_alpha c ≡ true
    → scan [] passed (c ∷ [])
      ≡ record { type = passed ++ c ∷ []; format = []; processing = false; rest = [] }
unfolding scan
scan-last_letter passed c h =
    if_false _ _ _ (letter_goes_on c h).0 ∙ if_false _ _ _ (letter_goes_on c h).1 ∙ refl

scan-stop :
    (passed text : Bytes) (c : ℕ)
    → (is_alpha c || (c == b'{' || c == b'}')) ≡ false
    → scan [] passed (c ∷ text)
      ≡ record { type = passed; format = []; processing = false; rest = c ∷ text }
unfolding scan
scan-stop passed text c h =
    if_true _ _ (not (is_alpha c) && (not (c == b'{') && not (c == b'}'))) (ground (arith, h))

-- A tag that ends the text, or that a stop follows.
scan-tag :
    (passed : Bytes) (a : ℕ) (s text : Bytes)
    → AllBytes IsLetter (a ∷ s)
    → IsStop text
    → scan [] passed ((a ∷ s) ++ text)
      ≡ record { type = passed ++ a ∷ s; format = []; processing = false; rest = text }
scan-tag passed a [] [] h stop = scan-last_letter passed a h.0
scan-tag passed a [] (c ∷ text) h stop =
    scan-letter passed a c text h.0 ∙ scan-stop (passed ++ a ∷ []) text c stop
scan-tag passed a (b ∷ s) text h stop =
    scan-letter passed a b (s ++ text) h.0
    ∙ scan-tag (passed ++ a ∷ []) b s text h.1 stop
    ∙ ap (λ t. record { type = t; format = []; processing = false; rest = text })
        (append_assoc passed (a ∷ []) (b ∷ s))

scan-brace :
    (passed : Bytes) (c : ℕ) (s : Bytes)
    → scan [] passed (b'{' ∷ c ∷ s) ≡ scan_open passed (passed ++ b'{' ∷ []) [] (c ∷ s)
unfolding scan is_alpha
scan-brace passed c s = refl

scan-tag_with_format :
    (passed : Bytes) (a : ℕ) (s : Bytes) (d : ℕ) (format text : Bytes)
    → AllBytes IsLetter (a ∷ s)
    → AllBytes IsInside (d ∷ format)
    → scan [] passed ((a ∷ s) ++ (b'{' ∷ ((d ∷ format) ++ b'}' ∷ text)))
      ≡ record { type = passed ++ a ∷ s; format = d ∷ format; processing = false; rest = text }
scan-tag_with_format passed a [] d format text h i =
    scan-letter passed a b'{' ((d ∷ format) ++ b'}' ∷ text) h.0
    ∙ scan-brace (passed ++ a ∷ []) d (format ++ b'}' ∷ text)
    ∙ scan_open-closed (passed ++ a ∷ []) ((passed ++ a ∷ []) ++ b'{' ∷ []) [] (d ∷ format) text i
scan-tag_with_format passed a (b ∷ s) d format text h i =
    scan-letter passed a b (s ++ (b'{' ∷ ((d ∷ format) ++ b'}' ∷ text))) h.0
    ∙ scan-tag_with_format (passed ++ a ∷ []) b s d format text h.1 i
    ∙ ap (λ t. record { type = t; format = d ∷ format; processing = false; rest = text })
        (append_assoc passed (a ∷ []) (b ∷ s))

IsPlain-is_raw : (c : ℕ) (s : Bytes) → IsPlain c → is_raw c s ≡ true
IsPlain-is_raw c [] h = ground (arith, h)
IsPlain-is_raw c (d ∷ s) h = ground (arith, h)

-- Raw characters are kept until a field starts.
parse_loop-raw :
    (fuel n : ℕ) (s text raw_str : Bytes) (fields : List RawField)
    → AllBytes IsPlain s
    → fuel ≡ length s + n
    → parse_loop fuel raw_str fields (s ++ text) ≡ parse_loop n (raw_str ++ s) fields text
unfolding parse_loop
parse_loop-raw fuel n [] text raw_str fields h e =
    let same : fuel ≡ n = omega (arith, e) in rw (append-nil raw_str, same) refl
parse_loop-raw zero n (c ∷ s) text raw_str fields h e = absurd (omega (arith, e))
parse_loop-raw (suc fuel) n (c ∷ s) text raw_str fields h e =
    if_true _ _ _ (IsPlain-is_raw c (s ++ text) h.0)
    ∙ parse_loop-raw fuel n s text (raw_str ++ c ∷ []) fields h.1 (omega (arith, e))
    ∙ ap (λ r. parse_loop n r fields text) (append_assoc raw_str (c ∷ []) s)

parse_loop-end :
    (fuel : ℕ) (raw_str : Bytes) (fields : List RawField)
    → parse_loop (suc fuel) raw_str fields [] ≡ ok ((fields ++ flushed raw_str) ++ [])
unfolding parse_loop
parse_loop-end fuel raw_str fields = ap ok (sym (append-nil (fields ++ flushed raw_str)))

-- A percent sign before a letter starts a field.
parse_loop-field :
    (fuel a : ℕ) (s raw_str : Bytes) (fields : List RawField) (type form text : Bytes)
    → IsLetter a
    → scan [] [] (a ∷ s) ≡ record { type = type; format = form; processing = false; rest = text }
    → parse_loop (suc fuel) raw_str fields (b'%' ∷ a ∷ s)
      ≡ parse_loop fuel [] ((fields ++ flushed raw_str) ++ tagged type form ∷ []) text
unfolding parse_loop is_alpha
parse_loop-field fuel a s raw_str fields type form text h e =
    if_false _ _ (is_raw b'%' (a ∷ s)) (ground (arith, h))
    ∙ if_false _ _ _ (ap (λ r. r.processing) e)
    ∙ ap
        (λ r.
          parse_loop fuel [] ((fields ++ flushed raw_str) ++ tagged r.type r.format ∷ []) r.rest)
        e

-- A raw string that is not flushed yet ends at the text's start.
abbrev pub IsFlushable : Bytes → Bytes → Type 0
IsFlushable raw_str text = (raw_str ≡ []) ⊎ IsFieldStart text

-- The field that has been pushed, and those behind it.
behind :
    (fields : List RawField) (f : RawField) (new : List RawField)
    → ok (((fields ++ f ∷ []) ++ []) ++ new) ≡ ok (fields ++ f ∷ new)
behind fields f new =
    ap (λ l. ok (l ++ new)) (append-nil (fields ++ f ∷ []))
    ∙ ap ok (append_assoc fields (f ∷ []) new)

parse_loop-Writes :
    {new : List RawField} {text : Bytes} (fuel : ℕ) (raw_str : Bytes) (fields : List RawField)
    → Writes new text
    → IsFlushable raw_str text
    → length text < fuel
    → parse_loop fuel raw_str fields text ≡ ok ((fields ++ flushed raw_str) ++ new)
parse_loop-Writes zero raw_str fields w f h = absurd (omega (arith, h))
parse_loop-Writes (suc fuel) raw_str fields nothing f h = parse_loop-end fuel raw_str fields
parse_loop-Writes (suc fuel) raw_str fields (plain {fields = new} {text} c s p start w) (inl e) h =
    let n = suc fuel - length (c ∷ s) in
    let enough = length-append (c ∷ s) text in
    rw (e, append-nil fields)
      (parse_loop-raw (suc fuel) n (c ∷ s) text [] fields p (omega (arith, h, enough))
        ∙ parse_loop-Writes n (c ∷ s) fields w (inr start) (omega (arith, h, enough))
        ∙ ap ok (append_assoc fields (raw (c ∷ s) ∷ []) new))
parse_loop-Writes (suc fuel) raw_str fields (plain {text} c s p start w) (inr f) h =
    absurd (cc (sym f ∙ IsPlain-is_raw c (s ++ text) p.0))
parse_loop-Writes (suc fuel) raw_str fields (tag {fields = new} {text} a s p stop w) f h =
    parse_loop-field fuel a (s ++ text) raw_str fields (a ∷ s) [] text p.0
      (scan-tag [] a s text p stop)
    ∙ parse_loop-Writes fuel [] ((fields ++ flushed raw_str) ++ tagged (a ∷ s) [] ∷ []) w (inl refl)
        (omega (arith, h, length-append (a ∷ s) text))
    ∙ behind (fields ++ flushed raw_str) (tagged (a ∷ s) []) new
parse_loop-Writes (suc fuel) raw_str fields (tag_with_format {fields = new} {text} a s d form p i w)
      f h =
    let closed = b'{' ∷ ((d ∷ form) ++ b'}' ∷ text) in
    parse_loop-field fuel a (s ++ closed) raw_str fields (a ∷ s) (d ∷ form) text p.0
      (scan-tag_with_format [] a s d form text p i)
    ∙ parse_loop-Writes fuel [] ((fields ++ flushed raw_str) ++ tagged (a ∷ s) (d ∷ form) ∷ []) w
        (inl refl)
        (omega (arith, h, length-append (a ∷ s) closed, length-append (d ∷ form) (b'}' ∷ text)))
    ∙ behind (fields ++ flushed raw_str) (tagged (a ∷ s) (d ∷ form)) new

-- `ParsePattern` gives back the fields that a pattern is written from: raw strings without a percent
-- sign, each until the end or a field that starts there, and tags of letters that a format in braces or
-- a character other than a letter or a brace follows, if anything.
pub parse_pattern-Writes :
    {fields : List RawField} {text : Bytes} → Writes fields text → parse_pattern text ≡ ok fields
unfolding parse_pattern
parse_pattern-Writes {text} w = parse_loop-Writes (length text + 1) [] [] w (inl refl) (omega arith)
