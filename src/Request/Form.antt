-- ===== src/Request/Form.antt =====
-- `ParseURLEncodedPost`: forms that come back as they were sent, and values that do not.
use echo_web_server.Prelude.{
  ℕ, ◌≡◌, ◌≢◌, refl, sym, ap, ◌∙◌, true, false, [], ◌∷◌, ◌++◌, none, some, arith, append-nil,
  append_assoc, ◌==◌, length,
}
use echo_web_server.Run.{Bytes}
use echo_web_server.Text.Lines.{All}
use echo_web_server.Http.{Parameters, lookup, emplace}
use echo_web_server.Http.Encoding.{Encodes, decode-Encodes}
use echo_web_server.Request.{
  Request, FormLoop, form_step, form_loop, parse_url_encoded_post, invalid_post,
}

-- No character that the loop treats in its own way.
abbrev pub IsPlain : Bytes → Type 0
IsPlain = All (λ c. (c ≢ b'=') × (c ≢ b'+') × (c ≢ b'&'))

-- The text of a key or a value: each byte as it stands, a space also as a plus sign.
pub data IsField : Bytes → Bytes → Type 0 where
  ends : IsField [] []
  byte :
      {t s : Bytes} (c : ℕ) → c ≢ b'=' → c ≢ b'+' → c ≢ b'&' → IsField t s → IsField (c ∷ t) (c ∷ s)
  space : {t s : Bytes} → IsField t s → IsField (b'+' ∷ t) (b' ' ∷ s)

-- A form, `k=v&k=v`, before the URL encoding, and the pairs that it adds to others: no key is empty, the
-- first value of a key counts, and the last pair has a new key and a value that is not empty.
pub data IsForm : Parameters → Bytes → Parameters → Type 0 where
  last_pair :
      {m : Parameters} {kt vt k v : Bytes}
      → IsField kt k
      → IsField vt v
      → k ≢ []
      → lookup k m ≡ none
      → v ≢ []
      → IsForm m (kt ++ (b'=' ∷ vt)) (m ++ (k, v) ∷ [])
  new_pair :
      {m posts : Parameters} {kt vt text k v : Bytes}
      → IsField kt k
      → IsField vt v
      → k ≢ []
      → lookup k m ≡ none
      → IsForm (m ++ (k, v) ∷ []) text posts
      → IsForm m (kt ++ (b'=' ∷ (vt ++ (b'&' ∷ text)))) posts
  repeated_key :
      {m posts : Parameters} {kt vt text k v old : Bytes}
      → IsField kt k
      → IsField vt v
      → k ≢ []
      → lookup k m ≡ some old
      → IsForm m text posts
      → IsForm m (kt ++ (b'=' ∷ (vt ++ (b'&' ∷ text)))) posts

form_step-plain :
    (c : ℕ) (f : FormLoop)
    → c ≢ b'='
    → c ≢ b'+'
    → c ≢ b'&'
    → form_step c f ≡ some (record f { segment = f.segment ++ c ∷ [] })
unfolding form_step
form_step-plain c f e p a = ground arith

form_loop-plain :
    (s rest : Bytes) (f : FormLoop)
    → IsPlain s
    → form_loop (s ++ rest) f ≡ form_loop rest (record f { segment = f.segment ++ s })
unfolding form_loop
form_loop-plain [] rest f h = rw append-nil
form_loop-plain (c ∷ s) rest f (h, hs) =
    rw (form_step-plain c f h.0 h.1 h.2, form_loop)
      (form_loop-plain s rest (record f { segment = f.segment ++ c ∷ [] }) hs ∙ rw append_assoc)

abbrev fresh : Parameters → FormLoop
fresh m = record { posts = m; key = []; segment = [] }

-- Behind `k=` the key is `k`.
form_loop-key :
    (k rest : Bytes) (m : Parameters)
    → IsPlain k
    → form_loop (k ++ (b'=' ∷ rest)) (fresh m)
      ≡ form_loop rest (record { posts = m; key = k; segment = [] })
unfolding form_loop form_step
form_loop-key k rest m h = form_loop-plain k (b'=' ∷ rest) (fresh m) h

emplace-new : (k v : Bytes) (m : Parameters) → lookup k m ≡ none → emplace k v m ≡ m ++ (k, v) ∷ []
unfolding emplace
emplace-new k v m e = rw (e, emplace)

not_empty : (s : Bytes) → s ≢ [] → (length s == 0) ≡ false
not_empty s h = ground arith

-- Behind `v&`, with a key, the pair is in the map.
form_loop-separator :
    (k v rest : Bytes) (m : Parameters)
    → IsPlain v
    → k ≢ []
    → lookup k m ≡ none
    → form_loop (v ++ (b'&' ∷ rest)) (record { posts = m; key = k; segment = [] })
      ≡ form_loop rest (fresh (m ++ (k, v) ∷ []))
unfolding form_loop form_step
form_loop-separator k v rest m h given new =
    form_loop-plain v (b'&' ∷ rest) (record { posts = m; key = k; segment = [] }) h
    ∙ rw (not_empty k given, form_loop) (rw (emplace-new k v m new))

form_loop-end :
    (s : Bytes) (f : FormLoop)
    → IsPlain s
    → form_loop s f ≡ form_loop [] (record f { segment = f.segment ++ s })
form_loop-end s f h = sym (ap (λ t. form_loop t f) (append-nil s)) ∙ form_loop-plain s [] f h

form_loop-save :
    (k v : Bytes) (m : Parameters)
    → k ≢ []
    → lookup k m ≡ none
    → v ≢ []
    → form_loop [] (record { posts = m; key = k; segment = v }) ≡ (true, m ++ (k, v) ∷ [])
unfolding form_loop
form_loop-save k v m given new last =
    rw (not_empty k given, new, not_empty v last) (rw (emplace-new k v m new))

form_loop-keyless : (s : Bytes) (m : Parameters) → IsPlain s → form_loop s (fresh m) ≡ (false, m)
unfolding form_loop
form_loop-keyless s m h = form_loop-end s (fresh m) h

inner_ne_nil : (a b : Bytes) (c : ℕ) → (a ++ c ∷ []) ++ b ≢ []
inner_ne_nil [] b c e = cc
inner_ne_nil (x ∷ a) b c e = cc

form_loop-spaced :
    (k before after : Bytes) (m : Parameters)
    → IsPlain before
    → IsPlain after
    → k ≢ []
    → lookup k m ≡ none
    → form_loop (before ++ (b'+' ∷ after)) (record { posts = m; key = k; segment = [] })
      ≡ (true, m ++ (k, before ++ (b' ' ∷ after)) ∷ [])
unfolding form_loop form_step
form_loop-spaced k before after m hb ha given new =
    form_loop-plain before (b'+' ∷ after) (record { posts = m; key = k; segment = [] }) hb
    ∙ form_loop-end after (record { posts = m; key = k; segment = before ++ b' ' ∷ [] }) ha
    ∙ form_loop-save k ((before ++ b' ' ∷ []) ++ after) m given new (inner_ne_nil before after b' ')
    ∙ rw append_assoc

form_loop-field :
    {t s : Bytes} (rest : Bytes) (f : FormLoop)
    → IsField t s
    → form_loop (t ++ rest) f ≡ form_loop rest (record f { segment = f.segment ++ s })
unfolding form_loop form_step
form_loop-field rest f ends = rw append-nil
form_loop-field rest f (byte {t} {s} c e p a h) =
    rw (form_step-plain c f e p a, form_loop)
      (form_loop-field rest (record f { segment = f.segment ++ c ∷ [] }) h ∙ rw append_assoc)
form_loop-field rest f (space {t} {s} h) =
    form_loop-field rest (record f { segment = f.segment ++ b' ' ∷ [] }) h ∙ rw append_assoc

emplace-old : (k v old : Bytes) (m : Parameters) → lookup k m ≡ some old → emplace k v m ≡ m
unfolding emplace
emplace-old k v old m e = rw (e, emplace)

-- Behind a key and its `=`.
form_loop-after_key :
    {kt k : Bytes} (rest : Bytes) (m : Parameters)
    → IsField kt k
    → form_loop (kt ++ (b'=' ∷ rest)) (fresh m)
      ≡ form_loop rest (record { posts = m; key = k; segment = [] })
unfolding form_loop form_step
form_loop-after_key rest m h = form_loop-field (b'=' ∷ rest) (fresh m) h

-- Behind a value and its `&`.
form_loop-after_value :
    {vt v : Bytes} (k rest : Bytes) (m : Parameters)
    → IsField vt v
    → k ≢ []
    → form_loop (vt ++ (b'&' ∷ rest)) (record { posts = m; key = k; segment = [] })
      ≡ form_loop rest (fresh (emplace k v m))
unfolding form_loop form_step
form_loop-after_value k rest m h given =
    form_loop-field (b'&' ∷ rest) (record { posts = m; key = k; segment = [] }) h
    ∙ rw (not_empty k given, form_loop) refl

form_loop-form :
    {m posts : Parameters} {text : Bytes}
    → IsForm m text posts
    → form_loop text (fresh m) ≡ (true, posts)
form_loop-form (last_pair {m} {kt} {vt} {k} {v} hk hv given new last) =
    form_loop-after_key vt m hk
    ∙ ap (λ t. form_loop t (record { posts = m; key = k; segment = [] })) (sym (append-nil vt))
    ∙ form_loop-field [] (record { posts = m; key = k; segment = [] }) hv
    ∙ form_loop-save k v m given new last
form_loop-form (new_pair {m} {vt = vt} {text} {k} {v} hk hv given new h) =
    form_loop-after_key (vt ++ (b'&' ∷ text)) m hk
    ∙ form_loop-after_value k text m hv given
    ∙ rw (emplace-new k v m new) (form_loop-form h)
form_loop-form (repeated_key {m} {vt = vt} {text} {k} {v} {old} hk hv given known h) =
    form_loop-after_key (vt ++ (b'&' ∷ text)) m hk
    ∙ form_loop-after_value k text m hv given
    ∙ rw (emplace-old k v old m known) (form_loop-form h)

-- A URL encoding of a form, whose spaces are written as they stand or as plus signs, is accepted and gives
-- the pairs of the form, in order.
pub parse_url_encoded_post-form :
    {e text : Bytes} (r : Request) (posts : Parameters)
    → r.posts ≡ []
    → IsForm [] text posts
    → Encodes e text
    → parse_url_encoded_post e r ≡ (none, record r { posts = posts })
unfolding parse_url_encoded_post
parse_url_encoded_post-form r posts start h enc =
    rw (decode-Encodes enc, parse_url_encoded_post) (rw start (rw (form_loop-form h)))

-- A form of one key, which is new, and a value that holds an ampersand, in any URL encoding: also where
-- the ampersand is encoded, the value is cut there, the key is given what stands before, and the form is
-- refused. Key and value hold no `=` and no `+`, the key and the two parts of the value no other `&`, and
-- the key is not empty.
pub ampersand_value-refused :
    {e : Bytes} (r : Request) (k before after : Bytes)
    → IsPlain k
    → IsPlain before
    → IsPlain after
    → k ≢ []
    → lookup k r.posts ≡ none
    → Encodes e (k ++ (b'=' ∷ (before ++ (b'&' ∷ after))))
    → parse_url_encoded_post e r
      ≡ (invalid_post e, record r { posts = r.posts ++ (k, before) ∷ [] })
unfolding parse_url_encoded_post
ampersand_value-refused r k before after hk hb ha given new enc =
    let run =
      form_loop-key k (before ++ (b'&' ∷ after)) r.posts hk
      ∙ form_loop-separator k before after r.posts hb given new
      ∙ form_loop-keyless after (r.posts ++ (k, before) ∷ []) ha in
    rw (decode-Encodes enc, parse_url_encoded_post) (rw run)

-- A value that holds a plus sign is stored with a space in its place, also where the plus sign was
-- encoded.
pub plus_value-spaced :
    {e : Bytes} (r : Request) (k before after : Bytes)
    → IsPlain k
    → IsPlain before
    → IsPlain after
    → k ≢ []
    → lookup k r.posts ≡ none
    → Encodes e (k ++ (b'=' ∷ (before ++ (b'+' ∷ after))))
    → parse_url_encoded_post e r
      ≡ (none, record r { posts = r.posts ++ (k, before ++ (b' ' ∷ after)) ∷ [] })
unfolding parse_url_encoded_post
plus_value-spaced r k before after hk hb ha given new enc =
    let run =
      form_loop-key k (before ++ (b'+' ∷ after)) r.posts hk
      ∙ form_loop-spaced k before after r.posts hb ha given new in
    rw (decode-Encodes enc, parse_url_encoded_post) (rw run)
