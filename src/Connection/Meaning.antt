-- ===== src/Connection/Meaning.antt =====
-- What a request asks for, read off its path, version, headers and form without the parser's result: the
-- file, whether the connection is kept, and the parameters of the index page.
use echo_web_server.Prelude.{
  ◌≡◌, ◌≢◌, refl, ap, ◌∙◌, Bool, true, false, ◌&&◌, [], ◌∷◌, none, some, inl, inr, arith, ◌==◌,
  length, if_false, Option-cases,
}
use echo_web_server.Run.{Bytes, codes}
use echo_web_server.Http.{Parameters, equal, lookup, emplace, c_str}
use echo_web_server.Http.Tables.{equal_ne}
use echo_web_server.Request.{Request, post_of, keep_alive, or_empty}
use echo_web_server.Connection.{index_page, target_of, extract_user_message, index_params}

-- The connection is kept for a request of HTTP 1.1 with `Connection: keep-alive`, and for no other.
pub data AsksToStay (version : Bytes) (hs : Parameters) : Bool → Type 0 where
  stays :
      version ≡ codes "1.1"
      → lookup (codes "Connection") hs ≡ some (codes "keep-alive")
      → AsksToStay version hs true
  other_version : version ≢ codes "1.1" → AsksToStay version hs false
  other_connection :
      lookup (codes "Connection") hs ≢ some (codes "keep-alive") → AsksToStay version hs false

and_false : (b : Bool) → (b && false) ≡ false
and_false true = refl
and_false false = refl

pub keep_alive-AsksToStay :
    (r : Request) {kept : Bool} → AsksToStay r.version r.headers kept → keep_alive r ≡ kept
unfolding keep_alive
keep_alive-AsksToStay r (stays v c) = rw (c, v, keep_alive) refl
keep_alive-AsksToStay r (other_version v) =
    elim (Option-cases (lookup (codes "Connection") r.headers)) [
      | inl e ↦ rw (e, keep_alive) refl
      | inr (conn, e) ↦ rw (e, equal_ne v, keep_alive) refl
    ]
keep_alive-AsksToStay r (other_connection c) =
    elim (Option-cases (lookup (codes "Connection") r.headers)) [
      | inl e ↦ rw (e, keep_alive) refl
      | inr (conn, e) ↦
          let other : conn ≢ codes "keep-alive" = λ same. c (e ∙ ap some same) in
          rw (e, equal_ne other, keep_alive) (and_false (equal r.version (codes "1.1")))
    ]

-- The paths of the index page; any other path names itself.
pub data IsIndex (path : Bytes) : Type 0 where
  no_path : path ≡ [] → IsIndex path
  root : path ≡ codes "/" → IsIndex path
  index : path ≡ codes "/index.html" → IsIndex path

pub target_of-index : (r : Request) → IsIndex r.path → equal (target_of r) index_page ≡ true
unfolding equal
target_of-index r (no_path e) = rw e refl
target_of-index r (root e) = rw e refl
target_of-index r (index e) = rw e refl

named : (path : Bytes) → path ≢ [] → (length path == 0) ≡ false
named path h = ground arith

pub target_of-other : (r : Request) → (IsIndex r.path → ⊥) → target_of r ≡ r.path
target_of-other r h =
    if_false _ _ (length r.path == 0) (named r.path λ e. h (no_path e))
    ∙ if_false _ _ (equal r.path (codes "/")) (equal_ne λ e. h (root e))

-- The parameters of the index page: the message of a user who is named, or that there is none to show.
pub data Shows (posts : Parameters) : Parameters → Type 0 where
  nobody : lookup (codes "user") posts ≡ none → Shows posts ((codes "hide-msg", codes "true") ∷ [])
  unnamed :
      lookup (codes "user") posts ≡ some [] → Shows posts ((codes "hide-msg", codes "true") ∷ [])
  says :
      {user msg : Bytes}
      → lookup (codes "user") posts ≡ some user
      → user ≢ []
      → lookup (codes "msg") posts ≡ some msg
      → Shows posts (
          (codes "user", c_str user)
          ∷ (codes "msg", c_str msg)
          ∷ (codes "hide-msg", codes "false")
          ∷ [])
  says_nothing :
      {user : Bytes}
      → lookup (codes "user") posts ≡ some user
      → user ≢ []
      → lookup (codes "msg") posts ≡ none
      → Shows posts
          ((codes "user", c_str user) ∷ (codes "msg", []) ∷ (codes "hide-msg", codes "false") ∷ [])

module _ (r : Request) where
  hidden :
      or_empty (post_of (codes "user") r) ≡ []
      → index_params r ≡ (codes "hide-msg", codes "true") ∷ []
  unfolding index_params extract_user_message emplace lookup
  hidden e = rw (e, index_params) refl

  shown :
      {user msg : Bytes}
      → or_empty (post_of (codes "user") r) ≡ user
      → user ≢ []
      → or_empty (post_of (codes "msg") r) ≡ msg
      → index_params r
        ≡ (codes "user", c_str user)
          ∷ (codes "msg", c_str msg)
          ∷ (codes "hide-msg", codes "false")
          ∷ []
  unfolding index_params extract_user_message emplace lookup equal
  shown {user} {msg} e given f = rw (e, f, named user given, index_params) refl

  pub index_params-Shows : {params : Parameters} → Shows r.posts params → index_params r ≡ params
  unfolding post_of
  index_params-Shows (nobody e) = hidden (ap or_empty e)
  index_params-Shows (unnamed e) = hidden (ap or_empty e)
  index_params-Shows (says e given f) = shown (ap or_empty e) given (ap or_empty f)
  index_params-Shows (says_nothing e given f) = shown (ap or_empty e) given (ap or_empty f)
