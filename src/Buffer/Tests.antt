-- ===== src/Buffer/Tests.antt =====
-- Tests of the buffer, and its theorems at concrete buffers.
use echo_web_server.Prelude.{◌≡◌, refl, [], ◌∷◌, some, arith, length, sub_size, add_size}
use echo_web_server.Run.{codes, ok, fault, Yields}
use echo_web_server.Buffer.{
  Buffer, crlf, max_size, of_size, writable_size, readable_size, peek, readable_bytes,
  readable_string, has_written, resize, make_space, ensure_writeable_size, append, append_string,
  append_buffer, of_bytes, retrieve_all, retrieve_all_to_string, move,
}
use echo_web_server.Buffer.Valid.{IsValid}
use echo_web_server.Buffer.Space.{HasRoom, IsMade, make_space-HasRoom}
use echo_web_server.Buffer.Queue.{
  append_call, retrieve_call, to_string_call, perform_all, queue_all, Agrees, perform_all-Agrees,
}
use echo_web_server.Buffer.Move.{append-move_source}

-- `..bc.`: two bytes are readable behind a prependable one, and one is writable.
abbrev two_bytes : Buffer
two_bytes = record { buf = codes "abc."; read_pos = 1; write_pos = 3 }

two_bytes-IsValid : IsValid two_bytes
two_bytes-IsValid = record { ordered = omega arith; inside = omega arith; bounded = omega arith }

test_sizes : (readable_size two_bytes ≡ 2) × (writable_size two_bytes ≡ 1)
unfolding readable_size writable_size sub_size add_size
test_sizes = (refl, refl)

test_peek : peek two_bytes ≡ some b'b'
unfolding peek sub_size add_size
test_peek = refl

test_readable_string : readable_string two_bytes ≡ codes "bc"
unfolding readable_string sub_size add_size
test_readable_string = refl

test_append_compacts :
    append (codes "de") two_bytes ≡ ok (record { buf = codes "bcde"; read_pos = 0; write_pos = 4 })
unfolding append sub_size add_size
test_append_compacts = refl

test_append_resizes :
    append (codes "defg") two_bytes
    ≡ ok (record { buf = codes "abcdefg"; read_pos = 1; write_pos = 7 })
unfolding append sub_size add_size
test_append_resizes = refl

test_append_string :
    append_string [] (some crlf) (of_size 2)
    ≡ ok (record { buf = 13 ∷ 10 ∷ []; read_pos = 0; write_pos = 2 })
unfolding append_string of_size sub_size add_size
test_append_string = refl

test_append_buffer :
    append_buffer two_bytes (of_size 2)
    ≡ ok (record { buf = codes "bc"; read_pos = 0; write_pos = 2 })
unfolding append_buffer of_size sub_size add_size
test_append_buffer = refl

test_of_bytes :
    of_bytes (codes "ab") ≡ ok (record { buf = codes "ab"; read_pos = 0; write_pos = 2 })
unfolding of_bytes sub_size add_size
test_of_bytes = refl

test_has_written : has_written 2 two_bytes ≡ fault
unfolding has_written sub_size add_size
test_has_written = refl

test_resize : resize 2 two_bytes ≡ ok (record { buf = codes "ab"; read_pos = 1; write_pos = 3 })
unfolding resize sub_size add_size
test_resize = refl

test_retrieve_all :
    retrieve_all two_bytes ≡ ok (2, record { buf = codes "abc."; read_pos = 0; write_pos = 0 })
unfolding retrieve_all sub_size add_size
test_retrieve_all = refl

test_to_string :
    retrieve_all_to_string two_bytes
    ≡ ok (codes "bc", record { buf = codes "abc."; read_pos = 0; write_pos = 0 })
unfolding retrieve_all_to_string sub_size add_size
test_to_string = refl

perform_all-Agrees_example :
    Agrees max_size
      (queue_all
        (append_call (codes "de") ∷ retrieve_call 3 ∷ to_string_call ∷ [])
        (readable_bytes two_bytes))
      (perform_all (append_call (codes "de") ∷ retrieve_call 3 ∷ to_string_call ∷ []) two_bytes)
perform_all-Agrees_example =
    perform_all-Agrees (append_call (codes "de") ∷ retrieve_call 3 ∷ to_string_call ∷ [])
      two_bytes-IsValid (omega arith)

make_space-HasRoom_example :
    Yields (λ r. HasRoom 2 two_bytes r × IsMade 2 two_bytes r) (make_space 2 two_bytes)
make_space-HasRoom_example =
    make_space-HasRoom 2 two_bytes-IsValid (unfold writable_size sub_size in omega arith)
      (omega arith)

append-move_source_example :
    (ensure_writeable_size (length (codes "de")) (move two_bytes).1 ≡ ok (move two_bytes).1)
    × (append (codes "de") (move two_bytes).1 ≡ fault)
append-move_source_example =
    append-move_source (codes "de") two_bytes-IsValid (omega arith) (cc) (omega arith)
