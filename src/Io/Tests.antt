-- ===== src/Io/Tests.antt =====
-- Tests of the readers and writers.
use echo_web_server.Prelude.{◌≡◌, refl, inr, sub_size, add_size}
use echo_web_server.Run.{codes, ok}
use echo_web_server.Buffer.{Buffer}
use echo_web_server.Io.{
  null_write_to, null_read_from, string_stream_write_to, string_stream_read_from,
  file_descriptor_write_to, file_descriptor_read_from,
}

abbrev two_bytes : Buffer
two_bytes = record { buf = codes "abc."; read_pos = 1; write_pos = 3 }

test_null_write_to : null_write_to two_bytes ≡ ok (inr 1, record two_bytes { write_pos = 4 })
unfolding null_write_to sub_size add_size
test_null_write_to = refl

test_null_read_from :
    null_read_from two_bytes ≡ ok (inr 2, record two_bytes { read_pos = 0; write_pos = 0 })
unfolding null_read_from sub_size
test_null_read_from = refl

test_string_stream_write_to :
    string_stream_write_to (codes " de f") two_bytes
    ≡ ok (codes " f", (inr 2, record { buf = codes "bcde"; read_pos = 0; write_pos = 4 }))
unfolding string_stream_write_to sub_size add_size
test_string_stream_write_to = refl

test_string_stream_read_from :
    string_stream_read_from (codes "a") two_bytes
    ≡ ok (codes "abc", (inr 2, record two_bytes { read_pos = 0; write_pos = 0 }))
unfolding string_stream_read_from sub_size
test_string_stream_read_from = refl

test_write_to :
    file_descriptor_write_to (inr (codes "de")) two_bytes
    ≡ ok (inr 2, record { buf = codes "bcde"; read_pos = 0; write_pos = 4 })
unfolding file_descriptor_write_to sub_size add_size
test_write_to = refl

test_read_from :
    file_descriptor_read_from (inr 1) two_bytes ≡ ok (inr 1, record two_bytes { read_pos = 2 })
unfolding file_descriptor_read_from sub_size add_size
test_read_from = refl
