-- ===== src/Epoller/Tests.antt =====
-- Tests of the epoller, and its theorem at a kernel.
use echo_web_server.Prelude.{◌≡◌, refl, [], ◌∷◌, inl, inr, none, some, ◌==◌, if◌then◌else◌}
use echo_web_server.Run.{system_error, ok, fault}
use echo_web_server.Epoller.{
  Epoller, of_capacity, close, events, file_descriptor, add_file_descriptor, delete_file_descriptor,
  modify_file_descriptor, wait,
}
use echo_web_server.Epoller.Samples.{plain_kernel}

abbrev watching_five : Epoller plain_kernel
watching_five = record {
  epoll_fd = some 4;
  kernel = λ j. if j == 5 then some 1 else none;
  events = record { events = 0; fd = 0 } ∷ record { events = 0; fd = 0 } ∷ [];
}

test_capacity : of_capacity plain_kernel 0 (inr 4) (λ _. none) ≡ fault
unfolding of_capacity
test_capacity = refl

test_not_created : of_capacity plain_kernel 1 (inl 24) (λ _. none) ≡ ok (inl (system_error 24))
unfolding of_capacity
test_not_created = refl

test_add_twice : (add_file_descriptor plain_kernel 5 1 watching_five).0 ≡ some (system_error 17)
unfolding add_file_descriptor
test_add_twice = refl

test_modify_unknown :
    (modify_file_descriptor plain_kernel 6 1 watching_five).0 ≡ some (system_error 2)
unfolding modify_file_descriptor
test_modify_unknown = refl

test_closed :
    (delete_file_descriptor plain_kernel 5 (close plain_kernel watching_five)).0
    ≡ some (system_error 9)
unfolding delete_file_descriptor close
test_closed = refl

-- One event of two places.
test_wait :
    wait plain_kernel (inr (record { events = 1; fd = 5 } ∷ [])) 3000000 watching_five
    ≡ ok (
      inr 1,
      record watching_five {
        events = record { events = 1; fd = 5 } ∷ record { events = 0; fd = 0 } ∷ [];
      },
    )
unfolding wait
test_wait = refl

test_wait_interrupted : wait plain_kernel (inl 4) 0 watching_five ≡ ok (inr 0, watching_five)
unfolding wait
test_wait_interrupted = refl

test_events :
    (events plain_kernel 1 watching_five ≡ ok 0)
    × (file_descriptor plain_kernel 2 watching_five ≡ fault)
unfolding events file_descriptor
test_events = (refl, refl)
