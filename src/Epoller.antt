-- ===== src/Epoller.antt =====
-- include/containers/epoller.h and src/containers/epoller/epoller.cpp. The kernel's epoll instance is a
-- parameter, with what its manual says of the interest list; a file descriptor is a number that is not
-- negative, so the assertions on its validity hold.
pub mod Interest
pub mod Samples
mod Tests
use echo_web_server.Prelude.{
  ℕ, ◌/◌, ◌≡◌, Bool, List, ◌++◌, Option, none, some, ◌⊎◌, inl, inr, ltb, leb, ◌==◌, if◌then◌else◌,
  length, get_elem?, take, drop, replicate,
}
use echo_web_server.Run.{Exception, system_error, Run, ok, fault, ◌>>=◌, ◌>>◌, assert, or_fault}

pub data Control : Type 0 where
  add delete modify : Control

-- What a control operation leaves of a descriptor's registration.
abbrev pub registration : Control → ℕ → Option ℕ
registration add events = some events
registration delete events = none
registration modify events = some events

-- `ENOENT`, `EINTR` and `EBADF`
abbrev pub no_entry : ℕ
no_entry = 2

abbrev pub interrupted : ℕ
interrupted = 4

abbrev pub bad_descriptor : ℕ
bad_descriptor = 9

-- An epoll instance: its interest list, and `epoll_ctl` with the `errno` of a failure. A call that
-- succeeds changes one registration, one that fails changes none; what is not registered cannot be
-- modified, and what is registered can be deleted.
pub record Kernel : Type 1 where
  pub State : Type 0
  pub interest : State → ℕ → Option ℕ
  pub epoll_ctl : Control → ℕ → ℕ → State → Option ℕ × State
  pub done :
      (op : Control) (fd events : ℕ) (s : State)
      → (epoll_ctl op fd events s).0 ≡ none
      → (j : ℕ)
      → interest (epoll_ctl op fd events s).1 j
        ≡ (if fd == j then registration op events else interest s j)
  pub refused :
      (op : Control) (fd events errno : ℕ) (s : State)
      → (epoll_ctl op fd events s).0 ≡ some errno
      → (j : ℕ) → interest (epoll_ctl op fd events s).1 j ≡ interest s j
  pub unknown :
      (fd events : ℕ) (s : State)
      → interest s fd ≡ none
      → (epoll_ctl modify fd events s).0 ≡ some no_entry
  pub deletable :
      (fd events old : ℕ) (s : State)
      → interest s fd ≡ some old
      → (epoll_ctl delete fd events s).0 ≡ none

-- `epoll_event`: the events and the descriptor.
pub record Event : Type 0 where
  pub events : ℕ
  pub fd : ℕ

pub record Epoller (K : Kernel) : Type 0 where
  pub epoll_fd : Option ℕ
  pub kernel : K.State
  pub events : List Event

-- The greatest `int`.
abbrev pub int_max : ℕ
int_max = 2147483647

-- What `ThrowLastSystemError` throws after a failure.
abbrev pub raised : Option ℕ → Option Exception
raised none = none
raised (some errno) = some (system_error errno)

module _ (K : Kernel) where
  open K use {State, epoll_ctl}

  -- `Epoller(capacity)`, with the answer of `epoll_create1`.
  unfoldable pub of_capacity : ℕ → ℕ ⊎ ℕ → State → Run (Exception ⊎ Epoller K)
  of_capacity capacity answer fresh = do
    assert (ltb 0 capacity)
    ok (elim answer [
      | inl errno ↦ inl (system_error errno)
      | inr fd ↦ inr (record {
        epoll_fd = some fd;
        kernel = fresh;
        events = replicate capacity (record { events = 0; fd = 0 });
      })
    ])

  unfoldable pub close : Epoller K → Epoller K
  close p = record p { epoll_fd = none }

  unfoldable pub valid_index : ℕ → Epoller K → Bool
  valid_index idx p = ltb idx (length p.events)

  unfoldable pub events : ℕ → Epoller K → Run ℕ
  unfolding valid_index
  events idx p = do assert (valid_index idx p); e ← or_fault (get_elem? p.events idx); ok e.events

  unfoldable pub file_descriptor : ℕ → Epoller K → Run ℕ
  unfolding valid_index
  file_descriptor idx p = do
    assert (valid_index idx p)
    e ← or_fault (get_elem? p.events idx)
    ok e.fd

  -- `SetFileDescriptor`, with the exception that it throws; a closed instance has no valid descriptor. A
  -- descriptor is a natural number, and there are events for each operation, so its assertions hold; which
  -- code an operation has, and `event.data.fd`, are the kernel's.
  unfoldable pub set_file_descriptor : Control → ℕ → ℕ → Epoller K → Option Exception × Epoller K
  set_file_descriptor ctl fd wanted p =
      let r = epoll_ctl ctl fd wanted p.kernel in
      elim p.epoll_fd [
        | none ↦ (some (system_error bad_descriptor), p)
        | some _ ↦ (raised r.0, record p { kernel = r.1 })
      ]

  unfoldable pub add_file_descriptor : ℕ → ℕ → Epoller K → Option Exception × Epoller K
  unfolding set_file_descriptor
  add_file_descriptor fd wanted p = set_file_descriptor add fd wanted p

  unfoldable pub delete_file_descriptor : ℕ → Epoller K → Option Exception × Epoller K
  unfolding set_file_descriptor
  delete_file_descriptor fd p = set_file_descriptor delete fd 0 p

  unfoldable pub modify_file_descriptor : ℕ → ℕ → Epoller K → Option Exception × Epoller K
  unfolding set_file_descriptor
  modify_file_descriptor fd wanted p = set_file_descriptor modify fd wanted p

  -- What is made of the answer of `epoll_wait`.
  abbrev pub waited : ℕ ⊎ List Event → Epoller K → (Exception ⊎ ℕ) × Epoller K
  waited (inl errno) p = (if errno == interrupted then inr 0 else inl (system_error errno), p)
  waited (inr ready) p =
      let filled = take (length p.events) ready in
      (inr (length filled), record p { events = filled ++ drop (length filled) p.events })

  -- `Wait`, with the answer of `epoll_wait`: an `errno`, or the events that are ready, as many as fit at
  -- most. The time is in nanoseconds.
  unfoldable pub wait : ℕ ⊎ List Event → ℕ → Epoller K → Run ((Exception ⊎ ℕ) × Epoller K)
  wait answer time_out p = do
    assert (leb (length p.events) int_max)
    assert (leb (time_out / 1000000) int_max)
    ok (waited answer p)
