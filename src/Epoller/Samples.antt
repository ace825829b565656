-- ===== src/Epoller/Samples.antt =====
-- A kernel that does what the manual says, and fails only where it must.
use echo_web_server.Prelude.{ℕ, ◌≡◌, refl, Option, none, some, ◌==◌, if◌then◌else◌}
use echo_web_server.Epoller.{Control, add, delete, modify, registration, no_entry, Kernel}

-- `EEXIST`
abbrev exists : ℕ
exists = 17

abbrev pub Interests : Type 0
Interests = ℕ → Option ℕ

-- The answer for a registration, and the interest list behind it.
abbrev pub answered : Control → Option ℕ → Option ℕ
answered add none = none
answered add (some old) = some exists
answered delete none = some no_entry
answered delete (some old) = none
answered modify none = some no_entry
answered modify (some old) = none

abbrev pub behind : Option ℕ → Control → ℕ → ℕ → Interests → Interests
behind none op fd events s = λ j. if fd == j then registration op events else s j
behind (some errno) op fd events s = s

abbrev pub control : Control → ℕ → ℕ → Interests → Option ℕ × Interests
control op fd events s = (answered op (s fd), behind (answered op (s fd)) op fd events s)

pub control-done :
    (op : Control) (fd events : ℕ) (s : Interests)
    → (control op fd events s).0 ≡ none
    → (j : ℕ) → (control op fd events s).1 j ≡ (if fd == j then registration op events else s j)
control-done op fd events s e j = rw e refl

pub control-refused :
    (op : Control) (fd events errno : ℕ) (s : Interests)
    → (control op fd events s).0 ≡ some errno
    → (j : ℕ) → (control op fd events s).1 j ≡ s j
control-refused op fd events errno s e j = rw e refl

pub control-unknown :
    (fd events : ℕ) (s : Interests) → s fd ≡ none → (control modify fd events s).0 ≡ some no_entry
control-unknown fd events s e = rw e refl

pub control-deletable :
    (fd events old : ℕ) (s : Interests) → s fd ≡ some old → (control delete fd events s).0 ≡ none
control-deletable fd events old s e = rw e refl

abbrev pub plain_kernel : Kernel
plain_kernel = record {
  State = Interests;
  interest = λ s. s;
  epoll_ctl = control;
  done = control-done;
  refused = control-refused;
  unknown = control-unknown;
  deletable = control-deletable;
}
