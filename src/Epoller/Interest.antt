-- ===== src/Epoller/Interest.antt =====
-- What the operations of the epoller do to its interest list.
use echo_web_server.Prelude.{
  ℕ, ◌≡◌, refl, inl, inr, none, some, Option, arith, ◌==◌, Option-cases, if◌then◌else◌,
}
use echo_web_server.Run.{Exception, system_error}
use echo_web_server.Epoller.{
  Control, modify, registration, no_entry, Kernel, Epoller, raised, set_file_descriptor,
  delete_file_descriptor, modify_file_descriptor,
}

-- The registration of a descriptor.
abbrev pub watched : {K : Kernel} → Epoller K → ℕ → Option ℕ
watched {K} p = K.interest p.kernel

-- The call that returns `r` succeeds and changes one registration, or throws and changes none.
pub record Controls {K : Kernel} (op : Control) (fd events : ℕ) (p : Epoller K)
    (r : Option Exception × Epoller K) : Type 0 where
  pub changed :
      r.0 ≡ none
      → (j : ℕ) → watched r.1 j ≡ (if fd == j then registration op events else watched p j)
  pub kept : (x : Exception) → r.0 ≡ some x → (j : ℕ) → watched r.1 j ≡ watched p j
  pub same_epoll_fd : r.1.epoll_fd ≡ p.epoll_fd
  pub same_events : r.1.events ≡ p.events

module _ {K : Kernel} (fd wanted : ℕ) (p : Epoller K) {e : ℕ} (o : p.epoll_fd ≡ some e) where
  pub set_file_descriptor-open :
      (op : Control)
      → set_file_descriptor K op fd wanted p ≡ (
        raised (K.epoll_ctl op fd wanted p.kernel).0,
        record p { kernel = (K.epoll_ctl op fd wanted p.kernel).1 },
      )
  unfolding set_file_descriptor
  set_file_descriptor-open op = ground (arith, o)

  -- On an open instance every control operation succeeds and changes one registration, or throws and
  -- changes none.
  pub set_file_descriptor-Controls :
      (op : Control) → Controls op fd wanted p (set_file_descriptor K op fd wanted p)
  set_file_descriptor-Controls op =
      rw (set_file_descriptor-open op) (elim (Option-cases (K.epoll_ctl op fd wanted p.kernel).0) [
        | inl f ↦ record {
          changed = λ _ j. K.done op fd wanted p.kernel f j;
          kept = λ x g j. absurd (ground (arith, f));
          same_epoll_fd = refl;
          same_events = refl;
        }
        | inr (errno, f) ↦ record {
          changed = λ g j. absurd (ground (arith, f));
          kept = λ x g j. K.refused op fd wanted errno p.kernel f j;
          same_epoll_fd = refl;
          same_events = refl;
        }
      ])

  pub modify-unknown :
      watched p fd ≡ none → (modify_file_descriptor K fd wanted p).0 ≡ some (system_error no_entry)
  unfolding modify_file_descriptor
  modify-unknown h = rw (set_file_descriptor-open modify) (rw (K.unknown fd wanted p.kernel h))

  pub delete-known : (old : ℕ) → watched p fd ≡ some old → (delete_file_descriptor K fd p).0 ≡ none
  unfolding delete_file_descriptor set_file_descriptor
  delete-known old h = rw (o, set_file_descriptor) (rw (K.deletable fd 0 old p.kernel h))
