-- ===== src/WebServer/Timeouts.antt =====
-- The clients that `ToNextTick` closes.
use echo_web_server.Prelude.{
  ℕ, ◌-◌, ◌≤◌, ◌<◌, ◌≡◌, refl, sym, ap, ◌∙◌, Bool, true, ◌⊎◌, inl, inr, none, some, arith, ◌==◌,
  Bool-cases, Option-cases, if◌then◌else◌, present,
}
use echo_web_server.Run.{
  Run, ok, throw, fault, out_of_fuel, Yields, yields, Yields-bind, Yields-value, Yields-at,
}
use echo_web_server.HeapTimer.{Node, HeapTimer, erase_key, remove}
use echo_web_server.HeapTimer.Index.{find, find-some-length}
use echo_web_server.HeapTimer.Order.{IsValid}
use echo_web_server.HeapTimer.Remove.{remove_behaviour, remove-no_growth}
use echo_web_server.HeapTimer.Tick.{Clocked}
use echo_web_server.HeapTimer.Expiry.{IsTame, IsMonotone}
use echo_web_server.HeapTimer.Keeping.{Keeping, Kept, to_next_tick-Kept}
use echo_web_server.Epoller.{Kernel, delete, delete_file_descriptor}
use echo_web_server.Epoller.Interest.{watched, set_file_descriptor-Controls, delete-known}
use echo_web_server.WebServer.{
  World, Server, is_listener, conn, close_client, time_out, callbacks, tick_clients,
}
use echo_web_server.WebServer.InSync.{InSync, present-some, present-none}

-- `r` is the world `w` without some of its clients.
pub record Trimmed {K : Kernel} (w r : World K) : Type 0 where
  pub users : (j : ℕ) → (r.users j ≡ w.users j) ⊎ (r.users j ≡ none)
  pub others : r ≡ record w { users = r.users; epoller = r.epoller }

module _ {K : Kernel} (w : World K) {t : HeapTimer} (s : InSync w t) where
  -- What `CloseClient` leaves of the server.
  abbrev closed : ℕ → World K
  closed k = record w {
    epoller = (delete_file_descriptor K k w.epoller).1;
    users = erase_key k w.users;
  }

  watched-closed :
      (k h j : ℕ)
      → w.users k ≡ some h
      → watched (closed k).epoller j ≡ (if k == j then none else watched w.epoller j)
  unfolding delete_file_descriptor
  watched-closed k h j user =
      let seen : present (watched w.epoller k) ≡ true = ground (arith, s.watches k) in
      let (old, e) = present-some (watched w.epoller k) seen in
      (set_file_descriptor-Controls k 0 w.epoller s.is_open delete).changed
        (delete-known k 0 w.epoller s.is_open old e) j

  closed-InSync :
      (k h : ℕ) {r : HeapTimer}
      → w.users k ≡ some h
      → IsValid r
      → ((j : ℕ) → find j r ≡ (if k == j then none else find j t))
      → InSync (closed k) r
  unfolding delete_file_descriptor
  closed-InSync k h user v left = record {
    valid = v;
    epoll_fd = s.epoll_fd;
    is_open =
        (set_file_descriptor-Controls k 0 w.epoller s.is_open delete).same_epoll_fd ∙ s.is_open;
    timed = λ j. ground (arith, left j, s.timed j);
    callable = λ j node e. s.callable j node (ground (arith, left j));
    watches = λ j. ground (arith, watched-closed k h j user, s.watches j, s.apart k, s.apart j);
    apart = λ j e. ground (arith, s.apart j);
  }

Trimmed-closed :
    {K : Kernel} {w r : World K} {t : HeapTimer} (s : InSync r t) (k : ℕ)
    → Trimmed w r
    → Trimmed w (closed r s k)
Trimmed-closed {K} {r = r} s k x = record {
  users = λ j. elim (Bool-cases (k == j)) [ inl e ↦ inr (rw e refl) | inr e ↦ rw e (x.users j) ];
  others =
      ap
        (λ (v : World K). record v {
          users = (closed r s k).users;
          epoller = (closed r s k).epoller;
        })
        x.others;
}

-- The state around the timer while `Tick` runs: the program goes on, and is in sync.
abbrev IsTrimming : {K : Kernel} → World K → Run (World K) → HeapTimer → Type 0
IsTrimming {K} w m t = (r : World K) × (m ≡ ok r) × InSync r t × Trimmed w r

module _ {K : Kernel} where
  -- `CloseClient` on a client whose node has left the timer.
  time_out-ok :
      (w : World K) {t : HeapTimer} (t' : HeapTimer) (k h : ℕ) (s : InSync w t)
      → w.users k ≡ some h
      → IsValid t'
      → ((j : ℕ) → find j t' ≡ (if k == j then none else find j t))
      → Yields (λ r. (r.0 ≡ closed w s k) × InSync r.0 r.1) (time_out K k (w, t'))
  unfolding time_out close_client conn
  time_out-ok w t' k h s user v left = rw user (
      Yields-bind (remove_behaviour k v)
        λ r x. yields (refl, closed-InSync w s k h user x.1 (λ j. ground (arith, x.2 j, left j))))

  callbacks-Keeping : (now : ℕ → ℕ) (w : World K) → Keeping (callbacks K) now (IsTrimming w)
  unfolding callbacks
  callbacks-Keeping now w m t t' node (r, e, s, x) v here left =
      let (h, user) = present-some (r.users node.key) (sym (s.timed node.key) ∙ ap present here) in
      let (q, f, (same, sync)) = Yields-value (time_out-ok r t' node.key h s user v left) in
      rw e (rw f (q.0, refl, sync, rw same (Trimmed-closed s node.key x)))

  -- A callback leaves the timer alone or removes the node of its key.
  callbacks-timer :
      (c k : ℕ) (m : Run (World K)) (t : HeapTimer)
      → IsValid t
      → ((callbacks K c k (m, t)).1 ≡ t)
        ⊎ ((r : Bool × HeapTimer) × (remove k t ≡ ok r) × ((callbacks K c k (m, t)).1 ≡ r.1))
  unfolding callbacks time_out close_client conn
  callbacks-timer c k (throw x) t v = inl refl
  callbacks-timer c k fault t v = inl refl
  callbacks-timer c k out_of_fuel t v = inl refl
  callbacks-timer c k (ok w) t v = elim (Option-cases (w.users k)) [
    | inl e ↦ rw e (inl refl)
    | inr (h, e) ↦
        let (r, f, x) = Yields-value (remove_behaviour k v) in rw e (rw f (inr (r, refl, refl)))
  ]

  callbacks-IsTame : IsTame (Run (World K)) (callbacks K)
  callbacks-IsTame = record {
    valid = λ c k m t v. elim (callbacks-timer c k m t v) [
      | inl e ↦ rw e v
      | inr (r, e, f) ↦ rw f (Yields-at (remove_behaviour k v) e).1
    ];
    no_growth = λ c k m t v. elim (callbacks-timer c k m t v) [
      | inl e ↦ rw e (omega arith)
      | inr (r, e, f) ↦ rw f (Yields-at (remove-no_growth k v) e)
    ];
    others = λ c k m t j v gone. elim (callbacks-timer c k m t v) [
      | inl e ↦ rw e refl
      | inr (r, e, f) ↦
          let left = (Yields-at (remove_behaviour k v) e).2 j in rw f (ground (arith, left))
    ];
  }

  -- From `s` to `r` exactly the clients have gone that a reading of the clock finds expired.
  pub record Closes (now : ℕ → ℕ) (s r : Server K) : Type 0 where
    pub sync : InSync r.world r.timer
    pub others : r.world ≡ record s.world { users = r.world.users; epoller = r.world.epoller }
    pub last : ℕ
    pub no_new : (j : ℕ) → s.world.users j ≡ none → r.world.users j ≡ none
    pub each :
        (j : ℕ) (node : Node)
        → find j s.timer ≡ some node
        → ((s.readings ≤ last)
            × (now last < node.expiration)
            × (r.world.users j ≡ s.world.users j)
            × (find j r.timer ≡ some node))
          ⊎ ((node.expiration ≤ now last)
              × (r.world.users j ≡ none)
              × (watched r.world.epoller j ≡ none)
              × (find j r.timer ≡ none))

  Kept-Closes :
      (now : ℕ → ℕ) (s : Server K) {d : ℕ} {m : Clocked (Run (World K))} (w : World K)
      → InSync s.world s.timer
      → Kept
          (callbacks K)
          now
          (IsTrimming s.world)
          (record { world = ok s.world; timer = s.timer; readings = s.readings })
          d
          m
      → InSync w m.timer
      → Trimmed s.world w
      → Closes now s (record { world = w; timer = m.timer; readings = m.readings })
  Kept-Closes now s {m = m} w v k sync x = record {
    sync = sync;
    others = x.others;
    last = k.swept_at.readings - 1;
    no_new = λ j e. elim (x.users j) [ inl f ↦ f ∙ e | inr f ↦ f ];
    each = λ j node e.
        let same : is_listener w j ≡ is_listener s.world j =
          ap (λ (u : World K). is_listener u j) x.others in
        let known : present (s.world.users j) ≡ true = sym (v.timed j) ∙ ap present e in
        elim (k.swept.each j node e) [
          | inl (f, later) ↦
              let here : find j m.timer ≡ some node = ap (find j) k.same_timer ∙ f in
              let stays : present (w.users j) ≡ true = sym (sync.timed j) ∙ ap present here in
              let left_over = find-some-length j k.swept_at.timer node k.swept.valid.indexed f in
              inl (
                omega (arith, k.swept.looked left_over),
                later,
                elim (x.users j) [ inl g ↦ g | inr g ↦ absurd (ground (arith, stays, g)) ],
                here,
              )
          | inr (f, due) ↦
              let gone : find j m.timer ≡ none = ap (find j) k.same_timer ∙ f in
              let left : w.users j ≡ none =
                present-none (w.users j) (sym (sync.timed j) ∙ ap present gone) in
              inr (
                due,
                left,
                present-none (watched w.epoller j)
                    (ground (arith, same, known, left, sync.watches j, v.apart j)),
                gone,
              )
        ];
  }

  -- `ToNextTick` in the server, in sync and with a clock that does not run backwards, does not end the
  -- program: it removes from the clients, the timer and the epoller exactly the clients whose time is
  -- up, keeps the others and all else of the server as they were, and leaves it in sync.
  pub tick_clients-Closes :
      (now : ℕ → ℕ) (s : Server K)
      → IsMonotone now
      → InSync s.world s.timer
      → Yields (λ r. Closes now s r.1) (tick_clients K now s)
  unfolding tick_clients
  tick_clients-Closes now s mono v =
      Yields-bind
        (to_next_tick-Kept (callbacks K) now (IsTrimming s.world)
          (record { world = ok s.world; timer = s.timer; readings = s.readings }) callbacks-IsTame
          (callbacks-Keeping now s.world) mono v.valid v.callable
          (s.world, refl, v, record { users = λ j. inl refl; others = refl }))
        λ m k. let (w, e, sync, x) = k.holds in rw e (yields (Kept-Closes now s w v k sync x))
