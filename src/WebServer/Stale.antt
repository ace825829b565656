-- ===== src/WebServer/Stale.antt =====
-- Clients that time out while a working thread is busy with them.
use echo_web_server.Prelude.{ℕ, ◌≤◌, ◌≡◌, refl, inl, inr, none, some, arith}
use echo_web_server.Run.{Bytes, fault, Yields, Yields-weaken}
use echo_web_server.HeapTimer.{Node}
use echo_web_server.HeapTimer.Index.{find}
use echo_web_server.HeapTimer.Expiry.{IsMonotone}
use echo_web_server.Files.{FileSystem}
use echo_web_server.Epoller.{Kernel}
use echo_web_server.Epoller.Interest.{watched, modify-unknown}
use echo_web_server.WebServer.{Server, registering, marking, tick_clients}
use echo_web_server.WebServer.Workers.{Transfers, work, register_client}
use echo_web_server.WebServer.InSync.{InSync}
use echo_web_server.WebServer.Timeouts.{tick_clients-Closes}
use echo_web_server.WebServer.Clients.{mark_behaviour}

module _ {K : Kernel} (now : ℕ → ℕ) (fs : FileSystem) (root_dir : Bytes) where
  register_client-unknown :
      (fd wanted : ℕ) (s : Server K)
      → InSync s.world s.timer
      → watched s.world.epoller fd ≡ none
      → register_client K now fs root_dir fd wanted s ≡ fault
  unfolding register_client
  register_client-unknown fd wanted s v unseen =
      rw (modify-unknown fd wanted s.world.epoller v.is_open unseen, register_client) refl

  -- Where the time of a client is up while a working thread has still to register its events, or to
  -- mark it as to be closed, `ToNextTick` closes the client and the thread then ends the program.
  pub time_out-ends_program :
      (fd wanted : ℕ) (a : Transfers) (node : Node) (s : Server K)
      → IsMonotone now
      → InSync s.world s.timer
      → find fd s.timer ≡ some node
      → node.expiration ≤ now s.readings
      → Yields
          (λ r.
            (work K now fs root_dir a (registering fd wanted) r.1 ≡ fault)
            × (work K now fs root_dir a (marking (some fd)) r.1 ≡ fault))
          (tick_clients K now s)
  unfolding work
  time_out-ends_program fd wanted a node s mono v here due =
      Yields-weaken (tick_clients-Closes now s mono v) λ r c. elim (c.each fd node here) [
        | inl (recent, later, _, _) ↦
            let still = mono s.readings c.last recent in absurd (omega (arith, still, later))
        | inr (_, left, unseen, _) ↦ (
          register_client-unknown fd wanted r.1 c.sync unseen,
          rw ((mark_behaviour now fd r.1 c.sync).1 left) refl,
        )
      ]
