-- ===== src/WebServer/Workers.antt =====
-- `ReceiveFrom`, `SendTo` and `Process` of include/web_server.h, which the working threads run. Each
-- function stops where the thread leaves its own client for what it shares with the others.
use echo_web_server.Prelude.{ℕ, ◌+◌, List, Option, none, some, ◌⊎◌, inl, inr, if◌then◌else◌}
use echo_web_server.Run.{Bytes, Run, ok, fault, ◌>>=◌, or_fault}
use echo_web_server.Files.{FileSystem}
use echo_web_server.Connection.{receive, send, process}
use echo_web_server.Epoller.{Kernel, modify_file_descriptor}
use echo_web_server.WebServer.{
  Job, receiving, sending, registering, marking, Server, put_client, noexcept, epoll_in, epoll_out,
  connect_event_mode, mark_client_as_to_be_closed,
}

-- What `readv` and `write` answer to a working thread.
pub record Transfers : Type 0 where
  pub received : List (ℕ ⊎ Bytes)
  pub offered : List (ℕ ⊎ ℕ)

module _ (K : Kernel) (now : ℕ → ℕ) (fs : FileSystem) (root_dir : Bytes) where
  -- `Process(client)`, up to the registration.
  unfoldable pub process_client : ℕ → Server K → Run (Option Job × Server K)
  unfolding process
  process_client h s = do
    r ← noexcept (process fs root_dir (s.world.clients h))
    socket ← or_fault r.1.socket
    let event = if r.0 then epoll_out else epoll_in
    ok (some (registering socket (connect_event_mode + event)), put_client h r.1 s)

  -- `ReceiveFrom`, up to the processing or the marking.
  unfoldable pub receive_from_client : List (ℕ ⊎ Bytes) → ℕ → Server K → Run (Option Job × Server K)
  unfolding receive process_client
  receive_from_client answers h s = receive answers (s.world.clients h) >>= λ r. elim r.0 [
    | inl x ↦ ok (some (marking r.1.socket), put_client h r.1 s)
    | inr n ↦ process_client h (put_client h r.1 s)
  ]

  -- `SendTo`, up to the processing or the marking.
  unfoldable pub send_to_client : List (ℕ ⊎ ℕ) → ℕ → Server K → Run (Option Job × Server K)
  unfolding send process_client
  send_to_client answers h s = send answers (s.world.clients h) >>= λ r.
      let closing : Run (Option Job × Server K) =
        ok (some (marking r.1.socket), put_client h r.1 s) in
      elim r.0.outcome [
        | inl x ↦ closing
        | inr n ↦ if r.1.keep_alive then process_client h (put_client h r.1 s) else closing
      ]

  -- `epoller_.ModifyFileDescriptor` of `Process(client)`: where it throws, the handlers read the socket
  -- of a client that has been moved away, a null pointer.
  unfoldable pub register_client : ℕ → ℕ → Server K → Run (Option Job × Server K)
  unfolding modify_file_descriptor
  register_client socket wanted s =
      let r = modify_file_descriptor K socket wanted s.world.epoller in
      elim r.0 [
        | some x ↦ fault
        | none ↦ ok (none, record s { world = record s.world { epoller = r.1 } })
      ]

  -- One step of a working thread, with what it does next if its task has not ended.
  unfoldable pub work : Transfers → Job → Server K → Run (Option Job × Server K)
  unfolding receive_from_client send_to_client register_client mark_client_as_to_be_closed
  work a (receiving h) s = receive_from_client a.received h s
  work a (sending h) s = send_to_client a.offered h s
  work a (registering socket wanted) s = register_client socket wanted s
  work a (marking socket) s = mark_client_as_to_be_closed K now socket s >>= λ s'. ok (none, s')
