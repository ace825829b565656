-- ===== src/HeapTimer/Reentry.antt =====
-- `Invoke`, with callbacks that leave the timer alone and with callbacks that remove their own node.
use echo_web_server.Prelude.{
  ℕ, ◌<◌, ◌≡◌, ◌≢◌, sym, ◌∙◌, false, none, some, arith, length, get!, ◌==◌, ◌≤◌, le→not_ltb,
}
use echo_web_server.Run.{codes, out_of_range, throw, fault, Yields, yields, Yields-bind}
use echo_web_server.HeapTimer.{
  node_inhabited, HeapTimer, contain, remove_by_index, valid_index, size,
}
use echo_web_server.HeapTimer.Index.{key_at, find, find-key_at, read-ok, at-known, at-absent}
use echo_web_server.HeapTimer.Order.{IsValid}
use echo_web_server.HeapTimer.Remove.{Takes, remove_by_index-Takes}
use echo_web_server.HeapTimer.Tick.{Clocked, Callbacks, invoke}
use echo_web_server.HeapTimer.Expiry.{IsCallable}

contain-of_find : (k : ℕ) (t : HeapTimer) → find k t ≡ none → contain k t ≡ false
unfolding contain find
contain-of_find k t e = ground arith

remove_by_index-outside : (i : ℕ) (t : HeapTimer) → length t.nodes ≤ i → remove_by_index i t ≡ fault
unfolding remove_by_index valid_index size
remove_by_index-outside i t h = let off = le→not_ltb i (length t.nodes) h in rw off

module _ {W : Type 0} (call : Callbacks W) (now : ℕ → ℕ) (k : ℕ) (s : Clocked W)
    (v : IsValid s.timer) where
  -- `Invoke(k)` of a key that the timer does not hold throws `std::out_of_range`; of one that it holds,
  -- with a callback that leaves the timer alone, it removes the node of `k` and keeps every other.
  pub invoke_behaviour :
      IsCallable s.timer
      → ((c j : ℕ) → (call c j (s.world, s.timer)).1 ≡ s.timer)
      → (s.timer.key_to_idx k ≡ none
          → invoke call now k s ≡ throw (out_of_range (codes "_Map_base::at")))
        × ((i : ℕ)
            → s.timer.key_to_idx k ≡ some i
            → Yields (λ r. Takes k s.timer r.timer) (invoke call now k s))
  unfolding invoke
  invoke_behaviour callable still = (
    λ e. rw (at-absent k s.timer e),
    λ i e.
        let (hi, same) = v.indexed.found k i e in
        let node = get! s.timer.nodes i in
        let filled : (node.callback == 0) ≡ false =
          ground (arith, callable (key_at s.timer i) node (find-key_at s.timer i v.indexed hi)) in
        rw (at-known k s.timer e) (
          rw (read-ok i s.timer hi) (
            rw (filled, still)
              (Yields-bind (remove_by_index-Takes i v hi) λ r p.
                let taken : Takes k s.timer r.1 = rw same at p.1 in
                rw (contain-of_find k r.1 (ground (arith, taken.same k))) (yields taken)))),
  )

  abbrev timer_after : ℕ → HeapTimer
  timer_after i = (call (get! s.timer.nodes i).callback k (s.world, s.timer)).1

  -- With a callback that removes the node of `k` itself, as the server's does, `Invoke(k)` goes on with
  -- the position that it looked up before: it fails where the timer has become too short for that
  -- position, and else removes a node of another key that the callback had left in the timer.
  pub invoke-removes_another :
      (i : ℕ)
      → s.timer.key_to_idx k ≡ some i
      → (get! s.timer.nodes i).callback ≢ 0
      → IsValid (timer_after i)
      → find k (timer_after i) ≡ none
      → (length (timer_after i).nodes ≤ i → invoke call now k s ≡ fault)
        × (i < length (timer_after i).nodes
            → (key_at (timer_after i) i ≢ k)
              × (find (key_at (timer_after i) i) (timer_after i)
                  ≡ some (get! (timer_after i).nodes i))
              × Yields (λ r. find (key_at (timer_after i) i) r.timer ≡ none) (invoke call now k s))
  unfolding invoke
  invoke-removes_another i e set_up w gone =
      let hi = (v.indexed.found k i e).0 in
      let filled : ((get! s.timer.nodes i).callback == 0) ≡ false = ground arith in
      (
        λ short. rw (at-known k s.timer e) (
            rw (read-ok i s.timer hi)
              (rw filled (rw (remove_by_index-outside i (timer_after i) short)))),
        λ h.
            let present = find-key_at (timer_after i) i w.indexed h in
            (
              (λ same. cc (sym (rw same at present) ∙ gone)),
              present,
              rw (at-known k s.timer e) (
                  rw (read-ok i s.timer hi) (
                    rw filled (
                      Yields-bind (remove_by_index-Takes i w h) λ r p.
                        let still_gone : find k r.1 ≡ none = ground (arith, p.1.same k) in
                        rw (contain-of_find k r.1 still_gone)
                          (yields (ground (arith, p.1.same (key_at (timer_after i) i))))))),
            ),
      )
