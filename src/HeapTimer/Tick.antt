-- ===== src/HeapTimer/Tick.antt =====
-- `Tick`, `ToNextTick` and `Invoke` of include/containers/heap_timer.h.
-- What a callback does is a parameter: it takes the rest of the program's state and the timer, which
-- it may change, and an exception that it lets out is caught and logged, so it always returns. The
-- clock is the sequence of its readings.
use echo_web_server.Prelude.{ℕ, zero, suc, ◌+◌, ◌-◌, not, leb, ltb, ◌==◌, if◌then◌else◌, set}
use echo_web_server.Run.{Run, ok, out_of_fuel, ◌>>=◌, ◌>>◌, assert}
use echo_web_server.HeapTimer.{
  Node, HeapTimer, at, read, empty, size, contain, pop, remove_by_index, adjust, push,
}

-- A state of the program around the timer, the timer, and the number of clock readings so far.
pub record Clocked (W : Type 0) : Type 0 where
  pub world : W
  pub timer : HeapTimer
  pub readings : ℕ

abbrev pub Callbacks : Type 0 → Type 0
Callbacks W = ℕ → ℕ → W × HeapTimer → W × HeapTimer

module _ {W : Type 0} (call : Callbacks W) (now : ℕ → ℕ) where
  -- `callback(key)` with the handle `c`.
  abbrev called : ℕ → ℕ → Clocked W → Clocked W
  called c k s =
      let r = call c k (s.world, s.timer) in
      record { world = r.0; timer = r.1; readings = s.readings }

  -- One node has expired: its callback is moved out, the node is popped, the callback is called.
  unfoldable pub expire : Node → Clocked W → Run (Clocked W)
  expire node s = do
    let moved = record s.timer { nodes = set s.timer.nodes 0 (record node { callback = 0 }) }
    r ← pop moved
    assert (not (node.callback == 0))
    ok (called node.callback node.key (record s { timer = r.1; readings = suc s.readings }))

  -- The `while` of `Tick`.
  unfoldable pub tick_loop : ℕ → Clocked W → Run (Clocked W)
  unfolding expire empty read
  tick_loop zero s = out_of_fuel
  tick_loop (suc fuel) s =
      let next : Run (Clocked W) = read 0 s.timer >>= λ node.
      let again : Run (Clocked W) = expire node s >>= λ s'. tick_loop fuel s' in
      if leb node.expiration (now s.readings)
      then again
      else ok (record s { readings = suc s.readings }) in
      if empty s.timer then ok s else next

  -- Callbacks that push no node leave one round for each node and one for the end.
  unfoldable pub tick : Clocked W → Run (Clocked W)
  unfolding tick_loop size
  tick s = tick_loop (size s.timer + 1) s

  -- The interval is a signed duration, and zero is returned in place of one below.
  unfoldable pub to_next_tick : Clocked W → Run (ℕ × Clocked W)
  unfolding tick empty read
  to_next_tick s = tick s >>= λ r.
      let waiting : Run (ℕ × Clocked W) = read 0 r.timer >>= λ node.
      let interval = node.expiration - now r.readings in
      ok (
        if ltb (now r.readings) node.expiration then interval else 0,
        record r { readings = suc r.readings },
      ) in
      if empty r.timer then ok (0, r) else waiting

  -- The position is looked up before the callback is called, and used after it.
  unfoldable pub invoke : ℕ → Clocked W → Run (Clocked W)
  unfolding at read remove_by_index contain
  invoke k s = do
    idx ← at k s.timer
    node ← read idx s.timer
    assert (not (node.callback == 0))
    let after = called node.callback k s
    r ← remove_by_index idx after.timer
    assert (not (contain k r.1))
    ok (record after { timer = r.1 })

module _ {W : Type 0} (now : ℕ → ℕ) where
  -- `Adjust(key, duration)`
  unfoldable pub adjust_for : ℕ → ℕ → Clocked W → Run (Clocked W)
  unfolding adjust
  adjust_for k duration s = do
    t ← adjust k (now s.readings + duration) s.timer
    ok (record s { timer = t; readings = suc s.readings })

  -- `Push(key, duration, callback)`
  unfoldable pub push_for : ℕ → ℕ → ℕ → Clocked W → Run (Clocked W)
  unfolding push
  push_for k duration callback s = do
    t ← push k (now s.readings + duration) callback s.timer
    ok (record s { timer = t; readings = suc s.readings })
