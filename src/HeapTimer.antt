-- ===== src/HeapTimer.antt =====
-- include/containers/heap_timer.h: the timer system, a min-heap of nodes with a map from keys to
-- positions, for the keys that the server uses (valid file descriptors).
pub mod Index
pub mod Order
pub mod Up
pub mod Down
pub mod Insert
pub mod Remove
pub mod Tick
pub mod Expiry
pub mod Waiting
pub mod Keeping
pub mod Reentry
mod Tests
use echo_web_server.Prelude.{
  ℕ, zero, suc, ◌+◌, ◌-◌, ◌*◌, ◌/◌, ◌%◌, Bool, true, false, not, ◌&&◌, List, [], ◌∷◌, ◌++◌, Option,
  none, some, leb, ltb, ◌==◌, if◌then◌else◌, length, get_elem?, set, take, Inhabited, swap_elems,
  get!, add_size, size_mod,
}
use echo_web_server.Run.{
  codes, Exception, out_of_range, Run, ok, throw, fault, out_of_fuel, ◌>>=◌, ◌>>◌, assert, or_fault,
}

-- A key, an expiration time in ticks since the clock's epoch, and the handle of a callback; the handle
-- zero is the empty `std::function`.
pub record Node : Type 0 where
  pub key : ℕ
  pub expiration : ℕ
  pub callback : ℕ

instance pub node_inhabited : Inhabited Node
node_inhabited = record { default = record { key = 0; expiration = 0; callback = 0 } }

abbrev pub Index : Type 0
Index = ℕ → Option ℕ

pub record HeapTimer : Type 0 where
  pub key_to_idx : Index
  pub nodes : List Node

-- `key_to_idx_[k] = i`, and `key_to_idx_.erase(k)`
abbrev pub store : ℕ → ℕ → Index → Index
store k i m = λ j. if k == j then some i else m j

abbrev pub erase_key : ℕ → Index → Index
erase_key k m = λ j. if k == j then none else m j

-- `key_to_idx_[k]`, read: a missing key would be inserted with the position zero.
abbrev pub idx_or_zero : Option ℕ → ℕ
idx_or_zero none = 0
idx_or_zero (some i) = i

-- `key_to_idx_.at(k)`
unfoldable pub at : ℕ → HeapTimer → Run ℕ
at k t = elim (t.key_to_idx k) [
  | none ↦ throw (out_of_range (codes "_Map_base::at"))
  | some i ↦ ok i
]

-- `nodes_[idx]`
unfoldable pub read : ℕ → HeapTimer → Run Node
read idx t = or_fault (get_elem? t.nodes idx)

unfoldable pub clear : HeapTimer → HeapTimer
clear t = record { key_to_idx = λ _. none; nodes = [] }

unfoldable pub size : HeapTimer → ℕ
size t = length t.nodes

unfoldable pub empty : HeapTimer → Bool
empty t = length t.nodes == 0

unfoldable pub contain : ℕ → HeapTimer → Bool
contain k t = elim (t.key_to_idx k) [ none ↦ false | some _ ↦ true ]

unfoldable pub valid_index : ℕ → HeapTimer → Bool
unfolding size
valid_index idx t = ltb idx (size t)

-- What the body of `Swap` leaves where the positions differ.
abbrev pub swapped : ℕ → ℕ → HeapTimer → HeapTimer
swapped idx1 idx2 t =
    let nodes = swap_elems t.nodes idx1 idx2 in
    record {
      key_to_idx = store (get! nodes idx2).key idx2 (store (get! nodes idx1).key idx1 t.key_to_idx);
      nodes = nodes;
    }

unfoldable pub swap : ℕ → ℕ → HeapTimer → Run HeapTimer
unfolding valid_index
swap idx1 idx2 t = do
  assert (valid_index idx1 t && valid_index idx2 t)
  if idx1 == idx2 then ok t else ok (swapped idx1 idx2 t)

abbrev pub parent_of : ℕ → ℕ
parent_of idx = (idx - 1) / 2

unfoldable pub parent : ℕ → HeapTimer → Run (Option ℕ)
unfolding valid_index
parent idx t = do assert (valid_index idx t); ok (if idx == 0 then none else some (parent_of idx))

-- `ValidIndex(right) && right > idx && nodes_[right] < nodes_[left]`
unfoldable pub right_is_smaller : ℕ → ℕ → ℕ → HeapTimer → Run Bool
unfolding valid_index read
right_is_smaller idx left right t =
    let compared : Run Bool =
      read right t >>= λ r. read left t >>= λ l. ok (ltb r.expiration l.expiration) in
    if valid_index right t && ltb idx right then compared else ok false

-- The positions of the children are computed modulo 2⁶⁴.
unfoldable pub small_child : ℕ → HeapTimer → Run (Option ℕ)
unfolding valid_index right_is_smaller
small_child idx t =
    let left = (idx * 2 + 1) % size_mod in
    let right = add_size left 1 in
    let smaller : Run (Option ℕ) =
      right_is_smaller idx left right t >>= λ r. ok (some (if r then right else left)) in
    assert (valid_index idx t) >> (if valid_index left t && ltb idx left then smaller else ok none)

-- The `while` of `ShiftUp`.
unfoldable pub shift_up_loop : ℕ → ℕ → HeapTimer → Run HeapTimer
unfolding parent read swap
shift_up_loop zero idx t = out_of_fuel
shift_up_loop (suc fuel) idx t = parent idx t >>= elim [
  | none ↦ ok t
  | some p ↦
      let rise : Run HeapTimer = swap p idx t >>= λ t'. shift_up_loop fuel p t' in
      do
        assert (ltb p idx)
        above ← read p t
        node ← read idx t
        if leb node.expiration above.expiration then rise else ok t
]

unfoldable pub shift_up : ℕ → HeapTimer → Run HeapTimer
unfolding shift_up_loop valid_index
shift_up idx t = do assert (valid_index idx t); shift_up_loop (idx + 1) idx t

-- The `while` of `ShiftDown`.
unfoldable pub shift_down_loop : ℕ → ℕ → HeapTimer → Run HeapTimer
unfolding small_child read swap
shift_down_loop zero idx t = out_of_fuel
shift_down_loop (suc fuel) idx t = small_child idx t >>= elim [
  | none ↦ ok t
  | some c ↦
      let sink : Run HeapTimer = swap c idx t >>= λ t'. shift_down_loop fuel c t' in
      do
        assert (ltb idx c)
        node ← read idx t
        below ← read c t
        if ltb below.expiration node.expiration then sink else ok t
]

unfoldable pub shift_down : ℕ → HeapTimer → Run HeapTimer
unfolding shift_down_loop valid_index size
shift_down idx t = do assert (valid_index idx t); shift_down_loop (size t) idx t

abbrev pub callback_or : Option ℕ → ℕ → ℕ
callback_or none old = old
callback_or (some c) old = c

-- The node with the new time, and with the new callback if there is one.
abbrev pub renew : ℕ → Option ℕ → Node → Node
renew expiration callback node = record node {
  expiration = expiration;
  callback = callback_or callback node.callback;
}

-- `Adjust(key, expiration, callback)`
unfoldable pub adjust_node : ℕ → ℕ → Option ℕ → HeapTimer → Run HeapTimer
unfolding at read shift_up shift_down
adjust_node k expiration callback t = do
  idx ← at k t
  node ← read idx t
  let t' = record t { nodes = set t.nodes idx (renew expiration callback node) }
  if ltb expiration node.expiration then shift_up idx t' else shift_down idx t'

-- `Adjust(key, expiration)`
unfoldable pub adjust : ℕ → ℕ → HeapTimer → Run HeapTimer
unfolding adjust_node
adjust k expiration t = adjust_node k expiration none t

-- `Push(key, expiration, callback)`
unfoldable pub push : ℕ → ℕ → ℕ → HeapTimer → Run HeapTimer
unfolding contain size shift_up adjust_node
push k expiration callback t =
    if not (contain k t)
    then (let idx = size t in
        shift_up idx (record {
          key_to_idx = store k idx t.key_to_idx;
          nodes = t.nodes ++ record { key = k; expiration = expiration; callback = callback } ∷ [];
        }))
    else adjust_node k expiration (some callback) t

-- The node at the top is swapped with the last one and dropped.
abbrev pub drop_top : ℕ → HeapTimer → HeapTimer
drop_top k t =
    let last = length t.nodes - 1 in
    let nodes = swap_elems t.nodes 0 last in
    let front = (get! nodes 0).key in
    let back = (get! nodes last).key in
    let i = idx_or_zero (t.key_to_idx front) in
    let j = idx_or_zero (t.key_to_idx back) in
    record {
      key_to_idx = erase_key k (store back i (store front j t.key_to_idx));
      nodes = take last nodes;
    }

unfoldable pub remove_by_index : ℕ → HeapTimer → Run (ℕ × HeapTimer)
unfolding valid_index read size clear shift_up shift_down
remove_by_index idx t = do
  assert (valid_index idx t)
  node ← read idx t
  let k = node.key
  let several : Run (ℕ × HeapTimer) = do
    risen ← shift_up idx (record t { nodes = set t.nodes idx (record node { expiration = 0 }) })
    front ← read 0 risen
    assert (front.key == k)
    t' ← shift_down 0 (drop_top k risen)
    ok (k, t')
  if size t == 1 then ok (k, clear t) else several

unfoldable pub remove : ℕ → HeapTimer → Run (Bool × HeapTimer)
unfolding contain remove_by_index
remove k t =
    if contain k t
    then (do r ← remove_by_index (idx_or_zero (t.key_to_idx k)) t; ok (true, r.1))
    else ok (false, t)

unfoldable pub pop : HeapTimer → Run (ℕ × HeapTimer)
unfolding empty remove_by_index
pop t = assert (not (empty t)) >> remove_by_index 0 t
