-- ===== src/Operator/EventQueue.antt =====
-- operator/app.py, class _PoolEventQueue: the pool-keyed work queue with deduplication.
-- `put` and `get` each do one part under the lock and one outside it. The parts are functions, and
-- the child `Threads` interleaves those of any number of threads.
pub mod Threads
mod Examples
use kelpflux.Base.{
  ℕ, Bool, true, false, not, Option, none, some, List, [], ◌∷◌, ◌++◌, Text, text_eq, mem_text,
  filter, if◌then◌else◌,
}
use kelpflux.Operator.Models.{Time}

-- (pool_key, source, time.time())
pub record Item : Type 0 where
  pub pool_key : Text
  pub source : Text
  pub event_ts : Time

-- `q` holds the oldest item first; `pending` is the set of keys, in no particular order.
pub record PoolEventQueue : Type 0 where
  pub q : List Item
  pub pending : List Text

unfoldable pub empty : PoolEventQueue
empty = record { q = []; pending = [] }

-- The locked part of `put`: false if the key is pending already, or the key is added.
unfoldable pub put_locked : Text → PoolEventQueue → Bool × PoolEventQueue
put_locked pool_key self =
    if mem_text pool_key self.pending
    then (false, self)
    else (true, record self { pending = pool_key ∷ self.pending })

-- self._q.put(item)
unfoldable pub enqueue : Item → PoolEventQueue → PoolEventQueue
enqueue item self = record self { q = self.q ++ item ∷ [] }

unfoldable pub put : Text → Text → Time → PoolEventQueue → Bool × PoolEventQueue
unfolding put_locked enqueue
put pool_key source now self =
    let (fresh, locked) = put_locked pool_key self in
    if fresh
    then (true, enqueue (record { pool_key = pool_key; source = source; event_ts = now }) locked)
    else (false, locked)

unfoldable pub pop_front : List Item → PoolEventQueue → Option Item × PoolEventQueue
pop_front [] self = (none, self)
pop_front (item ∷ rest) self = (some item, record self { q = rest })

-- self._q.get(timeout=timeout); `none` when the time ran out on an empty queue.
unfoldable pub dequeue : PoolEventQueue → Option Item × PoolEventQueue
unfolding pop_front
dequeue self = pop_front self.q self

-- The locked part of `get`.
unfoldable pub get_locked : Item → PoolEventQueue → PoolEventQueue
get_locked item self = record self {
  pending = filter (λ k. not (text_eq k item.pool_key)) self.pending;
}

unfoldable pub get : PoolEventQueue → Option Item × PoolEventQueue
unfolding dequeue get_locked
get self =
    let (item, left) = dequeue self in
    elim item [ none ↦ (none, left) | some i ↦ (some i, get_locked i left) ]
