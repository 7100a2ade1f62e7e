-- ===== src/Operator/EventQueue/Threads.antt =====
-- operator/app.py, _PoolEventQueue under concurrent callers: every interleaving of the locked and
-- unlocked parts of `put` and `get`.
use kelpflux.Base.{
  ℕ, ◌+◌, ◌≤◌, ◌<◌, ◌≡◌, refl, ap, ◌↔◌, Bool, true, false, some, List, [], ◌∷◌, ◌++◌, Text, text_eq,
  text_eq_iff, mem_text, filter, not, sum_by, sum_by-append, if◌then◌else◌, arith,
}
use kelpflux.Operator.EventQueue.{Item, PoolEventQueue, put_locked, enqueue, dequeue, get_locked}

-- The queue, the items of the `put`s that have left the lock and not yet enqueued, and those of
-- the `get`s that have dequeued and not yet taken the lock.
pub record Threads : Type 0 where
  pub queue : PoolEventQueue
  pub entering : List Item
  pub leaving : List Item

pub data Step : Threads → Threads → Type 0 where
  -- A `put` passes the lock with a key that was not pending.
  admit :
      (t : Threads) (item : Item)
      → (put_locked item.pool_key t.queue).0 ≡ true
      → Step t
          (record t { queue = (put_locked item.pool_key t.queue).1; entering = item ∷ t.entering })
  -- A `put` finds its key pending and returns False.
  refuse :
      (t : Threads) (item : Item)
      → (put_locked item.pool_key t.queue).0 ≡ false
      → Step t (record t { queue = (put_locked item.pool_key t.queue).1 })
  -- One of the admitted `put`s enqueues its item.
  enter :
      (t : Threads) (before after : List Item) (item : Item)
      → t.entering ≡ before ++ item ∷ after
      → Step t (record t { queue = enqueue item t.queue; entering = before ++ after })
  -- A `get` takes the oldest item from the queue.
  take_out :
      (t : Threads) (item : Item)
      → (dequeue t.queue).0 ≡ some item
      → Step t (record t { queue = (dequeue t.queue).1; leaving = item ∷ t.leaving })
  -- One of the dequeuing `get`s takes the lock and returns its item.
  hand_over :
      (t : Threads) (before after : List Item) (item : Item)
      → t.leaving ≡ before ++ item ∷ after
      → Step t (record t { queue = get_locked item t.queue; leaving = before ++ after })

pub data Reach (s : Threads) : Threads → Type 0 where
  here : Reach s s
  next : {t u : Threads} → Reach s t → Step t u → Reach s u

abbrev pub idle : Threads
idle = record { queue = record { q = []; pending = [] }; entering = []; leaving = [] }

abbrev has_key : Text → Item → ℕ
has_key k item = if text_eq item.pool_key k then 1 else 0

-- How often the key stands among the items.
abbrev pub key_count : Text → List Item → ℕ
key_count k items = sum_by (has_key k) items

abbrev flag : Bool → ℕ
flag true = 1
flag false = 0

-- A key is pending exactly while one item of it is on its way through the queue.
abbrev Balanced : Threads → Type 0
Balanced t =
    (k : Text)
    → key_count k t.entering + key_count k t.queue.q + key_count k t.leaving
      ≡ flag (mem_text k t.queue.pending)

mem_text-filter :
    (k j : Text) (xs : List Text)
    → mem_text k (filter (λ x. not (text_eq x j)) xs)
      ≡ (if text_eq j k then false else mem_text k xs)
unfolding mem_text
mem_text-filter k j [] = ground arith
mem_text-filter k j (x ∷ xs) =
    ground (arith, text_eq_iff x j, text_eq_iff k x, text_eq_iff j k, mem_text-filter k j xs)

key_count-middle :
    (k : Text) (before after : List Item) (item : Item)
    → key_count k (before ++ item ∷ after) ≡ has_key k item + key_count k (before ++ after)
key_count-middle k before after item =
    omega (
      arith,
      sum_by-append (has_key k) before (item ∷ after),
      sum_by-append (has_key k) before after,
    )

flag_le : (b : Bool) → flag b ≤ 1
flag_le true = omega arith
flag_le false = omega arith

admit-Balanced :
    (t : Threads) (item : Item) (k : Text)
    → (put_locked item.pool_key t.queue).0 ≡ true
    → key_count k t.entering + key_count k t.queue.q + key_count k t.leaving
      ≡ flag (mem_text k t.queue.pending)
    → key_count k (item ∷ t.entering)
        + key_count k (put_locked item.pool_key t.queue).1.q
        + key_count k t.leaving
      ≡ flag (mem_text k (put_locked item.pool_key t.queue).1.pending)
unfolding put_locked mem_text
admit-Balanced t item k fresh b =
    ground (arith, text_eq_iff item.pool_key k, text_eq_iff k item.pool_key)

refuse-Balanced :
    (t : Threads) (key : Text)
    → (put_locked key t.queue).0 ≡ false
    → (put_locked key t.queue).1 ≡ t.queue
unfolding put_locked
refuse-Balanced t key refused = ground arith

dequeue_cases :
    (queue : PoolEventQueue) (item : Item)
    → (dequeue queue).0 ≡ some item
    → (queue.q ≡ item ∷ (dequeue queue).1.q) × ((dequeue queue).1.pending ≡ queue.pending)
unfolding dequeue
dequeue_cases queue item e = ground arith

hand_over-Balanced :
    (t : Threads) (before after : List Item) (item : Item) (k : Text)
    → t.leaving ≡ before ++ item ∷ after
    → key_count k t.entering + key_count k t.queue.q + key_count k t.leaving
      ≡ flag (mem_text k t.queue.pending)
    → key_count k t.entering
        + key_count k (get_locked item t.queue).q
        + key_count k (before ++ after)
      ≡ flag (mem_text k (get_locked item t.queue).pending)
unfolding get_locked
hand_over-Balanced t before after item k e b = ground (
  arith,
  key_count-middle k before after item,
  ap (key_count k) e,
  mem_text-filter k item.pool_key t.queue.pending,
  flag_le (mem_text k t.queue.pending),
)

Step-Balanced : {t u : Threads} → Step t u → Balanced t → Balanced u
unfolding enqueue
Step-Balanced (admit t item fresh) b k = admit-Balanced t item k fresh (b k)
Step-Balanced (refuse t item refused) b k = rw (refuse-Balanced t item.pool_key refused) (b k)
Step-Balanced (enter t before after item e) b k = omega (
  arith,
  b k,
  key_count-middle k before after item,
  ap (key_count k) e,
  sum_by-append (has_key k) t.queue.q (item ∷ []),
)
Step-Balanced (take_out t item e) b k =
    let (front, same) = dequeue_cases t.queue item e in
    rw same (omega (arith, b k, ap (key_count k) front))
Step-Balanced (hand_over t before after item e) b k =
    hand_over-Balanced t before after item k e (b k)

Reach-Balanced : {s t : Threads} → Balanced s → Reach s t → Balanced t
Reach-Balanced h here = h
Reach-Balanced h (next r st) = Step-Balanced st (Reach-Balanced h r)

idle-Balanced : Balanced idle
unfolding mem_text
idle-Balanced k = refl

-- In every state that the threads can reach from an empty queue, a pool has at most one item on its
-- way through the queue: about to be enqueued, in it, or about to be returned.
pub Reach-one_item :
    {t : Threads} (k : Text)
    → Reach idle t
    → key_count k t.entering + key_count k t.queue.q + key_count k t.leaving ≤ 1
Reach-one_item {t} k r =
    rw (Reach-Balanced idle-Balanced r k) (flag_le (mem_text k t.queue.pending))

-- In every state that the threads can reach from an empty queue, a put is refused exactly while an
-- item of the same pool is about to be enqueued, stands in the queue, or is about to be returned by
-- a `get`.
pub Reach-refused_iff :
    {t : Threads} (k : Text)
    → Reach idle t
    → ((put_locked k t.queue).0 ≡ false)
      ↔ (0 < key_count k t.entering + key_count k t.queue.q + key_count k t.leaving)
unfolding put_locked
Reach-refused_iff {t} k r = ground (arith, Reach-Balanced idle-Balanced r k)
