-- ===== src/Operator/EventQueue/Examples.antt =====
-- operator/app.py, _PoolEventQueue: the theorems after one `put` has taken the lock.
use kelpflux.Base.{◌+◌, ◌≤◌, ◌<◌, ◌≡◌, refl, ◌↔◌, false, [], ◌∷◌, codes, mem_text}
use kelpflux.Operator.EventQueue.{Item, put_locked}
use kelpflux.Operator.EventQueue.Threads.{
  Threads, admit, Reach, here, next, idle, key_count, Reach-one_item, Reach-refused_iff,
}

abbrev an_item : Item
an_item = record { pool_key = codes "gpu"; source = codes "pod"; event_ts = 1 }

abbrev one_put : Threads
one_put = record {
  queue = record { q = []; pending = codes "gpu" ∷ [] };
  entering = an_item ∷ [];
  leaving = [];
}

one_put-Reach : Reach idle one_put
unfolding put_locked mem_text
one_put-Reach = next here (admit idle an_item refl)

Reach-one_item_example :
    key_count (codes "gpu") one_put.entering
      + key_count (codes "gpu") one_put.queue.q
      + key_count (codes "gpu") one_put.leaving
    ≤ 1
Reach-one_item_example = Reach-one_item (codes "gpu") one_put-Reach

Reach-refused_iff_example : ((put_locked (codes "gpu") one_put.queue).0 ≡ false) ↔ (
    0
    < key_count (codes "gpu") one_put.entering
      + key_count (codes "gpu") one_put.queue.q
      + key_count (codes "gpu") one_put.leaving)
Reach-refused_iff_example = Reach-refused_iff (codes "gpu") one_put-Reach
