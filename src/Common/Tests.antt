-- ===== src/Common/Tests.antt =====
-- Tests of the queue on small histories, and instances of what is proved of it.
use vision_runtime.Prelude.{
  ℕ, ◌≤◌, true, false, ◌≡◌, ◌≢◌, refl, List, [], ◌∷◌, ◌++◌, length, ltb→lt,
}
use vision_runtime.Common.BoundedQueue.{
  fresh, capacity, is_empty, close, may_push, write_slot, store_tail, try_push, try_pop, reset_slot,
  store_head, nothing, value,
}
use vision_runtime.Common.BoundedQueue.Fifo.{
  Op, put, get, shut, stored, got, done, step, replies, fifo_replies, queue_is_fifo,
}
use vision_runtime.Common.BoundedQueue.Threads.{Turn, produce, consume, Consumer, play, start}
use vision_runtime.Common.BoundedQueue.Interleaving.{spsc_safe}

-- A queue of two slots: the third push finds no room, and the values come out in order.
abbrev calls : List (Op ℕ)
calls = put 7 ∷ put 8 ∷ put 9 ∷ get ∷ put 9 ∷ get ∷ shut ∷ put 5 ∷ get ∷ get ∷ []

calls_answered :
    replies calls (fresh 2)
    ≡ stored true
      ∷ stored true
      ∷ stored false
      ∷ got (value 7)
      ∷ stored true
      ∷ got (value 8)
      ∷ done
      ∷ stored false
      ∷ got (value 9)
      ∷ got nothing
      ∷ []
unfolding replies step fresh try_push may_push store_tail write_slot try_pop is_empty store_head
    reset_slot close
calls_answered = refl

queue_is_fifo_example : replies calls (fresh 2) ≡ fifo_replies 2 calls (false, [])
queue_is_fifo_example = queue_is_fifo 2 calls (ltb→lt _ _ refl)

abbrev turns : List (Turn ℕ)
turns =
    produce 7
    ∷ produce 7
    ∷ consume
    ∷ produce 7
    ∷ consume
    ∷ produce 8
    ∷ consume
    ∷ produce 8
    ∷ consume
    ∷ consume
    ∷ []

spsc_safe_example :
    (live : List ℕ) × ((play turns (start 1)).published ≡ (play turns (start 1)).consumed ++ live)
    × (length live ≤ capacity (play turns (start 1)).queue)
    × ((play turns (start 1)).consumer ≢ Consumer.faulted)
spsc_safe_example = spsc_safe 1 turns (ltb→lt _ _ refl)
