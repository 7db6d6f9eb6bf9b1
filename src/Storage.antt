-- ===== src/Storage.antt =====
-- kernel/storage_thread.c: the queue of the disk requests between the threads that wait for them and
-- the one worker. A request is an address on its submitter's stack, never 0; its `next` field is the
-- function `next`. Each call runs with preemption disabled, so a call is one step; the wake-ups
-- are `thread_wake` of kernel/thread.c, and the disk itself is left out.
pub mod Requests
use kernel_basic.Prelude.{
  ℕ, Bool, true, false, List, [], ◌∷◌, Option, none, some, ◌==◌, if◌then◌else◌,
}

-- `queue_head`, `queue_tail` and the requests' `next` fields.
pub record Queue : Type 0 where
  pub next : ℕ → ℕ
  pub queue_head : ℕ
  pub queue_tail : ℕ

-- `p->next = v`
abbrev pub put_next : (ℕ → ℕ) → (p v : ℕ) → ℕ → ℕ
put_next next p v k = if k == p then v else next k

unfoldable pub enqueue : (req : ℕ) → Queue → Queue
enqueue req q =
    let cleared = put_next q.next req 0 in
    if q.queue_tail == 0
    then record q { next = cleared; queue_head = req; queue_tail = req }
    else record q { next = put_next cleared q.queue_tail req; queue_tail = req }

-- The oldest request, or none.
unfoldable pub dequeue : Queue → Option (ℕ × Queue)
dequeue q =
    let after = q.next q.queue_head in
    if q.queue_head == 0
    then none
    else some (
      q.queue_head,
      record q { queue_head = after; queue_tail = if after == 0 then 0 else q.queue_tail },
    )
