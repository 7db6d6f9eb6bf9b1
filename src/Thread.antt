-- ===== src/Thread.antt =====
-- kernel/thread.c and include/thread.h: the threads' table and the scheduler. A thread is its slot.
-- `context_switch` is assembly: it hands the CPU to the new current thread, whose call then goes on
-- behind its own `switch_to`. So a call that switches is split there: the part behind the switch
-- (`thread_resume`) runs once the thread is current again. Saved registers and stack contents are
-- left out.
pub mod Schedule
pub mod Turns
pub mod Steps
pub mod Halt
pub mod Running
use kernel_basic.Prelude.{
  ℕ, zero, suc, ◌+◌, ◌-◌, ◌%◌, Bool, true, false, not, ◌&&◌, ◌||◌, Option, none, some, List, [],
  ◌∷◌, ltb, leb, ◌==◌, if◌then◌else◌, get_or, set, replicate,
}
use kernel_basic.Heap.{Heap, kmalloc}

abbrev pub max_threads : ℕ
max_threads = 8

abbrev pub thread_quantum_ticks : ℕ
thread_quantum_ticks = 2

-- `thread_state_t`
pub data ThreadState : Type 0 where
  unused : ThreadState
  ready : ThreadState
  running : ThreadState
  blocked : ThreadState
  sleeping : ThreadState

-- `thread_st`, without `esp` and without `wake_tick`, which nothing reads. `name` is an address.
pub record Thread : Type 0 where
  pub stack_base : ℕ
  pub stack_size : ℕ
  pub state : ThreadState
  pub wake_pending : Bool
  pub name : ℕ
  pub id : ℕ

-- The static variables of the file, the CPU's interrupt flag, and the heap that `kmalloc` changes.
pub record Sched : Type 0 where
  pub threads : List Thread
  pub current : ℕ
  pub next_id : ℕ
  pub disable_count : ℕ
  pub quantum_remaining : ℕ
  pub interrupts : Bool
  pub heap : Heap

abbrev pub zero_thread : Thread
zero_thread = record {
  stack_base = 0;
  stack_size = 0;
  state = unused;
  wake_pending = false;
  name = 0;
  id = 0;
}

abbrev pub is_ready : ThreadState → Bool
is_ready unused = false
is_ready ready = true
is_ready running = false
is_ready blocked = false
is_ready sleeping = false

abbrev pub is_running : ThreadState → Bool
is_running unused = false
is_running ready = false
is_running running = true
is_running blocked = false
is_running sleeping = false

abbrev pub is_unused : ThreadState → Bool
is_unused unused = true
is_unused ready = false
is_unused running = false
is_unused blocked = false
is_unused sleeping = false

abbrev pub state_of : Sched → ℕ → ThreadState
state_of s i = (get_or s.threads i zero_thread).state

abbrev pub put_state : Sched → ℕ → ThreadState → Sched
put_state s i x = record s {
  threads = set s.threads i (record (get_or s.threads i zero_thread) { state = x });
}

abbrev pub put_pending : Sched → ℕ → Bool → Sched
put_pending s i b = record s {
  threads = set s.threads i (record (get_or s.threads i zero_thread) { wake_pending = b });
}

abbrev pub cli : Sched → Sched
cli s = record s { interrupts = false }

abbrev pub sti : Sched → Sched
sti s = record s { interrupts = true }

unfoldable pub preempt_disable : Sched → Sched
preempt_disable s = let s = cli s in record s { disable_count = s.disable_count + 1 }

unfoldable pub preempt_enable : Sched → Sched
preempt_enable s =
    let s = record s { disable_count = s.disable_count - 1 } in
    if s.disable_count == 0 then sti s else s

-- The static variables as the kernel starts, and what `thread_init` makes of them. `name` is the
-- address of "main".
unfoldable pub boot : Heap → Sched
boot h = record {
  threads = replicate max_threads zero_thread;
  current = 0;
  next_id = 0;
  disable_count = 0;
  quantum_remaining = thread_quantum_ticks;
  interrupts = false;
  heap = h;
}

unfoldable pub thread_init : (name : ℕ) → Sched → Sched
thread_init name s = record s {
  threads = set s.threads 0 (record {
    stack_base = 0;
    stack_size = 0;
    state = running;
    wake_pending = false;
    name = name;
    id = s.next_id;
  });
  next_id = s.next_id + 1;
  current = 0;
}

-- `n` slots from slot `i` on are left to be searched.
unfoldable pub free_loop : (n : ℕ) → List Thread → (i : ℕ) → Option ℕ
free_loop zero ts i = none
free_loop (suc n) ts i =
    let rest = free_loop n ts (i + 1) in
    if is_unused (get_or ts i zero_thread).state then some i else rest

unfoldable pub find_free_slot : Sched → Option ℕ
find_free_slot s = free_loop max_threads s.threads 0

-- The fields that `thread_create` sets once it has a slot and a stack.
unfoldable pub set_up : Sched → (name stack stack_size slot : ℕ) → Sched
set_up s name stack stack_size slot = record s {
  threads = set s.threads slot (record {
    stack_base = stack;
    stack_size = stack_size;
    state = ready;
    wake_pending = false;
    name = name;
    id = s.next_id;
  });
  next_id = s.next_id + 1;
}

-- What `thread_create` does with the heap's answer.
unfoldable pub place : Sched → (name stack_size slot : ℕ) → Option ℕ × Heap → Sched × Option ℕ
unfolding set_up
place s name stack_size slot (none, h) = (record s { heap = h }, none)
place s name stack_size slot (some stack, h) =
    (set_up (record s { heap = h }) name stack stack_size slot, some slot)

-- The slot of the new thread, or none where the table or the heap is full. `kmalloc` disables
-- preemption while it runs.
unfoldable pub create_in : Sched → (name stack_size : ℕ) → Option ℕ → Sched × Option ℕ
unfolding place
create_in s name stack_size none = (s, none)
create_in s name stack_size (some slot) =
    place (preempt_enable (preempt_disable s)) name stack_size slot (kmalloc stack_size s.heap)

unfoldable pub thread_create : Sched → (name stack_size : ℕ) → Sched × Option ℕ
unfolding create_in
thread_create s name stack_size = create_in s name stack_size (find_free_slot s)

-- `n` slots are left to be searched, from the one `i` behind `start` on.
unfoldable pub ready_loop : (n : ℕ) → List Thread → (start i : ℕ) → Option ℕ
ready_loop zero ts start i = none
ready_loop (suc n) ts start i =
    let rest = ready_loop n ts start (i + 1) in
    let t = (start + i) % max_threads in
    if is_ready (get_or ts t zero_thread).state then some t else rest

unfoldable pub pick_next : Sched → Option ℕ
pick_next s = elim (ready_loop max_threads s.threads s.current 1) [
  | some t ↦ some t
  | none ↦ if is_running (state_of s s.current) then some s.current else none
]

unfoldable pub switch_to : Sched → ℕ → Sched
switch_to s next =
    let left = if is_running (state_of s s.current) then put_state s s.current ready else s in
    record (put_state left next running) { current = next }

-- `if (next && next != current) switch_to(next);`
unfoldable pub switch_away : Sched → Option ℕ → Sched
unfolding switch_to
switch_away s none = s
switch_away s (some next) = if next == s.current then s else switch_to s next

unfoldable pub scheduler_tick : Sched → Sched
scheduler_tick s =
    let due = record s { quantum_remaining = thread_quantum_ticks } in
    if ltb 0 s.quantum_remaining
    then record s { quantum_remaining = s.quantum_remaining - 1 }
    else switch_away due (pick_next due)

-- The `sti` behind the switch is `thread_resume`'s where another thread got the CPU.
unfoldable pub thread_yield : Sched → Sched
thread_yield s = let s = cli s in switch_away s (pick_next s)

-- What a thread that `thread_block` switched away from does once it is current again.
unfoldable pub thread_resume : Sched → Sched
thread_resume s = sti (put_pending s s.current false)

-- What `thread_block` does with the answer of `pick_next`.
unfoldable pub block_on : Sched → Option ℕ → Sched × Bool
unfolding switch_to thread_resume
block_on s (some next) = (switch_to s next, false)
block_on s none = (thread_resume (put_state s s.current running), true)

-- Whether the call returned at once: it did not where the thread is blocked now.
unfoldable pub thread_block : Sched → Sched × Bool
unfolding block_on
thread_block s =
    let b = put_state (cli s) s.current blocked in
    if (get_or s.threads s.current zero_thread).wake_pending
    then (sti (put_pending (cli s) s.current false), true)
    else block_on b (pick_next b)

-- The states that `thread_wake` ends.
abbrev pub is_waiting : ThreadState → Bool
is_waiting unused = false
is_waiting ready = false
is_waiting running = false
is_waiting blocked = true
is_waiting sleeping = true

unfoldable pub thread_wake : Sched → ℕ → Sched
thread_wake s t =
    let marked = put_pending (preempt_disable s) t true in
    preempt_enable (if is_waiting (state_of marked t) then put_state marked t ready else marked)

-- Where nothing is left to run, the CPU halts with interrupts on, and the thread that left stays the
-- current one.
unfoldable pub exit_to : Sched → Option ℕ → Sched
unfolding switch_to
exit_to s (some next) = switch_to s next
exit_to s none = sti s

unfoldable pub thread_exit : Sched → Sched
unfolding exit_to
thread_exit s = let e = put_state (cli s) s.current unused in exit_to e (pick_next e)

unfoldable pub thread_self : Sched → ℕ
thread_self s = s.current
