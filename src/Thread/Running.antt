-- ===== src/Thread/Running.antt =====
-- Sequences of the calls of kernel/thread.c, and wake-ups.
use kernel_basic.Prelude.{
  ℕ, zero, suc, ◌-◌, ◌<◌, ◌≡◌, refl, sym, ap, ◌∙◌, Bool, true, false, List, ◌==◌, inl, inr, ◌||◌,
  if◌then◌else◌, get_or, set, length, get_or-set_self, ==→≡, arith, if_ind, replicate,
}
use kernel_basic.Heap.{Heap}
use kernel_basic.Thread.{
  max_threads, Thread, unused, ready, running, Sched, zero_thread, is_running, is_waiting, state_of,
  put_state, put_pending, cli, sti, preempt_disable, preempt_enable, boot, thread_init,
  thread_create, scheduler_tick, thread_yield, thread_resume, thread_block, thread_wake,
  thread_exit,
}
use kernel_basic.Thread.Schedule.{IsValid, state_of-set}
use kernel_basic.Thread.Turns.{pending_keeps}
use kernel_basic.Thread.Halt.{
  IsHalted, IsConsistent, exit-IsConsistent, tick-IsConsistent, wake-IsHalted,
}
use kernel_basic.Thread.Steps.{
  tick-IsValid, yield-IsValid, resume-IsValid, block-IsValid, waiting_idle, wake-IsValid,
  create-IsValid,
}

-- A call of the scheduler. `resume` is the rest of a `thread_block` that gave the CPU away.
pub data Call : Type 0 where
  tick : Call
  yield : Call
  block : Call
  resume : Call
  wake : (t : ℕ) → Call
  create : (name stack_size : ℕ) → Call
  exit : Call

unfoldable pub perform : Call → Sched → Sched
perform tick s = scheduler_tick s
perform yield s = thread_yield s
perform block s = (thread_block s).0
perform resume s = thread_resume s
perform (wake t) s = thread_wake s t
perform (create name stack_size) s = (thread_create s name stack_size).0
perform exit s = thread_exit s

-- What an interrupt's handler may call.
abbrev pub is_interrupt : Call → Bool
is_interrupt tick = true
is_interrupt (wake t) = true
is_interrupt _ = false

-- A call comes from the current thread, while it runs, or from an interrupt: the halted CPU takes
-- interrupts only.
abbrev pub comes : Call → Sched → Bool
comes c s = is_interrupt c || is_running (state_of s s.current)

perform-IsConsistent : (c : Call) (s : Sched) → IsValid s → IsConsistent (perform c s)
unfolding perform
perform-IsConsistent tick s v = inl (tick-IsValid s v)
perform-IsConsistent yield s v = inl (yield-IsValid s v)
perform-IsConsistent block s v = inl (block-IsValid s v)
perform-IsConsistent resume s v = inl (resume-IsValid s v)
perform-IsConsistent (wake t) s v = inl (wake-IsValid s t v)
perform-IsConsistent (create name n) s v = inl (create-IsValid s name n v)
perform-IsConsistent exit s v = exit-IsConsistent s v

interrupt-IsConsistent :
    (c : Call) (s : Sched) → is_interrupt c ≡ true → IsHalted s → IsConsistent (perform c s)
unfolding perform
interrupt-IsConsistent tick s i v = tick-IsConsistent s v
interrupt-IsConsistent (wake t) s i v = inr (wake-IsHalted s t v)
interrupt-IsConsistent yield s i v = absurd (ground (arith, i))
interrupt-IsConsistent block s i v = absurd (ground (arith, i))
interrupt-IsConsistent resume s i v = absurd (ground (arith, i))
interrupt-IsConsistent (create name n) s i v = absurd (ground (arith, i))
interrupt-IsConsistent exit s i v = absurd (ground (arith, i))

comes-IsConsistent :
    (c : Call) (s : Sched) → comes c s ≡ true → IsConsistent s → IsConsistent (perform c s)
comes-IsConsistent c s h (inl v) = perform-IsConsistent c s v
comes-IsConsistent c s h (inr v) =
    interrupt-IsConsistent c s (ground (arith, h, v.idle s.current)) v

-- The states that calls lead to from the boot state.
pub data Reaches (h : Heap) (name : ℕ) : Sched → Type 0 where
  booted : Reaches h name (thread_init name (boot h))
  called :
      {s : Sched} (c : Call) → comes c s ≡ true → Reaches h name s → Reaches h name (perform c s)

replicate_all : (n i : ℕ) → get_or (replicate n zero_thread) i zero_thread ≡ zero_thread
replicate_all zero i = refl
replicate_all (suc n) zero = refl
replicate_all (suc n) (suc i) = replicate_all n i

boot_only :
    (b : Bool) (i : ℕ) → (0 == i) ≡ b → is_running (if b then running else unused) ≡ true → i ≡ 0
boot_only true i h e = sym (==→≡ 0 i h)
boot_only false i h e = absurd (ground arith)

pub boot-IsValid : (h : Heap) (name : ℕ) → IsValid (thread_init name (boot h))
unfolding thread_init boot
boot-IsValid h name = record {
  size = refl;
  current_in = omega arith;
  runs = refl;
  only = λ i e. boot_only (0 == i) i refl (
      sym (
        ap is_running (
          state_of-set (replicate max_threads zero_thread) 0 i _ (omega arith)
          ∙ ap (λ (t : Thread). if 0 == i then running else t.state) (replicate_all max_threads i)))
      ∙ e);
}

-- In every state that calls from the running thread and calls from interrupts lead to from the
-- boot, the table has its 8 slots, and either the current thread is running and no other is, or
-- the CPU halts behind an exit that found no thread ready: the current slot is unused and no
-- thread is running. A halted CPU takes ticks and wake-ups only.
pub Reaches-IsConsistent : (h : Heap) (name : ℕ) (s : Sched) → Reaches h name s → IsConsistent s
Reaches-IsConsistent h name _ booted = inl (boot-IsValid h name)
Reaches-IsConsistent h name _ (called {s = s} c k r) =
    comes-IsConsistent c s k (Reaches-IsConsistent h name s r)

enable_keeps :
    (s : Sched)
    → ((preempt_enable s).threads ≡ s.threads) × ((preempt_enable s).current ≡ s.current)
unfolding preempt_enable
enable_keeps s =
    if_ind (λ (r : Sched). (r.threads ≡ s.threads) × (r.current ≡ s.current))
      (s.disable_count - 1 == 0) (λ _. (refl, refl)) (λ _. (refl, refl))

-- Waking a running thread only marks it.
wake_running :
    (s : Sched)
    → IsValid s
    → ((thread_wake s s.current).threads ≡ (put_pending s s.current true).threads)
      × ((thread_wake s s.current).current ≡ s.current)
unfolding thread_wake preempt_disable
wake_running s v =
    let m = put_pending (preempt_disable s) s.current true in
    let (a, b) =
      if_ind (λ (r : Sched). (r.threads ≡ m.threads) × (r.current ≡ s.current))
        (is_waiting (state_of m s.current))
        (λ e. absurd (
          ground (
            arith,
            waiting_idle (state_of m s.current),
            ap is_running (pending_keeps s.threads s.current s.current true),
            v.runs,
          )))
        (λ _. (refl, refl)) in
    let (c, d) =
      enable_keeps (if is_waiting (state_of m s.current) then put_state m s.current ready else m) in
    (c ∙ a, d ∙ b)

block_marked :
    (s : Sched)
    → (get_or s.threads s.current zero_thread).wake_pending ≡ true
    → thread_block s ≡ (sti (put_pending (cli s) s.current false), true)
unfolding thread_block
block_marked s h = rw h

-- In a valid state a wake-up that comes before the current thread blocks is not lost: the block
-- returns at once, with the thread still current and running, and the mark is used up.
pub thread_block-wake :
    (s : Sched)
    → IsValid s
    → let r = thread_block (thread_wake s s.current) in
      (r.1 ≡ true)
      × (is_running (state_of r.0 s.current) ≡ true)
      × (r.0.current ≡ s.current)
      × ((get_or r.0.threads s.current zero_thread).wake_pending ≡ false)
thread_block-wake s v =
    let w = thread_wake s s.current in
    let (same, here) = wake_running s v in
    let l : s.current < length s.threads = omega (arith, v.size, v.current_in) in
    let marked : (get_or w.threads w.current zero_thread).wake_pending ≡ true =
      ap (λ i. (get_or w.threads i zero_thread).wake_pending) here
      ∙ ap (λ (ts : List Thread). (get_or ts s.current zero_thread).wake_pending) same
      ∙ ap (λ (t : Thread). t.wake_pending) (get_or-set_self s.threads s.current _ zero_thread l) in
    let e = block_marked w marked in
    let u = wake-IsValid s s.current v in
    let r = block-IsValid w u in
    let k : (thread_block w).0.current ≡ s.current =
      ap (λ (p : Sched × Bool). p.0.current) e ∙ here in
    (
      ap (λ (p : Sched × Bool). p.1) e,
      ap (λ i. is_running (state_of (thread_block w).0 i)) (sym k) ∙ r.runs,
      k,
      ap (λ (p : Sched × Bool). (get_or p.0.threads s.current zero_thread).wake_pending) e
          ∙ ap
              (λ i.
                (get_or
                  (set w.threads i
                    (record (get_or w.threads i zero_thread) { wake_pending = false }))
                  s.current zero_thread).wake_pending)
              here
          ∙ ap (λ (t : Thread). t.wake_pending)
              (get_or-set_self w.threads s.current _ zero_thread
                (omega (arith, u.size, v.current_in))),
    )
