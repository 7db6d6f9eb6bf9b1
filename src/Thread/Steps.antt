-- ===== src/Thread/Steps.antt =====
-- The calls of kernel/thread.c, one by one, on a valid table.
use kernel_basic.Prelude.{
  ℕ, ◌+◌, ◌-◌, ◌<◌, ◌≡◌, refl, sym, ap, ◌∙◌, Bool, true, false, Option, none, some, List, ltb, ◌==◌,
  if◌then◌else◌, get_or, length, length-set, arith, if_ind, ==_refl,
}
use kernel_basic.Heap.{Heap}
use kernel_basic.Thread.{
  max_threads, Thread, ThreadState, unused, ready, running, blocked, sleeping, Sched, zero_thread,
  is_running, is_unused, is_waiting, state_of, put_state, put_pending, cli, preempt_disable,
  preempt_enable, find_free_slot, set_up, place, thread_create, pick_next, switch_to, switch_away,
  scheduler_tick, thread_yield, thread_resume, thread_block, thread_wake, block_on, create_in,
  thread_quantum_ticks,
}
use kernel_basic.Thread.Schedule.{IsValid, state_put, switch_to-IsValid}
use kernel_basic.Thread.Turns.{
  pick_next_in, pending_keeps, waiting_in, free_loop-some, same-IsValid, put-only, state_twice,
  ready-IsValid,
}

switch_away-IsValid :
    (s : Sched) (o : Option ℕ)
    → ((t : ℕ) → o ≡ some t → t < max_threads)
    → IsValid s
    → IsValid (switch_away s o)
unfolding switch_away
switch_away-IsValid s none h v = v
switch_away-IsValid s (some t) h v =
    if_ind IsValid (t == s.current) (λ _. v)
      (λ _. switch_to-IsValid s t v.size v.current_in (h t refl) v.only)

pub tick-IsValid : (s : Sched) → IsValid s → IsValid (scheduler_tick s)
unfolding scheduler_tick
tick-IsValid s v =
    let due = record s { quantum_remaining = thread_quantum_ticks } in
    let w : IsValid due = same-IsValid s due refl refl (λ i. refl) v in
    if_ind IsValid (ltb 0 s.quantum_remaining) (λ _. same-IsValid s _ refl refl (λ i. refl) v)
      (λ _. switch_away-IsValid due (pick_next due) (λ t. pick_next_in due t w.current_in) w)

pub yield-IsValid : (s : Sched) → IsValid s → IsValid (thread_yield s)
unfolding thread_yield
yield-IsValid s v =
    let w : IsValid (cli s) = same-IsValid s (cli s) refl refl (λ i. refl) v in
    switch_away-IsValid (cli s) (pick_next (cli s)) (λ t. pick_next_in (cli s) t w.current_in) w

pending-IsValid : (s : Sched) (t : ℕ) (b : Bool) → IsValid s → IsValid (put_pending s t b)
pending-IsValid s t b v =
    same-IsValid s (put_pending s t b) (length-set s.threads t _) refl
      (λ i. pending_keeps s.threads t i b) v

pub resume-IsValid : (s : Sched) → IsValid s → IsValid (thread_resume s)
unfolding thread_resume
resume-IsValid s v =
    same-IsValid (put_pending s s.current false) _ refl refl (λ i. refl)
      (pending-IsValid s s.current false v)

-- The table after the current thread gave up its turn, and a thread that gets it.
pub give_up-IsValid :
    (s : Sched) (x : ThreadState) (t : ℕ)
    → IsValid s
    → pick_next (put_state s s.current x) ≡ some t
    → IsValid (switch_to (put_state s s.current x) t)
give_up-IsValid s x t v h =
    switch_to-IsValid (put_state s s.current x) t (length-set s.threads s.current _ ∙ v.size)
      v.current_in (pick_next_in _ t v.current_in h) (λ i. put-only s x i v)

block_on-IsValid :
    (s : Sched)
    → IsValid s
    → (o : Option ℕ) → pick_next (put_state s s.current blocked) ≡ o
    → IsValid (block_on (put_state s s.current blocked) o).0
unfolding block_on
block_on-IsValid s v (some t) h = give_up-IsValid s blocked t v h
block_on-IsValid s v none h =
    let b = put_state s s.current blocked in
    let z : length b.threads ≡ max_threads = length-set s.threads s.current _ ∙ v.size in
    let r = put_state b s.current running in
    let w : IsValid r = record {
      size = length-set b.threads s.current _ ∙ z;
      current_in = v.current_in;
      runs = ap is_running (
          state_put b s.current s.current running z v.current_in
          ∙ ap (λ x. if x then running else state_of b s.current) (==_refl s.current));
      only = λ i e. put-only s running i v (sym (ap is_running (state_twice s i v)) ∙ e);
    } in
    resume-IsValid r w

pub block-IsValid : (s : Sched) → IsValid s → IsValid (thread_block s).0
unfolding thread_block
block-IsValid s v =
    let w : IsValid (cli s) = same-IsValid s (cli s) refl refl (λ i. refl) v in
    if_ind (λ (r : Sched × Bool). IsValid r.0) (get_or s.threads s.current zero_thread).wake_pending
      (λ _.
        same-IsValid (put_pending (cli s) s.current false) _ refl refl (λ i. refl)
          (pending-IsValid (cli s) s.current false w))
      (λ _. block_on-IsValid (cli s) w (pick_next (put_state (cli s) s.current blocked)) refl)

disable-IsValid : (s : Sched) → IsValid s → IsValid (preempt_disable s)
unfolding preempt_disable
disable-IsValid s v = same-IsValid s _ refl refl (λ i. refl) v

enable-IsValid : (s : Sched) → IsValid s → IsValid (preempt_enable s)
unfolding preempt_enable
enable-IsValid s v =
    if_ind IsValid (s.disable_count - 1 == 0) (λ _. same-IsValid s _ refl refl (λ i. refl) v)
      (λ _. same-IsValid s _ refl refl (λ i. refl) v)

pub waiting_idle : (x : ThreadState) → is_waiting x ≡ true → is_running x ≡ false
waiting_idle unused h = refl
waiting_idle ready h = refl
waiting_idle running h = absurd (ground arith)
waiting_idle blocked h = refl
waiting_idle sleeping h = refl

unused_idle : (x : ThreadState) → is_unused x ≡ true → is_running x ≡ false
unused_idle unused h = refl
unused_idle ready h = refl
unused_idle running h = absurd (ground arith)
unused_idle blocked h = refl
unused_idle sleeping h = refl

pub wake-IsValid : (s : Sched) (t : ℕ) → IsValid s → IsValid (thread_wake s t)
unfolding thread_wake
wake-IsValid s t v =
    let m = put_pending (preempt_disable s) t true in
    let w : IsValid m = pending-IsValid (preempt_disable s) t true (disable-IsValid s v) in
    enable-IsValid _ (
      if_ind IsValid (is_waiting (state_of m t))
        (λ e.
          ready-IsValid m t _ w refl (omega (arith, waiting_in m.threads t e, w.size))
            (waiting_idle (state_of m t) e))
        (λ _. w))

place-IsValid :
    (s : Sched) (name size slot : ℕ) (a : Option ℕ × Heap)
    → IsValid s
    → slot < max_threads
    → is_running (state_of s slot) ≡ false
    → IsValid (place s name size slot a).0
unfolding place set_up
place-IsValid s name size slot (none, h) v l n = same-IsValid s _ refl refl (λ i. refl) v
place-IsValid s name size slot (some stack, h) v l n =
    same-IsValid _ _ refl refl (λ i. refl)
      (ready-IsValid s slot
        (record {
          stack_base = stack;
          stack_size = size;
          state = ready;
          wake_pending = false;
          name = name;
          id = s.next_id;
        })
        v refl l n)

enabled_same : (s : Sched) → (preempt_enable (preempt_disable s)).threads ≡ s.threads
unfolding preempt_enable preempt_disable
enabled_same s =
    if_ind (λ (r : Sched). r.threads ≡ s.threads) (s.disable_count + 1 - 1 == 0) (λ _. refl)
      (λ _. refl)

create_in-IsValid :
    (s : Sched) (name size : ℕ)
    → IsValid s
    → (o : Option ℕ) → find_free_slot s ≡ o
    → IsValid (create_in s name size o).0
unfolding create_in find_free_slot
create_in-IsValid s name size v none h = v
create_in-IsValid s name size v (some slot) h =
    let (u, l) = free_loop-some max_threads s.threads 0 slot h in
    place-IsValid _ name size slot _ (enable-IsValid _ (disable-IsValid s v)) l (
      ap (λ (ts : List Thread). is_running (get_or ts slot zero_thread).state) (enabled_same s)
      ∙ unused_idle _ u)

pub create-IsValid : (s : Sched) (name size : ℕ) → IsValid s → IsValid (thread_create s name size).0
unfolding thread_create
create-IsValid s name size v = create_in-IsValid s name size v (find_free_slot s) refl
