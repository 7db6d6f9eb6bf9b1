-- ===== src/Thread/Halt.antt =====
-- `thread_exit` of kernel/thread.c and the halted CPU that it leaves where no other thread is ready.
use kernel_basic.Prelude.{
  ℕ, ◌-◌, ◌<◌, ◌≡◌, ◌⊎◌, inl, inr, refl, ap, ◌∙◌, true, false, Option, none, some, ltb, ◌==◌,
  if◌then◌else◌, length, length-set, arith, if_ind, ==_refl, Bool-cases, ==→≡,
}
use kernel_basic.Thread.{
  max_threads, ThreadState, unused, ready, running, blocked, sleeping, Sched, is_running, is_unused,
  is_waiting, state_of, put_state, put_pending, cli, preempt_disable, preempt_enable, pick_next,
  switch_away, scheduler_tick, thread_wake, thread_exit, exit_to, thread_quantum_ticks,
}
use kernel_basic.Thread.Schedule.{IsValid, state_put, switch_to-IsValid}
use kernel_basic.Thread.Turns.{pick_next_in, pending_keeps, waiting_in, same-IsValid, put-only}
use kernel_basic.Thread.Steps.{give_up-IsValid}

-- The CPU halts in the loop of an exited thread: the current slot is free, and no thread runs.
pub record IsHalted (s : Sched) : Type 0 where
  pub size : length s.threads ≡ max_threads
  pub current_in : s.current < max_threads
  pub gone : is_unused (state_of s s.current) ≡ true
  pub idle : (i : ℕ) → is_running (state_of s i) ≡ false

-- The scheduler's state: the current thread runs, alone, or the CPU halts.
abbrev pub IsConsistent : Sched → Type 0
IsConsistent s = IsValid s ⊎ IsHalted s

same-IsHalted :
    (s s' : Sched)
    → length s'.threads ≡ length s.threads
    → s'.current ≡ s.current
    → ((i : ℕ) → state_of s' i ≡ state_of s i)
    → IsHalted s
    → IsHalted s'
same-IsHalted s s' z c e v = record {
  size = z ∙ v.size;
  current_in = omega (arith, c, v.current_in);
  gone = ap is_unused (e s'.current) ∙ ap (λ i. is_unused (state_of s i)) c ∙ v.gone;
  idle = λ i. ap is_running (e i) ∙ v.idle i;
}

exit_to-IsConsistent :
    (s : Sched)
    → IsValid s
    → (o : Option ℕ) → pick_next (put_state s s.current unused) ≡ o
    → IsConsistent (exit_to (put_state s s.current unused) o)
unfolding exit_to
exit_to-IsConsistent s v (some t) h = inl (give_up-IsValid s unused t v h)
exit_to-IsConsistent s v none h =
    let put = λ (i : ℕ). state_put s s.current i unused v.size v.current_in in
    let gone : state_of (put_state s s.current unused) s.current ≡ unused =
      put s.current ∙ ap (λ b. if b then unused else state_of s s.current) (==_refl s.current) in
    inr record {
      size = length-set s.threads s.current _ ∙ v.size;
      current_in = v.current_in;
      gone = ap is_unused gone;
      idle = λ i. elim (Bool-cases (is_running (state_of (put_state s s.current unused) i))) [
        | inl e ↦ absurd (
            ground (
              arith,
              e,
              ap is_running gone,
              ap (λ j. is_running (state_of (put_state s s.current unused) j))
                  (put-only s unused i v e),
            ))
        | inr e ↦ e
      ];
    }

pub exit-IsConsistent : (s : Sched) → IsValid s → IsConsistent (thread_exit s)
unfolding thread_exit
exit-IsConsistent s v =
    exit_to-IsConsistent (cli s) (same-IsValid s (cli s) refl refl (λ i. refl) v)
      (pick_next (put_state (cli s) s.current unused)) refl

-- A tick wakes the halted CPU where a thread has become ready.
switch_away-IsConsistent :
    (s : Sched) (o : Option ℕ)
    → ((t : ℕ) → o ≡ some t → t < max_threads)
    → IsHalted s
    → IsConsistent (switch_away s o)
unfolding switch_away
switch_away-IsConsistent s none h v = inr v
switch_away-IsConsistent s (some t) h v =
    if_ind IsConsistent (t == s.current) (λ _. inr v)
      (λ _. inl (
        switch_to-IsValid s t v.size v.current_in (h t refl)
          (λ i e. absurd (ground (arith, e, v.idle i)))))

pub tick-IsConsistent : (s : Sched) → IsHalted s → IsConsistent (scheduler_tick s)
unfolding scheduler_tick
tick-IsConsistent s v =
    let due = record s { quantum_remaining = thread_quantum_ticks } in
    let w : IsHalted due = same-IsHalted s due refl refl (λ i. refl) v in
    if_ind IsConsistent (ltb 0 s.quantum_remaining)
      (λ _. inr (same-IsHalted s _ refl refl (λ i. refl) v))
      (λ _. switch_away-IsConsistent due (pick_next due) (λ t. pick_next_in due t w.current_in) w)

-- A waiting thread becomes ready.
ready-IsHalted :
    (s : Sched) (t : ℕ)
    → IsHalted s
    → is_waiting (state_of s t) ≡ true
    → IsHalted (put_state s t ready)
ready-IsHalted s t v w =
    let put =
      λ (i : ℕ). state_put s t i ready v.size (omega (arith, waiting_in s.threads t w, v.size)) in
    record {
      size = length-set s.threads t _ ∙ v.size;
      current_in = v.current_in;
      gone = ap is_unused (put s.current) ∙ elim (Bool-cases (t == s.current)) [
        | inl k ↦ absurd (
            unused_busy (state_of s t) w
              (ap (λ i. is_unused (state_of s i)) (==→≡ t s.current k) ∙ v.gone))
        | inr k ↦ ap (λ b. is_unused (if b then ready else state_of s s.current)) k ∙ v.gone
      ];
      idle = λ i.
          ap is_running (put i)
          ∙ if_ind (λ x. is_running x ≡ false) (t == i) (λ _. refl) (λ _. v.idle i);
    }
  where
    unused_busy : (x : ThreadState) → is_waiting x ≡ true → is_unused x ≡ true → ⊥
    unused_busy unused h u = absurd (ground arith)
    unused_busy ready h u = absurd (ground arith)
    unused_busy running h u = absurd (ground arith)
    unused_busy blocked h u = absurd (ground arith)
    unused_busy sleeping h u = absurd (ground arith)

pub wake-IsHalted : (s : Sched) (t : ℕ) → IsHalted s → IsHalted (thread_wake s t)
unfolding thread_wake preempt_disable preempt_enable
wake-IsHalted s t v =
    let m = put_pending (preempt_disable s) t true in
    let w : IsHalted m =
      same-IsHalted s m (length-set s.threads t _) refl (λ i. pending_keeps s.threads t i true) v in
    let woken = if is_waiting (state_of m t) then put_state m t ready else m in
    let u : IsHalted woken =
      if_ind IsHalted (is_waiting (state_of m t)) (λ e. ready-IsHalted m t w e) (λ _. w) in
    if_ind IsHalted (woken.disable_count - 1 == 0)
      (λ _. same-IsHalted woken _ refl refl (λ i. refl) u)
      (λ _. same-IsHalted woken _ refl refl (λ i. refl) u)
