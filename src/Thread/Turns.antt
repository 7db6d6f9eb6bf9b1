-- ===== src/Thread/Turns.antt =====
-- `pick_next` of kernel/thread.c, and the writes of states in its table.
use kernel_basic.Prelude.{
  ℕ, zero, suc, ◌+◌, ◌%◌, ◌≤◌, ◌<◌, ◌≡◌, refl, sym, ap, ◌∙◌, Bool, true, false, none, some, List,
  [], ◌∷◌, ◌==◌, if◌then◌else◌, get_or, set, length, length-set, ==→≡, arith, if_ind, Bool-cases,
  Option-cases, inl, inr, ◌⊎◌,
}
use kernel_basic.Thread.{
  max_threads, Thread, ThreadState, ready, running, blocked, Sched, zero_thread, is_ready,
  is_running, is_unused, is_waiting, state_of, put_state, free_loop, ready_loop, pick_next,
}
use kernel_basic.Thread.Schedule.{
  IsValid, IsFirstReady, state_of-set, state_put, ready_loop-some, ready_loop-none,
}

-- Where a slot is ready, pick_next takes the first one behind the current slot, in the table's
-- circular order; where none is, it keeps the current thread if that one still runs, and has
-- nothing to run otherwise.
pub pick_next-turns :
    (s : Sched)
    → ((t : ℕ) × (d : ℕ) × (pick_next s ≡ some t)
        × IsFirstReady s.threads s.current 1 max_threads t d)
      ⊎ (((e : ℕ)
            → 1 ≤ e
            → e ≤ max_threads
            → is_ready (state_of s ((s.current + e) % max_threads)) ≡ false)
          × (pick_next s ≡ (if is_running (state_of s s.current) then some s.current else none)))
unfolding pick_next
pick_next-turns s = elim (Option-cases (ready_loop max_threads s.threads s.current 1)) [
  | inl n ↦ inr (
    λ e a b. ready_loop-none max_threads s.threads s.current 1 e n a (omega arith),
    rw (n, pick_next),
  )
  | inr (t, h) ↦
      let (d, f) = ready_loop-some max_threads s.threads s.current 1 t h in
      inl (t, d, rw (h, pick_next), f)
]

pub pick_next_in :
    (s : Sched) (t : ℕ) → s.current < max_threads → pick_next s ≡ some t → t < max_threads
pick_next_in s t c h = elim (pick_next-turns s) [
  | inl (t', d, e, f) ↦ ground (arith, f.at, e, h)
  | inr (n, e) ↦
      let k : (if is_running (state_of s s.current) then some s.current else none) ≡ some t =
        sym e ∙ h in
      ground arith
]

pub pending_keeps :
    (ts : List Thread) (i j : ℕ) (b : Bool)
    → (get_or
        (set ts i (record (get_or ts i zero_thread) { wake_pending = b }))
        j
        zero_thread).state
      ≡ (get_or ts j zero_thread).state
pending_keeps [] i j b = refl
pending_keeps (t ∷ ts) zero zero b = refl
pending_keeps (t ∷ ts) zero (suc j) b = refl
pending_keeps (t ∷ ts) (suc i) zero b = refl
pending_keeps (t ∷ ts) (suc i) (suc j) b = pending_keeps ts i j b

pub waiting_in :
    (ts : List Thread) (i : ℕ) → is_waiting (get_or ts i zero_thread).state ≡ true → i < length ts
waiting_in [] i h = absurd (ground arith)
waiting_in (t ∷ ts) zero h = omega arith
waiting_in (t ∷ ts) (suc i) h = omega (arith, waiting_in ts i h)

pub free_loop-some :
    (n : ℕ) (ts : List Thread) (i t : ℕ)
    → free_loop n ts i ≡ some t
    → (is_unused (get_or ts t zero_thread).state ≡ true) × (t < i + n)
unfolding free_loop
free_loop-some zero ts i t h = absurd (ground arith)
free_loop-some (suc n) ts i t h = elim (Bool-cases (is_unused (get_or ts i zero_thread).state)) [
  | inl e ↦
      let k : i ≡ t = ground arith in
      (ap (λ j. is_unused (get_or ts j zero_thread).state) (sym k) ∙ e, omega (arith, k))
  | inr e ↦ let (u, l) = free_loop-some n ts (i + 1) t (ground arith) in (u, omega (arith, l))
]

-- What does not touch the states keeps the invariant.
pub same-IsValid :
    (s s' : Sched)
    → length s'.threads ≡ length s.threads
    → s'.current ≡ s.current
    → ((i : ℕ) → state_of s' i ≡ state_of s i)
    → IsValid s
    → IsValid s'
same-IsValid s s' z c e v = record {
  size = z ∙ v.size;
  current_in = omega (arith, c, v.current_in);
  runs = ap is_running (e s'.current) ∙ ap (λ i. is_running (state_of s i)) c ∙ v.runs;
  only = λ i h. v.only i (sym (ap is_running (e i)) ∙ h) ∙ sym c;
}

-- The slots other than the current one still do not run after a write of the current state.
pub put-only :
    (s : Sched) (x : ThreadState) (i : ℕ)
    → IsValid s
    → is_running (state_of (put_state s s.current x) i) ≡ true
    → i ≡ s.current
put-only s x i v h = elim (Bool-cases (s.current == i)) [
  | inl k ↦ sym (==→≡ s.current i k)
  | inr k ↦ v.only i (
      sym (
        ap is_running (
          state_put s s.current i x v.size v.current_in
          ∙ ap (λ b. if b then x else state_of s i) k))
      ∙ h)
]

-- A second write of the current state is the one that counts.
pub state_twice :
    (s : Sched) (i : ℕ)
    → IsValid s
    → state_of (put_state (put_state s s.current blocked) s.current running) i
      ≡ state_of (put_state s s.current running) i
state_twice s i v =
    let b = put_state s s.current blocked in
    let z : length b.threads ≡ max_threads = length-set s.threads s.current _ ∙ v.size in
    state_put b s.current i running z v.current_in
    ∙ if_ind (λ x. x ≡ state_of (put_state s s.current running) i) (s.current == i)
        (λ k. sym (
          state_put s s.current i running v.size v.current_in
          ∙ ap (λ x. if x then running else state_of s i) k))
        (λ k.
          state_put s s.current i blocked v.size v.current_in
          ∙ ap (λ x. if x then blocked else state_of s i) k
          ∙ sym (
              state_put s s.current i running v.size v.current_in
              ∙ ap (λ x. if x then running else state_of s i) k))

-- A thread that is not the current one becomes ready.
pub ready-IsValid :
    (s : Sched) (t : ℕ) (r : Thread)
    → IsValid s
    → r.state ≡ ready
    → t < max_threads
    → is_running (state_of s t) ≡ false
    → IsValid (record s { threads = set s.threads t r })
ready-IsValid s t r v e h n =
    let keeps : (i : ℕ)
        → is_running (state_of (record s { threads = set s.threads t r }) i)
          ≡ is_running (state_of s i) =
      λ i. elim (Bool-cases (t == i)) [
        | inl k ↦
            ap is_running (
              state_of-set s.threads t i r (omega (arith, h, v.size))
              ∙ ap (λ b. if b then r.state else state_of s i) k
              ∙ e)
            ∙ sym n
            ∙ ap (λ j. is_running (state_of s j)) (==→≡ t i k)
        | inr k ↦ ap is_running (
            state_of-set s.threads t i r (omega (arith, h, v.size))
            ∙ ap (λ b. if b then r.state else state_of s i) k)
      ] in
    record {
      size = length-set s.threads t r ∙ v.size;
      current_in = v.current_in;
      runs = keeps s.current ∙ v.runs;
      only = λ i q. v.only i (sym (keeps i) ∙ q);
    }
