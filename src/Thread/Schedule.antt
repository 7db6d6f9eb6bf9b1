-- ===== src/Thread/Schedule.antt =====
-- The searches of the table of kernel/thread.c, and the switch.
use kernel_basic.Prelude.{
  ℕ, zero, suc, ◌+◌, ◌%◌, ◌≤◌, ◌<◌, ◌≡◌, ◌≢◌, refl, sym, ap, ◌∙◌, true, false, none, some, List,
  ◌==◌, if◌then◌else◌, get_or, set, length, length-set, get_or-set_self, get_or-set_ne, ==→≡, ==→≢,
  ==_refl, arith, if_ind, Bool-cases, inl, inr,
}
use kernel_basic.Thread.{
  max_threads, Thread, ThreadState, ready, running, Sched, zero_thread, is_ready, is_running,
  state_of, put_state, ready_loop, switch_to,
}

-- The table has its slots, and the current thread is the one that runs.
pub record IsValid (s : Sched) : Type 0 where
  pub size : length s.threads ≡ max_threads
  pub current_in : s.current < max_threads
  pub runs : is_running (state_of s s.current) ≡ true
  pub only : (i : ℕ) → is_running (state_of s i) ≡ true → i ≡ s.current

-- A slot's state after a write to the table.
pub state_of-set :
    (ts : List Thread) (i j : ℕ) (t : Thread)
    → i < length ts
    → (get_or (set ts i t) j zero_thread).state
      ≡ (if i == j then t.state else (get_or ts j zero_thread).state)
state_of-set ts i j t h = ground (
  arith,
  ap (λ x. x.state) (get_or-set_self ts i t zero_thread h),
  get_or-set_ne ts i j t zero_thread,
)

-- The states after a write of a state to slot `i`.
pub state_put :
    (s : Sched) (i j : ℕ) (x : ThreadState)
    → length s.threads ≡ max_threads
    → i < max_threads
    → state_of (put_state s i x) j ≡ (if i == j then x else state_of s j)
state_put s i j x z h =
    state_of-set s.threads i j (record (get_or s.threads i zero_thread) { state = x })
      (omega (arith, z, h))

-- A slot other than the current one does not run.
idle_of :
    (s : Sched) (i : ℕ)
    → ((i : ℕ) → is_running (state_of s i) ≡ true → i ≡ s.current)
    → i ≢ s.current
    → is_running (state_of s i) ≡ false
idle_of s i only n = elim (Bool-cases (is_running (state_of s i))) [
  | inl e ↦ absurd (n (only i e))
  | inr e ↦ e
]

-- What a search found: the first ready slot behind `start`, `d` slots on.
pub record IsFirstReady (ts : List Thread) (start i n t d : ℕ) : Type 0 where
  pub at : t ≡ (start + d) % max_threads
  pub after : i ≤ d
  pub before : d < i + n
  pub is : is_ready (get_or ts t zero_thread).state ≡ true
  pub first :
      (e : ℕ)
      → i ≤ e
      → e < d
      → is_ready (get_or ts ((start + e) % max_threads) zero_thread).state ≡ false

pub ready_loop-some :
    (n : ℕ) (ts : List Thread) (start i t : ℕ)
    → ready_loop n ts start i ≡ some t
    → (d : ℕ) × IsFirstReady ts start i n t d
unfolding ready_loop
ready_loop-some zero ts start i t h = absurd (ground arith)
ready_loop-some (suc n) ts start i t h =
    elim (Bool-cases (is_ready (get_or ts ((start + i) % max_threads) zero_thread).state)) [
      | inl e ↦
          let k : (start + i) % max_threads ≡ t = ground arith in
          (
            i,
            record {
              at = sym k;
              after = omega arith;
              before = omega arith;
              is = ap (λ j. is_ready (get_or ts j zero_thread).state) (sym k) ∙ e;
              first = λ e' a b. absurd (omega arith);
            },
          )
      | inr e ↦
          let (d, f) = ready_loop-some n ts start (i + 1) t (ground arith) in
          (
            d,
            record {
              at = f.at;
              after = ground (arith, f.after);
              before = ground (arith, f.before);
              is = f.is;
              first = λ e' a b. elim (Bool-cases (e' == i)) [
                | inl k ↦
                    ap (λ j. is_ready (get_or ts ((start + j) % max_threads) zero_thread).state)
                      (==→≡ e' i k)
                    ∙ e
                | inr k ↦ f.first e' (ground arith) b
              ];
            },
          )
    ]

pub ready_loop-none :
    (n : ℕ) (ts : List Thread) (start i e : ℕ)
    → ready_loop n ts start i ≡ none
    → i ≤ e
    → e < i + n
    → is_ready (get_or ts ((start + e) % max_threads) zero_thread).state ≡ false
unfolding ready_loop
ready_loop-none zero ts start i e h a b = absurd (omega arith)
ready_loop-none (suc n) ts start i e h a b = elim (Bool-cases (e == i)) [
  | inl k ↦
      ap (λ j. is_ready (get_or ts ((start + j) % max_threads) zero_thread).state) (==→≡ e i k)
      ∙ ground arith
  | inr k ↦ ready_loop-none n ts start (i + 1) e (ground arith) (ground arith) (ground arith)
]

-- `switch_to` first takes the CPU from the current thread if that one still runs.
abbrev leave : Sched → Sched
leave s = if is_running (state_of s s.current) then put_state s s.current ready else s

length-leave : (s : Sched) → length s.threads ≡ max_threads → length (leave s).threads ≡ max_threads
length-leave s z =
    if_ind (λ (r : Sched). length r.threads ≡ max_threads) (is_running (state_of s s.current))
      (λ _. length-set s.threads s.current _ ∙ z) (λ _. z)

leave_others :
    (s : Sched) (i : ℕ)
    → is_running (state_of s s.current) ≡ false
    → ((i : ℕ) → is_running (state_of s i) ≡ true → i ≡ s.current)
    → is_running (state_of s i) ≡ false
leave_others s i e only = elim (Bool-cases (i == s.current)) [
  | inl k ↦ ap (λ j. is_running (state_of s j)) (==→≡ i s.current k) ∙ e
  | inr k ↦ idle_of s i only (==→≢ i s.current k)
]

leave_idle :
    (s : Sched) (i : ℕ)
    → length s.threads ≡ max_threads
    → s.current < max_threads
    → ((i : ℕ) → is_running (state_of s i) ≡ true → i ≡ s.current)
    → is_running (state_of (leave s) i) ≡ false
leave_idle s i z c only =
    if_ind (λ (r : Sched). is_running (state_of r i) ≡ false) (is_running (state_of s s.current))
      (λ _.
        ap is_running (state_put s s.current i ready z c)
        ∙ if_ind (λ x. is_running x ≡ false) (s.current == i) (λ _. refl)
            (λ n. idle_of s i only (λ k. ==→≢ s.current i n (sym k))))
      (λ e. leave_others s i e only)

pub switch_to-IsValid :
    (s : Sched) (t : ℕ)
    → length s.threads ≡ max_threads
    → s.current < max_threads
    → t < max_threads
    → ((i : ℕ) → is_running (state_of s i) ≡ true → i ≡ s.current)
    → IsValid (switch_to s t)
unfolding switch_to
switch_to-IsValid s t z c h only =
    let l = leave s in
    let lz = length-leave s z in
    record {
      size = length-set l.threads t _ ∙ lz;
      current_in = h;
      runs = ap is_running (
          state_put l t t running lz h ∙ ap (λ b. if b then running else state_of l t) (==_refl t));
      only = λ i e. elim (Bool-cases (t == i)) [
        | inl k ↦ sym (==→≡ t i k)
        | inr k ↦ absurd (
            ground (
              arith,
              ap is_running
                  (state_put l t i running lz h ∙ ap (λ b. if b then running else state_of l i) k),
              leave_idle s i z c only,
            ))
      ];
    }
