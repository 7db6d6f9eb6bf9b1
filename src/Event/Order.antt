-- ===== src/Event/Order.antt =====
-- The event queue of kernel/event.c and a bounded first-in first-out queue.
use kernel_basic.Prelude.{
  ℕ, zero, suc, ◌+◌, ◌%◌, ◌≤◌, ◌<◌, ◌≡◌, refl, ap, ap₂, List, [], ◌∷◌, ◌++◌, Option, none, some,
  false, leb, ◌==◌, if◌then◌else◌, inl, inr, Bool-cases, arith, length, get_or, set, length-set,
  get_or-set_self, get_or-set_ne, length-append,
}
use native.Mathlib.Numerals.{add-one}
use mathlib.Core.Option
use kernel_basic.Prelude.Int.{ℤ}
use kernel_basic.Event.{
  Event, EventType, EventQueue, no_event, event_queue_size, event_push, event_wait, event_init,
}

-- The first `n` values of `f`, in order.
unfoldable pub tabulate : (ℕ → Event) → ℕ → List Event
tabulate f zero = []
tabulate f (suc n) = tabulate f n ++ f n ∷ []

tabulate-zero : (f : ℕ → Event) → tabulate f 0 ≡ []
unfolding tabulate
tabulate-zero f = refl

tabulate-ext :
    (f g : ℕ → Event) (n : ℕ) → ((k : ℕ) → k < n → f k ≡ g k) → tabulate f n ≡ tabulate g n
unfolding tabulate
tabulate-ext f g zero h = refl
tabulate-ext f g (suc n) h =
    ap₂ (λ xs x. xs ++ x ∷ []) (tabulate-ext f g n (λ k l. h k (omega arith))) (h n (omega arith))

tabulate-cons : (f : ℕ → Event) (n : ℕ) → tabulate f (suc n) ≡ f 0 ∷ tabulate (λ k. f (suc k)) n
unfolding tabulate
tabulate-cons f zero = refl
tabulate-cons f (suc n) = ap (λ xs. xs ++ f (suc n) ∷ []) (tabulate-cons f n)

length-tabulate : (f : ℕ → Event) (n : ℕ) → length (tabulate f n) ≡ n
unfolding tabulate
length-tabulate f zero = refl
length-tabulate f (suc n) =
    omega (arith, length-append (tabulate f n) (f n ∷ []), length-tabulate f n)

-- The indices stay inside the array, and `head` is where `tail` gets to after `q_count` steps.
pub record IsValid (q : EventQueue) : Type 0 where
  pub storage : length q.queue ≡ event_queue_size
  pub tail_in : q.tail < event_queue_size
  pub count_in : q.q_count ≤ event_queue_size
  pub head_at : q.head ≡ (q.tail + q.q_count) % event_queue_size

-- The events that wait in the queue, oldest first.
abbrev pub slot : EventQueue → ℕ → Event
slot q k = get_or q.queue ((q.tail + k) % event_queue_size) no_event

unfoldable pub contents : EventQueue → List Event
contents q = tabulate (slot q) q.q_count

-- The contract: a queue of at most 32 events that drops what comes when it is full.
unfoldable pub fifo_push : Event → List Event → List Event
fifo_push e es = if leb event_queue_size (length es) then es else es ++ e ∷ []

unfoldable pub fifo_wait : List Event → Option (Event × List Event)
fifo_wait [] = none
fifo_wait (e ∷ es) = some (e, es)

pub event_push-IsValid :
    {q : EventQueue} (kind : EventType) (a b : ℤ) → IsValid q → IsValid (event_push kind a b q)
unfolding event_push
event_push-IsValid {q} kind a b v =
    ground (arith, length-set q.queue q.head (record { kind = kind; a = a; b = b }))

-- Writing just behind the last event leaves the others where they are.
tabulate-set :
    (buf : List Event) (t n i : ℕ) (e : Event)
    → length buf ≡ event_queue_size
    → t < event_queue_size
    → n < event_queue_size
    → i ≡ (t + n) % event_queue_size
    → tabulate (λ k. get_or (set buf i e) ((t + k) % event_queue_size) no_event) (n + 1)
      ≡ tabulate (λ k. get_or buf ((t + k) % event_queue_size) no_event) n ++ e ∷ []
unfolding tabulate
tabulate-set buf t n i e hb ht hn hi = rw (add-one n) (
    ap₂ (λ xs x. xs ++ x ∷ [])
      (tabulate-ext _ _ n
        λ k hk. get_or-set_ne buf i ((t + k) % event_queue_size) e no_event (omega arith))
      (rw (← hi) (get_or-set_self buf i e no_event (omega arith))))

-- Pushing an event is `fifo_push` on the waiting events.
pub push_contents :
    (q : EventQueue) (kind : EventType) (a b : ℤ)
    → IsValid q
    → contents (event_push kind a b q)
      ≡ fifo_push (record { kind = kind; a = a; b = b }) (contents q)
unfolding event_push fifo_push contents
push_contents q kind a b v = elim (Bool-cases (leb event_queue_size q.q_count)) [
  | inl full ↦ rw (full, length-tabulate (slot q) q.q_count, full)
  | inr room ↦
      rw (room, length-tabulate (slot q) q.q_count, room)
        (tabulate-set q.queue q.tail q.q_count q.head (record { kind = kind; a = a; b = b })
          v.storage v.tail_in (ground arith) v.head_at)
]

slots-shift :
    (buf : List Event) (t n : ℕ)
    → tabulate (λ k. get_or buf ((t + suc k) % event_queue_size) no_event) n
      ≡ tabulate (λ k. get_or buf (((t + 1) % event_queue_size + k) % event_queue_size) no_event) n
slots-shift buf t n = tabulate-ext _ _ n λ k hk. ap (λ i. get_or buf i no_event) (omega arith)

wait_cases :
    (buf : List Event) (h t n : ℕ)
    → let q : EventQueue = record { queue = buf; head = h; tail = t; q_count = n } in
      IsValid q → Option.map (λ (e, q'). (e, contents q')) (event_wait q) ≡ fifo_wait (contents q)
unfolding event_wait fifo_wait contents
wait_cases buf h t zero v =
    rw (tabulate-zero (slot (record { queue = buf; head = h; tail = t; q_count = 0 })))
wait_cases buf h t (suc n) v =
    let e : (suc n == 0) ≡ false = ground arith in
    rw
      (
        e,
        tabulate-cons (slot (record { queue = buf; head = h; tail = t; q_count = suc n })) n,
        slots-shift buf t n,
      )
      (ap₂ (λ e es. some (e, es)) (ap (λ i. get_or buf i no_event) (omega arith))
        (ap
          (tabulate
            (λ k. get_or buf (((t + 1) % event_queue_size + k) % event_queue_size) no_event))
          (omega arith)))

-- One wait takes the oldest event, as `fifo_wait` does, and finds nothing exactly when that does.
pub wait_contents :
    (q : EventQueue)
    → IsValid q
    → Option.map (λ (e, q'). (e, contents q')) (event_wait q) ≡ fifo_wait (contents q)
wait_contents q v = wait_cases q.queue q.head q.tail q.q_count v

pub event_wait-IsValid :
    {q q' : EventQueue} {e : Event} → IsValid q → event_wait q ≡ some (e, q') → IsValid q'
unfolding event_wait
event_wait-IsValid v h = ground arith

pub event_init-IsValid :
    (q : EventQueue) → length q.queue ≡ event_queue_size → IsValid (event_init q)
unfolding event_init
event_init-IsValid q h = ground arith

-- What happens to the queue: an interrupt handler pushes, or the main loop looks.
pub data Op : Type 0 where
  push : EventType → ℤ → ℤ → Op
  wait : Op

-- The state behind a look, and the event that the main loop gets.
abbrev pub left {ℓ} : {S : Type ℓ} → S → Option (Event × S) → S
left s none = s
left s (some (e, s')) = s'

abbrev pub seen {ℓ} : {S : Type ℓ} → Option (Event × S) → Option Event
seen none = none
seen (some (e, s)) = some e

unfoldable pub run : EventQueue → List Op → List (Option Event)
run q [] = []
run q (push kind a b ∷ ops) = run (event_push kind a b q) ops
run q (wait ∷ ops) = seen (event_wait q) ∷ run (left q (event_wait q)) ops

unfoldable pub fifo_run : List Event → List Op → List (Option Event)
fifo_run es [] = []
fifo_run es (push kind a b ∷ ops) =
    fifo_run (fifo_push (record { kind = kind; a = a; b = b }) es) ops
fifo_run es (wait ∷ ops) = seen (fifo_wait es) ∷ fifo_run (left es (fifo_wait es)) ops

-- What one look leaves behind is valid, holds what `fifo_wait` leaves, and shows the same event.
wait_step :
    (q : EventQueue)
    → IsValid q
    → IsValid (left q (event_wait q))
      × (contents (left q (event_wait q)) ≡ left (contents q) (fifo_wait (contents q)))
      × (seen (event_wait q) ≡ seen (fifo_wait (contents q)))
wait_step q v = go (event_wait q) refl
  where
    go :
        (r : Option (Event × EventQueue))
        → event_wait q ≡ r
        → IsValid (left q r)
          × (contents (left q r) ≡ left (contents q) (fifo_wait (contents q)))
          × (seen r ≡ seen (fifo_wait (contents q)))
    go none h =
        let same = rw h at (wait_contents q v) in (v, ap (left (contents q)) same, ap seen same)
    go (some (e, q')) h =
        let same = rw h at (wait_contents q v) in
        (event_wait-IsValid v h, ap (left (contents q)) same, ap seen same)

-- On a queue whose indices are in range and agree with its count, any sequence of pushes by
-- interrupt handlers and looks by the main loop shows the main loop the events that a first-in
-- first-out queue of 32 places, which drops what comes when it is full, would show it.
pub run_refines :
    (ops : List Op) (q : EventQueue) → IsValid q → run q ops ≡ fifo_run (contents q) ops
unfolding run fifo_run
run_refines [] q v = refl
run_refines (push kind a b ∷ ops) q v =
    rw (← push_contents q kind a b v)
      (run_refines ops (event_push kind a b q) (event_push-IsValid kind a b v))
run_refines (wait ∷ ops) q v =
    let (valid, same, got) = wait_step q v in
    rw (got, ← same) (ap (λ es. seen (fifo_wait (contents q)) ∷ es) (run_refines ops _ valid))
