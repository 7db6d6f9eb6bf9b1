-- ===== src/Storage/Requests.antt =====
-- The requests that the pointers of kernel/storage_thread.c's queue hold.
use kernel_basic.Prelude.{
  ℕ, ◌≡◌, ◌≢◌, refl, sym, ap, ◌∙◌, List, [], ◌∷◌, ◌++◌, Option, none, some, ◌==◌, if◌then◌else◌,
  arith, if_ind, ==→≡, ==→≢,
}
use mathlib.Core.Path.{subst}
use kernel_basic.Storage.{Queue, put_next, enqueue, dequeue}

-- The address stands for none of these requests.
abbrev pub Absent : ℕ → List ℕ → Type 0
Absent r [] = Unit {0}
Absent r (x ∷ xs) = (x ≢ r) × Absent r xs

-- From `p` on the `next` fields lead through these requests, all different, to 0.
abbrev pub Chain : (ℕ → ℕ) → ℕ → List ℕ → Type 0
Chain next p [] = p ≡ 0
Chain next p (x ∷ xs) = (p ≡ x) × (x ≢ 0) × Absent x xs × Chain next (next x) xs

-- The newest request, 0 where there is none.
abbrev pub newest : List ℕ → ℕ
newest [] = 0
newest (x ∷ []) = x
newest (x ∷ y ∷ xs) = newest (y ∷ xs)

-- The queue holds these requests, the oldest first.
pub record Holds (q : Queue) (xs : List ℕ) : Type 0 where
  pub chain : Chain q.next q.queue_head xs
  pub tail_is : q.queue_tail ≡ newest xs

Absent-snoc : (x r : ℕ) (xs : List ℕ) → Absent x xs → r ≢ x → Absent x (xs ++ (r ∷ []))
Absent-snoc x r [] a n = (n, tt)
Absent-snoc x r (y ∷ xs) a n = (a.0, Absent-snoc x r xs a.1 n)

Absent-newest : (x y : ℕ) (xs : List ℕ) → Absent x (y ∷ xs) → newest (y ∷ xs) ≢ x
Absent-newest x y [] a = a.0
Absent-newest x y (z ∷ xs) a = Absent-newest x z xs a.1

put_other : (next : ℕ → ℕ) (p v k : ℕ) → k ≢ p → put_next next p v k ≡ next k
put_other next p v k h = ground arith

put_same : (next : ℕ → ℕ) (p v : ℕ) → put_next next p v p ≡ v
put_same next p v = ground arith

-- The writes of `enqueue` behind a request hang the new one on.
chain_snoc :
    (next : ℕ → ℕ) (p x : ℕ) (xs : List ℕ) (r : ℕ)
    → Chain next p (x ∷ xs)
    → Absent r (x ∷ xs)
    → r ≢ 0
    → Chain (put_next (put_next next r 0) (newest (x ∷ xs)) r) p ((x ∷ xs) ++ (r ∷ []))
chain_snoc next p x [] r (at, live, off, end) a n = (
  at,
  live,
  ((λ e. a.0 (sym e)), tt),
  (
    put_same (put_next next r 0) x r,
    n,
    tt,
    put_other (put_next next r 0) x r r (λ e. a.0 (sym e)) ∙ put_same next r 0,
  ),
)
chain_snoc next p x (y ∷ xs) r (at, live, off, rest) a n =
    let new = put_next (put_next next r 0) (newest (y ∷ xs)) r in
    let same : new x ≡ next x =
      put_other (put_next next r 0) (newest (y ∷ xs)) r x (λ e. Absent-newest x y xs off (sym e))
      ∙ put_other next r 0 x a.0 in
    (
      at,
      live,
      Absent-snoc x r (y ∷ xs) off (λ e. a.0 (sym e)),
      subst (λ k. Chain new k ((y ∷ xs) ++ (r ∷ []))) (sym same)
          (chain_snoc next (next x) y xs r rest a.1 n),
    )

newest-snoc : (xs : List ℕ) (r : ℕ) → newest (xs ++ (r ∷ [])) ≡ r
newest-snoc [] r = refl
newest-snoc (x ∷ []) r = refl
newest-snoc (x ∷ y ∷ xs) r = newest-snoc (y ∷ xs) r

newest-live : (next : ℕ → ℕ) (p x : ℕ) (xs : List ℕ) → Chain next p (x ∷ xs) → newest (x ∷ xs) ≢ 0
newest-live next p x [] (at, live, off, end) = live
newest-live next p x (y ∷ xs) (at, live, off, rest) = newest-live next (next x) y xs rest

-- Where the queue's pointers hold a list of requests, all different and none of them NULL,
-- enqueueing a request that is not NULL and not among them leaves pointers that hold the list with
-- that request at its end.
pub enqueue-Holds :
    (q : Queue) (xs : List ℕ) (r : ℕ)
    → Holds q xs
    → Absent r xs
    → r ≢ 0
    → Holds (enqueue r q) (xs ++ (r ∷ []))
unfolding enqueue
enqueue-Holds q [] r h a n =
    if_ind (λ u. Holds u (r ∷ [])) (q.queue_tail == 0)
      (λ _. record { chain = (refl, n, tt, put_same q.next r 0); tail_is = refl })
      (λ e. absurd (==→≢ q.queue_tail 0 e h.tail_is))
enqueue-Holds q (x ∷ xs) r h a n =
    let live = newest-live q.next q.queue_head x xs h.chain in
    if_ind (λ u. Holds u ((x ∷ xs) ++ (r ∷ []))) (q.queue_tail == 0)
      (λ e. absurd (live (sym h.tail_is ∙ ==→≡ q.queue_tail 0 e)))
      (λ e. record {
        chain =
            subst
              (λ t. Chain (put_next (put_next q.next r 0) t r) q.queue_head ((x ∷ xs) ++ (r ∷ [])))
              (sym h.tail_is) (chain_snoc q.next q.queue_head x xs r h.chain a n);
        tail_is = sym (newest-snoc (x ∷ xs) r);
      })

-- What the worker gets: nothing from an empty queue, else the oldest request, and the others stay.
abbrev pub Dequeued : List ℕ → Option (ℕ × Queue) → Type 0
Dequeued [] o = o ≡ none
Dequeued (x ∷ xs) o = (q : Queue) × (o ≡ some (x, q)) × Holds q xs

tail_after :
    (next : ℕ → ℕ) (p x : ℕ) (xs : List ℕ) (t : ℕ)
    → Chain next p xs
    → t ≡ newest (x ∷ xs)
    → (if p == 0 then 0 else t) ≡ newest xs
tail_after next p x [] t c e = ground arith
tail_after next p x (y ∷ xs) t c e = ground arith

-- Where the queue's pointers hold a list of requests, dequeueing finds nothing exactly if the list
-- is empty, and else returns its first request and leaves pointers that hold the others.
pub dequeue-Dequeued : (q : Queue) (xs : List ℕ) → Holds q xs → Dequeued xs (dequeue q)
unfolding dequeue
dequeue-Dequeued q [] h = rw h.chain
dequeue-Dequeued q (x ∷ xs) h =
    let (at, live, off, rest) = h.chain in
    let after = q.next q.queue_head in
    let c : Chain q.next after xs = subst (λ k. Chain q.next (q.next k) xs) (sym at) rest in
    let q' : Queue = record q {
      queue_head = after;
      queue_tail = if after == 0 then 0 else q.queue_tail;
    } in
    (
      q',
      if_ind (λ o. o ≡ some (x, q')) (q.queue_head == 0)
          (λ e. absurd (live (sym at ∙ ==→≡ q.queue_head 0 e))) (λ _. ap (λ k. some (k, q')) at),
      record { chain = c; tail_is = tail_after q.next after x xs q.queue_tail c h.tail_is },
    )
