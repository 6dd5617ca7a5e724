-- ===== src/Sched/Ctas/Laws.antt =====
-- What the queues of thread blocks promise: each hands out, in order, what was submitted to it.
use native.Mathlib.Nat.{mod-lt}
use mathlib.Core.List.{append_assoc, append-nil}
use proto_gpu.Prelude.{
  ℕ, ◌%◌, ◌<◌, ◌≡◌, ◌≢◌, refl, sym, ◌∙◌, ap, subst, Bool, true, false, List, [], ◌∷◌, ◌++◌, ◌==◌,
  arith, if◌then◌else◌, length, get_or, get_or-set, length-set, length-replicate, Bool-cases, inl,
  inr, ==→eq, ==→ne, if_elim,
}
use proto_gpu.Sched.Ctas.{
  CtaWorkItem, CtaScheduler, CtaPolicy, queue_of, submit, close, request_stop, Acquired, waits,
  nothing, item, acquire, serve, create, fifo, sm_round_robin,
}

-- A call of some thread.
pub data Event : Type 0 where
  submits : CtaWorkItem → Event
  closes : Event
  stops : Event
  acquires : ℕ → Event

-- The state after a call.
unfoldable pub after : CtaPolicy → CtaScheduler → Event → CtaScheduler
unfolding submit close request_stop acquire
after policy s (submits i) = submit policy s i
after policy s closes = close s
after policy s stops = request_stop s
after policy s (acquires sm_id) = (acquire policy s sm_id).0

unfoldable pub after_all : CtaPolicy → CtaScheduler → List Event → CtaScheduler
unfolding after
after_all policy s [] = s
after_all policy s (e ∷ events) = after_all policy (after policy s e) events

-- The item that an answer holds.
abbrev pub answer : Acquired → List CtaWorkItem
answer waits = []
answer nothing = []
answer (item i) = i ∷ []

-- What a call submits to queue k, and what it takes from queue k.
unfoldable pub submitted : CtaPolicy → CtaScheduler → ℕ → Event → List CtaWorkItem
submitted policy s k (submits i) = if queue_of policy s i.cta_linear == k then i ∷ [] else []
submitted policy s k _ = []

unfoldable pub taken : CtaPolicy → CtaScheduler → ℕ → Event → List CtaWorkItem
unfolding acquire
taken policy s k (acquires sm_id) =
    if queue_of policy s sm_id == k then answer (acquire policy s sm_id).1 else []
taken policy s k _ = []

unfoldable pub all_submitted : CtaPolicy → CtaScheduler → ℕ → List Event → List CtaWorkItem
unfolding submitted after
all_submitted policy s k [] = []
all_submitted policy s k (e ∷ events) =
    submitted policy s k e ++ all_submitted policy (after policy s e) k events

unfoldable pub all_taken : CtaPolicy → CtaScheduler → ℕ → List Event → List CtaWorkItem
unfolding taken after
all_taken policy s k [] = []
all_taken policy s k (e ∷ events) =
    taken policy s k e ++ all_taken policy (after policy s e) k events

-- Every queue that an item or an SM is sent to exists.
abbrev pub IsSized : CtaPolicy → CtaScheduler → Type 0
IsSized policy s = (n : ℕ) → queue_of policy s n < length s.queues

module _ (s : CtaScheduler) (sm : ℕ) where
  serve-sm_count : (q : List CtaWorkItem) → (serve s sm q).0.sm_count ≡ s.sm_count
  serve-sm_count [] = refl
  serve-sm_count (first ∷ rest) = refl

  serve-length : (q : List CtaWorkItem) → length (serve s sm q).0.queues ≡ length s.queues
  serve-length [] = refl
  serve-length (first ∷ rest) = length-set s.queues sm rest

  -- The head of the queue is handed out, or nothing is.
  serve-account :
      (q : List CtaWorkItem)
      → sm < length s.queues
      → get_or s.queues sm [] ≡ q
      → q ≡ answer (serve s sm q).1 ++ get_or (serve s sm q).0.queues sm []
  serve-account [] h e = ground (arith, e)
  serve-account (first ∷ rest) h e = ground (arith, get_or-set s.queues sm sm rest [] h)

  serve-others :
      (k : ℕ) (q : List CtaWorkItem)
      → sm < length s.queues
      → sm ≢ k
      → get_or (serve s sm q).0.queues k [] ≡ get_or s.queues k []
  serve-others k [] h ne = refl
  serve-others k (first ∷ rest) h ne = ground (arith, get_or-set s.queues sm k rest [] h)

module _ (policy : CtaPolicy) (s : CtaScheduler) (sm_id : ℕ) where
  abbrev served : CtaScheduler × Acquired
  served = serve s (queue_of policy s sm_id) (get_or s.queues (queue_of policy s sm_id) [])

  acquire-sm_count : (acquire policy s sm_id).0.sm_count ≡ s.sm_count
  unfolding acquire
  acquire-sm_count =
      if_elim (λ (r : CtaScheduler × Acquired). r.0.sm_count ≡ s.sm_count) s.is_stopped refl
        (serve-sm_count s (queue_of policy s sm_id) (get_or s.queues (queue_of policy s sm_id) []))

  acquire-length : length (acquire policy s sm_id).0.queues ≡ length s.queues
  unfolding acquire
  acquire-length =
      if_elim (λ (r : CtaScheduler × Acquired). length r.0.queues ≡ length s.queues) s.is_stopped
        refl
        (serve-length s (queue_of policy s sm_id) (get_or s.queues (queue_of policy s sm_id) []))

  acquire-account :
      (k : ℕ)
      → queue_of policy s sm_id < length s.queues
      → get_or s.queues k []
        ≡ (if queue_of policy s sm_id == k then answer (acquire policy s sm_id).1 else [])
          ++ get_or (acquire policy s sm_id).0.queues k []
  unfolding acquire
  acquire-account k h =
      if_elim
        (λ (r : CtaScheduler × Acquired).
          get_or s.queues k []
          ≡ (if queue_of policy s sm_id == k then answer r.1 else []) ++ get_or r.0.queues k [])
        s.is_stopped (stopped (queue_of policy s sm_id == k))
        (elim (Bool-cases (queue_of policy s sm_id == k)) [
          | inl e ↦ rw e (taken_from k (==→eq (queue_of policy s sm_id) k e))
          | inr e ↦ rw e (
              sym (
                serve-others s (queue_of policy s sm_id) k
                  (get_or s.queues (queue_of policy s sm_id) []) h
                  (==→ne (queue_of policy s sm_id) k e)))
        ])
    where
      taken_from :
          (n : ℕ)
          → queue_of policy s sm_id ≡ n
          → get_or s.queues n [] ≡ answer served.1 ++ get_or served.0.queues n []
      taken_from n e =
          subst (λ m. get_or s.queues m [] ≡ answer served.1 ++ get_or served.0.queues m []) e
            (serve-account s (queue_of policy s sm_id)
              (get_or s.queues (queue_of policy s sm_id) []) h refl)

      stopped : (b : Bool) → get_or s.queues k [] ≡ (if b then [] else []) ++ get_or s.queues k []
      stopped true = refl
      stopped false = refl

-- A new scheduler has every queue that an item or an SM is sent to.
pub create-IsSized : (policy : CtaPolicy) (n : ℕ) → IsSized policy (create policy n)
unfolding create
create-IsSized fifo n m = omega arith
create-IsSized sm_round_robin n m =
    subst (λ k. m % count < k) (sym (length-replicate {A = List CtaWorkItem} count []))
      (mod-lt m positive)
  where
    count : ℕ
    count = if n == 0 then 1 else n

    positive : 0 < count
    positive = ground arith

after-queue_of :
    (policy : CtaPolicy) (s : CtaScheduler) (e : Event) (n : ℕ)
    → queue_of policy (after policy s e) n ≡ queue_of policy s n
unfolding after submit close request_stop
after-queue_of fifo s e n = refl
after-queue_of sm_round_robin s (submits i) n = refl
after-queue_of sm_round_robin s closes n = refl
after-queue_of sm_round_robin s stops n = refl
after-queue_of sm_round_robin s (acquires sm_id) n =
    ap (λ m. n % m) (acquire-sm_count sm_round_robin s sm_id)

-- One call keeps each queue's account: what it held and what was submitted to it is what was
-- taken from it and what it holds, in that order.
after-account :
    (policy : CtaPolicy) (s : CtaScheduler) (k : ℕ) (e : Event)
    → IsSized policy s
    → get_or s.queues k [] ++ submitted policy s k e
      ≡ taken policy s k e ++ get_or (after policy s e).queues k []
unfolding after submit close request_stop acquire submitted taken
after-account policy s k (submits i) sized = ground (
  arith,
  append-nil (get_or s.queues k []),
  get_or-set s.queues (queue_of policy s i.cta_linear) k
      (get_or s.queues (queue_of policy s i.cta_linear) [] ++ i ∷ []) [] (sized i.cta_linear),
)
after-account policy s k closes sized = append-nil (get_or s.queues k [])
after-account policy s k stops sized = append-nil (get_or s.queues k [])
after-account policy s k (acquires sm_id) sized =
    append-nil (get_or s.queues k []) ∙ acquire-account policy s sm_id k (sized sm_id)

after-length :
    (policy : CtaPolicy) (s : CtaScheduler) (e : Event)
    → length (after policy s e).queues ≡ length s.queues
unfolding after submit close request_stop
after-length policy s (submits i) =
    length-set s.queues (queue_of policy s i.cta_linear)
      (get_or s.queues (queue_of policy s i.cta_linear) [] ++ i ∷ [])
after-length policy s closes = refl
after-length policy s stops = refl
after-length policy s (acquires sm_id) = acquire-length policy s sm_id

after-IsSized :
    (policy : CtaPolicy) (s : CtaScheduler) (e : Event)
    → IsSized policy s
    → IsSized policy (after policy s e)
after-IsSized policy s e sized n =
    subst (λ m. m < length (after policy s e).queues) (sym (after-queue_of policy s e n))
      (subst (λ m. queue_of policy s n < m) (sym (after-length policy s e)) (sized n))

-- Where every queue that an item or an SM is sent to exists, over any sequence of calls each queue
-- hands out its items in the order in which they were submitted to it: what it held and then what was
-- submitted is what was taken and then what it holds.
pub after_all-account :
    (policy : CtaPolicy) (s : CtaScheduler) (k : ℕ) (events : List Event)
    → IsSized policy s
    → get_or s.queues k [] ++ all_submitted policy s k events
      ≡ all_taken policy s k events ++ get_or (after_all policy s events).queues k []
unfolding after_all all_submitted all_taken
after_all-account policy s k [] sized = append-nil (get_or s.queues k [])
after_all-account policy s k (e ∷ events) sized =
    sym (
      append_assoc (get_or s.queues k []) (submitted policy s k e)
        (all_submitted policy (after policy s e) k events))
    ∙ ap (λ q. q ++ all_submitted policy (after policy s e) k events)
        (after-account policy s k e sized)
    ∙ append_assoc (taken policy s k e) (get_or (after policy s e).queues k [])
        (all_submitted policy (after policy s e) k events)
    ∙ ap (λ q. taken policy s k e ++ q)
        (after_all-account policy (after policy s e) k events (after-IsSized policy s e sized))
    ∙ sym (
        append_assoc (taken policy s k e) (all_taken policy (after policy s e) k events)
          (get_or (after_all policy (after policy s e) events).queues k []))
