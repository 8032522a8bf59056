-- ===== src/Scheduler/Claims.antt =====
-- internal/scheduler/scheduler.go: the claims of a tick, and the queues of the workers.
use vaultd.Base.{
  ℕ, ◌≤◌, ◌<◌, String, Bool, true, false, not, ◌&&◌, ◌||◌, Option, none, some, List, [], ◌∷◌, ◌++◌,
  if◌then◌else◌, ltb, ◌==◌, ◌=s=◌, is_nil, codes_eq, codes_eq_iff, ◌≡◌, ◌≢◌, inl, inr, refl, sym,
  subst, arith, length, In, Bool-cases, some_eq,
}
use vaultd.Scheduler.Job.{Job, job_key, due_at}
use vaultd.Scheduler.Dispatch.{
  Worker, Scheduler, or_zero, due, set_last, record_run, hand_over, dispatch_to, dispatch, tick,
  set_worker, enqueue,
}

-- Whether a scheduled job is due right after it was claimed.
due_at-claimed :
    (next : ℕ → ℕ) (now : ℕ) → now ≢ 0 → now < next now → due_at (some next) now now ≡ false
due_at-claimed next now z h =
    let nonzero : (now == 0) ≡ false = ground (arith, z) in
    let later : ltb now (next now) ≡ true = ground arith in rw (nonzero, later) refl

hand_over-last : (w : Worker) (j : Job) (s : Scheduler) → (hand_over w j s).last ≡ s.last
hand_over-last w j s =
    elim (Bool-cases (not (w.overlap =s= "queue") && (w.busy || not (is_nil w.queue)))) [
      | inl e ↦ rw e refl
      | inr e ↦ elim (Bool-cases (is_nil w.queue)) [
        | inl f ↦ rw (e, f) refl
        | inr f ↦ rw (e, f) refl
      ]
    ]

dispatch-last :
    (j : Job) (w : Worker) (now : ℕ) (s : Scheduler)
    → s.workers j.target ≡ some w
    → (dispatch j now s).last ≡ set_last s.last (job_key j) now
unfolding dispatch
dispatch-last j w now s e = rw e (hand_over-last w j (record_run j now s))

HasWorker : Scheduler → String → Type 0
HasWorker s t = (w : Worker) × (s.workers t ≡ some w)

set_worker-HasWorker :
    (s : Scheduler) (target t : String) (w : Worker)
    → HasWorker s t
    → (v : Worker) × (set_worker s.workers target w t ≡ some v)
unfolding HasWorker
set_worker-HasWorker s target t w (v, e) = elim (Bool-cases (t =s= target)) [
  | inl f ↦ rw f (w, refl)
  | inr f ↦ rw f (v, e)
]

hand_over-HasWorker :
    (w : Worker) (j : Job) (s : Scheduler) (t : String)
    → HasWorker s t
    → HasWorker (hand_over w j s) t
unfolding HasWorker
hand_over-HasWorker w j s t h =
    elim (Bool-cases (not (w.overlap =s= "queue") && (w.busy || not (is_nil w.queue)))) [
      | inl e ↦ rw e h
      | inr e ↦ elim (Bool-cases (is_nil w.queue)) [
        | inl f ↦ rw (e, f) (set_worker-HasWorker s j.target t (enqueue w j) h)
        | inr f ↦ rw (e, f) h
      ]
    ]

dispatch-HasWorker :
    (j : Job) (now : ℕ) (s : Scheduler) (t : String)
    → HasWorker s t
    → HasWorker (dispatch j now s) t
unfolding dispatch HasWorker
dispatch-HasWorker j now s t h = step (s.workers j.target)
  where
    step : (o : Option Worker) → HasWorker (dispatch_to o j now s) t
    step none = h
    step (some w) = hand_over-HasWorker w j (record_run j now s) t h

module _ (j : Job) (next : ℕ → ℕ) (now : ℕ) (scheduled : j.schedule ≡ some next) (nonzero : now ≢ 0)
    (later : now < next now) where
  -- A claim at this time leaves the job not due, whichever job claims.
  dispatch-settled :
      (k : Job) (s : Scheduler) → due s j now ≡ false → due (dispatch k now s) j now ≡ false
  unfolding dispatch
  dispatch-settled k s h = step (s.workers k.target) refl
    where
      claimed :
          (b : Bool)
          → due_at j.schedule (or_zero (if b then some now else s.last (job_key j))) now ≡ false
      claimed true = rw scheduled (due_at-claimed next now nonzero later)
      claimed false = h

      step :
          (o : Option Worker) → s.workers k.target ≡ o → due (dispatch_to o k now s) j now ≡ false
      step none e = h
      step (some w) e =
          rw (hand_over-last w k (record_run k now s)) (claimed (codes_eq (job_key j) (job_key k)))

  dispatch-settles : (s : Scheduler) → HasWorker s j.target → due (dispatch j now s) j now ≡ false
  unfolding HasWorker
  dispatch-settles s (w, e) =
      let same : codes_eq (job_key j) (job_key j) ≡ true =
        (codes_eq_iff (job_key j) (job_key j)).1 refl in
      rw (dispatch-last j w now s e, same, scheduled) (due_at-claimed next now nonzero later)

  tick-settled :
      (js : List Job) (s : Scheduler) → due s j now ≡ false → due (tick js now s) j now ≡ false
  unfolding tick
  tick-settled [] s h = h
  tick-settled (k ∷ js) s h = elim (Bool-cases (due s k now)) [
    | inl e ↦ rw (e, tick) (tick-settled js (dispatch k now s) (dispatch-settled k s h))
    | inr e ↦ rw (e, tick) (tick-settled js s h)
  ]

  tick-settles :
      (js : List Job) (s : Scheduler)
      → In j js
      → HasWorker s j.target
      → due (tick js now s) j now ≡ false
  unfolding tick
  tick-settles [] s i h = absurd i.1
  tick-settles (k ∷ js) s (inl q) h = elim (Bool-cases (due s k now)) [
    | inl e ↦
        rw (e, tick)
          (tick-settled js (dispatch k now s)
            (subst (λ x. due (dispatch x now s) j now ≡ false) q (dispatch-settles s h)))
    | inr e ↦ rw (e, tick) (tick-settled js s (subst (λ x. due s x now ≡ false) (sym q) e))
  ]
  tick-settles (k ∷ js) s (inr i) h = elim (Bool-cases (due s k now)) [
    | inl e ↦
        rw (e, tick) (tick-settles js (dispatch k now s) i (dispatch-HasWorker k now s j.target h))
    | inr e ↦ rw (e, tick) (tick-settles js s i h)
  ]

  -- After a tick no scheduled job of the list whose target has a worker is due at the time of the
  -- tick, if that is not the zero time and the schedule gives a later time than it is asked about.
  pub tick-claims :
      (js : List Job) (s : Scheduler) (w : Worker)
      → In j js
      → s.workers j.target ≡ some w
      → due (tick js now s) j now ≡ false
  unfolding HasWorker
  tick-claims js s w i e = tick-settles js s i (w, e)

-- No worker has more than the one job for which its channel has room.
abbrev IsBounded : Scheduler → Type 0
IsBounded s = (t : String) (w : Worker) → s.workers t ≡ some w → length w.queue ≤ 1

hand_over-IsBounded :
    (w : Worker) (j : Job) (s : Scheduler) → IsBounded s → IsBounded (hand_over w j s)
hand_over-IsBounded w j s h =
    elim (Bool-cases (not (w.overlap =s= "queue") && (w.busy || not (is_nil w.queue)))) [
      | inl e ↦ rw e h
      | inr e ↦ elim (Bool-cases (is_nil w.queue)) [
        | inl f ↦
            rw (e, f)
              (λ t v p. elim (Bool-cases (t =s= j.target)) [
                | inl g ↦
                    let same : enqueue w j ≡ v = some_eq (rw g at p) in
                    subst (λ (x : Worker). length x.queue ≤ 1) same (one w.queue f)
                | inr g ↦ h t v (rw g at p)
              ])
        | inr f ↦ rw (e, f) h
      ]
    ]
  where
    one : (q : List Job) → is_nil q ≡ true → length (q ++ j ∷ []) ≤ 1
    one [] f = omega arith
    one (k ∷ q) f = absurd (cc f)

-- A tick keeps at most one job in the queue of each worker, whatever the overlap policies.
tick-IsBounded : (js : List Job) (now : ℕ) (s : Scheduler) → IsBounded s → IsBounded (tick js now s)
unfolding tick dispatch
tick-IsBounded [] now s h = h
tick-IsBounded (j ∷ js) now s h = elim (Bool-cases (due s j now)) [
  | inl e ↦
      rw (e, tick)
        (tick-IsBounded js now (dispatch_to (s.workers j.target) j now s)
          (step (s.workers j.target)))
  | inr e ↦ rw (e, tick) (tick-IsBounded js now s h)
]
  where
    step : (o : Option Worker) → IsBounded (dispatch_to o j now s)
    step none = h
    step (some w) = hand_over-IsBounded w j (record_run j now s) h
