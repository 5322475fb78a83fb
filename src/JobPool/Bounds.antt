-- ===== src/JobPool/Bounds.antt =====
-- backend/app/services/task_scheduler.py: the size of the pool, and its jobs and callbacks by task.
use agent_demo.Prelude.{
  ℕ, ◌+◌, ◌*◌, ◌≤◌, ◌<◌, ◌≡◌, ◌≢◌, ◌⊎◌, inl, inr, refl, arith, true, false, not, ◌&&◌, none, some,
  [], ◌∷◌, leb, ◌==◌, if◌then◌else◌, length, is_some, Bool-cases, Option-cases,
}
use agent_demo.JobPool.{
  Job, Jobs, job_of_task, put_job, pop_job, is_live, new_job, enqueue, cancel, is_job, job_finished,
  end_job, Step, enqueued, cancelled, ended, finished, Reach, empty, next,
}

-- A task has at most one job.
abbrev pub Unique : Jobs → Type 0
Unique [] = Unit
Unique ((key, job) ∷ jobs) = (job_of_task key jobs ≡ none) × Unique jobs

other_put :
    (key k : ℕ) (job : Job) (jobs : Jobs)
    → (k == key) ≡ false
    → job_of_task key (put_job k job jobs) ≡ job_of_task key jobs
unfolding put_job
other_put key k job [] h = ground arith
other_put key k job ((x, j) ∷ jobs) h = ground (arith, other_put key k job jobs h)

put_job-Unique : (key : ℕ) (job : Job) (jobs : Jobs) → Unique jobs → Unique (put_job key job jobs)
unfolding put_job
put_job-Unique key job [] u = (refl, tt)
put_job-Unique key job ((k, j) ∷ jobs) u = elim (Bool-cases (k == key)) [
  | inl e ↦ rw e u
  | inr e ↦ rw e (ground (arith, other_put k key job jobs), put_job-Unique key job jobs u.1)
]

length-put_job :
    (key : ℕ) (job : Job) (jobs : Jobs)
    → length (put_job key job jobs)
      ≡ (if is_some (job_of_task key jobs) then length jobs else length jobs + 1)
unfolding put_job
length-put_job key job [] = ground arith
length-put_job key job ((k, j) ∷ jobs) = ground (arith, length-put_job key job jobs)

popped :
    (key k : ℕ) (jobs : Jobs)
    → job_of_task key jobs ≡ none
    → job_of_task key (pop_job k jobs) ≡ none
unfolding pop_job
popped key k [] h = refl
popped key k ((x, j) ∷ jobs) h = ground (arith, popped key k jobs)

pop_job-Unique : (key : ℕ) (jobs : Jobs) → Unique jobs → Unique (pop_job key jobs)
unfolding pop_job
pop_job-Unique key [] u = tt
pop_job-Unique key ((k, j) ∷ jobs) u = elim (Bool-cases (k == key)) [
  | inl e ↦ rw e u.1
  | inr e ↦ rw e (popped k key jobs u.0, pop_job-Unique key jobs u.1)
]

length-pop_job : (key : ℕ) (jobs : Jobs) → length (pop_job key jobs) ≤ length jobs
unfolding pop_job
length-pop_job key [] = omega arith
length-pop_job key ((k, j) ∷ jobs) = ground (arith, length-pop_job key jobs)

ended_none :
    (key job : ℕ) (jobs : Jobs)
    → job_of_task key jobs ≡ none
    → job_of_task key (end_job job jobs) ≡ none
unfolding end_job
ended_none key job [] h = refl
ended_none key job ((k, j) ∷ jobs) h = ground (arith, ended_none key job jobs)

end_job-Unique : (job : ℕ) (jobs : Jobs) → Unique jobs → Unique (end_job job jobs)
unfolding end_job
end_job-Unique job [] u = tt
end_job-Unique job ((k, j) ∷ jobs) u = (ended_none k job jobs u.0, end_job-Unique job jobs u.1)

length-end_job : (job : ℕ) (jobs : Jobs) → length (end_job job jobs) ≡ length jobs
unfolding end_job
length-end_job job [] = refl
length-end_job job ((k, j) ∷ jobs) = omega (arith, length-end_job job jobs)

-- The dict has one entry for a task and at most `max_concurrency * 2` entries.
pub record IsBounded (max_concurrency : ℕ) (jobs : Jobs) : Type 0 where
  pub unique : Unique jobs
  pub bounded : length jobs ≤ max_concurrency * 2

put_job-IsBounded :
    (n key : ℕ) (job : Job) (jobs : Jobs)
    → IsBounded n jobs
    → (is_some (job_of_task key jobs) ≡ true) ⊎ (length jobs < n * 2)
    → IsBounded n (put_job key job jobs)
put_job-IsBounded n key job jobs b room = record {
  unique = put_job-Unique key job jobs b.unique;
  bounded = ground (arith, length-put_job key job jobs);
}

enqueue-IsBounded :
    (n key fresh : ℕ) (jobs : Jobs) → IsBounded n jobs → IsBounded n (enqueue n key fresh jobs).1
unfolding enqueue
enqueue-IsBounded n key fresh jobs b = elim (Bool-cases (is_live (job_of_task key jobs))) [
  | inl e ↦ rw e b
  | inr e ↦ elim (Bool-cases (leb (n * 2) (length jobs))) [
    | inl full ↦ rw (e, full) b
    | inr free ↦ rw (e, free) (put_job-IsBounded n key (new_job fresh) jobs b (inr (ground arith)))
  ]
]

cancel-IsBounded : (n key : ℕ) (jobs : Jobs) → IsBounded n jobs → IsBounded n (cancel key jobs).1
unfolding cancel
cancel-IsBounded n key jobs b = elim (Option-cases (job_of_task key jobs)) [
  | inl e ↦ rw e b
  | inr (j, e) ↦ elim (Bool-cases j.is_done) [
    | inl d ↦ rw (e, d) b
    | inr d ↦ rw (e, d) (put_job-IsBounded n key _ jobs b (inl (rw e)))
  ]
]

Step-IsBounded :
    (n : ℕ) (jobs after : Jobs) → Step n jobs after → IsBounded n jobs → IsBounded n after
unfolding job_finished
Step-IsBounded n jobs after (enqueued key fresh) b = enqueue-IsBounded n key fresh jobs b
Step-IsBounded n jobs after (cancelled key) b = cancel-IsBounded n key jobs b
Step-IsBounded n jobs after (ended job) b = record {
  unique = end_job-Unique job jobs b.unique;
  bounded = omega (arith, length-end_job job jobs, b.bounded);
}
Step-IsBounded n jobs after (finished key job) b =
    elim (Bool-cases (is_job job (job_of_task key jobs))) [
      | inl e ↦ rw e (record {
        unique = pop_job-Unique key jobs b.unique;
        bounded = omega (arith, length-pop_job key jobs, b.bounded);
      })
      | inr e ↦ rw e b
    ]

-- However enqueueing, cancelling, ends of jobs and their callbacks interleave, the pool holds one job
-- for a task and at most twice `max_concurrency` jobs.
pub Reach-IsBounded : (n : ℕ) (jobs : Jobs) → Reach n jobs → IsBounded n jobs
Reach-IsBounded n jobs empty = record { unique = tt; bounded = omega arith }
Reach-IsBounded n jobs (next {jobs = before} r s) =
    Step-IsBounded n before jobs s (Reach-IsBounded n before r)

found_put : (key : ℕ) (job : Job) (jobs : Jobs) → job_of_task key (put_job key job jobs) ≡ some job
unfolding put_job
found_put key job [] = ground arith
found_put key job ((k, j) ∷ jobs) = ground (arith, found_put key job jobs)

-- A task is enqueued exactly when it has no running job and the pool is below its bound. It then has
-- the new job, and keeps it when the callback of an earlier job of the task comes late.
pub enqueue_survives :
    (n key fresh old : ℕ) (jobs : Jobs)
    → old ≢ fresh
    → ((enqueue n key fresh jobs).0
        ≡ (not (is_live (job_of_task key jobs)) && not (leb (n * 2) (length jobs))))
      × (job_of_task key (job_finished key old (enqueue n key fresh jobs).1) ≡ (
          if (enqueue n key fresh jobs).0
          then some (new_job fresh)
          else job_of_task key (job_finished key old jobs)))
unfolding enqueue job_finished
enqueue_survives n key fresh old jobs h = ground (arith, found_put key (new_job fresh) jobs)
