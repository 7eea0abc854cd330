-- ===== src/JobSet/Tallies.antt =====
-- The counters against the calls that were made.
use picoshift.Prelude.{
  ℕ, zero, suc, ◌+◌, ◌^◌, ◌≤◌, ◌<◌, String, Bool, false, not, ◌&&◌, ◌≡◌, ap, ltb, if◌then◌else◌,
  Option, none, some, List, [], ◌∷◌, arith,
}
use picoshift.Json.Interface.{Serde}
use picoshift.Prelude.Options.{◌>>=◌ as then_some, unwrap_or}
use picoshift.Kube.{Result, ok, err, send, >>=-eq-ok}
use picoshift.JobSet.{
  JobTypes, JobStatus, Tally, count_job, count_missing, Job, Call, get_opt, create, patch_status,
  Api, ReplicatedJob, read_replicated_job, child_job, sync_job, sync_replicas, sync_all,
  count_or_create, created_or_conflict, no_jobs,
}

module _ {J : Serde} (K : JobTypes J) (api : Api K) where
  -- How many jobs the calls have created, or tried to.
  abbrev pub creates : List (Call K) → ℕ
  creates [] = 0
  creates (create job ∷ log) = suc (creates log)
  creates (get_opt name ∷ log) = creates log
  creates (patch_status name v ∷ log) = creates log

  abbrev pub finished : Tally → ℕ
  finished t = t.succeeded_jobs + t.failed_jobs

  abbrev some_pods : Option JobStatus → (JobStatus → Option ℕ) → Bool
  some_pods status pods = ltb 0 (unwrap_or (then_some status pods) 0)

  -- A job with a pod that succeeded has succeeded; one with failed pods only has failed.
  abbrev has_succeeded : Result (Option (Option JobStatus)) → Bool
  has_succeeded (ok (some status)) = some_pods status (λ s. s.succeeded)
  has_succeeded (ok none) = false
  has_succeeded (err e) = false

  abbrev has_failed : Result (Option (Option JobStatus)) → Bool
  has_failed (ok (some status)) =
      not (some_pods status (λ s. s.succeeded)) && some_pods status (λ s. s.failed)
  has_failed (ok none) = false
  has_failed (err e) = false

  -- How many of the jobs that were read pass a test.
  abbrev reads_of : (Result (Option (Option JobStatus)) → Bool) → List (Call K) → ℕ
  reads_of test [] = 0
  reads_of test (get_opt name ∷ log) =
      (if test (api.job log name) then 1 else 0) + reads_of test log
  reads_of test (create job ∷ log) = reads_of test log
  reads_of test (patch_status name v ∷ log) = reads_of test log

  abbrev pub reads_succeeded : List (Call K) → ℕ
  reads_succeeded log = reads_of has_succeeded log

  abbrev pub reads_failed : List (Call K) → ℕ
  reads_failed log = reads_of has_failed log

  -- From one tally to the next over `n` jobs: each is counted, and those that were created are not
  -- among the finished, which were all read so, as succeeded or as failed.
  pub record Counted (n : ℕ) (t : Tally) (log : List (Call K)) (t' : Tally) (log' : List (Call K))
      : Type 0 where
    pub counted : t'.total_jobs ≡ t.total_jobs + n
    pub unfinished : finished t' + creates log' ≤ finished t + creates log + n
    pub grows : creates log ≤ creates log'
    pub succeeded_read :
        t'.succeeded_jobs + reads_succeeded log ≤ t.succeeded_jobs + reads_succeeded log'
    pub failed_read : t'.failed_jobs + reads_failed log ≤ t.failed_jobs + reads_failed log'
    pub few_reads :
        reads_succeeded log' + reads_failed log' ≤ reads_succeeded log + reads_failed log + n

  abbrev one_if : Bool → ℕ
  one_if b = if b then 1 else 0

  count_job-le :
      (status : Option JobStatus) (t : Tally)
      → t.total_jobs + 1 < 2 ^ 32
      → ((count_job status t).total_jobs ≡ t.total_jobs + 1)
        × ((count_job status t).succeeded_jobs
            ≤ t.succeeded_jobs + one_if (has_succeeded (ok (some status))))
        × ((count_job status t).failed_jobs
            ≤ t.failed_jobs + one_if (has_failed (ok (some status))))
  unfolding count_job
  count_job-le status t h = ground arith

  one_read :
      (answer : Result (Option (Option JobStatus)))
      → one_if (has_succeeded answer) + one_if (has_failed answer) ≤ 1
  one_read (ok (some status)) = ground arith
  one_read (ok none) = ground arith
  one_read (err e) = ground arith

  after_create :
      (job : Job K) (t t' : Tally) (log : List (Call K)) (r : Result (Unit {0}))
      → t.total_jobs + 1 < 2 ^ 32
      → (created_or_conflict K api t r (create job ∷ log)).0 ≡ ok t'
      → Counted 1 t log t' (created_or_conflict K api t r (create job ∷ log)).1
  unfolding count_missing
  after_create job t t' log r h e = ground arith

  after_get :
      (job : Job K) (t t' : Tally) (log : List (Call K)) (found : Option (Option JobStatus))
      → t.total_jobs + 1 < 2 ^ 32
      → api.job log job.name ≡ ok found
      → (count_or_create K api job t found (get_opt job.name ∷ log)).0 ≡ ok t'
      → Counted 1 t log t' (count_or_create K api job t found (get_opt job.name ∷ log)).1
  after_get job t t' log none h read e =
      let c =
        after_create job t t' (get_opt job.name ∷ log) (api.created (get_opt job.name ∷ log) job) h
          e in
      record {
        counted = c.counted;
        unfinished = c.unfinished;
        grows = c.grows;
        succeeded_read = omega (arith, c.succeeded_read, ap (λ a. one_if (has_succeeded a)) read);
        failed_read = omega (arith, c.failed_read, ap (λ a. one_if (has_failed a)) read);
        few_reads = omega (
          arith,
          c.few_reads,
          ap (λ a. one_if (has_succeeded a)) read,
          ap (λ a. one_if (has_failed a)) read,
        );
      }
  after_get job t t' log (some status) h read e =
      let (total, most_succeeded, most_failed) = count_job-le status t h in
      let same_succeeded = ap (λ a. one_if (has_succeeded a)) read in
      let same_failed = ap (λ a. one_if (has_failed a)) read in
      let most = one_read (api.job log job.name) in
      ground (arith, total, most_succeeded, most_failed, same_succeeded, same_failed, most)

  sync_job-Counted :
      (job : Job K) (t t' : Tally) (log : List (Call K))
      → t.total_jobs + 1 < 2 ^ 32
      → (sync_job K api job t log).0 ≡ ok t'
      → Counted 1 t log t' (sync_job K api job t log).1
  unfolding sync_job
  sync_job-Counted job t t' log h e =
      let (found, read, rest) =
        >>=-eq-ok (send (get_opt job.name) (λ log. api.job log job.name))
          (count_or_create K api job t) log e in
      rw rest (after_get job t t' log found h read (rw rest at e))

  Counted-trans :
      (m n : ℕ) {t u v : Tally} {a b c : List (Call K)}
      → Counted m t a u b
      → Counted n u b v c
      → Counted (m + n) t a v c
  Counted-trans m n x y = ground arith

  sync_replicas-Counted :
      (name ns uid : String) (rj : ReplicatedJob K) (left idx : ℕ) (t t' : Tally)
      (log : List (Call K))
      → t.total_jobs + left < 2 ^ 32
      → (sync_replicas K api name ns uid rj left idx t log).0 ≡ ok t'
      → Counted left t log t' (sync_replicas K api name ns uid rj left idx t log).1
  unfolding sync_replicas
  sync_replicas-Counted name ns uid rj zero idx t t' log h e = ground arith
  sync_replicas-Counted name ns uid rj (suc left) idx t t' log h e =
      let job = child_job K name ns uid rj idx in
      let (u, here, rest) =
        >>=-eq-ok (sync_job K api job t) (sync_replicas K api name ns uid rj left (idx + 1)) log
          e in
      let c = sync_job-Counted job t u log (omega arith) here in
      let room : u.total_jobs + left < 2 ^ 32 = omega (arith, c.counted) in
      let d =
        sync_replicas-Counted name ns uid rj left (idx + 1) u t' (sync_job K api job t log).1 room
          (rw rest at e) in
      rw rest (
        let s = Counted-trans 1 left c d in
        record {
          counted = omega (arith, s.counted);
          unfinished = omega (arith, s.unfinished);
          grows = s.grows;
          succeeded_read = s.succeeded_read;
          failed_read = s.failed_read;
          few_reads = omega (arith, s.few_reads);
        })

  -- The number of children that the entries ask for.
  abbrev pub wanted : List J.Value → ℕ
  wanted [] = 0
  wanted (v ∷ vs) = (read_replicated_job K v).replicas + wanted vs

  pub sync_all-Counted :
      (name ns uid : String) (vs : List J.Value) (t t' : Tally) (log : List (Call K))
      → t.total_jobs + wanted vs < 2 ^ 32
      → (sync_all K api name ns uid vs t log).0 ≡ ok t'
      → Counted (wanted vs) t log t' (sync_all K api name ns uid vs t log).1
  unfolding sync_all
  sync_all-Counted name ns uid [] t t' log h e = ground arith
  sync_all-Counted name ns uid (v ∷ vs) t t' log h e =
      let rj = read_replicated_job K v in
      let first = sync_replicas K api name ns uid rj rj.replicas 0 t in
      let (u, here, rest) = >>=-eq-ok first (sync_all K api name ns uid vs) log e in
      let c = sync_replicas-Counted name ns uid rj rj.replicas 0 t u log (omega arith) here in
      let room : u.total_jobs + wanted vs < 2 ^ 32 = omega (arith, c.counted) in
      let d = sync_all-Counted name ns uid vs u t' (first log).1 room (rw rest at e) in
      rw rest (Counted-trans rj.replicas (wanted vs) c d)

  -- With fewer than 2³² children, a pass over them that meets no error counts each child once, and
  -- the children that it finds finished and those that it tries to create together are at most all:
  -- a pass that counts all of them as finished has created none.
  sync_all-finished :
      (name ns uid : String) (vs : List J.Value) (t : Tally) (log : List (Call K))
      → wanted vs < 2 ^ 32
      → (sync_all K api name ns uid vs (no_jobs K api) log).0 ≡ ok t
      → (t.total_jobs ≡ wanted vs)
        × (finished t + creates (sync_all K api name ns uid vs (no_jobs K api) log).1
            ≤ t.total_jobs + creates log)
  sync_all-finished name ns uid vs t log h e =
      let c = sync_all-Counted name ns uid vs (no_jobs K api) t log (omega arith) e in
      (omega (arith, c.counted), omega (arith, c.counted, c.unfinished))
