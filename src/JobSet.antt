-- ===== src/JobSet.antt =====
-- The JobSet controller, simulator/src/jobset.rs. Counts of pods are not negative; the `u32`
-- counters keep their wrap-around.
pub mod Tallies
pub mod Outcome
use picoshift.Prelude.{
  ℕ, zero, suc, ◌+◌, ◌%◌, ◌^◌, String, Bool, true, false, ◌&&◌, Option, none, some, List, [], ◌∷◌,
  ◌++◌, ltb, eqb, show, if◌then◌else◌,
}
use picoshift.Prelude.Options.{◌>>=◌ as then_some, unwrap_or, is_some}
use picoshift.Prelude.Text.Replace.{format}
use picoshift.Prelude.Maps.{Map}
use picoshift.Json.{get_in, str_in, array_in}
use picoshift.Json.Interface.{Serde}
use picoshift.Kube.{
  DynamicObject, KubeError, is_code, Result, ok, err, Action, await_change, requeue, Exec, pure,
  fail, send, attempt, ◌>>=◌,
}

-- The typed objects of `k8s_openapi` that pass through the controller, and their parsers.
pub record JobTypes (J : Serde) : Type 1 where
  pub JobSpec : Type 0
  pub PodTemplateSpec : Type 0
  pub parse_job_spec : J.Value → Option JobSpec
  pub parse_pod_template : J.Value → Option PodTemplateSpec
  -- `spec.template.spec.is_none()`
  pub lacks_pod_spec : JobSpec → Bool
  -- `spec.template = pt`
  pub with_template : JobSpec → PodTemplateSpec → JobSpec
  -- `JobSpec { template, ..Default::default() }`
  pub job_spec_of : PodTemplateSpec → JobSpec
  pub default_pod_template : PodTemplateSpec

pub record JobStatus : Type 0 where
  pub succeeded : Option ℕ
  pub failed : Option ℕ

pub record OwnerReference : Type 0 where
  pub api_version : String
  pub kind : String
  pub name : String
  pub uid : String
  pub controller : Bool
  pub block_owner_deletion : Bool

pub record Tally : Type 0 where
  pub total_jobs : ℕ
  pub succeeded_jobs : ℕ
  pub failed_jobs : ℕ

abbrev pub next32 : ℕ → ℕ
next32 n = (n + 1) % 2 ^ 32

-- What an existing job adds to the counters.
unfoldable pub count_job : Option JobStatus → Tally → Tally
count_job status t =
    let succeeded = unwrap_or (then_some status (λ s. s.succeeded)) 0 in
    let failed = unwrap_or (then_some status (λ s. s.failed)) 0 in
    if ltb 0 succeeded
    then record t { total_jobs = next32 t.total_jobs; succeeded_jobs = next32 t.succeeded_jobs }
    else if ltb 0 failed
    then record t { total_jobs = next32 t.total_jobs; failed_jobs = next32 t.failed_jobs }
    else record t { total_jobs = next32 t.total_jobs }

unfoldable pub count_missing : Tally → Tally
count_missing t = record t { total_jobs = next32 t.total_jobs }

module _ {J : Serde} (K : JobTypes J) where
  open J use {Value, get, as_str, as_bool, as_u64, str, arr, obj}

  pub record Job : Type 0 where
    pub name : String
    pub namespace : String
    pub labels : Map String
    pub owner_references : List OwnerReference
    pub spec : K.JobSpec

  pub data Call : Type 0 where
    get_opt : String → Call
    create : Job → Call
    patch_status : String → Value → Call

  -- The API server: the status of a job that is there, and the results of the writes.
  pub record Api : Type 0 where
    pub job : List Call → String → Result (Option (Option JobStatus))
    pub created : List Call → Job → Result (Unit {0})
    pub patched : List Call → String → Value → Result (Unit {0})

  -- The spec of a child: the job template, with the pod template where it has no pod spec.
  unfoldable pub child_spec : Option K.JobSpec → Option K.PodTemplateSpec → K.JobSpec
  child_spec none pod_template = K.job_spec_of (unwrap_or pod_template K.default_pod_template)
  child_spec (some jt) none = jt
  child_spec (some jt) (some pt) = if K.lacks_pod_spec jt then K.with_template jt pt else jt

  -- One entry of `replicatedJobs`.
  pub record ReplicatedJob : Type 0 where
    pub rj_name : String
    pub replicas : ℕ
    pub job_template : Option K.JobSpec
    pub pod_template : Option K.PodTemplateSpec

  unfoldable pub read_replicated_job : Value → ReplicatedJob
  read_replicated_job rj = record {
    rj_name = unwrap_or (str_in J rj ("name" ∷ [])) "worker";
    replicas = unwrap_or (then_some (get rj "replicas") as_u64) 1 % 2 ^ 32;
    job_template = then_some (get_in J rj ("template" ∷ "spec" ∷ [])) K.parse_job_spec;
    pod_template =
        then_some (get_in J rj ("template" ∷ "spec" ∷ "template" ∷ [])) K.parse_pod_template;
  }

  unfoldable pub job_name : String → ReplicatedJob → ℕ → String
  job_name name rj idx = format (name ∷ "-" ∷ rj.rj_name ∷ "-" ∷ show idx ∷ [])

  unfoldable pub child_job : String → String → String → ReplicatedJob → ℕ → Job
  unfolding job_name child_spec
  child_job name ns uid rj idx = record {
    name = job_name name rj idx;
    namespace = ns;
    labels =
        ("jobset.x-k8s.io/jobset-name", name)
        ∷ ("jobset.x-k8s.io/replicatedjob-name", rj.rj_name)
        ∷ ("jobset.x-k8s.io/job-index", show idx)
        ∷ [];
    owner_references =
        (record {
          api_version = "jobset.x-k8s.io/v1alpha2";
          kind = "JobSet";
          name = name;
          uid = uid;
          controller = true;
          block_owner_deletion = true;
        })
        ∷ [];
    spec = child_spec rj.job_template rj.pod_template;
  }

  -- The statuses that are patched.
  unfoldable pub condition_patch : List (String × Value) → String → String → String → String → Value
  condition_patch head cond_type now reason message = obj (
      (
        "status",
        obj (
            head
            ++ (
              "conditions",
              arr (
                  obj (
                    ("type", str cond_type)
                    ∷ ("status", str "True")
                    ∷ ("lastTransitionTime", str now)
                    ∷ ("reason", str reason)
                    ∷ ("message", str message)
                    ∷ [])
                  ∷ []),
            )
              ∷ []),
      )
      ∷ [])

  unfoldable pub terminal_patch : String → Tally → String → Value
  unfolding condition_patch
  terminal_patch state t now =
      condition_patch (("terminalState", str state) ∷ []) state now state
        (format (show t.succeeded_jobs ∷ "/" ∷ show t.total_jobs ∷ " jobs succeeded" ∷ []))

  unfoldable pub running_patch : Tally → String → Value
  unfolding condition_patch
  running_patch t now =
      condition_patch [] "Running" now "JobsRunning"
        (format (show t.succeeded_jobs ∷ "/" ∷ show t.total_jobs ∷ " jobs completed" ∷ []))

  module _ (api : Api) where
    -- A creation that meets a conflict counts as done.
    abbrev pub created_or_conflict : Tally → Result (Unit {0}) → Exec Call Tally
    created_or_conflict t (ok _) = pure (count_missing t)
    created_or_conflict t (err e) = if is_code 409 e then pure (count_missing t) else fail e

    abbrev pub count_or_create : Job → Tally → Option (Option JobStatus) → Exec Call Tally
    count_or_create job t (some status) = pure (count_job status t)
    count_or_create job t none =
        attempt (send (create job) (λ log. api.created log job)) (created_or_conflict t)

    unfoldable pub sync_job : Job → Tally → Exec Call Tally
    sync_job job t = send (get_opt job.name) (λ log. api.job log job.name) >>= count_or_create job t

    -- `for idx in 0..replicas`, over the replicas that are left.
    unfoldable pub sync_replicas :
        String → String → String → ReplicatedJob → ℕ → ℕ → Tally → Exec Call Tally
    sync_replicas name ns uid rj zero idx t = pure t
    sync_replicas name ns uid rj (suc left) idx t =
        sync_job (child_job name ns uid rj idx) t >>= sync_replicas name ns uid rj left (idx + 1)

    unfoldable pub sync_all : String → String → String → List Value → Tally → Exec Call Tally
    unfolding sync_replicas
    sync_all name ns uid [] t = pure t
    sync_all name ns uid (v ∷ vs) t =
        let rj = read_replicated_job v in
        sync_replicas name ns uid rj rj.replicas 0 t >>= sync_all name ns uid vs

    abbrev pub patch : String → Value → Exec Call (Unit {0})
    patch name v = send (patch_status name v) (λ log. api.patched log name v)

    -- What follows the loop.
    unfoldable pub finish : String → String → Tally → Exec Call Action
    finish name now t =
        let state : String = if ltb 0 t.failed_jobs then "Failed" else "Completed" in
        if eqb ((t.succeeded_jobs + t.failed_jobs) % 2 ^ 32) t.total_jobs && ltb 0 t.total_jobs
        then patch name (terminal_patch state t now) >>= (λ _. pure await_change)
        else if ltb 0 t.total_jobs
        then patch name (running_patch t now) >>= (λ _. pure (requeue 5))
        else pure (requeue 5)

    abbrev pub no_jobs : Tally
    no_jobs = record { total_jobs = 0; succeeded_jobs = 0; failed_jobs = 0 }

    unfoldable pub reconcile_jobset : DynamicObject J → String → Exec Call Action
    reconcile_jobset js now =
        let name = js.name_any in
        let ns = unwrap_or js.namespace "default" in
        let suspended =
          unwrap_or (then_some (get_in J js.value ("spec" ∷ "suspend" ∷ [])) as_bool) false in
        let terminal = str_in J js.value ("status" ∷ "terminalState" ∷ []) in
        if suspended
        then pure await_change
        else if is_some terminal
        then pure await_change
        else elim (array_in J js.value ("spec" ∷ "replicatedJobs" ∷ [])) [
          | none ↦ pure await_change
          | some replicated_jobs ↦
              sync_all name ns (unwrap_or js.uid "") replicated_jobs no_jobs >>= finish name now
        ]
