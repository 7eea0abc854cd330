-- ===== src/Tests.antt =====
-- Runs of the controllers' and the proxy's models at concrete inputs.
use picoshift.Prelude.{
  ℕ, zero, suc, show, ◌≤◌, ◌+◌, String, ◌≡◌, ◌≢◌, refl, sym, ap, true, false, Option, none, some,
  List, [], ◌∷◌, arith, here, All, get_elem?,
}
use picoshift.Prelude.Options.{unwrap_or}
use picoshift.Prelude.Text.Split.{split}
use picoshift.Json.Tree.{Tree, text, flag, number, array, object, nil, cons, end, field, tree_serde}
use picoshift.Kube.{DynamicObject, ok, await_change}
use picoshift.JobSet
use picoshift.JobSet.{Tally, JobTypes}
use picoshift.JobSet.Tallies.{wanted}
use picoshift.JobSet.Outcome.{IsActive, IsOver, reconcile_jobset-IsOver}
use picoshift.ImageStream
use picoshift.ImageStream.Settling.{
  IsPatched, status_needs_update-settled, reconcile_imagestream-unsettled,
}
use picoshift.LoadBalancer
use picoshift.LoadBalancer.Addresses.{run_distinct, run_repeats}
use picoshift.PodMutate
use picoshift.PodMutate.UidRange.{AreApart, uid_range_for_namespace-AreApart}
use picoshift.PodMutate.Patching.{IsApplied, compute_patch-settled}
use picoshift.Proxy
use picoshift.Project
use picoshift.Project.Syncing.{IsThere, reconcile_project-IsThere}
use picoshift.Route
use picoshift.Route.Admission.{IsAdmittedAs, reconcile_route-settled}

-- JobSet: one replicated job of one replica, whose job has succeeded.
abbrev worker : Tree
worker = object (field "name" (text "w") (field "replicas" (number 1) end))

abbrev job_types : JobTypes tree_serde
job_types = record {
  JobSpec = Unit {0};
  PodTemplateSpec = Unit {0};
  parse_job_spec = λ v. none;
  parse_pod_template = λ v. none;
  lacks_pod_spec = λ s. true;
  with_template = λ s t. s;
  job_spec_of = λ t. t;
  default_pod_template = tt;
}

abbrev job_api : JobSet.Api job_types
job_api = record {
  job = λ log name. ok (some (some (record { succeeded = some 1; failed = none })));
  created = λ log j. ok tt;
  patched = λ log name v. ok tt;
}

abbrev workers : DynamicObject tree_serde
workers = record {
  name_any = "js";
  namespace = some "ns";
  uid = some "u";
  generation = none;
  labels = none;
  value = object (field "spec" (object (field "replicatedJobs" (array (cons worker nil)) end)) end);
}

workers-IsActive : IsActive job_types job_api workers (worker ∷ [])
workers-IsActive = record { running = refl; open_yet = refl; entries = refl }

worker-wanted : wanted job_types job_api (worker ∷ []) ≡ 1
unfolding JobSet.read_replicated_job
worker-wanted = refl

workers_end : (JobSet.reconcile_jobset job_types job_api workers "now" []).0 ≡ ok await_change
unfolding JobSet.reconcile_jobset JobSet.sync_all JobSet.sync_replicas JobSet.sync_job
    JobSet.read_replicated_job JobSet.count_job JobSet.finish
workers_end = refl

reconcile_jobset-IsOver_example :
    IsOver job_types job_api workers
      (worker ∷ [])
      "now"
      []
      (JobSet.reconcile_jobset job_types job_api workers "now" []).1
reconcile_jobset-IsOver_example =
    reconcile_jobset-IsOver job_types job_api workers (worker ∷ []) "now" [] workers-IsActive
      (omega (arith, worker-wanted)) workers_end

-- LoadBalancer: Services that want an address.
abbrev wants : Option LoadBalancer.Service
wants =
    some (record {
      name_any = "s";
      namespace = some "ns";
      type_ = some "LoadBalancer";
      ingress = none;
    })

abbrev given : String → LoadBalancer.StatusPatch
given ip = record { ns = "ns"; name = "s"; ip = ip }

first_given : get_elem? (LoadBalancer.run 1 (wants ∷ wants ∷ [])) 0 ≡ some (given "10.254.0.1")
unfolding LoadBalancer.run LoadBalancer.next_lb_ip LoadBalancer.needs_ip show
first_given = refl

second_given : get_elem? (LoadBalancer.run 1 (wants ∷ wants ∷ [])) 1 ≡ some (given "10.254.0.2")
unfolding LoadBalancer.run LoadBalancer.next_lb_ip LoadBalancer.needs_ip show
second_given = refl

run_distinct_example : (given "10.254.0.1").ip ≢ (given "10.254.0.2").ip
run_distinct_example =
    run_distinct 1 (wants ∷ wants ∷ []) 0 1 (given "10.254.0.1") (given "10.254.0.2") (omega arith)
      (omega arith) (omega arith) first_given second_given

abbrev repeated : ℕ → List (Option LoadBalancer.Service)
repeated zero = []
repeated (suc n) = wants ∷ repeated n

first_of_many : get_elem? (LoadBalancer.run 1 (repeated 257)) 0 ≡ some (given "10.254.0.1")
unfolding LoadBalancer.run LoadBalancer.next_lb_ip LoadBalancer.needs_ip show
first_of_many = refl

last_of_many : get_elem? (LoadBalancer.run 1 (repeated 257)) (0 + 256) ≡ some (given "10.254.0.1")
unfolding LoadBalancer.run LoadBalancer.next_lb_ip LoadBalancer.needs_ip show
last_of_many = refl

run_repeats_example : (given "10.254.0.1").ip ≡ (given "10.254.0.1").ip
run_repeats_example =
    run_repeats 1 (repeated 257) 0 (given "10.254.0.1") (given "10.254.0.1") (omega arith)
      first_of_many last_of_many

-- ImageStream: a tag with a name and an image, and one without an image.
abbrev tag : Tree
tag =
    object
      (field "name" (text "v1") (field "from" (object (field "name" (text "quay.io/a") end)) end))

abbrev bare_tag : Tree
bare_tag = object (field "name" (text "v2") end)

abbrev stream : Tree → Tree → DynamicObject tree_serde
stream spec_tag status_tags = record {
  name_any = "is";
  namespace = some "ns";
  uid = none;
  generation = none;
  labels = none;
  value = object (
      field "spec" (object (field "tags" (array (cons spec_tag nil)) end))
        (field "status" (object (field "tags" status_tags end)) end));
}

abbrev patched_tags : Tree
patched_tags = array (cons (ImageStream.tag_value tree_serde "now" "v1" "quay.io/a") nil)

settled_stream :
    IsPatched tree_serde (stream tag (array nil)) (stream tag patched_tags) "now" (tag ∷ [])
unfolding ImageStream.spec_tags ImageStream.status_tags ImageStream.status_patch
    ImageStream.status_tag ImageStream.tag_value
settled_stream = (refl, refl, refl)

status_needs_update-settled_example :
    ImageStream.status_needs_update tree_serde (stream tag patched_tags) ≡ false
status_needs_update-settled_example =
    status_needs_update-settled tree_serde (stream tag (array nil)) (stream tag patched_tags) "now"
      (tag ∷ []) settled_stream (("v1", "quay.io/a", refl, refl), tt)

bare_stream :
    IsPatched tree_serde
      (stream bare_tag (array nil))
      (stream bare_tag (array nil))
      "now"
      (bare_tag ∷ [])
unfolding ImageStream.spec_tags ImageStream.status_tags ImageStream.status_patch
    ImageStream.status_tag
bare_stream = (refl, refl, refl)

no_image : ImageStream.status_tag tree_serde "now" bare_tag ≡ none
unfolding ImageStream.status_tag
no_image = refl

reconcile_imagestream-unsettled_example :
    (ImageStream.reconcile_imagestream tree_serde
      (λ log c. ok tt)
      (stream bare_tag (array nil))
      "later"
      []).1
    ≡ ImageStream.patch_status "ns" "is"
        (ImageStream.status_patch tree_serde "later" (bare_tag ∷ []))
      ∷ []
reconcile_imagestream-unsettled_example =
    reconcile_imagestream-unsettled tree_serde (λ log c. ok tt) (stream bare_tag (array nil))
      (stream bare_tag (array nil)) "now" "later" (bare_tag ∷ []) bare_tag [] bare_stream here
      no_image

-- The pod webhook: a pod that runs as non-root, before and after the patch.
abbrev hash : String → ℕ
hash name = 100003

uid_range_for_namespace-AreApart_example :
    (1000000000 ≤ PodMutate.uid_range_for_namespace hash "a")
    × (PodMutate.uid_range_for_namespace hash "a" + 10000 ≤ 2000000000)
    × AreApart
        (PodMutate.uid_range_for_namespace hash "a")
        (PodMutate.uid_range_for_namespace hash "b")
uid_range_for_namespace-AreApart_example = uid_range_for_namespace-AreApart hash "a" "b"

abbrev pod : Tree → Tree
pod sc = object (field "spec" (object (field "securityContext" sc end)) end)

abbrev non_root_sc : Tree
non_root_sc = object (field "runAsNonRoot" (flag true) end)

abbrev grouped_sc : Tree
grouped_sc = object (field "runAsNonRoot" (flag true) (field "fsGroup" (number 1000030000) end))

abbrev ops : List Tree
ops = PodMutate.add_op hash tree_serde "/spec/securityContext/fsGroup" (number 1000030000) ∷ []

needs_group : PodMutate.compute_patch hash tree_serde (pod non_root_sc) "a" ≡ some ops
unfolding PodMutate.compute_patch PodMutate.non_root PodMutate.uid_range_for_namespace
needs_group = refl

has_group : All (IsApplied tree_serde (pod grouped_sc)) ops
unfolding split
has_group = ((λ path e. rw (sym (ap (λ o. unwrap_or o "") e)) refl), tt)

compute_patch-settled_example :
    ((spec : Tree) × (tree_serde.get (pod non_root_sc) "spec" ≡ some spec)
      × (PodMutate.non_root hash tree_serde spec ≡ true))
    × (PodMutate.compute_patch hash tree_serde (pod grouped_sc) "b" ≡ none)
compute_patch-settled_example =
    compute_patch-settled tree_serde hash (pod non_root_sc) (pod grouped_sc) "a" "b" ops needs_group
      has_group

-- Route: a route of the spec's host, and the object once the patch is its status.
abbrev route : Tree → DynamicObject tree_serde
route status = record {
  name_any = "r";
  namespace = some "ns";
  uid = none;
  generation = none;
  labels = none;
  value = object (field "status" status end);
}

abbrev admitted_status : Tree
admitted_status = object (
    field "ingress" (array (cons (Route.ingress tree_serde "r-ns.apps.ocp-sim.test" "now") nil))
      end)

admits : IsAdmittedAs tree_serde (route (object end)) (route admitted_status) "now"
unfolding Route.compute_host Route.status_patch Route.ingress
admits = refl

reconcile_route-settled_example :
    (Route.reconcile_route tree_serde (λ log c. ok tt) (route admitted_status) "later" []
      ≡ (ok await_change, []))
    × (Proxy.extract_host tree_serde (route admitted_status)
        ≡ some (Route.compute_host tree_serde (route (object end))))
reconcile_route-settled_example =
    reconcile_route-settled tree_serde (λ log c. ok tt) (route (object end)) (route admitted_status)
      "now" "later" [] admits

-- Project: a Project whose Namespace is missing.
abbrev project_api : Project.Api tree_serde
project_api = record { answer = λ log c. ok tt; get_opt = λ log name. ok none }

runs :
    (Project.reconcile_project tree_serde project_api (route (object end)) []).0 ≡ ok await_change
unfolding Project.reconcile_project Project.create_missing
runs = refl

reconcile_project-IsThere_example :
    IsThere tree_serde project_api
      (route (object end))
      []
      (Project.reconcile_project tree_serde project_api (route (object end)) []).1
reconcile_project-IsThere_example =
    reconcile_project-IsThere tree_serde project_api (route (object end)) [] await_change runs
