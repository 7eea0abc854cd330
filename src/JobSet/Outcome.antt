-- ===== src/JobSet/Outcome.antt =====
-- How a run for a JobSet ends.
use picoshift.Prelude.{
  ◌+◌, ◌%◌, ◌^◌, ◌<◌, String, ◌≡◌, refl, sym, ap, ◌∙◌, inl, inr, false, ◌&&◌, some, Option, List,
  [], first, show, ◌∷◌, eqb, ltb, Bool-cases, arith, if◌then◌else◌,
}
use picoshift.Prelude.Options.{◌>>=◌ as then_some, unwrap_or, is_some}
use picoshift.Prelude.Maps.{lookup}
use picoshift.Prelude.Text.Replace.{format}
use picoshift.Json.{str_in, array_in, get_in}
use picoshift.Json.Interface.{Serde}
use picoshift.Kube.{DynamicObject, ok, await_change, requeue, pure, ◌>>=◌, >>=-eq-ok, then-eq-ok}
use picoshift.JobSet.{
  JobTypes, Tally, Call, patch_status, Api, sync_all, no_jobs, patch, finish, terminal_patch,
  condition_patch, running_patch, reconcile_jobset,
}
use picoshift.JobSet.Tallies.{
  creates, finished, wanted, reads_succeeded, reads_failed, sync_all-Counted,
}

module _ {J : Serde} (K : JobTypes J) (api : Api K) where
  -- A run takes the JobSet up: it is not suspended, has no terminal state, and these are its entries.
  pub record IsActive (js : DynamicObject J) (vs : List J.Value) : Type 0 where
    pub running :
        unwrap_or (then_some (get_in J js.value ("spec" ∷ "suspend" ∷ [])) J.as_bool) false ≡ false
    pub open_yet : is_some (str_in J js.value ("status" ∷ "terminalState" ∷ [])) ≡ false
    pub entries : array_in J js.value ("spec" ∷ "replicatedJobs" ∷ []) ≡ some vs

  abbrev pub state_of : Tally → String
  state_of t = if ltb 0 t.failed_jobs then "Failed" else "Completed"

  -- The message of the first condition.
  abbrev message_in : J.Value → Option String
  message_in v =
      then_some (then_some (array_in J v ("status" ∷ "conditions" ∷ [])) first)
        (λ c. str_in J c ("message" ∷ []))

  -- All children are counted as finished, the counters are the numbers of jobs that were read with a
  -- pod that succeeded and with failed pods only, none was created, and the last call writes the
  -- state.
  pub record IsOver (js : DynamicObject J) (vs : List J.Value) (now : String)
      (log log' : List (Call K)) : Type 0 where
    pub tally : Tally
    pub total : tally.total_jobs ≡ wanted K api vs
    pub some_wanted : 0 < wanted K api vs
    pub all_finished : finished K api tally ≡ wanted K api vs
    pub succeeded_read :
        reads_succeeded K api log' ≡ reads_succeeded K api log + tally.succeeded_jobs
    pub failed_read : reads_failed K api log' ≡ reads_failed K api log + tally.failed_jobs
    pub none_created : creates K api log' ≡ creates K api log
    pub state :
        str_in J (terminal_patch K (state_of tally) tally now) ("status" ∷ "terminalState" ∷ [])
        ≡ some (state_of tally)
    pub message :
        message_in (terminal_patch K (state_of tally) tally now)
        ≡ some (
            format
              (show tally.succeeded_jobs ∷ "/" ∷ show tally.total_jobs ∷ " jobs succeeded" ∷ []))
    pub before : List (Call K)
    pub written :
        log' ≡ patch_status js.name_any (terminal_patch K (state_of tally) tally now) ∷ before

  str_in-terminal_patch :
      (state now : String) (t : Tally)
      → str_in J (terminal_patch K state t now) ("status" ∷ "terminalState" ∷ []) ≡ some state
  unfolding terminal_patch condition_patch lookup
  str_in-terminal_patch state now t = rw (J.get-obj, J.get-obj, J.as_str-str) refl

  message_in-terminal_patch :
      (state now : String) (t : Tally)
      → message_in (terminal_patch K state t now)
        ≡ some (format (show t.succeeded_jobs ∷ "/" ∷ show t.total_jobs ∷ " jobs succeeded" ∷ []))
  unfolding terminal_patch condition_patch lookup
  message_in-terminal_patch state now t =
      rw (J.get-obj, J.get-obj, J.as_array-arr, J.get-obj, J.as_str-str) refl

  finish-await :
      (name now : String) (t : Tally) (log : List (Call K))
      → (finish K api name now t log).0 ≡ ok await_change
      → ((t.succeeded_jobs + t.failed_jobs) % 2 ^ 32 ≡ t.total_jobs)
        × (0 < t.total_jobs)
        × ((finish K api name now t log).1
            ≡ patch_status name (terminal_patch K (state_of t) t now) ∷ log)
  unfolding finish
  finish-await name now t log h =
      let over =
        eqb ((t.succeeded_jobs + t.failed_jobs) % 2 ^ 32) t.total_jobs && ltb 0 t.total_jobs in
      elim (Bool-cases over) [
        | inl done ↦
            let write = patch K api name (terminal_patch K (state_of t) t now) in
            let (a, sent, _, e) =
              then-eq-ok write (pure await_change) log (rw (finish, done) at h) in
            (ground (arith, done), ground (arith, done), rw (finish, done) (ap (λ r. r.1) e))
        | inr open_yet ↦ elim (Bool-cases (ltb 0 t.total_jobs)) [
          | inr no_jobs ↦ cc (rw (finish, open_yet, no_jobs) at h)
          | inl jobs ↦
              let (a, sent, bad, e) =
                then-eq-ok (patch K api name (running_patch K t now)) (pure (requeue 5)) log
                  (rw (finish, open_yet, jobs) at h) in
              cc bad
        ]
      ]

  -- A run that takes up a JobSet with fewer than 2³² children and does not ask to run again has
  -- counted all of them as finished, of which there is one, and has created none. The counters are
  -- the numbers of jobs that it has read with a pod that succeeded and with failed pods only. Last it
  -- writes the terminal state, which is `Failed` if the second is not 0 and else `Completed`, with the
  -- first and the number of the children in the message.
  pub reconcile_jobset-IsOver :
      (js : DynamicObject J) (vs : List J.Value) (now : String) (log : List (Call K))
      → IsActive js vs
      → wanted K api vs < 2 ^ 32
      → (reconcile_jobset K api js now log).0 ≡ ok await_change
      → IsOver js vs now log (reconcile_jobset K api js now log).1
  unfolding reconcile_jobset
  reconcile_jobset-IsOver js vs now log active small h =
      let run =
        sync_all K api js.name_any (unwrap_or js.namespace "default") (unwrap_or js.uid "") vs
          (no_jobs K api) in
      let opened : (reconcile_jobset K api js now log
          ≡ (run >>= finish K api js.name_any now) log) =
        rw (reconcile_jobset, active.running, active.open_yet, active.entries) refl in
      let (t, synced, e) =
        >>=-eq-ok run (finish K api js.name_any now) log (sym (ap (λ r. r.0) opened) ∙ h) in
      let total = opened ∙ e in
      let c =
        sync_all-Counted K api js.name_any (unwrap_or js.namespace "default") (unwrap_or js.uid "")
          vs (no_jobs K api) t log (omega arith) synced in
      let (equal, positive, written) =
        finish-await js.name_any now t (run log).1 (sym (ap (λ r. r.0) total) ∙ h) in
      let whole = ap (λ r. r.1) total ∙ written in
      record {
        tally = t;
        total = omega (arith, c.counted);
        some_wanted = omega (arith, positive, c.counted);
        all_finished = ground (arith, equal, c.counted, c.unfinished, c.grows, small);
        succeeded_read = ground (
          arith,
          equal,
          c.counted,
          c.unfinished,
          c.grows,
          c.succeeded_read,
          c.failed_read,
          c.few_reads,
          small,
          ap (reads_succeeded K api) whole,
        );
        failed_read = ground (
          arith,
          equal,
          c.counted,
          c.unfinished,
          c.grows,
          c.succeeded_read,
          c.failed_read,
          c.few_reads,
          small,
          ap (reads_failed K api) whole,
        );
        none_created =
            ap (creates K api) whole
            ∙ ground (arith, equal, c.counted, c.unfinished, c.grows, small);
        state = str_in-terminal_patch (state_of t) now t;
        message = message_in-terminal_patch (state_of t) now t;
        before = (run log).1;
        written = whole;
      }
