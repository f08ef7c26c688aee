-- ===== src/Examples/Routing.antt =====
-- Two workers for a reviewed task, in src/project_supervisor/scheduler.py. Numbers stand for floats.
use chips_agent_fabric.Sql.{first_where}
use mathlib.Core.List.{Memᴰ, Permᴰ}
use chips_agent_fabric.Prelude.{
  sym, ap, ◌∙◌, path→eq, ℕ, ◌+◌, ◌-◌, ◌*◌, ◌/◌, true, false, ◌⊎◌, none, [], ◌∷◌, ◌≡◌, refl, arith,
  String, List, All, ltb, nat_beq, length, string_eq,
}
use chips_agent_fabric.Domain.{
  Harness, Provider, NodeState, WorkerState, ResourceState, ExecutionTopology, PermissionClass,
  ApprovalState,
}
use chips_agent_fabric.Store.Error.{ok, err, Result}
use chips_agent_fabric.Store.Schema.{TaskRequirements}
use chips_agent_fabric.Scheduler.{FloatOps, WorkerSnapshot, SchedulerConfig, RoutingDecision}
use chips_agent_fabric.Scheduler.Constraints.{hard_constraints}
use chips_agent_fabric.Scheduler.Score.{resource_evidence}
use chips_agent_fabric.Scheduler.Routing.{schedule, sorted_workers}
use chips_agent_fabric.Scheduler.Eligible.{IsPassing, IsIdOf, schedule-eligible}
use chips_agent_fabric.Scheduler.Counts.{
  IsTeamSize, schedule-IsTeamSize, passing_count, has_reviewer,
}
use chips_agent_fabric.Scheduler.Reviewing.{schedule-reviewed, can_review}
use chips_agent_fabric.Scheduler.Best.{IsFirst}
use chips_agent_fabric.Scheduler.Routing.{ranked_of}
use chips_agent_fabric.Scheduler.Best.{IsOrdered, schedule-best}
use chips_agent_fabric.Scheduler.Shuffled.{schedule-Perm}

-- Thousandths.
abbrev ops : FloatOps ℕ
ops = record {
  of_nat = λ n. n * 1000;
  half = 500;
  quarter = 250;
  add = λ a b. a + b;
  sub = λ a b. a - b;
  mul = λ a b. (a * b) / 1000;
  div = λ a b. a;
  neg = λ a. 1000000 - a;
  rounded = λ a. a;
  less = ltb;
  same = nat_beq;
}

ops-IsOrdered : IsOrdered ops
ops-IsOrdered = record {
  less_asym = λ a b h. ground arith;
  less_trans = λ a b c h k. ground arith;
  same_less = λ a b h. ground arith;
  same_sym = λ a b. ground arith;
  same_total = λ a b h k. ground arith;
}

abbrev snapshot : String → List String → ℕ → WorkerSnapshot ℕ
snapshot id capabilities quality = record {
  id = id;
  node_id = "n";
  harness = Harness.mock;
  provider = Provider.mock;
  model = record {
    identifier = "m";
    display_name = "M";
    provider = Provider.mock;
    context_variant = none;
    context_window_tokens = none;
  };
  state = WorkerState.idle;
  node_state = NodeState.online;
  resource_state = ResourceState.available;
  capabilities = capabilities;
  code_write_allowed = true;
  privacy_allowed = true;
  quality_score = quality;
  reliability_score = 500;
  expected_latency_seconds = 30000;
  monetary_cost_score = 500;
  node_load = 0;
  running_tasks = 0;
}

abbrev first : WorkerSnapshot ℕ
first = snapshot "a" ("review" ∷ []) 200

abbrev second : WorkerSnapshot ℕ
second = snapshot "b" [] 900

abbrev stopped : WorkerSnapshot ℕ
stopped = record (snapshot "c" ("review" ∷ []) 999) { state = WorkerState.failed }

abbrev workers : List (WorkerSnapshot ℕ)
workers = first ∷ second ∷ stopped ∷ []

abbrev config : SchedulerConfig ℕ
config = record {
  policy_version = "v";
  weights = record {
    capability_fit = 3000;
    expected_quality = 2000;
    availability = 2000;
    quota_health = 1500;
    monetary_cost = 1000;
    latency = 1000;
    historical_reliability = 1500;
    node_load = 1000;
    privacy = 2000;
    context_fit = 1500;
  };
}

abbrev needs : TaskRequirements
needs = record {
  labels = [];
  required_capabilities = [];
  permission_class = PermissionClass.green;
  approval_state = ApprovalState.not_required;
  minimum_context_tokens = none;
  privacy_sensitive = false;
  code_write_required = true;
  panel_size = 2;
  preferred_workers = [];
}

abbrev routed_by : Result (RoutingDecision ℕ) → RoutingDecision ℕ
routed_by (ok d) = d
routed_by (err _) = record {
  topology = ExecutionTopology.single;
  selected_worker_ids = [];
  candidates = [];
  rejected = [];
  policy_version = "";
}

abbrev routed : ExecutionTopology → RoutingDecision ℕ
routed topology = routed_by (schedule ops config needs topology workers [])

reviews :
    schedule ops config needs ExecutionTopology.primary_reviewer workers []
    ≡ ok (routed ExecutionTopology.primary_reviewer)
unfolding schedule
reviews = refl

-- The reviewer is the second-ranked worker.
reviewers : (routed ExecutionTopology.primary_reviewer).selected_worker_ids ≡ ("b" ∷ "a" ∷ [])
unfolding schedule first_where
reviewers = refl

single :
    schedule ops config needs ExecutionTopology.single workers []
    ≡ ok (routed ExecutionTopology.single)
unfolding schedule
single = refl

schedule-eligible_example :
    All
      (IsIdOf (λ w. Memᴰ w workers × (hard_constraints needs w ≡ [])))
      (routed ExecutionTopology.primary_reviewer).selected_worker_ids
schedule-eligible_example =
    schedule-eligible ops config needs ExecutionTopology.primary_reviewer workers []
      (routed ExecutionTopology.primary_reviewer) reviews

gathers : resource_evidence {F = ℕ} [] ≡ ok []
unfolding resource_evidence
gathers = refl

schedule-IsTeamSize_example :
    IsTeamSize ExecutionTopology.primary_reviewer 2
      (passing_count needs workers)
      (has_reviewer (ranked_of ops config needs (sorted_workers workers) []))
      (length (routed ExecutionTopology.primary_reviewer).selected_worker_ids)
schedule-IsTeamSize_example =
    schedule-IsTeamSize ops config needs ExecutionTopology.primary_reviewer workers [] []
      (routed ExecutionTopology.primary_reviewer) gathers reviews

schedule-reviewed_example :
    (((routed ExecutionTopology.primary_reviewer).selected_worker_ids ≡ [])
      × All (λ v. hard_constraints needs v ≡ [] → ⊥) workers)
    ⊎ ((p : WorkerSnapshot ℕ) × IsPassing needs workers p
        × IsFirst ops ops-IsOrdered config needs workers [] p
        × ((((routed ExecutionTopology.primary_reviewer).selected_worker_ids ≡ [])
              × All (λ v. hard_constraints needs v ≡ [] → can_review p v ≡ false) workers)
            ⊎ ((r : WorkerSnapshot ℕ) × IsPassing needs workers r
                × (can_review p r ≡ true)
                × ((routed ExecutionTopology.primary_reviewer).selected_worker_ids
                    ≡ (p.id ∷ r.id ∷ [])))))
schedule-reviewed_example =
    schedule-reviewed ops ops-IsOrdered config needs workers [] []
      (routed ExecutionTopology.primary_reviewer) gathers reviews

schedule-best_example :
    (((routed ExecutionTopology.single).selected_worker_ids ≡ [])
      × All (λ v. hard_constraints needs v ≡ [] → ⊥) workers)
    ⊎ ((w : WorkerSnapshot ℕ) × IsPassing needs workers w
        × ((routed ExecutionTopology.single).selected_worker_ids ≡ (w.id ∷ []))
        × IsFirst ops ops-IsOrdered config needs workers [] w)
schedule-best_example =
    schedule-best ops ops-IsOrdered config needs workers [] [] (routed ExecutionTopology.single)
      gathers single

abbrev two : List (WorkerSnapshot ℕ)
two = first ∷ second ∷ []

two_ids : ◌≡◌ {A = String} "a" "b" → ⊥
two_ids e = absurd (cc (path→eq "a" "b" e))

two_keys : (v w : WorkerSnapshot ℕ) → Memᴰ v two → Memᴰ w two → v.id ≡ w.id → v ≡ w
two_keys v w (Memᴰ.head e) (Memᴰ.head e') h = e ∙ sym e'
two_keys v w (Memᴰ.head e) (Memᴰ.tail (Memᴰ.head e')) h = absurd (
    two_ids
      (sym (ap (λ (x : WorkerSnapshot ℕ). x.id) e) ∙ h ∙ ap (λ (x : WorkerSnapshot ℕ). x.id) e'))
two_keys v w (Memᴰ.tail (Memᴰ.head e)) (Memᴰ.head e') h = absurd (
    two_ids (
      sym (ap (λ (x : WorkerSnapshot ℕ). x.id) e') ∙ sym h ∙ ap (λ (x : WorkerSnapshot ℕ). x.id) e))
two_keys v w (Memᴰ.tail (Memᴰ.head e)) (Memᴰ.tail (Memᴰ.head e')) h = e ∙ sym e'
two_keys v w (Memᴰ.head e) (Memᴰ.tail (Memᴰ.tail n)) h = elim n [ ]
two_keys v w (Memᴰ.tail (Memᴰ.head e)) (Memᴰ.tail (Memᴰ.tail n)) h = elim n [ ]
two_keys v w (Memᴰ.tail (Memᴰ.tail m)) n h = elim m [ ]

schedule-Perm_example :
    schedule ops config needs ExecutionTopology.primary_reviewer two []
    ≡ schedule ops config needs ExecutionTopology.primary_reviewer (second ∷ first ∷ []) []
schedule-Perm_example =
    schedule-Perm ops config needs ExecutionTopology.primary_reviewer two (second ∷ first ∷ []) []
      two_keys (Permᴰ.swap refl refl)
