-- ===== src/Tests/Services.antt =====
-- Runs of the quota, of the plan cache and of the safety invariants.
use openontology.Prelude.{
  string_ne, ltb, length, eq_string, eq_pair, codes, eq_text, ℕ, suc, ◌≤◌, String, ◌≡◌, refl, ap,
  true, false, not, ◌&&◌, none, some, List, [], ◌∷◌, arith,
}
use openontology.OrderedDict.{Entries}
use openontology.Quota.{Verdict}
use openontology.Quota.Window.{Reach, empty, own, foreign}
use openontology.PlanCache.{Key, init, lookup, put}
use openontology.PlanCache.Retention.{Operation, stored, apply_all, put-lookup}
use openontology.Prescription.{
  StrategicActionPlan, IsolationStep, emergency_shutdown, critical, routine, human_technician,
  isolate_valve, is_irreversible, is_critical, is_routine, has_irreversible, has_supervisor,
}
use openontology.Safety.{Grounds, enforce_safety_invariants}
use openontology.Safety.Invariants.{
  enforce_safety_invariants_unattended, enforce_safety_invariants-steps,
}

-- the limiter after two calls of "k" with a quota of 1, and one of another key between them
abbrev after_two :
    (hits : Entries String (List ℕ)) × (admitted : List ℕ) × Reach 60 1 "k" 1010 hits admitted
after_two = (
  _,
  _,
  own 1010
      (foreign 1005 "j" 7 (own 1000 (empty 0) (omega arith)) (omega arith) (string_ne "j" "k" refl))
      (omega arith),
)

abbrev refusal : Verdict
refusal = record { allowed = false; remaining = 0; retry_after = 40 }

abbrev key : Key
key = ("acme", "e1")

abbrev later_uses : List (Operation ℕ)
later_uses = stored ("acme", "e2") 8 ∷ []

put-lookup_example : (lookup key (apply_all later_uses (put key 7 (init 2)))).0 ≡ some 7
put-lookup_example =
    put-lookup key 7 (init 2) later_uses (omega arith)
      ((λ h. string_ne "e2" "e1" refl (ap (λ k. k.1) h)), tt)

abbrev trip : IsolationStep
trip = record {
  sequence = 1;
  actor = human_technician;
  instruction = codes "Trip the unit";
  target_component = codes "pump-7";
  verification = codes "Unit is at rest.";
  reversible = false;
  estimated_seconds = 60;
  manual_reference = none;
}

abbrev shutdown_plan : StrategicActionPlan
shutdown_plan = record {
  action_type = emergency_shutdown;
  target_asset_id = codes "pump-8";
  execution_priority = routine;
  isolation_steps = trip ∷ [];
  blast_radius_protection = [];
  requires_human_authorization = false;
  rationale = codes "r";
  manual_references = [];
  confidence = 900000;
}

abbrev trusted_grounds : Grounds
trusted_grounds = record {
  max_isolation_steps = 12;
  min_graph_trust_for_irreversible = 650000;
  root_cause_node = codes "pump-7";
  irreversible_permitted = true;
  graph_trust = 900000;
  priority = critical;
}

abbrev doubtful_grounds : Grounds
doubtful_grounds = record trusted_grounds { graph_trust = 500000 }

abbrev mild_plan : StrategicActionPlan
mild_plan = record shutdown_plan {
  action_type = isolate_valve;
  isolation_steps = record trip { reversible = true } ∷ [];
}

enforce_safety_invariants_unattended_example :
    (is_irreversible (enforce_safety_invariants trusted_grounds mild_plan).0.action_type ≡ false)
    × (has_irreversible (enforce_safety_invariants trusted_grounds mild_plan).0.isolation_steps
        ≡ false)
    × (is_critical (enforce_safety_invariants trusted_grounds mild_plan).0.execution_priority
        ≡ false)
    × (650000 ≤ 900000)
unfolding enforce_safety_invariants
enforce_safety_invariants_unattended_example =
    enforce_safety_invariants_unattended trusted_grounds mild_plan refl

enforce_safety_invariants-steps_example :
    (length (enforce_safety_invariants doubtful_grounds shutdown_plan).0.isolation_steps ≤ suc 12)
    × ((ltb 0 (length (enforce_safety_invariants doubtful_grounds shutdown_plan).0.isolation_steps)
          && not (
              has_supervisor
                (enforce_safety_invariants doubtful_grounds shutdown_plan).0.isolation_steps))
        ≡ false)
    × ((true
          && is_routine
              (enforce_safety_invariants doubtful_grounds shutdown_plan).0.execution_priority)
        ≡ false)
enforce_safety_invariants-steps_example =
    enforce_safety_invariants-steps doubtful_grounds shutdown_plan

abbrev long_grounds : Grounds
long_grounds = record trusted_grounds { max_isolation_steps = 3 }

-- A sequence longer than the limit is cut to the limit, and the handover then exceeds it by one.
one_more :
    length
      (enforce_safety_invariants long_grounds
        (record mild_plan { isolation_steps = trip ∷ trip ∷ trip ∷ trip ∷ [] })).0.isolation_steps
    ≡ 4
unfolding enforce_safety_invariants
one_more = refl
