-- ===== src/Safety/Corrected.antt =====
-- The plan that `_enforce_safety_invariants` returns, against the draft that its corrections end in.
use openontology.Prelude.{
  ltb, length, is_empty, eq_string, eq_pair, eq_text, ℕ, suc, ◌+◌, ◌≤◌, ◌≡◌, refl, sym, ap, ◌∙◌,
  subst, inl, inr, true, false, not, ◌&&◌, ◌||◌, List, [], ◌∷◌, arith,
}
use openontology.Prescription.{
  StrategicActionPlan, IsolationStep, is_irreversible, is_critical, is_routine, has_irreversible,
  has_supervisor,
}
use openontology.Safety.{
  Grounds, Draft, draft_of, has_reason, untrusted, renumber, updated, corrected, redirect,
  downgrade, raise_irreversible, raise_routine, truncate, append_handover, force_authorization,
}
use openontology.Safety.Stages.{
  IsRecorded, IsRecorded-chain, redirect-target, downgrade-action, raise_irreversible-priority,
  raise_routine-priority, truncate-length, append_handover-supervisor,
  force_authorization-authorization,
}

length-renumber :
    (index : ℕ) (steps : List IsolationStep) → length (renumber index steps) ≡ length steps
unfolding renumber
length-renumber index [] = refl
length-renumber index (step ∷ steps) = ap suc (length-renumber (index + 1) steps)

has_irreversible-renumber :
    (index : ℕ) (steps : List IsolationStep)
    → has_irreversible (renumber index steps) ≡ has_irreversible steps
unfolding renumber
has_irreversible-renumber index [] = refl
has_irreversible-renumber index (step ∷ steps) =
    ap (λ b. not step.reversible || b) (has_irreversible-renumber (index + 1) steps)

has_supervisor-renumber :
    (index : ℕ) (steps : List IsolationStep)
    → has_supervisor (renumber index steps) ≡ has_supervisor steps
unfolding renumber
has_supervisor-renumber index [] = refl
has_supervisor-renumber index (step ∷ steps) = rw (has_supervisor-renumber (index + 1) steps) refl

module _ (g : Grounds) where
  -- The plan that goes out says what the draft says.
  pub record Agrees (plan : StrategicActionPlan) (d : Draft) : Type 0 where
    pub target : plan.target_asset_id ≡ d.target
    pub action : plan.action_type ≡ d.action
    pub priority : plan.execution_priority ≡ d.priority
    pub authorization : plan.requires_human_authorization ≡ d.authorization
    pub irreversible : has_irreversible plan.isolation_steps ≡ has_irreversible d.steps
    pub supervisor : has_supervisor plan.isolation_steps ≡ has_supervisor d.steps
    pub count : length plan.isolation_steps ≡ length d.steps

  pub updated-Agrees :
      (plan : StrategicActionPlan) (d : Draft)
      → IsRecorded (draft_of plan) d
      → Agrees (updated g plan d) d
  updated-Agrees plan d (inl same) =
      subst (λ x. Agrees (updated g plan x) x) (sym same)
        (record {
          target = refl;
          action = refl;
          priority = refl;
          authorization = refl;
          irreversible = refl;
          supervisor = refl;
          count = refl;
        })
  updated-Agrees plan d (inr some_) =
      rw (some_, updated)
        (record {
          target = refl;
          action = refl;
          priority = refl;
          authorization = refl;
          irreversible = has_irreversible-renumber 1 d.steps;
          supervisor = has_supervisor-renumber 1 d.steps;
          count = length-renumber 1 d.steps;
        })

  module _ (d : Draft) where
    pub only_trusted :
        is_irreversible d.action ≡ true
        → (is_irreversible d.action && (not g.irreversible_permitted || untrusted g)) ≡ false
        → (g.irreversible_permitted ≡ true) × (g.min_graph_trust_for_irreversible ≤ g.graph_trust)
    only_trusted irr h = (ground arith, ground arith)

    pub only_urgent :
        is_irreversible d.action ≡ true
        → (is_irreversible d.action && not (is_critical d.priority)) ≡ false
        → is_critical d.priority ≡ true
    only_urgent irr h = ground arith

    pub only_authorized :
        is_irreversible d.action ≡ true
        → (not d.authorization && has_reason g d) ≡ false
        → d.authorization ≡ true
    only_authorized irr h = ground arith

    pub no_reason :
        d.authorization ≡ false
        → (not d.authorization && has_reason g d) ≡ false
        → (is_irreversible d.action ≡ false)
          × (has_irreversible d.steps ≡ false)
          × (is_critical d.priority ≡ false)
          × (g.min_graph_trust_for_irreversible ≤ g.graph_trust)
    no_reason off h = (ground arith, ground arith, ground arith, ground arith)

  pub owned_count :
      (steps : List IsolationStep)
      → (not (is_empty steps) && not (has_supervisor steps)) ≡ false
      → (ltb 0 (length steps) && not (has_supervisor steps)) ≡ false
  owned_count [] h = refl
  owned_count (step ∷ steps) h = ground arith

  -- What the seven corrections together establish.
  pub record IsCorrected (plan : StrategicActionPlan) (d : Draft) : Type 0 where
    pub target : d.target ≡ g.root_cause_node
    pub trusted :
        (is_irreversible d.action && (not g.irreversible_permitted || untrusted g)) ≡ false
    pub urgent : (is_irreversible d.action && not (is_critical d.priority)) ≡ false
    pub severe : (is_critical g.priority && is_routine d.priority) ≡ false
    pub count : length d.steps ≤ suc g.max_isolation_steps
    pub owned : (not (is_empty d.steps) && not (has_supervisor d.steps)) ≡ false
    pub authorized : (not d.authorization && has_reason g d) ≡ false
    pub recorded : IsRecorded (draft_of plan) d

  pub corrected-IsCorrected : (plan : StrategicActionPlan) → IsCorrected plan (corrected g plan)
  corrected-IsCorrected plan =
      let a = redirect g (draft_of plan) in
      let b = downgrade g a in
      let c = raise_irreversible g b in
      let e = raise_routine g c in
      let f = truncate g e in
      let h = append_handover g f in
      let (ta, ra) = redirect-target g (draft_of plan) in
      let (tb, safe, rb) = downgrade-action g a in
      let (tc, ac, crit, rc) = raise_irreversible-priority g b in
      let (te, ae, sev, same, re) = raise_routine-priority g c in
      let (tf, af, pf, len, rf) = truncate-length g e in
      let (th, ah, ph, more, sup, rh) = append_handover-supervisor g f in
      let (tk, ak, pk, sk, auth, rk) = force_authorization-authorization g h in
      let k = force_authorization g h in
      let action = ak ∙ ah ∙ af ∙ ae ∙ ac in
      let priority = pk ∙ ph ∙ pf in
      record {
        target = tk ∙ th ∙ tf ∙ te ∙ tc ∙ tb ∙ ta;
        trusted =
            ap (λ x. is_irreversible x && (not g.irreversible_permitted || untrusted g)) action
            ∙ safe;
        urgent =
            ap (λ x. is_irreversible x && not (is_critical k.priority)) action
            ∙ ap (λ x. is_irreversible b.action && not x) (ap is_critical priority ∙ same)
            ∙ crit;
        severe = ap (λ x. is_critical g.priority && is_routine x) priority ∙ sev;
        count = omega (arith, more, len, ap length sk);
        owned = ap (λ x. not (is_empty x) && not (has_supervisor x)) sk ∙ sup;
        authorized =
            ap
              (λ x.
                not k.authorization
                && (is_irreversible x
                    || has_irreversible k.steps
                    || is_critical k.priority
                    || untrusted g))
              ak
            ∙ ap
                (λ x.
                  not k.authorization
                  && (is_irreversible h.action
                      || has_irreversible x
                      || is_critical k.priority
                      || untrusted g))
                sk
            ∙ ap
                (λ x.
                  not k.authorization
                  && (is_irreversible h.action
                      || has_irreversible h.steps
                      || is_critical x
                      || untrusted g))
                pk
            ∙ auth;
        recorded =
            IsRecorded-chain _ h k
              (IsRecorded-chain _ f h
                (IsRecorded-chain _ e f
                  (IsRecorded-chain _ c e (IsRecorded-chain _ b c (IsRecorded-chain _ a b ra rb) rc)
                    re)
                  rf)
                rh)
              rk;
      }
