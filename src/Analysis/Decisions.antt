-- ===== src/Analysis/Decisions.antt =====
-- When the kernel recommends an emergency shutdown.
use openontology.Prelude.{
  ltb, leb, length, is_empty, eq_string, eq_pair, Text, eq_text, ℕ, ◌≤◌, ◌≡◌, refl, sym, subst, ◌↔◌,
  Bool, true, false, not, Option, none, some, List, [], ◌∷◌, arith,
}
use openontology.Topology.{Band, band, ChannelLimit, CrdtPresence}
use openontology.Prescription.{emergency_shutdown}
use openontology.Graph.Payload.{EnrichedGraphPayload}
use openontology.Graph.Telemetry.{local_channels}
use openontology.Graph.Channels.{Exceedance, is_physical, limit_of, score, band_of}
use openontology.Graph.Members.{Among, scored_reading, reading_scored, worst_band-hard_iff}
use openontology.Analysis.Kernel.{analyse_topology}
use openontology.Analysis.{
  InterceptorSettings, origin_at, last, at_least, prioritise, permits_irreversible, recommend,
  is_indeterminate, is_alarming,
}

-- A hard breach always has a decided classification.
decided :
    (asset_id : Text) (upstream : List Text) (o : Option Text) (integrity_warn untrusted : Bool)
    → is_indeterminate (origin_at asset_id upstream o true integrity_warn untrusted).classification
      ≡ false
unfolding origin_at
decided asset_id upstream none i u = refl
decided asset_id upstream (some x) i u = refl

shutdown_iff :
    (asset_id : Text) (upstream : List Text) (o : Option Text)
    (integrity_warn untrusted wide_blast asset_alarming permitted : Bool) (severity : Band)
    → let c =
        (origin_at asset_id upstream o
          (at_least 1 severity)
          integrity_warn
          untrusted).classification in
      (recommend c permitted severity (prioritise severity wide_blast asset_alarming c)
        ≡ emergency_shutdown)
      ↔ ((severity ≡ Band.hard) × (permitted ≡ true))
unfolding recommend prioritise
shutdown_iff asset_id upstream o i u w a permitted Band.hard =
    ground (arith, decided asset_id upstream o i u)
shutdown_iff asset_id upstream o i u w a permitted severity = ground arith

permitted_iff :
    (trust threshold : ℕ) (presence : CrdtPresence)
    → (permits_irreversible (ltb trust threshold) presence true ≡ true)
      ↔ ((threshold ≤ trust) × (presence ≡ CrdtPresence.live))
unfolding permits_irreversible
permitted_iff trust threshold CrdtPresence.live = ground arith
permitted_iff trust threshold presence = ground arith

-- A reading at or above the hard limit of a physical channel.
pub record IsHardBreach (reading : Text × ℕ) : Type 0 where
  pub limit : ChannelLimit
  pub limited : limit_of reading.0 ≡ some limit
  pub physical : limit.physical ≡ true
  pub breached : limit.hard_at ≤ reading.1

breach_of :
    (node : Text) (reading : Text × ℕ)
    → is_physical (score node reading) ≡ true
    → (score node reading).in_band ≡ Band.hard
    → IsHardBreach reading
unfolding band
breach_of node (channel, value) p h = go (limit_of channel) refl p h
  where
    go :
        (o : Option ChannelLimit)
        → limit_of channel ≡ o
        → elim o [ none ↦ true | some l ↦ l.physical ] ≡ true
        → band_of o value ≡ Band.hard
        → IsHardBreach (channel, value)
    go none e physical hard = cc
    go (some l) e physical hard = record {
      limit = l;
      limited = e;
      physical = physical;
      breached = ground arith;
    }

of_breach :
    (node : Text) (reading : Text × ℕ)
    → IsHardBreach reading
    → (is_physical (score node reading) ≡ true) × ((score node reading).in_band ≡ Band.hard)
unfolding band
of_breach node (channel, value) b = rw b.limited (b.physical, ground (arith, b.breached))

not_empty : {A : Type 0} (x : A) (xs : List A) → Among x xs → not (is_empty xs) ≡ true
not_empty x [] m = absurd m
not_empty x (y ∷ ys) m = refl

module _ (payload : EnrichedGraphPayload) (settings : InterceptorSettings) where
  abbrev pub readings : List (Text × ℕ)
  readings = local_channels payload.telemetry_snapshot

  abbrev pub HardBreach : Type 0
  HardBreach = (reading : Text × ℕ) × Among reading readings × IsHardBreach reading

  severity_band-hard_iff :
      ((analyse_topology payload settings).severity_band ≡ Band.hard) ↔ HardBreach
  unfolding analyse_topology
  severity_band-hard_iff =
      let node = payload.asset_metadata.uuid in
      let worst = worst_band-hard_iff readings node is_physical in
      (
        λ h.
            let (item, m, hard) = worst.0 h in
            let (reading, found, e, physical) = scored_reading readings node is_physical item m in
            (
              reading,
              found,
              breach_of node reading (subst (λ i. is_physical i ≡ true) e physical)
                  (subst (λ (i : Exceedance). i.in_band ≡ Band.hard) e hard),
            ),
        λ h.
            let (physical, hard) = of_breach node h.0 h.2 in
            worst.1
              (score node h.0, reading_scored readings node is_physical h.0 h.1 physical, hard),
      )

  -- An emergency shutdown is recommended if and only if a local reading is at or above the hard
  -- limit of a physical channel, the vertex resolves as live, and the trust in the graph is not
  -- below the threshold.
  pub analyse_topology-shutdown_iff :
      let a = analyse_topology payload settings in
      (a.recommended_action ≡ emergency_shutdown) ↔ (
        HardBreach
        × (settings.min_graph_trust_for_irreversible ≤ a.crdt.graph_trust)
        × (a.crdt.presence ≡ CrdtPresence.live))
  unfolding analyse_topology
  analyse_topology-shutdown_iff =
      let a = analyse_topology payload settings in
      let decision =
        shutdown_iff payload.asset_metadata.uuid payload.ontology_context.upstream_dependencies
          (last a.faulted_upstream) _ _ (leb 3 (length a.downstream_impacts))
          (is_alarming payload.asset_metadata.current_status) a.irreversible_permitted
          a.severity_band in
      let allowed =
        permitted_iff a.crdt.graph_trust settings.min_graph_trust_for_irreversible
          a.crdt.presence in
      let permit = λ (live : Bool).
        permits_irreversible (ltb a.crdt.graph_trust settings.min_graph_trust_for_irreversible)
          a.crdt.presence live in
      (
        λ h.
            let (hard, permitted) = decision.0 h in
            let breach = severity_band-hard_iff.0 hard in
            let (trusted, live) =
              allowed.0
                (subst (λ b. permit b ≡ true) (not_empty breach.0 readings breach.1) permitted) in
            (breach, trusted, live),
        λ h. decision.1 (
          severity_band-hard_iff.1 h.0,
          subst (λ b. permit b ≡ true) (sym (not_empty h.0.0 readings h.0.1))
              (allowed.1 (h.1, h.2)),
        ),
      )
