-- ===== src/Topology.antt =====
-- The deterministic topology kernel of services/graphrag-interceptor/graphrag_interceptor.py:
-- the bands of a telemetry channel and the resolution of an asset's presence over its replicas. A
-- reading and a limit are numbers in one unit; a rate and a trust are numbers of millionths.
pub mod Bands
pub mod Presence
use openontology.Prelude.{
  string_ne, All-map, Extends, Extends-refl, Extends-trans, Logged, Logged-Extends, Logged-append,
  replicate, replicate-snoc, NoneType, ok_inj, >>=-eq-ok, decimal, decimal_inj, IsDigit,
  decimal-IsDigit, ltb, leb, ◌==◌, if◌then◌else◌, ltb→lt, lt→ltb, leb→le, le→leb, ==_iff,
  Bool-cases, Option-cases, some_inj, length, take, is_empty, any, all, keep, length-append,
  length-take, length-keep-le, All, All-append, All-take, Result, ok, raise, ◌>>=◌, Result-cases,
  Eq, eq_string, eq_pair, string_beq_iff, pair_beq_iff, pair_beq, Text, codes, text_eq,
  text_eq_sound, text_eq_complete, text_eq_refl, text_eq_iff, eq_text, is_space, lstrip,
  rstrip_onto, rstrip, upper_char, find, member, find-All, lower_char, has_prefix, onto_first,
  split_on, strip, upper, lower, replace_char, rstrip_char, ℕ, zero, suc, ◌+◌, ◌-◌, ◌*◌, ◌/◌, ◌%◌,
  ◌^◌, ◌≤◌, ◌<◌, min, max, String, ◌≡◌, refl, sym, ap, ◌∙◌, subst, ◌≢◌, ◌↔◌, ◌⊎◌, inl, inr, Bool,
  true, false, not, ◌&&◌, ◌||◌, Option, none, some, List, [], ◌∷◌, ◌++◌, map, arith, string_eq,
}
use openontology.Safety.{round_to_thousandths}

pub data Band : Type 0 where
  nominal warn critical hard unknown : Band

-- `_BAND_RANK`
abbrev pub band_rank : Band → ℕ
band_rank unknown = 0
band_rank nominal = 0
band_rank warn = 1
band_rank critical = 2
band_rank hard = 3

pub record ChannelLimit : Type 0 where
  pub warn_at : ℕ
  pub critical_at : ℕ
  pub hard_at : ℕ
  pub physical : Bool

-- `ChannelLimit.band`
unfoldable pub band : ChannelLimit → ℕ → Band
band limit value =
    if leb limit.hard_at value
    then hard
    else if leb limit.critical_at value
    then critical
    else if leb limit.warn_at value
    then warn
    else nominal

-- `worst_band`, from the worst band so far
unfoldable pub worst_from : Band → List Band → Band
worst_from worst [] = worst
worst_from worst (b ∷ bands) =
    worst_from (if ltb (band_rank worst) (band_rank b) then b else worst) bands

unfoldable pub worst_band : List Band → Band
unfolding worst_from
worst_band = worst_from nominal

pub data CrdtPresence : Type 0 where
  live tombstoned unobserved : CrdtPresence

pub data TieBreaker : Type 0 where
  removed_wins add_wins not_required : TieBreaker

pub record ReplicaObservation : Type 0 where
  pub replica_id : Text
  pub add_stamp : ℕ
  pub remove_stamp : ℕ

-- `ReplicaObservation.local_presence`
unfoldable pub local_presence : ReplicaObservation → CrdtPresence
local_presence o =
    if (o.add_stamp == 0) && (o.remove_stamp == 0)
    then unobserved
    else if ltb o.remove_stamp o.add_stamp
    then live
    else tombstoned

-- `is`, on presences
abbrev pub same_presence : CrdtPresence → CrdtPresence → Bool
same_presence live live = true
same_presence tombstoned tombstoned = true
same_presence unobserved unobserved = true
same_presence _ _ = false

-- `max(obs.add_stamp for obs in observations)`, where there is one
unfoldable pub highest : (ReplicaObservation → ℕ) → List ReplicaObservation → ℕ
highest stamp [] = 0
highest stamp (o ∷ observations) = max (stamp o) (highest stamp observations)

-- the presence and the tie-breaker, from the joined stamps
unfoldable pub decide :
    (highest_add highest_remove : ℕ) → (has_live_downstream : Bool) → CrdtPresence × TieBreaker
decide highest_add highest_remove has_live_downstream =
    if ltb highest_remove highest_add
    then (live, not_required)
    else if ltb highest_add highest_remove
    then (tombstoned, not_required)
    else if highest_add == 0
    then (unobserved, not_required)
    else if has_live_downstream
    then (live, add_wins)
    else (tombstoned, removed_wins)

-- whether a replica has not absorbed the joined verdict
abbrev pub diverges : CrdtPresence → ReplicaObservation → Bool
diverges presence o =
    not (same_presence (local_presence o) unobserved)
    && not (same_presence (local_presence o) presence)

abbrev pub is_add_wins : TieBreaker → Bool
is_add_wins add_wins = true
is_add_wins _ = false

-- what is taken off the trust, before it is bounded below by 0
abbrev pub penalty :
    (contested : Bool)
    → CrdtPresence × TieBreaker
    → (diverging collision_rate : ℕ) → (telemetry_is_live : Bool) → ℕ
penalty contested (presence, rule) diverging collision_rate telemetry_is_live =
    (if contested then 250000 else 0)
    + (if is_add_wins rule then 100000 else 0)
    + min 300000 (100000 * diverging)
    + min 400000 (2 * collision_rate)
    + (if same_presence presence tombstoned && telemetry_is_live then 250000 else 0)

-- `CRDTAssessment`, without its texts
pub record CrdtAssessment : Type 0 where
  pub presence : CrdtPresence
  pub tie_breaker_rule : TieBreaker
  pub contested : Bool
  pub highest_add_stamp : ℕ
  pub highest_remove_stamp : ℕ
  pub diverging : ℕ
  pub graph_trust : ℕ

abbrev pub unverified : ℕ → CrdtAssessment
unverified collision_rate = record {
  presence = unobserved;
  tie_breaker_rule = not_required;
  contested = false;
  highest_add_stamp = 0;
  highest_remove_stamp = 0;
  diverging = 0;
  graph_trust = round_to_thousandths (700000 - min 400000 (2 * collision_rate));
}

-- `resolve_crdt_presence` where there are observations
unfoldable pub assess :
    List ReplicaObservation
    → (has_live_downstream : Bool) → ℕ
    → (telemetry_is_live : Bool) → CrdtAssessment
unfolding decide local_presence highest
assess observations has_live_downstream collision_rate telemetry_is_live =
    let highest_add = highest (λ o. o.add_stamp) observations in
    let highest_remove = highest (λ o. o.remove_stamp) observations in
    let contested = (highest_add == highest_remove) && ltb 0 highest_add in
    let verdict = decide highest_add highest_remove has_live_downstream in
    let diverging = length (keep (diverges verdict.0) observations) in
    record {
      presence = verdict.0;
      tie_breaker_rule = verdict.1;
      contested = contested;
      highest_add_stamp = highest_add;
      highest_remove_stamp = highest_remove;
      diverging = diverging;
      graph_trust =
          round_to_thousandths
            (1000000 - penalty contested verdict diverging collision_rate telemetry_is_live);
    }

-- `resolve_crdt_presence`
unfoldable pub resolve_crdt_presence :
    List ReplicaObservation
    → (has_live_downstream : Bool) → (collision_rate : ℕ) → (telemetry_is_live : Bool)
    → CrdtAssessment
unfolding assess
resolve_crdt_presence [] has_live_downstream collision_rate telemetry_is_live =
    unverified collision_rate
resolve_crdt_presence (o ∷ observations) has_live_downstream collision_rate telemetry_is_live =
    assess (o ∷ observations) has_live_downstream collision_rate telemetry_is_live
