-- ===== src/Topology/Presence.antt =====
-- The join of the replicas' timelines, and the trust that it leaves.
use openontology.Prelude.{
  ltb, ◌==◌, ltb→lt, Bool-cases, eq_string, eq_pair, eq_text, ℕ, ◌-◌, ◌*◌, ◌≤◌, ◌<◌, ◌≡◌, refl, ◌↔◌,
  ◌⊎◌, inl, inr, Bool, true, false, ◌&&◌, List, [], ◌∷◌, arith,
}
use mathlib.Core.List.{Permᴰ}
use openontology.Topology.{
  CrdtPresence, TieBreaker, live, not_required, ReplicaObservation, highest, decide, penalty,
  assess, resolve_crdt_presence,
}
use openontology.Safety.{round_to_thousandths}

decide-live_iff :
    (a r : ℕ) (downstream : Bool)
    → ((decide a r downstream).0 ≡ live) ↔ ((r < a) ⊎ ((a ≡ r) × (0 < a) × (downstream ≡ true)))
unfolding decide
decide-live_iff a r downstream = elim (Bool-cases (ltb r a)) [
  | inl more ↦ (λ h. inl (ltb→lt r a more), λ h. ground arith)
  | inr no_more ↦ (
    λ h. inr (ground arith, ground arith, ground arith),
    λ h. elim h [ inl lt ↦ absurd (ground arith) | inr (same, pos, fed) ↦ ground arith ],
  )
]

decide_later : (a r : ℕ) (downstream : Bool) → r < a → decide a r downstream ≡ (live, not_required)
unfolding decide
decide_later a r downstream h = ground arith

add_stamp-le :
    (o : ReplicaObservation) (xs : List ReplicaObservation)
    → o.add_stamp ≤ highest (λ x. x.add_stamp) (o ∷ xs)
unfolding highest
add_stamp-le o xs = omega arith

not_tied : (a r : ℕ) → r < a → ((a == r) && ltb 0 a) ≡ false
not_tied a r h = ground arith

round-le : (x k : ℕ) → x ≤ k * 1000 → round_to_thousandths x ≤ k * 1000
round-le x k h = ground arith

tied_trust :
    (contested : Bool) (verdict : CrdtPresence × TieBreaker) (diverging collision_rate : ℕ)
    (telemetry_is_live : Bool)
    → contested ≡ true
    → round_to_thousandths
        (1000000 - penalty contested verdict diverging collision_rate telemetry_is_live)
      ≤ 750000
tied_trust contested (presence, rule) diverging collision_rate telemetry_is_live h =
    round-le
      (1000000 - penalty contested (presence, rule) diverging collision_rate telemetry_is_live) 750
      (rw h (omega arith))

module _ (has_live_downstream : Bool) (collision_rate : ℕ) (telemetry_is_live : Bool) where
  -- With an observation, the asset is live if and only if its highest add stamp passes its highest
  -- remove stamp, or they tie above zero and it has live dependents downstream.
  pub resolve_crdt_presence-live_iff :
      (o : ReplicaObservation) (xs : List ReplicaObservation)
      → let a = highest (λ x. x.add_stamp) (o ∷ xs) in
        let r = highest (λ x. x.remove_stamp) (o ∷ xs) in
        ((resolve_crdt_presence
            (o ∷ xs)
            has_live_downstream
            collision_rate
            telemetry_is_live).presence
          ≡ live)
        ↔ ((r < a) ⊎ ((a ≡ r) × (0 < a) × (has_live_downstream ≡ true)))
  unfolding resolve_crdt_presence assess
  resolve_crdt_presence-live_iff o xs =
      decide-live_iff (highest (λ x. x.add_stamp) (o ∷ xs)) (highest (λ x. x.remove_stamp) (o ∷ xs))
        has_live_downstream

  -- A later add always brings the asset back: an observation whose add stamp passes every remove
  -- stamp makes it live, and no policy is needed for that.
  resolve_crdt_presence_add :
      (o : ReplicaObservation) (xs : List ReplicaObservation)
      → highest (λ x. x.remove_stamp) (o ∷ xs) < o.add_stamp
      → let r =
          resolve_crdt_presence (o ∷ xs) has_live_downstream collision_rate telemetry_is_live in
        (r.presence ≡ live) × (r.tie_breaker_rule ≡ not_required) × (r.contested ≡ false)
  unfolding resolve_crdt_presence assess
  resolve_crdt_presence_add o xs later =
      let more : highest (λ x. x.remove_stamp) (o ∷ xs) < highest (λ x. x.add_stamp) (o ∷ xs) =
        omega (arith, add_stamp-le o xs) in
      rw (decide_later _ _ has_live_downstream more) (refl, refl, not_tied _ _ more)

  -- A tie of the stamps costs the graph at least a quarter of its trust.
  resolve_crdt_presence_contested :
      (xs : List ReplicaObservation)
      → (resolve_crdt_presence xs has_live_downstream collision_rate telemetry_is_live).contested
        ≡ true
      → (resolve_crdt_presence xs has_live_downstream collision_rate telemetry_is_live).graph_trust
        ≤ 750000
  unfolding resolve_crdt_presence assess
  resolve_crdt_presence_contested [] h = cc
  resolve_crdt_presence_contested (o ∷ xs) h = tied_trust _ _ _ collision_rate telemetry_is_live h
