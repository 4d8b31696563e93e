-- ===== src/Pipeline/Published.antt =====
-- What reaches `ontology.commands`.
use openontology.Prelude.{
  replicate, replicate-snoc, NoneType, Bool-cases, length, Result, ok, raise, eq_string, eq_pair,
  eq_text, ℕ, suc, ◌≡◌, refl, sym, ap, ◌∙◌, inl, inr, Bool, true, false, List, [], ◌∷◌, ◌++◌,
}
use openontology.Settings.{Settings}
use openontology.Retry.{Retried, done, failed, exhausted}
use openontology.Retry.Rule.{Brings, Leaves, retry_async-Leaves}
use openontology.Command.Payload.{CommandPayload}
use openontology.World.{World, Environment, effects, count}
use openontology.Metrics.{count_commands_issued}
use mathlib.Core.List.{append_assoc, append-nil}
use openontology.Publisher.{
  Interrupt, send, plain_hints, publish_backoff, settle_publish, publish_if, publish,
}
use openontology.Pipeline.{published_then, publish_all}

module _ {A : Type 0} where
  -- Each element, one or more times in a row: `k + 1` times where the counts say `k`.
  abbrev pub repeat_each : List ℕ → List A → List A
  repeat_each (k ∷ ks) (c ∷ cs) = replicate (suc k) c ++ repeat_each ks cs
  repeat_each _ _ = []

module _ {Uuid : Type 0} (env : Environment Uuid) (settings : Settings) where
  module _ (command : CommandPayload Uuid) (before : List (CommandPayload Uuid)) where
    -- The log has grown by `command` a number of times.
    abbrev Grown : World Uuid → Type 0
    Grown w = (k : ℕ) × (w.commands ≡ before ++ replicate k command)

    abbrev GrownMore : NoneType → World Uuid → Type 0
    GrownMore _ w = (k : ℕ) × (w.commands ≡ before ++ replicate (suc k) command)

    send-Brings : (w : World Uuid) → Grown w → Brings Grown GrownMore (send env settings command w)
    unfolding send
    send-Brings w (k, e) = elim (Bool-cases (env.acknowledged w.sends)) [
      | inl yes_ ↦
          rw (yes_, send)
            (
              k,
              rw e (
                  append_assoc before (replicate k command) (command ∷ [])
                  ∙ ap (◌++◌ before) (replicate-snoc k command)),
            )
      | inr no_ ↦ elim (Bool-cases (env.persisted w.sends)) [
        | inl kept ↦
            rw (no_, send)
              (rw kept (
                suc k,
                rw e (
                    append_assoc before (replicate k command) (command ∷ [])
                    ∙ ap (◌++◌ before) (replicate-snoc k command)),
              ))
        | inr lost ↦ rw (no_, send) (rw lost (k, e))
      ]
    ]

    abbrev Published : Result Interrupt NoneType × World Uuid → Type 0
    Published (ok x, w) = GrownMore x w
    Published (raise e, w) = Grown w

    settle-Published :
        (r : Retried NoneType NoneType × World Uuid)
        → Leaves Grown GrownMore r
        → Published (settle_publish env settings r)
    settle-Published (done x, w) h = h
    settle-Published (failed e, w) h = h
    settle-Published (exhausted, w) h = h

    publish_if-Published :
        (started : Bool) (w : World Uuid)
        → w.commands ≡ before
        → Published (publish_if env settings started command w)
    unfolding publish_if
    publish_if-Published false w e = (0, e ∙ sym (append-nil _))
    publish_if-Published true w e = settle-Published _ (
        retry_async-Leaves (effects env) plain_hints (publish_backoff env settings)
          (send env settings command) Grown GrownMore send-Brings (λ x attempt s h. h) w
          (0, e ∙ sym (append-nil _)))

    publish-Published :
        (w : World Uuid) → w.commands ≡ before → Published (publish env settings command w)
    unfolding publish
    publish-Published w e = publish_if-Published w.started w e

  -- What a publication of `commands` from a log `before` leads to, if it succeeds.
  abbrev pub Repeats :
      List (CommandPayload Uuid)
      → List (CommandPayload Uuid)
      → Result Interrupt NoneType × World Uuid
      → Type 0
  Repeats before commands r =
      r.0 ≡ ok tt
      → (ks : List ℕ) × (length ks ≡ length commands)
        × (r.1.commands ≡ before ++ repeat_each ks commands)

  then-Repeats :
      (before : List (CommandPayload Uuid)) (c : CommandPayload Uuid)
      (cs : List (CommandPayload Uuid))
      → ((w : World Uuid) → Repeats w.commands cs (publish_all env settings cs w))
      → (r : Result Interrupt NoneType × World Uuid) → Published c before r
      → Repeats before (c ∷ cs) (published_then env settings (publish_all env settings cs) r)
  then-Repeats before c cs ih (raise e, w') grown h = cc
  then-Repeats before c cs ih (ok x, w') (k, grown) h =
      let (ks, len, log) = ih (count count_commands_issued w') h in
      (
        k ∷ ks,
        ap suc len,
        log
            ∙ ap (λ l. l ++ repeat_each ks cs) grown
            ∙ append_assoc before (replicate (suc k) c) (repeat_each ks cs),
      )

  publish_all-Repeats :
      (commands : List (CommandPayload Uuid)) (w : World Uuid)
      → Repeats w.commands commands (publish_all env settings commands w)
  unfolding publish_all
  publish_all-Repeats [] w h = ([], refl, sym (append-nil _))
  publish_all-Repeats (c ∷ cs) w h =
      then-Repeats w.commands c cs (publish_all-Repeats cs) (publish env settings c w)
        (publish-Published c w.commands w refl) h

  -- Where the whole batch is published, the command log has grown by the batch in order, each
  -- command one or more times in a row: none is missing, and none is out of order.
  pub publish_all-repeat_each :
      (commands : List (CommandPayload Uuid)) (w : World Uuid)
      → (publish_all env settings commands w).0 ≡ ok tt
      → (ks : List ℕ) × (length ks ≡ length commands)
        × ((publish_all env settings commands w).1.commands ≡ w.commands ++ repeat_each ks commands)
  publish_all-repeat_each commands w h = publish_all-Repeats commands w h
