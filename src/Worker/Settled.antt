-- ===== src/Worker/Settled.antt =====
-- What `CommandWorker._handle` has done with a record when it returns, and when it raises.
use openontology.Prelude.{
  All-map, Extends, Extends-refl, Logged, Logged-Extends, Logged-append, replicate, NoneType,
  if◌then◌else◌, Bool-cases, length, All, Result, ok, raise, eq_string, eq_pair, Text, eq_text, ℕ,
  suc, ◌≤◌, ◌<◌, ◌≡◌, refl, sym, ap, ◌∙◌, subst, inl, inr, Bool, true, false, Option, none, some,
  List, [], ◌∷◌, ◌++◌, arith,
}
use openontology.Json.{Fields}
use openontology.Settings.{Settings}
use openontology.Publisher.{Interrupt, value_or_empty, dead_letter}
use openontology.Pipeline.{PipelineError, license, permanent, interrupted, CommandBatch, close_loop}
use openontology.Pipeline.Published.{repeat_each}
use openontology.Pipeline.Billing.{Undisturbed, Closes, close_loop-Closes}
use openontology.Metrics.{count_consumed, count_license_rejected}
use mathlib.Core.List.{append-nil}
use openontology.World.{World, Environment, DeadLetter, count}
use openontology.Worker.Message.{Message, decode, inject_license_key}
use openontology.Worker.Handle.{after_pipeline, handle_decoded, handle}

repeat_each-Logged :
    {A : Type 0} (ks : List ℕ) (cs : List A)
    → length ks ≡ length cs
    → All (Logged (repeat_each ks cs)) cs
repeat_each-Logged ks [] e = tt
repeat_each-Logged [] (c ∷ cs) e = absurd (omega (arith, e))
repeat_each-Logged (k ∷ ks) (c ∷ cs) e = (
  ([], replicate k c ++ repeat_each ks cs, refl),
  All-map _ _ (λ x. Logged-append (replicate (suc k) c) (repeat_each ks cs) x) cs
      (repeat_each-Logged ks cs (omega (arith, e))),
)

maybe_more :
    {A : Type 0} (kept : Bool) (l l' : List A) (x : A)
    → l ≡ l'
    → Extends l' (if kept then l ++ x ∷ [] else l)
maybe_more true l l' x e = (x ∷ [], ap (λ y. y ++ x ∷ []) e)
maybe_more false l l' x e = ([], e ∙ sym (append-nil _))

module _ {Uuid : Type 0} (env : Environment Uuid) (settings : Settings) where
  -- Both topics have grown, and the count of lost dead letters too.
  pub record Progress (w w' : World Uuid) : Type 0 where
    pub commands : Extends w.commands w'.commands
    pub dead_letters : Extends w.dead_letters w'.dead_letters
    pub dlq_failures : w.circuit.metrics.dlq_failures ≤ w'.circuit.metrics.dlq_failures

  -- What the topics hold for a record that the worker is through with: every command of the batch
  -- that `close_loop` made of it, or its dead letter, or neither, where `dlq_failures` counts a
  -- dead letter that was not acknowledged.
  pub data Settled (w : World Uuid) (message : Message) (offset : ℕ) : Type 0 where
    executed :
        (payload : Fields) (correlation : Text) (v : World Uuid) (batch : CommandBatch Uuid)
        → decode env settings message.value ≡ some payload
        → (close_loop env settings correlation
            (inject_license_key env settings message.headers payload)
            v).0
          ≡ ok batch
        → All (Logged w.commands) batch.commands
        → Settled w message offset
    dead_lettered :
        (letter : DeadLetter)
        → letter.source_offset ≡ offset
        → letter.value ≡ value_or_empty env settings message.value
        → letter.key ≡ message.key
        → Logged w.dead_letters letter
        → Settled w message offset
    dropped : 0 < w.circuit.metrics.dlq_failures → Settled w message offset

  pub Progress-refl : (w : World Uuid) → Progress w w
  Progress-refl w = record {
    commands = Extends-refl w.commands;
    dead_letters = Extends-refl w.dead_letters;
    dlq_failures = omega arith;
  }

  -- A record that is settled stays settled.
  pub Settled-Progress :
      (w w' : World Uuid) (message : Message) (offset : ℕ)
      → Progress w w'
      → Settled w message offset
      → Settled w' message offset
  Settled-Progress w w' message offset p (executed payload correlation v batch d c logged) =
      executed payload correlation v batch d c (
        All-map _ _ (λ x. Logged-Extends w.commands w'.commands x p.commands) batch.commands logged)
  Settled-Progress w w' message offset p (dead_lettered letter o v k logged) =
      dead_lettered letter o v k
        (Logged-Extends w.dead_letters w'.dead_letters letter p.dead_letters logged)
  Settled-Progress w w' message offset p (dropped lost) =
      dropped (omega (arith, lost, p.dlq_failures))

  module _ (message : Message) (offset : ℕ) where
    -- What the outcome of `_handle` in the world `w` says.
    abbrev pub Handles : World Uuid → Result Interrupt NoneType × World Uuid → Type 0
    Handles w (ok x, w') = Progress w w' × Settled w' message offset
    Handles w (raise e, w') = (Undisturbed env settings w w') × Extends w.commands w'.commands

    dead_letter-Handles :
        (why : Text) (w v : World Uuid)
        → Undisturbed env settings w v
        → Extends w.commands v.commands
        → Handles w (ok tt, dead_letter env settings message.value message.key why offset v)
    unfolding dead_letter
    dead_letter-Handles why w v (letters, failures) grown = elim (Bool-cases v.started) [
      | inr stopped ↦
          rw (stopped, dead_letter)
            (
              record {
                commands = grown;
                dead_letters = ([], letters ∙ sym (append-nil _));
                dlq_failures = omega (arith, failures);
              },
              dropped (omega arith),
            )
      | inl started ↦ elim (Bool-cases (env.acknowledged v.sends)) [
        | inl yes_ ↦
            rw (started, dead_letter)
              (rw yes_ (
                record {
                  commands = grown;
                  dead_letters = maybe_more true v.dead_letters w.dead_letters _ letters;
                  dlq_failures = omega (arith, failures);
                },
                dead_lettered _ refl refl refl (v.dead_letters, [], refl),
              ))
        | inr no_ ↦
            rw (started, dead_letter)
              (rw no_ (
                record {
                  commands = grown;
                  dead_letters =
                      maybe_more (env.persisted v.sends) v.dead_letters w.dead_letters _ letters;
                  dlq_failures = omega (arith, failures);
                },
                dropped (omega arith),
              ))
      ]
    ]

    after_pipeline-Handles :
        (payload : Fields) (correlation : Text) (w v : World Uuid)
        (r : Result PipelineError (CommandBatch Uuid) × World Uuid)
        → Undisturbed env settings w v
        → v.commands ≡ w.commands
        → decode env settings message.value ≡ some payload
        → (close_loop env settings correlation
            (inject_license_key env settings message.headers payload)
            v).0
          ≡ r.0
        → Closes env settings v r
        → Handles w (after_pipeline env settings message offset r)
    unfolding after_pipeline
    after_pipeline-Handles payload correlation w v (ok b, w') d c decoded closed
          (held, ks, len, log) =
        (
          record {
            commands =
                (repeat_each ks b.commands, log ∙ ap (λ l. l ++ repeat_each ks b.commands) c);
            dead_letters = ([], held.0 ∙ d.0 ∙ sym (append-nil _));
            dlq_failures = omega (arith, held.1, d.1);
          },
          executed payload correlation v b decoded closed (
              subst (λ l. All (Logged l) b.commands) (sym log)
                (All-map _ _ (λ x. Logged-append v.commands (repeat_each ks b.commands) x)
                  b.commands (repeat_each-Logged ks b.commands len))),
        )
    after_pipeline-Handles payload correlation w v (raise (license x), w') d c decoded closed
          (held, log) =
        dead_letter-Handles _ w (count count_license_rejected w') (held.0 ∙ d.0, held.1 ∙ d.1)
          ([], log ∙ c ∙ sym (append-nil _))
    after_pipeline-Handles payload correlation w v (raise (permanent x), w') d c decoded closed
          (held, log) =
        dead_letter-Handles _ w w' (held.0 ∙ d.0, held.1 ∙ d.1) ([], log ∙ c ∙ sym (append-nil _))
    after_pipeline-Handles payload correlation w v (raise (interrupted x), w') d c decoded closed
          (held, (more, log)) =
        ((held.0 ∙ d.0, held.1 ∙ d.1), (more, log ∙ ap (λ l. l ++ more) c))

    handle_decoded-Handles :
        (correlation : Text) (decoded : Option Fields) (w : World Uuid)
        → decode env settings message.value ≡ decoded
        → Handles w (
            handle_decoded env settings message offset correlation decoded (count count_consumed w))
    unfolding handle_decoded
    handle_decoded-Handles correlation none w e =
        dead_letter-Handles _ w (count count_consumed w) (refl, refl) (Extends-refl w.commands)
    handle_decoded-Handles correlation (some payload) w e =
        after_pipeline-Handles payload correlation w (count count_consumed w) _ (refl, refl) refl e
          refl (close_loop-Closes env settings correlation _ (count count_consumed w))

    -- Where `_handle` returns, and the offset may be committed, the record is settled and both
    -- topics have only grown. Where it raises, nothing was dead-lettered and no dead letter was
    -- lost: a failure that the record did not cause leaves it to be read again.
    pub handle-Handles : (w : World Uuid) → Handles w (handle env settings message offset w)
    unfolding handle
    handle-Handles w = handle_decoded-Handles _ (decode env settings message.value) w refl
