-- ===== src/Worker/Delivery.antt =====
-- The offsets that `CommandWorker` commits: at-least-once delivery.
use openontology.Prelude.{
  Extends, NoneType, ltb, ltb→lt, Bool-cases, Result, ok, raise, eq_string, eq_pair, eq_text, ℕ,
  ◌+◌, ◌≤◌, ◌<◌, ◌≡◌, sym, ◌∙◌, subst, inl, inr, Bool, true, false, List, [], ◌∷◌, arith,
}
use openontology.Settings.{Settings}
use openontology.Publisher.{Interrupt, transient, runtime_error}
use mathlib.Core.List.{append-nil}
use openontology.World.{World, Environment}
use openontology.Worker.Message.{Message}
use openontology.Worker.Loop.{
  RunState, consuming, crashed, Worker, Event, deliver, fail, restart, rewind, settle, step,
  advance, run,
}
use openontology.Worker.Settled.{
  Progress, Progress-refl, Settled, Settled-Progress, Handles, handle-Handles,
}
use openontology.Pipeline.Billing.{Undisturbed}

module _ {Uuid : Type 0} (env : Environment Uuid) (settings : Settings) (log : ℕ → Message) where
  -- Every record from `first` up to an offset is settled.
  abbrev pub AllSettled : ℕ → World Uuid → ℕ → Type 0
  AllSettled first w bound = (n : ℕ) → first ≤ n → n < bound → Settled env settings w (log n) n

  AllSettled-Progress :
      (first : ℕ) (w w' : World Uuid) (bound : ℕ)
      → Progress env settings w w'
      → AllSettled first w bound
      → AllSettled first w' bound
  AllSettled-Progress first w w' bound p all_ n low high =
      Settled-Progress env settings w w' (log n) n p (all_ n low high)

  AllSettled-suc :
      (first : ℕ) (w : World Uuid) (bound : ℕ)
      → AllSettled first w bound
      → Settled env settings w (log bound) bound
      → AllSettled first w (bound + 1)
  AllSettled-suc first w bound all_ last n low high = elim (Bool-cases (ltb n bound)) [
    | inl below ↦ all_ n low (ltb→lt n bound below)
    | inr at_ ↦ subst (λ k. Settled env settings w (log k) k) (ground arith) last
  ]

  -- What holds of a worker that began at the offset `first`.
  pub record IsDelivering (first : ℕ) (s : Worker Uuid) : Type 0 where
    pub committed_le : s.committed ≤ s.position
    pub position_settled : AllSettled first s.world s.position

  module _ (first : ℕ) where
    -- The consumer begins again from the committed offset, in a world that has moved on.
    back-IsDelivering :
        (s : Worker Uuid) (w : World Uuid) (running : RunState) (streak : ℕ)
        → Progress env settings s.world w
        → IsDelivering first s
        → IsDelivering first (record {
          world = w;
          running = running;
          streak = streak;
          position = s.committed;
          committed = s.committed;
        })
    back-IsDelivering s w running streak p h = record {
      committed_le = omega arith;
      position_settled = λ n low high.
          Settled-Progress env settings s.world w (log n) n p
            (h.position_settled n low (omega (arith, high, h.committed_le)));
    }

    -- The consumer stays where it is, in a world that has moved on.
    stay-IsDelivering :
        (s : Worker Uuid) (w : World Uuid) (running : RunState) (streak : ℕ)
        → Progress env settings s.world w
        → IsDelivering first s
        → IsDelivering first (record s { world = w; running = running; streak = streak })
    stay-IsDelivering s w running streak p h = record {
      committed_le = h.committed_le;
      position_settled = AllSettled-Progress first s.world w s.position p h.position_settled;
    }

    -- A world that differs in its clock, its draws and the counts of interruptions only.
    pausing :
        (w v : World Uuid)
        → Extends w.commands v.commands
        → v.dead_letters ≡ w.dead_letters
        → v.circuit.metrics.dlq_failures ≡ w.circuit.metrics.dlq_failures
        → Progress env settings w v
    pausing w v grown letters failures = record {
      commands = grown;
      dead_letters = ([], letters ∙ sym (append-nil _));
      dlq_failures = omega (arith, failures);
    }

    rewind-IsDelivering :
        (seeks : Bool) (s : Worker Uuid) (w : World Uuid)
        → Undisturbed env settings s.world w
        → Extends s.world.commands w.commands
        → IsDelivering first s
        → IsDelivering first (rewind env settings log seeks (record s { world = w }))
    unfolding rewind
    rewind-IsDelivering true s w (letters, failures) grown h =
        stay-IsDelivering s _ consuming _ (pausing s.world _ grown letters failures) h
    rewind-IsDelivering false s w (letters, failures) grown h =
        back-IsDelivering s _ s.running _ (pausing s.world _ grown letters failures) h

    restart-IsDelivering :
        (s : Worker Uuid) (w : World Uuid) (streak : ℕ)
        → Progress env settings s.world w
        → IsDelivering first s
        → IsDelivering first (restart env settings log (record s { world = w; streak = streak }))
    unfolding restart
    restart-IsDelivering s w streak p h =
        back-IsDelivering s _ consuming _
          (record {
            commands = p.commands;
            dead_letters = p.dead_letters;
            dlq_failures = p.dlq_failures;
          })
          h

    settle-IsDelivering :
        (commits seeks : Bool) (s : Worker Uuid) (r : Result Interrupt NoneType × World Uuid)
        → IsDelivering first s
        → Handles env settings (log s.position) s.position s.world r
        → IsDelivering first (settle env settings log commits seeks s r)
    unfolding settle
    settle-IsDelivering true seeks s (ok x, w) h (p, settled) = record {
      committed_le = omega arith;
      position_settled =
          AllSettled-suc first w s.position
            (AllSettled-Progress first s.world w s.position p h.position_settled) settled;
    }
    settle-IsDelivering false seeks s (ok x, w) h (p, settled) = restart-IsDelivering s w 0 p h
    settle-IsDelivering commits seeks s (raise (transient reason), w) h (held, grown) =
        rewind-IsDelivering seeks s w held grown h
    settle-IsDelivering commits seeks s (raise runtime_error, w) h (held, grown) =
        stay-IsDelivering s w crashed s.streak (pausing s.world w grown held.0 held.1) h

    step-IsDelivering :
        (e : Event) (s : Worker Uuid)
        → IsDelivering first s
        → IsDelivering first (step env settings log e s)
    unfolding step
    step-IsDelivering (deliver commits seeks) s h =
        settle-IsDelivering commits seeks s _ h
          (handle-Handles env settings (log s.position) s.position s.world)
    step-IsDelivering fail s h =
        restart-IsDelivering s s.world s.streak (Progress-refl env settings s.world) h

    advance-IsDelivering :
        (running : RunState) (e : Event) (s : Worker Uuid)
        → IsDelivering first s
        → IsDelivering first (advance env settings log running e s)
    advance-IsDelivering crashed e s h = h
    advance-IsDelivering consuming e s h = step-IsDelivering e s h

    run-IsDelivering :
        (es : List Event) (s : Worker Uuid)
        → IsDelivering first s
        → IsDelivering first (run env settings log es s)
    run-IsDelivering [] s h = h
    run-IsDelivering (e ∷ es) s h = run-IsDelivering es _ (advance-IsDelivering s.running e s h)

  abbrev pub joined : World Uuid → ℕ → Worker Uuid
  joined w first = record {
    world = w;
    running = consuming;
    streak = 0;
    position = first;
    committed = first;
  }

  -- A worker that joins the group at the offset `first`, and then meets any sequence of
  -- deliveries, failed commits, failed seeks and consumer failures: every record below the
  -- committed offset is settled. Each command of the batch that was made of it is in the command
  -- log, or its dead letter is in the dead-letter topic, or `dlq_failures` is positive. The
  -- committed offset is never ahead of the position.
  pub run-AllSettled :
      (es : List Event) (w : World Uuid) (first : ℕ)
      → AllSettled first
          (run env settings log es (joined w first)).world
          (run env settings log es (joined w first)).committed
        × ((run env settings log es (joined w first)).committed
            ≤ (run env settings log es (joined w first)).position)
  run-AllSettled es w first =
      let h = run-IsDelivering first es (joined w first) (record {
        committed_le = omega arith;
        position_settled = λ n low high. absurd (omega (arith, low, high));
      }) in
      (
        (λ n low high. h.position_settled n low (omega (arith, high, h.committed_le))),
        h.committed_le,
      )
