-- ===== src/Interplay/Reasons.antt =====
-- What the watchdog loop ends on with `--follow`.
use tribe.Base.{◌≡◌, refl, String, true, Option, List, [], ◌∷◌, arith}
use tribe.Watchdog.Model.{
  WatchdogObservation, WatchdogRunObservation, WatchdogAction, launch, attach, wait_until, relaunch,
  stall, exit, follow,
}
use tribe.Watchdog.Decide.{decide}
use tribe.Watchdog.Decide.Reasons.{is_follow_reason, Follows, decide-Follows}
use tribe.Watchdog.Loop.{WatchdogConfig, World, Reply, LoopState}
use tribe.Watchdog.Loop.Observe.{observation, remembered}
use tribe.Watchdog.Loop.Tick.{Outcome, continues, terminates, throws, perform, tick, run}

-- The loop goes on, or ends on a reason with the property; it does not throw.
abbrev pub EndsOn : (String → Type 0) → Outcome → Type 0
EndsOn P (continues s) = Unit
EndsOn P (terminates t s) = P t.reason
EndsOn P throws = ⊥

module _ (config : WatchdogConfig) (m : config.mode ≡ follow) where
  abbrev FollowReason : String → Type 0
  FollowReason reason = is_follow_reason reason ≡ true

  perform-EndsOn :
      (reply : Reply) (o : WatchdogObservation) (r : Option WatchdogRunObservation)
      (a : WatchdogAction) (s : LoopState)
      → o.mode ≡ config.mode
      → Follows o a
      → EndsOn FollowReason (perform config reply r a s)
  unfolding perform
  perform-EndsOn reply o r launch s e f = ground arith
  perform-EndsOn reply o r (attach pid) s e f = ground arith
  perform-EndsOn reply o r (wait_until n c) s e f = ground arith
  perform-EndsOn reply o r (relaunch c x) s e f = ground arith
  perform-EndsOn reply o r (stall x y z u) s e f = ground arith
  perform-EndsOn reply o r (exit x y z u) s e f = ground arith

  tick-EndsOn :
      (w : World) (reply : Reply) (s : LoopState) → EndsOn FollowReason (tick config w reply s)
  unfolding tick observation
  tick-EndsOn w reply s =
      perform-EndsOn reply (observation w s config) (observation w s config).run
        (decide (observation w s config)) (remembered w s) refl
        (decide-Follows (observation w s config))

  next-EndsOn :
      (t : Outcome) (next : LoopState → Outcome)
      → EndsOn FollowReason t
      → ((s : LoopState) → EndsOn FollowReason (next s))
      → EndsOn FollowReason
          (elim t [ continues s ↦ next s | terminates u s ↦ terminates u s | throws ↦ throws ])
  next-EndsOn (continues s) next h k = k s
  next-EndsOn (terminates u s) next h k = h
  next-EndsOn throws next h k = h

  pub run-EndsOn :
      (ticks : List (World × Reply)) (s : LoopState) → EndsOn FollowReason (run config ticks s)
  unfolding run
  run-EndsOn [] s = tt
  run-EndsOn ((w, reply) ∷ ticks) s =
      next-EndsOn (tick config w reply s) (run config ticks) (tick-EndsOn w reply s)
        λ t. run-EndsOn ticks t
