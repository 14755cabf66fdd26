-- ===== src/Api/Updates.antt =====
-- `PPUC::StopUpdates` of src/PPUC.cpp, and the rounds of the worker thread after it.
use libppuc.Common.{◌≡◌, refl, true, false, ◌++◌, take, drop, ◌==◌, ==_refl, arith}
use libppuc.Protocol.{Protocol, EventLaws}
use libppuc.State.{Comm}
use libppuc.Outputs.{queue_event}
use libppuc.Session.Sequence.{Accepts}
use libppuc.Runtime.{run_round}
use libppuc.Runtime.Rounds.{trigger_frames, run_round_stopped}
use libppuc.Api.{stop_updates}

module _ (p : Protocol) (laws : EventLaws p) where
  stop_updates_lem : (c : Comm) → stop_updates p c ≡ record c { runtime_enabled = false }
  unfolding stop_updates queue_event
  stop_updates_lem c =
      let a : (p.event_run == p.event_source_solenoid) ≡ false =
        ground (arith, laws.run_is_no_solenoid) in
      let b : (p.event_run == p.event_source_gi) ≡ false = ground (arith, laws.run_is_no_gi) in
      let d : (p.event_run == p.event_source_light) ≡ false =
        ground (arith, laws.run_is_no_light) in
      rw (a, b, d, ==_refl p.event_run, queue_event) refl

  -- After StopUpdates a round on a port that takes every byte writes only the trigger frames of the
  -- first 32 queued events, in their order, and leaves the coils, lamps and GI levels as they are.
  pub run_round-stop_updates :
      (c : Comm)
      → c.port_open ≡ true
      → Accepts c.world
      → let d = run_round p (stop_updates p c) in
        (d.outputs ≡ record (c.outputs) { events = drop 32 c.outputs.events })
        × (d.world.sent
            ≡ c.world.sent ++ trigger_frames p c.sequence c.epoch (take 32 c.outputs.events))
  run_round-stop_updates c o a =
      rw (stop_updates_lem c) (run_round_stopped p (record c { runtime_enabled = false }) o a refl)
