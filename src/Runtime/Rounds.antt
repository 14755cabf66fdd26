-- ===== src/Runtime/Rounds.antt =====
-- The inner loop of `RS485Comm::Run`, and what a round writes while updates are stopped.
use libppuc.Common.{
  ℕ, zero, suc, ◌≡◌, refl, sym, ap, subst, ◌∙◌, Bool, true, false, not, List, [], ◌∷◌, ◌++◌, take,
  drop, inc_u8,
}
use mathlib.Core.List.{append_assoc, append-nil}
use libppuc.Protocol.{Protocol}
use libppuc.State.{Event, Outputs, Comm}
use libppuc.Port.{write_bytes}
use libppuc.Outputs.{with_outputs}
use libppuc.Session.{next_sequence, send_event}
use libppuc.Session.Sequence.{Accepts, Wrote, write_accepted, if_true}
use libppuc.Runtime.{max_events, drain_events, run_enabled, run_round}

module _ (p : Protocol) where
  -- The frames of events, numbered on.
  pub trigger_frames : ℕ → ℕ → List Event → List (List ℕ)
  trigger_frames s epoch [] = []
  trigger_frames s epoch (e ∷ es) =
      p.build_trigger_frame p.no_board s epoch e.source_id e.event_id e.value
      ∷ trigger_frames (inc_u8 s) epoch es

  send_event_lem :
      (e : Event) (c : Comm)
      → c.port_open ≡ true
      → Accepts c.world
      → Wrote (trigger_frames c.sequence c.epoch (e ∷ [])) c (send_event p e c).1
  unfolding send_event trigger_frames
  send_event_lem e c o a =
      let b = p.build_trigger_frame p.no_board c.sequence c.epoch e.source_id e.event_id e.value in
      subst (λ (r : Bool × Comm). Wrote (b ∷ []) c r.1)
        (sym (if_true c.port_open (write_bytes "trigger frame" b (next_sequence c)) (false, c) o))
        (write_accepted "trigger frame" b c o a).1

  drained_lem :
      (n : ℕ) (es : List Event) (c : Comm)
      → c.outputs.events ≡ es
      → c.port_open ≡ true
      → Accepts c.world
      → let d = drain_events p n c in
        (d.outputs ≡ record (c.outputs) { events = drop n es })
        × (d.world.sent ≡ c.world.sent ++ trigger_frames c.sequence c.epoch (take n es))
        × (d.runtime_enabled ≡ c.runtime_enabled)
  unfolding drain_events trigger_frames
  drained_lem zero es c h o a =
      (ap (λ es. record (c.outputs) { events = es }) h, sym (append-nil c.world.sent), refl)
  drained_lem (suc n) [] c h o a =
      rw (h, drain_events)
        (ap (λ es. record (c.outputs) { events = es }) h, sym (append-nil c.world.sent), refl)
  drained_lem (suc n) (e ∷ rest) c h o a =
      let c1 = with_outputs (record (c.outputs) { events = rest }) c in
      let w = send_event_lem e c1 o a in
      let d = (send_event p e c1).1 in
      let (q, s, r) =
        drained_lem n rest d (ap (λ u. u.events) w.outputs) (w.connected ∙ o)
          (λ x y. rw w.accepts (a x y)) in
      let same_numbers : trigger_frames d.sequence d.epoch (take n rest)
          ≡ trigger_frames (inc_u8 c.sequence) c.epoch (take n rest) =
        ap (λ k. trigger_frames k d.epoch (take n rest)) w.sequence
        ∙ ap (λ k. trigger_frames (inc_u8 c.sequence) k (take n rest)) w.epoch in
      rw (h, drain_events)
        (
          q ∙ ap (λ (u : Outputs). record u { events = drop n rest }) w.outputs,
          s
              ∙ (ap (λ x. x ++ trigger_frames d.sequence d.epoch (take n rest)) w.sent
                  ∙ (append_assoc c.world.sent (trigger_frames c.sequence c.epoch (e ∷ []))
                        (trigger_frames d.sequence d.epoch (take n rest))
                      ∙ ap (λ x. c.world.sent ++ (trigger_frames c.sequence c.epoch (e ∷ []) ++ x))
                          same_numbers)),
          r ∙ w.enabled,
        )

  -- While updates are stopped a round on a port that takes every byte writes nothing but events: it
  -- takes the first 32, or all if there are fewer, writes their trigger frames in their order and
  -- numbered on, and leaves the later events and all other outputs as they are.
  pub run_round_stopped :
      (c : Comm)
      → c.port_open ≡ true
      → Accepts c.world
      → c.runtime_enabled ≡ false
      → let d = run_round p c in
        (d.outputs ≡ record (c.outputs) { events = drop 32 c.outputs.events })
        × (d.world.sent
            ≡ c.world.sent ++ trigger_frames c.sequence c.epoch (take 32 c.outputs.events))
  unfolding run_round
  run_round_stopped c o a h =
      let c1 = drain_events p max_events c in
      let (q, s, r) = drained_lem max_events c.outputs.events c refl o a in
      subst
        (λ (d : Comm).
          (d.outputs ≡ record (c.outputs) { events = drop 32 c.outputs.events })
          × (d.world.sent
              ≡ c.world.sent ++ trigger_frames c.sequence c.epoch (take 32 c.outputs.events)))
        (sym (if_true (not c1.runtime_enabled) c1 (run_enabled p c1) (ap not (r ∙ h)))) (q, s)
