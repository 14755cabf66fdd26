-- ===== src/Startup/Calls.antt =====
-- What the calls of the startup in src/PPUC.cpp leave as it is: the status of the configuration and
-- the boards that are present, which only SendConfigEvent changes.

use libppuc.Common.{
  ℕ, ◌+◌, ◌≡◌, refl, ◌∙◌, ap, Bool, false, List, [], ◌∷◌, ◌&&◌, Bool-cases, inl, inr, leb, ltb,
  ◌==◌, ◌!=◌, Option-cases, if_elim, arith,
}
use libppuc.Common.Ints.{pos}
use libppuc.Protocol.{Protocol, RuntimeConfig}
use libppuc.State.{Comm, Boards, Event, Outputs}
use libppuc.Config.Wait.{Steady, write_bytes-Steady}
use libppuc.Anomaly.{report}
use libppuc.Port.{write_bytes}
use libppuc.Common.Maps.{lookup}
use libppuc.Outputs.{
  with_outputs, set_coil, queue_solenoid, queue_light, queue_gi, queue_effect, queue_event,
  queue_output_snapshot,
}
use libppuc.Boards.{
  register_switch_board, finalize_configured_board_presence, finalize_presence, virtualize,
  virtualize_one, set_active_switch_boards, set_mappings, set_configured_boards,
  set_switch_numbers_by_board, set_skipped_boards, rebuild_ownership_masks,
}
use libppuc.Session.{
  set_runtime_config, send_setup_frame, send_mapping_frame, send_mappings_from, send_mapping_frames,
  next_sequence,
}
use libppuc.Runtime.{start}
use libppuc.Api.{set_button_switch_numbers, set_gi_state}
use libppuc.Startup.Numbers.{Numbers}
use libppuc.Startup.Devices.{BoardLists}
use libppuc.Startup.Attempt.{announced}

pub record Unchanged (c d : Comm) : Type 0 where
  pub config : d.config ≡ c.config
  pub present : d.boards.present ≡ c.boards.present

pub Unchanged-refl : (c : Comm) → Unchanged c c
Unchanged-refl c = record { config = refl; present = refl }

Unchanged-trans : {c d e : Comm} → Unchanged c d → Unchanged d e → Unchanged c e
Unchanged-trans u v = record { config = v.config ∙ u.config; present = v.present ∙ u.present }

Steady-Unchanged : {n : ℕ} {c d : Comm} → Steady n c d → Unchanged c d
Steady-Unchanged s = record { config = s.config; present = ap (λ b. b.present) s.boards }

pub register_switch_board-Unchanged : (b : ℕ) (c : Comm) → Unchanged c (register_switch_board b c)
unfolding register_switch_board
register_switch_board-Unchanged b c = record { config = ground arith; present = ground arith }

present-virtualize : (xs : List ℕ) (b : Boards) → (virtualize xs b).present ≡ b.present
unfolding virtualize virtualize_one
present-virtualize [] b = refl
present-virtualize (x ∷ xs) b = present-virtualize xs (virtualize_one x b) ∙ ground arith

pub finalize-Unchanged : (c : Comm) → Unchanged c (finalize_configured_board_presence c)
unfolding finalize_configured_board_presence finalize_presence
finalize-Unchanged c = record {
  config = refl;
  present = ground (
    arith,
    present-virtualize c.boards.configured
        (record (c.boards) { virtual_boards = []; virtual_owner = [] }),
  );
}

pub set_active_switch_boards-Unchanged :
    (bs : List ℕ) (c : Comm) → Unchanged c (set_active_switch_boards bs c)
unfolding set_active_switch_boards
set_active_switch_boards-Unchanged bs c = record { config = refl; present = refl }

pub start-Unchanged : (c : Comm) → Unchanged c (start c)
unfolding start
start-Unchanged c = record { config = refl; present = refl }

module _ (p : Protocol) where
  set_runtime_config-Unchanged :
      (r : RuntimeConfig) (c : Comm) → Unchanged c (set_runtime_config p r c)
  unfolding set_runtime_config
  set_runtime_config-Unchanged r c = record { config = ground arith; present = ground arith }

  pub announced-Unchanged :
      (lists : BoardLists) (ns : Numbers) (skipped : List ℕ) (c : Comm)
      → Unchanged c (announced p lists ns skipped c)
  unfolding announced set_skipped_boards set_button_switch_numbers set_switch_numbers_by_board
      set_configured_boards set_mappings rebuild_ownership_masks
  announced-Unchanged lists ns skipped c =
      let u = set_runtime_config-Unchanged _ _ in record { config = u.config; present = u.present }

  pub send_setup_frame-Unchanged : (c : Comm) → Unchanged c (send_setup_frame p c).1
  unfolding send_setup_frame
  send_setup_frame-Unchanged c =
      let b = p.build_setup_frame p.no_board c.sequence c.epoch c.runtime_config in
      let u = Steady-Unchanged (write_bytes-Steady "SetupFrame" b (next_sequence c)) in
      elim (Bool-cases (c.port_open && p.is_valid_runtime_config c.runtime_config)) [
        | inl e ↦ rw (e, send_setup_frame) (record { config = u.config; present = u.present })
        | inr e ↦ rw (e, send_setup_frame) (Unchanged-refl c)
      ]

  send_mapping_frame-Unchanged :
      (domain i n : ℕ) (c : Comm) → Unchanged c (send_mapping_frame p domain i n c).1
  unfolding send_mapping_frame
  send_mapping_frame-Unchanged domain i n c =
      let b = p.build_mapping_frame p.no_board c.sequence c.epoch domain i n in
      let u = Steady-Unchanged (write_bytes-Steady "MappingFrame" b (next_sequence c)) in
      if_elim (λ (r : Bool × Comm). Unchanged c r.1) c.port_open
        (write_bytes "MappingFrame" b (next_sequence c)) (false, c)
        (λ _. record { config = u.config; present = u.present }) (λ _. Unchanged-refl c)

  send_mappings_from-Unchanged :
      (domain i : ℕ) (ns : List ℕ) (c : Comm) → Unchanged c (send_mappings_from p domain i ns c).1
  unfolding send_mappings_from
  send_mappings_from-Unchanged domain i [] c = Unchanged-refl c
  send_mappings_from-Unchanged domain i (n ∷ ns) c =
      let one = send_mapping_frame-Unchanged domain i n c in
      let (sent, c') = send_mapping_frame p domain i n c in
      let rest = Unchanged-trans one (send_mappings_from-Unchanged domain (i + 1) ns c') in
      elim (Bool-cases sent) [
        | inl e ↦ rw (e, send_mappings_from) rest
        | inr e ↦ rw (e, send_mappings_from) one
      ]

  pub send_mapping_frames-Unchanged : (c : Comm) → Unchanged c (send_mapping_frames p c).1
  unfolding send_mapping_frames
  send_mapping_frames-Unchanged c =
      let coils = send_mappings_from-Unchanged p.domain_coil 0 c.mappings.coil_index_to_number c in
      let (a, c1) = send_mappings_from p p.domain_coil 0 c.mappings.coil_index_to_number c in
      let lamps =
        Unchanged-trans coils
          (send_mappings_from-Unchanged p.domain_lamp 0 c1.mappings.lamp_index_to_number c1) in
      let (b, c2) = send_mappings_from p p.domain_lamp 0 c1.mappings.lamp_index_to_number c1 in
      let switches =
        Unchanged-trans lamps
          (send_mappings_from-Unchanged p.domain_switch 0 c2.mappings.switch_index_to_number c2) in
      elim (Bool-cases a) [
        | inr e ↦ rw (e, send_mapping_frames) coils
        | inl e ↦ elim (Bool-cases b) [
          | inr f ↦ rw (e, f, send_mapping_frames) lamps
          | inl f ↦ rw (e, f, send_mapping_frames) switches
        ]
      ]

  snapshot-Unchanged : (c : Comm) → Unchanged c (queue_output_snapshot c)
  unfolding queue_output_snapshot report
  snapshot-Unchanged c = record { config = ground arith; present = ground arith }

  outputs-Unchanged : (o : Outputs) (c : Comm) → Unchanged c (with_outputs o c)
  outputs-Unchanged o c = record { config = refl; present = refl }

  queue_solenoid-Unchanged : (e : Event) (c : Comm) → Unchanged c (queue_solenoid p e c)
  unfolding queue_solenoid
  queue_solenoid-Unchanged e c =
      elim (Option-cases (lookup e.event_id c.mappings.coil_number_to_index)) [
        | inl h ↦ rw (h, queue_solenoid) (Unchanged-refl c)
        | inr (i, h) ↦ elim (Bool-cases (ltb i p.max_coil_bits)) [
          | inl k ↦
              rw (h, queue_solenoid, k)
                (Unchanged-trans (outputs-Unchanged (set_coil p i (e.value != 0) c.outputs) c)
                  (snapshot-Unchanged _))
          | inr k ↦ rw (h, queue_solenoid, k) (Unchanged-refl c)
        ]
      ]

  queue_light-Unchanged : (e : Event) (c : Comm) → Unchanged c (queue_light p e c)
  unfolding queue_light
  queue_light-Unchanged e c = record { config = ground arith; present = ground arith }

  queue_gi-Unchanged : (e : Event) (c : Comm) → Unchanged c (queue_gi p e c)
  unfolding queue_gi
  queue_gi-Unchanged e c = record { config = ground arith; present = ground arith }

  queue_effect-Unchanged : (e : Event) (c : Comm) → Unchanged c (queue_effect p e c)
  unfolding queue_effect
  queue_effect-Unchanged e c = record { config = ground arith; present = ground arith }

  queue_event-Unchanged : (e : Event) (c : Comm) → Unchanged c (queue_event p e c)
  unfolding queue_event
  queue_event-Unchanged e c =
      if_elim (Unchanged c) (e.source_id == p.event_source_solenoid) _ _
        (λ _. queue_solenoid-Unchanged e c)
        (λ _.
          if_elim (Unchanged c) (e.source_id == p.event_source_gi) _ _ (λ _. queue_gi-Unchanged e c)
            (λ _.
              if_elim (Unchanged c) (e.source_id == p.event_source_light) _ _
                (λ _. queue_light-Unchanged e c)
                (λ _.
                  if_elim (Unchanged c) (e.source_id == p.event_run)
                    (record c { runtime_enabled = e.value != 0 }) _
                    (λ _. record { config = refl; present = refl })
                    (λ _.
                      if_elim (Unchanged c) (e.source_id == p.event_read_switches) _ _
                        (λ _. Unchanged-refl c)
                        (λ _.
                          if_elim (Unchanged c) (e.source_id == p.event_source_effect) _ _
                            (λ _. queue_effect-Unchanged e c) (λ _. Unchanged-refl c))))))

  pub set_gi_state-Unchanged : (c : Comm) → Unchanged c (set_gi_state p (pos 1) (pos 8) c)
  unfolding set_gi_state
  set_gi_state-Unchanged c = elim (Bool-cases (leb 1 1 && leb 1 p.gi_strings)) [
    | inl e ↦ rw (e, set_gi_state) (queue_event-Unchanged _ c)
    | inr e ↦ rw (e, set_gi_state) (Unchanged-refl c)
  ]
