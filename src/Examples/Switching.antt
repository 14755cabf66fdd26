-- ===== src/Examples/Switching.antt =====
-- Switch replies, the chain and virtual boards at work.
use libppuc.Common.{get_or, ◌≡◌, ◌<◌, ◌⊎◌, refl, true, false, some, [], ◌∷◌, arith}
use libppuc.Common.Maps.{lookup}
use libppuc.Protocol.Sample.{get_bit, sample, sample-BitmapLaws}
use libppuc.State.{Comm}
use libppuc.Anomaly.{report}
use libppuc.Port.{input_waiting, flush_input}
use libppuc.Boards.Ownership.{FitsBytes, rebuild_ownership_masks_lem}
use libppuc.Boards.{
  rebuild_ownership_masks, fresh_board, finalize_presence, next_after, active_from,
  set_virtual_switch_state, place_of,
}
use libppuc.Boards.Order.{next_after-append, active-eq-prefix}
use libppuc.Boards.Presence.{virtual_owner-finalize_presence, virtual_boards-finalize_presence}
use libppuc.Boards.Virtual.{set_virtual_switch_state_lem}
use libppuc.Switches.Bitmap.{apply_switch_bitmap_diff}
use libppuc.Switches.Diff.{apply_switch_bitmap_diff_lem, changes}
use libppuc.Switches.Receive.{accept_reply, receive_switch_state_frame, reply_loop, reply_timed_out}
use libppuc.Switches.Reply.{accept_reply_lem}
use libppuc.Switches.Chain.{chain_from, receive_switch_state_chain}
use libppuc.Switches.Recovery.{
  Spares, answered, begin, miss, step, resync-Missed, receive_switch_state_chain_cases,
}
use libppuc.Common.Ints.{pos}
use libppuc.Api.{set_solenoid_state}
use libppuc.Outputs.{queue_event, queue_output_snapshot}
use libppuc.Examples.Table.{table, boards}

-- Board 2 reports switches 10 open and 11 closed, and a bit that it does not own.
apply_switch_bitmap_diff_lem_example :
    let d = apply_switch_bitmap_diff sample 2 (6 ∷ 0 ∷ []) 2 table in
    (d.switches.queue ≡ changes sample (some (3 ∷ 0 ∷ [])) (6 ∷ 0 ∷ []) table 16 0)
    × (sample.get_bitmap_bit d.switches.switch_bitmap 1 ≡ true)
unfolding get_bit
apply_switch_bitmap_diff_lem_example =
    apply_switch_bitmap_diff_lem sample sample-BitmapLaws 2 (6 ∷ 0 ∷ []) 2 1 table (omega arith)
      (omega arith) (omega arith)

-- A frame without bits whose checksum is wrong leaves the switches alone.
accept_reply_lem_example :
    let (taken, d) =
      accept_reply sample 2 11 (165 ∷ 11 ∷ 15 ∷ 6 ∷ 1 ∷ 9 ∷ 6 ∷ 0 ∷ 1 ∷ 1 ∷ []) table in
    (taken ≡ false) × (d.need_resync ≡ true) × ((taken ≡ true) ⊎ (d.switches ≡ table.switches))
accept_reply_lem_example =
    accept_reply_lem sample 2 11 (165 ∷ 11 ∷ 15 ∷ 6 ∷ 1 ∷ 9 ∷ 6 ∷ 0 ∷ 1 ∷ 1 ∷ []) table

-- Board 2 does not answer.
no_answer : answered sample 2 table ≡ false
unfolding chain_from receive_switch_state_frame reply_loop
no_answer = refl

receive_switch_state_chain_cases_example :
    let d = receive_switch_state_chain sample 2 table in
    (d.counters.chains ≡ 1)
    × (((answered sample 2 table ≡ true)
          × (d.counters.clean_chains ≡ 1)
          × (d.counters.chain_misses ≡ 0)
          × (d.reply_misses ≡ 0))
        ⊎ ((answered sample 2 table ≡ false)
            × (d.counters.clean_chains ≡ 0)
            × (d.counters.chain_misses ≡ 1)
            × (d.reply_misses ≡ 1)
            × ((d.reply_misses < 3) ⊎ (d.need_resync ≡ true))))
receive_switch_state_chain_cases_example = receive_switch_state_chain_cases sample 2 table

abbrev once : Comm
once = receive_switch_state_chain sample 2 table

-- Between the chains a coil is switched on: an event is queued, and the coil is held.
abbrev switched : Comm
switched = set_solenoid_state sample (pos 21) (pos 1) once

switched-Spares : Spares sample once switched
unfolding receive_switch_state_chain chain_from receive_switch_state_frame reply_loop report
    reply_timed_out input_waiting flush_input set_solenoid_state queue_event queue_output_snapshot
switched-Spares = record { misses = refl; wish = λ h. h }

abbrev twice : Comm
twice = receive_switch_state_chain sample 2 switched

unanswered_once : answered sample 2 switched ≡ false
unfolding receive_switch_state_chain chain_from receive_switch_state_frame reply_loop report
    reply_timed_out input_waiting flush_input set_solenoid_state queue_event queue_output_snapshot
unanswered_once = refl

unanswered_twice : answered sample 2 twice ≡ false
unfolding receive_switch_state_chain chain_from receive_switch_state_frame reply_loop report
    reply_timed_out input_waiting flush_input set_solenoid_state queue_event queue_output_snapshot
unanswered_twice = refl

resync-Missed_example : (receive_switch_state_chain sample 2 twice).need_resync ≡ true
resync-Missed_example =
    resync-Missed sample {c = table} refl
      (miss 2 (miss 2 (step (miss 2 begin no_answer) switched-Spares) unanswered_once)
        unanswered_twice)
      (omega arith)

virtual_owner-finalize_presence_example :
    lookup 12 (finalize_presence boards).virtual_owner ≡ some 5
virtual_owner-finalize_presence_example = virtual_owner-finalize_presence 12 boards refl

virtual_boards-finalize_presence_example :
    lookup 5 (finalize_presence boards).virtual_boards ≡ some (fresh_board 5 (12 ∷ []))
virtual_boards-finalize_presence_example = virtual_boards-finalize_presence 5 boards refl

active-eq-prefix_example : active_from [] (2 ∷ 5 ∷ 9 ∷ 3 ∷ []) ≡ 2 ∷ 5 ∷ []
active-eq-prefix_example = active-eq-prefix (2 ∷ 5 ∷ 9 ∷ 3 ∷ [])

next_after-append_example : next_after 15 5 (2 ∷ 5 ∷ 7 ∷ []) ≡ 7
next_after-append_example = next_after-append 15 5 (2 ∷ []) (7 ∷ []) refl

abbrev virtual_table : Comm
virtual_table = record table {
  boards = record boards {
    finalized = true;
    virtual_boards = (5, fresh_board 5 (12 ∷ [])) ∷ [];
    virtual_owner = (12, 5) ∷ [];
  };
}

set_virtual_switch_state_lem_example :
    let (r, d) = set_virtual_switch_state sample 12 1 virtual_table in
    (r ≡ true)
    × (d.switches.queue ≡ record { number = 12; state = 1 } ∷ [])
    × (lookup 5 d.boards.virtual_boards
        ≡ some
            (record { board = 5; switch_numbers = 12 ∷ []; switch_states = 1 ∷ []; dirty = true }))
    × (set_virtual_switch_state sample 12 1 d ≡ (true, d))
unfolding place_of
set_virtual_switch_state_lem_example =
    set_virtual_switch_state_lem sample 12 1 5 0 (fresh_board 5 (12 ∷ [])) virtual_table refl refl
      refl refl refl

fits : FitsBytes 2 table.mappings.switch_number_to_index
fits n i h = ground arith

-- Board 5 owns the bit of switch 12.
rebuild_ownership_masks_lem_example :
    sample.get_bitmap_bit
      (get_or (rebuild_ownership_masks sample table).boards.ownership_masks 5 [])
      2
    ≡ true
rebuild_ownership_masks_lem_example =
    rebuild_ownership_masks_lem sample sample-BitmapLaws table 5 2 fits (omega arith)
