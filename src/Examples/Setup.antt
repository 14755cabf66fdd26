-- ===== src/Examples/Setup.antt =====
-- Sessions, mappings and the configuration of boards at work.
use Prim.{tt}
use libppuc.Common.{
  ℕ, zero, suc, ◌≤◌, ◌≡◌, ◌⊎◌, refl, true, false, [], ◌∷◌, length, get_or, mem, arith,
}
use libppuc.Protocol.Sample.{sample, sample-ConfigFrameLaws}
use libppuc.State.{Comm}
use libppuc.Port.{write_bytes, flush_input, input_waiting, read_exact, blocking_read}
use libppuc.Boards.{set_mappings}
use libppuc.Boards.Mapping.{Distinct, IsInverse, set_mappings-IsInverse}
use libppuc.Skipped.{set_skipped_boards_csv}
use libppuc.Skipped.Csv.{csv, set_skipped_boards_csv-csv}
use libppuc.Session.Shutdown.{all_off, off_frame, disconnect_lem}
use libppuc.Session.{disconnect, flush, next_sequence, send_mapping_frames, resync_session}
use libppuc.Session.Sequence.{Wrote, all_mapping_frames, send_mapping_frames_lem}
use libppuc.Session.Resync.{resync_frames, resync_session_lem}
use libppuc.Config.{
  ConfigEvent, send_config_event, should_abort, attempt, receive_config_ack, ack_loop, ack_round,
  read_ack_header, read_ack, check_ack,
}
use libppuc.Config.Acked.{Acknowledged}
use libppuc.Config.Retry.{send_config_event_cases}
use libppuc.Config.Abort.{IsCounted, send_config_event-IsCounted}
use libppuc.Config.Silent.{begin, miss, should_abort-Silent}
use libppuc.Examples.Table.{table, silent_world, unconfigured}

send_mapping_frames_lem_example :
    let (ok, d) = send_mapping_frames sample table in
    (ok ≡ true) × Wrote (all_mapping_frames sample table) table d
send_mapping_frames_lem_example = send_mapping_frames_lem sample table refl (λ n k. refl)

resync_session_lem_example :
    let (ok, d) = resync_session sample table in
    (ok ≡ true)
    × (d.epoch ≡ 2)
    × (d.need_resync ≡ false)
    × (d.world.sent ≡ resync_frames sample table)
resync_session_lem_example = resync_session_lem sample table refl refl (λ n k. refl)

two : Distinct (20 ∷ 21 ∷ [])
two zero zero h k e = refl
two zero (suc zero) h k e = ground arith
two (suc zero) zero h k e = ground arith
two (suc zero) (suc zero) h k e = refl
two (suc (suc i)) j h k e = ground arith
two zero (suc (suc j)) h k e = ground arith
two (suc zero) (suc (suc j)) h k e = ground arith

set_mappings-IsInverse_example :
    let m = (set_mappings sample (20 ∷ 21 ∷ []) (20 ∷ 21 ∷ []) (20 ∷ 21 ∷ []) table).mappings in
    IsInverse (20 ∷ 21 ∷ []) m.coil_number_to_index
    × IsInverse (20 ∷ 21 ∷ []) m.lamp_number_to_index
    × IsInverse (20 ∷ 21 ∷ []) m.switch_number_to_index
set_mappings-IsInverse_example =
    set_mappings-IsInverse sample (20 ∷ 21 ∷ []) (20 ∷ 21 ∷ []) (20 ∷ 21 ∷ []) table two two two

-- An event for board 5.
abbrev unheard : ConfigEvent
unheard = record { board_id = 5; topic = 80; index = 0; key = 1; value = 9 }

-- The same event on a port on which board 5 accepts it after a byte of noise.
abbrev heard : Comm
heard = record table {
  world = record silent_world {
    chunk = λ n. 3;
    waiting = λ n. 1;
    rounds = λ n. 4;
    input = 7 ∷ 165 ∷ 4 ∷ 15 ∷ 7 ∷ 1 ∷ 5 ∷ 80 ∷ 0 ∷ 1 ∷ 0 ∷ 0 ∷ 0 ∷ [];
  };
}

accepted : (send_config_event sample unheard heard).0 ≡ true
unfolding send_config_event should_abort attempt write_bytes receive_config_ack ack_loop ack_round
    input_waiting read_exact blocking_read read_ack_header read_ack check_ack
accepted = refl

send_config_event_cases_example :
    let (ok, d) = send_config_event sample unheard heard in
    (length d.world.sent ≤ 3)
    × (((ok ≡ true)
          × (((mem 5 heard.boards.skipped ≡ true) × (d ≡ next_sequence heard))
              ⊎ (Acknowledged sample 5 80 0 1 heard.world.input
                  × (mem 5 d.boards.present ≡ true)
                  × (d.config.miss_streak ≡ 0))))
        ⊎ ((ok ≡ false)
            × (((d.config ≡ heard.config) × (d.boards ≡ heard.boards))
                ⊎ ((d.config.failed ≡ true)
                    × (mem 5 d.config.failed_boards ≡ true)
                    × (d.boards ≡ heard.boards)))))
send_config_event_cases_example = send_config_event_cases sample unheard heard (omega arith)

abbrev nine : Comm
nine = record table {
  config = record unconfigured { misses_by_board = 0 ∷ 0 ∷ 0 ∷ 0 ∷ 0 ∷ 9 ∷ 0 ∷ 0 ∷ [] };
}

nine_small : (i : ℕ) → get_or nine.config.misses_by_board i 0 ≤ 10
nine_small zero = omega arith
nine_small (suc zero) = omega arith
nine_small (suc (suc zero)) = omega arith
nine_small (suc (suc (suc zero))) = omega arith
nine_small (suc (suc (suc (suc zero)))) = omega arith
nine_small (suc (suc (suc (suc (suc zero))))) = omega arith
nine_small (suc (suc (suc (suc (suc (suc zero)))))) = omega arith
nine_small (suc (suc (suc (suc (suc (suc (suc zero))))))) = omega arith
nine_small (suc (suc (suc (suc (suc (suc (suc (suc i)))))))) = omega arith

nine-IsCounted : IsCounted nine.config
nine-IsCounted = record { streak = omega arith; each = nine_small }

send_config_event-IsCounted_example : IsCounted (send_config_event sample unheard nine).1.config
send_config_event-IsCounted_example = send_config_event-IsCounted sample unheard nine nine-IsCounted

-- The tenth event in a row that board 5 leaves unanswered.
should_abort-Silent_example : should_abort sample (send_config_event sample unheard nine).1 ≡ true
unfolding should_abort attempt write_bytes receive_config_ack ack_loop flush flush_input
should_abort-Silent_example =
    should_abort-Silent sample sample-ConfigFrameLaws 5 1 nine
      (send_config_event sample unheard nine).1 (omega arith) (λ e. ground arith) (omega arith) refl
      (omega arith)
      (miss unheard begin refl
        (record { connected = refl; going = refl; wanted = refl; none_acked = refl }))
      (omega arith)

-- The text is "5,12,200".
set_skipped_boards_csv-csv_example :
    mem 12 (set_skipped_boards_csv (csv (5 ∷ 12 ∷ 200 ∷ []))) ≡ true
set_skipped_boards_csv-csv_example =
    set_skipped_boards_csv-csv 12 (5 ∷ 12 ∷ 200 ∷ [])
      (omega arith, (omega arith, (omega arith, tt)))

disconnect_lem_example :
    let d = disconnect sample table in
    (d.port_open ≡ false)
    × (d.outputs ≡ all_off sample table.outputs)
    × (d.world.sent ≡ off_frame sample 7 table ∷ off_frame sample 8 table ∷ [])
disconnect_lem_example = disconnect_lem sample table refl refl refl (λ n k. refl)
