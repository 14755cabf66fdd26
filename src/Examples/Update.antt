-- ===== src/Examples/Update.antt =====
-- A firmware update, and two versions.
use libppuc.State.{Comm}
use libppuc.Common.{◌≡◌, refl, true, false, ◌++◌, replicate, ◌<◌, ◌↔◌, [], ◌∷◌, arith}
use libppuc.Protocol.Sample.{sample}
use libppuc.Firmware.{
  BoardVersion, firmware_ordinal, update_board_firmware, unanswered, query_board_version,
  await_admin_reply,
}
use libppuc.Port.{write_bytes, flush_input, blocking_read, read_exact}
use libppuc.Session.{flush}
use libppuc.Firmware.Transfer.{IsOutcome, update_board_firmware-IsOutcome}
use libppuc.Firmware.Version.{Older, firmware_ordinal-Older}
use libppuc.Examples.Table.{table, silent_world}

-- Board 2 tells its version, and accepts the begin, the only chunk and the commit of an update.
abbrev ready : Comm
ready = record table {
  runtime_enabled = false;
  world = record silent_world {
    chunk = λ n. 64;
    rounds = λ n. 1;
    input =
        165 ∷ 9 ∷ 2 ∷ 0 ∷ 0 ∷ 2 ∷ 2 ∷ replicate 16 0
        ++ (165 ∷ 9 ∷ 2 ∷ 0 ∷ 0 ∷ 4 ∷ 2 ∷ replicate 7 0
            ++ (165 ∷ 9 ∷ 2 ∷ 0 ∷ 0 ∷ 6 ∷ 2 ∷ replicate 7 0
                ++ (165 ∷ 9 ∷ 2 ∷ 0 ∷ 0 ∷ 8 ∷ 2 ∷ replicate 7 0)));
  };
}

updated : (update_board_firmware sample 2 0 (1 ∷ 2 ∷ 3 ∷ []) ready).0.succeeded ≡ true
unfolding update_board_firmware query_board_version write_bytes flush flush_input blocking_read
    read_exact await_admin_reply
updated = refl

update_board_firmware-IsOutcome_example :
    IsOutcome sample 2
      (1 ∷ 2 ∷ 3 ∷ [])
      ready
      (update_board_firmware sample 2 0 (1 ∷ 2 ∷ 3 ∷ []) ready)
update_board_firmware-IsOutcome_example =
    update_board_firmware-IsOutcome sample 2 0 (1 ∷ 2 ∷ 3 ∷ []) ready (omega arith) (omega arith)

abbrev old_version : BoardVersion
old_version = record (unanswered sample 2) {
  firmware_major = 1;
  firmware_minor = 2;
  firmware_patch = 255;
}

abbrev new_version : BoardVersion
new_version = record (unanswered sample 2) {
  firmware_major = 1;
  firmware_minor = 3;
  firmware_patch = 0;
}

firmware_ordinal-Older_example :
    (firmware_ordinal old_version < firmware_ordinal new_version) ↔ Older old_version new_version
firmware_ordinal-Older_example =
    firmware_ordinal-Older old_version new_version
      (record { major = omega arith; minor = omega arith; patch = omega arith })
      (record { major = omega arith; minor = omega arith; patch = omega arith })
