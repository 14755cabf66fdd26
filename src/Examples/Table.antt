-- ===== src/Examples/Table.antt =====
-- A table of two boards, of which board 5 does not answer, and the worlds it is run in.
use libppuc.Common.{◌*◌, true, false, none, some, [], ◌∷◌, replicate}
use libppuc.State.{World, Comm, Anomalies, Outputs, Boards, ConfigStatus}
use libppuc.Anomaly.{empty_entry}

-- A port that takes every byte, delivers two bytes at most at a time, and where nobody answers.
abbrev pub silent_world : World
silent_world = record {
  steady = λ n. n * 1000;
  wall = λ n. n;
  chunk = λ n. 2;
  accepts = λ n k. some k;
  waiting = λ n. 0;
  flushed = λ n. 0;
  rounds = λ n. 0;
  format = λ m. 109 ∷ [];
  calls = 0;
  input = [];
  sent = [];
}

-- The same port with five bytes on their way.
abbrev pub reply_world : World
reply_world = record silent_world { input = 165 ∷ 11 ∷ 15 ∷ 6 ∷ 1 ∷ [] }

abbrev pub no_anomalies : Anomalies
no_anomalies = record {
  of_kind = λ k. record { total = 0; suppressed = 0; last_record = none };
  log = replicate 32 empty_entry;
  log_head = 0;
  log_count = 0;
}

abbrev pub all_off : Outputs
all_off = record {
  coil_bitmap = 0 ∷ 0 ∷ [];
  coil_hold_frames = replicate 16 0;
  coil_hold_frame_count = 3;
  lamp_bitmap = 0 ∷ 0 ∷ [];
  gi_levels = replicate 5 0;
  snapshots = [];
  events = [];
}

-- Switches 10 and 11 are on board 2, switch 12 is on board 5.
abbrev pub boards : Boards
boards = record {
  configured = 2 ∷ 5 ∷ [];
  present = 2 ∷ [];
  skipped = [];
  active = replicate 8 false;
  switch_boards = 2 ∷ 5 ∷ [];
  switch_numbers_by_board = (2, 10 ∷ 11 ∷ []) ∷ (5, 12 ∷ []) ∷ [];
  ownership_masks = [] ∷ [] ∷ (3 ∷ 0 ∷ []) ∷ [] ∷ [] ∷ (4 ∷ 0 ∷ []) ∷ [] ∷ [] ∷ [];
  virtual_boards = [];
  virtual_owner = [];
  finalized = false;
}

abbrev pub unconfigured : ConfigStatus
unconfigured = record {
  failed = false;
  early_abort_logged = false;
  miss_streak = 0;
  misses_by_board = replicate 8 0;
  early_abort_board = 15;
  failed_boards = [];
}

abbrev pub table : Comm
table = record {
  port_open = true;
  runtime_enabled = true;
  sequence = 7;
  epoch = 1;
  last_output_sequence = 6;
  need_resync = false;
  reply_misses = 0;
  reply_delay_us = 0;
  output_interval_ms = 4;
  runtime_config = record { coil_bits = 16; lamp_bits = 16; switch_bits = 16 };
  anomalies = no_anomalies;
  outputs = all_off;
  mappings = record {
    coil_index_to_number = 20 ∷ 21 ∷ [];
    lamp_index_to_number = 30 ∷ [];
    switch_index_to_number = 10 ∷ 11 ∷ 12 ∷ [];
    coil_number_to_index = (20, 0) ∷ (21, 1) ∷ [];
    lamp_number_to_index = (30, 0) ∷ [];
    switch_number_to_index = (10, 0) ∷ (11, 1) ∷ (12, 2) ∷ [];
  };
  switches = record {
    switch_bitmap = 1 ∷ 0 ∷ [];
    queue = [];
    button_numbers = [];
    refresh_idle_ms = 0;
    next_refresh_at = none;
    next_poll_at = 0;
  };
  boards = boards;
  config = unconfigured;
  counters = record {
    chains = 0;
    clean_chains = 0;
    chain_misses = 0;
    resyncs = 0;
    ack_retries = 0;
    ack_timeouts = 0;
  };
  world = silent_world;
}
