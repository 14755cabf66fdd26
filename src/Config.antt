-- ===== src/Config.antt =====
-- Board configuration over the bus: `SendConfigEvent` and `ReceiveConfigAck` of src/RS485Comm.cpp.
pub mod Wait
pub mod Acked
pub mod Found
pub mod Heard
pub mod Retry
pub mod Abort
pub mod Silent
use libppuc.Common.{
  ℕ, zero, suc, ◌+◌, ◌-◌, ◌*◌, Bool, true, false, not, ◌&&◌, ◌||◌, Option, none, some, List, [],
  ◌∷◌, ◌++◌, length, get_or, set, take, mem, if◌then◌else◌, ◌==◌, ◌!=◌, ltb, leb, inc_u8, inc_u32,
}
use libppuc.Protocol.{Protocol}
use libppuc.State.{
  frame_crc, config_ack, ack_missing, ack_crc, ack_unexpected, ack_rejected, Boards, ConfigStatus,
  Counters, World, Comm,
}
use libppuc.Anomaly.{report}
use libppuc.Port.{tick, input_waiting, write_bytes, read_exact}
use libppuc.Boards.{max_boards, with_boards}
use libppuc.Session.{next_sequence, flush}

-- RS485_COMM_CONFIG_ACK_RETRIES and RS485_COMM_INITIAL_CONFIG_ACK_MISS_THRESHOLD
abbrev pub ack_retries_max : ℕ
ack_retries_max = 3

abbrev pub initial_miss_threshold : ℕ
initial_miss_threshold = 10

-- class ConfigEvent of io-boards/Event.h
pub record ConfigEvent : Type 0 where
  pub board_id : ℕ
  pub topic : ℕ
  pub index : ℕ
  pub key : ℕ
  pub value : ℕ

abbrev pub with_config : ConfigStatus → Comm → Comm
with_config s c = record c { config = s }

-- `insert` into a std::set
unfoldable pub insert : ℕ → List ℕ → List ℕ
insert x xs = if mem x xs then xs else x ∷ xs

abbrev pub is_empty : List ℕ → Bool
is_empty [] = true
is_empty (x ∷ xs) = false

module _ (p : Protocol) where
  -- ShouldAbortConfigurationEarly
  unfoldable pub should_abort : Comm → Bool
  should_abort c =
      c.config.early_abort_board != p.no_board
      || (is_empty c.boards.present && leb initial_miss_threshold c.config.miss_streak)

  -- The payload of a frame that is not the ack, or none for a type that ends the wait.
  unfoldable pub other_payload : ℕ → Option ℕ
  other_payload t =
      if t == p.frame_setup
      then some p.setup_payload_bytes
      else if t == p.frame_mapping
      then some p.mapping_payload_bytes
      else if t == p.frame_config
      then some p.config_payload_bytes
      else if t == p.frame_restart
          || t == p.frame_reset
          || (t == p.frame_heartbeat || t == p.frame_error)
      then some 0
      else none

  -- A stale frame is drained, and the wait goes on, unless it cannot be one.
  unfoldable pub drain_frame : ℕ → Comm → Option Bool × Comm
  unfolding other_payload
  drain_frame t c = elim (other_payload t) [
    | none ↦ (some false, c)
    | some n ↦
        if ltb (p.header_bytes + p.config_payload_bytes + p.crc_bytes) (n + p.crc_bytes)
        then (some false, c)
        else (let (_, w) = read_exact (n + p.crc_bytes) c.world in (none, record c { world = w }))
  ]

  -- The checks on a whole ack frame.
  unfoldable pub check_ack : ℕ → ℕ → ℕ → ℕ → List ℕ → Comm → Option Bool × Comm
  check_ack board topic index key b c =
      let n = p.header_bytes + p.config_ack_payload_bytes + p.crc_bytes in
      let received = get_or b (n - 2) 0 * 256 + get_or b (n - 1) 0 in
      let crc = p.crc16_ccitt (take (p.header_bytes + p.config_ack_payload_bytes) b) in
      if received != crc
      then (none, report frame_crc (ack_crc received crc) c)
      else if get_or b 5 0 != board
          || get_or b 6 0 != topic
          || (get_or b 7 0 != index || get_or b 8 0 != key)
      then (
        none,
        report config_ack
            (ack_unexpected (get_or b 5 0) (get_or b 6 0) (get_or b 7 0) (get_or b 8 0)) c,
      )
      else if get_or b 9 0 != p.config_ack_accepted
      then (some false, report config_ack (ack_rejected board topic index key (get_or b 9 0)) c)
      else (some true, c)

  -- The body of a round after its header: drains another frame, or reads and checks the ack.
  unfoldable pub read_ack : ℕ → ℕ → ℕ → ℕ → List ℕ → Comm → Option Bool × Comm
  read_ack board topic index key header c =
      if p.extract_type (get_or header 1 0) != p.frame_config_ack
      then drain_frame (p.extract_type (get_or header 1 0)) c
      else (let (rest, w) = read_exact (p.config_ack_payload_bytes + p.crc_bytes) c.world in
          elim rest [
            | none ↦ (none, record c { world = w })
            | some body ↦ check_ack board topic index key (header ++ body) (record c { world = w })
          ])

  -- The rest of the header, after the sync byte.
  unfoldable pub read_ack_header : ℕ → ℕ → ℕ → ℕ → Comm → Option Bool × Comm
  read_ack_header board topic index key c =
      let (rest, w) = read_exact (p.header_bytes - 1) c.world in
      elim rest [
        | none ↦ (none, record c { world = w })
        | some h ↦ read_ack board topic index key (p.sync_byte ∷ h) (record c { world = w })
      ]

  -- One round of the wait: none to go on.
  unfoldable pub ack_round : ℕ → ℕ → ℕ → ℕ → Comm → Option Bool × Comm
  ack_round board topic index key c =
      let (n, w) = input_waiting c.world in
      let (first, w') = read_exact 1 w in
      if n == 0 then (none, record c { world = w }) else elim first [
        | none ↦ (none, record c { world = w' })
        | some b ↦
            if get_or b 0 0 != p.sync_byte
            then (none, record c { world = w' })
            else read_ack_header board topic index key (record c { world = w' })
      ]

  unfoldable pub ack_loop : ℕ → ℕ → ℕ → ℕ → ℕ → Comm → Bool × Comm
  ack_loop zero board topic index key c = (
    false,
    record c { counters = record (c.counters) { ack_timeouts = inc_u32 c.counters.ack_timeouts } },
  )
  ack_loop (suc rounds) board topic index key c =
      let (r, c') = ack_round board topic index key c in
      let again = ack_loop rounds board topic index key c' in
      elim r [ none ↦ again | some b ↦ (b, c') ]

  -- ReceiveConfigAck
  unfoldable pub receive_config_ack : ℕ → ℕ → ℕ → ℕ → Comm → Bool × Comm
  receive_config_ack board topic index key c =
      if c.port_open
      then ack_loop (c.world.rounds c.world.calls) board topic index key
          (record c { world = tick c.world })
      else (false, c)

-- What an acknowledgement from a board changes.
unfoldable pub note_ack : ℕ → Comm → Comm
note_ack board c = record c {
  config = record (c.config) {
    miss_streak = 0;
    misses_by_board =
        if ltb board max_boards
        then set c.config.misses_by_board board 0
        else c.config.misses_by_board;
  };
  boards = record (c.boards) {
    present = insert board c.boards.present;
    active = if ltb board max_boards then set c.boards.active board true else c.boards.active;
  };
}

-- The two counts of misses in a row, which stop at the threshold.
unfoldable pub count_streak : Comm → Comm
count_streak c =
    if is_empty c.boards.present && ltb c.config.miss_streak initial_miss_threshold
    then with_config (record (c.config) { miss_streak = c.config.miss_streak + 1 }) c
    else c

unfoldable pub count_board_miss : ℕ → Comm → Comm
count_board_miss board c =
    let n = get_or c.config.misses_by_board board 0 in
    if ltb board max_boards && ltb n initial_miss_threshold
    then with_config
        (record (c.config) {
          misses_by_board = set c.config.misses_by_board board (n + 1);
          early_abort_board =
              if not (mem board c.boards.present) && leb initial_miss_threshold (n + 1)
              then board
              else c.config.early_abort_board;
        })
        c
    else c

module _ (p : Protocol) where
  -- The end of SendConfigEvent when no attempt was acknowledged.
  unfoldable pub note_no_ack : List ℕ → Comm → Comm
  unfolding count_streak count_board_miss should_abort insert
  note_no_ack b c =
      let board = get_or b 5 0 in
      let c1 =
        report config_ack (ack_missing board (get_or b 6 0) (get_or b 7 0) (get_or b 8 0)) c in
      let c2 =
        count_board_miss board
          (count_streak (with_config (record (c1.config) { failed = true }) c1)) in
      let c3 : Comm =
        with_config (record (c2.config) { failed_boards = insert board c2.config.failed_boards })
          c2 in
      if not c3.config.early_abort_logged && should_abort p c3
      then with_config (record (c3.config) { early_abort_logged = true }) c3
      else c3

  -- The loop over attempts, with `left` of them to go: none if all were missed.
  unfoldable pub attempt : ℕ → ℕ → List ℕ → Comm → Option Bool × Comm
  attempt zero done b c = (none, c)
  attempt (suc left) done b c =
      let c0 : Comm =
        if ltb 0 done
        then record c {
          counters = record (c.counters) { ack_retries = inc_u32 c.counters.ack_retries };
        }
        else c in
      let (written, c1) = write_bytes "ConfigFrame" b c0 in
      let (acked, c2) =
        receive_config_ack p (get_or b 5 0) (get_or b 6 0) (get_or b 7 0) (get_or b 8 0) c1 in
      let more = attempt left (done + 1) b (flush c2) in
      if written
      then (if acked then (some true, note_ack (get_or b 5 0) c2) else more)
      else (some false, c1)

  -- SendConfigEvent
  unfoldable pub send_config_event : ConfigEvent → Comm → Bool × Comm
  send_config_event e c =
      if not c.port_open
      then (false, c)
      else if should_abort p c
      then (false, c)
      else (let b =
            p.build_config_frame p.no_board c.sequence c.epoch e.board_id e.topic e.index e.key
              e.value in
          let c' = next_sequence c in
          let (r, c'') = attempt ack_retries_max 0 b c' in
          if mem (get_or b 5 0) c'.boards.skipped
          then (true, c')
          else elim r [ none ↦ (false, note_no_ack b c'') | some ok ↦ (ok, c'') ])
