-- ===== src/Switches/Chain.antt =====
-- `SendVirtualSwitchReply` and `ReceiveSwitchStateChain` of src/RS485Comm.cpp.
use libppuc.Common.{
  ℕ, zero, suc, Bool, true, false, ◌&&◌, none, some, List, [], take, if◌then◌else◌, ◌==◌, leb,
  inc_u8, inc_u32,
}
use libppuc.Common.Maps.{lookup, assign}
use libppuc.Protocol.{Protocol}
use libppuc.State.{switch_chain_miss, chain_missed, Counters, Comm}
use libppuc.Anomaly.{report}
use libppuc.Port.{write_bytes}
use libppuc.Boards.{max_boards, with_boards, is_some, get_logical_next}
use libppuc.Switches.Receive.{receive_switch_state_frame}

-- RS485_COMM_SWITCH_REPLY_MISS_THRESHOLD
abbrev pub miss_threshold : ℕ
miss_threshold = 3

-- The counts at the end of ReceiveSwitchStateChain.
unfoldable pub count_chain : Bool → Comm → Comm
count_chain success c =
    let k : Counters = record (c.counters) { chains = inc_u32 c.counters.chains } in
    if success
    then record c {
      reply_misses = 0;
      counters = record k { clean_chains = inc_u32 k.clean_chains };
    }
    else (let c1 = record c {
      reply_misses = inc_u8 c.reply_misses;
      counters = record k { chain_misses = inc_u32 k.chain_misses };
    } in
        let c2 = report switch_chain_miss (chain_missed c1.reply_misses) c1 in
        if leb miss_threshold c2.reply_misses
        then record c2 {
          need_resync = true;
          counters = record (c2.counters) { resyncs = inc_u32 c2.counters.resyncs };
        }
        else c2)

module _ (p : Protocol) where
  -- The frame of SendVirtualSwitchReply. Without a state the buffer for the bitmap is not filled; it
  -- is empty here.
  unfoldable pub virtual_reply : Bool → ℕ → Comm → List ℕ
  virtual_reply has_state next c =
      let bytes = p.bits_to_bytes c.runtime_config.switch_bits in
      p.build_switch_reply_frame has_state next c.last_output_sequence c.epoch c.epoch
        c.last_output_sequence p.status_in_sync
        (if has_state then take bytes c.switches.switch_bitmap else []) bytes

  -- SendVirtualSwitchReply
  unfoldable pub send_virtual_switch_reply : ℕ → ℕ → Comm → Bool × Comm
  unfolding virtual_reply
  send_virtual_switch_reply board next c = elim (lookup board c.boards.virtual_boards) [
    | none ↦ (false, c)
    | some v ↦
        if c.port_open && p.is_valid_runtime_config c.runtime_config
        then (let (sent, c') =
              write_bytes
                (if v.dirty then "VirtualSwitchStateFrame" else "VirtualSwitchNoChangeFrame")
                (virtual_reply v.dirty next c) c in
            if sent
            then (
              true,
              with_boards
                  (record (c'.boards) {
                    virtual_boards =
                        assign board (record v { dirty = false }) c'.boards.virtual_boards;
                  })
                  c',
            )
            else (false, c'))
        else (false, c)
  ]

  -- The loop of ReceiveSwitchStateChain: at most `hops` boards; whether every reply came.
  unfoldable pub chain_from : ℕ → ℕ → ℕ → Comm → Bool × Comm
  chain_from zero expected next c = (true, c)
  chain_from (suc hops) expected next c =
      let n = get_logical_next p expected c.boards in
      let (sent, c1) = send_virtual_switch_reply expected n c in
      let (got, n', c2) = receive_switch_state_frame p expected next c in
      let after_virtual = chain_from hops n n c1 in
      let after_reply = chain_from hops n' n' c2 in
      if expected == p.no_board
      then (true, c)
      else if is_some (lookup expected c.boards.virtual_boards)
      then (if sent then after_virtual else (false, c1))
      else if got
      then after_reply
      else (false, c2)

  -- ReceiveSwitchStateChain
  unfoldable pub receive_switch_state_chain : ℕ → Comm → Comm
  unfolding chain_from count_chain
  receive_switch_state_chain first c =
      let (success, c') = chain_from max_boards first p.no_board c in count_chain success c'
