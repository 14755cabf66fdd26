-- ===== src/Runtime.antt =====
-- The worker thread: one round of the loop in `RS485Comm::Run`, and the members that `Run` sets
-- before it starts the thread. Sleeps are left out.
pub mod Rounds
pub mod Frames
use libppuc.Common.{
  ℕ, zero, suc, ◌+◌, ◌*◌, Bool, true, false, not, ◌&&◌, Option, none, some, List, [], ◌∷◌,
  if◌then◌else◌, ◌==◌, ◌!=◌, ltb, leb,
}
use libppuc.Protocol.{Protocol}
use libppuc.State.{Event, Snapshot, Outputs, Switches, World, Comm}
use libppuc.Port.{now}
use libppuc.Outputs.{with_outputs, compose_frame, consume_coil_holdover, next_snapshot}
use libppuc.Boards.{with_switches}
use libppuc.Session.{
  startup_hold, send_event, resync_session, send_switch_refresh_frame,
  send_output_state_frame_from_buffers,
}
use libppuc.Switches.Chain.{receive_switch_state_chain}

-- RS485_COMM_MAX_EVENTS_TO_SEND
abbrev pub max_events : ℕ
max_events = 32

-- The time of the next refresh, `idle` milliseconds after `t`.
unfoldable pub refresh_after : ℕ → ℕ → Option ℕ
refresh_after t idle = if idle == 0 then none else some (t + idle * 1000)

-- SetSwitchRefreshIdleMs
unfoldable pub set_switch_refresh_idle_ms : ℕ → Comm → Comm
unfolding refresh_after
set_switch_refresh_idle_ms idle c =
    let (t, w) = now c.world in
    let next = refresh_after t idle in
    record c {
      switches = record (c.switches) { refresh_idle_ms = idle; next_refresh_at = next };
      world = if idle == 0 then c.world else w;
    }

-- What Run sets before the thread starts.
unfoldable pub start : Comm → Comm
unfolding refresh_after
start c =
    let (t, w) = now c.world in
    let (u, w') = now w in
    let idle = c.switches.refresh_idle_ms in
    record c {
      switches = record (c.switches) {
        next_poll_at = t + startup_hold;
        next_refresh_at = refresh_after u idle;
      };
      world = if idle == 0 then w else w';
    }

-- `t >= deadline`, where none is the end of time.
unfoldable pub is_due : Option ℕ → ℕ → Bool
is_due none t = false
is_due (some d) t = leb d t

module _ (p : Protocol) where
  -- The inner loop: at most `left` queued events are sent.
  unfoldable pub drain_events : ℕ → Comm → Comm
  drain_events zero c = c
  drain_events (suc left) c = elim c.outputs.events [
    | [] ↦ c
    | e ∷ rest ↦
        drain_events left (send_event p e (with_outputs (record (c.outputs) { events = rest }) c)).1
  ]

  -- The first board of the chain once polling has begun.
  unfoldable pub first_board : ℕ → Comm → ℕ
  first_board t c = elim c.boards.switch_boards [
    | [] ↦ p.no_board
    | b ∷ _ ↦ if leb c.switches.next_poll_at t then b else p.no_board
  ]

  unfoldable pub wants_refresh : ℕ → ℕ → Comm → Bool
  unfolding is_due
  wants_refresh next t c =
      next != p.no_board
      && (ltb 0 c.switches.refresh_idle_ms && is_due c.switches.next_refresh_at t)

  -- After a frame that was sent: the replies of the boards, and the next refresh.
  unfoldable pub poll_boards : ℕ → Bool → Comm → Comm
  poll_boards next refresh c =
      let c' = receive_switch_state_chain p next c in
      let (t, w) = now c'.world in
      if next == p.no_board
      then c
      else if refresh && ltb 0 c'.switches.refresh_idle_ms
      then record (with_switches
          (record (c'.switches) { next_refresh_at = some (t + c'.switches.refresh_idle_ms * 1000) })
          c') { world = w }
      else c'

  -- A switch refresh in place of an output frame.
  unfoldable pub send_refresh : ℕ → Comm → Comm
  unfolding poll_boards
  send_refresh next c =
      let (sent, c') = send_switch_refresh_frame p next c in
      if sent then poll_boards next true c' else c'

  -- An output frame: the next snapshot or the present state, with the held coils on. The counts go
  -- down only if it was sent.
  unfoldable pub send_outputs : ℕ → Comm → Comm
  unfolding poll_boards
  send_outputs next c =
      let (s, c1) = next_snapshot c in
      let hold = c1.outputs.coil_hold_frames in
      let (sent, c2) = send_output_state_frame_from_buffers p next (compose_frame p s c1) c1 in
      if sent then poll_boards next false (consume_coil_holdover p hold c2) else c2

  unfoldable pub send_frame : Comm → Comm
  unfolding send_refresh send_outputs first_board wants_refresh
  send_frame c =
      let (t, w) = now c.world in
      let c' : Comm = record c { world = w } in
      let next = first_board t c' in
      if wants_refresh next t c' then send_refresh next c' else send_outputs next c'

  -- The rest of a round while updates run: a new session first if one is wanted.
  unfoldable pub run_enabled : Comm → Comm
  run_enabled c =
      let (resynced, c') = resync_session p c in
      if c.need_resync then (if resynced then send_frame c' else c') else send_frame c

  -- One round of the loop.
  unfoldable pub run_round : Comm → Comm
  unfolding drain_events run_enabled
  run_round c =
      let c' = drain_events max_events c in if not c'.runtime_enabled then c' else run_enabled c'
