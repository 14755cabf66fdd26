-- ===== src/Config/Silent.antt =====
-- A board that never answers, and the end of a configuration: `SendConfigEvent` and
-- `ShouldAbortConfigurationEarly` of src/RS485Comm.cpp.
use libppuc.Common.{
  ℕ, ◌+◌, ◌≤◌, ◌<◌, ◌≡◌, ◌≢◌, refl, ap, subst, ◌∙◌, true, false, not, ◌&&◌, none, List, length,
  get_or, mem, ltb, arith, get_or-set_self, length-set,
}
use libppuc.Protocol.{Protocol, ConfigFrameLaws}
use libppuc.State.{config_ack, ack_missing, Comm}
use libppuc.Anomaly.{report}
use libppuc.Boards.{max_boards}
use libppuc.Session.{next_sequence}
use libppuc.Config.{
  ConfigEvent, ack_retries_max, initial_miss_threshold, count_streak, count_board_miss,
  should_abort, note_no_ack, attempt, send_config_event,
}
use libppuc.Config.Retry.{config_frame, board_of, attempt-Tried}

module _ (p : Protocol) where
  -- All three attempts of an event were written and none was acknowledged.
  pub record Unanswered (e : ConfigEvent) (c : Comm) : Type 0 where
    pub connected : c.port_open ≡ true
    pub going : should_abort p c ≡ false
    pub wanted : mem (board_of p e c) c.boards.skipped ≡ false
    pub none_acked : (attempt p ack_retries_max 0 (config_frame p e c) (next_sequence c)).0 ≡ none

  -- `n` events in a row to a board, none of them answered.
  pub data Silent (board : ℕ) (c : Comm) : ℕ → Comm → Type 0 where
    begin : Silent board c 0 c
    miss :
        {n : ℕ} {d : Comm} (e : ConfigEvent)
        → Silent board c n d
        → e.board_id ≡ board
        → Unanswered e d
        → Silent board c (n + 1) (send_config_event p e d).1

  unanswered_lem :
      (e : ConfigEvent) (c : Comm)
      → Unanswered e c
      → (d : Comm) × (d.config ≡ c.config)
        × (d.boards ≡ c.boards)
        × ((send_config_event p e c).1 ≡ note_no_ack p (config_frame p e c) d)
  unfolding send_config_event
  unanswered_lem e c u =
      let t = attempt-Tried p ack_retries_max 0 (config_frame p e c) (next_sequence c) in
      let q = t.silent (rw u.none_acked (λ h. ground arith)) in
      (
        (attempt p ack_retries_max 0 (config_frame p e c) (next_sequence c)).1,
        ap (λ d. d.config) q ∙ t.steady.config,
        ap (λ d. d.boards) q ∙ t.steady.boards,
        rw (ap not u.connected, u.going, u.wanted, u.none_acked, send_config_event) refl,
      )

  count_board_miss_lem :
      (board : ℕ) (c : Comm)
      → board < max_boards
      → board < length c.config.misses_by_board
      → mem board c.boards.present ≡ false
      → get_or c.config.misses_by_board board 0 < 10
      → let n = get_or c.config.misses_by_board board 0 in
        let d = count_board_miss board c in
        (get_or d.config.misses_by_board board 0 ≡ n + 1)
        × (n ≡ 9 → d.config.early_abort_board ≡ board)
  unfolding count_board_miss
  count_board_miss_lem board c h l k m =
      let n = get_or c.config.misses_by_board board 0 in
      let t : (ltb board max_boards && ltb n initial_miss_threshold) ≡ true = ground arith in
      rw (t, count_board_miss)
        (get_or-set_self c.config.misses_by_board board (n + 1) 0 l, λ e. rw (k, e) refl)

  -- After `m` misses in a row of a board that is not there.
  record Counts (board m : ℕ) (c : Comm) : Type 0 where
    sized : board < length c.config.misses_by_board
    absent : mem board c.boards.present ≡ false
    few : m < 10 → get_or c.config.misses_by_board board 0 ≡ m
    many : 10 ≤ m → c.config.early_abort_board ≡ board

  streak_lem :
      (c : Comm)
      → ((count_streak c).config.misses_by_board ≡ c.config.misses_by_board)
        × ((count_streak c).boards ≡ c.boards)
  unfolding count_streak
  streak_lem c = ground arith

  length_misses :
      (board : ℕ) (c : Comm)
      → (length (count_board_miss board c).config.misses_by_board ≡ length c.config.misses_by_board)
        × ((count_board_miss board c).boards ≡ c.boards)
  unfolding count_board_miss
  length_misses board c =
      let l =
        length-set c.config.misses_by_board board (get_or c.config.misses_by_board board 0 + 1) in
      ground arith

  note_no_ack-Counts :
      (b : List ℕ) (m : ℕ) (c : Comm)
      → get_or b 5 0 < max_boards
      → m < 10
      → Counts (get_or b 5 0) m c
      → Counts (get_or b 5 0) (m + 1) (note_no_ack p b c)
  unfolding note_no_ack report
  note_no_ack-Counts b m c h l k =
      let board = get_or b 5 0 in
      let msg = ack_missing board (get_or b 6 0) (get_or b 7 0) (get_or b 8 0) in
      let c1 = report config_ack msg c in
      let c2 : Comm = record c1 { config = record (c1.config) { failed = true } } in
      let c3 = count_streak c2 in
      let (e, f) = streak_lem c2 in
      let (u, v) = length_misses board c3 in
      let size : board < length c3.config.misses_by_board = rw e k.sized in
      let out : mem board c3.boards.present ≡ false = rw f k.absent in
      let count : get_or c3.config.misses_by_board board 0 ≡ m = rw e (k.few l) in
      let (x, y) = count_board_miss_lem board c3 h size out (omega arith) in
      record {
        sized = ground (arith, u, size);
        absent = ground (arith, v, out);
        few = λ q. ground (arith, x, count);
        many = λ q. ground (arith, y, count);
      }

  -- The count and the threshold look at what is known of the boards alone.
  Counts-same :
      {board m : ℕ} {c d : Comm}
      → d.config ≡ c.config
      → d.boards ≡ c.boards
      → Counts board m c
      → Counts board m d
  Counts-same e f k = record {
    sized = rw e k.sized;
    absent = rw f k.absent;
    few = λ h. rw e (k.few h);
    many = λ h. rw e (k.many h);
  }

  not_yet :
      (board m : ℕ) (c : Comm)
      → board ≢ p.no_board
      → should_abort p c ≡ false
      → Counts board m c
      → m < 10
  unfolding should_abort
  not_yet board m c ne h k = ground (arith, k.many)

  miss-Counts :
      (laws : ConfigFrameLaws p) (board m : ℕ) (d : Comm) (e : ConfigEvent)
      → board < max_boards
      → board ≢ p.no_board
      → e.board_id ≡ board
      → Unanswered e d
      → Counts board m d
      → Counts board (m + 1) (send_config_event p e d).1
  miss-Counts laws board m d e h ne q u k =
      let (x, e1, e2, r) = unanswered_lem e d u in
      let b = config_frame p e d in
      let w : get_or b 5 0 ≡ board =
        laws.names_board p.no_board d.sequence d.epoch e.board_id e.topic e.index e.key e.value
        ∙ q in
      let t =
        note_no_ack-Counts b m x (rw w h) (not_yet board m d ne u.going k)
          (rw w (Counts-same e1 e2 k)) in
      rw r (subst (λ i. Counts i (m + 1) (note_no_ack p b x)) w t)

  Silent-Counts :
      (laws : ConfigFrameLaws p) (board : ℕ) (c : Comm) (n : ℕ) (d : Comm)
      → board < max_boards
      → board ≢ p.no_board
      → get_or c.config.misses_by_board board 0 < 10
      → Counts board (get_or c.config.misses_by_board board 0) c
      → Silent board c n d
      → Counts board (get_or c.config.misses_by_board board 0 + n) d
  Silent-Counts laws board c n d h ne l k begin = subst (λ m. Counts board m c) (omega arith) k
  Silent-Counts laws board c _ _ h ne l k (miss {n} {d} e s q u) =
      subst (λ m. Counts board m (send_config_event p e d).1) (omega arith)
        (miss-Counts laws board _ d e h ne q u (Silent-Counts laws board c n d h ne l k s))

  -- A board of the table that was never heard of, and whose count of misses is below 10, ends the
  -- configuration once it has left so many events in a row unanswered that the count reaches 10.
  -- Configuration frames carry the number of their board.
  pub should_abort-Silent :
      (laws : ConfigFrameLaws p) (board n : ℕ) (c d : Comm)
      → board < max_boards
      → board ≢ p.no_board
      → board < length c.config.misses_by_board
      → mem board c.boards.present ≡ false
      → get_or c.config.misses_by_board board 0 < 10
      → Silent board c n d
      → 10 ≤ get_or c.config.misses_by_board board 0 + n
      → should_abort p d ≡ true
  unfolding should_abort
  should_abort-Silent laws board n c d h ne sz ab l s m =
      let k : Counts board (get_or c.config.misses_by_board board 0) c = record {
        sized = sz;
        absent = ab;
        few = λ _. refl;
        many = λ q. omega arith;
      } in
      ground (arith, (Silent-Counts laws board c n d h ne l k s).many m)
