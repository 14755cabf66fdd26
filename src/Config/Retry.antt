-- ===== src/Config/Retry.antt =====
-- The three attempts of `SendConfigEvent` of src/RS485Comm.cpp, and what each of its results means.
use libppuc.Common.{
  ℕ, zero, suc, ◌+◌, ◌≤◌, ◌<◌, ◌≡◌, ◌≢◌, refl, ap, ◌∙◌, ◌⊎◌, inl, inr, Bool, true, false, not,
  Option, some, List, length, get_or, mem, if◌then◌else◌, ltb, ==_refl, inc_u32, arith, Bool-cases,
  Option-cases,
}
use libppuc.Protocol.{Protocol}
use libppuc.State.{config_ack, ack_missing, Comm}
use libppuc.Anomaly.{report}
use libppuc.Port.{write_bytes}
use libppuc.Config.Heard.{AckOf, retry_Steady, attempt-AckOf}
use libppuc.Session.{next_sequence, flush}
use libppuc.Config.{
  ConfigEvent, ack_retries_max, insert, receive_config_ack, note_ack, count_streak,
  count_board_miss, should_abort, note_no_ack, attempt, send_config_event,
}
use libppuc.Config.Wait.{
  Steady, Steady-refl, Steady-trans, flush-Steady, write_bytes-Steady, receive_config_ack-Steady,
}

mem-insert : (x : ℕ) (xs : List ℕ) → mem x (insert x xs) ≡ true
unfolding insert
mem-insert x xs = elim (Bool-cases (mem x xs)) [
  | inl e ↦ rw (e, insert) e
  | inr e ↦ rw (e, insert, ==_refl x) refl
]

module _ (p : Protocol) where
  -- The frame of a configuration event, and the board that it names: its first payload byte.
  abbrev pub config_frame : ConfigEvent → Comm → List ℕ
  config_frame e c =
      p.build_config_frame p.no_board c.sequence c.epoch e.board_id e.topic e.index e.key e.value

  abbrev pub board_of : ConfigEvent → Comm → ℕ
  board_of e c = get_or (config_frame e c) 5 0

  -- The state that the attempts reach before it is noted what came of them.
  pub record Tried (left : ℕ) (b : List ℕ) (c : Comm) (r : Option Bool) (d : Comm) : Type 0 where
    pub last : Comm
    pub steady : Steady left c last
    pub acked : r ≡ some true → d ≡ note_ack (get_or b 5 0) last
    pub silent : r ≢ some true → d ≡ last

  pub attempt-Tried :
      (left done : ℕ) (b : List ℕ) (c : Comm)
      → let (r, d) = attempt p left done b c in Tried left b c r d
  unfolding attempt
  attempt-Tried zero done b c = record {
    last = c;
    steady = Steady-refl 0 c;
    acked = λ h. ground arith;
    silent = λ _. refl;
  }
  attempt-Tried (suc left) done b c =
      let c0 : Comm =
        if ltb 0 done
        then record c {
          counters = record (c.counters) { ack_retries = inc_u32 c.counters.ack_retries };
        }
        else c in
      let s0 =
        Steady-trans {k = 1} (omega arith) (retry_Steady p done c)
          (write_bytes-Steady "ConfigFrame" b c0) in
      let (written, c1) = write_bytes "ConfigFrame" b c0 in
      let s1 =
        receive_config_ack-Steady p (get_or b 5 0) (get_or b 6 0) (get_or b 7 0) (get_or b 8 0)
          c1 in
      let (acked, c2) =
        receive_config_ack p (get_or b 5 0) (get_or b 6 0) (get_or b 7 0) (get_or b 8 0) c1 in
      let one = Steady-trans {k = 1} (omega arith) s0 s1 in
      elim (Bool-cases written) [
        | inr e ↦
            rw (e, attempt)
              (record {
                last = c1;
                steady = Steady-trans (omega arith) s0 (Steady-refl left c1);
                acked = λ h. ground arith;
                silent = λ _. refl;
              })
        | inl e ↦ elim (Bool-cases acked) [
          | inl f ↦
              rw (e, f, attempt)
                (record {
                  last = c2;
                  steady = Steady-trans (omega arith) one (Steady-refl left c2);
                  acked = λ _. refl;
                  silent = λ h. ground arith;
                })
          | inr f ↦
              let t = attempt-Tried left (done + 1) b (flush c2) in
              rw (e, f, attempt)
                (record {
                  last = t.last;
                  steady =
                      Steady-trans (omega arith)
                        (Steady-trans {k = 1} (omega arith) one (flush-Steady c2)) t.steady;
                  acked = t.acked;
                  silent = t.silent;
                })
        ]
      ]

  -- What no counting changes: the boards, the frames sent, and that the configuration failed.
  count_lem :
      (board : ℕ) (c : Comm)
      → let d = count_board_miss board (count_streak c) in
        (d.boards ≡ c.boards)
        × (d.world ≡ c.world)
        × (d.config.failed ≡ c.config.failed)
        × (d.config.failed_boards ≡ c.config.failed_boards)
  unfolding count_board_miss count_streak
  count_lem board c = ground arith

  pub note_no_ack_lem :
      (b : List ℕ) (c : Comm)
      → let d = note_no_ack p b c in
        (d.boards ≡ c.boards)
        × (d.world.sent ≡ c.world.sent)
        × (d.config.failed ≡ true)
        × (mem (get_or b 5 0) d.config.failed_boards ≡ true)
  unfolding note_no_ack report
  note_no_ack_lem b c =
      let board = get_or b 5 0 in
      let m = ack_missing board (get_or b 6 0) (get_or b 7 0) (get_or b 8 0) in
      let c1 = report config_ack m c in
      let c2 : Comm = record c1 { config = record (c1.config) { failed = true } } in
      let (x, y, z, u) = count_lem board c2 in
      let c3 = count_board_miss board (count_streak c2) in
      let k = mem-insert board c3.config.failed_boards in ground (arith)

  -- An event is written at most three times. It succeeds only if its board is skipped, and then
  -- only the sequence number changes, or if a frame among the bytes that arrive acknowledges it: one
  -- of the type of an acknowledgement, with the right checksum, that names the board, the topic, the
  -- index and the key of the event, and accepts it; then the board is present and the count of
  -- misses in a row is 0. If it fails, then nothing is noted, because the configuration has ended or a
  -- write failed, or the configuration has failed with this board among the failed ones, and the
  -- boards stay as they are. A header of the protocol has more than one byte.
  pub send_config_event_cases :
      (e : ConfigEvent) (c : Comm)
      → 1 < p.header_bytes
      → let (ok, d) = send_config_event p e c in
        let board = board_of e c in
        (length d.world.sent ≤ length c.world.sent + 3)
        × (((ok ≡ true)
              × (((mem board c.boards.skipped ≡ true) × (d ≡ next_sequence c))
                  ⊎ (AckOf p (config_frame e c) c.world.input
                      × (mem board d.boards.present ≡ true)
                      × (d.config.miss_streak ≡ 0))))
            ⊎ ((ok ≡ false)
                × (((d.config ≡ c.config) × (d.boards ≡ c.boards))
                    ⊎ ((d.config.failed ≡ true)
                        × (mem board d.config.failed_boards ≡ true)
                        × (d.boards ≡ c.boards)))))
  unfolding send_config_event note_ack
  send_config_event_cases e c two =
      let b = config_frame e c in
      let c' = next_sequence c in
      let t = attempt-Tried ack_retries_max 0 b c' in
      let s = t.steady in
      let found = attempt-AckOf p ack_retries_max 0 b c' two in
      let (r, c'') = attempt p ack_retries_max 0 b c' in
      elim (Bool-cases (not c.port_open)) [
        | inl f ↦ rw (f, send_config_event) (omega arith, inr (refl, inl (refl, refl)))
        | inr f ↦ elim (Bool-cases (should_abort p c)) [
          | inl g ↦ rw (f, g, send_config_event) (omega arith, inr (refl, inl (refl, refl)))
          | inr g ↦ elim (Bool-cases (mem (board_of e c) c.boards.skipped)) [
            | inl h ↦ rw (f, g, h, send_config_event) (omega arith, inl (refl, inl (refl, refl)))
            | inr h ↦ elim (Option-cases r) [
              | inl k ↦
                  let q = t.silent (ground arith) in
                  let (x, y, z, u) = note_no_ack_lem b c'' in
                  rw (f, g, h, k, send_config_event)
                    (
                      omega (arith, ap length y, ap (λ d. length d.world.sent) q, s.sent),
                      inr (refl, inr (z, u, x ∙ (ap (λ d. d.boards) q ∙ s.boards))),
                    )
              | inr (true, k) ↦
                  let q = t.acked k in
                  rw (f, g, h, k, send_config_event)
                    (
                      omega (arith, ap (λ d. length d.world.sent) q, s.sent),
                      inl (
                        refl,
                        inr (
                          found k,
                          ap (λ d. mem (board_of e c) d.boards.present) q ∙ mem-insert _ _,
                          ap (λ d. d.config.miss_streak) q,
                        ),
                      ),
                    )
              | inr (false, k) ↦
                  let q = t.silent (ground arith) in
                  rw (f, g, h, k, send_config_event)
                    (
                      omega (arith, ap (λ d. length d.world.sent) q, s.sent),
                      inr (
                        refl,
                        inl (ap (λ d. d.config) q ∙ s.config, ap (λ d. d.boards) q ∙ s.boards),
                      ),
                    )
            ]
          ]
        ]
      ]
