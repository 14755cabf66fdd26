-- ===== src/Config/Abort.antt =====
-- When a configuration is given up early: the counts of misses in a row, and their threshold.
use libppuc.Common.{
  ℕ, zero, suc, ◌+◌, ◌≤◌, sym, subst, inl, inr, true, false, not, ◌&&◌, List, [], ◌∷◌, get_or, set,
  mem, ltb, arith, Bool-cases, Option-cases,
}
use libppuc.Protocol.{Protocol}
use libppuc.State.{ConfigStatus, config_ack, ack_missing, Comm}
use libppuc.Anomaly.{report}
use libppuc.Boards.{max_boards}
use libppuc.Session.{next_sequence}
use libppuc.Config.{
  ConfigEvent, ack_retries_max, initial_miss_threshold, is_empty, count_streak, count_board_miss,
  should_abort, note_no_ack, attempt, note_ack, send_config_event,
}
use libppuc.Config.Wait.{Steady}
use libppuc.Config.Retry.{config_frame, board_of, attempt-Tried}

-- The counts never pass the threshold.
pub record IsCounted (s : ConfigStatus) : Type 0 where
  pub streak : s.miss_streak ≤ initial_miss_threshold
  pub each : (i : ℕ) → get_or s.misses_by_board i 0 ≤ initial_miss_threshold

set_bound :
    (xs : List ℕ) (i v n : ℕ)
    → v ≤ n
    → ((j : ℕ) → get_or xs j 0 ≤ n)
    → (j : ℕ) → get_or (set xs i v) j 0 ≤ n
set_bound [] i v n h k j = k j
set_bound (x ∷ xs) zero v n h k zero = h
set_bound (x ∷ xs) zero v n h k (suc j) = k (suc j)
set_bound (x ∷ xs) (suc i) v n h k zero = k 0
set_bound (x ∷ xs) (suc i) v n h k (suc j) = set_bound xs i v n h (λ j. k (suc j)) j

count_streak-IsCounted : (c : Comm) → IsCounted c.config → IsCounted (count_streak c).config
unfolding count_streak
count_streak-IsCounted c k =
    elim (Bool-cases
      (is_empty c.boards.present && ltb c.config.miss_streak initial_miss_threshold)) [
        | inl e ↦ rw (e, count_streak) (record { streak = ground arith; each = k.each })
        | inr e ↦ rw (e, count_streak) k
      ]

count_board_miss-IsCounted :
    (board : ℕ) (c : Comm) → IsCounted c.config → IsCounted (count_board_miss board c).config
unfolding count_board_miss
count_board_miss-IsCounted board c k =
    let n = get_or c.config.misses_by_board board 0 in
    elim (Bool-cases (ltb board max_boards && ltb n initial_miss_threshold)) [
      | inl e ↦
          rw (e, count_board_miss)
            (record {
              streak = k.streak;
              each = set_bound c.config.misses_by_board board (n + 1) 10 (ground arith) k.each;
            })
      | inr e ↦ rw (e, count_board_miss) k
    ]

note_ack-IsCounted :
    (board : ℕ) (c : Comm) → IsCounted c.config → IsCounted (note_ack board c).config
unfolding note_ack
note_ack-IsCounted board c k = elim (Bool-cases (ltb board max_boards)) [
  | inl e ↦
      rw (e, note_ack)
        (record { streak = omega arith; each = set_bound _ board 0 10 (omega arith) k.each })
  | inr e ↦ rw (e, note_ack) (record { streak = omega arith; each = k.each })
]

module _ (p : Protocol) where
  note_no_ack-IsCounted :
      (b : List ℕ) (c : Comm) → IsCounted c.config → IsCounted (note_no_ack p b c).config
  unfolding note_no_ack report
  note_no_ack-IsCounted b c k =
      let board = get_or b 5 0 in
      let m = ack_missing board (get_or b 6 0) (get_or b 7 0) (get_or b 8 0) in
      let c1 = report config_ack m c in
      let c2 : Comm = record c1 { config = record (c1.config) { failed = true } } in
      let k2 : IsCounted c2.config = record { streak = k.streak; each = k.each } in
      let k3 = count_board_miss-IsCounted board (count_streak c2) (count_streak-IsCounted c2 k2) in
      record { streak = ground (arith, k3.streak); each = λ i. ground (arith, k3.each i) }

  -- What holds after SendConfigEvent: a property of the state that it begins with, of the one after
  -- the attempts, or of that one with a note of what came of them.
  pub send_config_event_elim :
      (e : ConfigEvent) (c : Comm) (R : Comm → Type 0)
      → R c
      → R (next_sequence c)
      → ((d : Comm) → Steady 3 (next_sequence c) d → R d)
      → ((d : Comm) → Steady 3 (next_sequence c) d → R (note_ack (board_of p e c) d))
      → ((d : Comm) → Steady 3 (next_sequence c) d → R (note_no_ack p (config_frame p e c) d))
      → R (send_config_event p e c).1
  unfolding send_config_event
  send_config_event_elim e c R ended skips quiet acked unacked =
      let b = config_frame p e c in
      let t = attempt-Tried p ack_retries_max 0 b (next_sequence c) in
      let (r, c'') = attempt p ack_retries_max 0 b (next_sequence c) in
      elim (Bool-cases (not c.port_open)) [
        | inl f ↦ rw (f, send_config_event) ended
        | inr f ↦ elim (Bool-cases (should_abort p c)) [
          | inl g ↦ rw (f, g, send_config_event) ended
          | inr g ↦ elim (Bool-cases (mem (board_of p e c) c.boards.skipped)) [
            | inl h ↦ rw (f, g, h, send_config_event) skips
            | inr h ↦ elim (Option-cases r) [
              | inl q ↦
                  rw (f, g, h, q, send_config_event)
                    (subst (λ d. R (note_no_ack p b d)) (sym (t.silent (ground arith)))
                      (unacked t.last t.steady))
              | inr (true, q) ↦
                  rw (f, g, h, q, send_config_event)
                    (subst R (sym (t.acked q)) (acked t.last t.steady))
              | inr (false, q) ↦
                  rw (f, g, h, q, send_config_event)
                    (subst R (sym (t.silent (ground arith))) (quiet t.last t.steady))
            ]
          ]
        ]
      ]

  -- The counts of misses in a row never pass the threshold of 10.
  pub send_config_event-IsCounted :
      (e : ConfigEvent) (c : Comm)
      → IsCounted c.config
      → IsCounted (send_config_event p e c).1.config
  send_config_event-IsCounted e c k =
      let counted =
        λ (d : Comm) (s : Steady 3 (next_sequence c) d). subst IsCounted (sym s.config) k in
      send_config_event_elim e c (λ d. IsCounted d.config) k k counted
        (λ d s. note_ack-IsCounted _ d (counted d s))
        (λ d s. note_no_ack-IsCounted _ d (counted d s))
