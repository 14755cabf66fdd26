-- ===== src/Switches/Recovery.antt =====
-- How the host counts the chains of switch replies, and when it asks for a new session.
use libppuc.Common.{
  ℕ, zero, suc, ◌+◌, ◌%◌, ◌^◌, ◌≤◌, ◌<◌, ◌≡◌, ◌∙◌, ap, refl, ◌⊎◌, inl, inr, Bool, true, false, ◌&&◌,
  if◌then◌else◌, ◌==◌, leb, arith, Bool-cases, Option-cases,
}
use libppuc.Common.Maps.{lookup}
use libppuc.Protocol.{Protocol}
use libppuc.State.{Comm}
use libppuc.Anomaly.{report}
use libppuc.Port.{write_bytes}
use libppuc.Boards.{max_boards, is_some, get_logical_next}
use libppuc.Switches.Receive.{receive_switch_state_frame}
use libppuc.Switches.Reply.{Kept, Kept-refl, Kept-trans, write_bytes-Kept, receive-Kept}
use libppuc.Switches.Chain.{
  virtual_reply, send_virtual_switch_reply, chain_from, count_chain, receive_switch_state_chain,
}

module _ (p : Protocol) where
  virtual-Kept : (board next : ℕ) (c : Comm) → Kept c (send_virtual_switch_reply p board next c).1
  unfolding send_virtual_switch_reply
  virtual-Kept board next c = elim (Option-cases (lookup board c.boards.virtual_boards)) [
    | inl e ↦ rw (e, send_virtual_switch_reply) (Kept-refl c)
    | inr (v, e) ↦ elim (Bool-cases (c.port_open && p.is_valid_runtime_config c.runtime_config)) [
      | inr f ↦ rw (e, f, send_virtual_switch_reply) (Kept-refl c)
      | inl f ↦
          let name = if v.dirty then "VirtualSwitchStateFrame" else "VirtualSwitchNoChangeFrame" in
          let frame = virtual_reply p v.dirty next c in
          let k = write_bytes-Kept name frame c in
          elim (Bool-cases (write_bytes name frame c).0) [
            | inl g ↦
                rw (e, f, g, send_virtual_switch_reply)
                  (record {
                    counters = k.counters;
                    misses = k.misses;
                    epoch = k.epoch;
                    outputs = k.outputs;
                    wish = k.wish;
                  })
            | inr g ↦ rw (e, f, g, send_virtual_switch_reply) k
          ]
    ]
  ]

  chain_from-Kept :
      (hops expected next : ℕ) (c : Comm) → Kept c (chain_from p hops expected next c).1
  unfolding chain_from
  chain_from-Kept zero expected next c = Kept-refl c
  chain_from-Kept (suc hops) expected next c =
      let n = get_logical_next p expected c.boards in
      let v = virtual-Kept expected n c in
      let r = receive-Kept p expected next c in
      elim (Bool-cases (expected == p.no_board)) [
        | inl e ↦ rw (e, chain_from) (Kept-refl c)
        | inr e ↦ elim (Bool-cases (is_some (lookup expected c.boards.virtual_boards))) [
          | inl f ↦ elim (Bool-cases (send_virtual_switch_reply p expected n c).0) [
            | inl g ↦ rw (e, f, g, chain_from) (Kept-trans v (chain_from-Kept hops n n _))
            | inr g ↦ rw (e, f, g, chain_from) v
          ]
          | inr f ↦ elim (Bool-cases (receive_switch_state_frame p expected next c).0) [
            | inl g ↦ rw (e, f, g, chain_from) (Kept-trans r (chain_from-Kept hops _ _ _))
            | inr g ↦ rw (e, f, g, chain_from) r
          ]
        ]
      ]

  -- Whether all the replies of a chain that starts at `first` come.
  abbrev pub answered : ℕ → Comm → Bool
  answered first c = (chain_from p max_boards first p.no_board c).0

  count_wish : (b : Bool) (c : Comm) → c.need_resync ≡ true → (count_chain b c).need_resync ≡ true
  unfolding count_chain report
  count_wish true c h = h
  count_wish false c h = ground arith

  count_success :
      (c : Comm)
      → let d = count_chain true c in
        (d.counters.chains ≡ (c.counters.chains + 1) % 2 ^ 32)
        × (d.counters.clean_chains ≡ (c.counters.clean_chains + 1) % 2 ^ 32)
        × (d.counters.chain_misses ≡ c.counters.chain_misses)
        × (d.reply_misses ≡ 0)
        × (d.need_resync ≡ c.need_resync)
  unfolding count_chain
  count_success c = (refl, refl, refl, refl, refl)

  count_failure :
      (c : Comm)
      → let d = count_chain false c in
        (d.counters.chains ≡ (c.counters.chains + 1) % 2 ^ 32)
        × (d.counters.clean_chains ≡ c.counters.clean_chains)
        × (d.counters.chain_misses ≡ (c.counters.chain_misses + 1) % 2 ^ 32)
        × (d.reply_misses ≡ (c.reply_misses + 1) % 2 ^ 8)
        × ((d.reply_misses < 3) ⊎ (d.need_resync ≡ true))
  unfolding count_chain report
  count_failure c = ground arith

  -- Every chain is counted once. A chain with all its replies counts as clean and resets the misses
  -- in a row; any other one counts as a miss, adds to the misses in a row, and at three or more of
  -- them sets the wish to restart the session. The counts wrap around at 32 and 8 bits.
  pub receive_switch_state_chain_cases :
      (first : ℕ) (c : Comm)
      → let d = receive_switch_state_chain p first c in
        (d.counters.chains ≡ (c.counters.chains + 1) % 2 ^ 32)
        × (((answered first c ≡ true)
              × (d.counters.clean_chains ≡ (c.counters.clean_chains + 1) % 2 ^ 32)
              × (d.counters.chain_misses ≡ c.counters.chain_misses)
              × (d.reply_misses ≡ 0))
            ⊎ ((answered first c ≡ false)
                × (d.counters.clean_chains ≡ c.counters.clean_chains)
                × (d.counters.chain_misses ≡ (c.counters.chain_misses + 1) % 2 ^ 32)
                × (d.reply_misses ≡ (c.reply_misses + 1) % 2 ^ 8)
                × ((d.reply_misses < 3) ⊎ (d.need_resync ≡ true))))
  unfolding receive_switch_state_chain
  receive_switch_state_chain_cases first c =
      let k = chain_from-Kept max_boards first p.no_board c in
      let d = (chain_from p max_boards first p.no_board c).1 in
      elim (Bool-cases (answered first c)) [
        | inl e ↦
            let (n, cl, m, z, _) = count_success d in
            rw (e, receive_switch_state_chain)
              (
                n ∙ ap (λ t. (t.chains + 1) % 2 ^ 32) k.counters,
                inl (
                  refl,
                  cl ∙ ap (λ t. (t.clean_chains + 1) % 2 ^ 32) k.counters,
                  m ∙ ap (λ t. t.chain_misses) k.counters,
                  z,
                ),
              )
        | inr e ↦
            let (n, cl, m, r, w) = count_failure d in
            rw (e, receive_switch_state_chain)
              (
                n ∙ ap (λ t. (t.chains + 1) % 2 ^ 32) k.counters,
                inr (
                  refl,
                  cl ∙ ap (λ t. t.clean_chains) k.counters,
                  m ∙ ap (λ t. (t.chain_misses + 1) % 2 ^ 32) k.counters,
                  r ∙ ap (λ t. (t + 1) % 2 ^ 8) k.misses,
                  w,
                ),
              )
      ]

  -- A wish to restart the session outlives a chain.
  wish-chain :
      (first : ℕ) (c : Comm)
      → c.need_resync ≡ true
      → (receive_switch_state_chain p first c).need_resync ≡ true
  unfolding receive_switch_state_chain
  wish-chain first c h =
      count_wish (answered first c) _ ((chain_from-Kept max_boards first p.no_board c).wish h)

  -- A step that leaves the count of missed chains in a row alone and does not clear the wish,
  -- whatever else it does to the state.
  pub record Spares (c d : Comm) : Type 0 where
    pub misses : d.reply_misses ≡ c.reply_misses
    pub wish : c.need_resync ≡ true → d.need_resync ≡ true

  -- `n` chains in a row without all their replies, and any such steps between them.
  pub data Missed (c : Comm) : ℕ → Comm → Type 0 where
    begin : Missed c 0 c
    miss :
        {n : ℕ} {d : Comm} (first : ℕ)
        → Missed c n d
        → answered first d ≡ false
        → Missed c (n + 1) (receive_switch_state_chain p first d)
    step : {n : ℕ} {d e : Comm} → Missed c n d → Spares d e → Missed c n e

  missed_lem :
      {c d : Comm} {n : ℕ}
      → c.reply_misses ≡ 0
      → Missed c n d
      → (n < 3 → d.reply_misses ≡ n) × (3 ≤ n → d.need_resync ≡ true)
  missed_lem h begin = (λ _. h, λ k. ground arith)
  missed_lem h (miss {n} {d} first m e) =
      let (few, many) = missed_lem h m in
      elim (receive_switch_state_chain_cases first d).1 [
        | inl (f, _, _, _) ↦ ground arith
        | inr (_, _, _, r, w) ↦ (
          λ k. r ∙ ground arith,
          λ k. elim (Bool-cases (leb 3 n)) [
            | inl q ↦ wish-chain first d (many (ground arith))
            | inr q ↦ ground arith
          ],
        )
      ]
  missed_lem h (step m k) =
      let (few, many) = missed_lem h m in (λ l. k.misses ∙ few l, λ l. k.wish (many l))

  -- From a count of 0, three missed chains in a row set the wish to restart the session, and it
  -- stays set through more of them. Between the chains there may be any steps that leave the count of
  -- misses in a row alone and do not clear the wish, whatever else they change.
  pub resync-Missed :
      {c d : Comm} {n : ℕ} → c.reply_misses ≡ 0 → Missed c n d → 3 ≤ n → d.need_resync ≡ true
  resync-Missed h m k = (missed_lem h m).1 k

  outputs-count_chain : (b : Bool) (c : Comm) → (count_chain b c).outputs ≡ c.outputs
  unfolding count_chain report
  outputs-count_chain true c = refl
  outputs-count_chain false c = ground arith

  -- A chain leaves the outputs alone.
  pub outputs-chain :
      (first : ℕ) (c : Comm) → (receive_switch_state_chain p first c).outputs ≡ c.outputs
  unfolding receive_switch_state_chain
  outputs-chain first c =
      outputs-count_chain (answered first c) _
      ∙ (chain_from-Kept max_boards first p.no_board c).outputs
