-- ===== src/Boards/Virtual.antt =====
-- Switches of virtual boards: `SetVirtualSwitchState`.
use native.Mathlib.Decide.{ℕ_discrete}
use libppuc.Common.{
  ◌≢◌, ℕ, ◌<◌, ◌≡◌, refl, ap, ◌∙◌, inl, inr, true, false, none, some, List, [], ◌∷◌, length, get_or,
  set, push, if◌then◌else◌, ◌==◌, arith, Option-cases, ==_refl, get_or-set_self,
}
use libppuc.Common.Maps.{lookup, assign, lookup-assign}
use libppuc.Protocol.{Protocol}
use libppuc.State.{VirtualBoard, Comm}
use libppuc.Boards.{
  finalize_presence, finalize_configured_board_presence, place_of, normalized, note_switch_activity,
  change_virtual, set_on_board, set_virtual_switch_state,
}

place_of-lt : (n i : ℕ) (ns : List ℕ) → place_of n ns ≡ some i → i < length ns
unfolding place_of
place_of-lt n i [] h = cc
place_of-lt n i (m ∷ ns) h = elim (Option-cases (place_of n ns)) [
  | inl e ↦ ground (arith, e)
  | inr (j, e) ↦ ground (arith, e, place_of-lt n j ns e)
]

module _ (p : Protocol) where
  boards-change_virtual :
      (n s owner i : ℕ) (v : VirtualBoard) (c : Comm)
      → (change_virtual p n s owner i v c).boards ≡ record (c.boards) {
        virtual_boards =
            assign owner
              (record v { switch_states = set v.switch_states i s; dirty = true })
              c.boards.virtual_boards;
      }
  unfolding change_virtual note_switch_activity
  boards-change_virtual n s owner i v c = ground arith

  queue-change_virtual :
      (n s owner i : ℕ) (v : VirtualBoard) (c : Comm)
      → (change_virtual p n s owner i v c).switches.queue
        ≡ push c.switches.queue (record { number = n; state = s })
  unfolding change_virtual note_switch_activity
  queue-change_virtual n s owner i v c = ground arith

  -- The board as a change leaves it.
  abbrev changed : ℕ → ℕ → VirtualBoard → VirtualBoard
  changed i s v = record v { switch_states = set v.switch_states i s; dirty = true }

  -- A switch that has its state already is left alone.
  set_on_board_same :
      (n state owner i : ℕ) (v : VirtualBoard) (c : Comm)
      → place_of n v.switch_numbers ≡ some i
      → get_or v.switch_states i 0 ≡ normalized state
      → set_on_board p n state owner v c ≡ (true, c)
  unfolding set_on_board
  set_on_board_same n state owner i v c h e = ground arith

  set_on_board-none :
      (n state owner : ℕ) (v : VirtualBoard) (c : Comm)
      → place_of n v.switch_numbers ≡ none
      → set_on_board p n state owner v c ≡ (false, c)
  unfolding set_on_board
  set_on_board-none n state owner v c h = rw (h, set_on_board)

  set_on_board_changes :
      (n state owner i : ℕ) (v : VirtualBoard) (c : Comm)
      → place_of n v.switch_numbers ≡ some i
      → get_or v.switch_states i 0 ≢ normalized state
      → set_on_board p n state owner v c ≡ (true, change_virtual p n (normalized state) owner i v c)
  unfolding set_on_board
  set_on_board_changes n state owner i v c h e = ground arith

  -- The part of `set_virtual_switch_state` on a finalized host.
  on_board :
      (n state owner : ℕ) (v : VirtualBoard) (c : Comm)
      → c.boards.finalized ≡ true
      → lookup n c.boards.virtual_owner ≡ some owner
      → lookup owner c.boards.virtual_boards ≡ some v
      → set_virtual_switch_state p n state c ≡ set_on_board p n state owner v c
  unfolding set_virtual_switch_state finalize_configured_board_presence finalize_presence
  on_board n state owner v c f h k = ground arith

  -- A switch of a virtual board: a call that changes its state queues one change with the new state
  -- and marks the board dirty; a call that does not, changes nothing. Either way the same call
  -- again changes nothing.
  pub set_virtual_switch_state_lem :
      (n state owner i : ℕ) (v : VirtualBoard) (c : Comm)
      → c.boards.finalized ≡ true
      → lookup n c.boards.virtual_owner ≡ some owner
      → lookup owner c.boards.virtual_boards ≡ some v
      → place_of n v.switch_numbers ≡ some i
      → length v.switch_states ≡ length v.switch_numbers
      → let (r, c') = set_virtual_switch_state p n state c in
        (r ≡ true)
        × (c'.switches.queue ≡ (
            if get_or v.switch_states i 0 == normalized state
            then c.switches.queue
            else push c.switches.queue (record { number = n; state = normalized state })))
        × (lookup owner c'.boards.virtual_boards ≡ (
            if get_or v.switch_states i 0 == normalized state
            then some v
            else some (changed i (normalized state) v)))
        × (set_virtual_switch_state p n state c' ≡ (true, c'))
  set_virtual_switch_state_lem n state owner i v c f h k e size =
      elim (ℕ_discrete (get_or v.switch_states i 0) (normalized state)) [
        | yes held ↦
            let step : set_virtual_switch_state p n state c ≡ (true, c) =
              on_board n state owner v c f h k ∙ set_on_board_same n state owner i v c e held in
            rw step (refl, ground arith, ground (arith, k), step)
        | no differs ↦
            let s = normalized state in
            let c' = change_virtual p n s owner i v c in
            let b = boards-change_virtual n s owner i v c in
            let step : set_virtual_switch_state p n state c ≡ (true, c') =
              on_board n state owner v c f h k
              ∙ set_on_board_changes n state owner i v c e differs in
            let kept : lookup owner c'.boards.virtual_boards ≡ some (changed i s v) =
              ap (λ x. lookup owner x.virtual_boards) b
              ∙ (lookup-assign owner owner (changed i s v) c.boards.virtual_boards
                  ∙ rw (==_refl owner)) in
            let again : set_virtual_switch_state p n state c' ≡ (true, c') =
              on_board n state owner (changed i s v) c' (ap (λ x. x.finalized) b ∙ f)
                (ap (λ x. lookup n x.virtual_owner) b ∙ h) kept
              ∙ set_on_board_same n state owner i (changed i s v) c' e (
                  get_or-set_self v.switch_states i s 0
                    (omega (arith, place_of-lt n i v.switch_numbers e))) in
            rw step (
              refl,
              queue-change_virtual n s owner i v c ∙ ground arith,
              kept ∙ ground arith,
              again,
            )
      ]
