-- ===== src/Boards.antt =====
-- Which boards there are, which of them the host stands in for, and which switches they own:
-- the setters of src/RS485Comm.cpp and `FinalizeConfiguredBoardPresence`.
pub mod Presence
pub mod Order
pub mod Virtual
pub mod Mapping
pub mod Ownership
use libppuc.Common.{
  ℕ, zero, suc, ◌+◌, ◌*◌, Bool, true, false, not, ◌&&◌, ◌||◌, Option, none, some, List, [], ◌∷◌,
  length, get_or, set, push, replicate, mem, if◌then◌else◌, ◌==◌, ◌!=◌, ltb, leb,
}
use libppuc.Common.Maps.{lookup, assign}
use libppuc.Protocol.{Protocol, RuntimeConfig}
use libppuc.State.{Mappings, SwitchState, Switches, VirtualBoard, Boards, World, Comm}
use libppuc.Port.{now}

-- RS485_COMM_MAX_BOARDS
abbrev pub max_boards : ℕ
max_boards = 8

abbrev pub with_boards : Boards → Comm → Comm
with_boards b c = record c { boards = b }

abbrev pub with_switches : Switches → Comm → Comm
with_switches s c = record c { switches = s }

-- RegisterSwitchBoard
unfoldable pub register_switch_board : ℕ → Comm → Comm
register_switch_board n c =
    if ltb (length c.boards.switch_boards) max_boards && ltb n max_boards
    then with_boards (record (c.boards) { switch_boards = push c.boards.switch_boards n }) c
    else c

-- The loop of SetActiveSwitchBoards.
unfoldable pub active_from : List ℕ → List ℕ → List ℕ
active_from acc [] = acc
active_from acc (b ∷ bs) =
    let rest = active_from (push acc b) bs in
    if leb max_boards (length acc) || leb max_boards b then acc else rest

unfoldable pub set_active_switch_boards : List ℕ → Comm → Comm
unfolding active_from
set_active_switch_boards bs c =
    with_boards (record (c.boards) { switch_boards = active_from [] bs }) c

unfoldable pub set_configured_boards : List ℕ → Comm → Comm
set_configured_boards bs c =
    with_boards (record (c.boards) { configured = bs; finalized = false }) c

unfoldable pub set_skipped_boards : List ℕ → Comm → Comm
set_skipped_boards bs c = with_boards (record (c.boards) { skipped = bs; finalized = false }) c

-- `m_virtualSwitchOwnerByNumber[n] = board` for each number of a board.
unfoldable pub own_all : ℕ → List ℕ → List (ℕ × ℕ) → List (ℕ × ℕ)
own_all b [] m = m
own_all b (n ∷ ns) m = own_all b ns (assign n b m)

abbrev pub numbers_of : ℕ → List (ℕ × List ℕ) → List ℕ
numbers_of b m = elim (lookup b m) [ none ↦ [] | some ns ↦ ns ]

abbrev pub fresh_board : ℕ → List ℕ → VirtualBoard
fresh_board b ns = record {
  board = b;
  switch_numbers = ns;
  switch_states = replicate (length ns) 0;
  dirty = false;
}

-- One round of the loop of FinalizeConfiguredBoardPresence.
unfoldable pub virtualize_one : ℕ → Boards → Boards
virtualize_one x b =
    let ns = numbers_of x b.switch_numbers_by_board in
    if mem x b.present then b else record b {
      virtual_boards = assign x (fresh_board x ns) b.virtual_boards;
      virtual_owner = own_all x ns b.virtual_owner;
    }

unfoldable pub virtualize : List ℕ → Boards → Boards
virtualize [] b = b
virtualize (x ∷ xs) b = virtualize xs (virtualize_one x b)

-- FinalizeConfiguredBoardPresence, and EnsureConfiguredBoardPresenceKnown.
unfoldable pub finalize_presence : Boards → Boards
finalize_presence b =
    if b.finalized
    then b
    else record (virtualize b.configured (record b { virtual_boards = []; virtual_owner = [] })) {
      finalized = true;
    }

unfoldable pub finalize_configured_board_presence : Comm → Comm
finalize_configured_board_presence c = with_boards (finalize_presence c.boards) c

unfoldable pub is_board_present : ℕ → Boards → Bool
is_board_present n b = mem n b.present

abbrev pub is_some {ℓ} : {A : Type ℓ} → Option A → Bool
is_some none = false
is_some (some a) = true

unfoldable pub is_board_virtualized : ℕ → Comm → Bool × Comm
is_board_virtualized n c =
    let c' = finalize_configured_board_presence c in
    (is_some (lookup n c'.boards.virtual_boards), c')

unfoldable pub is_switch_virtualized : ℕ → Comm → Bool × Comm
is_switch_virtualized n c =
    let c' = finalize_configured_board_presence c in
    (is_some (lookup n c'.boards.virtual_owner), c')

-- The loop of GetMissingConfiguredBoards.
unfoldable pub missing_from : Boards → List ℕ → List ℕ
missing_from b [] = []
missing_from b (x ∷ xs) =
    let rest = missing_from b xs in if mem x b.skipped || mem x b.present then rest else x ∷ rest

unfoldable pub get_missing_configured_boards : Boards → List ℕ
unfolding missing_from
get_missing_configured_boards b = missing_from b b.configured

-- GetLogicalNextSwitchBoard, from the rest of the list on.
unfoldable pub next_after : ℕ → ℕ → List ℕ → ℕ
next_after none_left board [] = none_left
next_after none_left board (b ∷ []) = none_left
next_after none_left board (b ∷ n ∷ bs) =
    if b == board then n else next_after none_left board (n ∷ bs)

unfoldable pub get_logical_next : Protocol → ℕ → Boards → ℕ
unfolding next_after
get_logical_next p board b = next_after p.no_board board b.switch_boards

-- NoteSwitchActivity: any switch but a button puts the refresh off.
unfoldable pub note_switch_activity : ℕ → Comm → Comm
note_switch_activity n c =
    if c.switches.refresh_idle_ms == 0 || mem n c.switches.button_numbers
    then c
    else (let (t, w) = now c.world in
        record c {
          switches = record (c.switches) {
            next_refresh_at = some (t + c.switches.refresh_idle_ms * 1000);
          };
          world = w;
        })

module _ (p : Protocol) where
  -- The masks of RebuildSwitchOwnershipMasks.
  unfoldable pub own_bits : List (ℕ × ℕ) → List ℕ → List ℕ → List ℕ
  own_bits index [] mask = mask
  own_bits index (n ∷ ns) mask =
      own_bits index ns
        (elim (lookup n index) [ none ↦ mask | some i ↦ p.set_bitmap_bit mask i true ])

  unfoldable pub masks_from : List (ℕ × ℕ) → List (ℕ × List ℕ) → List (List ℕ) → List (List ℕ)
  masks_from index [] masks = masks
  masks_from index ((b, ns) ∷ rest) masks =
      masks_from index rest
        (if leb max_boards b then masks else set masks b (own_bits index ns (get_or masks b [])))

  unfoldable pub rebuild_ownership_masks : Comm → Comm
  unfolding own_bits masks_from
  rebuild_ownership_masks c =
      with_boards
        (record (c.boards) {
          ownership_masks =
              masks_from c.mappings.switch_number_to_index c.boards.switch_numbers_by_board
                (replicate max_boards (replicate p.max_switch_bytes 0));
        })
        c

  unfoldable pub set_switch_numbers_by_board : List (ℕ × List ℕ) → Comm → Comm
  set_switch_numbers_by_board m c =
      let c' =
        rebuild_ownership_masks
          (with_boards (record (c.boards) { switch_numbers_by_board = m }) c) in
      with_boards (record (c'.boards) { finalized = false }) c'

-- The place of a switch among those of its board.
unfoldable pub place_of : ℕ → List ℕ → Option ℕ
place_of n [] = none
place_of n (m ∷ ms) =
    if m == n then some 0 else elim (place_of n ms) [ none ↦ none | some i ↦ some (i + 1) ]

abbrev pub normalized : ℕ → ℕ
normalized s = if s == 0 then 0 else 1

-- `map[numbers[i]] = i` for i from `i` on; the lists have fewer than 2 ^ 16 entries.
unfoldable pub index_from : ℕ → List ℕ → List (ℕ × ℕ) → List (ℕ × ℕ)
index_from i [] m = m
index_from i (n ∷ ns) m = index_from (i + 1) ns (assign n i m)

module _ (p : Protocol) where
  unfoldable pub set_mappings : List ℕ → List ℕ → List ℕ → Comm → Comm
  unfolding index_from
  set_mappings coils lamps switches c = rebuild_ownership_masks p (record c {
    mappings = record {
      coil_index_to_number = coils;
      lamp_index_to_number = lamps;
      switch_index_to_number = switches;
      coil_number_to_index = index_from 0 coils [];
      lamp_number_to_index = index_from 0 lamps [];
      switch_number_to_index = index_from 0 switches [];
    };
  })

  -- The change of state in SetVirtualSwitchState.
  unfoldable pub change_virtual : ℕ → ℕ → ℕ → ℕ → VirtualBoard → Comm → Comm
  change_virtual n s owner i v c =
      let c1 =
        with_boards
          (record (c.boards) {
            virtual_boards =
                assign owner (record v { switch_states = set v.switch_states i s; dirty = true })
                  c.boards.virtual_boards;
          })
          c in
      let c2 = note_switch_activity n c1 in
      with_switches
        (record (c2.switches) {
          switch_bitmap = elim (lookup n c2.mappings.switch_number_to_index) [
            | none ↦ c2.switches.switch_bitmap
            | some j ↦
                if ltb j p.max_switch_bits
                then p.set_bitmap_bit c2.switches.switch_bitmap j (s != 0)
                else c2.switches.switch_bitmap
          ];
          queue = push c2.switches.queue (record { number = n; state = s });
        })
        c2

  unfoldable pub set_on_board : ℕ → ℕ → ℕ → VirtualBoard → Comm → Bool × Comm
  unfolding change_virtual place_of
  set_on_board n state owner v c = elim (place_of n v.switch_numbers) [
    | none ↦ (false, c)
    | some i ↦
        if get_or v.switch_states i 0 == normalized state
        then (true, c)
        else (true, change_virtual n (normalized state) owner i v c)
  ]

  -- SetVirtualSwitchState
  unfoldable pub set_virtual_switch_state : ℕ → ℕ → Comm → Bool × Comm
  unfolding set_on_board
  set_virtual_switch_state n state c =
      let c' = finalize_configured_board_presence c in
      elim (lookup n c'.boards.virtual_owner) [
        | none ↦ (false, c')
        | some owner ↦ elim (lookup owner c'.boards.virtual_boards) [
          | none ↦ (false, c')
          | some v ↦ set_on_board n state owner v c'
        ]
      ]
