-- ===== src/Boards/Order.antt =====
-- The order of the switch chain: `SetActiveSwitchBoards` and `GetLogicalNextSwitchBoard`.
use libppuc.Common.{
  ℕ, zero, suc, ◌+◌, ◌≡◌, refl, sym, false, List, [], ◌∷◌, ◌++◌, length, push, mem, if◌then◌else◌,
  ltb, arith, length-append,
}
use mathlib.Core.List.{append_assoc, append-nil}
use libppuc.Boards.{active_from, next_after}

-- The boards up to the first that the table has no place for, `room` of them at most.
abbrev pub prefix : ℕ → List ℕ → List ℕ
prefix zero bs = []
prefix (suc room) [] = []
prefix (suc room) (b ∷ bs) = if ltb b 8 then b ∷ prefix room bs else []

prefix-nil : (room : ℕ) → prefix room [] ≡ []
prefix-nil zero = refl
prefix-nil (suc room) = refl

active_from-prefix :
    (room : ℕ) (acc bs : List ℕ)
    → length acc + room ≡ 8
    → active_from acc bs ≡ acc ++ prefix room bs
unfolding active_from
active_from-prefix room acc [] h = rw (prefix-nil room) (sym (append-nil acc))
active_from-prefix zero acc (b ∷ bs) h = ground (arith, append-nil acc)
active_from-prefix (suc room) acc (b ∷ bs) h = ground (
  arith,
  append-nil acc,
  append_assoc acc (b ∷ []) (prefix room bs),
  length-append acc (b ∷ []),
  active_from-prefix room (push acc b) bs,
)

-- The chain is the boards in their configured order, up to the eighth and up to the first whose
-- number is 8 or more.
pub active-eq-prefix : (bs : List ℕ) → active_from [] bs ≡ prefix 8 bs
active-eq-prefix bs = active_from-prefix 8 [] bs refl

-- From the first place of a board in the chain the token goes to the board behind it, and from the
-- last place to no board.
pub next_after-append :
    (none_left b : ℕ) (before after : List ℕ)
    → mem b before ≡ false
    → next_after none_left b (before ++ (b ∷ after)) ≡ (elim after [ [] ↦ none_left | n ∷ _ ↦ n ])
unfolding next_after
next_after-append none_left b [] [] h = refl
next_after-append none_left b [] (n ∷ after) h = ground arith
next_after-append none_left b (x ∷ []) after h =
    ground (arith, next_after-append none_left b [] after)
next_after-append none_left b (x ∷ y ∷ before) after h =
    ground (arith, next_after-append none_left b (y ∷ before) after)
