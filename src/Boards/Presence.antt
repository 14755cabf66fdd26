-- ===== src/Boards/Presence.antt =====
-- After the configuration the host stands in for exactly the configured boards that did not answer.
use libppuc.Common.{
  ℕ, ◌≡◌, refl, ap, ◌∙◌, false, not, ◌&&◌, Option, none, some, List, [], ◌∷◌, mem, if◌then◌else◌,
  ◌==◌, arith,
}
use libppuc.Common.Maps.{lookup, assign, lookup-assign}
use libppuc.State.{Boards}
use libppuc.Boards.{virtualize_one, own_all, numbers_of, fresh_board, virtualize, finalize_presence}

present-virtualize_one : (x : ℕ) (b : Boards) → (virtualize_one x b).present ≡ b.present
unfolding virtualize_one
present-virtualize_one x b = ground arith

numbers-virtualize_one :
    (x : ℕ) (b : Boards) → (virtualize_one x b).switch_numbers_by_board ≡ b.switch_numbers_by_board
unfolding virtualize_one
numbers-virtualize_one x b = ground arith

boards-virtualize_one :
    (n x : ℕ) (b : Boards)
    → lookup n (virtualize_one x b).virtual_boards ≡ (
        if x == n && not (mem x b.present)
        then some (fresh_board x (numbers_of x b.switch_numbers_by_board))
        else lookup n b.virtual_boards)
unfolding virtualize_one
boards-virtualize_one n x b = ground (
  arith,
  lookup-assign x n (fresh_board x (numbers_of x b.switch_numbers_by_board)) b.virtual_boards,
)

-- What the loop adds to the boards that are virtual.
boards-virtualize :
    (n : ℕ) (xs : List ℕ) (b : Boards)
    → lookup n (virtualize xs b).virtual_boards ≡ (
        if mem n xs && not (mem n b.present)
        then some (fresh_board n (numbers_of n b.switch_numbers_by_board))
        else lookup n b.virtual_boards)
unfolding virtualize
boards-virtualize n [] b = refl
boards-virtualize n (x ∷ xs) b = ground (
  arith,
  boards-virtualize n xs (virtualize_one x b),
  boards-virtualize_one n x b,
  present-virtualize_one x b,
  numbers-virtualize_one x b,
)

-- A board that is finalized for the first time has a virtual board exactly if it is configured and
-- not present: one with all its switches open.
pub virtual_boards-finalize_presence :
    (n : ℕ) (b : Boards)
    → b.finalized ≡ false
    → lookup n (finalize_presence b).virtual_boards ≡ (
        if mem n b.configured && not (mem n b.present)
        then some (fresh_board n (numbers_of n b.switch_numbers_by_board))
        else none)
unfolding finalize_presence
virtual_boards-finalize_presence n b h =
    ground (
      arith,
      boards-virtualize n b.configured (record b { virtual_boards = []; virtual_owner = [] }),
    )

-- Which switches a loop over numbers gives to a board.
owner-own_all :
    (n b : ℕ) (ns : List ℕ) (m : List (ℕ × ℕ))
    → lookup n (own_all b ns m) ≡ (if mem n ns then some b else lookup n m)
unfolding own_all
owner-own_all n b [] m = refl
owner-own_all n b (k ∷ ns) m =
    ground (arith, owner-own_all n b ns (assign k b m), lookup-assign k n b m)

-- The board that owns a switch: the last configured board in `xs` that is not present and lists it.
abbrev pub last_owner : ℕ → Boards → List ℕ → Option ℕ → Option ℕ
last_owner n b [] o = o
last_owner n b (x ∷ xs) o =
    last_owner n b xs (
      if not (mem x b.present) && mem n (numbers_of x b.switch_numbers_by_board) then some x else o)

owner-virtualize_one :
    (n x : ℕ) (b : Boards)
    → lookup n (virtualize_one x b).virtual_owner ≡ (
        if not (mem x b.present) && mem n (numbers_of x b.switch_numbers_by_board)
        then some x
        else lookup n b.virtual_owner)
unfolding virtualize_one
owner-virtualize_one n x b =
    ground (arith, owner-own_all n x (numbers_of x b.switch_numbers_by_board) b.virtual_owner)

last_owner-virtualize_one :
    (n x : ℕ) (b : Boards) (ys : List ℕ) (o : Option ℕ)
    → last_owner n (virtualize_one x b) ys o ≡ last_owner n b ys o
last_owner-virtualize_one n x b [] o = refl
last_owner-virtualize_one n x b (y ∷ ys) o =
    rw (present-virtualize_one x b, numbers-virtualize_one x b)
      (last_owner-virtualize_one n x b ys _)

owner-virtualize :
    (n : ℕ) (xs : List ℕ) (b : Boards)
    → lookup n (virtualize xs b).virtual_owner ≡ last_owner n b xs (lookup n b.virtual_owner)
unfolding virtualize
owner-virtualize n [] b = refl
owner-virtualize n (x ∷ xs) b =
    owner-virtualize n xs (virtualize_one x b)
    ∙ (last_owner-virtualize_one n x b xs _ ∙ ap (last_owner n b xs) (owner-virtualize_one n x b))

last_owner_cleared :
    (n : ℕ) (b : Boards) (xs : List ℕ) (o : Option ℕ)
    → last_owner n (record b { virtual_boards = []; virtual_owner = [] }) xs o ≡ last_owner n b xs o
last_owner_cleared n b [] o = refl
last_owner_cleared n b (x ∷ xs) o = last_owner_cleared n b xs _

-- Once the presence is finalized, the host answers for a switch exactly if a configured board that
-- is not present lists it, and holds the last such board for its owner.
pub virtual_owner-finalize_presence :
    (n : ℕ) (b : Boards)
    → b.finalized ≡ false
    → lookup n (finalize_presence b).virtual_owner ≡ last_owner n b b.configured none
unfolding finalize_presence
virtual_owner-finalize_presence n b h = ground (
  arith,
  last_owner_cleared n b b.configured none,
  owner-virtualize n b.configured (record b { virtual_boards = []; virtual_owner = [] }),
)
