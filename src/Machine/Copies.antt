-- ===== src/Machine/Copies.antt =====
-- `strcpy` into the buffers of src/PPUC.cpp: what fits, and what does not.

use libppuc.Common.{ℕ, ◌≤◌, ◌<◌, ◌≡◌, refl, true, false, length, ltb, arith}
use libppuc.Common.Text.{Text}
use libppuc.Machine.Step.{value, overflow, pure}
use libppuc.Machine.{until_nul, strcpy}

pub strcpy-fits :
    {S : Type 0} (size : ℕ) (t : Text) (s : S)
    → length (until_nul t) < size
    → strcpy size t s ≡ (value (until_nul t), s)
unfolding strcpy pure
strcpy-fits size t s h =
    let e : ltb (length (until_nul t)) size ≡ true = ground arith in rw (e, strcpy) refl

pub strcpy-overflows :
    {S : Type 0} (size : ℕ) (t : Text) (s : S)
    → size ≤ length (until_nul t)
    → strcpy size t s ≡ (overflow, s)
unfolding strcpy pure
strcpy-overflows size t s h =
    let e : ltb (length (until_nul t)) size ≡ false = ground arith in rw (e, strcpy) refl
