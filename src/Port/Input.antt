-- ===== src/Port/Input.antt =====
-- The bytes on their way to the host: reads, flushes and writes of src/RS485Comm.cpp only shorten them
-- from the front.

use libppuc.Common.{
  ℕ, zero, suc, ◌-◌, ◌≡◌, refl, sym, ap, ◌∙◌, inl, inr, List, [], ◌++◌, length, take, drop, ◌==◌,
  arith, Bool-cases,
}
use mathlib.Core.List.{append_assoc}
use libppuc.State.{World}
use libppuc.Port.{blocking_read, read_rest, read_exact, blocking_write}
use libppuc.Port.Reading.{take-append-drop}

-- What is left of an input after some bytes were taken from its front.
pub record Shrinks (before after : List ℕ) : Type 0 where
  pub taken : List ℕ
  pub cut : before ≡ taken ++ after

pub Shrinks-refl : (l : List ℕ) → Shrinks l l
Shrinks-refl l = record { taken = []; cut = refl }

pub Shrinks-trans : {a b c : List ℕ} → Shrinks a b → Shrinks b c → Shrinks a c
Shrinks-trans {a} {b} {c} s t = record {
  taken = s.taken ++ t.taken;
  cut = s.cut ∙ (ap (λ l. s.taken ++ l) t.cut ∙ sym (append_assoc s.taken t.taken c));
}

pub Shrinks-drop : (n : ℕ) (l : List ℕ) → Shrinks l (drop n l)
Shrinks-drop n l = record { taken = take n l; cut = sym (take-append-drop n l) }

read_rest-Shrinks :
    (fuel k : ℕ) (got : List ℕ) (w : World) → Shrinks w.input (read_rest fuel got k w).1.input
unfolding read_rest blocking_read
read_rest-Shrinks zero k got w = Shrinks-refl w.input
read_rest-Shrinks (suc fuel) k got w =
    let (b, w') = blocking_read k w in
    let once = Shrinks-drop _ w.input in
    let more = Shrinks-trans once (read_rest-Shrinks fuel (k - length b) (got ++ b) w') in
    elim (Bool-cases (k == 0)) [
      | inl e ↦ rw (e, read_rest) (Shrinks-refl w.input)
      | inr e ↦ elim (Bool-cases (length b == 0)) [
        | inl f ↦ rw (e, f, read_rest) once
        | inr f ↦ rw (e, f, read_rest) more
      ]
    ]

pub read_exact-Shrinks : (k : ℕ) (w : World) → Shrinks w.input (read_exact k w).1.input
unfolding read_exact
read_exact-Shrinks k w = read_rest-Shrinks k k [] w

pub blocking_write-Shrinks : (b : List ℕ) (w : World) → Shrinks w.input (blocking_write b w).1.input
unfolding blocking_write
blocking_write-Shrinks b w =
    let same : (blocking_write b w).1.input ≡ w.input = ground arith in
    rw same (Shrinks-refl w.input)
