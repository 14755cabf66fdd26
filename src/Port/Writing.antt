-- ===== src/Port/Writing.antt =====
-- What a successful `WriteBytes` of src/RS485Comm.cpp has written.
use Prim.Native.String.{String}
use libppuc.Common.{
  ℕ, ◌≡◌, refl, ap, ◌∙◌, inl, inr, true, some, List, [], ◌∷◌, length, take, push, ◌==◌, arith,
  Bool-cases, Option-cases,
}
use libppuc.State.{Comm}
use libppuc.Port.{blocking_write, write_result, write_bytes}

pub take_all : (xs : List ℕ) → take (length xs) xs ≡ xs
take_all [] = refl
take_all (x ∷ xs) = ap (λ l. x ∷ l) (take_all xs)

write_result_lem :
    (s : String) (b : List ℕ) (c : Comm) (n : ℕ)
    → (write_result s b c (some n)).0 ≡ true
    → (n ≡ length b) × ((write_result s b c (some n)).1 ≡ c)
unfolding write_result
write_result_lem s b c n = elim (Bool-cases (n == length b)) [
  | inl e ↦ rw (e, write_result) (λ h. (ground arith, refl))
  | inr e ↦ rw (e, write_result) (λ h. cc)
]

-- A frame that was written is the last one sent, as a whole.
pub sent-write_bytes :
    (s : String) (b : List ℕ) (c : Comm)
    → (write_bytes s b c).0 ≡ true
    → (write_bytes s b c).1.world.sent ≡ push c.world.sent b
unfolding write_bytes blocking_write
sent-write_bytes s b c = elim (Bool-cases c.port_open) [
  | inr e ↦ rw (e, write_bytes) (λ h. cc)
  | inl e ↦ elim (Option-cases (c.world.accepts c.world.calls (length b))) [
    | inl f ↦ rw (e, f, write_bytes, blocking_write, write_result) (λ h. cc)
    | inr (n, f) ↦
        rw (e, f, write_bytes, blocking_write)
          (λ h.
            let (q, r) = write_result_lem s b _ n h in
            ap (λ (d : Comm). d.world.sent) r
            ∙ (ap (λ i. push c.world.sent (take i b)) q ∙ ap (push c.world.sent) (take_all b)))
  ]
]
