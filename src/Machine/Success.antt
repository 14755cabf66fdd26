-- ===== src/Machine/Success.antt =====
-- What holds after code that changes the members of `class PPUC`, where it ends with a value.
use Prim.{Unit}
use libppuc.Common.{◌≡◌, refl, Bool, true, false}
use libppuc.Machine.Rules.{Keeps}
use libppuc.Machine.Step.{Outcome, value, thrown, aborted, overflow, M, follow, ◌>>=◌, abort_if}

module _ {S : Type 0} (Q : S → Type 0) where
  -- `Q` holds where the step ends with a value.
  pub record Ensures {A : Type 0} (m : M S A) : Type 0 where
    pub run : (s : S) (a : A) → (m s).0 ≡ value a → Q (m s).1

  follow-Ensures :
      {A B : Type 0} (f : A → M S B) (r : Outcome A × S) (b : B)
      → ((a : A) → Ensures (f a))
      → (follow f r).0 ≡ value b
      → Q (follow f r).1
  follow-Ensures f (value a, s) b k e = (k a).run s b e
  follow-Ensures f (thrown x, s) b k e = cc
  follow-Ensures f (aborted, s) b k e = cc
  follow-Ensures f (overflow, s) b k e = cc

  pub bind-Ensures :
      {A B : Type 0} (m : M S A) (f : A → M S B) → ((a : A) → Ensures (f a)) → Ensures (m >>= f)
  unfolding ◌>>=◌
  bind-Ensures m f k = record { run = λ s b e. follow-Ensures f (m s) b k e }

  kept :
      {A B : Type 0} (f : A → M S B) (r : Outcome A × S) (b : B)
      → ((a : A) → r.0 ≡ value a → Q r.1)
      → ((a : A) → Keeps Q (f a))
      → (follow f r).0 ≡ value b
      → Q (follow f r).1
  kept f (value a, s) b h k e = (k a).run s (h a refl)
  kept f (thrown x, s) b h k e = cc
  kept f (aborted, s) b h k e = cc
  kept f (overflow, s) b h k e = cc

  -- What a step ensures holds after steps that keep it.
  pub keep-Ensures :
      {A B : Type 0} (m : M S A) (f : A → M S B)
      → Ensures m
      → ((a : A) → Keeps Q (f a))
      → Ensures (m >>= f)
  unfolding ◌>>=◌
  keep-Ensures m f h k = record { run = λ s b e. kept f (m s) b (λ a q. h.run s a q) k e }

  -- A test that gives up where it finds something.
  pub abort_if_lem :
      (b : Bool) (s : S) (a : Unit {0})
      → (b ≡ false → Q s)
      → (abort_if b s).0 ≡ value a
      → Q (abort_if b s).1
  unfolding abort_if
  abort_if_lem true s a h e = cc
  abort_if_lem false s a h e = h refl
