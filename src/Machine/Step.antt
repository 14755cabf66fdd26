-- ===== src/Machine/Step.antt =====
-- Code of `class PPUC` that changes its members, and may throw, return early, or write past a buffer.
use Prim.{Unit, tt}
use libppuc.Yaml.{Failure, Result, ok, err}
use libppuc.Common.{Bool, true, false, List, [], ◌∷◌}

-- `aborted` is the early `return false`.
pub data Outcome (A : Type 0) : Type 0 where
  value : A → Outcome A
  thrown : Failure → Outcome A
  aborted overflow : Outcome A

abbrev pub M : Type 0 → Type 0 → Type 0
M S A = S → Outcome A × S

-- What follows a step, on the state that it left.
abbrev pub follow : {S A B : Type 0} → (A → M S B) → Outcome A × S → Outcome B × S
follow f (value a, s) = f a s
follow f (thrown e, s) = (thrown e, s)
follow f (aborted, s) = (aborted, s)
follow f (overflow, s) = (overflow, s)

infixl 5 ◌>>=◌ ◌>>◌
unfoldable pub ◌>>=◌ : {S A B : Type 0} → M S A → (A → M S B) → M S B
◌>>=◌ m f s = follow f (m s)

abbrev pub ◌>>◌ : {S B : Type 0} → M S (Unit {0}) → M S B → M S B
m >> k = m >>= λ _. k

unfoldable pub pure : {S A : Type 0} → A → M S A
pure a s = (value a, s)

unfoldable pub lift : {S A : Type 0} → Result A → M S A
lift (ok a) s = (value a, s)
lift (err e) s = (thrown e, s)

unfoldable pub modify : {S : Type 0} → (S → S) → M S (Unit {0})
modify f s = (value tt, f s)

unfoldable pub get : {S : Type 0} → M S S
get s = (value s, s)

unfoldable pub abort_if : {S : Type 0} → Bool → M S (Unit {0})
abort_if true s = (aborted, s)
abort_if false s = (value tt, s)

-- `if (!b) return false`
unfoldable pub demand : {S : Type 0} → Bool → M S (Unit {0})
demand true s = (value tt, s)
demand false s = (aborted, s)

-- A loop over a list.
unfoldable pub for_each : {S A : Type 0} → (A → M S (Unit {0})) → List A → M S (Unit {0})
for_each f [] = pure tt
for_each f (a ∷ rest) = f a >> for_each f rest
