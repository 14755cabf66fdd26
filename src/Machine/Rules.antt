-- ===== src/Machine/Rules.antt =====
-- Rules for invariants of code that changes the members of `class PPUC`, over Machine/Step.
use Prim.{Unit, tt}
use libppuc.Common.{Bool, true, false, List, [], ◌∷◌, if◌then◌else◌}
use libppuc.Yaml.{Result, ok, err}
use libppuc.Machine.Step.{
  Outcome, value, thrown, aborted, overflow, M, follow, ◌>>=◌, ◌>>◌, pure, lift, modify, get,
  abort_if, demand, for_each,
}

-- `R` holds of the value, where there is one.
abbrev pub On : {A : Type 0} → (A → Type 0) → Outcome A → Type 0
On R (value a) = R a
On R (thrown e) = Unit
On R aborted = Unit
On R overflow = Unit

module _ {S : Type 0} (Q : S → Type 0) where
  -- The step keeps `Q`, whatever its outcome, and yields a value of which `R` holds.
  pub record Yields {A : Type 0} (R : A → Type 0) (m : M S A) : Type 0 where
    pub run : (s : S) → Q s → Q (m s).1 × On R (m s).0

  -- The step keeps `Q`.
  pub record Keeps {A : Type 0} (m : M S A) : Type 0 where
    pub run : (s : S) → Q s → Q (m s).1

  follow_yielded-Keeps :
      {A B : Type 0} (R : A → Type 0) (f : A → M S B) (r : Outcome A × S)
      → ((a : A) → R a → Keeps (f a))
      → Q r.1
      → On R r.0
      → Q (follow f r).1
  follow_yielded-Keeps R f (value a, s) k q x = (k a x).run s q
  follow_yielded-Keeps R f (thrown e, s) k q x = q
  follow_yielded-Keeps R f (aborted, s) k q x = q
  follow_yielded-Keeps R f (overflow, s) k q x = q

  follow-Keeps :
      {A B : Type 0} (f : A → M S B) (r : Outcome A × S)
      → ((a : A) → Keeps (f a))
      → Q r.1
      → Q (follow f r).1
  follow-Keeps f (value a, s) k q = (k a).run s q
  follow-Keeps f (thrown e, s) k q = q
  follow-Keeps f (aborted, s) k q = q
  follow-Keeps f (overflow, s) k q = q

  pub yield-Keeps :
      {A B : Type 0} (R : A → Type 0) (m : M S A) (f : A → M S B)
      → Yields R m
      → ((a : A) → R a → Keeps (f a))
      → Keeps (m >>= f)
  unfolding ◌>>=◌
  yield-Keeps R m f h k = record {
    run = λ s q. let (q', x) = h.run s q in follow_yielded-Keeps R f (m s) k q' x;
  }

  pub bind-Keeps :
      {A B : Type 0} (m : M S A) (f : A → M S B)
      → Keeps m
      → ((a : A) → Keeps (f a))
      → Keeps (m >>= f)
  unfolding ◌>>=◌
  bind-Keeps m f h k = record { run = λ s q. follow-Keeps f (m s) k (h.run s q) }

  follow-Yields :
      {A B : Type 0} (R : A → Type 0) (T : B → Type 0) (f : A → M S B) (r : Outcome A × S)
      → ((a : A) → R a → Yields T (f a))
      → Q r.1
      → On R r.0
      → Q (follow f r).1 × On T (follow f r).0
  follow-Yields R T f (value a, s) k q x = (k a x).run s q
  follow-Yields R T f (thrown e, s) k q x = (q, tt)
  follow-Yields R T f (aborted, s) k q x = (q, tt)
  follow-Yields R T f (overflow, s) k q x = (q, tt)

  pub bind-Yields :
      {A B : Type 0} (R : A → Type 0) (T : B → Type 0) (m : M S A) (f : A → M S B)
      → Yields R m
      → ((a : A) → R a → Yields T (f a))
      → Yields T (m >>= f)
  unfolding ◌>>=◌
  bind-Yields R T m f h k = record {
    run = λ s q. let (q', x) = h.run s q in follow-Yields R T f (m s) k q' x;
  }

  On-Any : {A : Type 0} (o : Outcome A) → On (λ a. Unit) o
  On-Any (value a) = tt
  On-Any (thrown e) = tt
  On-Any aborted = tt
  On-Any overflow = tt

  pub keep-Yields : {A : Type 0} (m : M S A) → Keeps m → Yields (λ a. Unit) m
  keep-Yields m h = record { run = λ s q. (h.run s q, On-Any (m s).0) }

  pub pure-Yields : {A : Type 0} (R : A → Type 0) (a : A) → R a → Yields R (pure a)
  unfolding pure
  pure-Yields R a h = record { run = λ s q. (q, h) }

  pub get-Yields :
      {B : Type 0} (T : B → Type 0) (f : S → M S B)
      → ((t : S) → Q t → Yields T (f t))
      → Yields T (get >>= f)
  unfolding ◌>>=◌ get
  get-Yields T f k = record { run = λ s q. (k s q).run s q }

  pub then-Keeps :
      {B : Type 0} (m : M S (Unit {0})) (k : M S B) → Keeps m → Keeps k → Keeps (m >> k)
  then-Keeps m k h g = bind-Keeps m (λ _. k) h (λ _. g)

  pub get-Keeps : {B : Type 0} (f : S → M S B) → ((t : S) → Q t → Keeps (f t)) → Keeps (get >>= f)
  unfolding ◌>>=◌ get
  get-Keeps f k = record { run = λ s q. (k s q).run s q }

  pub pure-Keeps : {A : Type 0} (a : A) → Keeps (pure a)
  unfolding pure
  pure-Keeps a = record { run = λ s q. q }

  pub lift-Keeps : {A : Type 0} (r : Result A) → Keeps (lift r)
  unfolding lift
  lift-Keeps (ok a) = record { run = λ s q. q }
  lift-Keeps (err e) = record { run = λ s q. q }

  pub modify-Keeps : (f : S → S) → ((s : S) → Q s → Q (f s)) → Keeps (modify f)
  unfolding modify
  modify-Keeps f h = record { run = h }

  pub abort_if-Keeps : (b : Bool) → Keeps (abort_if b)
  unfolding abort_if
  abort_if-Keeps true = record { run = λ s q. q }
  abort_if-Keeps false = record { run = λ s q. q }

  pub demand-Keeps : (b : Bool) → Keeps (demand b)
  unfolding demand
  demand-Keeps true = record { run = λ s q. q }
  demand-Keeps false = record { run = λ s q. q }

  pub if-Keeps :
      {A : Type 0} (b : Bool) (m k : M S A) → Keeps m → Keeps k → Keeps (if b then m else k)
  if-Keeps true m k h g = h
  if-Keeps false m k h g = g

  pub for_each-Keeps :
      {A : Type 0} (f : A → M S (Unit {0})) (xs : List A)
      → ((a : A) → Keeps (f a))
      → Keeps (for_each f xs)
  unfolding for_each
  for_each-Keeps f [] h = pure-Keeps tt
  for_each-Keeps f (a ∷ rest) h =
      bind-Keeps (f a) (λ _. for_each f rest) (h a) (λ _. for_each-Keeps f rest h)

  pub ruleset keep = (
    bind-Keeps, get-Keeps, pure-Keeps, lift-Keeps, modify-Keeps, abort_if-Keeps, demand-Keeps,
    if-Keeps, for_each-Keeps,
  )
