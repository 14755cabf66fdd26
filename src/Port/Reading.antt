-- ===== src/Port/Reading.antt =====
-- What the readExact lambdas of src/RS485Comm.cpp make of partial reads.
use libppuc.Common.{
  ℕ, zero, suc, ◌+◌, ◌-◌, ◌≤◌, ◌<◌, ◌≡◌, refl, sym, ap, ◌∙◌, some, List, [], ◌∷◌, ◌++◌, length,
  take, drop, min, arith, length-append, length-take,
}
use mathlib.Core.List.{append_assoc}
use libppuc.State.{World}
use libppuc.Port.{blocking_read, read_rest, read_exact}

-- A list cut in two.
pub take-append-drop {ℓ} : {A : Type ℓ} (n : ℕ) (xs : List A) → take n xs ++ drop n xs ≡ xs
take-append-drop zero xs = refl
take-append-drop (suc n) [] = refl
take-append-drop (suc n) (x ∷ xs) = ap (λ l. x ∷ l) (take-append-drop n xs)

-- One read takes a prefix of the input that is no longer than asked for.
pub blocking_read_lem :
    (k : ℕ) (w : World)
    → let (b, w') = blocking_read k w in (b ++ w'.input ≡ w.input) × (length b ≤ k)
unfolding blocking_read
blocking_read_lem k w =
    (take-append-drop _ w.input, omega (arith, length-take (min (w.chunk w.calls) k) w.input))

-- What a successful `read_rest` returns: the bytes before, then the next `k` of the input.
read_rest_lem :
    (fuel k : ℕ) (got b : List ℕ) (w : World)
    → (read_rest fuel got k w).0 ≡ some b
    → (length b ≡ length got + k) × (b ++ (read_rest fuel got k w).1.input ≡ got ++ w.input)
unfolding read_rest
read_rest_lem zero k got b w h = ground (arith)
read_rest_lem (suc fuel) k got b w h = ground (
  arith,
  blocking_read_lem k w,
  length-append got (blocking_read k w).0,
  append_assoc got (blocking_read k w).0 (blocking_read k w).1.input,
  read_rest_lem fuel (k - length (blocking_read k w).0) (got ++ (blocking_read k w).0) b
      (blocking_read k w).1,
)

-- What `readExact` returns is the next `k` bytes of the input, in order, and it takes no others.
pub read_exact_lem :
    (k : ℕ) (b : List ℕ) (w : World)
    → (read_exact k w).0 ≡ some b
    → (length b ≡ k) × (b ++ (read_exact k w).1.input ≡ w.input)
unfolding read_exact
read_exact_lem k b w h = ground (arith, read_rest_lem k k [] b w h)

-- A port that delivers something at each read while bytes are left.
abbrev pub Delivers : World → Type 0
Delivers w = (n : ℕ) → 1 ≤ w.chunk n

blocking_read_progress :
    (k : ℕ) (w : World) → Delivers w → 0 < k → k ≤ length w.input → 0 < length (blocking_read k w).0
unfolding blocking_read
blocking_read_progress k w d p h =
    omega (arith, length-take (min (w.chunk w.calls) k) w.input, d w.calls)

chunk-blocking_read : (k : ℕ) (w : World) → (blocking_read k w).1.chunk ≡ w.chunk
unfolding blocking_read
chunk-blocking_read k w = refl

length_rest :
    (k : ℕ) (w : World)
    → length (blocking_read k w).0 + length (blocking_read k w).1.input ≡ length w.input
length_rest k w =
    sym (length-append (blocking_read k w).0 (blocking_read k w).1.input)
    ∙ ap length (blocking_read_lem k w).0

read_rest_total :
    (fuel k : ℕ) (got : List ℕ) (w : World)
    → k ≤ fuel
    → Delivers w
    → k ≤ length w.input
    → (b : List ℕ) × ((read_rest fuel got k w).0 ≡ some b)
unfolding read_rest
read_rest_total zero k got w f d h = (got, ground arith)
read_rest_total (suc fuel) zero got w f d h = (got, refl)
read_rest_total (suc fuel) (suc k) got w f d h =
    let (b, e) =
      read_rest_total fuel (suc k - length (blocking_read (suc k) w).0)
        (got ++ (blocking_read (suc k) w).0) (blocking_read (suc k) w).1
        (omega (arith, blocking_read_progress (suc k) w d (omega arith) h))
        (λ n. rw chunk-blocking_read (d n))
        (omega (arith, length_rest (suc k) w, (blocking_read_lem (suc k) w).1)) in
    (b, ground (arith, blocking_read_progress (suc k) w d (omega arith) h, e))

-- However the port cuts the bytes up, `readExact` gets all that it asks for if they arrive.
pub read_exact_total :
    (k : ℕ) (w : World)
    → Delivers w
    → k ≤ length w.input
    → (b : List ℕ) × ((read_exact k w).0 ≡ some b)
      × (length b ≡ k)
      × (b ++ (read_exact k w).1.input ≡ w.input)
read_exact_total k w d h = let (b, e) = total in let r = read_exact_lem k b w e in (b, e, r.0, r.1)
  where
    total : (b : List ℕ) × ((read_exact k w).0 ≡ some b)
    total = unfold read_exact in read_rest_total k k [] w (omega arith) d h

-- Reading writes nothing.
sent-read_rest :
    (fuel : ℕ) (got : List ℕ) (k : ℕ) (w : World) → (read_rest fuel got k w).1.sent ≡ w.sent
unfolding read_rest blocking_read
sent-read_rest zero got k w = refl
sent-read_rest (suc fuel) got k w = ground (
  arith,
  sent-read_rest fuel (got ++ (blocking_read k w).0) (k - length (blocking_read k w).0)
      (blocking_read k w).1,
)

pub sent-read_exact : (k : ℕ) (w : World) → (read_exact k w).1.sent ≡ w.sent
unfolding read_exact
sent-read_exact k w = sent-read_rest k [] k w
