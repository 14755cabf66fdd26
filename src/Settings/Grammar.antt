-- ===== src/Settings/Grammar.antt =====
-- What a colour of the configuration file looks like, for src/PPUC.cpp to accept it.
use Prim.{Unit}
use libppuc.Common.{ℕ, ◌+◌, ◌-◌, ◌*◌, ◌^◌, ◌≤◌, ◌<◌, ◌≡◌, ◌⊎◌, [], ◌∷◌, if◌then◌else◌, ltb}
use libppuc.Common.Text.{Text}

-- A hexadecimal digit, and what digits stand for, after the value so far.
abbrev pub IsHex : ℕ → Type 0
IsHex c = ((b'0' ≤ c) × (c ≤ b'9')) ⊎ ((b'a' ≤ c) × (c ≤ b'f')) ⊎ ((b'A' ≤ c) × (c ≤ b'F'))

abbrev pub value_of : ℕ → ℕ
value_of c = if ltb c b'A' then c - b'0' else if ltb c b'a' then c - b'A' + 10 else c - b'a' + 10

abbrev pub number_of : ℕ → Text → ℕ
number_of v [] = v
number_of v (c ∷ s) = number_of (v * 16 + value_of c) s

abbrev pub AllHex : Text → Type 0
AllHex [] = Unit
AllHex (c ∷ s) = IsHex c × AllHex s

-- At least one digit, and a value of 32 bits.
pub record Digits (s : Text) : Type 0 where
  pub first : ℕ
  pub others : Text
  pub all : s ≡ first ∷ others
  pub hex : IsHex first
  pub rest : AllHex others
  pub fits : number_of 0 (first ∷ others) < 2 ^ 32

pub data Prefixed : Text → Type 0 where
  bare : {s : Text} → Digits s → Prefixed s
  small_x : {s : Text} → Digits s → Prefixed (b'0' ∷ b'x' ∷ s)
  large_x : {s : Text} → Digits s → Prefixed (b'0' ∷ b'X' ∷ s)

pub data Signed : Text → Type 0 where
  unsigned : {s : Text} → Prefixed s → Signed s
  plus : {s : Text} → Prefixed s → Signed (b'+' ∷ s)
  minus : {s : Text} → Prefixed s → Signed (b'-' ∷ s)

pub data Spaced : Text → Type 0 where
  here : {s : Text} → Signed s → Spaced s
  space : {c : ℕ} {s : Text} → (c ≡ b' ') ⊎ ((9 ≤ c) × (c ≤ 13)) → Spaced s → Spaced (c ∷ s)

-- A colour: spaces, a sign and `0x` may stand before the digits, and `#` before all that.
pub data IsColor : Text → Type 0 where
  plain : {s : Text} → Spaced s → IsColor s
  hash : {s : Text} → Spaced s → IsColor (b'#' ∷ s)
