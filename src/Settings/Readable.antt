-- ===== src/Settings/Readable.antt =====
-- The stream in `ParseHexColorValue` of src/PPUC.cpp reads a number exactly where a text is a colour.
use Prim.{tt}
use libppuc.Common.{
  ℕ, ◌+◌, ◌-◌, ◌*◌, ◌%◌, ◌^◌, ◌≤◌, ◌<◌, ◌≡◌, ◌⊎◌, refl, sym, subst, ap, ◌∙◌, inl, inr, Bool, true,
  false, ◌||◌, none, some, Option, [], ◌∷◌, if◌then◌else◌, ◌==◌, ltb, arith, Bool-cases,
  Option-cases,
}
use libppuc.Common.Text.{Text}
use libppuc.Yaml.{Present}
use libppuc.Skipped.{is_space, skip_spaces, read_sign}
use libppuc.Settings.Color.{hex_digit, read_hex_digits, skip_0x, read_hex, erase_hash}
use libppuc.Settings.Grammar.{
  IsHex, AllHex, value_of, number_of, Digits, Prefixed, bare, small_x, large_x, Signed, unsigned,
  plus, minus, Spaced, here, space, IsColor, plain, hash,
}

hex_digit-IsHex : (c : ℕ) → IsHex c → hex_digit c ≡ some (value_of c)
unfolding hex_digit
hex_digit-IsHex c h = ground arith

IsHex-hex_digit : (c d : ℕ) → hex_digit c ≡ some d → IsHex c × (d ≡ value_of c)
unfolding hex_digit
IsHex-hex_digit c d h = ground arith

digits_read : (v : ℕ) (s : Text) → AllHex s → read_hex_digits v s ≡ (number_of v s, [])
unfolding read_hex_digits
digits_read v [] h = refl
digits_read v (c ∷ s) (h, hs) =
    rw (hex_digit-IsHex c h, read_hex_digits) (digits_read (v * 16 + value_of c) s hs)

read_digits_lem :
    (v : ℕ) (s : Text)
    → (read_hex_digits v s).1 ≡ []
    → AllHex s × ((read_hex_digits v s).0 ≡ number_of v s)
unfolding read_hex_digits
read_digits_lem v [] = λ h. (tt, refl)
read_digits_lem v (c ∷ s) = elim (Option-cases (hex_digit c)) [
  | inl e ↦ rw (e, read_hex_digits) (λ h. cc)
  | inr (d, e) ↦
      let (x, q) = IsHex-hex_digit c d e in
      rw (e, read_hex_digits)
        (λ h.
          let (all, r) = read_digits_lem (v * 16 + d) s h in
          ((x, all), r ∙ ap (λ i. number_of (v * 16 + i) s) q))
]

list_cases : (l : Text) → (l ≡ []) ⊎ ((x : ℕ) × (r : Text) × (l ≡ x ∷ r))
list_cases [] = inl refl
list_cases (x ∷ r) = inr (x, r, refl)

-- What is made of the text after the sign and `0x`.
abbrev finish : Bool → Text → Option ℕ
finish negative [] = none
finish negative (c ∷ u) =
    let (v, rest) = read_hex_digits 0 (c ∷ u) in
    elim (hex_digit c) [
      | none ↦ none
      | some d ↦ elim rest [
        | e ∷ r ↦ none
        | [] ↦ if ltb v (2 ^ 32) then some (if negative then (2 ^ 32 - v) % 2 ^ 32 else v) else none
      ]
    ]

read_hex_lem :
    (s : Text)
    → read_hex s ≡ finish (read_sign (skip_spaces s)).0 (skip_0x (read_sign (skip_spaces s)).1)
unfolding read_hex
read_hex_lem s = refl

finish-Digits : (negative : Bool) (s : Text) → Digits s → Present (finish negative s)
finish-Digits negative s d =
    subst (λ t. Present (finish negative t)) (sym d.all)
      (let fits : ltb (number_of 0 (d.first ∷ d.others)) (2 ^ 32) ≡ true =
          (let k = d.fits in ground arith) in
        let r = digits_read 0 (d.first ∷ d.others) (d.hex, d.rest) in
        rw (finish, hex_digit-IsHex d.first d.hex, r, r, fits) (_, refl))

Digits-finish : (negative : Bool) (s : Text) → Present (finish negative s) → Digits s
Digits-finish negative [] = λ h. (let q = h.1 in cc)
Digits-finish negative (c ∷ u) = elim (Option-cases (hex_digit c)) [
  | inl e ↦ rw (e, finish) (λ h. let q = h.1 in cc)
  | inr (d, e) ↦ elim (list_cases (read_hex_digits 0 (c ∷ u)).1) [
    | inr (x, l, f) ↦ rw (e, finish, f) (λ h. let q = h.1 in cc)
    | inl f ↦
        let (all, n) = read_digits_lem 0 (c ∷ u) f in
        elim (Bool-cases (ltb (read_hex_digits 0 (c ∷ u)).0 (2 ^ 32))) [
          | inr g ↦ rw (e, finish, f, g) (λ h. let q = h.1 in cc)
          | inl g ↦ λ h. record {
            first = c;
            others = u;
            all = refl;
            hex = all.0;
            rest = all.1;
            fits = subst (λ i. i < 2 ^ 32) n (ground arith);
          }
        ]
  ]
]

-- No digit is taken for the `x` of `0x`.
skip_0x-Digits : (s : Text) → Digits s → skip_0x s ≡ s
unfolding skip_0x
skip_0x-Digits [] d = refl
skip_0x-Digits (c ∷ []) d = refl
skip_0x-Digits (c ∷ e ∷ s) d =
    let q : IsHex e = second c e s d.first d.others d.all d.rest in
    let x : (e == b'x' || e == b'X') ≡ false = ground arith in
    elim (Bool-cases (c == b'0')) [ inl z ↦ rw (z, skip_0x, x) refl | inr z ↦ rw (z, skip_0x) refl ]
  where
    second : (c e : ℕ) (s : Text) (f : ℕ) (o : Text) → (c ∷ e ∷ s) ≡ f ∷ o → AllHex o → IsHex e
    second c e s f o q h = (let r : o ≡ e ∷ s = cc in (subst AllHex r h).0)

Digits-skip_0x : (s : Text) → Digits (skip_0x s) → Prefixed s
unfolding skip_0x
Digits-skip_0x [] = λ d. bare d
Digits-skip_0x (c ∷ []) = λ d. bare d
Digits-skip_0x (c ∷ e ∷ s) = elim (Bool-cases (c == b'0')) [
  | inr z ↦ rw (z, skip_0x) (λ d. bare d)
  | inl z ↦
      let zero_first : c ≡ b'0' = ground arith in
      elim (Bool-cases (e == b'x')) [
        | inl x ↦
            let q : e ≡ b'x' = ground arith in
            rw (z, skip_0x, x) (λ d. rw (zero_first, q) (small_x d))
        | inr x ↦ elim (Bool-cases (e == b'X')) [
          | inl w ↦
              let q : e ≡ b'X' = ground arith in
              rw (z, skip_0x, x, w) (λ d. rw (zero_first, q) (large_x d))
          | inr w ↦ rw (z, skip_0x, x, w) (λ d. bare d)
        ]
      ]
]

Prefixed-skip_0x : (s : Text) → Prefixed s → Digits (skip_0x s)
unfolding skip_0x
Prefixed-skip_0x s (bare d) = subst Digits (sym (skip_0x-Digits s d)) d
Prefixed-skip_0x s (small_x d) = d
Prefixed-skip_0x s (large_x d) = d

-- What comes first.
abbrev Starts : (ℕ → Type 0) → Text → Type 0
Starts P s = (c : ℕ) × (u : Text) × (s ≡ c ∷ u) × P c

Prefixed-Starts : (s : Text) → Prefixed s → Starts IsHex s
Prefixed-Starts s (bare d) = (d.first, d.others, d.all, d.hex)
Prefixed-Starts s (small_x d) = (_, _, refl, inl (omega arith, omega arith))
Prefixed-Starts s (large_x d) = (_, _, refl, inl (omega arith, omega arith))

read_sign-Prefixed : (s : Text) → Starts IsHex s → (read_sign s).1 ≡ s
unfolding read_sign
read_sign-Prefixed s (c, u, e, h) =
    subst (λ t. (read_sign t).1 ≡ t) (sym e)
      (let q : (read_sign (c ∷ u)).1 ≡ c ∷ u = ground arith in q)

Signed-read_sign : (s : Text) → Signed s → Prefixed (read_sign s).1
unfolding read_sign
Signed-read_sign s (unsigned d) =
    subst Prefixed (sym (read_sign-Prefixed s (Prefixed-Starts s d))) d
Signed-read_sign s (plus d) = d
Signed-read_sign s (minus d) = d

read_sign-Signed : (s : Text) → Prefixed (read_sign s).1 → Signed s
unfolding read_sign
read_sign-Signed [] = λ d. unsigned d
read_sign-Signed (c ∷ s) = elim (Bool-cases (c == b'-')) [
  | inl e ↦ let q : c ≡ b'-' = ground arith in rw (e, read_sign) (λ d. rw q (minus d))
  | inr e ↦ elim (Bool-cases (c == b'+')) [
    | inl f ↦ let q : c ≡ b'+' = ground arith in rw (e, read_sign, f) (λ d. rw q (plus d))
    | inr f ↦ rw (e, read_sign, f) (λ d. unsigned d)
  ]
]

abbrev IsStart : ℕ → Type 0
IsStart c = (c ≡ b'+') ⊎ (c ≡ b'-') ⊎ IsHex c

Signed-Starts : (s : Text) → Signed s → Starts IsStart s
Signed-Starts s (unsigned d) = (let (c, u, e, h) = Prefixed-Starts s d in (c, u, e, inr (inr h)))
Signed-Starts s (plus d) = (_, _, refl, inl refl)
Signed-Starts s (minus d) = (_, _, refl, inr (inl refl))

skip_spaces-Signed : (s : Text) → Starts IsStart s → skip_spaces s ≡ s
unfolding skip_spaces
skip_spaces-Signed s (c, u, e, h) =
    subst (λ t. skip_spaces t ≡ t) (sym e) (let q : skip_spaces (c ∷ u) ≡ c ∷ u = ground arith in q)

Spaced-skip_spaces : (s : Text) → Spaced s → Signed (skip_spaces s)
unfolding skip_spaces
Spaced-skip_spaces s (here d) = subst Signed (sym (skip_spaces-Signed s (Signed-Starts s d))) d
Spaced-skip_spaces s (space {c} {s = u} h d) =
    let q : is_space c ≡ true = ground arith in rw (q, skip_spaces) (Spaced-skip_spaces u d)

skip_spaces-Spaced : (s : Text) → Signed (skip_spaces s) → Spaced s
unfolding skip_spaces
skip_spaces-Spaced [] = λ d. here d
skip_spaces-Spaced (c ∷ s) = elim (Bool-cases (is_space c)) [
  | inl e ↦
      let q : (c ≡ b' ') ⊎ ((9 ≤ c) × (c ≤ 13)) = ground arith in
      rw (e, skip_spaces) (λ d. space q (skip_spaces-Spaced s d))
  | inr e ↦ rw (e, skip_spaces) (λ d. here d)
]

-- No other colour begins with `#`.
erase_hash-Spaced : (s : Text) → Spaced s → erase_hash s ≡ s
unfolding erase_hash
erase_hash-Spaced s (here d) =
    let (c, u, e, h) = Signed-Starts s d in
    subst (λ t. erase_hash t ≡ t) (sym e) (let q : erase_hash (c ∷ u) ≡ c ∷ u = ground arith in q)
erase_hash-Spaced s (space h d) = ground arith

IsColor-erase_hash : (s : Text) → IsColor s → Spaced (erase_hash s)
unfolding erase_hash
IsColor-erase_hash s (plain d) = subst Spaced (sym (erase_hash-Spaced s d)) d
IsColor-erase_hash s (hash d) = d

erase_hash-IsColor : (s : Text) → Spaced (erase_hash s) → IsColor s
unfolding erase_hash
erase_hash-IsColor [] = λ d. plain d
erase_hash-IsColor (c ∷ s) = elim (Bool-cases (c == b'#')) [
  | inl e ↦ let q : c ≡ b'#' = ground arith in rw (e, erase_hash) (λ d. rw q (hash d))
  | inr e ↦ rw (e, erase_hash) (λ d. plain d)
]

-- The stream reads a number from a text, less a `#` in front, exactly where it is a colour.
pub read_hex-IsColor : (s : Text) → Present (read_hex (erase_hash s)) → IsColor s
read_hex-IsColor s h =
    let t = skip_spaces (erase_hash s) in
    let d = Digits-finish _ _ (subst Present (read_hex_lem (erase_hash s)) h) in
    erase_hash-IsColor s
      (skip_spaces-Spaced (erase_hash s) (read_sign-Signed t (Digits-skip_0x (read_sign t).1 d)))

pub IsColor-read_hex : (s : Text) → IsColor s → Present (read_hex (erase_hash s))
IsColor-read_hex s h =
    let d = Spaced-skip_spaces (erase_hash s) (IsColor-erase_hash s h) in
    let e = Prefixed-skip_0x _ (Signed-read_sign _ d) in
    subst Present (sym (read_hex_lem (erase_hash s))) (finish-Digits _ _ e)
