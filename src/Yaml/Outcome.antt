-- ===== src/Yaml/Outcome.antt =====
-- Results of code of src/PPUC.cpp that throws, and what decides whether a check passes.
use Prim.{Unit, tt}
use libppuc.Common.{
  ℕ, ◌≡◌, refl, ◌↔◌, ◌⊎◌, inl, inr, Bool, true, false, not, ◌&&◌, Option, none, some, if◌then◌else◌,
  subst,
}
use libppuc.Common.Text.{Text}

-- YAML::Mark: line and column from 0, or null.
abbrev pub Position : Type 0
Position = Option (ℕ × ℕ)

-- The exceptions: YAML::Exception with its mark, and std::runtime_error.
pub data Failure : Type 0 where
  yaml_error : Position → Text → Failure
  runtime_error : Text → Failure

-- What a call returns, or the exception that leaves it.
pub data Result {ℓ} (A : Type ℓ) : Type ℓ where
  err : Failure → Result A
  ok : A → Result A

-- The next statement runs only if no exception is on its way.
module _ {ℓ κ} {A : Type ℓ} {B : Type κ} where
  infixl 5 ◌>>=◌
  abbrev pub ◌>>=◌ : Result A → (A → Result B) → Result B
  err failure >>= next = err failure
  ok a >>= next = next a

infixl 5 ◌>>◌
abbrev pub ◌>>◌ {ℓ} : {B : Type ℓ} → Result (Unit {0}) → Result B → Result B
check >> next = check >>= λ _. next

-- A check passes exactly when `P`.
abbrev pub Checks : Result (Unit {0}) → Type 0 → Type 0
Checks m P = (m ≡ ok tt) ↔ P

pub >>-Checks :
    {P Q : Type 0} (m k : Result (Unit {0})) → Checks m P → Checks k Q → Checks (m >> k) (P × Q)
>>-Checks (ok tt) k p q = (λ h. (p.0 refl, q.0 h), λ (x, y). q.1 y)
>>-Checks (err e) k p q = (λ h. cc, λ (x, y). let z = p.1 x in cc)

-- A check that throws where a test says so.
pub if-Checks : (b : Bool) (e : Failure) → Checks (if b then err e else ok tt) (b ≡ false)
if-Checks true e = (λ h. cc, λ h. cc)
if-Checks false e = (λ h. refl, λ h. refl)

pub unless-Checks : (b : Bool) (e : Failure) → Checks (if b then ok tt else err e) (b ≡ true)
unless-Checks true e = (λ h. refl, λ h. refl)
unless-Checks false e = (λ h. cc, λ h. cc)

-- A check that is made only where a test says so, and throws elsewhere, or passes elsewhere.
pub demanded-Checks :
    (b : Bool) (m : Result (Unit {0})) (e : Failure) {P : Type 0}
    → Checks m P
    → Checks (if b then m else err e) ((b ≡ true) × P)
demanded-Checks true m e p = (λ h. (refl, p.0 h), λ h. p.1 h.1)
demanded-Checks false m e p = (λ h. cc, λ h. let f = h.0 in cc)

pub refused-Checks :
    (b : Bool) (m : Result (Unit {0})) (e : Failure) {P : Type 0}
    → Checks m P
    → Checks (if b then err e else m) ((b ≡ false) × P)
refused-Checks true m e p = (λ h. cc, λ h. let f = h.0 in cc)
refused-Checks false m e p = (λ h. (refl, p.0 h), λ h. p.1 h.1)

pub allowed-Checks :
    (b : Bool) (m : Result (Unit {0})) {P : Type 0}
    → Checks m P
    → Checks (if b then m else ok tt) ((b ≡ false) ⊎ P)
allowed-Checks true m p = (λ h. inr (p.0 h), λ h. elim h [ inl f ↦ cc | inr x ↦ p.1 x ])
allowed-Checks false m p = (λ h. inl refl, λ h. refl)

module _ {A : Type 0} where
  abbrev pub Present : Option A → Type 0
  Present o = (a : A) × (o ≡ some a)

  -- A value that is read, where a test says that it is there.
  pub demanded_value-Checks :
      (b : Bool) (o : Option A) (e f : Failure)
      → Checks
          ((let m : Result A = if b then elim o [ none ↦ err f | some a ↦ ok a ] else err e in m)
            >>= λ _. ok tt)
          ((b ≡ true) × Present o)
  demanded_value-Checks true none e f = (λ h. cc, λ (x, h). let g = h.1 in cc)
  demanded_value-Checks true (some a) e f = (λ h. (refl, (a, refl)), λ h. refl)
  demanded_value-Checks false o e f = (λ h. cc, λ (x, h). cc)

  pub readable-Checks :
      (o : Option A) (e : Failure) → Checks (elim o [ none ↦ err e | some a ↦ ok tt ]) (Present o)
  readable-Checks none e = (λ h. cc, λ (a, h). cc)
  readable-Checks (some a) e = (λ h. (a, refl), λ h. refl)

-- A list that may be missing (`d` is false) or an empty map (`z`): else it has to be a list (`s`).
pub optional_list-Checks :
    (d z s : Bool) (m : Result (Unit {0})) (e : Failure) {P : Type 0}
    → Checks m P
    → Checks
        ((if not d then ok tt else if z then ok tt else if s then ok tt else err e)
          >> (if d && s then m else ok tt))
        (((d ≡ false) ⊎ (z ≡ true) × (s ≡ false)) ⊎ (((d ≡ true) × (s ≡ true)) × P))
optional_list-Checks false z s m e p = (λ h. inl (inl refl), λ h. refl)
optional_list-Checks true true true m e p = (
  λ h. inr ((refl, refl), p.0 h),
  λ h. elim h [ inl f ↦ elim f [ inl g ↦ cc | inr g ↦ let k = g.1 in cc ] | inr g ↦ p.1 g.1 ],
)
optional_list-Checks true false true m e p = (
  λ h. inr ((refl, refl), p.0 h),
  λ h. elim h [ inl f ↦ elim f [ inl g ↦ cc | inr g ↦ let k = g.1 in cc ] | inr g ↦ p.1 g.1 ],
)
optional_list-Checks true true false m e p = (λ h. inl (inr (refl, refl)), λ h. refl)
optional_list-Checks true false false m e p = (
  λ h. cc,
  λ h. elim h [
    | inl f ↦ elim f [ inl g ↦ cc | inr g ↦ let k = g.0 in cc ]
    | inr g ↦ let k = g.0.1 in cc
  ],
)

-- A value that a step yields, and a check of it.
pub read-Checks :
    {A : Type 0} (o : Option A) (e : Failure) (f : A → Result (Unit {0})) (P : A → Type 0)
    → ((a : A) → Checks (f a) (P a))
    → Checks
        ((let m : Result A = elim o [ none ↦ err e | some a ↦ ok a ] in m) >>= f)
        ((a : A) × (o ≡ some a) × P a)
read-Checks none e f P p = (λ h. cc, λ h. let k = h.1 in cc)
read-Checks (some a) e f P p =
    (λ h. (a, refl, (p a).0 h), λ (b, k, x). (p a).1 (subst P (let q : b ≡ a = cc in q) x))

pub convert-Checks :
    {P Q : Type 0} (m : Result (Unit {0})) → Checks m P → (P → Q) → (Q → P) → Checks m Q
convert-Checks m p f g = (λ h. f (p.0 h), λ h. p.1 (g h))

-- A value that is read and then parsed.
abbrev pub Parsed : {A B : Type 0} → (A → Option B) → Option A → Type 0
Parsed {A} g o = (a : A) × (o ≡ some a) × Present (g a)

module _ {A B : Type 0} (g : A → Option B) (f : A → Failure) (m : Result (Unit {0})) {P : Type 0}
    (p : Checks m P) where
  parsed-Checks :
      (a : A) (o : Option B)
      → g a ≡ o
      → Checks
          ((let r : Result B = elim o [ some b ↦ ok b | none ↦ err (f a) ] in r) >>= λ _. m)
          (Present o × P)
  parsed-Checks a none q = (λ h. cc, λ h. let k = h.0.1 in cc)
  parsed-Checks a (some b) q = (λ h. ((b, refl), p.0 h), λ h. p.1 h.1)

  pub parse-Checks :
      (o : Option A) (e : Failure)
      → Checks
          ((let r : Result A = elim o [ none ↦ err e | some a ↦ ok a ] in r)
            >>= (λ a. let r : Result B = elim (g a) [ some b ↦ ok b | none ↦ err (f a) ] in r)
            >>= λ _. m)
          (Parsed g o × P)
  parse-Checks none e = (λ h. cc, λ h. let k = h.0.1 in cc)
  parse-Checks (some a) e = (
    λ h. let r = (parsed-Checks a (g a) refl).0 h in ((a, refl, r.0), r.1),
    λ ((b, q, x), r).
        (parsed-Checks a (g a) refl).1
          (subst (λ c. Present (g c)) (let q' : b ≡ a = cc in q') x, r),
  )

pub demanded_parse-Checks :
    {A B : Type 0} (g : A → Option B) (f : A → Failure) (b : Bool) (o : Option A) (e e' : Failure)
    → Checks
        ((let r : Result A = if b then elim o [ none ↦ err e | some a ↦ ok a ] else err e' in r)
          >>= (λ a. let r : Result B = elim (g a) [ some b ↦ ok b | none ↦ err (f a) ] in r)
          >>= λ _. ok tt)
        ((b ≡ true) × Parsed g o)
demanded_parse-Checks g f true o e e' =
    convert-Checks _ (parse-Checks g f (ok tt) (λ h. tt, λ h. refl) o e) (λ h. (refl, h.0))
      (λ h. (h.1, tt))
demanded_parse-Checks g f false o e e' = (λ h. cc, λ h. let k = h.0 in cc)

-- A sequence that returns has a first part that does.
pub >>=-returns :
    {A B : Type 0} (first : Result A) (next : A → Result B) (b : B)
    → (first >>= next) ≡ ok b
    → (a : A) × (first ≡ ok a) × (next a ≡ ok b)
>>=-returns (err e) next b h = cc
>>=-returns (ok a) next b h = (a, refl, h)
