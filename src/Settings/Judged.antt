-- ===== src/Settings/Judged.antt =====
-- What the thermal check of src/PPUC.cpp takes for a safe coil, and for one that nothing bounds.
use Prim.Native.String.{String}
use libppuc.Common.{
  ℕ, ◌+◌, ◌<◌, ◌≡◌, ◌≢◌, ◌⊎◌, refl, inl, inr, subst, sym, true, false, not, some, List, [], ◌∷◌,
  ◌++◌, ◌!=◌, arith, Bool-cases,
}
use libppuc.Common.Text.{Text, codes, decimal, text_eq, text_eq→eq}
use libppuc.Yaml.{Yaml, bool, text, u32, ok}
use libppuc.Settings.Fields.{optional, format_location}
use libppuc.Settings.Groups.{is_set}
use libppuc.Settings.Holds.{read_node-eq_ok, Holding, RuleHolds}
use libppuc.Settings.Thermal.{PwmTypes, Warning, needs_thermal_protection}

-- The code of a lamp is that of no other kind of output.
pub record LampIsUnique (t : PwmTypes) : Type 0 where
  pub solenoid_ne : t.solenoid ≢ t.lamp
  pub flasher_ne : t.flasher ≢ t.lamp
  pub motor_ne : t.motor ≢ t.lamp
  pub shaker_ne : t.shaker ≢ t.lamp

text_eq_other :
    (s name other : Text)
    → text_eq name other ≡ false
    → text_eq s name ≡ true
    → text_eq s other ≡ false
text_eq_other s name other h e = subst (λ w. text_eq w other ≡ false) (sym (text_eq→eq s name e)) h

pub needs_thermal_protection_lem :
    (t : PwmTypes)
    → LampIsUnique t
    → (s : Text) → needs_thermal_protection t s ≡ not (text_eq s (codes "lamp"))
unfolding needs_thermal_protection
needs_thermal_protection_lem t l s = elim (Bool-cases (text_eq s (codes "flasher"))) [
  | inl e ↦
      let o = text_eq_other s (codes "flasher") (codes "lamp") refl e in
      let c : (t.flasher != t.lamp) ≡ true = ground (arith, l.flasher_ne) in rw (e, o) c
  | inr e ↦ elim (Bool-cases (text_eq s (codes "lamp"))) [
    | inl k ↦ let c : (t.lamp != t.lamp) ≡ false = ground arith in rw (e, k) c
    | inr k ↦ elim (Bool-cases (text_eq s (codes "motor"))) [
      | inl m ↦ let c : (t.motor != t.lamp) ≡ true = ground (arith, l.motor_ne) in rw (e, k, m) c
      | inr m ↦ elim (Bool-cases (text_eq s (codes "shaker"))) [
        | inl r ↦
            let c : (t.shaker != t.lamp) ≡ true = ground (arith, l.shaker_ne) in rw (e, k, m, r) c
        | inr r ↦
            let c : (t.solenoid != t.lamp) ≡ true = ground (arith, l.solenoid_ne) in
            rw (e, k, m, r) c
      ]
    ]
  ]
]

module _ (y : Yaml) where
  open y use {Node, is_defined, field, items, read, position}

  -- A flag that is set, and one that is missing or false.
  abbrev pub Flagged : Node → String → Type 0
  Flagged n f = (is_defined (field n f) ≡ true) × (read bool (field n f) ≡ some true)

  abbrev pub Unflagged : Node → String → Type 0
  Unflagged n f = (is_defined (field n f) ≡ false) ⊎ (read bool (field n f) ≡ some false)

  pub is_set-cases :
      (n : Node) (f : String)
      → RuleHolds y (optional bool f) n
      → (Flagged n f × (is_set y n f ≡ ok true)) ⊎ (Unflagged n f × (is_set y n f ≡ ok false))
  unfolding is_set
  is_set-cases n f h = elim (Bool-cases (is_defined (field n f))) [
    | inr u ↦ inr (inl u, rw (u, is_set) refl)
    | inl d ↦ elim h [
      | inl u ↦ cc
      | inr (true, e) ↦ inl ((d, e), rw (d, is_set) (read_node-eq_ok y bool (field n f) true e))
      | inr (false, e) ↦ inr (inr e, rw (d, is_set) (read_node-eq_ok y bool (field n f) false e))
    ]
  ]

  -- A coil for which nothing needs to be said.
  abbrev pub IsSafe : Node → Type 0
  IsSafe n =
      Holding y text (λ s. s ≡ codes "lamp") (field n "type")
      ⊎ Holding y u32 (λ v. 0 < v) (field n "maxPulseTime")
      ⊎ Holding y u32 (λ v. 0 < v) (field n "holdPower")
        × Holding y u32 (λ v. 0 < v) (field n "holdPowerActivationTime")
      ⊎ Flagged n "dualWinding"

  -- A coil that nothing bounds.
  abbrev pub IsUnbounded : Node → Type 0
  IsUnbounded n =
      Holding y text (λ s. s ≢ codes "lamp") (field n "type")
      × (Holding y u32 (λ v. v ≡ 0) (field n "maxPulseTime")
          × ((Holding y u32 (λ v. v ≡ 0) (field n "holdPower")
                ⊎ Holding y u32 (λ v. v ≡ 0) (field n "holdPowerActivationTime"))
              × Unflagged n "dualWinding"))

  -- The warning about output number `i` of the file.
  abbrev pub Names : Node → ℕ → Warning → Type 0
  Names n i w =
      (w.path ≡ codes "pwmOutput[" ++ (decimal i ++ codes "]"))
      × ((read text (field n "description") ≡ some w.description)
          × ((read u32 (field n "number") ≡ some w.number)
              × (w.location ≡ format_location (position n))))

  -- One warning for each coil that nothing bounds, in the order of the file, and no other.
  abbrev pub Warned : ℕ → List Node → List Warning → Type 0
  Warned i [] ws = ws ≡ []
  Warned i (n ∷ ns) ws =
      (IsSafe n × Warned (i + 1) ns ws)
      ⊎ ((w : Warning) × (rest : List Warning) × (ws ≡ w ∷ rest)
          × (IsUnbounded n × (Names n i w × Warned (i + 1) ns rest)))
