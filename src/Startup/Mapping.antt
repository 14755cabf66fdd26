-- ===== src/Startup/Mapping.antt =====
-- The mappings that the startup of src/PPUC.cpp makes of the numbers in the configuration.
use Prim.{tt}
use libppuc.Common.{
  ℕ, ◌≡◌, refl, subst, inl, inr, Bool, true, false, List, [], ◌∷◌, mem, if◌then◌else◌, Bool-cases,
}
use libppuc.Common.Sorted.{IsIncreasing, insert_unique, insert_unique-IsIncreasing}
use libppuc.Protocol.{Protocol}
use libppuc.State.{Comm}
use libppuc.Boards.{
  set_mappings, set_configured_boards, set_switch_numbers_by_board, set_skipped_boards,
  rebuild_ownership_masks,
}
use libppuc.Boards.Mapping.{IsInverse, set_mappings-IsInverse}
use libppuc.Session.{set_runtime_config}
use libppuc.Api.{set_button_switch_numbers}
use libppuc.Settings.Fields.{list_of, read_node}
use libppuc.Settings.Groups.{is_set}
use libppuc.Yaml.{Yaml, text, u8, u16, Result, ok, err, ◌>>=◌}
use libppuc.Startup.Numbers.{
  Numbers, collect_switches, collect_outputs, collect_leds, collect_stripes, collect_numbers,
  runtime_config_of, mapping_of,
}
use libppuc.Common.Text.{codes, text_eq}
use libppuc.Startup.Devices.{BoardLists}
use libppuc.Startup.Attempt.{announced}
use libppuc.Startup.Ordered.{increasing-Distinct, mapping_of-IsIncreasing}

-- A property of the value, if there is one.
record Gives {A : Type 0} (R : A → Type 0) (m : Result A) : Type 0 where
  given : (a : A) → m ≡ ok a → R a

module _ {A : Type 0} where
  ok-Gives : (R : A → Type 0) (a : A) → R a → Gives R (ok a)
  ok-Gives R a h = record { given = λ b e. let q : a ≡ b = cc in subst R q h }

  >>=-Gives :
      {B : Type 0} {R : B → Type 0} (m : Result A) (f : A → Result B)
      → ((a : A) → Gives R (f a))
      → Gives R (m >>= f)
  >>=-Gives (ok a) f h = h a
  >>=-Gives (err e) f h = record { given = λ b q. cc }

  kept-Gives :
      {B : Type 0} {R : B → Type 0} (T : A → Type 0) (m : Result A) (f : A → Result B)
      → Gives T m
      → ((a : A) → T a → Gives R (f a))
      → Gives R (m >>= f)
  kept-Gives T (ok a) f h k = k a (h.given a refl)
  kept-Gives T (err e) f h k = record { given = λ b q. cc }

  if-Gives :
      {R : A → Type 0} (b : Bool) (m l : Result A)
      → Gives R m
      → Gives R l
      → Gives R (if b then m else l)
  if-Gives true m l h k = h
  if-Gives false m l h k = k

-- The sets of the loops are in order.
record AreSets (ns : Numbers) : Type 0 where
  coils : IsIncreasing ns.coils
  lamps : IsIncreasing ns.lamps
  switches : IsIncreasing ns.switches

module _ (y : Yaml) where
  open y use {Node, is_defined, field, items}

  collect_switches-AreSets :
      (nodes : List Node) (ns : Numbers) → AreSets ns → Gives AreSets (collect_switches y nodes ns)
  unfolding collect_switches
  collect_switches-AreSets [] ns h = ok-Gives AreSets ns h
  collect_switches-AreSets (n ∷ rest) ns h =
      >>=-Gives (read_node y u16 (field n "number")) _ (λ number.
        >>=-Gives (is_set y n "button") _ (λ button.
          >>=-Gives (read_node y u8 (field n "board")) _ (λ board.
            collect_switches-AreSets rest _ (record {
              coils = h.coils;
              lamps = h.lamps;
              switches = insert_unique-IsIncreasing number ns.switches h.switches;
            }))))

  add_output-AreSets :
      (ns : Numbers) (number : ℕ) (lamp : Bool)
      → AreSets ns
      → AreSets (
          if lamp
          then record ns { lamps = insert_unique number ns.lamps }
          else record ns { coils = insert_unique number ns.coils })
  add_output-AreSets ns number true h = record {
    coils = h.coils;
    lamps = insert_unique-IsIncreasing number ns.lamps h.lamps;
    switches = h.switches;
  }
  add_output-AreSets ns number false h = record {
    coils = insert_unique-IsIncreasing number ns.coils h.coils;
    lamps = h.lamps;
    switches = h.switches;
  }

  collect_outputs-AreSets :
      (skipped : List ℕ) (nodes : List Node) (ns : Numbers)
      → AreSets ns
      → Gives AreSets (collect_outputs y skipped nodes ns)
  unfolding collect_outputs
  collect_outputs-AreSets skipped [] ns h = ok-Gives AreSets ns h
  collect_outputs-AreSets skipped (n ∷ rest) ns h =
      >>=-Gives (read_node y u8 (field n "board")) _ (λ board.
        kept-Gives AreSets _ _
          (if-Gives (mem board skipped) _ _ (ok-Gives AreSets ns h) (
            >>=-Gives (read_node y text (field n "type")) _ (λ kind.
              >>=-Gives (read_node y u16 (field n "number")) _ (λ number.
                ok-Gives AreSets _
                  (add_output-AreSets ns number (text_eq kind (codes "lamp")) h)))))
          (collect_outputs-AreSets skipped rest))

  collect_leds-IsIncreasing :
      (nodes : List Node) (set : List ℕ)
      → IsIncreasing set
      → Gives IsIncreasing (collect_leds y nodes set)
  unfolding collect_leds
  collect_leds-IsIncreasing [] set h = ok-Gives IsIncreasing set h
  collect_leds-IsIncreasing (n ∷ rest) set h =
      >>=-Gives (read_node y u16 (field n "number")) _
        (λ number. collect_leds-IsIncreasing rest _ (insert_unique-IsIncreasing number set h))

  collect_stripes-AreSets :
      (skipped : List ℕ) (nodes : List Node) (ns : Numbers)
      → AreSets ns
      → Gives AreSets (collect_stripes y skipped nodes ns)
  unfolding collect_stripes
  collect_stripes-AreSets skipped [] ns h = ok-Gives AreSets ns h
  collect_stripes-AreSets skipped (n ∷ rest) ns h =
      >>=-Gives (read_node y u8 (field n "board")) _ (λ board.
        kept-Gives AreSets _ _
          (if-Gives (mem board skipped) _ _ (ok-Gives AreSets ns h) (
            kept-Gives IsIncreasing (collect_leds y (list_of y (field n "lamps")) ns.lamps) _
              (collect_leds-IsIncreasing _ ns.lamps h.lamps)
              (λ lamps l.
                kept-Gives IsIncreasing (collect_leds y (list_of y (field n "flashers")) ns.coils) _
                  (collect_leds-IsIncreasing _ ns.coils h.coils)
                  (λ coils k.
                    ok-Gives AreSets (record ns { lamps = lamps; coils = coils })
                      (record { coils = k; lamps = l; switches = h.switches })))))
          (collect_stripes-AreSets skipped rest))

  collect_numbers-AreSets :
      (skipped : List ℕ) (game_on : ℕ) (config : Node)
      → Gives AreSets (collect_numbers y skipped game_on config)
  unfolding collect_numbers
  collect_numbers-AreSets skipped game_on config =
      kept-Gives AreSets _ _
        (kept-Gives AreSets _ _
          (kept-Gives AreSets _ _
            (collect_switches-AreSets _ _ (record {
              coils = insert_unique-IsIncreasing game_on [] tt;
              lamps = tt;
              switches = tt;
            }))
            (collect_switches-AreSets _))
          (collect_outputs-AreSets skipped _))
        (collect_stripes-AreSets skipped _)

  announced_mappings :
      (p : Protocol) (lists : BoardLists) (ns : Numbers) (skipped : List ℕ) (c : Comm)
      → (announced p lists ns skipped c).mappings
        ≡ (set_mappings p
            (mapping_of p.max_coil_bits ns.coils)
            (mapping_of p.max_lamp_bits ns.lamps)
            (mapping_of p.max_switch_bits ns.switches)
            c).mappings
  unfolding announced set_skipped_boards set_button_switch_numbers set_switch_numbers_by_board
      set_configured_boards set_runtime_config set_mappings rebuild_ownership_masks
  announced_mappings p lists ns skipped c =
      elim (Bool-cases (p.is_valid_runtime_config (runtime_config_of p ns))) [
        | inl e ↦ rw e refl
        | inr e ↦ rw e refl
      ]

  -- When the numbers of the configuration can be read, then the tables that the startup gives to
  -- the bus host lead from each number of a domain to the index at which its mapping frames have
  -- it, and from no other number to any index.
  pub announced-IsInverse :
      (p : Protocol) (lists : BoardLists) (skipped : List ℕ) (game_on : ℕ) (config : Node)
      (ns : Numbers) (c : Comm)
      → collect_numbers y skipped game_on config ≡ ok ns
      → let m = (announced p lists ns skipped c).mappings in
        IsInverse m.coil_index_to_number m.coil_number_to_index
        × IsInverse m.lamp_index_to_number m.lamp_number_to_index
        × IsInverse m.switch_index_to_number m.switch_number_to_index
  unfolding set_mappings rebuild_ownership_masks
  announced-IsInverse p lists skipped game_on config ns c e =
      let h = (collect_numbers-AreSets skipped game_on config).given ns e in
      rw (announced_mappings p lists ns skipped c) (
        set_mappings-IsInverse p _ _ _ c
          (increasing-Distinct _ (mapping_of-IsIncreasing p.max_coil_bits ns.coils h.coils))
          (increasing-Distinct _ (mapping_of-IsIncreasing p.max_lamp_bits ns.lamps h.lamps))
          (increasing-Distinct _
            (mapping_of-IsIncreasing p.max_switch_bits ns.switches h.switches)))
