-- ===== src/Settings/Buttons.antt =====
-- The group of the buttons that ParseSwitchGroups of src/PPUC.cpp makes.

use Prim.{tt}
use libppuc.Common.{
  ℕ, ◌≡◌, refl, sym, subst, ap, ◌∙◌, inl, inr, Bool, true, false, ◌&&◌, ◌||◌, ◌==◌, none, some,
  List, [], ◌∷◌, mem, arith, Bool-cases, Option-cases, if◌then◌else◌,
}
use libppuc.Common.Text.{text_eq, text_eq→eq}
use libppuc.Common.Sorted.{
  IsIncreasing, sort, unique, sort-IsSorted, unique-IsIncreasing, mem-sort, mem-unique,
}
use libppuc.Yaml.{Yaml, bool, text, u16, Result, ok, err, yaml_error, ◌>>=◌, >>=-returns}
use libppuc.Settings.Fields.{list_of, read_node, has_sequence_items}
use libppuc.Settings.Led.{LedOrder, find}
use libppuc.Settings.Holds.{read_node-eq_ok}
use libppuc.Settings.Parts.{AllGroups}
use libppuc.Settings.Validate.{validate_ppuc_configuration}
use libppuc.Settings.Valid.{IsValid, validate_ppuc_configuration_lem}
use libppuc.Settings.Groups.{
  Groups, assign_group, push_number, tidy_groups, is_set, add_buttons, add_button_switches,
  read_numbers, read_groups, gather_switch_groups, parse_switch_groups,
}
use libppuc.Settings.Grouped.{
  numbers_in, group_of, buttons, find-assign_other, mem-push_number, group_of-tidy_groups, or_false,
}

module _ (y : Yaml) where
  open y use {Node, is_defined, field, items, entries, read, what, position}

  -- The switch has `button: true`, and it has the number.
  abbrev pub is_button : Node → Bool
  is_button n =
      is_defined (field n "button")
      && elim (read bool (field n "button")) [ none ↦ false | some b ↦ b ]

  abbrev pub has_number : ℕ → Node → Bool
  has_number v n = elim (read u16 (field n "number")) [ none ↦ false | some m ↦ v == m ]

  abbrev pub lists_button : ℕ → List Node → Bool
  lists_button v [] = false
  lists_button v (n ∷ ns) = is_button n && has_number v n || lists_button v ns

  add_buttons_lem :
      (v : ℕ) (ns : List Node) (before after : Groups)
      → add_buttons y ns before ≡ ok after
      → mem v (group_of buttons after) ≡ (mem v (group_of buttons before) || lists_button v ns)
  unfolding add_buttons is_set read_node
  add_buttons_lem v [] before after h =
      subst (λ g. mem v (group_of buttons g) ≡ (mem v (group_of buttons before) || false))
        (let q : before ≡ after = cc in q) (or_false _)
  add_buttons_lem v (n ∷ ns) before after h = elim (Bool-cases (is_defined (field n "button"))) [
    | inr u ↦
        let e : add_buttons y (n ∷ ns) before ≡ add_buttons y ns before =
          rw (u, add_buttons, is_set) refl in
        rw u (add_buttons_lem v ns before after (sym e ∙ h))
    | inl d ↦ elim (Option-cases (read bool (field n "button"))) [
      | inl r ↦
          let f = field n "button" in
          let e : add_buttons y (n ∷ ns) before ≡ err (yaml_error (position f) (what f)) =
            rw (d, add_buttons, is_set, read_node, r) refl in
          cc
      | inr (false, r) ↦
          let e : add_buttons y (n ∷ ns) before ≡ add_buttons y ns before =
            rw (d, add_buttons, is_set, read_node, r) refl in
          rw (d, r) (add_buttons_lem v ns before after (sym e ∙ h))
      | inr (true, r) ↦ elim (Option-cases (read u16 (field n "number"))) [
        | inl w ↦
            let f = field n "number" in
            let e : add_buttons y (n ∷ ns) before ≡ err (yaml_error (position f) (what f)) =
              rw (d, add_buttons, is_set, read_node, r, w) refl in
            cc
        | inr (m, w) ↦
            let e : add_buttons y (n ∷ ns) before
                ≡ add_buttons y ns (push_number buttons m before) =
              rw (d, add_buttons, is_set, read_node, r, w) refl in
            let rest = add_buttons_lem v ns (push_number buttons m before) after (sym e ∙ h) in
            let one = mem-push_number v m before in
            let number : has_number v n ≡ (v == m) =
              ap (λ o. let b : Bool = elim o [ none ↦ false | some i ↦ v == i ] in b) w in
            rw (d, r, number) (ground (arith, rest, one))
      ]
    ]
  ]

  -- The switches of the matrix, if there is one.
  abbrev pub matrix_switches : Node → List Node
  matrix_switches config =
      if is_defined (field config "switchMatrix")
      then list_of y (field (field config "switchMatrix") "switches")
      else []

  add_button_switches_lem :
      (v : ℕ) (n : Node) (before after : Groups)
      → add_button_switches y n before ≡ ok after
      → mem v (group_of buttons after)
        ≡ (mem v (group_of buttons before) || lists_button v (list_of y n))
  unfolding add_button_switches
  add_button_switches_lem v n before after h = elim (Bool-cases (has_sequence_items y n)) [
    | inl e ↦
        let same : add_button_switches y n before ≡ add_buttons y (items n) before =
          rw (e, add_button_switches) refl in
        rw e (add_buttons_lem v (items n) before after (sym same ∙ h))
    | inr e ↦
        let same : add_button_switches y n before ≡ ok before = rw (e, add_button_switches) refl in
        rw e (add_buttons_lem v [] before after (sym same ∙ h))
  ]

  -- A group that has another name leaves the buttons alone.
  read_groups_lem :
      (neo : LedOrder → ℕ) (es : List (Node × Node)) (before after : Groups)
      → AllGroups y neo es
      → read_groups y es before ≡ ok after
      → group_of buttons after ≡ group_of buttons before
  unfolding read_groups
  read_groups_lem neo [] before after all h =
      ap (λ (g : Groups). group_of buttons g) (let q : after ≡ before = cc in q)
  read_groups_lem neo ((key, group) ∷ es) before after (s, e, ((name, _), all)) h =
      let (s', f, h1) = >>=-returns (read_node y text key) _ after h in
      let (numbers, _, h2) =
        >>=-returns (read_numbers y (items (field group "switches"))) _ after h1 in
      let same : s' ≡ s = (let q : ok s' ≡ ok s = sym f ∙ read_node-eq_ok y text key s e in cc) in
      let other : text_eq buttons s' ≡ false = elim (Bool-cases (text_eq buttons s')) [
        | inr o ↦ o
        | inl o ↦ let q : buttons ≡ s = text_eq→eq buttons s' o ∙ same in absurd (name.1 (sym q))
      ] in
      read_groups_lem neo es (assign_group s' numbers before) after all h2
      ∙ ap numbers_in (find-assign_other buttons s' numbers before other)

  -- The groups after the matrix, where `b` says whether there is one.
  abbrev from_matrix : Bool → Node → Result Groups
  from_matrix b config =
      if b then add_button_switches y (field (field config "switchMatrix") "switches") [] else ok []

  from_matrix_lem :
      (v : ℕ) (config : Node) (g : Groups)
      → from_matrix (is_defined (field config "switchMatrix")) config ≡ ok g
      → mem v (group_of buttons g) ≡ lists_button v (matrix_switches config)
  unfolding find
  from_matrix_lem v config g h = elim (Bool-cases (is_defined (field config "switchMatrix"))) [
    | inl d ↦
        let e = subst (λ b. from_matrix b config ≡ ok g) d h in
        rw d (add_button_switches_lem v _ [] g e)
    | inr d ↦
        let e : ok [] ≡ ok g = subst (λ b. from_matrix b config ≡ ok g) d h in
        rw d (ap (λ (x : Groups). mem v (group_of buttons x)) (let q : g ≡ [] = cc in q))
  ]

  -- The groups after the named ones, where `b` says whether there are any.
  abbrev with_named : Bool → Node → Groups → Result Groups
  with_named b config g =
      if b then read_groups y (entries (field config "switchGroups")) g else ok g

  with_named_lem :
      (neo : LedOrder → ℕ) (config : Node) (before after : Groups)
      → IsValid y neo config
      → with_named (is_defined (field config "switchGroups")) config before ≡ ok after
      → group_of buttons after ≡ group_of buttons before
  with_named_lem neo config before after valid h =
      elim (Bool-cases (is_defined (field config "switchGroups"))) [
        | inr d ↦
            let e : ok before ≡ ok after = subst (λ b. with_named b config before ≡ ok after) d h in
            ap (λ (x : Groups). group_of buttons x) (let q : after ≡ before = cc in q)
        | inl d ↦
            let e = subst (λ b. with_named b config before ≡ ok after) d h in
            elim valid.groups [
              | inl u ↦ cc
              | inr (_, all) ↦
                  read_groups_lem neo (entries (field config "switchGroups")) before after all e
            ]
      ]

  -- When a configuration is valid and its groups can be read, the group `buttons` holds each number
  -- of a switch that has `button: true`, in the matrix or beside it, and no other, in increasing
  -- order.
  pub parse_switch_groups-buttons :
      (neo : LedOrder → ℕ) (config : Node) (groups : Groups)
      → validate_ppuc_configuration y neo config ≡ ok tt
      → parse_switch_groups y config ≡ ok groups
      → IsIncreasing (group_of buttons groups)
        × ((v : ℕ)
            → mem v (group_of buttons groups) ≡ (
                lists_button v (matrix_switches config)
                || lists_button v (list_of y (field config "switches"))))
  unfolding parse_switch_groups gather_switch_groups
  parse_switch_groups-buttons neo config groups valid h =
      let v = (validate_ppuc_configuration_lem y neo config).0 valid in
      let (g, gathered, tidy) = >>=-returns (gather_switch_groups y config) _ groups h in
      let switches = field config "switches" in
      let first = from_matrix (is_defined (field config "switchMatrix")) config in
      let (g2, both, named) =
        >>=-returns (first >>= add_button_switches y switches)
          (with_named (is_defined (field config "switchGroups")) config) g gathered in
      let (g1, matrix, rest) = >>=-returns first (add_button_switches y switches) g2 both in
      let q : groups ≡ tidy_groups g = cc in
      let final : group_of buttons groups ≡ unique (sort (group_of buttons g)) =
        ap (λ (x : Groups). group_of buttons x) q ∙ group_of-tidy_groups buttons g in
      (
        subst IsIncreasing (sym final) (unique-IsIncreasing _ (sort-IsSorted (group_of buttons g))),
        λ n.
            ap (mem n) final
            ∙ mem-unique n (sort (group_of buttons g))
            ∙ mem-sort n (group_of buttons g)
            ∙ ap (mem n) (with_named_lem neo config g2 g v named)
            ∙ add_button_switches_lem n switches g1 g2 rest
            ∙ ap (λ b. b || lists_button n (list_of y switches))
                (from_matrix_lem n config g1 matrix),
      )
