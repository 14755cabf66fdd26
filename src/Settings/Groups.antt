-- ===== src/Settings/Groups.antt =====
-- `ParseSwitchGroups` and `ParseCoilGiMappings` of src/PPUC.cpp.
use Prim.Native.String.{String}
use libppuc.Common.{ℕ, Bool, false, none, some, List, [], ◌∷◌, push, if◌then◌else◌}
use libppuc.Common.Sorted.{sort, unique}
use libppuc.Common.Text.{Text, codes, text_eq}
use libppuc.Yaml.{Yaml, bool, text, u8, u16, Result, ok, ◌>>=◌}
use libppuc.Settings.Fields.{read_node, has_sequence_items}
use libppuc.Settings.Led.{find}

-- std::unordered_map<std::string, std::vector<uint16_t>>
abbrev pub Groups : Type 0
Groups = List (Text × List ℕ)

-- `groups[name] = numbers`
unfoldable pub assign_group : Text → List ℕ → Groups → Groups
assign_group name ns [] = (name, ns) ∷ []
assign_group name ns ((k, ms) ∷ rest) =
    if text_eq name k then (k, ns) ∷ rest else (k, ms) ∷ assign_group name ns rest

-- `groups[name].push_back(number)`
unfoldable pub push_number : Text → ℕ → Groups → Groups
push_number name n groups =
    assign_group name
      (push (let old : List ℕ = elim (find name groups) [ none ↦ [] | some ns ↦ ns ] in old) n)
      groups

-- The last loop of ParseSwitchGroups.
unfoldable pub tidy_groups : Groups → Groups
tidy_groups [] = []
tidy_groups ((name, ns) ∷ rest) = (name, unique (sort ns)) ∷ tidy_groups rest

-- PPUCCoilGiMapping
pub record CoilGiMapping : Type 0 where
  pub coil : ℕ
  pub gi : ℕ
  pub on_brightness : ℕ
  pub off_brightness : ℕ

module _ (y : Yaml) where
  open y use {Node, is_defined, field, items, entries}

  -- `node["name"] && node["name"].as<bool>()`
  unfoldable pub is_set : Node → String → Result Bool
  is_set n f = if is_defined (field n f) then read_node y bool (field n f) else ok false

  -- The loop of addButtonSwitches.
  unfoldable pub add_buttons : List Node → Groups → Result Groups
  unfolding is_set push_number
  add_buttons [] groups = ok groups
  add_buttons (n ∷ ns) groups = do
    button ← is_set n "button"
    groups' ←
        if button
        then (read_node y u16 (field n "number") >>= λ v.
            ok (push_number (codes "buttons") v groups))
        else ok groups
    add_buttons ns groups'

  unfoldable pub add_button_switches : Node → Groups → Result Groups
  unfolding add_buttons
  add_button_switches switches groups =
      if has_sequence_items y switches then add_buttons (items switches) groups else ok groups

  unfoldable pub read_numbers : List Node → Result (List ℕ)
  read_numbers [] = ok []
  read_numbers (n ∷ ns) = do v ← read_node y u16 n; vs ← read_numbers ns; ok (v ∷ vs)

  -- The loop over the named groups.
  unfoldable pub read_groups : List (Node × Node) → Groups → Result Groups
  unfolding read_numbers assign_group
  read_groups [] groups = ok groups
  read_groups ((key, group) ∷ rest) groups = do
    name ← read_node y text key
    numbers ← read_numbers (items (field group "switches"))
    read_groups rest (assign_group name numbers groups)

  -- ParseSwitchGroups up to its last loop.
  unfoldable pub gather_switch_groups : Node → Result Groups
  unfolding add_button_switches read_groups
  gather_switch_groups config =
      let matrix = field config "switchMatrix" in
      let groups = field config "switchGroups" in
      (if is_defined matrix then add_button_switches (field matrix "switches") [] else ok [])
      >>= add_button_switches (field config "switches")
      >>= λ g. if is_defined groups then read_groups (entries groups) g else ok g

  -- ParseSwitchGroups
  unfoldable pub parse_switch_groups : Node → Result Groups
  unfolding tidy_groups
  parse_switch_groups config = gather_switch_groups config >>= λ g. ok (tidy_groups g)

  -- `node["name"] ? node["name"].as<uint8_t>() : value`
  unfoldable pub u8_or : Node → String → ℕ → Result ℕ
  u8_or n f value = if is_defined (field n f) then read_node y u8 (field n f) else ok value

  unfoldable pub read_mapping : Node → Result CoilGiMapping
  unfolding u8_or
  read_mapping n = do
    coil ← read_node y u16 (field n "coil")
    gi ← read_node y u8 (field n "gi")
    on_brightness ← u8_or n "onBrightness" 8
    off_brightness ← u8_or n "offBrightness" 0
    ok (record {
      coil = coil;
      gi = gi;
      on_brightness = on_brightness;
      off_brightness = off_brightness;
    })

  -- The loop of ParseCoilGiMappings.
  unfoldable pub read_mappings : List Node → Result (List CoilGiMapping)
  unfolding read_mapping
  read_mappings [] = ok []
  read_mappings (n ∷ ns) = do m ← read_mapping n; ms ← read_mappings ns; ok (m ∷ ms)

  -- ParseCoilGiMappings
  unfoldable pub parse_coil_gi_mappings : Node → Result (List CoilGiMapping)
  unfolding read_mappings
  parse_coil_gi_mappings config =
      let n = field config "coilGiMappings" in
      if has_sequence_items y n then read_mappings (items n) else ok []
