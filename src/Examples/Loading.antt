-- ===== src/Examples/Loading.antt =====
-- A configuration file at work: its validation, the check of its coils, and its loading.
use Prim.{tt}
use libppuc.Common.{
  ◌&&◌, not, List, ℕ, mem, ◌||◌, ◌≡◌, ◌↔◌, refl, inr, List, [], ◌∷◌, map, arith, Bool,
}
use libppuc.Common.Text.{Text, codes}
use libppuc.Yaml.{ok}
use libppuc.Settings.Fields.{
  list_of, read_node, validate_required_map, require_node, validate_rules, validate_rule,
  validate_required_field, read_required_field, validate_required_sequence, validate_each,
  validate_optional_items, validate_optional_sequence, validate_optional_field,
}
use libppuc.Settings.Validate.{
  validate_board, validate_sections, validate_pwm_output, validate_ppuc_configuration,
}
use libppuc.Settings.Valid.{IsValid, validate_ppuc_configuration_lem}
use libppuc.Settings.Thermal.{Warning, warn_about_unprotected_solenoids}
use libppuc.Settings.Judged.{Warned}
use libppuc.Settings.Warned.{outputs_of, warn_about_unprotected_solenoids_lem}
use libppuc.Settings.Groups.{
  Groups, parse_switch_groups, gather_switch_groups, parse_coil_gi_mappings,
}
use libppuc.Settings.Color.{parse_hex_color_value}
use libppuc.Common.Sorted.{insert_unique, IsIncreasing, unique, sort, unique_after}
use libppuc.Settings.Led.{find}
use libppuc.Settings.Grouped.{group_of, buttons}
use libppuc.Settings.Buttons.{lists_button, matrix_switches, parse_switch_groups-buttons}
use libppuc.State.{Comm}
use libppuc.Firmware.{BoardVersion}
use libppuc.Api.{query_board_versions}
use libppuc.Protocol.Sample.{sample}
use libppuc.Examples.Table.{table}
use libppuc.Machine.Versions.{collect_boards, query_versions, lists_board, query_versions_lem}
use libppuc.Settings.Hex.{number_from, hex_char, parse_hex_color_value-digits}
use libppuc.Machine.{load_configuration}
use libppuc.Machine.Load.{HasFields, IsLoaded, load_configuration_lem}
use libppuc.Examples.Document.{documents, machine, orders, types, types-LampIsUnique, word, fresh}

validate_ppuc_configuration_lem_example :
    (validate_ppuc_configuration documents orders machine ≡ ok tt)
    ↔ IsValid documents orders machine
validate_ppuc_configuration_lem_example = validate_ppuc_configuration_lem documents orders machine

accepted : validate_ppuc_configuration documents orders machine ≡ ok tt
unfolding validate_ppuc_configuration validate_required_map require_node validate_rules
    validate_rule validate_required_field read_required_field validate_required_sequence
    validate_each validate_board validate_sections validate_optional_items
    validate_optional_sequence validate_pwm_output validate_optional_field
accepted = refl

warn_about_unprotected_solenoids_lem_example :
    (ws : List Warning) × (warn_about_unprotected_solenoids documents types machine ≡ ok ws)
    × Warned documents 0 (outputs_of documents types types-LampIsUnique machine) ws
warn_about_unprotected_solenoids_lem_example =
    warn_about_unprotected_solenoids_lem documents types types-LampIsUnique orders machine accepted

abbrev button_group : Groups
button_group = (codes "buttons", 24 ∷ []) ∷ []

groups_read : parse_switch_groups documents machine ≡ ok button_group
unfolding parse_switch_groups gather_switch_groups read_node unique sort find unique_after
groups_read = refl

no_mappings : parse_coil_gi_mappings documents machine ≡ ok []
unfolding parse_coil_gi_mappings
no_mappings = refl

load_configuration_lem_example :
    (ws : List Warning) × (debug : Bool) × (rom : Text) × (serial : Text) × (platform : Text)
    × Warned documents 0 (outputs_of documents types types-LampIsUnique machine) ws
    × HasFields documents orders types machine debug rom serial platform
    × IsLoaded documents orders types button_group [] machine fresh ws
        (load_configuration documents orders types (codes "game.yml") (ok machine) fresh)
        debug
        rom
        serial
        platform
load_configuration_lem_example =
    load_configuration_lem documents orders types types-LampIsUnique (codes "game.yml") machine
      fresh button_group [] accepted groups_read no_mappings

red_digits : map hex_char (15 ∷ 15 ∷ 0 ∷ 0 ∷ 0 ∷ 10 ∷ []) ≡ codes "ff000a"
red_digits = refl

parse_hex_color_value-digits_example :
    parse_hex_color_value documents (word "#ff000a") (codes "color")
    ≡ ok (number_from 0 (15 ∷ 15 ∷ 0 ∷ 0 ∷ 0 ∷ 10 ∷ []))
parse_hex_color_value-digits_example =
    parse_hex_color_value-digits documents (word "#ff000a") (codes "color") 15
      (15 ∷ 0 ∷ 0 ∷ 0 ∷ 10 ∷ [])
      (omega arith, (omega arith, (omega arith, (omega arith, (omega arith, (omega arith, tt))))))
      (omega arith) (inr refl)

parse_switch_groups-buttons_example :
    IsIncreasing (group_of buttons button_group)
    × ((v : ℕ)
        → mem v (group_of buttons button_group) ≡ (
            lists_button documents v (matrix_switches documents machine)
            || lists_button documents v (list_of documents (documents.field machine "switches"))))
parse_switch_groups-buttons_example =
    parse_switch_groups-buttons documents orders machine button_group accepted groups_read

-- Board 2 is the only one.
abbrev answer : List BoardVersion × Comm
answer = query_board_versions sample (2 ∷ []) table

asks_board_2 : query_versions documents sample fresh ≡ ok answer
unfolding query_versions collect_boards read_node insert_unique
asks_board_2 = refl

query_versions_lem_example :
    let asked = map (λ v. v.board) answer.0 in
    IsIncreasing asked
    × ((b : ℕ)
        → mem b asked ≡ (
            lists_board documents b (list_of documents (documents.field machine "boards"))
            && not (mem b [])))
query_versions_lem_example =
    query_versions_lem sample documents fresh answer.0 answer.1 asks_board_2
