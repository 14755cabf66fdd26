-- ===== src/Machine/Load.antt =====
-- What LoadConfiguration of src/PPUC.cpp makes of a valid file, and when it writes past a buffer.
use Prim.Native.String.{String}
use Prim.{tt}
use libppuc.Common.{
  ℕ, ◌≤◌, ◌<◌, ◌≡◌, ◌⊎◌, refl, inl, inr, Bool, true, some, List, length, ltb, arith, Bool-cases,
}
use libppuc.Common.Text.{Text}
use libppuc.Yaml.{Yaml, Kind, bool, text, Value, ok}
use libppuc.Settings.Fields.{read_required_field}
use libppuc.Settings.Led.{LedOrder}
use libppuc.Settings.Validate.{validate_ppuc_configuration}
use libppuc.Settings.Valid.{validate_ppuc_configuration_lem}
use libppuc.Settings.Thermal.{PwmTypes, Warning, warn_about_unprotected_solenoids}
use libppuc.Settings.Judged.{LampIsUnique, Warned}
use libppuc.Settings.Warned.{outputs_of, warn_about_unprotected_solenoids_lem}
use libppuc.Settings.Groups.{Groups, CoilGiMapping, parse_switch_groups, parse_coil_gi_mappings}
use libppuc.Machine.Step.{Outcome, value, overflow, ◌>>=◌, lift, pure, modify, get}
use libppuc.Machine.{
  Ppuc, rom_bytes, serial_bytes, until_nul, platform_of, load_file, load_fields, load_configuration,
  catch,
}
use libppuc.Machine.Copies.{strcpy-fits, strcpy-overflows}

module _ (y : Yaml) where
  open y use {Node, is_defined, field, read}

  read_required_field-eq_ok :
      (k : Kind) (n : Node) (f : String) (context : Text) (v : Value k)
      → is_defined (field n f) ≡ true
      → read k (field n f) ≡ some v
      → read_required_field y k n f context ≡ ok v
  unfolding read_required_field
  read_required_field-eq_ok k n f context v d e = rw (d, read_required_field, e) refl

module _ (y : Yaml) (neo : LedOrder → ℕ) (t : PwmTypes) where
  open y use {Node, is_defined, field, read}

  module _ (file : Text) (n : Node) (s : Ppuc y) (groups : Groups) (mappings : List CoilGiMapping)
      (valid : validate_ppuc_configuration y neo n ≡ ok tt)
      (eg : parse_switch_groups y n ≡ ok groups)
      (em : parse_coil_gi_mappings y n ≡ ok mappings) where
    abbrev after_file : Ppuc y
    after_file = record s { config = n; switch_groups = groups; coil_gi_mappings = mappings }

    load_file_lem :
        (ws : List Warning)
        → warn_about_unprotected_solenoids y t n ≡ ok ws
        → load_file y neo t (ok n) s ≡ (value ws, after_file)
    unfolding load_file ◌>>=◌ lift pure modify get
    load_file_lem ws ew = rw (valid, load_file, ew, eg, em) refl

  -- The members after the fields of the file are read.
  abbrev pub with_fields : Bool → Text → Text → Text → Ppuc y → Ppuc y
  with_fields debug rom serial platform s = record s {
    debug = debug;
    rom = until_nul rom;
    serial = until_nul serial;
    platform = platform_of (until_nul platform);
  }

  -- The fields as the file has them.
  abbrev pub HasFields : Node → Bool → Text → Text → Text → Type 0
  HasFields n debug rom serial platform =
      (read bool (field n "debug") ≡ some debug)
      × ((read text (field n "rom") ≡ some rom)
          × ((read text (field n "serialPort") ≡ some serial)
              × (read text (field n "platform") ≡ some platform)))

  module _ (s : Ppuc y) (debug : Bool) (rom serial platform : Text)
      (dd : is_defined (field s.config "debug") ≡ true)
      (dr : is_defined (field s.config "rom") ≡ true)
      (ds : is_defined (field s.config "serialPort") ≡ true)
      (dp : is_defined (field s.config "platform") ≡ true)
      (h : HasFields s.config debug rom serial platform) where
    load_fields_fit :
        length (until_nul rom) < rom_bytes
        → length (until_nul serial) < serial_bytes
        → load_fields y neo t s ≡ (value tt, with_fields debug rom serial platform s)
    unfolding load_fields ◌>>=◌ lift pure modify get
    load_fields_fit a b =
        rw
          (
            read_required_field-eq_ok y bool s.config "debug" _ debug dd h.0,
            load_fields,
            read_required_field-eq_ok y text s.config "rom" _ rom dr h.1.0,
            strcpy-fits rom_bytes rom _ a,
            read_required_field-eq_ok y text s.config "serialPort" _ serial ds h.1.1.0,
            strcpy-fits serial_bytes serial _ b,
            read_required_field-eq_ok y text s.config "platform" _ platform dp h.1.1.1,
          )
          refl

    load_fields_rom :
        rom_bytes ≤ length (until_nul rom)
        → load_fields y neo t s ≡ (overflow, record s { debug = debug })
    unfolding load_fields ◌>>=◌ lift pure modify get
    load_fields_rom a =
        rw
          (
            read_required_field-eq_ok y bool s.config "debug" _ debug dd h.0,
            load_fields,
            read_required_field-eq_ok y text s.config "rom" _ rom dr h.1.0,
            strcpy-overflows rom_bytes rom _ a,
          )
          refl

    load_fields_serial :
        length (until_nul rom) < rom_bytes
        → serial_bytes ≤ length (until_nul serial)
        → load_fields y neo t s ≡ (overflow, record s { debug = debug; rom = until_nul rom })
    unfolding load_fields ◌>>=◌ lift pure modify get
    load_fields_serial a b =
        rw
          (
            read_required_field-eq_ok y bool s.config "debug" _ debug dd h.0,
            load_fields,
            read_required_field-eq_ok y text s.config "rom" _ rom dr h.1.0,
            strcpy-fits rom_bytes rom _ a,
            read_required_field-eq_ok y text s.config "serialPort" _ serial ds h.1.1.0,
            strcpy-overflows serial_bytes serial _ b,
          )
          refl

  -- What becomes of a valid file: the members hold its contents, or a text is too long for its
  -- buffer.
  abbrev pub IsLoaded :
      Groups
      → List CoilGiMapping
      → Node
      → Ppuc y
      → List Warning
      → Outcome (List Warning) × Ppuc y
      → Bool
      → Text
      → Text
      → Text
      → Type 0
  IsLoaded groups mappings n s ws r debug rom serial platform =
      ((length (until_nul rom) < rom_bytes)
        × (length (until_nul serial) < serial_bytes)
        × (r ≡ (
          value ws,
          with_fields debug rom serial platform
              (record s { config = n; switch_groups = groups; coil_gi_mappings = mappings }),
        )))
      ⊎ (((rom_bytes ≤ length (until_nul rom)) ⊎ (serial_bytes ≤ length (until_nul serial)))
          × (r.0 ≡ overflow))

  -- A file that passes the validation, and whose groups and mappings can be read, is loaded: the
  -- members hold its debug flag, ROM, serial port and platform, its groups and its mappings, and the
  -- coils that nothing bounds are reported. Only where the name of the ROM has 16 characters or
  -- more, or that of the serial port 128 or more, is memory written behind their buffers instead.
  pub load_configuration_lem :
      (l : LampIsUnique t) (file : Text) (n : Node) (s : Ppuc y) (groups : Groups)
      (mappings : List CoilGiMapping)
      → validate_ppuc_configuration y neo n ≡ ok tt
      → parse_switch_groups y n ≡ ok groups
      → parse_coil_gi_mappings y n ≡ ok mappings
      → (ws : List Warning) × (debug : Bool) × (rom : Text) × (serial : Text) × (platform : Text)
        × Warned y 0 (outputs_of y t l n) ws
        × HasFields n debug rom serial platform
        × IsLoaded groups mappings n s ws
            (load_configuration y neo t file (ok n) s)
            debug
            rom
            serial
            platform
  unfolding load_configuration catch ◌>>=◌ lift pure modify get
  load_configuration_lem l file n s groups mappings valid eg em =
      let v = (validate_ppuc_configuration_lem y neo n).0 valid in
      let ((dd, (debug, ed)), ((dr, (rom, er)), ((ds, (serial, es)), ((dp, (platform, ep)), _)))) =
        v.root_fields in
      let (ws, ew, w) = warn_about_unprotected_solenoids_lem y t l neo n valid in
      let loaded = load_file_lem file n s groups mappings valid eg em ws ew in
      let s' = after_file file n s groups mappings valid eg em in
      let has : HasFields n debug rom serial platform = (ed, (er, (es, ep))) in
      (
        ws,
        debug,
        rom,
        serial,
        platform,
        w,
        has,
        elim (Bool-cases (ltb (length (until_nul rom)) rom_bytes)) [
          | inr a ↦
              let e = load_fields_rom s' debug rom serial platform dd dr ds dp has (ground arith) in
              inr (inl (ground arith), rw (loaded, load_configuration, e) refl)
          | inl a ↦ elim (Bool-cases (ltb (length (until_nul serial)) serial_bytes)) [
            | inr b ↦
                let e =
                  load_fields_serial s' debug rom serial platform dd dr ds dp has (ground arith)
                    (ground arith) in
                inr (inr (ground arith), rw (loaded, load_configuration, e) refl)
            | inl b ↦ inl (
              ground arith,
              ground arith,
              rw
                  (
                    loaded,
                    load_configuration,
                    load_fields_fit s' debug rom serial platform dd dr ds dp has (ground arith)
                        (ground arith),
                  )
                  refl,
            )
          ]
        ],
      )
