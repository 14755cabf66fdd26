-- ===== src/Firmware/Version.antt =====
-- The order of firmware versions by `FirmwareOrdinal` of src/PPUC_structs.h.
use libppuc.Common.{◌^◌, ◌<◌, ◌≡◌, ◌⊎◌, ◌↔◌, arith}
use libppuc.Firmware.{BoardVersion, firmware_ordinal}

-- The three parts are of type uint8_t.
pub record IsVersion (v : BoardVersion) : Type 0 where
  pub major : v.firmware_major < 2 ^ 8
  pub minor : v.firmware_minor < 2 ^ 8
  pub patch : v.firmware_patch < 2 ^ 8

-- Older in the major part, or there equal and older in the minor part, or equal in both and older
-- in the patch.
abbrev pub Older : BoardVersion → BoardVersion → Type 0
Older v w =
    (v.firmware_major < w.firmware_major)
    ⊎ ((v.firmware_major ≡ w.firmware_major)
        × ((v.firmware_minor < w.firmware_minor)
            ⊎ ((v.firmware_minor ≡ w.firmware_minor) × (v.firmware_patch < w.firmware_patch))))

-- The ordinals of two versions, whose parts are bytes, compare as the versions do, part by part.
pub firmware_ordinal-Older :
    (v w : BoardVersion)
    → IsVersion v
    → IsVersion w
    → (firmware_ordinal v < firmware_ordinal w) ↔ Older v w
unfolding firmware_ordinal
firmware_ordinal-Older v w a b =
    let x = a.minor in let y = a.patch in let z = b.minor in let u = b.patch in ground arith
