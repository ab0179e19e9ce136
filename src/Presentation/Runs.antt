-- ===== src/Presentation/Runs.antt =====
-- Ids and a presentation over a toy hash.
use seam_sdk.Prelude.{◌≡◌, refl, [], ◌∷◌, codes, ok}
use seam_sdk.Bytes.{Bytes}
use seam_sdk.Tct.{encode_ascii}
use seam_sdk.Client.{hexdigest}
use seam_sdk.Presentation.{derived_uuid, uuid_text}
use seam_sdk.Presentation.Derived.{IsVersion4, derived_uuid-IsVersion4}

-- Sixteen bytes 0xff, and then what is hashed.
abbrev all_ones : Bytes → Bytes
all_ones b =
    255 ∷ 255 ∷ 255 ∷ 255 ∷ 255 ∷ 255 ∷ 255 ∷ 255 ∷ 255 ∷ 255 ∷ 255 ∷ 255 ∷ 255 ∷ 255 ∷ 255 ∷ 255
    ∷ b

abbrev id : Bytes
id =
    255 ∷ 255 ∷ 255 ∷ 255 ∷ 255 ∷ 255 ∷ 0x4f ∷ 255 ∷ 0xbf ∷ 255 ∷ 255 ∷ 255 ∷ 255 ∷ 255 ∷ 255 ∷ 255
    ∷ []

derived : derived_uuid all_ones (codes "t") [] ≡ ok id
unfolding derived_uuid encode_ascii
derived = refl

printed : uuid_text id ≡ codes "ffffffff-ffff-4fff-bfff-ffffffffffff"
unfolding uuid_text hexdigest
printed = refl

derived_uuid-IsVersion4_example : IsVersion4 id
derived_uuid-IsVersion4_example = derived_uuid-IsVersion4 all_ones (codes "t") [] id derived
