-- ===== src/Inputs/Runs.antt =====
-- Inputs that are resolved and refused.
use seam_sdk.Prelude.{◌≡◌, refl, none, some, [], codes, ok, err, canonicalization_error}
use seam_sdk.Jcs.{none_value, other_value, str_value, jcs_canonicalize}
use seam_sdk.Inputs.{bytes_given, other_given, resolve_canonical, input_or_empty}
use seam_sdk.Inputs.Resolves.{Resolution, resolve_canonical-Resolution}
use seam_sdk.Bytes.{encode, encode_char}

no_input : resolve_canonical 100 none_value none ≡ ok (codes "{}")
unfolding resolve_canonical jcs_canonicalize input_or_empty encode encode_char
no_input = refl

refuses_object : resolve_canonical 100 other_value none ≡ err canonicalization_error
unfolding resolve_canonical jcs_canonicalize input_or_empty
refuses_object = refl

refuses_both :
    resolve_canonical 100 (str_value []) (some (bytes_given (codes "{}")))
    ≡ err canonicalization_error
unfolding resolve_canonical
refuses_both = refl

refuses_empty :
    resolve_canonical 100 none_value (some (bytes_given [])) ≡ err canonicalization_error
unfolding resolve_canonical
refuses_empty = refl

resolve_canonical-Resolution_example :
    Resolution 100 none_value
      (some other_given)
      (resolve_canonical 100 none_value (some other_given))
resolve_canonical-Resolution_example =
    resolve_canonical-Resolution 100 none_value (some other_given)
