-- ===== src/Common/Tests.antt =====
-- The theorems on versions and their names, at two versions and one name.
use rif_relay.Base.{List, [], arith, codes, none, refl, ◌∷◌, ◌≡◌}
use rif_relay.Common.Versions.{
  VersionEvent, VersionInfo, get_all_versions, get_version, is_mature, version_added,
  version_canceled,
}
use rif_relay.Common.Versions.Mature.{IsLatestMature, get_version-IsLatestMature}
use rif_relay.Common.Versions.Names.{
  IsName, bytes32_to_string, bytes32_to_string-string32, string32,
}

-- Version 1 of time 5, version 2 of time 8, which is canceled.
abbrev versions : List VersionEvent
versions =
    version_added (1 ∷ []) [] 5
    ∷ version_added (2 ∷ []) [] 8
    ∷ version_canceled (2 ∷ []) (9 ∷ [])
    ∷ []

abbrev first_version : VersionInfo
first_version = record { value = []; version = 1 ∷ []; time = 5; cancel_reason = none }

get_version-IsLatestMature_example : IsLatestMature versions 2 10 [] first_version
unfolding get_version get_all_versions rif_relay.Common.Versions.added
    rif_relay.Base.Strings.text_eq is_mature rif_relay.Base.Dict.get
    rif_relay.Common.Versions.cancel_reasons rif_relay.Base.Dict.put
get_version-IsLatestMature_example = get_version-IsLatestMature versions 2 10 [] first_version refl

bytes32_to_string-string32_example : bytes32_to_string (string32 (codes "hub")) ≡ codes "hub"
unfolding IsName
bytes32_to_string-string32_example =
    bytes32_to_string-string32 (codes "hub")
      ((omega arith, omega arith), ((omega arith, omega arith), ((omega arith, omega arith), tt)))
