-- ===== src/Common/Versions.antt =====
-- src/common/VersionRegistry.ts. Events come from the contract; names are texts, and a version is
-- compared in the form that both kinds of events carry.
pub mod Listed
pub mod Mature
pub mod Names
pub mod Registry
use rif_relay.Base.{
  Bool, List, Option, Text, [], any, find, if◌then◌else◌, is_some, leb, none, not, reverse, some,
  text_eq, ℕ, ◌&&◌, ◌+◌, ◌||◌, ◌∷◌,
}
use rif_relay.Base.Dict.{Dict, get, put}
use rif_relay.Base.Exec.{Result, err, no_such_version, no_version, ok, version_exists}

pub record VersionInfo : Type 0 where
  pub value : Text
  pub version : Text
  pub time : ℕ
  pub cancel_reason : Option Text

pub data VersionEvent : Type 0 where
  version_added : (version : Text) → (value : Text) → (time : ℕ) → VersionEvent
  version_canceled : (version : Text) → (reason : Text) → VersionEvent

abbrev pub is_canceled : VersionInfo → Bool
is_canceled v = is_some v.cancel_reason

-- The reasons by version; a later cancellation overwrites.
unfoldable pub cancel_reasons : List VersionEvent → Dict Text → Dict Text
cancel_reasons [] reasons = reasons
cancel_reasons (version_canceled v r ∷ es) reasons = cancel_reasons es (put v r reasons)
cancel_reasons (version_added v x t ∷ es) reasons = cancel_reasons es reasons

-- The added versions, the first of each.
unfoldable pub added : Dict Text → List VersionEvent → (found : List Text) → List VersionInfo
added reasons [] found = []
added reasons (version_canceled v r ∷ es) found = added reasons es found
added reasons (version_added v x t ∷ es) found =
    if any (λ w. text_eq w v) found
    then added reasons es found
    else record { value = x; version = v; time = t; cancel_reason = get v reasons }
      ∷ added reasons es (v ∷ found)

unfoldable pub get_all_versions : List VersionEvent → List VersionInfo
get_all_versions events = reverse (added (cancel_reasons events []) events [])

-- Not canceled, and old enough or asked for.
unfoldable pub is_mature : (delay now : ℕ) → (opt_in : Text) → VersionInfo → Bool
is_mature delay now opt_in v =
    not (is_canceled v) && (leb (v.time + delay) now || text_eq v.version opt_in)

unfoldable pub get_version :
    List VersionEvent → (delay now : ℕ) → (opt_in : Text) → Result VersionInfo
get_version events delay now opt_in =
    elim (find (is_mature delay now opt_in) (get_all_versions events)) [
      | none ↦ err no_version
      | some v ↦ ok v
    ]

-- `validate_exists`: whether the version has to be there.
unfoldable pub check_version :
    Result (List VersionEvent) → (version : Text) → (validate_exists : Bool) → Result (Unit {0})
check_version events version validate_exists =
    let versions : List VersionInfo = elim events [ err e ↦ [] | ok es ↦ get_all_versions es ] in
    let exists = any (λ v. text_eq v.version version) versions in
    if exists && not validate_exists
    then err version_exists
    else if not exists && validate_exists
    then err no_such_version
    else ok tt
