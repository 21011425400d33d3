-- ===== src/Common/Versions/Registry.antt =====
-- src/common/VersionRegistry.ts: the operations on the registry's contract, whose answers are
-- parameters.
use rif_relay.Base.{
  Bool, List, Text, [], any, ap, arith, codes, false, filter, map, not, refl, sym, text_eq, true, ℕ,
  ◌&&◌, ◌++◌, ◌+◌, ◌∙◌, ◌∷◌, ◌≡◌,
}
use rif_relay.Base.Exec.{>>=-eq-ok, Exec, Result, err, modify, ok, pure, ◌>>=◌, ◌>>◌}
use rif_relay.Common.Versions.{VersionEvent, check_version, get_all_versions}
use rif_relay.Common.Versions.Names.{bytes32_to_string, string32}

-- A transaction of the registry's owner.
pub data RegistryChange : Type 0 where
  adds_version : (id version : Text) → (value : Text) → RegistryChange
  cancels_version : (id version : Text) → (reason : Text) → RegistryChange

pub record RegistryEnv : Type 0 where
  pub registry_code : ℕ → Result Text
  pub events_of : (id : Text) → ℕ → Result (List VersionEvent)
  pub added_ids : ℕ → Result (List Text)
  pub change_answer : RegistryChange → ℕ → Result (Unit {0})

-- The number of requests, and the changes that were sent.
pub record RegistryState : Type 0 where
  pub asked : ℕ
  pub changes : List RegistryChange

abbrev ask_registry : {A : Type 0} → (ℕ → Result A) → Exec RegistryState A
ask_registry r s = (r s.asked, record s { asked = s.asked + 1 })

-- The first of equal texts, as in a `Set`.
unfoldable pub distinct : List Text → List Text
distinct [] = []
distinct (x ∷ xs) = x ∷ filter (λ y. not (text_eq x y)) (distinct xs)

module _ (env : RegistryEnv) where
  unfoldable pub is_valid : Exec RegistryState Bool
  is_valid = do
    code ← ask_registry env.registry_code
    pure (not (text_eq code (codes "0x")) && not (text_eq code (codes "0x00")))

  unfoldable pub list_ids : Exec RegistryState (List Text)
  list_ids = do ids ← ask_registry env.added_ids; pure (distinct (map bytes32_to_string ids))

  -- An error of the request counts as no versions.
  unfoldable pub check_change :
      (id version : Text) → (validate_exists : Bool) → Exec RegistryState (Unit {0})
  check_change id version validate_exists s = (
    check_version (env.events_of (string32 id) s.asked) version validate_exists,
    record s { asked = s.asked + 1 },
  )

  unfoldable pub send_change : RegistryChange → Exec RegistryState (Unit {0})
  send_change c = do
    ask_registry (env.change_answer c)
    modify (λ s. record s { changes = s.changes ++ c ∷ [] })

  unfoldable pub add_version : (id version : Text) → (value : Text) → Exec RegistryState (Unit {0})
  add_version id version value = do
    _ ← check_change id version false
    send_change (adds_version (string32 id) (string32 version) value)

  unfoldable pub cancel_version :
      (id version : Text) → (reason : Text) → Exec RegistryState (Unit {0})
  cancel_version id version reason = do
    _ ← check_change id version true
    send_change (cancels_version (string32 id) (string32 version) reason)

  send_change-changes :
      (c : RegistryChange) (s s' : RegistryState) (u : Unit {0})
      → send_change c s ≡ (ok u, s')
      → s'.changes ≡ s.changes ++ c ∷ []
  unfolding send_change
  send_change-changes c s s' u h =
      let (v, e, h1) = >>=-eq-ok _ _ s h in sym (ap (λ p. p.1.changes) h1)

  check_version-absent :
      (es : List VersionEvent) (version : Text) (u : Unit {0})
      → check_version (ok es) version false ≡ ok u
      → any (λ v. text_eq v.version version) (get_all_versions es) ≡ false
  unfolding check_version
  check_version-absent es version u h = ground (arith, h)

  check_version-there :
      (r : Result (List VersionEvent)) (version : Text) (u : Unit {0})
      → check_version r version true ≡ ok u
      → (es : List VersionEvent) × (r ≡ ok es)
        × (any (λ v. text_eq v.version version) (get_all_versions es) ≡ true)
  unfolding check_version
  check_version-there (ok es) version u h = (es, refl, ground (arith, h))
  check_version-there (err x) version u h = absurd (ground (arith, h))

  -- A version that was added was not there, as far as the registry answered.
  pub add_version-absent :
      (id version value : Text) (s s' : RegistryState) (u : Unit {0})
      → add_version id version value s ≡ (ok u, s')
      → (s'.changes ≡ s.changes ++ adds_version (string32 id) (string32 version) value ∷ [])
        × ((es : List VersionEvent)
            → env.events_of (string32 id) s.asked ≡ ok es
            → any (λ v. text_eq v.version version) (get_all_versions es) ≡ false)
  unfolding add_version check_change
  add_version-absent id version value s s' u h =
      let (v, e, h1) = >>=-eq-ok _ _ s h in
      (
        send_change-changes _ _ s' u h1,
        λ es listed.
            check_version-absent es version v
              (sym (ap (λ r. check_version r version false) listed) ∙ ap (λ p. p.0) e),
      )

  -- A version that was canceled is one that the registry listed.
  pub cancel_version-there :
      (id version reason : Text) (s s' : RegistryState) (u : Unit {0})
      → cancel_version id version reason s ≡ (ok u, s')
      → (s'.changes ≡ s.changes ++ cancels_version (string32 id) (string32 version) reason ∷ [])
        × ((es : List VersionEvent) × (env.events_of (string32 id) s.asked ≡ ok es)
            × (any (λ v. text_eq v.version version) (get_all_versions es) ≡ true))
  unfolding cancel_version check_change
  cancel_version-there id version reason s s' u h =
      let (v, e, h1) = >>=-eq-ok _ _ s h in
      (
        send_change-changes _ _ s' u h1,
        check_version-there (env.events_of (string32 id) s.asked) version v (ap (λ p. p.0) e),
      )
