-- ===== src/Config/Server/Resolved.antt =====
-- src/relayserver/ServerConfigParams.ts: what a resolved configuration holds.
use rif_relay.Base.{
  Bool, List, Option, Text, [], ap, arith, codes, false, if◌then◌else◌, inl, inr, none, none_of,
  refl, some, subst, text_eq, text_eq_refl, true, ℕ, ◌∙◌, ◌≡◌,
}
use rif_relay.Base.Dict.{
  IsDistinct, get, get-overlay, get-put, or_get, overlay, put, put-IsDistinct,
}
use rif_relay.Base.Exec.{>>=-eq-ok, Error, Result-cases, ok, require_holds, ◌>>=◌}
use rif_relay.Common.Interactor.{ChainState, is_contract_deployed}
use rif_relay.Common.Versions.{VersionEvent, VersionInfo, get_version}
use rif_relay.Config.{Setting, Settings, a_number, a_text, setting_at, text_at}
use rif_relay.Config.Server.{
  ResolveEnv, given_hub, hub_from, latest_version, of_option, period_of, registered_hub,
  resolve_server_config,
}
use rif_relay.Config.Server.Defaults.{server_default_configuration}

-- The configured number of seconds, or none where there is no such number.
pub data IsPeriod (config : Settings) : ℕ → Type 0 where
  given_period :
      {n : ℕ}
      → get (codes "versionRegistryDelayPeriod") config ≡ some (a_number n)
      → IsPeriod config n
  no_period :
      ((n : ℕ) → ¬ (get (codes "versionRegistryDelayPeriod") config ≡ some (a_number n)))
      → IsPeriod config 0

period_of-IsPeriod :
    (config : Settings) (v : Option Setting)
    → get (codes "versionRegistryDelayPeriod") config ≡ v
    → IsPeriod config (period_of v)
unfolding period_of
period_of-IsPeriod config (some (a_number n)) e = given_period e
period_of-IsPeriod config none e = no_period (λ n h. absurd (ground (arith, e, h)))
period_of-IsPeriod config (some v) e = no_period (λ n h. absurd (ground (arith, e, h)))

module _ (env : ResolveEnv) where
  -- The hub that is configured, or the value of a version of the registry's.
  pub data IsHubOf (config : Settings) : Text → Type 0 where
    hub_configured :
        {hub : Text}
        → setting_at (codes "versionRegistryAddress") config ≡ none
        → setting_at (codes "relayHubAddress") config ≡ some (a_text hub)
        → IsHubOf config hub
    hub_of_registry :
        {hub : Text} (registry id : Text) (time later period now : ℕ) (events : List VersionEvent)
        (found : VersionInfo)
        → setting_at (codes "versionRegistryAddress") config ≡ some (a_text registry)
        → setting_at (codes "relayHubAddress") config ≡ none
        → text_at (codes "relayHubId") config ≡ some id
        → IsPeriod config period
        → env.is_address registry ≡ true
        → env.latest_timestamp later ≡ ok now
        → env.registry_events registry id time ≡ ok events
        → get_version events period now [] ≡ ok found
        → found.value ≡ hub
        → IsHubOf config hub

  is_contract_deployed-code :
      (a : Text) (s s' : ChainState) (there : Bool)
      → is_contract_deployed env.chain a s ≡ (ok there, s')
      → there ≡ true
      → (code : Text) × (env.chain.code a s.time ≡ ok code)
        × (text_eq code (codes "0x") ≡ false)
        × (text_eq code (codes "0x00") ≡ false)
  unfolding is_contract_deployed ◌>>=◌
  is_contract_deployed-code a s s' there h t = elim (Result-cases (env.chain.code a s.time)) [
    | inl (code, e) ↦ (code, e, ground (arith, e, h, t), ground (arith, e, h, t))
    | inr (x, e) ↦ absurd (ground (arith, e, h))
  ]

  of_option-eq-ok :
      {A : Type 0} (o : Option A) (e : Error) (s s' : ChainState) (a : A)
      → of_option env o e s ≡ (ok a, s')
      → o ≡ some a
  of_option-eq-ok none e s s' a h = absurd (ground (arith, h))
  of_option-eq-ok (some b) e s s' a h = ground (arith, h)

  registered_hub-IsHubOf :
      (config : Settings) (registry : Text) (s s' : ChainState) (hub : Text)
      → setting_at (codes "versionRegistryAddress") config ≡ some (a_text registry)
      → registered_hub env config registry s ≡ (ok hub, s')
      → IsHubOf config hub × (env.is_address hub ≡ true)
  unfolding registered_hub latest_version
  registered_hub-IsHubOf config registry s s' hub configured h =
      let (u1, e1, h1) = >>=-eq-ok _ _ s h in
      let (id, e2, h2) = >>=-eq-ok _ _ _ h1 in
      let (u3, e3, h3) = >>=-eq-ok _ _ _ h2 in
      let (there, e4, h4) = >>=-eq-ok _ _ _ h3 in
      let (u5, e5, h5) = >>=-eq-ok _ _ _ h4 in
      let (found, e6, h6) = >>=-eq-ok _ _ _ h5 in
      let (u7, e7, h7) = >>=-eq-ok _ _ _ h6 in
      let (events, f1, g1) = >>=-eq-ok _ _ _ e6 in
      let (now, f2, g2) = >>=-eq-ok _ _ _ g1 in
      let same : found.value ≡ hub = ground (arith, h7) in
      (
        hub_of_registry registry id _ _ _ now events found configured
            (none_of (setting_at (codes "relayHubAddress") config) (require_holds _ _ s e1))
            (of_option-eq-ok (text_at (codes "relayHubId") config) _ _ _ id e2)
            (period_of-IsPeriod config (get (codes "versionRegistryDelayPeriod") config) refl)
            (require_holds _ _ _ e3) (ap (λ p. p.0) f2) (ap (λ p. p.0) f1) (ap (λ p. p.0) g2) same,
        subst (λ a. env.is_address a ≡ true) same (require_holds _ _ _ e7),
      )

  given_hub-IsHubOf :
      (config : Settings) (given : Option Setting) (s s' : ChainState) (hub : Text)
      → setting_at (codes "versionRegistryAddress") config ≡ none
      → given_hub env given s ≡ (ok hub, s')
      → setting_at (codes "relayHubAddress") config ≡ given
      → IsHubOf config hub × (env.is_address hub ≡ true)
  unfolding given_hub
  given_hub-IsHubOf config none s s' hub alone h same = absurd (ground (arith, h))
  given_hub-IsHubOf config (some (a_text a)) s s' hub alone h same =
      let (u, e, h1) = >>=-eq-ok _ _ s h in
      let here : a ≡ hub = ground (arith, h1) in
      (
        hub_configured alone
            (subst (λ x. setting_at (codes "relayHubAddress") config ≡ some (a_text x)) here same),
        subst (λ x. env.is_address x ≡ true) here (require_holds _ _ s e),
      )
  given_hub-IsHubOf config (some v) s s' hub alone h same = absurd (ground (arith, h))

  hub_from-IsHubOf :
      (config : Settings) (registry : Option Setting) (s s' : ChainState) (hub : Text)
      → setting_at (codes "versionRegistryAddress") config ≡ registry
      → hub_from env config registry s ≡ (ok hub, s')
      → IsHubOf config hub × (env.is_address hub ≡ true)
  unfolding hub_from
  hub_from-IsHubOf config (some (a_text registry)) s s' hub same h =
      registered_hub-IsHubOf config registry s s' hub same h
  hub_from-IsHubOf config (some v) s s' hub same h = absurd (ground (arith, h))
  hub_from-IsHubOf config none s s' hub same h =
      given_hub-IsHubOf config (setting_at (codes "relayHubAddress") config) s s' hub same h refl

  get-resolved :
      (config : Settings) (hub : Text)
      → IsDistinct config
      → (k : Text)
      → get k
          (overlay server_default_configuration (put (codes "relayHubAddress") (a_text hub) config))
        ≡ (if text_eq (codes "relayHubAddress") k
            then some (a_text hub)
            else or_get (get k config) (get k server_default_configuration))
  get-resolved config hub d k = ground (
    arith,
    get-overlay k server_default_configuration (put (codes "relayHubAddress") (a_text hub) config)
        (put-IsDistinct (codes "relayHubAddress") (a_text hub) config d),
    get-put (codes "relayHubAddress") k (a_text hub) config,
  )

  -- A resolved configuration names a hub, which is an address with code: where no registry is
  -- configured the configured one, else, where none is configured, the value of the version that is
  -- chosen of those that the configured registry lists of the configured id, with the configured period
  -- and the time of the latest block; every other name has the given value, or else its default.
  pub resolve_server_config-IsHubOf :
      (config resolved : Settings) (s s' : ChainState)
      → IsDistinct config
      → resolve_server_config env config s ≡ (ok resolved, s')
      → (hub : Text) × IsHubOf config hub
        × (env.is_address hub ≡ true)
        × (get (codes "relayHubAddress") resolved ≡ some (a_text hub))
        × ((time : ℕ) × (code : Text) × (env.chain.code hub time ≡ ok code)
            × (text_eq code (codes "0x") ≡ false)
            × (text_eq code (codes "0x00") ≡ false))
        × ((k : Text)
            → text_eq (codes "relayHubAddress") k ≡ false
            → get k resolved ≡ or_get (get k config) (get k server_default_configuration))
  unfolding resolve_server_config
  resolve_server_config-IsHubOf config resolved s s' d h =
      let (hub, e1, h1) = >>=-eq-ok _ _ s h in
      let (there, e2, h2) = >>=-eq-ok _ _ _ h1 in
      let (u3, e3, h3) = >>=-eq-ok _ _ _ h2 in
      let (u4, e4, h4) = >>=-eq-ok _ _ _ h3 in
      let (u5, e5, h5) = >>=-eq-ok _ _ _ h4 in
      let (is_hub, address) = hub_from-IsHubOf config _ s _ hub refl e1 in
      let deployed = is_contract_deployed-code hub _ _ there e2 (require_holds _ _ _ e3) in
      let same : resolved
          ≡ overlay server_default_configuration
              (put (codes "relayHubAddress") (a_text hub) config) =
        ground (arith, h5) in
      (
        hub,
        is_hub,
        address,
        ap (get (codes "relayHubAddress")) same
            ∙ get-resolved config hub d (codes "relayHubAddress")
            ∙ ap
                (λ b.
                  if b
                  then some (a_text hub)
                  else or_get (get (codes "relayHubAddress") config)
                      (get (codes "relayHubAddress") server_default_configuration))
                (text_eq_refl (codes "relayHubAddress")),
        (_, deployed.0, deployed.1, deployed.2, deployed.3),
        λ k e.
            ap (get k) same
            ∙ get-resolved config hub d k
            ∙ ap
                (λ b.
                  if b
                  then some (a_text hub)
                  else or_get (get k config) (get k server_default_configuration))
                e,
      )
