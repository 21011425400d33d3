-- ===== src/Config/Client/Resolved.antt =====
-- src/relayclient/Configurator.ts: the values of a resolved configuration.
use rif_relay.Base.{
  List, Option, Text, [], any, ap, arith, codes, false, if◌then◌else◌, is_some, none, none_of, not,
  or_else, refl, some, subst, sym, text_eq, true, ℕ, ◌||◌, ◌∙◌, ◌∷◌, ◌≡◌,
}
use rif_relay.Base.Dict.{IsDistinct, get, get-overlay, or_get, overlay}
use rif_relay.Base.Exec.{>>=-eq-ok, no_override, not_provider, ok, require_holds, require_state}
use rif_relay.Common.Interactor.{ChainEnv, ChainState}
use rif_relay.Config.{Setting, Settings, a_bool, a_number, a_text, setting_at}
use rif_relay.Config.Client.{
  Web3Provider, default_enveloping_config, metamask_default, resolve_configuration,
  resolved_chain_id,
}

-- The names whose values are resolved.
pub resolved_names : List Text
resolved_names =
    codes "forwarderAddress"
    ∷ codes "chainId"
    ∷ codes "methodSuffix"
    ∷ codes "jsonStringifyRequest"
    ∷ []

module _ (env : ChainEnv) (provider : Web3Provider) (config : Settings) where
  -- The chain id that is given, or else the one that the node answers.
  pub data IsChainOf (s : ChainState) : Setting → Type 0 where
    chain_given : {v : Setting} → setting_at (codes "chainId") config ≡ some v → IsChainOf s v
    chain_asked :
        {n : ℕ}
        → setting_at (codes "chainId") config ≡ none
        → env.net_chain_id s.time ≡ ok n
        → IsChainOf s (a_number n)

  resolved_chain_id-IsChainOf :
      (given : Option Setting) (s s' : ChainState) (v : Setting)
      → setting_at (codes "chainId") config ≡ given
      → resolved_chain_id env given s ≡ (ok v, s')
      → IsChainOf s v
  unfolding resolved_chain_id
  resolved_chain_id-IsChainOf none s s' v same h =
      let (n, e, h1) = >>=-eq-ok _ _ s h in
      let here : a_number n ≡ v = ground (arith, h1) in
      subst (IsChainOf s) here (chain_asked same (ap (λ p. p.0) e))
  resolved_chain_id-IsChainOf (some w) s s' v same h =
      let here : w ≡ v = ground (arith, h) in subst (IsChainOf s) here (chain_given same)

  module _ (forwarder chain suffix flag : Setting) where
    rows : Settings
    rows =
        (codes "forwarderAddress", forwarder)
        ∷ (codes "chainId", chain)
        ∷ (codes "methodSuffix", suffix)
        ∷ (codes "jsonStringifyRequest", flag)
        ∷ []

    get-rows :
        (k : Text) (base : Settings) → get k (overlay base rows) ≡ or_get (get k rows) (get k base)
    unfolding rows IsDistinct get rif_relay.Base.Strings.text_eq
    get-rows k base = get-overlay k base rows (refl, (refl, (refl, (refl, tt))))

    get-rows-other :
        (k : Text) (base : Settings)
        → any (λ j. text_eq j k) resolved_names ≡ false
        → get k (overlay base rows) ≡ get k base
    unfolding rows resolved_names get
    get-rows-other k base e =
        let missing : get k rows ≡ none = ground (arith, e) in
        get-rows k base ∙ ap (λ o. or_get o (get k base)) missing

  -- A resolved configuration is of a web3 provider and was given no hub; its chain id is the given one
  -- or the node's, its forwarder the given one or an empty text, its method suffix and its flag for
  -- texts the given ones or those that suit the wallet, and every other name has the given value, or
  -- else its default.
  pub resolve_configuration-IsChainOf :
      (resolved : Settings) (s s' : ChainState)
      → IsDistinct config
      → resolve_configuration env provider config s ≡ (ok resolved, s')
      → ((provider.has_send || provider.has_send_async) ≡ true)
        × (setting_at (codes "relayHubAddress") config ≡ none)
        × ((v : Setting) × IsChainOf s v × (get (codes "chainId") resolved ≡ some v))
        × (get (codes "forwarderAddress") resolved
            ≡ some (or_else (setting_at (codes "forwarderAddress") config) (a_text [])))
        × (get (codes "methodSuffix") resolved
            ≡ some (
                or_else
                  (setting_at (codes "methodSuffix") config)
                  (if provider.is_metamask then a_text (codes "_v4") else a_text [])))
        × (get (codes "jsonStringifyRequest") resolved
            ≡ some (
                or_else
                  (setting_at (codes "jsonStringifyRequest") config)
                  (if provider.is_metamask then a_bool true else a_bool false)))
        × ((k : Text)
            → any (λ j. text_eq j k) resolved_names ≡ false
            → get k resolved ≡ or_get (get k config) (get k default_enveloping_config))
  unfolding resolve_configuration rows metamask_default get rif_relay.Base.Strings.text_eq
  resolve_configuration-IsChainOf resolved s s' d h =
      let (u1, e1, h1) = >>=-eq-ok _ _ s h in
      let (u2, e2, h2) = >>=-eq-ok _ _ _ h1 in
      let (v, e3, h3) = >>=-eq-ok _ _ _ h2 in
      let same : overlay (overlay default_enveloping_config config) (
            rows (or_else (setting_at (codes "forwarderAddress") config) (a_text [])) v
              (or_else (setting_at (codes "methodSuffix") config)
                (metamask_default provider (a_text (codes "_v4")) (a_text [])))
              (or_else (setting_at (codes "jsonStringifyRequest") config)
                (metamask_default provider (a_bool true) (a_bool false))))
          ≡ resolved =
        ground (arith, h3) in
      (
        require_holds _ _ s e1,
        none_of (setting_at (codes "relayHubAddress") config) (require_holds _ _ _ e2),
        (
          v,
          subst (λ t. IsChainOf t v)
              (require_state (not (is_some (setting_at (codes "relayHubAddress") config)))
                  no_override _
                ∙ require_state (provider.has_send || provider.has_send_async) not_provider s)
              (resolved_chain_id-IsChainOf _ _ _ v refl e3),
          ap (get (codes "chainId")) (sym same) ∙ get-rows _ _ _ _ _ _,
        ),
        ap (get (codes "forwarderAddress")) (sym same) ∙ get-rows _ _ _ _ _ _,
        ap (get (codes "methodSuffix")) (sym same) ∙ get-rows _ _ _ _ _ _,
        ap (get (codes "jsonStringifyRequest")) (sym same) ∙ get-rows _ _ _ _ _ _,
        λ k e.
            ap (get k) (sym same)
            ∙ get-rows-other _ _ _ _ k _ e
            ∙ get-overlay k default_enveloping_config config d,
      )
