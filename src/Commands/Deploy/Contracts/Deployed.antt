-- ===== src/Commands/Deploy/Contracts/Deployed.antt =====
-- src/cli/CommandsLogic.ts: which contracts a deployment creates.
use mathlib.Core.Option.{some_inj}
use rif_relay.Base.{
  All, All-append, Bool, List, Option, Text, [], ap, append-nil, arith, false, if◌then◌else◌, none,
  refl, some, subst, sym, true, ◌++◌, ◌∙◌, ◌∷◌, ◌≡◌,
}
use rif_relay.Base.Exec.{>>=-eq-ok, Exec, ok, pure, pure-eq-ok, ◌>>=◌}
use rif_relay.Commands.Deploy.{
  Argument, Creation, DeployEnv, DeployOptions, DeployState, confirm, deploy_contracts,
  get_contract, note_version,
}
use rif_relay.Commands.Deploy.Contracts.{
  IsDeployed, IsGivenAt, add, at_with, contracts, created, created-append, named,
}
use rif_relay.Common.Utils.{Address}
use rif_relay.Config.Files.{Deployment}

module _ (env : DeployEnv) (options : DeployOptions) where
  -- What no step of a deployment but its own changes.
  IsSame : (s s' : DeployState) → Type 0
  IsSame s s' = (s'.creations ≡ s.creations) × (s'.added_versions ≡ s.added_versions)

  confirm-IsSame :
      (skips : Bool) (s s' : DeployState) (u : Unit {0})
      → (if skips then pure tt else confirm) s ≡ (ok u, s')
      → IsSame s s'
  unfolding confirm IsSame
  confirm-IsSame true s s' u h =
      (sym (ap (λ p. p.1.creations) h), sym (ap (λ p. p.1.added_versions) h))
  confirm-IsSame false s s' u h =
      (sym (ap (λ p. p.1.creations) h), sym (ap (λ p. p.1.added_versions) h))

  -- What a contract that is needed leaves behind.
  get_contract-add :
      (contract : Text) (arguments : List Argument) (g : Option Address) (s s' : DeployState)
      (a : Address)
      → get_contract env options contract arguments g s ≡ (ok a, s')
      → (s'.creations ≡ add g (at_with contract arguments a) s.creations)
        × (s'.added_versions ≡ s.added_versions)
        × IsGivenAt (g, at_with contract arguments a)
  unfolding get_contract IsGivenAt IsSame
  get_contract-add contract arguments (some b) s s' a h =
      let here : b ≡ a = ground (arith, h) in
      (
        sym (ap (λ p. p.1.creations) h),
        sym (ap (λ p. p.1.added_versions) h),
        λ c e. sym here ∙ some_inj.0 e,
      )
  get_contract-add contract arguments none s s' a h =
      let (gas, e1, h1) = >>=-eq-ok _ _ s h in
      let (u, e2, h2) = >>=-eq-ok _ _ _ h1 in
      let (b, e3, h3) = >>=-eq-ok _ _ _ h2 in
      let (u4, e4, h4) = >>=-eq-ok _ _ _ h3 in
      let (before, versions) = confirm-IsSame options.skip_confirmation _ _ u e2 in
      let (same, ended) = pure-eq-ok h4 in
      (
        sym (ap (λ t. t.creations) ended)
            ∙ ap (λ cs. cs ++ at_with contract arguments b ∷ []) before
            ∙ ap (λ x. s.creations ++ at_with contract arguments x ∷ []) same,
        sym (ap (λ t. t.added_versions) ended) ∙ versions,
        λ x e. cc,
      )

  note_version-named :
      (id : Option Text) (hub : Address) (s s' : DeployState) (u : Unit {0})
      → note_version env options id hub s ≡ (ok u, s')
      → (s'.creations ≡ s.creations) × (s'.added_versions ≡ s.added_versions ++ named id hub)
  unfolding note_version named
  note_version-named none hub s s' u h =
      let (same, ended) = pure-eq-ok h in
      (
        sym (ap (λ t. t.creations) ended),
        sym (ap (λ t. t.added_versions) ended) ∙ sym (append-nil s.added_versions),
      )
  note_version-named (some id) hub s s' u h =
      let (v, e1, h1) = >>=-eq-ok _ _ s h in
      let ended = (pure-eq-ok h1).1 in
      (sym (ap (λ t. t.creations) ended), sym (ap (λ t. t.added_versions) ended))

  -- What was built on the way from a first state, and what was added to the registry.
  IsBuilt :
      List (Option Address × Creation)
      → List (Text × Text × Address)
      → (first s : DeployState) → Type 0
  IsBuilt passed_by versions first s =
      (s.creations ≡ created passed_by first.creations)
      × All IsGivenAt passed_by
      × (s.added_versions ≡ first.added_versions ++ versions)

  nothing-IsBuilt : (s : DeployState) → IsBuilt [] [] s s
  unfolding IsBuilt created
  nothing-IsBuilt s = (refl, tt, sym (append-nil s.added_versions))

  -- The next contract, and the rest of the deployment.
  contract_step :
      (contract : Text) (arguments : List Argument) (g : Option Address)
      (f : Address → Exec DeployState (Deployment Address)) (first s s' : DeployState)
      (d : Deployment Address) (passed_by : List (Option Address × Creation))
      (versions : List (Text × Text × Address)) {C : Type 0}
      → IsBuilt passed_by versions first s
      → (get_contract env options contract arguments g >>= f) s ≡ (ok d, s')
      → ((a : Address) (t : DeployState)
          → IsBuilt (passed_by ++ (g, at_with contract arguments a) ∷ []) versions first t
          → f a t ≡ (ok d, s')
          → C)
      → C
  unfolding IsBuilt created
  contract_step contract arguments g f first s s' d passed_by versions (made, given, named_) h k =
      let (a, e, h1) = >>=-eq-ok (get_contract env options contract arguments g) f s h in
      let (c, v, at) = get_contract-add contract arguments g s _ a e in
      let row : Option Address × Creation = (g, at_with contract arguments a) in
      k a _
        (
          c
              ∙ ap (add g (at_with contract arguments a)) made
              ∙ sym (created-append passed_by (row ∷ []) first.creations),
          All-append IsGivenAt passed_by (row ∷ []) given (at, tt),
          v ∙ named_,
        )
        h1

  version_step :
      (id : Option Text) (hub : Address) (f : Unit {0} → Exec DeployState (Deployment Address))
      (first s s' : DeployState) (d : Deployment Address)
      (passed_by : List (Option Address × Creation)) {C : Type 0}
      → IsBuilt passed_by [] first s
      → (note_version env options id hub >>= f) s ≡ (ok d, s')
      → ((t : DeployState) → IsBuilt passed_by (named id hub) first t → f tt t ≡ (ok d, s') → C)
      → C
  unfolding IsBuilt
  version_step id hub f first s s' d passed_by (made, given, none_yet) h k =
      let (u, e, h1) = >>=-eq-ok (note_version env options id hub) f s h in
      let (c, v) = note_version-named id hub s _ u e in
      k _
        (
          c ∙ made,
          given,
          v ∙ ap (λ l. l ++ named id hub) (none_yet ∙ append-nil first.added_versions),
        )
        h1

  -- The ended state, in which the configuration is set.
  IsBuilt-IsDeployed :
      (d : Deployment Address) (s t : DeployState)
      → IsBuilt (contracts options d) (named options.registry_hub_id d.relay_hub) s t
      → IsDeployed options s
          (record t {
            config_hub = d.relay_hub;
            config_deploy_verifier = d.deploy_verifier;
            config_relay_verifier = d.relay_verifier;
          })
          d
  unfolding IsBuilt IsDeployed
  IsBuilt-IsDeployed d s t (made, given, versions) = (made, given, versions, refl, refl, refl)

  IsDeployed-same :
      {x d : Deployment Address} (s : DeployState) {t s' : DeployState}
      → IsDeployed options s t x
      → x ≡ d
      → t ≡ s'
      → IsDeployed options s s' d
  IsDeployed-same {d} s {t} b same ended =
      subst (λ u. IsDeployed options s u d) ended (subst (IsDeployed options s t) same b)

  -- A deployment that succeeds created, in order, exactly the contracts that were not given, each with
  -- the addresses of the contracts it rests on; given ones are used as they are; the hub is added to
  -- the registry where an id is given; and the configuration has the hub and its verifiers.
  pub deploy_contracts-IsDeployed :
      (s s' : DeployState) (d : Deployment Address)
      → deploy_contracts env options s ≡ (ok d, s')
      → IsDeployed options s s' d
  unfolding deploy_contracts contracts
  deploy_contracts-IsDeployed s s' d h =
      contract_step _ _ _ _ s _ s' d _ _ (nothing-IsBuilt s) h λ a_p t_p b_p h_p.
        contract_step _ _ _ _ s _ s' d _ _ b_p h_p λ a_w t_w b_w h_w.
          contract_step _ _ _ _ s _ s' d _ _ b_w h_w λ a_f t_f b_f h_f.
            contract_step _ _ _ _ s _ s' d _ _ b_f h_f λ a_cw t_cw b_cw h_cw.
              contract_step _ _ _ _ s _ s' d _ _ b_cw h_cw λ a_cf t_cf b_cf h_cf.
                contract_step _ _ _ _ s _ s' d _ _ b_cf h_cf λ a_hub t_hub b_hub h_hub.
                  contract_step _ _ _ _ s _ s' d _ _ b_hub h_hub λ a_reg t_reg b_reg h_reg.
                    version_step _ _ _ s _ s' d _ b_reg h_reg λ tV bV hV.
                      contract_step _ _ _ _ s _ s' d _ _ bV hV λ a_dv t_dv b_dv h_dv.
                        contract_step _ _ _ _ s _ s' d _ _ b_dv h_dv λ a_cdv t_cdv b_cdv h_cdv.
                          contract_step _ _ _ _ s _ s' d _ _ b_cdv h_cdv λ a_rv t_rv b_rv h_rv.
                            contract_step _ _ _ _ s _ s' d _ _ b_rv h_rv λ a_crv t_crv b_crv h_crv.
                              let (u, e, h_end) = >>=-eq-ok _ _ t_crv h_crv in
                              let (same, ended) = pure-eq-ok h_end in
                              IsDeployed-same s (IsBuilt-IsDeployed _ s t_crv b_crv) same ended
