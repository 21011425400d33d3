-- ===== src/Config/Start/Settled.antt =====
-- src/relayserver/runServer.ts: the values of the configuration that a server starts with.
use rif_relay.Base.{
  List, Option, Text, [], ap, arith, codes, false, refl, sym, text_eq, ◌∙◌, ◌∷◌, ◌≡◌,
}
use rif_relay.Base.Dict.{IsDistinct, get, get-put, or_get}
use rif_relay.Base.Exec.{>>=-eq-ok, ok}
use rif_relay.Common.Interactor.{ChainState}
use rif_relay.Config.{Setting, Settings, a_list}
use rif_relay.Config.Server.{StartEnv, arguments_of, config_file, parse_server_config}
use rif_relay.Config.Server.Defaults.{server_default_configuration}
use rif_relay.Config.Server.Resolved.{resolve_server_config-IsHubOf}
use rif_relay.Config.Server.Typed.{typed_at}
use rif_relay.Config.Server.Typed.Parsed.{
  IsStart, env_value, parse_server_config-IsDistinct, parse_server_config-get, string_names,
}
use rif_relay.Config.Start.{ProcessEnv, server_settings, with_verifiers}

module _ (process : ProcessEnv) (start : StartEnv) (args : List Text) (env : Settings) where
  get-with_verifiers :
      (vs : List Text) (config : Settings) (k : Text)
      → text_eq (codes "trustedVerifiers") k ≡ false
      → get k (with_verifiers process vs config) ≡ get k config
  unfolding with_verifiers
  get-with_verifiers [] config k e = refl
  get-with_verifiers (v ∷ vs) config k e =
      ground (arith, e, get-put (codes "trustedVerifiers") k (a_list (v ∷ vs)) config)

  -- In the configuration that a server starts with, each name but those of the hub and of the trusted
  -- verifiers has the value of the command line, which is read with the declared names of texts as
  -- strings, or else that of the environment if the name is declared, or else that of the configuration
  -- file, in its declared type, or else its default.
  pub server_settings-get :
      (on_line : List Text → List Text → Text → Option Setting) (config : Settings)
      (s s' : ChainState)
      → IsStart start on_line
      → IsDistinct env
      → server_settings process start args env s ≡ (ok config, s')
      → (file : Settings) × (config_file start (arguments_of start args env).options ≡ ok file)
        × ((k : Text)
            → text_eq (codes "relayHubAddress") k ≡ false
            → text_eq (codes "trustedVerifiers") k ≡ false
            → get k config
              ≡ or_get
                  (typed_at k
                    (or_get (on_line args string_names k) (or_get (env_value k env) (get k file))))
                  (get k server_default_configuration))
  unfolding server_settings
  server_settings-get on_line config s s' law d h =
      let (conf, e1, h1) = >>=-eq-ok _ _ s h in
      let (u2, e2, h2) = >>=-eq-ok _ _ _ h1 in
      let (vs, e3, h3) = >>=-eq-ok _ _ _ h2 in
      let (resolved, e4, h4) = >>=-eq-ok _ _ _ h3 in
      let parsed : parse_server_config start args env ≡ ok conf = ap (λ p. p.0) e1 in
      let (file, read, values) = parse_server_config-get start args env on_line conf law d parsed in
      let same : with_verifiers process vs resolved ≡ config = ground (arith, h4) in
      let rest =
        resolve_server_config-IsHubOf _ conf resolved _ _
          (parse_server_config-IsDistinct start args env conf parsed) e4 in
      (
        file,
        read,
        λ k other_hub other_list.
            ap (get k) (sym same)
            ∙ get-with_verifiers vs resolved k other_list
            ∙ rest.5 k other_hub
            ∙ ap (λ o. or_get o (get k server_default_configuration)) (values k),
      )
