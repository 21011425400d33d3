-- ===== src/Config/Start.antt =====
-- src/relayserver/runServer.ts: from the command line to the configuration of the server. The
-- process, its objects and `JSON.parse` are outside.
pub mod Settled
use rif_relay.Base.{Bool, List, Option, Text, [], codes, false, is_some, none, or_else, some, ◌∷◌}
use rif_relay.Base.Dict.{get, put}
use rif_relay.Base.Exec.{Exec, Result, lift, missing_param, ok, pure, require, ◌>>=◌, ◌>>◌}
use rif_relay.Common.Interactor.{ChainState}
use rif_relay.Config.{Setting, Settings, a_bool, a_list, a_null, a_text, setting_at}
use rif_relay.Config.Server.{ResolveEnv, StartEnv, parse_server_config, resolve_server_config}

-- `JSON.parse` of the trusted verifiers, and what the node at a URL answers.
pub record ProcessEnv : Type 0 where
  pub parse_verifiers : Setting → Result (List Text)
  pub node_at : Setting → ResolveEnv

module _ (process : ProcessEnv) where
  unfoldable pub listed_verifiers : Option Setting → Result (List Text)
  listed_verifiers none = ok []
  listed_verifiers (some (a_text [])) = ok []
  listed_verifiers (some v) = process.parse_verifiers v

  unfoldable pub with_verifiers : List Text → Settings → Settings
  with_verifiers [] config = config
  with_verifiers (v ∷ vs) config = put (codes "trustedVerifiers") (a_list (v ∷ vs)) config

  unfoldable pub server_settings :
      StartEnv → (args : List Text) → (env : Settings) → Exec ChainState Settings
  server_settings start args env = do
    conf ← lift (parse_server_config start args env)
    require (is_some (setting_at (codes "rskNodeUrl") conf)) missing_param
    verifiers ← lift (listed_verifiers (setting_at (codes "trustedVerifiers") conf))
    config ←
        resolve_server_config
          (process.node_at (or_else (setting_at (codes "rskNodeUrl") conf) a_null)) conf
    pure (with_verifiers verifiers config)

-- `devMode`: whether the stored transactions are forgotten.
unfoldable pub forgets_store : Settings → Bool
forgets_store config = elim (get (codes "devMode") config) [ some (a_bool b) ↦ b | _ ↦ false ]
