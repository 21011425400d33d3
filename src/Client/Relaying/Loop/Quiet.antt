-- ===== src/Client/Relaying/Loop/Quiet.antt =====
-- src/relayclient/RelayClient.ts: the steps of a try that announce no relay.
-- The urls of the relays that were tried, by the events.
use rif_relay.Base.{Bool, List, Text, [], ap, append-nil, if◌then◌else◌, refl, ◌++◌, ◌∙◌, ◌∷◌, ◌≡◌}
use rif_relay.Base.Exec.{Error, Exec, Result, lift, pure, require, ◌>>=◌}
use rif_relay.Base.Steps.{
  IsPreorder, Steps, Steps-bind, Steps-if, Steps-lift, Steps-pure, Steps-require,
}
use rif_relay.Client.Accounts.{AccountState}
use rif_relay.Client.Relaying.{
  ClientEnv, RelayEvent, Session, TransactionDetails, emit, is_deploy, next_relay, on_accounts,
  on_chain, relayer_response, send_to_relayer, sign_request, validate_request,
}
use rif_relay.Client.Relaying.Attempt.{
  prepare_and_check, prepare_deploy_and_check, prepare_relay_and_check,
}
use rif_relay.Client.Relaying.Estimates.{
  estimate_token_transfer_gas, pays_tokens, token_gas_cost, token_origin, transfer_cost,
}
use rif_relay.Client.Relaying.Loop.{token_gas_for}
use rif_relay.Client.Relaying.Prepare.{
  prepare_deploy_http_request, prepare_relay_http_request, signed_metadata,
}
use rif_relay.Common.Interactor.{ChainState, is_zero_address}
use rif_relay.Common.Requests.{AnyRequest}
use rif_relay.Common.Utils.{Address}

unfoldable pub tried_urls : List RelayEvent → List Text
tried_urls [] = []
tried_urls (next_relay url ∷ es) = url ∷ tried_urls es
tried_urls (e ∷ es) = tried_urls es

abbrev IsQuiet : RelayEvent → Type 0
IsQuiet e = tried_urls (e ∷ []) ≡ []

pub tried_urls-append :
    (es fs : List RelayEvent) → tried_urls (es ++ fs) ≡ tried_urls es ++ tried_urls fs
unfolding tried_urls
tried_urls-append [] fs = refl
tried_urls-append (next_relay url ∷ es) fs = ap (λ us. url ∷ us) (tried_urls-append es fs)
tried_urls-append (e ∷ es) fs = tried_urls-append es fs

-- No relay is announced.
unfoldable pub Quiet : Session → Session → Type 0
Quiet s t = tried_urls t.events ≡ tried_urls s.events

pub Quiet-IsPreorder : IsPreorder Quiet
unfolding Quiet
Quiet-IsPreorder = record { same = λ s. refl; then_ = λ s t u f g. g ∙ f }

module _ {A : Type 0} where
  pub on_chain-Quiet : (m : Exec ChainState A) → Steps Quiet (on_chain m)
  unfolding Quiet
  on_chain-Quiet m = record { at = λ s. refl }

  pub on_accounts-Quiet : (m : Exec AccountState A) → Steps Quiet (on_accounts m)
  unfolding Quiet
  on_accounts-Quiet m = record { at = λ s. refl }

emit-Quiet : (e : RelayEvent) → IsQuiet e → Steps Quiet (emit e)
unfolding Quiet
emit-Quiet e q = record {
  at = λ s.
      tried_urls-append s.events (e ∷ [])
      ∙ ap (λ us. tried_urls s.events ++ us) q
      ∙ append-nil (tried_urls s.events);
}

sign_request-Quiet : Steps Quiet (emit sign_request)
unfolding tried_urls
sign_request-Quiet = emit-Quiet sign_request refl

validate_request-Quiet : Steps Quiet (emit validate_request)
unfolding tried_urls
validate_request-Quiet = emit-Quiet validate_request refl

pub send_to_relayer-Quiet : (url : Text) → Steps Quiet (emit (send_to_relayer url))
unfolding tried_urls
send_to_relayer-Quiet url = emit-Quiet (send_to_relayer url) refl

pub relayer_response-Quiet : (success : Bool) → Steps Quiet (emit (relayer_response success))
unfolding tried_urls
relayer_response-Quiet success = emit-Quiet (relayer_response success) refl

abbrev pub quiet : IsPreorder Quiet
quiet = Quiet-IsPreorder

module _ {A : Type 0} where
  pub pure-Quiet : (a : A) → Steps Quiet (pure a)
  pure-Quiet = Steps-pure Quiet quiet

  pub lift-Quiet : (r : Result A) → Steps Quiet (lift r)
  lift-Quiet = Steps-lift Quiet quiet

  pub bind-Quiet :
      {B : Type 0} (m : Exec Session A) (f : A → Exec Session B)
      → Steps Quiet m
      → ((a : A) → Steps Quiet (f a))
      → Steps Quiet (m >>= f)
  bind-Quiet = Steps-bind Quiet quiet

pub require-Quiet : (b : Bool) (e : Error) → Steps Quiet (require b e)
require-Quiet = Steps-require Quiet quiet

-- How the parts of a method stay quiet.
pub ruleset quiet_parts =
    (bind-Quiet, pure-Quiet, lift-Quiet, require-Quiet, on_chain-Quiet, on_accounts-Quiet)

pub if-Quiet :
    {A : Type 0} (b : Bool) (m n : Exec Session A)
    → Steps Quiet m
    → Steps Quiet n
    → Steps Quiet (if b then m else n)
if-Quiet b m n km kn = Steps-if Quiet quiet b m n (λ _. km) (λ _. kn)

module _ (env : ClientEnv) where
  transfer_cost-Quiet :
      (details : TransactionDetails) (worker origin : Address)
      → Steps Quiet (transfer_cost env details worker origin)
  unfolding transfer_cost
  transfer_cost-Quiet details worker origin =
      if-Quiet (is_zero_address origin) _ _ (pure-Quiet 0) (on_chain-Quiet _)

  estimate_token_transfer_gas-Quiet :
      (details : TransactionDetails) (worker : Address)
      → Steps Quiet (estimate_token_transfer_gas env details worker)
  unfolding estimate_token_transfer_gas
  estimate_token_transfer_gas-Quiet details worker =
      bind-Quiet (token_gas_cost env details worker) _
        (if-Quiet (pays_tokens env details) _ _
          (bind-Quiet (lift (token_origin env details)) (transfer_cost env details worker)
            (lift-Quiet _) (transfer_cost-Quiet details worker))
          (pure-Quiet 0))
        (λ cost. pure-Quiet _)

  pub token_gas_for-Quiet :
      (needed : Bool) (worker : Address) (details : TransactionDetails)
      → Steps Quiet (token_gas_for env needed worker details)
  unfolding token_gas_for
  token_gas_for-Quiet needed worker details =
      if-Quiet needed _ _
        (bind-Quiet (estimate_token_transfer_gas env details worker) _
          (estimate_token_transfer_gas-Quiet details worker) (λ gas. pure-Quiet _))
        (pure-Quiet details)

  signed_metadata-Quiet :
      (request : AnyRequest) (worker : Address) → Steps Quiet (signed_metadata env request worker)
  unfolding signed_metadata
  signed_metadata-Quiet request worker = search (quiet_parts, sign_request-Quiet) depth 12

  prepare_relay_http_request-Quiet :
      (worker : Address) (details : TransactionDetails)
      → Steps Quiet (prepare_relay_http_request env worker details)
  unfolding prepare_relay_http_request
  prepare_relay_http_request-Quiet worker details =
      search (quiet_parts, signed_metadata-Quiet) depth 20

  prepare_deploy_http_request-Quiet :
      (worker : Address) (details : TransactionDetails)
      → Steps Quiet (prepare_deploy_http_request env worker details)
  unfolding prepare_deploy_http_request
  prepare_deploy_http_request-Quiet worker details =
      search (quiet_parts, signed_metadata-Quiet) depth 20

  pub prepare_and_check-Quiet :
      (worker : Address) (details : TransactionDetails)
      → Steps Quiet (prepare_and_check env worker details)
  unfolding prepare_and_check prepare_deploy_and_check prepare_relay_and_check
  prepare_and_check-Quiet worker details =
      if-Quiet (is_deploy details) _ _
        (search (quiet_parts, prepare_deploy_http_request-Quiet, validate_request-Quiet) depth 20)
        (search (quiet_parts, prepare_relay_http_request-Quiet, validate_request-Quiet) depth 20)
