-- ===== src/Client/Relaying/Prepare/Price.antt =====
-- src/relayclient/RelayClient.ts: the gas price from its calculation to the request.
use rif_relay.Base.{
  Option-cases, Text, ap, arith, codes, inl, inr, max, or_else, some, starts_with-append, true, ℕ,
  ◌*◌, ◌+◌, ◌/◌, ◌∙◌, ◌≡◌,
}
use rif_relay.Base.Exec.{Result-cases, ok, ◌>>=◌}
use rif_relay.Client.Relaying.{
  ClientConfig, ClientEnv, TransactionDetails, calculate_gas_price, client_gas_price,
}
use rif_relay.Client.Relaying.Prepare.{is_hex, relay_request_of}
use rif_relay.Common.Hex.{hex_text, to_string_16}
use rif_relay.Common.Hex.RoundTrip.{parse_int_16-hex_text}
use rif_relay.Common.Interactor.{ChainState}
use rif_relay.Common.Utils.{Address}

client_gas_price-max :
    (config : ClientConfig) (network : ℕ)
    → client_gas_price config network
      ≡ max
          ((network * (config.gas_price_factor_percent + 100) + 50) / 100)
          (or_else config.min_gas_price 0)
unfolding client_gas_price
client_gas_price-max config network = elim (Option-cases config.min_gas_price) [
  | inl e ↦ ground (arith, e)
  | inr (least, e) ↦ ground (arith, e)
]

hex_text-is_hex : (n : ℕ) → is_hex (hex_text n) ≡ true
unfolding hex_text
hex_text-is_hex n = starts_with-append (codes "0x") (to_string_16 n)

-- A calculated price is a text that the preparation accepts, and the request that is prepared from it
-- carries the rounded price of the network with the factor, or the configured least price where that
-- is higher.
pub calculate_gas_price_carried :
    (env : ClientEnv) (s s' : ChainState) (price gas : Text) (details : TransactionDetails)
    (forwarder worker : Address) (nonce : ℕ)
    → calculate_gas_price env s ≡ (ok price, s')
    → (network : ℕ) × (env.chain.gas_price s.time ≡ ok network)
      × (is_hex price ≡ true)
      × ((relay_request_of env details forwarder worker nonce price gas).relay_data.gas_price
          ≡ some (
              max
                ((network * (env.config.gas_price_factor_percent + 100) + 50) / 100)
                (or_else env.config.min_gas_price 0)))
unfolding calculate_gas_price relay_request_of ◌>>=◌
calculate_gas_price_carried env s s' price gas details forwarder worker nonce h =
    elim (Result-cases (env.chain.gas_price s.time)) [
      | inr (x, e) ↦ absurd (ground (arith, e))
      | inl (network, e) ↦
          let its : price ≡ hex_text (client_gas_price env.config network) = ground (arith, e, h) in
          (
            network,
            e,
            rw its (hex_text-is_hex (client_gas_price env.config network)),
            rw its (
                parse_int_16-hex_text (client_gas_price env.config network)
                ∙ ap some (client_gas_price-max env.config network)),
          )
    ]
