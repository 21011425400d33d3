-- ===== src/Client/Provider/Answers.antt =====
-- src/relayclient/RelayProvider.ts: what an answer to a sent transaction means.
use rif_relay.Base.{
  All, Bool-cases, List, Option, Option-cases, Text, [], arith, false, holds, inl, inr, none,
  or_else, refl, some, text_eq, true, ℕ, ◌∷◌, ◌≡◌,
}
use rif_relay.Base.Exec.{Result, Result-cases, err, ok}
use rif_relay.Client.Discovery.Gap.{rounds}
use rif_relay.Client.Provider.{
  JsonRpcPayload, Log, ProviderEnv, SentId, answer_receipt, answer_result, answers_with,
  decoded_status, eth_send_transaction, find_log, get_relay_status, provider_details,
  reverted_event, wait_and_answer,
}
use rif_relay.Client.Relaying.{Session, TransactionDetails}
use rif_relay.Client.Relaying.Loop.{RelayingResult, relay_transaction}
use rif_relay.Common.Constants.{wait_for_receipt_initial_backoff, wait_for_receipt_retries}
use rif_relay.Common.Interactor.{TransactionReceipt}
use rif_relay.Common.Interactor.Receipts.{get_transaction_receipt, get_transaction_receipt_sound}

find_log-none :
    (name : Text) (logs : List (Option Log))
    → find_log name logs ≡ none
    → All (λ l. holds (λ k. text_eq k.name name) l ≡ false) logs
unfolding find_log
find_log-none name [] h = tt
find_log-none name (none ∷ logs) h = (refl, find_log-none name logs h)
find_log-none name (some l ∷ logs) h = elim (Bool-cases (text_eq l.name name)) [
  | inl same ↦ absurd (ground (arith, same))
  | inr other ↦ (other, find_log-none name logs (ground (arith, other)))
]

module _ (env : ProviderEnv) where
  -- The logs that are read of a receipt: none where it has none.
  abbrev pub logs_of : TransactionReceipt → List (Option Log)
  logs_of receipt = elim receipt.logs [
    | none ↦ []
    | some [] ↦ []
    | some (l ∷ ls) ↦ env.decode_logs (l ∷ ls)
  ]

  -- No event of the receipt says that the recipient reverted.
  abbrev pub IsNotReverted : TransactionReceipt → Type 0
  IsNotReverted receipt =
      All (λ l. holds (λ k. text_eq k.name reverted_event) l ≡ false) (logs_of receipt)

  logs-IsNotReverted :
      (logs : Option (List Text))
      → (get_relay_status env (record { logs = logs })).relay_reverted_on_recipient ≡ false
      → IsNotReverted (record { logs = logs })
  unfolding get_relay_status decoded_status
  logs-IsNotReverted none h = tt
  logs-IsNotReverted (some []) h = tt
  logs-IsNotReverted (some (l ∷ ls)) h =
      let logs = env.decode_logs (l ∷ ls) in
      elim (Option-cases (find_log reverted_event logs)) [
        | inl e ↦ find_log-none reverted_event logs e
        | inr (found, e) ↦ absurd (ground (arith, e))
      ]

  relayed_not_reverted :
      (logs : Option (List Text))
      → (get_relay_status env (record { logs = logs })).transaction_relayed ≡ true
      → (get_relay_status env (record { logs = logs })).relay_reverted_on_recipient ≡ false
  unfolding get_relay_status decoded_status
  relayed_not_reverted none h = refl
  relayed_not_reverted (some []) h = refl
  relayed_not_reverted (some (l ∷ ls)) h =
      elim (Option-cases (find_log reverted_event (env.decode_logs (l ∷ ls)))) [
        | inl e ↦ ground (arith, e)
        | inr (found, e) ↦ absurd (ground (arith, e))
      ]

  answer_receipt-answered :
      (payload : JsonRpcPayload) (raw : Text) (r : Result TransactionReceipt) (id : SentId)
      (hash : Text)
      → answer_receipt env payload raw r ≡ answers_with id hash
      → (receipt : TransactionReceipt) × (r ≡ ok receipt)
        × (hash ≡ env.client.hash_of raw)
        × IsNotReverted receipt
  unfolding answer_receipt
  answer_receipt-answered payload raw (err e) id hash h = absurd (ground arith)
  answer_receipt-answered payload raw (ok receipt) id hash h =
      let status = get_relay_status env receipt in
      let not_reverted : status.relay_reverted_on_recipient ≡ false =
        elim (Bool-cases status.transaction_relayed) [
          | inl yes_ ↦ relayed_not_reverted receipt.logs yes_
          | inr no_ ↦ ground (arith, no_, h)
        ] in
      (
        receipt,
        refl,
        elim (Bool-cases status.transaction_relayed) [
          | inl yes_ ↦ ground (arith, yes_, h)
          | inr no_ ↦ ground (arith, no_, not_reverted, h)
        ],
        logs-IsNotReverted receipt.logs not_reverted,
      )

  -- A response to a sent transaction has the hash of the transaction that was relayed, of which the
  -- node gave a receipt, and no event in the receipt says that the recipient reverted.
  pub eth_send_transaction_answered :
      (fuel rounds : ℕ) (payload : JsonRpcPayload) (details : TransactionDetails) (s s' : Session)
      (id : SentId) (hash : Text)
      → eth_send_transaction env fuel rounds payload details s ≡ (ok (answers_with id hash), s')
      → (r : RelayingResult) × (raw : Text) × (receipt : TransactionReceipt) × (time : ℕ)
        × ((relay_transaction env.client fuel rounds (provider_details env details) s).0 ≡ ok r)
        × (r.transaction ≡ some raw)
        × (hash ≡ env.client.hash_of raw)
        × (env.client.chain.receipt (env.client.hash_of raw) time ≡ ok (some receipt))
        × IsNotReverted receipt
  unfolding eth_send_transaction answer_result wait_and_answer
  eth_send_transaction_answered fuel rounds payload details s s' id hash h =
      let given = provider_details env details in
      let sent = relay_transaction env.client fuel rounds given s in
      elim (Result-cases sent.0) [
        | inr (x, e) ↦ absurd (ground (arith, e))
        | inl (r, e) ↦ elim (Option-cases r.transaction) [
          | inl nothing ↦ absurd (ground (arith, e, nothing))
          | inr (raw, there) ↦
              let waited =
                get_transaction_receipt env.client.chain (env.client.hash_of raw)
                  (or_else given.retries wait_for_receipt_retries)
                  (or_else given.initial_backoff wait_for_receipt_initial_backoff) sent.1.chain in
              let (receipt, f, same, clean) =
                answer_receipt-answered payload raw waited.0 id hash
                  (ground (arith, e, there, h)) in
              let (time, found) =
                get_transaction_receipt_sound env.client.chain (env.client.hash_of raw)
                  (or_else given.retries wait_for_receipt_retries)
                  (or_else given.initial_backoff wait_for_receipt_initial_backoff) sent.1.chain
                  waited.1 receipt (λ i. (f i, waited.1)) in
              (r, raw, receipt, time, e, there, same, found, clean)
        ]
      ]
