-- ===== src/Client/Discovery/Gap.antt =====
-- src/relayclient/SmartWalletDiscovery.ts: the search for wallets ends, and what it finds.
use rif_relay.Base.{
  All, All-append, Bool-cases, List, Memᴰ, [], arith, false, if◌then◌else◌, inl, inr, leb, ltb,
  refl, suc, text_eq_refl, true, zero, ℕ, ◌+◌, ◌-◌, ◌<◌, ◌||◌, ◌∷◌, ◌≡◌, ◌≤◌,
}
use rif_relay.Client.Discovery.{
  DiscoveryEnv, entry, is_found, search_account, search_trx, search_wallets,
}
use rif_relay.Common.Constants.{zero_address}
use rif_relay.Common.Utils.{Address}

module _ (env : DiscoveryEnv) where
  -- No wallet of the owner from index `bound` on is active.
  abbrev pub IsBounded : Address → ℕ → Type 0
  IsBounded owner bound = (i : ℕ) → bound ≤ i → search_trx env (env.wallet_of owner i) ≡ false

  -- Rounds that are enough from an index with a gap.
  abbrev pub rounds : (bound gap index : ℕ) → ℕ
  rounds bound gap index =
      if ltb index bound then bound - index + (env.s_wallet_gap + 2) else env.s_wallet_gap + 2 - gap

  -- The loop's run to its end, from a gap and an index: it stops once the gap is passed, a hit is kept
  -- and closes the gap, a miss widens it.
  pub data Scans (owner : Address) : (gap index : ℕ) → List Address → Type 0 where
    ends_scan : {gap index : ℕ} → env.s_wallet_gap < gap → Scans owner gap index []
    keeps_hit :
        {gap index : ℕ} {ws : List Address}
        → gap ≤ env.s_wallet_gap
        → search_trx env (env.wallet_of owner index) ≡ true
        → Scans owner 0 (index + 1) ws
        → Scans owner gap index (env.wallet_of owner index ∷ ws)
    passes_miss :
        {gap index : ℕ} {ws : List Address}
        → gap ≤ env.s_wallet_gap
        → search_trx env (env.wallet_of owner index) ≡ false
        → Scans owner (gap + 1) (index + 1) ws
        → Scans owner gap index ws

  -- Where no wallet from some index on is active, the rounds from the index to it, and the gap with two
  -- more, are enough for the search to run to its end: it returns the wallets of that run.
  pub search_wallets-Scans :
      (fuel gap index bound : ℕ) (owner : Address)
      → IsBounded owner bound
      → rounds bound gap index ≤ fuel
      → Scans owner gap index (search_wallets env fuel gap index owner)
  unfolding search_wallets
  search_wallets-Scans zero gap index bound owner b enough = ends_scan (ground (arith, enough))
  search_wallets-Scans (suc fuel) gap index bound owner b enough =
      elim (Bool-cases (leb gap env.s_wallet_gap)) [
        | inr e ↦ rw e (ends_scan (ground (arith, e)))
        | inl e ↦ elim (Bool-cases (search_trx env (env.wallet_of owner index))) [
          | inl a ↦
              let below : index < bound = elim (Bool-cases (ltb index bound)) [
                | inl l ↦ ground (arith, l)
                | inr l ↦ absurd (ground (arith, a, b index (ground (arith, l))))
              ] in
              rw (e, a)
                (keeps_hit (ground (arith, e)) a
                  (search_wallets-Scans fuel 0 (index + 1) bound owner b (ground arith)))
          | inr a ↦
              rw (e, a)
                (passes_miss (ground (arith, e)) a (
                  search_wallets-Scans fuel (gap + 1) (index + 1) bound owner b
                    (ground (arith, e))))
        ]
      ]

  -- Every wallet found is one of the owner's and is active.
  pub search_wallets_sound :
      (fuel gap index : ℕ) (owner : Address)
      → All
          (λ w. (search_trx env w ≡ true) × ((i : ℕ) × (w ≡ env.wallet_of owner i)))
          (search_wallets env fuel gap index owner)
  unfolding search_wallets
  search_wallets_sound zero gap index owner = tt
  search_wallets_sound (suc fuel) gap index owner = elim (Bool-cases (leb gap env.s_wallet_gap)) [
    | inr e ↦ rw e tt
    | inl e ↦ elim (Bool-cases (search_trx env (env.wallet_of owner index))) [
      | inl a ↦ rw (e, a) ((a, (index, refl)), search_wallets_sound fuel 0 (index + 1) owner)
      | inr a ↦ rw (e, a) (search_wallets_sound fuel (gap + 1) (index + 1) owner)
    ]
  ]

  -- An active wallet that is not further ahead than what is left of the gap is found, with more rounds
  -- than it is ahead.
  pub search_wallets-reach :
      (fuel gap index ahead : ℕ) (owner : Address)
      → ahead < fuel
      → gap + ahead ≤ env.s_wallet_gap
      → search_trx env (env.wallet_of owner (index + ahead)) ≡ true
      → Memᴰ (env.wallet_of owner (index + ahead)) (search_wallets env fuel gap index owner)
  unfolding search_wallets
  search_wallets-reach zero gap index ahead owner hf hg active = absurd (omega arith)
  search_wallets-reach (suc fuel) gap index zero owner hf hg active =
      let here : index + 0 ≡ index = omega arith in
      let now : search_trx env (env.wallet_of owner index) ≡ true = rw here at active in
      let open_ : leb gap env.s_wallet_gap ≡ true = ground arith in
      rw (here, open_, now) (Memᴰ.head refl)
  search_wallets-reach (suc fuel) gap index (suc ahead) owner hf hg active =
      let next : index + suc ahead ≡ (index + 1) + ahead = omega arith in
      let open_ : leb gap env.s_wallet_gap ≡ true = ground arith in
      let there : search_trx env (env.wallet_of owner ((index + 1) + ahead)) ≡ true =
        rw next at active in
      elim (Bool-cases (search_trx env (env.wallet_of owner index))) [
        | inl a ↦
            rw (next, open_, a)
              (Memᴰ.tail (
                search_wallets-reach fuel 0 (index + 1) ahead owner (omega arith) (omega arith)
                  there))
        | inr a ↦
            rw (next, open_, a)
              (search_wallets-reach fuel (gap + 1) (index + 1) ahead owner (omega arith)
                (omega arith) there)
      ]

  entry_sound :
      (a : Address) (wallets : List Address)
      → All
          (λ d. (search_trx env d.eoa_account || is_found d.sw_accounts) ≡ true)
          (entry env a wallets)
  unfolding entry
  entry_sound a wallets = elim (Bool-cases (search_trx env a || is_found wallets)) [
    | inl e ↦ ground (arith, e)
    | inr e ↦ ground (arith, e, text_eq_refl zero_address)
  ]

  -- Every account that is noted is active itself or has a wallet that is.
  pub search_account_sound :
      (wfuel fuel gap index account : ℕ)
      → All
          (λ d. (search_trx env d.eoa_account || is_found d.sw_accounts) ≡ true)
          (search_account env wfuel fuel gap index account)
  unfolding search_account
  search_account_sound wfuel zero gap index account = tt
  search_account_sound wfuel (suc fuel) gap index account =
      let a = env.address_of account index in
      let wallets = search_wallets env wfuel 0 0 a in
      let gap' = if search_trx env a || is_found wallets then 0 else gap + 1 in
      elim (Bool-cases (leb gap env.eoa_gap)) [
        | inr e ↦ rw e tt
        | inl e ↦ rw e (
            All-append (λ d. (search_trx env d.eoa_account || is_found d.sw_accounts) ≡ true)
              (entry env a wallets) (search_account env wfuel fuel gap' (index + 1) account)
              (entry_sound a wallets) (search_account_sound wfuel fuel gap' (index + 1) account))
      ]
