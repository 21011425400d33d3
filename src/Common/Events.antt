-- ===== src/Common/Events.antt =====
-- The events of the contracts, and src/common/Utils.ts: their order on the chain, and registration.
pub mod Order
use mathlib.Core.Option
use rif_relay.Base.{
  Bool, List, Option, Text, [], codes, false, head?, holds, if◌then◌else◌, leb, ltb, none, not,
  some, text_eq, true, ℕ, ◌&&◌, ◌++◌, ◌+◌, ◌==◌, ◌∷◌,
}
use rif_relay.Base.Sort.{sort}
use rif_relay.Common.Utils.{Address, is_same_address}

pub data EventKind : Type 0 where
  relay_server_registered relay_workers_added transaction_relayed : EventKind
  transaction_rejected_by_recipient stake_added stake_unlocked stake_withdrawn : EventKind
  stake_penalized : EventKind

-- The parts of a web3 `EventData` that the program reads.
pub record EventData : Type 0 where
  pub kind : EventKind
  pub block_number : ℕ
  pub transaction_index : ℕ
  pub relay_manager : Address
  pub relay_url : Text
  pub new_relay_workers : List Address
  pub withdraw_block : ℕ

-- `event.event === RelayServerRegistered`.
abbrev pub is_registration : EventData → Bool
is_registration e = elim e.kind [ relay_server_registered ↦ true | _ ↦ false ]

unfoldable pub is_second_event_later : EventData → EventData → Bool
is_second_event_later a b =
    if a.block_number == b.block_number
    then ltb a.transaction_index b.transaction_index
    else ltb a.block_number b.block_number

-- The comparison of `getLatestEventData` is not positive: latest first.
unfoldable pub latest_first : EventData → EventData → Bool
latest_first a b =
    if a.block_number == b.block_number
    then leb b.transaction_index a.transaction_index
    else leb b.block_number a.block_number

unfoldable pub get_latest_event_data : List EventData → Option EventData
get_latest_event_data events = head? (sort latest_first events)

-- `s.indexOf(c)`.
unfoldable pub index_of : ℕ → Text → Option ℕ
index_of c [] = none
index_of c (x ∷ xs) = if x == c then some 0 else Option.map (λ i. i + 1) (index_of c xs)

-- `port` and `show` are `config.port` and `Number.prototype.toString`.
unfoldable pub registration_url : (ℕ → Text) → Text → ℕ → Text
unfolding index_of
registration_url show url port =
    let port_included = holds (ltb 0) (index_of 58 url) in
    url ++ (if not port_included && ltb 0 port then codes ":" ++ show port else [])

unfoldable pub is_registration_valid :
    (ℕ → Text) → (url : Text) → (port : ℕ) → Option EventData → Address → Bool
is_registration_valid show url port none manager = false
is_registration_valid show url port (some e) manager =
    is_same_address e.relay_manager manager && text_eq e.relay_url (registration_url show url port)
