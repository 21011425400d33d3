-- ===== src/Base/Exec.antt =====
-- Asynchronous methods that change an object and may throw. What was written before a throw stays
-- written, so the state comes back beside the error too.
use mathlib.Core.Bool.{Bool, false, true}
use mathlib.Core.Logic.{inl, inr, ◌⊎◌}
use mathlib.Core.Path.{ap, refl, ◌∙◌, ◌≡◌}
use native.Mathlib.Omega.{arith}
use rif_relay.Base.Strings.{Text}

-- Each `throw` of the modelled code, and the rejections that come from outside it.
pub data Error : Type 0 where
  node_error unique_violated : Error
  invalid_tx not_managed hash_mismatch : Error
  not_initialized not_ready wrong_shape wrong_hub wrong_worker low_gas_price low_max_nonce : Error
  no_hub untrusted_verifier unknown_verifier gas_deviation verifier_failed view_call_reverted :
      Error
  no_custom_replenish no_gas_price older_block already_initialized not_started : Error
  too_many_events no_register_event relay_not_ready : Error
  nonce_too_high nonce_too_long no_version version_exists no_such_version : Error
  no_relayers out_of_fuel more_than_allowed never_settles : Error
  no_forwarder bad_gas_price bad_gas not_deploy no_wallet invalid_number : Error
  low_worker_balance destination_reverted bad_response no_signed_tx : Error
  invalid_keypair wrong_signature no_receipt unsupported_hub no_data deploys_contract : Error
  not_running wrong_chain other_owner already_registered : Error
  unexpected_param invalid_param no_config_file missing_param both_hubs bad_address : Error
  no_contract not_provider no_override unknown_override : Error
  no_interactor no_accounts user_rejected no_funded_account : Error
  seed_and_workdir : Error
  -- An error from outside with its message, and one without.
  message : Text → Error
  no_message : Error
  -- An error that is thrown because of another one.
  rejected sign_failed verifier_rejected call_reverted : Error → Error

pub data Result {ℓ} (A : Type ℓ) : Type ℓ where
  ok : A → Result A
  err : Error → Result A

abbrev pub Exec {ℓ} : Type ℓ → Type ℓ → Type ℓ
Exec S A = S → Result A × S

module _ {ℓ} {S A : Type ℓ} where
  abbrev pub pure : A → Exec S A
  pure a s = (ok a, s)

  abbrev pub raise : Error → Exec S A
  raise e s = (err e, s)

  abbrev pub lift : Result A → Exec S A
  lift r s = (r, s)

  abbrev pub gets : (S → A) → Exec S A
  gets f s = (ok (f s), s)

  -- `try { m } catch (e) { f(e) }`.
  unfoldable pub catch : Exec S A → (Error → Exec S A) → Exec S A
  catch m f s = let (r, s') = m s in elim r [ ok a ↦ (ok a, s') | err e ↦ f e s' ]

module _ {ℓ} {S A B : Type ℓ} where
  abbrev pub continue : Result A → (A → Exec S B) → Exec S B
  continue (ok a) f s = f a s
  continue (err e) f s = (err e, s)

  infixl 10 ◌>>=◌ ◌>>◌
  unfoldable pub ◌>>=◌ : Exec S A → (A → Exec S B) → Exec S B
  ◌>>=◌ m f s = let (r, s') = m s in continue r f s'

  abbrev pub ◌>>◌ : Exec S A → Exec S B → Exec S B
  m >> n = m >>= λ _. n

abbrev pub modify : {S : Type 0} → (S → S) → Exec S (Unit {0})
modify f s = (ok tt, f s)

-- `if (!b) throw e`.
abbrev pub require : {S : Type 0} → Bool → Error → Exec S (Unit {0})
require true e s = (ok tt, s)
require false e s = (err e, s)

pub Result-cases {ℓ} :
    {A : Type ℓ} (r : Result A) → ((a : A) × (r ≡ ok a)) ⊎ ((e : Error) × (r ≡ err e))
Result-cases (ok a) = inl (a, refl)
Result-cases (err e) = inr (e, refl)

-- A chain that returned: its first part returned, and so did the rest.
module _ {S A B : Type 0} where
  continue-eq-ok :
      (r : Result A) (f : A → Exec S B) (s : S) {b : B} {s' : S}
      → continue r f s ≡ (ok b, s')
      → (a : A) × (r ≡ ok a) × (f a s ≡ (ok b, s'))
  continue-eq-ok (ok a) f s e = (a, refl, e)
  continue-eq-ok (err x) f s e = cc

  pub >>=-ok :
      (m : Exec S A) (f : A → Exec S B) (s : S) {s' : S} {a : A} {r : Result B × S}
      → m s ≡ (ok a, s')
      → f a s' ≡ r
      → (m >>= f) s ≡ r
  unfolding ◌>>=◌
  >>=-ok m f s e h = ap (λ p. continue p.0 f p.1) e ∙ h

  pub >>=-eq-ok :
      (m : Exec S A) (f : A → Exec S B) (s : S) {b : B} {s' : S}
      → (m >>= f) s ≡ (ok b, s')
      → (a : A) × (m s ≡ (ok a, (m s).1)) × (f a (m s).1 ≡ (ok b, s'))
  unfolding ◌>>=◌
  >>=-eq-ok m f s e =
      let (a, p, q) = continue-eq-ok (m s).0 f (m s).1 e in (a, λ i. (p i, (m s).1), q)

-- A test that passed, and the state after a test.
pub require_holds :
    {S : Type 0} (b : Bool) (e : Error) (s : S) {s' : S} {u : Unit {0}}
    → require b e s ≡ (ok u, s')
    → b ≡ true
require_holds true e s h = refl
require_holds false e s h = cc

pub require_state : {S : Type 0} (b : Bool) (e : Error) (s : S) → (require b e s).1 ≡ s
require_state true e s = refl
require_state false e s = refl

pub pure-eq-ok :
    {S A : Type 0} {a b : A} {s t : S} → pure {S = S} a s ≡ (ok b, t) → (a ≡ b) × (s ≡ t)
pure-eq-ok e = (ground (arith, e), ap (λ p. p.1) e)

-- A test in front of the rest, and a value of the state.
pub require-eq-ok :
    {S B : Type 0} (b : Bool) (e : Error) (f : Unit {0} → Exec S B) (s : S) {a : B} {s' : S}
    → (require b e >>= f) s ≡ (ok a, s')
    → (b ≡ true) × (f tt s ≡ (ok a, s'))
unfolding ◌>>=◌
require-eq-ok true e f s h = (refl, h)
require-eq-ok false e f s h = cc

pub gets-eq-ok :
    {S A B : Type 0} (g : S → A) (f : A → Exec S B) (s : S) {a : B} {s' : S}
    → (gets g >>= f) s ≡ (ok a, s')
    → f (g s) s ≡ (ok a, s')
unfolding ◌>>=◌
gets-eq-ok g f s h = h
