-- ===== src/Config/Client/Parts/Wired.antt =====
-- src/relayclient/Configurator.ts: which parts a client is made of.
use rif_relay.Base.{
  All, Bool, Bool-cases, Option, Option-cases, Text, [], ap, arith, codes, false, inl, inr, none,
  or_else, some, subst, text_eq, text_eq_iff, text_eq_refl, true, ◌∷◌, ◌≡◌,
}
use rif_relay.Base.Dict.{All-get, Dict, get}
use rif_relay.Base.Exec.{Result, Result-cases, ok}
use rif_relay.Config.{Setting, Settings}
use rif_relay.Config.Client.Parts.{
  Dependency, Overrides, account_manager_of, are_known, get_dependencies, interactor_of,
  override_at, wired,
}

module _ (config : Settings) (overrides : Overrides) where
  -- An entry is the override of its name, if there is one.
  IsOverride : Text × Dependency → Type 0
  IsOverride (j, v) =
      (d : Dependency)
      → override_at j overrides ≡ some d
      → text_eq (codes "config") j ≡ false
      → v ≡ d

  are_known-found :
      (ret : Dict Dependency) (os : Overrides) (k : Text) (o : Option Dependency)
      → are_known ret os ≡ true
      → get k os ≡ some o
      → (v : Dependency) × (get k ret ≡ some v)
  unfolding are_known get
  are_known-found ret [] k o t e = cc
  are_known-found ret ((j, d) ∷ os) k o t e = elim (Option-cases (get j ret)) [
    | inl missing ↦ absurd (ground (arith, missing, t))
    | inr (v, found) ↦ elim (Bool-cases (text_eq j k)) [
      | inl same ↦ (v, subst (λ i. get i ret ≡ some v) ((text_eq_iff j k).0 same) found)
      | inr other ↦ are_known-found ret os k o (ground (arith, found, t)) (ground (arith, other, e))
    ]
  ]

  interactor_of-override :
      (p : Bool) (o : Option Dependency) (i d : Dependency)
      → interactor_of config p o ≡ ok i
      → o ≡ some d
      → i ≡ d
  unfolding interactor_of
  interactor_of-override p (some x) i d h e = ground (arith, h, e)
  interactor_of-override true none i d h e = cc
  interactor_of-override false none i d h e = cc

  account_manager_of-override :
      (p : Bool) (known : Result Setting) (o : Option Dependency) (a d : Dependency)
      → account_manager_of config p known o ≡ ok a
      → o ≡ some d
      → a ≡ d
  unfolding account_manager_of
  account_manager_of-override p known (some x) a d h e = ground (arith, h, e)
  account_manager_of-override true known none a d h e = cc
  account_manager_of-override false known none a d h e = cc

  or_else-some :
      {o : Option Dependency} {d : Dependency} (made : Dependency) → o ≡ some d → or_else o made ≡ d
  or_else-some made e = ap (λ o. or_else o made) e

  wired-All :
      (p : Bool) (known : Result Setting) (i a : Dependency)
      → interactor_of config p (override_at (codes "contractInteractor") overrides) ≡ ok i
      → account_manager_of config p known (override_at (codes "accountManager") overrides) ≡ ok a
      → All IsOverride (wired config overrides i a)
  unfolding wired IsOverride
  wired-All p known i a hi ha = (
    λ d e n. or_else-some _ e,
    (
      λ d e n. interactor_of-override p _ i d hi e,
      (
        λ d e n. or_else-some _ e,
        (
          λ d e n. account_manager_of-override p known _ a d ha e,
          (
            λ d e n. or_else-some _ e,
            (
              λ d e n. or_else-some _ e,
              (
                λ d e n. or_else-some _ e,
                (
                  λ d e n. or_else-some _ e,
                  (λ d e n. absurd (ground (arith, n, text_eq_refl (codes "config"))), tt),
                ),
              ),
            ),
          ),
        ),
      ),
    ),
  )

  get_dependencies-cases :
      (known_chain : Dependency → Result Setting) (p : Bool) (ret : Dict Dependency)
      → get_dependencies known_chain config p overrides ≡ ok ret
      → (i a : Dependency) × (interactor_of config p
            (override_at (codes "contractInteractor") overrides)
          ≡ ok i)
        × (account_manager_of config p
              (known_chain i)
              (override_at (codes "accountManager") overrides)
            ≡ ok a)
        × (are_known (wired config overrides i a) overrides ≡ true)
        × (wired config overrides i a ≡ ret)
  unfolding get_dependencies
  get_dependencies-cases known_chain p ret h =
      elim (Result-cases
        (interactor_of config p (override_at (codes "contractInteractor") overrides))) [
          | inr (x, e) ↦ absurd (ground (arith, e, h))
          | inl (i, e) ↦
              elim (Result-cases (
                account_manager_of config p (known_chain i)
                  (override_at (codes "accountManager") overrides))) [
                    | inr (x, f) ↦ absurd (ground (arith, e, f, h))
                    | inl (a, f) ↦
                        elim (Bool-cases (are_known (wired config overrides i a) overrides)) [
                          | inl g ↦ (i, a, e, f, g, ground (arith, e, f, g, h))
                          | inr g ↦ absurd (ground (arith, e, f, g, h))
                        ]
                  ]
        ]

  -- Where the parts of a client are returned, each name of an override is one of the parts', and an
  -- override that is not null, other than of the configuration, is the part of its name.
  pub get_dependencies-overrides :
      (known_chain : Dependency → Result Setting) (p : Bool) (ret : Dict Dependency)
      → get_dependencies known_chain config p overrides ≡ ok ret
      → (k : Text) (o : Option Dependency) → get k overrides ≡ some o
      → (v : Dependency) × (get k ret ≡ some v)
        × ((d : Dependency) → o ≡ some d → text_eq (codes "config") k ≡ false → v ≡ d)
  unfolding override_at IsOverride
  get_dependencies-overrides known_chain p ret h k o e =
      let (i, a, hi, ha, known, same) = get_dependencies-cases known_chain p ret h in
      let (v, found) = are_known-found (wired config overrides i a) overrides k o known e in
      (
        v,
        subst (λ r. get k r ≡ some v) same found,
        λ d given other.
            All-get IsOverride k (wired config overrides i a) v (wired-All p _ i a hi ha) found d
              (ground (arith, e, given)) other,
      )
