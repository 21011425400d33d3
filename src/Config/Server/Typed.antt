-- ===== src/Config/Server/Typed.antt =====
-- src/relayserver/ServerConfigParams.ts: values in their declared types.
pub mod Declared
pub mod Parsed
use mathlib.Core.Option
use mathlib.Core.Option.{some_inj}
use rif_relay.Base.{
  All, Bool, Bool-cases, List, Option, Option-cases, Text, [], ap, arith, if◌then◌else◌, inl, inr,
  none, refl, some, subst, suc, text_eq, text_eq_iff, zero, ℕ, ◌/◌, ◌==◌, ◌∙◌, ◌∷◌, ◌≡◌,
}
use rif_relay.Base.Dict.{IsDistinct, get}
use rif_relay.Base.Exec.{Result-cases, ok}
use rif_relay.Common.Hex.{parse_int}
use rif_relay.Config.{Setting, a_bool, a_fraction, a_list, a_negative, a_null, a_number, a_text}
use rif_relay.Config.Server.{
  boolean_of, explicit_type, explicit_types, negated, number_of, signed_number, skip_space,
  typed_value,
}
use rif_relay.Config.Server.Defaults.{
  ParamType, boolean_type, config_params_types, number_type, string_type,
}

-- A whole number of either sign.
pub data IsNumber : Setting → Type 0 where
  whole_number : (n : ℕ) → IsNumber (a_number n)
  below_zero : (n : ℕ) → IsNumber (a_negative n)

pub HasType : ParamType → Setting → Type 0
HasType string_type v = Unit
HasType number_type v = IsNumber v
HasType boolean_type v = (b : Bool) × (v ≡ a_bool b)

-- A declared name with a value of its type.
pub IsDeclared : Text × Setting → Type 0
IsDeclared (k, v) = (type : ParamType) × (get k config_params_types ≡ some type) × HasType type v

negated-IsNumber : (o : Option ℕ) (w : Setting) → negated o ≡ some w → IsNumber w
unfolding negated
negated-IsNumber none w h = cc
negated-IsNumber (some zero) w h = subst IsNumber (some_inj.0 h) (whole_number 0)
negated-IsNumber (some (suc n)) w h = subst IsNumber (some_inj.0 h) (below_zero (suc n))

whole-IsNumber : (o : Option ℕ) (w : Setting) → Option.map a_number o ≡ some w → IsNumber w
whole-IsNumber none w h = cc
whole-IsNumber (some n) w h = subst IsNumber (some_inj.0 h) (whole_number n)

signed_number-IsNumber : (t : Text) (w : Setting) → signed_number t ≡ some w → IsNumber w
unfolding signed_number
signed_number-IsNumber [] w h = cc
signed_number-IsNumber (c ∷ s) w h = elim (Bool-cases (c == b'-')) [
  | inl e ↦ negated-IsNumber (parse_int s) w (ground (arith, e, h))
  | inr e ↦
      whole-IsNumber (if c == b'+' then parse_int s else parse_int (c ∷ s)) w (ground (arith, e, h))
]

number_of-IsNumber : (v w : Setting) → number_of v ≡ some w → IsNumber w
unfolding number_of
number_of-IsNumber (a_text t) w h = signed_number-IsNumber (skip_space t) w h
number_of-IsNumber (a_bool b) w h = cc
number_of-IsNumber (a_number n) w h = subst IsNumber (some_inj.0 h) (whole_number n)
number_of-IsNumber (a_negative n) w h = subst IsNumber (some_inj.0 h) (below_zero n)
number_of-IsNumber (a_fraction n d) w h = subst IsNumber (some_inj.0 h) (whole_number (n / d))
number_of-IsNumber (a_list []) w h = cc
number_of-IsNumber (a_list (t ∷ ts)) w h = signed_number-IsNumber (skip_space t) w h
number_of-IsNumber a_null w h = cc

pub typed_value-HasType :
    (type : ParamType) (v w : Setting) → typed_value type v ≡ some w → HasType type w
unfolding typed_value HasType
typed_value-HasType string_type v w h = tt
typed_value-HasType number_type v w h = number_of-IsNumber v w h
typed_value-HasType boolean_type v w h = elim (Option-cases (boolean_of v)) [
  | inl e ↦ absurd (ground (arith, e, h))
  | inr (b, e) ↦ (b, ground (arith, e, h))
]

-- The value of a name in its declared type.
pub typed_at : Text → Option Setting → Option Setting
typed_at k none = none
typed_at k (some v) = elim (get k config_params_types) [
  | none ↦ none
  | some type ↦ typed_value type v
]

explicit_type-eq-ok :
    (k : Text) (v : Setting) (typed : Text × Setting)
    → explicit_type (k, v) ≡ ok typed
    → (w : Setting) × (typed ≡ (k, w)) × (typed_at k (some v) ≡ some w) × IsDeclared (k, w)
unfolding explicit_type typed_at IsDeclared
explicit_type-eq-ok k v typed h = elim (Option-cases (get k config_params_types)) [
  | inl e ↦ absurd (ground (arith, e, h))
  | inr (type, e) ↦ elim (Option-cases (typed_value type v)) [
    | inl f ↦ absurd (ground (arith, e, f, h))
    | inr (w, f) ↦ (
      w,
      ground (arith, e, f, h),
      ground (arith, e, f),
      (type, e, typed_value-HasType type v w f),
    )
  ]
]

-- The typed entries: each is declared, and a name has the typed value of its entry.
pub explicit_types-typed :
    (es ts : List (Text × Setting))
    → explicit_types es ≡ ok ts
    → All IsDeclared ts × ((k : Text) → get k ts ≡ typed_at k (get k es))
unfolding explicit_types get typed_at
explicit_types-typed [] ts h =
    let same : [] ≡ ts = ground (arith, h) in
    subst (λ l. All IsDeclared l × ((k : Text) → get k l ≡ none)) same (tt, λ k. refl)
explicit_types-typed ((j, v) ∷ es) ts h = elim (Result-cases (explicit_type (j, v))) [
  | inr (x, e) ↦ absurd (ground (arith, e, h))
  | inl (typed, e) ↦ elim (Result-cases (explicit_types es)) [
    | inr (x, f) ↦ absurd (ground (arith, e, f, h))
    | inl (more, f) ↦
        let (w, same, value, declared) = explicit_type-eq-ok j v typed e in
        let (rest, at) = explicit_types-typed es more f in
        let its : (j, w) ∷ more ≡ ts = ground (arith, e, f, h, same) in
        subst (λ l. All IsDeclared l × ((k : Text) → get k l ≡ typed_at k (get k ((j, v) ∷ es))))
          its
          (
            (declared, rest),
            λ k. elim (Bool-cases (text_eq j k)) [
              | inl here ↦
                  let same_key : j ≡ k = (text_eq_iff j k).0 here in
                  ground (arith, here, subst (λ i. typed_at i (some v) ≡ some w) same_key value)
              | inr there ↦ ground (arith, there, at k)
            ],
          )
  ]
]

pub explicit_types-IsDistinct :
    (es ts : List (Text × Setting)) → explicit_types es ≡ ok ts → IsDistinct es → IsDistinct ts
unfolding explicit_types IsDistinct typed_at
explicit_types-IsDistinct [] ts h d =
    let same : [] ≡ ts = ground (arith, h) in subst IsDistinct same tt
explicit_types-IsDistinct ((j, v) ∷ es) ts h (fresh, d) =
    elim (Result-cases (explicit_type (j, v))) [
      | inr (x, e) ↦ absurd (ground (arith, e, h))
      | inl (typed, e) ↦ elim (Result-cases (explicit_types es)) [
        | inr (x, f) ↦ absurd (ground (arith, e, f, h))
        | inl (more, f) ↦
            let (w, same, value, declared) = explicit_type-eq-ok j v typed e in
            let its : (j, w) ∷ more ≡ ts = ground (arith, e, f, h, same) in
            subst IsDistinct its (
              (explicit_types-typed es more f).1 j ∙ ap (typed_at j) fresh,
              explicit_types-IsDistinct es more f d,
            )
      ]
    ]
