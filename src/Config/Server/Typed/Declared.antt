-- ===== src/Config/Server/Typed/Declared.antt =====
-- src/relayserver/ServerConfigParams.ts: the types of the values of a parsed configuration.
use rif_relay.Base.{
  All, Bool, Bool-cases, List, Option, Option-cases, Text, [], any, arith, inl, inr, is_some, none,
  refl, some, subst, sym, text_eq, text_eq_iff, text_eq_refl, true, ◌∙◌, ◌∷◌, ◌≡◌, ◌⊎◌,
}
use rif_relay.Base.Dict.{All-get, IsDistinct, get, or_get}
use rif_relay.Base.Exec.{ok}
use rif_relay.Config.{Setting, Settings, a_bool}
use rif_relay.Config.Server.{
  StartEnv, arguments_of, config_file, filter_type, parse_server_config, typed_value,
}
use rif_relay.Config.Server.Defaults.{
  ParamType, boolean_type, config_params_types, number_type, same_type, string_type,
}
use rif_relay.Config.Server.Typed.{HasType, IsNumber, typed_at, typed_value-HasType}
use rif_relay.Config.Server.Typed.Parsed.{
  IsStart, IsVerbatim, env_value, filter_type-string_names, parse_server_config-get, string_names,
}

-- A value of a name of this type, where the configuration file is this: a number under a name of texts
-- can only be the file's.
pub HasTypeIn : (file : Settings) → (k : Text) → ParamType → Setting → Type 0
HasTypeIn file k string_type v = IsVerbatim v ⊎ (get k file ≡ some v)
HasTypeIn file k number_type v = IsNumber v
HasTypeIn file k boolean_type v = (b : Bool) × (v ≡ a_bool b)

typed_at-some :
    (k : Text) (o : Option Setting) (v : Setting)
    → typed_at k o ≡ some v
    → (type : ParamType) × (w : Setting) × (get k config_params_types ≡ some type)
      × (o ≡ some w)
      × (typed_value type w ≡ some v)
unfolding typed_at
typed_at-some k none v h = absurd (ground (arith, h))
typed_at-some k (some w) v h = elim (Option-cases (get k config_params_types)) [
  | inl e ↦ absurd (ground (arith, e, h))
  | inr (type, e) ↦ (type, w, e, refl, ground (arith, e, h))
]

same_type_refl : (type : ParamType) → same_type type type ≡ true
unfolding same_type
same_type_refl string_type = refl
same_type_refl number_type = refl
same_type_refl boolean_type = refl

filter_type-declared :
    (k : Text) (types : List (Text × ParamType)) (type : ParamType)
    → get k types ≡ some type
    → any (text_eq k) (filter_type types type) ≡ true
unfolding filter_type get
filter_type-declared k [] type h = absurd (ground (arith, h))
filter_type-declared k ((j, t) ∷ types) type h = elim (Bool-cases (text_eq j k)) [
  | inl e ↦
      let same : t ≡ type = ground (arith, e, h) in
      let here : same_type t type ≡ true =
        subst (λ u. same_type t u ≡ true) same (same_type_refl t) in
      ground (arith, here, e, text_eq_iff j k, text_eq_refl k)
  | inr e ↦ ground (arith, e, h, filter_type-declared k types type (ground (arith, e, h)))
]

module _ (start : StartEnv) (args : List Text) (env : Settings)
    (on_line : List Text → List Text → Text → Option Setting) (law : IsStart start on_line)
    (once : IsDistinct env) (texts : All (λ e. IsVerbatim e.1) env) where
  env_value-IsVerbatim : (k : Text) (v : Setting) → env_value k env ≡ some v → IsVerbatim v
  env_value-IsVerbatim k v h = elim (Bool-cases (is_some (get k config_params_types))) [
    | inl e ↦ All-get (λ e. IsVerbatim e.1) k env v texts (ground (arith, e, h))
    | inr e ↦ absurd (ground (arith, e, h))
  ]

  string-HasTypeIn :
      (k : Text) (file : Settings) (v : Setting)
      → get k config_params_types ≡ some string_type
      → or_get (on_line args string_names k) (or_get (env_value k env) (get k file)) ≡ some v
      → IsVerbatim v ⊎ (get k file ≡ some v)
  string-HasTypeIn k file v declared h = elim (Option-cases (on_line args string_names k)) [
    | inr (w, e) ↦
        let listed =
          subst (λ names. any (text_eq k) names ≡ true) filter_type-string_names
            (filter_type-declared k config_params_types string_type declared) in
        inl (law.verbatim args string_names k v listed (ground (arith, e, h)))
    | inl e ↦ elim (Option-cases (env_value k env)) [
      | inr (w, f) ↦ inl (env_value-IsVerbatim k v (ground (arith, e, f, h)))
      | inl f ↦ inr (ground (arith, e, f, h))
    ]
  ]

  in_type :
      (k : Text) (file : Settings) (type : ParamType) (w v : Setting)
      → get k config_params_types ≡ some type
      → or_get (on_line args string_names k) (or_get (env_value k env) (get k file)) ≡ some w
      → typed_value type w ≡ some v
      → HasTypeIn file k type v
  unfolding typed_value HasTypeIn HasType
  in_type k file string_type w v declared raw typed =
      string-HasTypeIn k file v declared (raw ∙ typed)
  in_type k file number_type w v declared raw typed = typed_value-HasType number_type w v typed
  in_type k file boolean_type w v declared raw typed = typed_value-HasType boolean_type w v typed

  -- Where the environment holds texts and minimist never makes a number of a name that it is told is a
  -- string, a configuration that is parsed has declared names only, each with a value of its type: a
  -- whole number, a Boolean, or what is not read as a number, unless the configuration file has that
  -- value under a name of texts, which stays as it is.
  pub parse_server_config-HasTypeIn :
      (config : Settings)
      → parse_server_config start args env ≡ ok config
      → (file : Settings) × (config_file start (arguments_of start args env).options ≡ ok file)
        × ((k : Text) (v : Setting)
            → get k config ≡ some v
            → (type : ParamType) × (get k config_params_types ≡ some type)
              × HasTypeIn file k type v)
  parse_server_config-HasTypeIn config h =
      let (file, read, values) = parse_server_config-get start args env on_line config law once h in
      (
        file,
        read,
        λ k v here.
            let (type, w, declared, raw, typed) =
              typed_at-some k
                (or_get (on_line args string_names k) (or_get (env_value k env) (get k file))) v
                (sym (values k) ∙ here) in
            (type, declared, in_type k file type w v declared raw typed),
      )
