-- ===== src/Cmd/Flags.antt =====
-- The flags of cmd/garmx/main.go, and Go's `flag` package as it parses them. A message of an error and
-- the printing of the usage are left out.
pub mod Given
use garmx.Prelude.{
  ◌==◌, Bool, true, false, not, ◌||◌, Option, none, some, List, [], ◌∷◌, ◌++◌, is_nil, any,
  if◌then◌else◌, Result, ok, err,
}
use garmx.Prelude.Bytes.{Bytes, text, equal}
use garmx.Prelude.Assoc.{lookup, bytes_eq}

pub record ServeConfig : Type 0 where
  pub stdio : Bool
  pub config_path : Bytes
  pub profile : Bytes
  pub upstream_name : Bytes
  pub upstream_command : Bytes
  pub upstream_args : List Bytes
  pub upstream_env : List Bytes
  pub audit_db : Bytes
  pub audit_payload : Bytes
  pub audit_scope : Bytes
  pub no_audit : Bool

pub record UiConfig : Type 0 where
  pub addr : Bytes
  pub audit_db : Bytes
  pub config_path : Bytes

-- `Set` of a `stringSlice`.
abbrev pub append_value : List Bytes → Bytes → List Bytes
append_value vs v = vs ++ (v ∷ [])

-- A registered flag, by what setting it does to the configuration.
pub data Flag (C : Type 0) : Type 0 where
  switch : (Bool → C → C) → Flag C
  value : (Bytes → C → C) → Flag C

pub data FlagError : Type 0 where
  help : FlagError
  bad_syntax : FlagError
  undefined : Bytes → FlagError
  bad_boolean : Bytes → FlagError
  missing_argument : Bytes → FlagError

-- `strconv.ParseBool`
unfoldable pub parse_bool : Bytes → Option Bool
parse_bool s =
    if any (equal s) (text "1" ∷ text "t" ∷ text "T" ∷ text "TRUE" ∷ text "true" ∷ text "True" ∷ [])
    then some true
    else if any (equal s)
        (text "0" ∷ text "f" ∷ text "F" ∷ text "FALSE" ∷ text "false" ∷ text "False" ∷ [])
    then some false
    else none

-- One argument: no flag, the end of the flags, a malformed one, or a name with its value, if it has one.
pub data Word : Type 0 where
  operand : Word
  terminator : Word
  broken : Word
  named : Bytes → Option Bytes → Word

unfoldable pub cut_value : Bytes → Bytes × Option Bytes
cut_value [] = ([], none)
cut_value (c ∷ cs) =
    let (name, v) = cut_value cs in if c == b'=' then ([], some cs) else (c ∷ name, v)

unfoldable pub name_word : Bytes → Word
unfolding cut_value
name_word [] = broken
name_word (c ∷ cs) =
    if c == b'-' || c == b'=' then broken else let (name, v) = cut_value (c ∷ cs) in named name v

unfoldable pub word : Bytes → Word
unfolding name_word
word [] = operand
word (c ∷ []) = operand
word (c ∷ d ∷ ds) =
    if not (c == b'-')
    then operand
    else if d == b'-'
    then if is_nil ds then terminator else name_word ds
    else name_word (d ∷ ds)

module _ {C : Type 0} (formal : List (Bytes × Flag C)) where
  -- What an argument does: the flags end, it is wrong, it sets a flag, or the next one is its value.
  pub data Step : Type 0 where
    ends : Step
    fails : FlagError → Step
    sets : C → Step
    waits : Bytes → (Bytes → C) → Step

  unfoldable pub flag_step : C → Bytes → Step
  unfolding word parse_bool
  flag_step c arg = elim (word arg) [
    | operand ↦ ends
    | terminator ↦ ends
    | broken ↦ fails bad_syntax
    | named name v ↦ elim (lookup name formal) [
      | none ↦
          if equal name (text "help") || equal name (text "h")
          then fails help
          else fails (undefined name)
      | some (switch f) ↦ elim v [
        | none ↦ sets (f true c)
        | some b ↦ elim (parse_bool b) [ none ↦ fails (bad_boolean name) | some t ↦ sets (f t c) ]
      ]
      | some (value f) ↦ elim v [ none ↦ waits name (λ s. f s c) | some s ↦ sets (f s c) ]
    ]
  ]

  -- `Parse`, with the flag that waits for its value.
  unfoldable pub parse_from : Option (Bytes × (Bytes → C)) → C → List Bytes → Result FlagError C
  unfolding flag_step
  parse_from none c [] = ok c
  parse_from (some (name, f)) c [] = err (missing_argument name)
  parse_from (some (name, f)) c (v ∷ rest) = parse_from none (f v) rest
  parse_from none c (arg ∷ rest) = elim (flag_step c arg) [
    | ends ↦ ok c
    | fails e ↦ err e
    | sets d ↦ parse_from none d rest
    | waits name f ↦ parse_from (some (name, f)) c rest
  ]

abbrev pub serve_flags : List (Bytes × Flag ServeConfig)
serve_flags =
    (text "stdio", switch (λ b c. record c { stdio = b }))
    ∷ (text "config", value (λ s c. record c { config_path = s }))
    ∷ (text "profile", value (λ s c. record c { profile = s }))
    ∷ (text "upstream-name", value (λ s c. record c { upstream_name = s }))
    ∷ (text "upstream-command", value (λ s c. record c { upstream_command = s }))
    ∷ (
      text "upstream-arg",
      value (λ s c. record c { upstream_args = append_value c.upstream_args s }),
    )
    ∷ (
      text "upstream-env",
      value (λ s c. record c { upstream_env = append_value c.upstream_env s }),
    )
    ∷ (text "audit-db", value (λ s c. record c { audit_db = s }))
    ∷ (text "audit-payload", value (λ s c. record c { audit_payload = s }))
    ∷ (text "audit-scope", value (λ s c. record c { audit_scope = s }))
    ∷ (text "no-audit", switch (λ b c. record c { no_audit = b }))
    ∷ []

abbrev pub serve_defaults : ServeConfig
serve_defaults = record {
  stdio = false;
  config_path = [];
  profile = [];
  upstream_name = text "upstream";
  upstream_command = [];
  upstream_args = [];
  upstream_env = [];
  audit_db = [];
  audit_payload = [];
  audit_scope = [];
  no_audit = false;
}

unfoldable pub parse_serve_flags : List Bytes → Result FlagError ServeConfig
unfolding parse_from
parse_serve_flags args = parse_from serve_flags none serve_defaults args

abbrev pub ui_flags : List (Bytes × Flag UiConfig)
ui_flags =
    (text "addr", value (λ s c. record c { addr = s }))
    ∷ (text "audit-db", value (λ s c. record c { audit_db = s }))
    ∷ (text "config", value (λ s c. record c { config_path = s }))
    ∷ []

abbrev pub ui_defaults : UiConfig
ui_defaults = record { addr = text "127.0.0.1:9735"; audit_db = []; config_path = [] }

unfoldable pub parse_ui_flags : List Bytes → Result FlagError UiConfig
unfolding parse_from
parse_ui_flags args = parse_from ui_flags none ui_defaults args
