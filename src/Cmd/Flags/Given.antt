-- ===== src/Cmd/Flags/Given.antt =====
-- A configuration as it is given on the command line.
use mathlib.Core.List.{append_assoc, append-nil}
use garmx.Prelude.{
  ◌≡◌, refl, sym, ap, ◌∙◌, Bool, true, false, none, List, [], ◌∷◌, ◌++◌, map, if◌then◌else◌, ok,
}
use garmx.Prelude.Bytes.{Bytes, text, equal}
use garmx.Prelude.Assoc.{lookup, bytes_eq}
use garmx.Cmd.Flags.{
  ServeConfig, word, name_word, cut_value, parse_bool, flag_step, parse_from, serve_flags,
  serve_defaults, parse_serve_flags,
}

abbrev env_of : ServeConfig → List Bytes
env_of c = map (λ v. text "--upstream-env=" ++ v) c.upstream_env

abbrev lists_of : ServeConfig → List Bytes
lists_of c = map (λ v. text "--upstream-arg=" ++ v) c.upstream_args ++ env_of c

abbrev switched_of : ServeConfig → List Bytes
switched_of c =
    (text "--no-audit=" ++ (if c.no_audit then text "true" else text "false")) ∷ lists_of c

abbrev texts_of : ServeConfig → List Bytes → List Bytes
texts_of c rest =
    (text "--config=" ++ c.config_path)
    ∷ (text "--profile=" ++ c.profile)
    ∷ (text "--upstream-name=" ++ c.upstream_name)
    ∷ (text "--upstream-command=" ++ c.upstream_command)
    ∷ (text "--audit-db=" ++ c.audit_db)
    ∷ (text "--audit-payload=" ++ c.audit_payload)
    ∷ (text "--audit-scope=" ++ c.audit_scope)
    ∷ rest

-- One flag for each setting, `--name=value`, and one for each value of those that are lists.
abbrev pub arguments_of : ServeConfig → List Bytes
arguments_of c =
    (text "--stdio=" ++ (if c.stdio then text "true" else text "false"))
    ∷ texts_of c (switched_of c)

args_given :
    (vs : List Bytes) (c : ServeConfig) (rest : List Bytes)
    → parse_from serve_flags none c (map (λ v. text "--upstream-arg=" ++ v) vs ++ rest)
      ≡ parse_from serve_flags none (record c { upstream_args = c.upstream_args ++ vs }) rest
unfolding parse_from flag_step word name_word cut_value lookup equal
args_given [] c rest =
    ap (λ z. parse_from serve_flags none (record c { upstream_args = z }) rest)
      (sym (append-nil c.upstream_args))
args_given (v ∷ vs) c rest =
    args_given vs (record c { upstream_args = c.upstream_args ++ (v ∷ []) }) rest
    ∙ ap (λ z. parse_from serve_flags none (record c { upstream_args = z }) rest)
        (append_assoc c.upstream_args (v ∷ []) vs)

env_given :
    (vs : List Bytes) (c : ServeConfig)
    → parse_from serve_flags none c (map (λ v. text "--upstream-env=" ++ v) vs)
      ≡ ok (record c { upstream_env = c.upstream_env ++ vs })
unfolding parse_from flag_step word name_word cut_value lookup equal
env_given [] c = ap (λ z. ok (record c { upstream_env = z })) (sym (append-nil c.upstream_env))
env_given (v ∷ vs) c =
    env_given vs (record c { upstream_env = c.upstream_env ++ (v ∷ []) })
    ∙ ap (λ z. ok (record c { upstream_env = z })) (append_assoc c.upstream_env (v ∷ []) vs)

stdio_given :
    (b : Bool) (c : ServeConfig) (rest : List Bytes)
    → parse_from serve_flags none c
        ((text "--stdio=" ++ (if b then text "true" else text "false")) ∷ rest)
      ≡ parse_from serve_flags none (record c { stdio = b }) rest
unfolding parse_from flag_step word name_word cut_value lookup equal parse_bool
stdio_given true c rest = refl
stdio_given false c rest = refl

no_audit_given :
    (b : Bool) (c : ServeConfig) (rest : List Bytes)
    → parse_from serve_flags none c
        ((text "--no-audit=" ++ (if b then text "true" else text "false")) ∷ rest)
      ≡ parse_from serve_flags none (record c { no_audit = b }) rest
unfolding parse_from flag_step word name_word cut_value lookup equal parse_bool
no_audit_given true c rest = refl
no_audit_given false c rest = refl

-- The flags that take one text.
texts_given :
    (given c : ServeConfig) (rest : List Bytes)
    → parse_from serve_flags none c (texts_of given rest)
      ≡ parse_from serve_flags none
          (record given {
            stdio = c.stdio;
            upstream_args = c.upstream_args;
            upstream_env = c.upstream_env;
            no_audit = c.no_audit;
          })
          rest
unfolding parse_from flag_step word name_word cut_value lookup equal
texts_given given c rest = refl

-- Every configuration can be given on the command line, whatever its texts hold: written as flags,
-- one for each setting and one for each value of a list, it is parsed as what it is.
pub parse_serve_flags-arguments_of : (c : ServeConfig) → parse_serve_flags (arguments_of c) ≡ ok c
unfolding parse_serve_flags
parse_serve_flags-arguments_of c =
    stdio_given c.stdio serve_defaults (texts_of c (switched_of c))
    ∙ texts_given c (record serve_defaults { stdio = c.stdio }) (switched_of c)
    ∙ no_audit_given c.no_audit
        (record c { upstream_args = []; upstream_env = []; no_audit = false }) (lists_of c)
    ∙ args_given c.upstream_args (record c { upstream_args = []; upstream_env = [] }) (env_of c)
    ∙ env_given c.upstream_env (record c { upstream_env = [] })
