-- ===== src/Pool/Secrets.antt =====
-- internal/channelaccount/secrets.go: channel account seeds from an environment variable.
pub mod Seeds
use tx_submitter.Base.{List, [], ◌∷◌, ◌++◌, if◌then◌else◌, ◌==◌, length}
use tx_submitter.Base.Text.{Text, text_eq, codes, split, trim_space, decimal}
use tx_submitter.Errors.{wrap, external, Result, ok, err}
use tx_submitter.External.{Env}

pub record EnvSecretSource : Type 0 where
  pub var_name : Text

abbrev pub new_env_secret_source : Text → EnvSecretSource
new_env_secret_source var_name = record { var_name = var_name }

module _ (e : Env) where
  -- The loop over the parts, with the secrets so far.
  unfoldable pub collect_secrets : List Text → List Text → Result (List Text)
  collect_secrets [] secrets = ok secrets
  collect_secrets (p ∷ parts) secrets =
      let skipped = collect_secrets parts secrets in
      let added = collect_secrets parts (secrets ++ (trim_space p ∷ [])) in
      if trim_space p == [] then skipped else elim (e.parse_full (trim_space p)) [
        | err er ↦ err (
            wrap (codes "invalid channel account secret at position " ++ decimal (length secrets))
              er)
        | ok _ ↦ added
      ]

  abbrev pub not_empty : Text → List Text → Result (List Text)
  not_empty var_name [] =
      err (external (var_name ++ codes " contained no valid channel account secrets"))
  not_empty var_name (s ∷ secrets) = ok (s ∷ secrets)

  -- `EnvSecretSource.ChannelAccountSecrets`
  unfoldable pub channel_account_secrets : EnvSecretSource → Result (List Text)
  unfolding collect_secrets
  channel_account_secrets s =
      if trim_space (e.getenv s.var_name) == []
      then err (
          external
            (s.var_name ++ codes " is not set: at least one channel account secret is required"))
      else elim (collect_secrets (split b',' (e.getenv s.var_name)) []) [
        | err er ↦ err er
        | ok secrets ↦ not_empty s.var_name secrets
      ]
