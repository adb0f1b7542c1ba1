-- ===== src/Main/Arguments.antt =====
-- The first argument is a path or a host.
use mini_nginx.Common.{
  ◌≡◌, ◌≢◌, ◌⊎◌, inl, inr, refl, sym, ap, ◌∙◌, true, false, Bool-cases, Option, none, some, List,
  [], ◌∷◌, ℤ, >>=-eq-some, get_elem?,
}
use mini_nginx.Python.Text.{Text, Unicode, codes, strip}
use mini_nginx.Config.{ConfigModel, listen_address, metrics_address}
use mini_nginx.Config.Fallback.{get_env}
use mini_nginx.Main.{
  Process, Listening, is_numeric, path_or, path_argument, host_or, port_or, config_path, listening,
}

module _ ⦃u : Unicode⦄ where
  listening-host :
      (argv : List Text) (model : ConfigModel) (addresses : Listening)
      → listening argv model ≡ some addresses
      → (proxy : Text × ℤ) × (listen_address model ≡ some proxy)
        × (addresses.host ≡ host_or proxy.0 (get_elem? argv 1))
  unfolding listening
  listening-host argv model addresses e =
      let (proxy, read, rest) = >>=-eq-some (listen_address model) _ e in
      let (metrics, read_metrics, rest') = >>=-eq-some (metrics_address model) _ rest in
      let (port, chosen, made) = >>=-eq-some (port_or proxy.1 (get_elem? argv 2)) _ rest' in
      (proxy, read, sym (ap host_of made))
    where
      host_of : Option Listening → Text
      host_of none = addresses.host
      host_of (some a) = a.host

  abbrev pub variable_of : {Location : Type 0} → Process Location → Text
  variable_of p = strip (get_env p.environ (codes "CONFIG_PATH") [])

  path_or-solid : (s : Text) (argument : Option Text) → s ≢ [] → path_or s argument ≡ s
  path_or-solid [] argument h = absurd (h refl)
  path_or-solid (c ∷ s) argument h = refl

  -- The file of CONFIG_PATH, if the variable is not blank, comes before every argument. If it is
  -- blank, a first argument is taken for exactly one thing: for the file, and the host is the
  -- configured one, or, if it consists of digits and dots, for the host, and the file is config.yaml.
  pub config_path-listening :
      {Location : Type 0} (p : Process Location) (name argument : Text) (rest : List Text)
      (model : ConfigModel) (addresses : Listening)
      → p.argv ≡ name ∷ argument ∷ rest
      → listening p.argv model ≡ some addresses
      → (variable_of p ≢ [] → config_path p ≡ p.to_path (variable_of p))
        × (variable_of p ≡ []
            → ((is_numeric argument ≡ false)
                × (config_path p ≡ p.to_path argument)
                × (proxy : Text × ℤ) × (listen_address model ≡ some proxy)
                × (addresses.host ≡ proxy.0))
              ⊎ ((is_numeric argument ≡ true)
                  × (config_path p ≡ p.to_path (codes "config.yaml"))
                  × (addresses.host ≡ argument)))
  unfolding config_path
  config_path-listening p name argument rest model addresses args e =
      let (proxy, read, same) = listening-host p.argv model addresses e in
      let host_is : addresses.host ≡ host_or proxy.0 (some argument) =
        same ∙ ap (λ argv. host_or proxy.0 (get_elem? argv 1)) args in
      let blank_path : variable_of p ≡ []
          → config_path p ≡ p.to_path (path_argument (some argument)) =
        λ blank.
          ap (λ v. p.to_path (path_or v (get_elem? p.argv 1))) blank
          ∙ ap (λ argv. p.to_path (path_argument (get_elem? argv 1))) args in
      (
        λ named. ap p.to_path (path_or-solid (variable_of p) (get_elem? p.argv 1) named),
        λ blank. elim (Bool-cases (is_numeric argument)) [
          | inl numeric ↦
              inr (numeric, blank_path blank ∙ rw numeric refl, host_is ∙ rw numeric refl)
          | inr other ↦
              inl (other, blank_path blank ∙ rw other refl, proxy, read, host_is ∙ rw other refl)
        ],
      )
