-- ===== src/Xo/Config/Priority.antt =====
-- The priority of the configurations in `merge_xo_config`, and what `load_xo_config` gives.
use sci_ledger_sawtooth.Prelude.{
  ◌≡◌, refl, inl, inr, Option, none, some, List, [], ◌∷◌, ◌++◌, arith, Option-cases,
}
use sci_ledger_sawtooth.Text.{codes}
use sci_ledger_sawtooth.Errors.{Result, ok, err, Result-cases}
use sci_ledger_sawtooth.Processor.Config.{Environment, get_config_dir}
use sci_ledger_sawtooth.Xo.Config.{
  XoConfig, merged, reversed, merge_xo_config, load_default_xo_config, load_toml_xo_config,
  load_xo_config,
}

module _ {V : Type 0} where
  -- The first value that is set.
  abbrev pub first_set : List (XoConfig V) → Option V → Option V
  first_set [] otherwise = otherwise
  first_set (config ∷ configs) otherwise = elim (config.connect) [
    | some c ↦ some c
    | none ↦ first_set configs otherwise
  ]

  merged-append :
      (xs ys : List (XoConfig V)) (c : Option V) → merged (xs ++ ys) c ≡ merged ys (merged xs c)
  unfolding merged
  merged-append [] ys c = refl
  merged-append (x ∷ xs) ys c = elim (Option-cases (x.connect)) [
    | inl e ↦ ground (arith, e, merged-append xs ys c)
    | inr (d, e) ↦ ground (arith, e, merged-append xs ys (some d))
  ]

  merged-reversed :
      (configs : List (XoConfig V)) (c : Option V)
      → merged (reversed configs) c ≡ first_set configs c
  unfolding merged reversed
  merged-reversed [] c = refl
  merged-reversed (x ∷ xs) c =
      ground (arith, merged-append (reversed xs) (x ∷ []) c, merged-reversed xs c)

  -- Merging any list of configurations gives the first value of `connect` that is set in it, if there is
  -- one.
  pub merge_xo_config-first :
      (configs : List (XoConfig V)) → (merge_xo_config configs).connect ≡ first_set configs none
  unfolding merge_xo_config
  merge_xo_config-first configs = merged-reversed configs none

module _ {W V : Type 0} (env : Environment W V) where
  -- The configuration of the processor after the file has been read.
  abbrev pub Loaded : XoConfig V → Result (XoConfig V) → Result (XoConfig V) → Type 0
  Loaded first_config (err e) r = r ≡ err e
  Loaded first_config (ok toml_config) r =
      (config : XoConfig V) × (r ≡ ok config)
      × (config.connect
          ≡ first_set (first_config ∷ toml_config ∷ [])
              (some (env.value_of (codes "tcp://localhost:4004"))))

  -- `load_xo_config` raises what reading the file raises, and nothing else. Otherwise `connect` is always
  -- set: to what the command line has, else to what the file has, else to the default.
  pub load_xo_config_lem :
      (first_config : XoConfig V) (w : W)
      → Loaded first_config
          (load_toml_xo_config env (env.path_join (get_config_dir env) (codes "xo.toml")) w).0
          (load_xo_config env first_config w).0
  unfolding load_xo_config
  load_xo_config_lem first_config w =
      elim (Result-cases
        (load_toml_xo_config env (env.path_join (get_config_dir env) (codes "xo.toml")) w).0) [
          | inr (e, h) ↦ rw (h, Loaded) (ground (arith, h))
          | inl (toml_config, h) ↦
              rw (h, Loaded)
                (
                  merge_xo_config (first_config ∷ toml_config ∷ load_default_xo_config env ∷ []),
                  ground (arith, h),
                  merge_xo_config-first
                      (first_config ∷ toml_config ∷ load_default_xo_config env ∷ []),
                )
        ]
