-- ===== src/Config/Answers.antt =====
-- What the rules of cluster/config answer. What reads kubeconfig files comes from client-go and is a
-- parameter: `load`, `raw_context`, `rest_of` and `namespace_of`. So are the environment, the home
-- directory and the answer of the in-cluster configuration. The options that a rule changes through
-- its pointer are a state that is passed along.
use kubecrtutils.Prelude.{
  not, ◌&&◌, List, [], ◌∷◌, ◌++◌, Option, none, some, if◌then◌else◌, ◌==◌, is_some,
}
use kubecrtutils.Prelude.Text.{Text, codes, text_eq}
use kubecrtutils.Strings.{cut}
use kubecrtutils.Config.{
  Result, ok, failed, ConfigOptions, Config, Rule, id_option, context_option, kubeconfig_option,
  environment_variable, home_directory, in_cluster_config, Specials, no_special, special,
}

-- What `rest.InClusterConfig` answers: not in a cluster, another error, a configuration.
pub data InCluster (R : Type 0) : Type 0 where
  outside : InCluster R
  broken : Text → InCluster R
  inside : R → InCluster R

-- what the rules read from outside
pub record World (A R : Type 0) : Type 0 where
  pub load : Text → Result A
  pub raw_context : A → ConfigOptions → Result Text
  pub rest_of : A → ConfigOptions → Result R
  pub namespace_of : A → ConfigOptions → Result Text
  pub env : Text → Text
  pub home_file : Text
  pub migrate : Option Text

module _ {A R : Type 0} (w : World A R) where
  -- `GetRestConfigFromKubeconfig`
  unfoldable pub config_from : A → ConfigOptions → Result (Config R)
  config_from api opts = elim (w.raw_context api opts) [
    | failed e ↦ failed e
    | ok context ↦ elim (w.rest_of api opts) [
      | failed e ↦ failed e
      | ok rest ↦ elim (w.namespace_of api opts) [
        | failed e ↦ failed e
        | ok ns ↦ ok (record {
          identity = opts.identity;
          rest_config = rest;
          namespace = ns;
          context = context;
          sub_config = opts.sub_config;
        })
      ]
    ]
  ]

  -- `TryKubeconfigFile`
  unfoldable pub try_kubeconfig_file : Text → ConfigOptions → Result (Option (Config R))
  try_kubeconfig_file path opts = elim (w.load path) [
    | failed e ↦ failed (codes "kubeconfig file " ++ (path ++ (codes ": " ++ e)))
    | ok api ↦ elim (config_from api opts) [ failed e ↦ failed e | ok c ↦ ok (some c) ]
  ]

  module _ (ic : InCluster R) where
    -- `InClusterConfig.GetConfig`
    unfoldable pub in_cluster_answer : ConfigOptions → Result (Option (Config R))
    in_cluster_answer opts = elim ic [
      | outside ↦ ok none
      | broken e ↦ failed e
      | inside rest ↦
          if is_some opts.sub_config
          then failed (codes "incluster config not possible for sub type")
          else ok (
              some (record {
                identity = opts.identity;
                rest_config = rest;
                namespace = [];
                context = opts.current_context;
                sub_config = none;
              }))
    ]

    -- the part of `KubeConfigOption.GetConfig` behind the special cases, `path` split at its `@`
    unfoldable pub file_answer : Text → ConfigOptions → ConfigOptions × Result (Option (Config R))
    file_answer path opts = elim (cut 64 path) [
      | none ↦ (opts, try_kubeconfig_file path opts)
      | some (context, file) ↦
          let opts' = if context == [] then opts else record opts { current_context = context } in
          (opts', try_kubeconfig_file file opts')
    ]

    -- `GetConfig` of the rules, and of the special case of a path
    unfoldable mutual
      unfolding in_cluster_answer file_answer

      pub get_config : Rule → ConfigOptions → ConfigOptions × Result (Option (Config R))
      get_config (id_option name enabled id) opts =
          (if not (id == []) && enabled then record opts { identity = id } else opts, ok none)
      get_config (context_option name context) opts =
          (if context == [] then opts else record opts { current_context = context }, ok none)
      get_config (kubeconfig_option name desc specials path) opts =
          let by_path = special_config specials path opts in
          if path == [] then (opts, ok none) else by_path
      get_config (environment_variable name) opts =
          (opts, if w.env name == [] then ok none else try_kubeconfig_file (w.env name) opts)
      get_config home_directory opts =
          (opts, elim w.migrate [ some e ↦ failed e | none ↦ try_kubeconfig_file w.home_file opts ])
      get_config in_cluster_config opts = (opts, in_cluster_answer opts)

      pub special_config :
          Specials → Text → ConfigOptions → ConfigOptions × Result (Option (Config R))
      special_config no_special path opts = file_answer path opts
      special_config (special key rule rest) path opts =
          let by_rule = get_config rule opts in
          let by_rest = special_config rest path opts in if key == path then by_rule else by_rest

    -- `_rules.GetConfig`
    unfoldable pub first_config : List Rule → ConfigOptions → Result (Option (Config R))
    unfolding get_config
    first_config [] opts = ok none
    first_config (rule ∷ rules) opts = elim (get_config rule opts).1 [
      | failed e ↦ failed e
      | ok c ↦ elim c [
        | some cfg ↦ ok (some cfg)
        | none ↦ first_config rules (get_config rule opts).0
      ]
    ]
