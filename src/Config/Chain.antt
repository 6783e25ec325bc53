-- ===== src/Config/Chain.antt =====
-- Which configuration the rules find.
use kubecrtutils.Prelude.{
  ◌≡◌, ◌≢◌, refl, true, false, not, ◌&&◌, List, [], ◌∷◌, ◌++◌, Option, none, some, if◌then◌else◌,
  ◌==◌, ==_iff, arith, Bool-cases, Option-cases, inl, inr, ◌∙◌, ap, sym,
}
use kubecrtutils.Prelude.Text.{Text, codes, text_eq}
use kubecrtutils.Strings.{cut}
use kubecrtutils.Config.{
  Result, ok, failed, ConfigOptions, Config, Rule, upper, option_name, personalized_with,
  personalize_specials, personalize_rule, personalize_rules, require_identity, new_id_option,
  new_context_option, new_kubeconfig_option, new_environment_variable, default_rules,
  dedicated_rules, with_flags, in_cluster, home_directory, in_cluster_config, id_option,
  context_option, kubeconfig_option, environment_variable, special, no_special, kubeconfig,
}
use kubecrtutils.Config.Answers.{
  InCluster, World, try_kubeconfig_file, in_cluster_answer, file_answer, get_config, special_config,
  first_config,
}

-- the options after an identity and a context were given, where they are not empty
abbrev pub flagged : Text → Text → ConfigOptions → ConfigOptions
flagged id ctx opts = record opts {
  identity = if id == [] then opts.identity else id;
  current_context = if ctx == [] then opts.current_context else ctx;
}

-- the first answer that is an error or a configuration
abbrev pub or_next : {X : Type 0} → Result (Option X) → Result (Option X) → Result (Option X)
or_next (failed e) r = failed e
or_next (ok none) r = r
or_next (ok (some x)) r = ok (some x)

or_next_any : {X : Type 0} (r a b : Result (Option X)) → r ≢ ok none → or_next r a ≡ or_next r b
or_next_any (failed e) a b h = refl
or_next_any (ok none) a b h = absurd (h refl)
or_next_any (ok (some x)) a b h = refl

-- the variable that holds the path of a named cluster
abbrev pub variable : Text → Text
variable name = if name == [] then codes "KUBECONFIG" else upper name ++ codes "_KUBECONFIG"

module _ {A R : Type 0} (w : World A R) where
  -- what a path says: the in-cluster mode, or a file with an optional context
  abbrev pub path_answer : InCluster R → Text → ConfigOptions → Result (Option (Config R))
  path_answer ic path opts =
      if path == in_cluster then in_cluster_answer w ic opts else (file_answer w ic path opts).1

  try_answers : (path : Text) (opts : ConfigOptions) → try_kubeconfig_file w path opts ≢ ok none
  unfolding try_kubeconfig_file
  try_answers path opts h = ground arith

  file_answers :
      (ic : InCluster R) (path : Text) (opts : ConfigOptions)
      → (file_answer w ic path opts).1 ≢ ok none
  unfolding file_answer
  file_answers ic path opts h = elim (Option-cases (cut 64 path)) [
    | inl e ↦ try_answers path opts (ground arith)
    | inr ((context, file), e) ↦
        try_answers file (if context == [] then opts else record opts { current_context = context })
          (ground arith)
  ]

  module _ (ic : InCluster R) where
    first_config-next :
        (rule : Rule) (rules : List Rule) (opts : ConfigOptions)
        → first_config w ic (rule ∷ rules) opts
          ≡ or_next
              (get_config w ic rule opts).1
              (first_config w ic rules (get_config w ic rule opts).0)
    unfolding first_config
    first_config-next rule rules opts = ground arith

    first_config-flagged :
        (n m : Text) (id ctx : Text) (rules : List Rule) (opts : ConfigOptions)
        → first_config w ic (id_option n true id ∷ (context_option m ctx ∷ rules)) opts
          ≡ first_config w ic rules (flagged id ctx opts)
    unfolding get_config
    first_config-flagged n m id ctx rules opts =
        first_config-next (id_option n true id) (context_option m ctx ∷ rules) opts
        ∙ (first_config-next (context_option m ctx) rules
              (if not (id == []) && true then record opts { identity = id } else opts)
            ∙ ap (λ (o : ConfigOptions). first_config w ic rules o) (ground arith))

    variable_only :
        (v : Text) (opts : ConfigOptions)
        → first_config w ic (environment_variable v ∷ []) opts
          ≡ (if w.env v == [] then ok none else try_kubeconfig_file w (w.env v) opts)
    unfolding first_config get_config
    variable_only v opts = ground arith

    get_config-path :
        (n d path : Text) (opts : ConfigOptions)
        → path ≢ []
        → get_config w ic
            (kubeconfig_option n d (special in_cluster in_cluster_config no_special) path)
            opts
          ≡ (if path == in_cluster
              then (opts, in_cluster_answer w ic opts)
              else file_answer w ic path opts)
    unfolding get_config special_config
    get_config-path n d path opts ne =
        ground (arith, ==_iff path [], ==_iff path in_cluster, ==_iff in_cluster path)

    path_or_variable :
        (n d v path : Text) (opts : ConfigOptions)
        → first_config w ic
            (kubeconfig_option n d (special in_cluster in_cluster_config no_special) path
              ∷ (environment_variable v ∷ []))
            opts
          ≡ or_next
              (if path == [] then ok none else path_answer ic path opts)
              (if w.env v == [] then ok none else try_kubeconfig_file w (w.env v) opts)
    path_or_variable n d v path opts =
        first_config-next
          (kubeconfig_option n d (special in_cluster in_cluster_config no_special) path)
          (environment_variable v ∷ []) opts
        ∙ go path
      where
        go :
            (path : Text)
            → or_next
                (get_config w ic
                  (kubeconfig_option n d (special in_cluster in_cluster_config no_special) path)
                  opts).1
                (first_config w ic
                  (environment_variable v ∷ [])
                  (get_config w ic
                    (kubeconfig_option n d (special in_cluster in_cluster_config no_special) path)
                    opts).0)
              ≡ or_next
                  (if path == [] then ok none else path_answer ic path opts)
                  (if w.env v == [] then ok none else try_kubeconfig_file w (w.env v) opts)
        go [] = unfold get_config in variable_only v opts
        go (c ∷ p) = elim (Bool-cases ((c ∷ p) == in_cluster)) [
          | inl mode ↦
              rw (get_config-path n d (c ∷ p) opts (λ e. cc e), mode)
                (ap (or_next (in_cluster_answer w ic opts)) (variable_only v opts))
          | inr file ↦
              rw (get_config-path n d (c ∷ p) opts (λ e. cc e), file)
                (or_next_any (file_answer w ic (c ∷ p) opts).1 _ _ (file_answers ic (c ∷ p) opts))
        ]

  -- The rules of a named cluster, with identities required and their flags parsed, take the path
  -- that is given, under the identity and context that are given; without an answer from it they
  -- take the environment variable of the cluster; and they find nothing if that is empty, too.
  pub dedicated_correct :
      (ic : InCluster R) (name desc id ctx path : Text) (opts : ConfigOptions)
      → first_config w ic
          (with_flags id ctx path (require_identity (dedicated_rules name desc [])))
          opts
        ≡ or_next (if path == [] then ok none else path_answer ic path (flagged id ctx opts)) (
            if w.env (variable name) == []
            then ok none
            else try_kubeconfig_file w (w.env (variable name)) (flagged id ctx opts))
  unfolding with_flags require_identity dedicated_rules personalize_rules personalize_rule
      personalized_with personalize_specials option_name new_id_option new_context_option
      new_kubeconfig_option new_environment_variable upper
  dedicated_correct ic [] desc id ctx path opts =
      first_config-flagged ic kubeconfig kubeconfig id ctx _ opts
      ∙ path_or_variable ic kubeconfig (codes "path to standard kubeconfig") (codes "KUBECONFIG")
          path (flagged id ctx opts)
  dedicated_correct ic (c ∷ name) desc id ctx path opts =
      first_config-flagged ic ((c ∷ name) ++ codes "-kubeconfig")
        ((c ∷ name) ++ codes "-kubeconfig") id ctx _ opts
      ∙ path_or_variable ic ((c ∷ name) ++ codes "-kubeconfig")
          (if desc == [] then codes "path to standard kubeconfig" else desc) (variable (c ∷ name))
          path (flagged id ctx opts)

  home_answers :
      (ic : InCluster R) (opts : ConfigOptions) → (get_config w ic home_directory opts).1 ≢ ok none
  unfolding get_config
  home_answers ic opts h = ground (arith, try_answers w.home_file opts)

  module _ (ic ic' : InCluster R) where
    -- the rules find the same, whether the one or the other is answered
    abbrev Agrees : List Rule → Type 0
    Agrees rules = (o : ConfigOptions) → first_config w ic rules o ≡ first_config w ic' rules o

    agree-cons :
        (rule : Rule) (rules : List Rule)
        → ((o : ConfigOptions) → get_config w ic rule o ≡ get_config w ic' rule o)
        → Agrees rules
        → Agrees (rule ∷ rules)
    agree-cons rule rules e h o =
        first_config-next ic rule rules o
        ∙ (ap
              (λ (r : ConfigOptions × Result (Option (Config R))).
                or_next r.1 (first_config w ic rules r.0))
              (e o)
            ∙ (ap (or_next (get_config w ic' rule o).1) (h (get_config w ic' rule o).0)
                ∙ sym (first_config-next ic' rule rules o)))

    agree-home : (rules : List Rule) → Agrees (home_directory ∷ rules)
    unfolding get_config
    agree-home rules o =
        first_config-next ic home_directory rules o
        ∙ (or_next_any (get_config w ic home_directory o).1 (first_config w ic rules o)
              (first_config w ic' rules o) (home_answers ic o)
            ∙ sym (first_config-next ic' home_directory rules o))

    get_config-kubeconfig :
        (n d path : Text) (o : ConfigOptions)
        → path ≢ in_cluster
        → get_config w ic
            (kubeconfig_option n d (special in_cluster in_cluster_config no_special) path)
            o
          ≡ get_config w ic'
              (kubeconfig_option n d (special in_cluster in_cluster_config no_special) path)
              o
    get_config-kubeconfig n d [] o ne = unfold get_config in refl
    get_config-kubeconfig n d (c ∷ p) o ne =
        let other : ((c ∷ p) == in_cluster) ≡ false = ground (arith, ==_iff (c ∷ p) in_cluster) in
        rw
          (
            get_config-path ic n d (c ∷ p) o (λ e. cc e),
            get_config-path ic' n d (c ∷ p) o (λ e. cc e),
            other,
          )
          (unfold file_answer in refl)

  -- The default rules never use the in-cluster configuration, unless the path asks for it: the rule
  -- for the home directory in front of it always has an answer, an error if there is no file.
  pub in_cluster_unreachable :
      (ic ic' : InCluster R) (id ctx path : Text) (opts : ConfigOptions)
      → path ≢ in_cluster
      → first_config w ic (with_flags id ctx path default_rules) opts
        ≡ first_config w ic' (with_flags id ctx path default_rules) opts
  unfolding get_config with_flags default_rules new_id_option new_context_option
      new_kubeconfig_option new_environment_variable
  in_cluster_unreachable ic ic' id ctx path opts ne =
      agree-cons ic ic' _ _ (λ o. refl)
        (agree-cons ic ic' _ _ (λ o. refl)
          (agree-cons ic ic' _ _
            (λ o.
              get_config-kubeconfig ic ic' kubeconfig (codes "path to standard kubeconfig") path o
                ne)
            (agree-cons ic ic' _ _ (λ o. refl) (agree-home ic ic' (in_cluster_config ∷ [])))))
        opts
