-- ===== src/Config.antt =====
-- cluster/config: the rules that find the configuration of a cluster, and their personalization.
mod Tests
pub mod Answers
pub mod Chain
use kubecrtutils.Prelude.{
  ℕ, ◌-◌, ltb, Bool, true, false, not, ◌&&◌, List, [], ◌∷◌, ◌++◌, Option, none, some, if◌then◌else◌,
  ◌==◌, map, is_some,
}
use kubecrtutils.Prelude.Text.{Text, codes, text_eq}
use kubecrtutils.Strings.{cut}

-- `(value, error)`
pub data Result (X : Type 0) : Type 0 where
  ok : X → Result X
  failed : Text → Result X

-- `ConfigOptions`, with the overrides that are read here
pub record ConfigOptions : Type 0 where
  pub identity : Text
  pub current_context : Text
  pub sub_config : Option Text

-- `Config`; `R` is the type of the REST configurations
pub record Config (R : Type 0) : Type 0 where
  pub identity : Text
  pub rest_config : R
  pub namespace : Text
  pub context : Text
  pub sub_config : Option Text

-- `Personalization`
pub record Personalization : Type 0 where
  pub name : Text
  pub description : Text

-- the rules of the package; the special cases of a kubeconfig option are a map to rules
mutual
  pub data Rule : Type 0 where
    id_option : Text → Bool → Text → Rule
    context_option : Text → Text → Rule
    kubeconfig_option : Text → Text → Specials → Text → Rule
    environment_variable : Text → Rule
    home_directory : Rule
    in_cluster_config : Rule

  pub data Specials : Type 0 where
    no_special : Specials
    special : Text → Rule → Specials → Specials

-- `strings.ToUpper` on ASCII
unfoldable pub upper : Text → Text
upper [] = []
upper (c ∷ s) =
    let rest = upper s in (if not (ltb c 97) && not (ltb 122 c) then c - 32 else c) ∷ rest

-- the name of an option under a personalization
unfoldable pub option_name : Text → Text → Text
option_name given name = if given == [] then name else given ++ (codes "-" ++ name)

-- `PersonalizedWith` of the rules, and `PersonalizeRule` on the special cases
unfoldable mutual
  unfolding upper option_name

  pub personalized_with : Personalization → Rule → Rule
  personalized_with o (id_option name enabled id) = id_option (option_name o.name name) false []
  personalized_with o (context_option name context) = context_option (option_name o.name name) []
  personalized_with o (kubeconfig_option name desc specials path) =
      kubeconfig_option (option_name o.name name)
        (if o.description == [] then desc else o.description) (personalize_specials o specials) []
  personalized_with o (environment_variable name) =
      environment_variable (if o.name == [] then name else upper o.name ++ (codes "_" ++ name))
  personalized_with o home_directory = home_directory
  personalized_with o in_cluster_config = in_cluster_config

  pub personalize_specials : Personalization → Specials → Specials
  personalize_specials o no_special = no_special
  personalize_specials o (special key rule rest) =
      let changed = personalized_with o rule in
      special key (if o.name == [] then rule else changed) (personalize_specials o rest)

-- `PersonalizeRule`
unfoldable pub personalize_rule : Personalization → Rule → Rule
personalize_rule o rule = if o.name == [] then rule else personalized_with o rule

-- `_rules.PersonalizedWith`; `orig` is never set, so these are the rules of the receiver
unfoldable pub personalize_rules : Personalization → List Rule → List Rule
personalize_rules o [] = []
personalize_rules o (rule ∷ rules) = personalize_rule o rule ∷ personalize_rules o rules

-- `_rules.RequireIdentity`
unfoldable pub require_identity : List Rule → List Rule
require_identity [] = []
require_identity (id_option name enabled id ∷ rules) =
    id_option name true id ∷ require_identity rules
require_identity (rule ∷ rules) = rule ∷ require_identity rules

abbrev pub kubeconfig : Text
kubeconfig = codes "kubeconfig"

abbrev pub in_cluster : Text
in_cluster = codes "in-cluster"

-- `NewIdOption`, `NewContextOption`, `NewKubeconfigOption` with `WithInClusterMode`, and
-- `NewEnvironmentVariable`
unfoldable pub new_id_option : Text → Bool → Rule
new_id_option name enabled = id_option (if name == [] then kubeconfig else name) enabled []

unfoldable pub new_context_option : Text → Rule
new_context_option name = context_option (if name == [] then kubeconfig else name) []

unfoldable pub new_kubeconfig_option : Text → Text → Rule
new_kubeconfig_option name desc =
    kubeconfig_option (if name == [] then kubeconfig else name)
      (if desc == [] then codes "path to standard kubeconfig" else desc)
      (special in_cluster in_cluster_config no_special) []

unfoldable pub new_environment_variable : Rule
new_environment_variable = environment_variable (codes "KUBECONFIG")

-- `DefaultRules`
unfoldable pub default_rules : List Rule
default_rules =
    new_id_option [] false
    ∷ new_context_option []
    ∷ new_kubeconfig_option [] []
    ∷ new_environment_variable
    ∷ home_directory
    ∷ in_cluster_config
    ∷ []

-- `DedicatedConfigRules`
unfoldable pub dedicated_rules : Text → Text → List Rule → List Rule
dedicated_rules name desc rules =
    personalize_rules (record { name = name; description = desc })
      (rules
        ++ (new_id_option [] false
            ∷ new_context_option []
            ∷ new_kubeconfig_option [] []
            ∷ new_environment_variable
            ∷ []))

-- the flags of the options of a rule list, as they are parsed: identity, context and path
unfoldable pub with_flags : Text → Text → Text → List Rule → List Rule
with_flags id ctx path [] = []
with_flags id ctx path (id_option name enabled i ∷ rules) =
    id_option name enabled (if enabled then id else i) ∷ with_flags id ctx path rules
with_flags id ctx path (context_option name c ∷ rules) =
    context_option name ctx ∷ with_flags id ctx path rules
with_flags id ctx path (kubeconfig_option name desc specials p ∷ rules) =
    kubeconfig_option name desc specials path ∷ with_flags id ctx path rules
with_flags id ctx path (rule ∷ rules) = rule ∷ with_flags id ctx path rules
