-- ===== src/Config/Tests.antt =====
-- Tests of the configuration rules, and the instances of their theorems.
use kubecrtutils.Prelude.{◌≡◌, refl, [], none, if◌then◌else◌, ◌==◌}
use kubecrtutils.Prelude.Text.{Text, codes, text_eq}
use kubecrtutils.Config.{ok, failed, ConfigOptions, with_flags, default_rules, upper}
use kubecrtutils.Config.Answers.{World, outside, inside, first_config}
use kubecrtutils.Config.Chain.{in_cluster_unreachable}

-- every file is there but the one of the home directory; a file is its name
abbrev world : World Text Text
world = record {
  load = λ path. if path == codes "home" then failed (codes "no such file") else ok path;
  raw_context = λ api opts. ok opts.current_context;
  rest_of = λ api opts. ok api;
  namespace_of = λ api opts. ok (codes "default");
  env = λ name. [];
  home_file = codes "home";
  migrate = none;
}

abbrev no_options : ConfigOptions
no_options = record { identity = []; current_context = []; sub_config = none }

upper_a : upper (codes "data-1") ≡ codes "DATA-1"
unfolding upper
upper_a = refl

in_cluster_unreachable_example :
    first_config world outside (with_flags [] [] [] default_rules) no_options
    ≡ first_config world (inside (codes "rest")) (with_flags [] [] [] default_rules) no_options
in_cluster_unreachable_example =
    in_cluster_unreachable world outside (inside (codes "rest")) [] [] [] no_options (λ e. cc e)
