-- ===== src/Objects/Tests.antt =====
-- Instances of the theorems on annotations and labels.
use kubecrtutils.Prelude.{◌∷◌, [], none, some}
use kubecrtutils.Prelude.Text.{codes, text_eq}
use kubecrtutils.Objects.{Object}

abbrev labelled : Object
labelled = record { annotations = none; labels = some ((codes "app", codes "x") ∷ []) }
