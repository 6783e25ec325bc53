-- ===== src/Kube.antt =====
-- The Kubernetes structs whose fields the program reads.
use kubecrtutils.Prelude.{◌≡◌, ◌↔◌, Bool, true, ◌&&◌, arith, Eq, ◌==◌, ==_iff}
use kubecrtutils.Prelude.Text.{Text, text_eq}

-- `types.NamespacedName`, also called `client.ObjectKey`
pub record NamespacedName : Type 0 where
  pub namespace : Text
  pub name : Text

-- `schema.GroupKind`
pub record GroupKind : Type 0 where
  pub group : Text
  pub kind : Text

abbrev pub key_beq : NamespacedName → NamespacedName → Bool
key_beq a b = (a.namespace == b.namespace) && (a.name == b.name)

pub key_beq_iff : (a b : NamespacedName) → (key_beq a b ≡ true) ↔ (a ≡ b)
key_beq_iff a b = ground (arith, ==_iff a.namespace b.namespace, ==_iff a.name b.name)

instance abbrev pub key_eq : Eq NamespacedName
key_eq = record { equals = key_beq; equals_iff = key_beq_iff }

abbrev pub kind_beq : GroupKind → GroupKind → Bool
kind_beq a b = (a.group == b.group) && (a.kind == b.kind)

pub kind_beq_iff : (a b : GroupKind) → (kind_beq a b ≡ true) ↔ (a ≡ b)
kind_beq_iff a b = ground (arith, ==_iff a.group b.group, ==_iff a.kind b.kind)

instance abbrev pub kind_eq : Eq GroupKind
kind_eq = record { equals = kind_beq; equals_iff = kind_beq_iff }
