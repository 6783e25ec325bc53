-- ===== src/Owner.antt =====
-- owner/: the relation of an object to its owner, kept as a Kubernetes owner reference or, across
-- namespaces and clusters, in an annotation of the object.
mod Tests
pub mod Annotation
pub mod Matcher
pub mod Handler
