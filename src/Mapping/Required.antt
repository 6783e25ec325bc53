-- ===== src/Mapping/Required.antt =====
-- The global names that a definition requires.
use kubecrtutils.Prelude.{
  ◌≡◌, ◌↔◌, refl, true, [], ◌∷◌, Option, some, elem, arith, inl, inr, ◌==◌, ==_iff, Bool-cases, ap,
}
use kubecrtutils.Prelude.Text.{Text, text_eq}
use kubecrtutils.Maps.{GoMap, keys}
use kubecrtutils.Maps.Sets.{add, elem-add}
use kubecrtutils.Mapping.{
  Names, Mappings, map_name, map_keys, map_names, get_mapped, apply_mappings, ControllerMappings,
  Consumer, required_clusters, required_components, default_mappings, consumer_clusters,
}

abbrev pub In : Text → Names → Type 0
In x s = elem x s ≡ true

-- `x` is the image of a name of `s`
abbrev pub IsImage : (Text → Text) → Names → Text → Type 0
IsImage f s x = (n : Text) × In n s × (f n ≡ x)

IsImage-cons :
    (f : Text → Text) (n : Text) (ns : Names) (x : Text) → IsImage f ns x → IsImage f (n ∷ ns) x
IsImage-cons f n ns x (m, h, e) = (m, ground arith, e)

map_names_iff :
    (m : Mappings) (ns : Names) (x : Text) → In x (map_names m ns) ↔ IsImage (map_name m) ns x
unfolding map_names
map_names_iff m [] x = (λ h. cc h, λ h. cc h.1)
map_names_iff m (n ∷ ns) x = (
  λ h. elim (Bool-cases (map_name m n == x)) [
    | inl same ↦ (n, ground (arith, ==_iff n n), (==_iff (map_name m n) x).0 same)
    | inr other ↦
        IsImage-cons (map_name m) n ns x
          ((map_names_iff m ns x).0 (ground (arith, elem-add x (map_name m n) (map_names m ns))))
  ],
  λ (k, h, e). elim (Bool-cases (n == k)) [
    | inl same ↦
        let is_n : n ≡ k = (==_iff n k).0 same in
        ground (
          arith,
          elem-add x (map_name m n) (map_names m ns),
          ==_iff (map_name m n) x,
          ap (map_name m) is_n,
        )
    | inr other ↦
        let rest = (map_names_iff m ns x).1 (k, ground arith, e) in
        ground (arith, elem-add x (map_name m n) (map_names m ns))
  ],
)

-- The required clusters and components of a wrapped definition are exactly the images of the ones
-- that its consumer uses, under the effective mapping of the wrapper below the outer mappings.
pub required_names :
    (m : ControllerMappings) (self : Consumer) (outer : Option ControllerMappings) (x : Text)
    → (In x (required_clusters m self outer)
        ↔ IsImage (map_name (apply_mappings m outer).clusters) self.clusters x)
      × (In x (required_components m self outer)
          ↔ IsImage (map_name (apply_mappings m outer).components) self.components x)
unfolding required_clusters required_components
required_names m self outer x = (
  map_names_iff (apply_mappings m outer).clusters self.clusters x,
  map_names_iff (apply_mappings m outer).components self.components x,
)

map_keys_names : (m : GoMap Text Text) (ns : Names) → map_keys m ns ≡ map_names (some m) ns
unfolding map_keys map_names
map_keys_names m [] = refl
map_keys_names m (n ∷ ns) = ap (add (map_name (some m) n)) (map_keys_names m ns)

-- `GetMapped` of a mapping with an entry returns the images of the keys of the mapping, whatever
-- the names that it is given; so the clusters and components that a plain consumer requires under
-- such mappings do not depend on the ones that it uses.
pub get_mapped_ignores :
    (e : Text × Text) (m : GoMap Text Text) (s : Names) (x : Text)
    → (In x (get_mapped (some (e ∷ m)) s) ↔ IsImage (map_name (some (e ∷ m))) (keys (e ∷ m)) x)
      × ((c d : Consumer) (i r : Mappings)
          → consumer_clusters c
              (some (record { indices = i; clusters = some (e ∷ m); components = r }))
            ≡ consumer_clusters d
                (some (record { indices = i; clusters = some (e ∷ m); components = r })))
unfolding get_mapped consumer_clusters default_mappings
get_mapped_ignores e m s x = (
  rw (map_keys_names (e ∷ m) (keys (e ∷ m))) (map_names_iff (some (e ∷ m)) (keys (e ∷ m)) x),
  λ c d i r. refl,
)
