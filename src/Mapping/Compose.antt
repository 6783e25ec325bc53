-- ===== src/Mapping/Compose.antt =====
-- What `ApplyTo` composes.
use kubecrtutils.Prelude.{
  ◌≡◌, ◌≢◌, refl, false, [], ◌∷◌, some, All, arith, inl, inr, ◌==◌, ==_iff, elem, if◌then◌else◌,
  Bool-cases,
}
use kubecrtutils.Prelude.Text.{Text, text_eq}
use kubecrtutils.Maps.{GoMap, lookup, insert, lookup-insert, keys}
use kubecrtutils.Mapping.{
  at_key, map_name, overlay_local, overlay_outer, apply_to, put, put_all, use_map,
  ControllerMappings, use_mappings,
}

-- no name is mapped to the empty text
abbrev pub HasTargets : GoMap Text Text → Type 0
HasTargets m = All (λ e. e.1 ≢ []) m

pub at_key-insert :
    (m : GoMap Text Text) (k v j : Text)
    → at_key (insert k v m) j ≡ (if k == j then v else at_key m j)
unfolding at_key
at_key-insert m k v j = ground (arith, lookup-insert j k v m)

map_name-ne : (m : GoMap Text Text) (n : Text) → n ≢ [] → map_name (some m) n ≢ []
unfolding map_name
map_name-ne m n h = ground (arith, ==_iff (at_key m n) [])

pub at_key-cons :
    (m : GoMap Text Text) (k v j : Text)
    → at_key ((k, v) ∷ m) j ≡ (if k == j then v else at_key m j)
unfolding at_key lookup
at_key-cons m k v j = ground arith

at_key-nil : (j : Text) → at_key [] j ≡ []
unfolding at_key lookup
at_key-nil j = refl

at_key-overlay_local :
    (outer m r : GoMap Text Text) (n : Text)
    → HasTargets m
    → at_key (overlay_local outer m r) n ≡ (
        if at_key r n == []
        then if at_key m n == [] then at_key r n else map_name (some outer) (at_key m n)
        else at_key r n)
unfolding overlay_local
at_key-overlay_local outer [] r n h = ground (arith, at_key-nil n)
at_key-overlay_local outer ((k, t) ∷ m) r n (ne, h) = elim (Bool-cases (at_key r k == [])) [
  | inl free ↦ rw free (
      ground (
        arith,
        at_key-overlay_local outer m (insert k (map_name (some outer) t) r) n h,
        at_key-insert r k (map_name (some outer) t) n,
        at_key-cons m k t n,
        ==_iff k n,
        ==_iff t [],
        map_name-ne outer t ne,
        ==_iff (map_name (some outer) t) [],
      ))
  | inr taken ↦ rw taken (
      ground
        (arith, at_key-overlay_local outer m r n h, at_key-cons m k t n, ==_iff k n, ==_iff t []))
]

at_key-overlay_outer :
    (m r : GoMap Text Text) (n : Text)
    → HasTargets m
    → at_key (overlay_outer m r) n ≡ (if at_key r n == [] then at_key m n else at_key r n)
unfolding overlay_outer
at_key-overlay_outer [] r n h = ground (arith, at_key-nil n, ==_iff (at_key r n) [])
at_key-overlay_outer ((k, t) ∷ m) r n (ne, h) = elim (Bool-cases (at_key r k == [])) [
  | inl free ↦ rw free (
      ground (
        arith,
        at_key-overlay_outer m (insert k t r) n h,
        at_key-insert r k t n,
        at_key-cons m k t n,
        ==_iff k n,
        ==_iff t [],
      ))
  | inr taken ↦
      rw taken (ground (arith, at_key-overlay_outer m r n h, at_key-cons m k t n, ==_iff k n))
]

-- The effective mapping of `m` under `add`: an entry of `add` for the name itself wins; any other
-- name is mapped by `m` first and then by `add`. (No name of either is mapped to the empty text.)
pub map_name-apply_to :
    (m add : GoMap Text Text) (n : Text)
    → HasTargets m
    → HasTargets add
    → map_name (apply_to (some m) (some add)) n
      ≡ (if at_key add n == [] then map_name (some add) (map_name (some m) n) else at_key add n)
unfolding apply_to map_name
map_name-apply_to m add n h ha = ground (
  arith,
  at_key-overlay_outer add (overlay_local add m add) n ha,
  at_key-overlay_local add m add n h,
)

map_name-put :
    (m : GoMap Text Text) (s t n : Text)
    → t ≢ []
    → map_name (put s t (some m)) n ≡ (if s == n then t else map_name (some m) n)
unfolding put map_name
map_name-put m s t n h = ground (arith, at_key-insert m s t n, ==_iff t [])

-- a Go map has at most one entry for a key
abbrev pub IsDistinct : GoMap Text Text → Type 0
IsDistinct [] = Unit
IsDistinct ((k, t) ∷ m) = (elem k (keys m) ≡ false) × IsDistinct m

at_key_absent : (m : GoMap Text Text) (n : Text) → elem n (keys m) ≡ false → at_key m n ≡ []
at_key_absent [] n h = at_key-nil n
at_key_absent ((k, t) ∷ m) n h = ground (arith, at_key_absent m n, at_key-cons m k t n)

map_name-put_all :
    (src m : GoMap Text Text) (n : Text)
    → HasTargets src
    → IsDistinct src
    → map_name (put_all src (some m)) n
      ≡ (if at_key src n == [] then map_name (some m) n else at_key src n)
unfolding put_all put
map_name-put_all [] m n h u = ground (arith, at_key-nil n)
map_name-put_all ((s, t) ∷ src) m n (ne, h) (fresh, u) = ground (
  arith,
  map_name-put_all src (insert s t m) n h u,
  map_name-put m s t n ne,
  at_key-cons src s t n,
  ==_iff s n,
  at_key_absent src n,
  ==_iff t [],
  ==_iff (at_key src n) [],
)

-- `UseMappings` takes over every entry of the given mappings and leaves the other names as they
-- were, for clusters and components alike. (Maps have one entry for a key and no empty target.)
pub map_name-use_mappings :
    (src d : ControllerMappings) (cs cd ps pd : GoMap Text Text) (n : Text)
    → src.clusters ≡ some cs
    → d.clusters ≡ some cd
    → src.components ≡ some ps
    → d.components ≡ some pd
    → HasTargets cs × IsDistinct cs
    → HasTargets ps × IsDistinct ps
    → (map_name (use_mappings src d).clusters n
        ≡ (if at_key cs n == [] then map_name (some cd) n else at_key cs n))
      × (map_name (use_mappings src d).components n
          ≡ (if at_key ps n == [] then map_name (some pd) n else at_key ps n))
unfolding use_mappings use_map
map_name-use_mappings src d cs cd ps pd n a b a' b' (hc, uc) (hp, up) =
    (rw (a, b) (map_name-put_all cs cd n hc uc), rw (a', b') (map_name-put_all ps pd n hp up))
