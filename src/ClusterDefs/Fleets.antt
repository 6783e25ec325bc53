-- ===== src/ClusterDefs/Fleets.antt =====
-- Which of the clusters of `Validate` are fleets, and what `IsMulti` says of them.
use kubecrtutils.Prelude.{
  ℕ, suc, ◌≡◌, ◌≢◌, refl, ap, sym, ◌∙◌, subst, Bool, true, false, not, ◌&&◌, ◌||◌, List, [], ◌∷◌,
  Option, none, some, elem, is_some, length, ltb, arith, ==_iff, ◌==◌, Bool-cases, Option-cases,
  inl, inr,
}
use kubecrtutils.Prelude.Text.{Text, text_eq}
use kubecrtutils.Strings.{Lacks}
use kubecrtutils.Maps.{GoMap, lookup, insert}
use kubecrtutils.Fleet.{
  Clusters, Equivalent, add_clusters, new_alias, new_clusters, get_cluster, separator, is_multi,
  found_multi,
}
use kubecrtutils.Fleet.Names.{as_fleet-new_alias}
use kubecrtutils.Maps.Sets.{add}
use kubecrtutils.ClusterDefs.{
  Definition, created, Ranges, Definitions, validate, effective_required, disable, default_name,
}
use kubecrtutils.ClusterDefs.Steps.{
  lookup-add_clusters, add_clusters-known, add_clusters-new, get_cluster-Lacks,
}
use kubecrtutils.ClusterDefs.Covers.{name-new_alias}
use kubecrtutils.ClusterDefs.Accepted.{get_cluster-disable}
use kubecrtutils.ClusterDefs.Kept.{validate-kept}

-- one of the clusters is a fleet
abbrev pub any_fleet : GoMap Text Equivalent → Bool
any_fleet [] = false
any_fleet ((n, e) ∷ m) = is_some e.as_fleet || any_fleet m

-- `IsMulti` tells whether there are several clusters or a fleet
unfoldable pub IsCounted : Clusters → Type 0
IsCounted c = is_multi c ≡ (ltb 1 (length c.elements) || any_fleet c.elements)

length-insert :
    (n : Text) (e : Equivalent) (m : GoMap Text Equivalent)
    → lookup n m ≡ none
    → length (insert n e m) ≡ suc (length m)
unfolding lookup insert
length-insert n e [] new = refl
length-insert n e ((k, v) ∷ m) new = ground (arith, length-insert n e m, new)

any_fleet-insert :
    (n : Text) (e : Equivalent) (m : GoMap Text Equivalent)
    → lookup n m ≡ none
    → any_fleet (insert n e m) ≡ (is_some e.as_fleet || any_fleet m)
unfolding lookup insert
any_fleet-insert n e [] new = refl
any_fleet-insert n e ((k, v) ∷ m) new = ground (arith, any_fleet-insert n e m, new)

pub add_clusters-IsCounted :
    (e : Equivalent) (c : Clusters) → IsCounted c → IsCounted (add_clusters (e ∷ []) c).1
unfolding IsCounted is_multi found_multi
add_clusters-IsCounted e c h = elim (Option-cases (lookup e.own.name c.elements)) [
  | inr (old, known) ↦ rw (add_clusters-known e old c known) h
  | inl new ↦ rw (add_clusters-new e c new) (
      ground (
        arith,
        h,
        length-insert e.own.name e c.elements new,
        any_fleet-insert e.own.name e c.elements new,
      ))
]

disable-IsCounted : (rest : List Text) (c : Clusters) → IsCounted c → IsCounted (disable rest c)
unfolding IsCounted is_multi disable
disable-IsCounted [] c h = h
disable-IsCounted (n ∷ rest) c h = elim (Bool-cases (is_some (get_cluster n c))) [
  | inl known ↦ rw (disable, known) (disable-IsCounted rest c h)
  | inr unknown ↦
      rw (disable, unknown) (disable-IsCounted rest (record c { disabled = add n c.disabled }) h)
]

-- a name has no fleet
NoFleet : Text → Clusters → Type 0
NoFleet n c = (e : Equivalent) → lookup n c.elements ≡ some e → e.as_fleet ≡ none

new_clusters-NoFleet : (n : Text) → NoFleet n new_clusters
unfolding NoFleet new_clusters lookup
new_clusters-NoFleet n e h = ground (arith, h)

add_clusters-NoFleet :
    (n : Text) (acc : Equivalent) (c : Clusters)
    → NoFleet n c
    → (acc.own.name ≡ n → acc.as_fleet ≡ none)
    → NoFleet n (add_clusters (acc ∷ []) c).1
unfolding NoFleet
add_clusters-NoFleet n acc c p single e found =
    elim (Option-cases (lookup acc.own.name c.elements)) [
      | inr (old, known) ↦
          p e (subst (λ x. lookup n x.elements ≡ some e) (add_clusters-known acc old c known) found)
      | inl new ↦
          let shown = sym (lookup-add_clusters n acc c) ∙ found in
          elim (Bool-cases (acc.own.name == n)) [
            | inl same ↦
                let this : acc ≡ e = ground (arith, new, same, shown) in
                ap (λ x. x.as_fleet) (sym this) ∙ single ((==_iff acc.own.name n).0 same)
            | inr other ↦ p e (ground (arith, new, other, shown))
          ]
    ]

lookup-disable :
    (n : Text) (rest : List Text) (c : Clusters)
    → Lacks separator n
    → lookup n (disable rest c).elements ≡ lookup n c.elements
lookup-disable n rest c h =
    sym (get_cluster-Lacks n (disable rest c) h)
    ∙ (get_cluster-disable n rest c ∙ get_cluster-Lacks n c h)

disable-NoFleet :
    (n : Text)
    → Lacks separator n
    → (rest : List Text) (c : Clusters) → NoFleet n c
    → NoFleet n (disable rest c)
unfolding NoFleet
disable-NoFleet n h rest c p e found = p e (sym (lookup-disable n rest c h) ∙ found)

not-default :
    (n : Text) (names : List Text)
    → elem default_name names ≡ false
    → elem n names ≡ true
    → default_name ≢ n
not-default n names out is_in same = ground (arith, ap (λ x. elem x names) same, out, is_in)

no_alias :
    (definition : Text → Definition) (required : List Text) (k n : Text) (eff : Equivalent)
    → k ≡ n
    → (not (definition k).accept_fleet && is_some eff.as_fleet && elem k required) ≡ false
    → (definition n).accept_fleet ≡ false
    → elem n required ≡ true
    → eff.as_fleet ≡ none
no_alias definition required k n eff same ok refuses needed = elim (Option-cases eff.as_fleet) [
  | inl nothing ↦ nothing
  | inr (f, is_fleet) ↦ absurd (
      ground (
        arith,
        subst
            (λ x.
              (not (definition x).accept_fleet && is_some eff.as_fleet && elem x required) ≡ false)
            same ok,
        refuses,
        needed,
        is_fleet,
      ))
]

module _ {L : Type 0} (add_error : Option Text → L → L)
    (wrap : Option Text → List Text → Option Text) (get_error : L → Option Text)
    (definition : Text → Definition) (main : Definition) (main_error : Option Text)
    (used names : List Text) (set_error : Option Text) (fuel : ℕ) (r : Ranges)
    (d d' : Definitions L) (err : Option Text) (c : Clusters) where
  -- Whatever `Validate` returns, `IsMulti` of its clusters tells whether there are several or a fleet. (The ranges
  -- of the rounds have the names of the definitions.)
  pub validate-IsCounted :
      ((i : ℕ) (k : Text) → elem k (r.rounds i) ≡ elem k names)
      → d.clusters ≡ none
      → get_error d.errlist ≡ none
      → validate add_error wrap get_error definition main main_error used names set_error fuel r d
        ≡ some (err, d')
      → d'.clusters ≡ some c
      → is_multi c ≡ (ltb 1 (length c.elements) || any_fleet c.elements)
  unfolding IsCounted is_multi new_clusters
  validate-IsCounted in_rounds fresh clean h e =
      validate-kept add_error wrap get_error IsCounted disable-IsCounted definition main main_error
        used names set_error fuel r d d' err c
        (record {
          makes = λ k acc c is_in e p. add_clusters-IsCounted acc c p;
          falls_main = λ acc c e p. add_clusters-IsCounted acc c p;
          stands = λ k eff c is_in ok p. add_clusters-IsCounted (new_alias k eff) c p;
        })
        refl in_rounds fresh clean h e

  -- A required definition that accepts no fleet never gets one, be it by a fallback. (No name holds a
  -- separator or is that of the default cluster, the ranges of the rounds have the names of the
  -- definitions, a cluster is named after its definition, and the definition itself makes no fleet.)
  pub validate_fleets :
      (n : Text) (e : Equivalent)
      → ((k : Text) → elem k names ≡ true → Lacks separator k)
      → elem default_name names ≡ false
      → ((k : Text) (acc : Equivalent)
          → elem k names ≡ true
          → (definition k).create ≡ created acc
          → acc.own.name ≡ k)
      → ((acc : Equivalent) → main.create ≡ created acc → acc.own.name ≡ default_name)
      → ((i : ℕ) (k : Text) → elem k (r.rounds i) ≡ elem k names)
      → ((acc : Equivalent) → (definition n).create ≡ created acc → acc.as_fleet ≡ none)
      → (definition n).accept_fleet ≡ false
      → elem n names ≡ true
      → elem n (effective_required used names) ≡ true
      → d.clusters ≡ none
      → get_error d.errlist ≡ none
      → validate add_error wrap get_error definition main main_error used names set_error fuel r d
        ≡ some (err, d')
      → d'.clusters ≡ some c
      → get_cluster n c ≡ some e
      → e.as_fleet ≡ none
  unfolding NoFleet
  validate_fleets n e lacks no_default made main_made in_rounds single refuses known needed fresh
        clean h kept found =
      validate-kept add_error wrap get_error (NoFleet n) (disable-NoFleet n (lacks n known))
        definition main main_error used names set_error fuel r d d' err c
        (record {
          makes = λ k acc c is_in e p. add_clusters-NoFleet n acc c p (λ same. single acc (
              subst (λ x. (definition x).create ≡ created acc) (sym (made k acc is_in e) ∙ same)
                e));
          falls_main = λ acc c e p. add_clusters-NoFleet n acc c p (λ same.
              absurd (not-default n names no_default known (sym (main_made acc e) ∙ same)));
          stands = λ k eff c is_in ok p. add_clusters-NoFleet n (new_alias k eff) c p (λ same.
              as_fleet-new_alias k eff
              ∙ no_alias definition (effective_required used names) k n eff
                  (sym (name-new_alias k eff) ∙ same) ok refuses needed);
        })
        (new_clusters-NoFleet n) in_rounds fresh clean h kept e
        (sym (get_cluster-Lacks n c (lacks n known)) ∙ found)
