-- ===== src/ClusterDefs/Disabled.antt =====
-- Which names `Validate` disables.
use kubecrtutils.Prelude.{
  ℕ, ◌≡◌, ◌≢◌, refl, sym, ◌∙◌, ap, not, ◌&&◌, ◌||◌, List, [], ◌∷◌, Option, none, some, elem,
  is_some, Bool-cases, Option-cases, inl, inr, arith, ==_iff,
}
use kubecrtutils.Prelude.Text.{Text, text_eq}
use kubecrtutils.Fleet.{Clusters, Equivalent, add_clusters, new_alias, new_clusters, is_disabled}
use kubecrtutils.Maps.{lookup}
use kubecrtutils.Maps.Sets.{add, elem-add}
use kubecrtutils.ClusterDefs.{
  Definition, Progress, going, reported, refused, out_of_fuel, Ranges, Definitions, validate,
  finish, fail, effective_required, disable, resolve,
}
use kubecrtutils.ClusterDefs.Steps.{After, add_clusters-known, add_clusters-new}
use kubecrtutils.ClusterDefs.Covers.{has}
use kubecrtutils.ClusterDefs.Accepted.{
  get_cluster-elements, get_cluster-disable, fail-some, validate-fresh, validate-failed,
}
use kubecrtutils.ClusterDefs.Kept.{resolve-kept}

-- no name is disabled
AllEnabled : Clusters → Type 0
AllEnabled c = c.disabled ≡ []

add_clusters-AllEnabled :
    (e : Equivalent) (c : Clusters) → AllEnabled c → AllEnabled (add_clusters (e ∷ []) c).1
unfolding AllEnabled
add_clusters-AllEnabled e c h = elim (Option-cases (lookup e.own.name c.elements)) [
  | inl new ↦ rw (add_clusters-new e c new) h
  | inr (old, known) ↦ rw (add_clusters-known e old c known) h
]

-- the last loop disables the names that it meets without a cluster
is_disabled-disable :
    (n : Text) (rest : List Text) (c : Clusters)
    → is_disabled n (disable rest c) ≡ (is_disabled n c || (elem n rest && not (has n c)))
unfolding is_disabled disable
is_disabled-disable n [] c = ground arith
is_disabled-disable n (k ∷ rest) c = elim (Bool-cases (has k c)) [
  | inl known ↦
      rw (disable, known)
        (is_disabled-disable n rest c ∙ ground (arith, known, ==_iff k n, ap (λ x. has x c)))
  | inr unknown ↦
      let c' : Clusters = record c { disabled = add k c.disabled } in
      rw (disable, unknown)
        (is_disabled-disable n rest c'
          ∙ ground (
            arith,
            unknown,
            ==_iff k n,
            ap (λ x. has x c),
            elem-add n k c.disabled,
            ap is_some (get_cluster-elements n c' c refl),
          ))
]

module _ {L : Type 0} (add_error : Option Text → L → L)
    (wrap : Option Text → List Text → Option Text) (get_error : L → Option Text)
    (wraps : (e : Text) (ctx : List Text) → wrap (some e) ctx ≢ none) where
  enabled :
      (n : Text) (rest : List Text) (c s : Clusters) (err : Option Text)
      → AllEnabled s
      → c ≡ s
      → err ≢ none
      → is_disabled n c ≡ (not (is_some err) && (elem n rest && not (has n c)))
  unfolding AllEnabled is_disabled
  enabled n rest c s none h same failed = absurd (failed refl)
  enabled n rest c s (some e) h same failed = ap (λ x. elem n x.disabled) same ∙ ap (elem n) h

  finish-disables :
      (n : Text) (rest : List Text) (l : L) (p : Progress) (err : Option Text) (d : Definitions L)
      (c : Clusters)
      → get_error l ≡ none
      → After (λ s. AllEnabled s.clusters) (λ s. AllEnabled s.clusters) p
      → finish add_error wrap get_error rest l p ≡ some (err, d)
      → d.clusters ≡ some c
      → is_disabled n c ≡ (not (is_some err) && (elem n rest && not (has n c)))
  unfolding finish fail After AllEnabled is_disabled
  finish-disables n rest l (going s) err d c clean q h e =
      let this : c ≡ disable rest s.clusters = cc (h, e) in
      let fine : err ≡ none = cc (h, clean) in
      ap (is_disabled n) this
      ∙ (is_disabled-disable n rest s.clusters
          ∙ ground (
            arith,
            fine,
            ap (elem n) q,
            ap (has n) this,
            ap is_some (get_cluster-disable n rest s.clusters),
          ))
  finish-disables n rest l (reported x ctx s) err d c clean q h e =
      enabled n rest c s.clusters err q (cc (h, e))
        (λ ok. fail-some add_error wrap get_error x ctx (some s.clusters) l wraps (cc (h, ok)))
  finish-disables n rest l (refused x s) err d c clean q h e =
      enabled n rest c s.clusters err q (cc (h, e)) (λ ok. cc (h, ok))
  finish-disables n rest l out_of_fuel err d c clean q h e = absurd (cc h)

-- Whatever the first `Validate` returns for whatever definitions, when it makes clusters, a name is disabled
-- exactly if no error is returned, the name is that of a definition and there is no cluster for it:
-- neither the rounds nor an error disable a name. (There is no error before, the ranges have the
-- names of the definitions, and a wrapped error is an error.)
pub validate_disables :
    {L : Type 0} (add_error : Option Text → L → L) (wrap : Option Text → List Text → Option Text)
    (get_error : L → Option Text) (definition : Text → Definition) (main : Definition)
    (main_error : Option Text) (used names : List Text) (set_error : Option Text) (fuel : ℕ)
    (r : Ranges) (d d' : Definitions L) (err : Option Text) (c : Clusters) (n : Text)
    → ((e : Text) (ctx : List Text) → wrap (some e) ctx ≢ none)
    → ((i : ℕ) (k : Text) → elem k (r.rounds i) ≡ elem k names)
    → ((k : Text) → elem k r.rest ≡ elem k names)
    → d.clusters ≡ none
    → get_error d.errlist ≡ none
    → validate add_error wrap get_error definition main main_error used names set_error fuel r d
      ≡ some (err, d')
    → d'.clusters ≡ some c
    → is_disabled n c ≡ (not (is_some err) && (elem n names && not (has n c)))
unfolding fail AllEnabled new_clusters
validate_disables add_error wrap get_error definition main main_error used names (some x) fuel r d
      d' err c n wraps in_rounds in_rest fresh clean h e =
    absurd (
      cc (
        sym (
              validate-failed add_error wrap get_error definition main main_error used names fuel r
                d fresh clean x)
            ∙ h,
        fresh,
        e,
      ))
validate_disables add_error wrap get_error definition main main_error used names none fuel r d d'
      err c n wraps in_rounds in_rest fresh clean h e =
    finish-disables add_error wrap get_error wraps n r.rest d.errlist
      (resolve definition main main_error (effective_required used names) fuel r) err d' c clean
      (resolve-kept definition main main_error (effective_required used names) names AllEnabled fuel
        r
        (record {
          makes = λ k acc c is_in e p. add_clusters-AllEnabled acc c p;
          falls_main = λ acc c e p. add_clusters-AllEnabled acc c p;
          stands = λ k eff c is_in ok p. add_clusters-AllEnabled (new_alias k eff) c p;
        })
        refl in_rounds)
      (sym (
          validate-fresh add_error wrap get_error definition main main_error used names fuel r d
            fresh clean)
        ∙ h)
      e
    ∙ ap (λ b. not (is_some err) && (b && not (has n c))) (in_rest n)
