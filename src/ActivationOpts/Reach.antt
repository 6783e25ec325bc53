-- ===== src/ActivationOpts/Reach.antt =====
-- The leaves of a name are those that it leads to through the lists of groups.
use kubecrtutils.Prelude.{
  ℕ, zero, suc, ◌≡◌, ap, sym, ◌∙◌, subst, true, false, [], ◌∷◌, Option, none, some, ◌==◌, elem,
  elem-append, arith, ==_iff, ==_self, Bool-cases, Option-cases, inl, inr, ◌⊎◌,
}
use kubecrtutils.Prelude.Text.{Text, text_eq}
use kubecrtutils.Maps.{GoMap}
use kubecrtutils.ActivationOpts.{ControllerSet, Names, resolve, list_of}
use kubecrtutils.ActivationOpts.Leaves.{
  leaves, concat_all, concat_all-split, leaves-seen, leaves-single, leaves-group,
}

module _ (s : ControllerSet) (simplified : GoMap Text Text) where
  -- a name leads to another one without a list, past names that are not in `avoid`
  pub data Leads (avoid : Names) : Text → Text → Type 0 where
    here :
        (name : Text)
        → elem (resolve simplified name) avoid ≡ false
        → list_of s (resolve simplified name) ≡ none
        → Leads avoid name (resolve simplified name)
    through :
        (name m x : Text) (list : Names)
        → elem (resolve simplified name) avoid ≡ false
        → list_of s (resolve simplified name) ≡ some list
        → elem m list ≡ true
        → Leads avoid m x
        → Leads avoid name x

  -- the members of a concatenation, both ways
  elem-concat_all :
      (f : Text → Option Names) (x : Text) (list xs : Names)
      → concat_all f list ≡ some xs
      → elem x xs ≡ true
      → (m : Text) × (ys : Names) × (elem m list ≡ true) × (f m ≡ some ys) × (elem x ys ≡ true)
  unfolding concat_all
  elem-concat_all f x [] xs e is_in =
      let nothing : [] ≡ xs = cc e in absurd (ground (arith, ap (elem x) nothing, is_in))
  elem-concat_all f x (n ∷ ns) xs e is_in =
      let (ys, zs, found, rest, whole) = concat_all-split f n ns xs e in
      elim (Bool-cases (elem x ys)) [
        | inl first ↦ (n, ys, ground (arith, ==_self n), found, first)
        | inr later ↦
            let (m, us, member, shown, inside) =
              elem-concat_all f x ns zs rest
                (ground (arith, ap (elem x) whole, elem-append x ys zs, later, is_in)) in
            (m, us, ground (arith, member), shown, inside)
      ]

  concat_all-elem :
      (f : Text → Option Names) (x m : Text) (list xs : Names)
      → concat_all f list ≡ some xs
      → elem m list ≡ true
      → (ys : Names) × (f m ≡ some ys) × (elem x ys ≡ true → elem x xs ≡ true)
  concat_all-elem f x m [] xs e member = absurd (ground (arith, member))
  concat_all-elem f x m (n ∷ ns) xs e member =
      let (ys, zs, found, rest, whole) = concat_all-split f n ns xs e in
      elim (Bool-cases (n == m)) [
        | inl same ↦ (
          ys,
          subst (λ k. f k ≡ some ys) ((==_iff n m).0 same) found,
          λ inside. ground (arith, ap (elem x) whole, elem-append x ys zs, inside),
        )
        | inr other ↦
            let (us, shown, later) =
              concat_all-elem f x m ns zs rest (ground (arith, member, other)) in
            (
              us,
              shown,
              λ inside. ground (arith, ap (elem x) whole, elem-append x ys zs, later inside),
            )
      ]

  -- fewer names to avoid
  weaken : (r : Text) (avoid : Names) (m x : Text) → Leads (r ∷ avoid) m x → Leads avoid m x
  weaken r avoid m _ (here _ new single) = here m (ground (arith, new)) single
  weaken r avoid m x (through _ k _ l new its member rest) =
      through m k x l (ground (arith, new)) its member (weaken r avoid k x rest)

  -- every leaf is led to
  pub leaves-Leads :
      (fuel : ℕ) (name x : Text) (handled xs : Names)
      → leaves s simplified fuel name handled ≡ some xs
      → elem x xs ≡ true
      → Leads handled name x
  unfolding leaves
  leaves-Leads zero name x handled xs e is_in = absurd (cc e)
  leaves-Leads (suc fuel) name x handled xs e is_in =
      let n = resolve simplified name in
      elim (Bool-cases (elem n handled)) [
        | inl seen ↦
            let nothing : [] ≡ xs =
              cc (sym (leaves-seen s simplified fuel name handled seen) ∙ e) in
            absurd (ground (arith, ap (elem x) nothing, is_in))
        | inr new ↦ elim (Option-cases (list_of s n)) [
          | inl single ↦
              let one : n ∷ [] ≡ xs =
                cc (sym (leaves-single s simplified fuel name handled new single) ∙ e) in
              subst (Leads handled name) ((==_iff n x).0 (ground (arith, ap (elem x) one, is_in)))
                (here name new single)
          | inr (list, found) ↦
              let (m, ys, member, shown, inside) =
                elem-concat_all (λ m. leaves s simplified fuel m (n ∷ handled)) x list xs
                  (sym (leaves-group s simplified fuel name handled list new found) ∙ e) is_in in
              through name m x list new found member
                (weaken n handled m x (leaves-Leads fuel m x (n ∷ handled) ys shown inside))
        ]
      ]

  -- a path through a group can start from its last visit
  from_last :
      (r : Text) (list avoid : Names) (m x : Text)
      → list_of s r ≡ some list
      → Leads avoid m x
      → Leads (r ∷ avoid) m x ⊎ ((k : Text) × (elem k list ≡ true) × Leads (r ∷ avoid) k x)
  from_last r list avoid m _ found (here _ new single) = inl (
      here m
        (elim (Bool-cases (r == resolve simplified m)) [
          | inl same ↦ absurd (
              cc (sym found ∙ (ap (list_of s) ((==_iff r (resolve simplified m)).0 same) ∙ single)))
          | inr other ↦ ground (arith, other, new)
        ])
        single)
  from_last r list avoid m x found (through _ k _ l new its member rest) =
      elim (from_last r list avoid k x found rest) [
        | inr later ↦ inr later
        | inl path ↦ elim (Bool-cases (r == resolve simplified m)) [
          | inl same ↦
              let one : l ≡ list = cc (
                sym its
                ∙ (ap (list_of s) (sym ((==_iff r (resolve simplified m)).0 same)) ∙ found)) in
              inr (k, subst (λ y. elem k y ≡ true) one member, path)
          | inr other ↦ inl (through m k x l (ground (arith, other, new)) its member path)
        ]
      ]

  -- and all that is led to is a leaf
  pub Leads-leaves :
      (fuel : ℕ) (name x : Text) (handled xs : Names)
      → leaves s simplified fuel name handled ≡ some xs
      → Leads handled name x
      → elem x xs ≡ true
  unfolding leaves
  Leads-leaves zero name x handled xs e path = absurd (cc e)
  Leads-leaves (suc fuel) name _ handled xs e (here _ new single) =
      let one : resolve simplified name ∷ [] ≡ xs =
        cc (sym (leaves-single s simplified fuel name handled new single) ∙ e) in
      ground (arith, ap (elem (resolve simplified name)) one, ==_self (resolve simplified name))
  Leads-leaves (suc fuel) name x handled xs e (through _ m _ list new found member rest) =
      let n = resolve simplified name in
      let whole = sym (leaves-group s simplified fuel name handled list new found) ∙ e in
      elim (from_last n list handled m x found rest) [
        | inl path ↦
            let (ys, shown, up) =
              concat_all-elem (λ m. leaves s simplified fuel m (n ∷ handled)) x m list xs whole
                member in
            up (Leads-leaves fuel m x (n ∷ handled) ys shown path)
        | inr (k, its, path) ↦
            let (ys, shown, up) =
              concat_all-elem (λ m. leaves s simplified fuel m (n ∷ handled)) x k list xs whole
                its in
            up (Leads-leaves fuel k x (n ∷ handled) ys shown path)
      ]
