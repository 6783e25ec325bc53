-- ===== src/Constraints/Rules/Disjoint.antt =====
-- What `Disjoint` returns: its loops find the first two groups that are in use.
use kubecrtutils.Prelude.{
  ℕ, zero, suc, ◌+◌, ◌<◌, ◌≡◌, ◌≢◌, refl, ◌⊎◌, inl, inr, [], ◌∷◌, none, some, length, drop, All,
  arith, ltb, Bool-cases, Option-cases, if◌then◌else◌, List-cases, ◌==◌, ==_iff, subst, sym,
}
use native.Mathlib.Numerals.{add-one}
use kubecrtutils.Prelude.Text.{Text, text_eq}
use kubecrtutils.Constraints.Activation.{said_yes, no_opinion}
use kubecrtutils.Constraints.Context.{Names, Context, get_group}
use kubecrtutils.Constraints.Rules.{
  Verdict, overlapping, stop, next, hit, scan, disjoint_loop, match_disjoint, match, disjoint,
  undeclared,
}

-- a declared group with a name that is not empty
abbrev pub IsDeclared : Context → Text → Type 0
IsDeclared ctx name = (name ≢ []) × ((g : Names) × (get_group ctx name ≡ some g))

-- the groups in use: those with a selected member
unfoldable pub in_use : Context → Names → Names
in_use ctx [] = []
in_use ctx (name ∷ names) =
    let rest = in_use ctx names in
    elim (get_group ctx name) [ none ↦ rest | some g ↦ if hit ctx g then name ∷ rest else rest ]

abbrev pub two_in_use : Names → Verdict
two_in_use (a ∷ b ∷ rest) = (said_yes, some (overlapping a b))
two_in_use _ = (no_opinion, none)

-- once a group was found, the next one in use ends the scan
scan_found :
    (ctx : Context) (gs : Names) (j : ℕ) (found : Text) (i : ℕ)
    → found ≢ []
    → All (IsDeclared ctx) gs
    → scan ctx gs j found i
      ≡ (elim (in_use ctx gs) [ [] ↦ next i | b ∷ _ ↦ stop (said_yes, some (overlapping found b)) ])
unfolding scan in_use
scan_found ctx [] j found i ne h = refl
scan_found ctx (g ∷ gs) j found i ne ((gne, (l, e)), h) =
    ground (arith, scan_found ctx gs (j + 1) found i ne h, ==_iff found [])

module _ (ctx : Context) where
  scan_none :
      (gs : Names) (j i : ℕ)
      → All (IsDeclared ctx) gs
      → in_use ctx gs ≡ []
      → scan ctx gs j [] i ≡ next i
  unfolding scan in_use
  scan_none [] j i h e = refl
  scan_none (g ∷ gs) j i ((gne, (l, d)), h) e = ground (arith, scan_none gs (j + 1) i h)

  scan_two :
      (gs : Names) (j i : ℕ) (a b : Text) (r : Names)
      → All (IsDeclared ctx) gs
      → in_use ctx gs ≡ a ∷ b ∷ r
      → scan ctx gs j [] i ≡ stop (said_yes, some (overlapping a b))
  unfolding scan in_use
  scan_two [] j i a b r h e = cc
  scan_two (g ∷ gs) j i a b r ((gne, (l, d)), h) e =
      ground (arith, scan_two gs (j + 1) i a b r h, scan_found ctx gs (j + 1) g j gne h)

  -- with one group in use the scan ends with its index, behind which no group is in use
  scan_one :
      (gs : Names) (j i : ℕ) (a : Text)
      → All (IsDeclared ctx) gs
      → in_use ctx gs ≡ a ∷ []
      → (k : ℕ) × (scan ctx gs j [] i ≡ next (j + k)) × (in_use ctx (drop (suc k) gs) ≡ [])
  unfolding scan in_use
  scan_one [] j i a h e = cc
  scan_one (g ∷ gs) j i a ((gne, (l, d)), h) e = elim (Bool-cases (hit ctx l)) [
    | inl used ↦
        let rest : in_use ctx gs ≡ [] = ground arith in
        (0, ground (arith, scan_found ctx gs (j + 1) g j gne h), rest)
    | inr unused ↦
        let (k, ends, clear) = scan_one gs (j + 1) i a h (ground arith) in
        (suc k, ground arith, clear)
  ]

  All-drop : (k : ℕ) (gs : Names) → All (IsDeclared ctx) gs → All (IsDeclared ctx) (drop k gs)
  All-drop zero gs h = h
  All-drop (suc k) [] h = tt
  All-drop (suc k) (g ∷ gs) h = All-drop k gs h.1

  in_use-drop : (k : ℕ) (gs : Names) → in_use ctx gs ≡ [] → in_use ctx (drop k gs) ≡ []
  unfolding in_use
  in_use-drop zero gs e = e
  in_use-drop (suc k) [] e = refl
  in_use-drop (suc k) (g ∷ gs) e = in_use-drop k gs (ground arith)

  drop-suc : (i : ℕ) (gs : Names) → drop (suc i) gs ≡ drop 1 (drop i gs)
  drop-suc zero gs = refl
  drop-suc (suc i) [] = refl
  drop-suc (suc i) (g ∷ gs) = drop-suc i gs

  -- where no further group is in use, the outer loop runs to its end
  loop_clear :
      (fuel : ℕ) (gs : Names) (i : ℕ)
      → All (IsDeclared ctx) gs
      → in_use ctx (drop i gs) ≡ []
      → 0 < fuel
      → length gs < fuel + i
      → disjoint_loop fuel ctx gs i ≡ some (no_opinion, none)
  unfolding disjoint_loop
  loop_clear zero gs i h e pos le = absurd (omega arith)
  loop_clear (suc fuel) gs i h e pos le = elim (Bool-cases (ltb i (length gs))) [
    | inl more ↦
        let next_one : in_use ctx (drop (suc i) gs) ≡ [] =
          subst (λ (z : Names). in_use ctx z ≡ []) (sym (drop-suc i gs))
            (in_use-drop 1 (drop i gs) e) in
        let ih = loop_clear fuel gs (suc i) h next_one (ground arith) (omega arith) in
        rw (more, disjoint_loop)
          (rw (scan_none (drop i gs) 0 i (All-drop i gs h) e) (rw add-one ih))
    | inr done ↦ rw (done, disjoint_loop)
  ]

  first_round :
      (fuel : ℕ) (g : Text) (gs : Names)
      → disjoint_loop (suc fuel) ctx (g ∷ gs) 0 ≡ (elim (scan ctx (g ∷ gs) 0 [] 0) [
        | stop v ↦ some v
        | next i' ↦ disjoint_loop fuel ctx (g ∷ gs) (i' + 1)
      ])
  unfolding disjoint_loop
  first_round fuel g gs = ground arith

  loop_start :
      (gs : Names)
      → All (IsDeclared ctx) gs
      → disjoint_loop (suc (length gs)) ctx gs 0 ≡ some (two_in_use (in_use ctx gs))
  loop_start [] h = unfold disjoint_loop in_use in refl
  loop_start (g ∷ gs) h = elim (List-cases (in_use ctx (g ∷ gs))) [
    | inl e ↦ ground (
      arith,
      first_round (length (g ∷ gs)) g gs,
      scan_none (g ∷ gs) 0 0 h e,
      loop_clear (length (g ∷ gs)) (g ∷ gs) 1 h (in_use-drop 1 (g ∷ gs) e) (omega arith)
          (omega arith),
    )
    | inr (a, r, e) ↦ elim (List-cases r) [
      | inl none_left ↦
          let (k, ends, clear) = scan_one (g ∷ gs) 0 0 a h (cc (e, none_left)) in
          ground (
            arith,
            first_round (length (g ∷ gs)) g gs,
            loop_clear (length (g ∷ gs)) (g ∷ gs) (suc k) h clear (omega arith) (omega arith),
          )
      | inr (b, r', e') ↦
          ground
            (arith, first_round (length (g ∷ gs)) g gs, scan_two (g ∷ gs) 0 0 a b r' h (cc (e, e')))
    ]
  ]

-- For declared groups with non-empty names `Disjoint` fails exactly if at least two of them are in
-- use, naming the first two in order; otherwise it has no opinion and no error.
pub disjoint_correct :
    (gs : Names) (ctx : Context)
    → All (IsDeclared ctx) gs
    → match (disjoint gs) ctx ≡ two_in_use (in_use ctx gs)
unfolding match match_disjoint
disjoint_correct gs ctx h = ground (arith, loop_start ctx gs h)

-- how a scan ends, whatever the groups: behind the index that it leaves no group is in use
scan_ends :
    (ctx : Context) (gs : Names) (j : ℕ) (found : Text) (i : ℕ)
    → ((v : Verdict) × (scan ctx gs j found i ≡ stop v))
      ⊎ ((scan ctx gs j found i ≡ next i) × (in_use ctx gs ≡ [])
          ⊎ ((k : ℕ) × (scan ctx gs j found i ≡ next (j + k))
              × (in_use ctx (drop (suc k) gs) ≡ [])))
unfolding scan in_use
scan_ends ctx [] j found i = inr (inl (refl, refl))
scan_ends ctx (g ∷ gs) j found i = elim (Option-cases (get_group ctx g)) [
  | inl e ↦ inl ((no_opinion, some (undeclared g)), ground arith)
  | inr (l, e) ↦ elim (Bool-cases (hit ctx l)) [
    | inl used ↦ elim (Bool-cases (found == [])) [
      | inl first ↦ elim (scan_ends ctx gs (j + 1) g j) [
        | inl (v, s) ↦ inl (v, ground arith)
        | inr (inl (s, clear)) ↦ inr (inr (0, ground arith, clear))
        | inr (inr (k, s, clear)) ↦ inr (inr (suc k, ground arith, clear))
      ]
      | inr second ↦ inl ((said_yes, some (overlapping found g)), ground arith)
    ]
    | inr unused ↦ elim (scan_ends ctx gs (j + 1) found i) [
      | inl (v, s) ↦ inl (v, ground arith)
      | inr (inl (s, clear)) ↦ inr (inl (ground arith, ground arith))
      | inr (inr (k, s, clear)) ↦ inr (inr (suc k, ground arith, clear))
    ]
  ]
]

scan_clear :
    (ctx : Context) (gs : Names) (j : ℕ) (found : Text) (i : ℕ)
    → in_use ctx gs ≡ []
    → ((v : Verdict) × (scan ctx gs j found i ≡ stop v)) ⊎ (scan ctx gs j found i ≡ next i)
unfolding scan in_use
scan_clear ctx [] j found i e = inr refl
scan_clear ctx (g ∷ gs) j found i e = elim (Option-cases (get_group ctx g)) [
  | inl d ↦ inl ((no_opinion, some (undeclared g)), ground arith)
  | inr (l, d) ↦ elim (scan_clear ctx gs (j + 1) found i (ground arith)) [
    | inl (v, s) ↦ inl (v, ground arith)
    | inr s ↦ inr (ground arith)
  ]
]

loop_returns :
    (ctx : Context) (fuel : ℕ) (gs : Names) (i : ℕ)
    → in_use ctx (drop i gs) ≡ []
    → 0 < fuel
    → length gs < fuel + i
    → (v : Verdict) × (disjoint_loop fuel ctx gs i ≡ some v)
unfolding disjoint_loop
loop_returns ctx zero gs i e pos le = absurd (omega arith)
loop_returns ctx (suc fuel) gs i e pos le = elim (Bool-cases (ltb i (length gs))) [
  | inr done ↦ ((no_opinion, none), rw (done, disjoint_loop))
  | inl more ↦ elim (scan_clear ctx (drop i gs) 0 [] i e) [
    | inl (v, s) ↦ (v, ground arith)
    | inr s ↦
        let next_one : in_use ctx (drop (suc i) gs) ≡ [] =
          subst (λ (z : Names). in_use ctx z ≡ []) (sym (drop-suc ctx i gs))
            (in_use-drop ctx 1 (drop i gs) e) in
        let (v, r) = loop_returns ctx fuel gs (suc i) next_one (ground arith) (omega arith) in
        (v, rw (more, disjoint_loop) (rw s (rw add-one r)))
  ]
]

-- Whatever the groups, declared or not, one round more than there are groups is enough for the
-- loops of `Disjoint` to return.
pub disjoint_total :
    (gs : Names) (ctx : Context)
    → (v : Verdict) × (disjoint_loop (suc (length gs)) ctx gs 0 ≡ some v)
disjoint_total [] ctx = ((no_opinion, none), unfold disjoint_loop in refl)
disjoint_total (g ∷ gs) ctx = elim (scan_ends ctx (g ∷ gs) 0 [] 0) [
  | inl (v, s) ↦ (v, ground (arith, first_round ctx (length (g ∷ gs)) g gs))
  | inr (inl (s, clear)) ↦
      let (v, r) =
        loop_returns ctx (length (g ∷ gs)) (g ∷ gs) 1 (in_use-drop ctx 1 (g ∷ gs) clear)
          (omega arith) (omega arith) in
      (v, ground (arith, first_round ctx (length (g ∷ gs)) g gs))
  | inr (inr (k, s, clear)) ↦
      let (v, r) =
        loop_returns ctx (length (g ∷ gs)) (g ∷ gs) (suc k) clear (omega arith) (omega arith) in
      (v, ground (arith, first_round ctx (length (g ∷ gs)) g gs))
]
