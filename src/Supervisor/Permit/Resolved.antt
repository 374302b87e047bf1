-- ===== src/Supervisor/Permit/Resolved.antt =====
-- That the climb of `resolveExistingAncestor` answers the path of Permit/Ancestors (supervisor/permit.ts).
use tribe.Base.{
  ◌≡◌, ◌↔◌, refl, sym, ap, ◌∙◌, subst, ℕ, zero, suc, ◌≤◌, true, false, Option, none, some, List,
  ◌∷◌, take, drop, length, ◌==◌, Text, text_eq, text_eq_sound, Bool-cases, Option-cases, inl, inr,
  arith,
}
use mathlib.Core.Option.{none-ne-some}
use tribe.Base.Paths.{slash, segments, join}
use tribe.Supervisor.Permit.{with_suffix, climb, resolve_existing_ancestor}
use tribe.Supervisor.Permit.Ancestors.{
  ancestor, IsResolvedFrom, IsResolved, ancestors-differ, parent-ancestor, none-Resolved,
  changed-Resolved, unchanged-Resolved, top-Resolved,
}

module _ (realpath : Text → Option Text) (target : Text) where
  climb-none :
      (cut : ℕ) (ss : List Text) (candidate : Text)
      → realpath candidate ≡ none
      → climb realpath ss target cut candidate ≡ none
  unfolding climb
  climb-none zero ss candidate e = rw (e, climb) refl
  climb-none (suc cut) ss candidate e = rw (e, climb) refl

  climb-changed :
      (cut : ℕ) (ss : List Text) (candidate resolved : Text)
      → realpath candidate ≡ some resolved
      → text_eq resolved candidate ≡ false
      → climb realpath ss target cut candidate ≡ some (with_suffix resolved (join (drop cut ss)))
  unfolding climb
  climb-changed zero ss candidate resolved e d = rw (e, d, climb) refl
  climb-changed (suc cut) ss candidate resolved e d = rw (e, d, climb) refl

  climb-top :
      (ss : List Text) (candidate resolved : Text)
      → realpath candidate ≡ some resolved
      → text_eq resolved candidate ≡ true
      → climb realpath ss target 0 candidate ≡ some target
  unfolding climb
  climb-top ss candidate resolved e s = rw (e, s, climb) refl

  climb-higher :
      (cut : ℕ) (ss : List Text) (parent candidate resolved : Text)
      → realpath candidate ≡ some resolved
      → text_eq resolved candidate ≡ true
      → slash ∷ join (take cut ss) ≡ parent
      → text_eq parent candidate ≡ false
      → climb realpath ss target (suc cut) candidate ≡ climb realpath ss target cut parent
  unfolding climb
  climb-higher cut ss parent candidate resolved e s p d =
      let d' : text_eq (slash ∷ join (take cut ss)) candidate ≡ false =
        ap (λ path. text_eq path candidate) p ∙ d in
      rw (e, s, d', climb) (ap (climb realpath ss target cut) p)

  answers-Resolved :
      (from : ℕ) (real : Text) {o : Option Text}
      → climb realpath (segments target) target from (ancestor target from) ≡ o
      → (o ≡ some real) ↔ IsResolvedFrom realpath target from real
      → (climb realpath (segments target) target from (ancestor target from) ≡ some real)
        ↔ IsResolvedFrom realpath target from real
  answers-Resolved from real e (to, back) = (λ q. to (sym e ∙ q), λ r. e ∙ back r)

  -- Where the answer for this ancestor does not differ, the rest decides.
  differs-Resolved :
      (from : ℕ) (real : Text)
      → ((resolved : Text)
          → realpath (ancestor target from) ≡ some resolved
          → text_eq resolved (ancestor target from) ≡ true
          → (climb realpath (segments target) target from (ancestor target from) ≡ some real)
            ↔ IsResolvedFrom realpath target from real)
      → (climb realpath (segments target) target from (ancestor target from) ≡ some real)
        ↔ IsResolvedFrom realpath target from real
  differs-Resolved from real rest = elim (Option-cases (realpath (ancestor target from))) [
    | inl e ↦
        answers-Resolved from real (climb-none from (segments target) (ancestor target from) e) (
          λ q. absurd (none-ne-some real q),
          λ r. absurd (none-Resolved realpath target from real e r),
        )
    | inr (resolved, e) ↦ elim (Bool-cases (text_eq resolved (ancestor target from))) [
      | inr differs ↦
          answers-Resolved from real
            (climb-changed from (segments target) (ancestor target from) resolved e differs)
            (changed-Resolved realpath target from real resolved e differs)
      | inl same ↦ rest resolved e same
    ]
  ]

  climb-Resolved :
      (cut : ℕ) (real : Text)
      → cut ≤ length (segments target)
      → (climb realpath (segments target) target cut (ancestor target cut) ≡ some real)
        ↔ IsResolvedFrom realpath target cut real
  climb-Resolved zero real h = differs-Resolved 0 real (λ resolved e same.
      answers-Resolved 0 real (climb-top (segments target) (ancestor target 0) resolved e same) (
        top-Resolved realpath target real
          (e ∙ ap some (text_eq_sound resolved (ancestor target 0) same))))
  climb-Resolved (suc cut) real h =
      let higher = climb-Resolved cut real (omega arith) in
      differs-Resolved (suc cut) real (λ resolved e same.
        let unchanged =
          unchanged-Resolved realpath target cut real
            (e ∙ ap some (text_eq_sound resolved (ancestor target (suc cut)) same)) in
        answers-Resolved (suc cut) real
          (climb-higher cut (segments target) (ancestor target cut) (ancestor target (suc cut))
            resolved e same (parent-ancestor realpath target cut h)
            (ancestors-differ realpath target cut h))
          (λ q. unchanged.0 (higher.0 q), λ r. higher.1 (unchanged.1 r)))

  pub resolve_existing_ancestor-Resolved :
      (real : Text)
      → (resolve_existing_ancestor realpath target ≡ some real) ↔ IsResolved realpath target real
  unfolding resolve_existing_ancestor
  resolve_existing_ancestor-Resolved real =
      let whole : (length (segments target) == length (segments target)) ≡ true = ground arith in
      subst
        (λ path.
          (climb realpath (segments target) target (length (segments target)) path ≡ some real)
          ↔ IsResolved realpath target real)
        (rw whole refl) (climb-Resolved (length (segments target)) real (omega arith))
