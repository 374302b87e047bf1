-- ===== src/Supervisor/Permit/Ancestors.antt =====
-- Which path `resolveExistingAncestor` of supervisor/permit.ts answers, of what `realpath` answers for
-- each ancestor.
use tribe.Base.{
  ◌≡◌, ◌≢◌, ◌⊎◌, ◌↔◌, refl, sym, ap, ◌∙◌, subst, ℕ, zero, suc, ◌<◌, ◌≤◌, false, Option, none, some,
  List, [], ◌∷◌, take, drop, length, All, ◌==◌, if◌then◌else◌, Text, text_eq, text_eq_sound,
  text_eq_self, Bool-cases, inl, inr, arith,
}
use mathlib.Core.Bool.{false≢true}
use mathlib.Core.Option.{none-ne-some, some-injective}
use tribe.Base.Paths.{slash, segments, join}
use tribe.Base.Paths.Segments.{IsSegment, segments-join, segments-slash, segments-All}
use tribe.Supervisor.Permit.{with_suffix}

-- The target itself, and above it the path of its first `cut` segments.
abbrev pub ancestor : Text → ℕ → Text
ancestor target cut =
    if cut == length (segments target) then target else slash ∷ join (take cut (segments target))

-- Nothing to resolve from the one ancestor down to the other.
abbrev pub IsUnchanged : (Text → Option Text) → Text → ℕ → Type 0
IsUnchanged realpath target cut = realpath (ancestor target cut) ≡ some (ancestor target cut)

-- `realpath` takes the ancestor elsewhere, and the segments below it are put behind.
pub record IsChanged (realpath : Text → Option Text) (target : Text) (cut : ℕ) (real : Text)
    : Type 0 where
  pub resolved : Text
  pub answered : realpath (ancestor target cut) ≡ some resolved
  pub elsewhere : resolved ≢ ancestor target cut
  pub continued : real ≡ with_suffix resolved (join (drop cut (segments target)))

module _ (realpath : Text → Option Text) (target : Text) where
  -- From the ancestor of `from` segments up.
  abbrev pub IsResolvedFrom : ℕ → Text → Type 0
  IsResolvedFrom from real =
      ((cut : ℕ) × (cut ≤ from)
        × IsChanged realpath target cut real
        × ((below : ℕ) → cut < below → below ≤ from → IsUnchanged realpath target below))
      ⊎ ((real ≡ target) × ((cut : ℕ) → cut ≤ from → IsUnchanged realpath target cut))

  -- What the target is resolved to.
  abbrev pub IsResolved : Text → Type 0
  IsResolved real = IsResolvedFrom (length (segments target)) real

  take-All : (n : ℕ) (ss : List Text) → All IsSegment ss → All IsSegment (take n ss)
  take-All zero ss h = tt
  take-All (suc n) [] h = tt
  take-All (suc n) (s ∷ ss) (h, t) = (h, take-All n ss t)

  length-take : (n : ℕ) (ss : List Text) → n ≤ length ss → length (take n ss) ≡ n
  length-take zero ss h = refl
  length-take (suc n) [] h = ground (arith, h)
  length-take (suc n) (s ∷ ss) h = ap suc (length-take n ss (omega arith))

  -- An ancestor has as many segments as it is called.
  length-ancestor :
      (cut : ℕ) → cut ≤ length (segments target) → length (segments (ancestor target cut)) ≡ cut
  length-ancestor cut h = elim (Bool-cases (cut == length (segments target))) [
    | inl e ↦ rw e (ground (arith, e))
    | inr e ↦ rw e (
        ap length (segments-slash _)
        ∙ ap length
            (segments-join (take cut (segments target)) (take-All cut _ (segments-All target)))
        ∙ length-take cut _ h)
  ]

  pub ancestors-differ :
      (cut : ℕ)
      → suc cut ≤ length (segments target)
      → text_eq (ancestor target cut) (ancestor target (suc cut)) ≡ false
  ancestors-differ cut h =
      elim (Bool-cases (text_eq (ancestor target cut) (ancestor target (suc cut)))) [
        | inr e ↦ e
        | inl e ↦
            let same =
              ap (λ path. length (segments path))
                (text_eq_sound (ancestor target cut) (ancestor target (suc cut)) e) in
            let lower = length-ancestor cut (omega arith) in
            let upper = length-ancestor (suc cut) h in absurd (ground (arith, same, lower, upper))
      ]

  pub parent-ancestor :
      (cut : ℕ)
      → suc cut ≤ length (segments target)
      → slash ∷ join (take cut (segments target)) ≡ ancestor target cut
  parent-ancestor cut h =
      let lower : (cut == length (segments target)) ≡ false = ground (arith, h) in rw lower refl

  -- An error is no answer.
  pub none-Resolved :
      (from : ℕ) (real : Text)
      → realpath (ancestor target from) ≡ none
      → IsResolvedFrom from real
      → ⊥
  none-Resolved from real e (inr (_, all)) = none-ne-some _ (sym e ∙ all from (omega arith))
  none-Resolved from real e (inl (cut, le, changed, below)) = elim (Bool-cases (cut == from)) [
    | inl same ↦
        let here = subst (λ k. IsChanged realpath target k real) (ground (arith, same)) changed in
        none-ne-some _ (sym e ∙ here.answered)
    | inr lower ↦ none-ne-some _ (sym e ∙ below from (ground (arith, le, lower)) (omega arith))
  ]

  -- An answer that differs is taken.
  pub changed-Resolved :
      (from : ℕ) (real resolved : Text)
      → realpath (ancestor target from) ≡ some resolved
      → text_eq resolved (ancestor target from) ≡ false
      → (some (with_suffix resolved (join (drop from (segments target)))) ≡ some real)
        ↔ IsResolvedFrom from real
  changed-Resolved from real resolved e differs = (
    λ q. inl (
      from,
      (omega arith),
      record {
        resolved = resolved;
        answered = e;
        elsewhere = other;
        continued = sym (some-injective _ _ q);
      },
      λ below l h. absurd (omega arith),
    ),
    λ h. elim h [
      | inr (_, all) ↦ absurd (unchanged (all from (omega arith)))
      | inl (cut, le, changed, below) ↦ elim (Bool-cases (cut == from)) [
        | inr lower ↦ absurd (unchanged (below from (ground (arith, le, lower)) (omega arith)))
        | inl same ↦
            let here =
              subst (λ k. IsChanged realpath target k real) (ground (arith, same)) changed in
            let answer = some-injective _ _ (sym e ∙ here.answered) in
            ap some (
              ap (λ r. with_suffix r (join (drop from (segments target)))) answer
              ∙ sym here.continued)
      ]
    ],
  )
    where
      other : resolved ≢ ancestor target from
      other same = false≢true (
          sym differs
          ∙ ap (λ r. text_eq r (ancestor target from)) same
          ∙ text_eq_self (ancestor target from))

      unchanged : IsUnchanged realpath target from → ⊥
      unchanged same = other (some-injective _ _ (sym e ∙ same))

  -- An answer that does not differ leaves it to the ancestor above.
  pub unchanged-Resolved :
      (cut : ℕ) (real : Text)
      → IsUnchanged realpath target (suc cut)
      → IsResolvedFrom cut real ↔ IsResolvedFrom (suc cut) real
  unchanged-Resolved cut real same = (
    λ h. elim h [
      | inr (t, all) ↦ inr (t, λ j le. last j le (all j))
      | inl (k, le, changed, below) ↦
          inl (k, (omega arith), changed, λ j l le'. last j le' (below j l))
    ],
    λ h. elim h [
      | inr (t, all) ↦ inr (t, λ j le. all j (omega arith))
      | inl (k, le, changed, below) ↦ elim (Bool-cases (k == suc cut)) [
        | inr lower ↦
            inl (k, ground (arith, le, lower), changed, λ j l le'. below j l (omega arith))
        | inl top ↦
            let here =
              subst (λ k. IsChanged realpath target k real) (ground (arith, top)) changed in
            absurd (here.elsewhere (some-injective _ _ (sym here.answered ∙ same)))
      ]
    ],
  )
    where
      last :
          (j : ℕ)
          → j ≤ suc cut
          → (j ≤ cut → IsUnchanged realpath target j)
          → IsUnchanged realpath target j
      last j le lower = elim (Bool-cases (j == suc cut)) [
        | inl e ↦ subst (λ k. IsUnchanged realpath target k) (ground (arith, e)) same
        | inr e ↦ lower (ground (arith, le, e))
      ]

  pub top-Resolved :
      (real : Text)
      → IsUnchanged realpath target 0
      → (some target ≡ some real) ↔ IsResolvedFrom 0 real
  top-Resolved real same = (
    λ q. inr (
      sym (some-injective _ _ q),
      λ j le.
          let zeroth : 0 ≡ j = omega arith in
          subst (λ k. IsUnchanged realpath target k) zeroth same,
    ),
    λ h. elim h [
      | inr (t, _) ↦ ap some (sym t)
      | inl (k, le, changed, _) ↦
          let here = subst (λ k. IsChanged realpath target k real) (omega arith) changed in
          absurd (here.elsewhere (some-injective _ _ (sym here.answered ∙ same)))
    ],
  )
