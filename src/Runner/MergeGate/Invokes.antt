-- ===== src/Runner/MergeGate/Invokes.antt =====
-- What `extractMergeInvocation` of merge-gate.ts finds in the words of a command.
use tribe.Base.{
  ◌≡◌, ◌≢◌, ◌⊎◌, ◌↔◌, refl, sym, ap, ◌∙◌, Bool, true, false, not, ◌&&◌, none, some, List, [], ◌∷◌,
  ◌++◌, Text, codes, text_eq, text_eq_sound, text_eq_iff, starts_with, drop, length, All, arith,
  inl, inr, Bool-cases, Option-cases, subst, is_some,
}
use mathlib.Core.Bool.{false≢true}
use mathlib.Core.Option.{none-ne-some, some-injective}
use tribe.Runner.MergeGate.{
  ForbiddenFlag, auto, admin, flag_name, is_flag, match_forbidden_flag, Invocation, or_else,
  merge_here, after_merge, read_arguments, read_flag,
}

-- `gh`, `pr` and `merge` stand in a row in the words, with `rest` behind them.
abbrev pub Merges : List Text → List Text → Type 0
Merges [] rest = ⊥
Merges (t ∷ ts) rest = (t ∷ ts ≡ codes "gh" ∷ codes "pr" ∷ codes "merge" ∷ rest) ⊎ Merges ts rest

-- `--auto` or `--admin`, alone or with a value that is not `false`.
abbrev pub IsForbidden : Text → Type 0
IsForbidden token =
    (flag : ForbiddenFlag) × ((token ≡ flag_name flag)
      ⊎ ((value : Text) × (token ≡ (flag_name flag ++ codes "=") ++ value)
          × (value ≢ codes "false")))

starts_with_lem : (s p : Text) → starts_with s p ≡ true → s ≡ p ++ drop (length p) s
starts_with_lem s [] e = refl
starts_with_lem [] (d ∷ p) e = absurd (false≢true e)
starts_with_lem (c ∷ s) (d ∷ p) e =
    let same : c ≡ d = ground (arith, e) in cc (same, starts_with_lem s p (ground (arith, e)))

starts_with-append : (p v : Text) → starts_with (p ++ v) p ≡ true
starts_with-append [] v = refl
starts_with-append (c ∷ p) v = ground (arith, starts_with-append p v)

drop-append : (p v : Text) → drop (length p) (p ++ v) ≡ v
drop-append [] v = refl
drop-append (c ∷ p) v = drop-append p v

both_true : (a b : Bool) → (a && b) ≡ true → (a ≡ true) × (b ≡ true)
both_true true true e = (refl, refl)
both_true true false e = absurd (false≢true e)
both_true false b e = absurd (false≢true e)

abbrev Forbids : ForbiddenFlag → Text → Type 0
Forbids flag token =
    (token ≡ flag_name flag)
    ⊎ ((value : Text) × (token ≡ (flag_name flag ++ codes "=") ++ value) × (value ≢ codes "false"))

is_flag-Forbids :
    (flag : ForbiddenFlag) (token : Text) → is_flag flag token ≡ true → Forbids flag token
is_flag-Forbids flag token e = elim (Bool-cases (text_eq token (flag_name flag))) [
  | inl same ↦ inl (text_eq_sound token (flag_name flag) same)
  | inr other ↦
      let prefix = flag_name flag ++ codes "=" in
      let value = drop (length prefix) token in
      let (begins, kept) =
        both_true (starts_with token prefix) (not (text_eq value (codes "false")))
          (ground (arith, other, e)) in
      inr (
        value,
        starts_with_lem token prefix begins,
        λ q. false≢true (sym (ap not ((text_eq_iff value (codes "false")).1 q)) ∙ kept),
      )
]

Forbids-is_flag :
    (flag : ForbiddenFlag) (token : Text) → Forbids flag token → is_flag flag token ≡ true
Forbids-is_flag flag token (inl e) =
    let same : text_eq token (flag_name flag) ≡ true = (text_eq_iff token (flag_name flag)).1 e in
    rw same refl
Forbids-is_flag flag token (inr (v, e, ne)) = elim (Bool-cases (text_eq token (flag_name flag))) [
  | inl same ↦ rw same refl
  | inr other ↦
      let prefix = flag_name flag ++ codes "=" in
      let begins : starts_with token prefix ≡ true =
        ap (λ t. starts_with t prefix) e ∙ starts_with-append prefix v in
      let is_value : drop (length prefix) token ≡ v =
        ap (drop (length prefix)) e ∙ drop-append prefix v in
      let kept : text_eq (drop (length prefix) token) (codes "false") ≡ false =
        elim (Bool-cases (text_eq (drop (length prefix) token) (codes "false"))) [
          | inl q ↦ absurd (ne (sym is_value ∙ text_eq_sound _ _ q))
          | inr q ↦ q
        ] in
      ground (arith, other, begins, kept)
]

pub match_forbidden_flag_lem :
    (token : Text) → (match_forbidden_flag token ≡ none) ↔ (IsForbidden token → ⊥)
unfolding match_forbidden_flag
match_forbidden_flag_lem token = elim (Bool-cases (is_flag auto token)) [
  | inl e ↦
      rw e (
        λ q. absurd (none-ne-some _ (sym q)),
        λ no. absurd (no (auto, is_flag-Forbids auto token e)),
      )
  | inr e ↦ elim (Bool-cases (is_flag admin token)) [
    | inl f ↦
        rw (e, f)
          (
            λ q. absurd (none-ne-some _ (sym q)),
            λ no. absurd (no (admin, is_flag-Forbids admin token f)),
          )
    | inr f ↦ rw (e, f) (λ _. neither e f, λ _. refl)
  ]
]
  where
    neither : is_flag auto token ≡ false → is_flag admin token ≡ false → IsForbidden token → ⊥
    neither e f (auto, h) = false≢true (sym e ∙ Forbids-is_flag auto token h)
    neither e f (admin, h) = false≢true (sym f ∙ Forbids-is_flag admin token h)

merge_here_lem :
    (tokens rest : List Text)
    → merge_here tokens ≡ some rest
    → tokens ≡ codes "gh" ∷ codes "pr" ∷ codes "merge" ∷ rest
unfolding merge_here
merge_here_lem (gh ∷ pr ∷ merge ∷ more) rest e =
    elim (Bool-cases
      (text_eq gh (codes "gh") && text_eq pr (codes "pr") && text_eq merge (codes "merge"))) [
        | inl h ↦
            let (h1, h2) =
              both_true (text_eq gh (codes "gh") && text_eq pr (codes "pr"))
                (text_eq merge (codes "merge")) h in
            let (h3, h4) = both_true (text_eq gh (codes "gh")) (text_eq pr (codes "pr")) h1 in
            let is_rest : more ≡ rest = some-injective more rest (rw h at e) in
            cc (
              text_eq_sound gh (codes "gh") h3,
              text_eq_sound pr (codes "pr") h4,
              text_eq_sound merge (codes "merge") h2,
              is_rest,
            )
        | inr h ↦ absurd (none-ne-some _ (rw h at e))
      ]
merge_here_lem [] rest e = absurd (none-ne-some _ e)
merge_here_lem (gh ∷ []) rest e = absurd (none-ne-some _ e)
merge_here_lem (gh ∷ pr ∷ []) rest e = absurd (none-ne-some _ e)

pub after_merge-Merges :
    (tokens rest : List Text) → after_merge tokens ≡ some rest → Merges tokens rest
unfolding after_merge
after_merge-Merges [] rest e = none-ne-some _ e
after_merge-Merges (t ∷ ts) rest e = elim (Option-cases (merge_here (t ∷ ts))) [
  | inl none_here ↦ inr (after_merge-Merges ts rest (rw none_here at e))
  | inr (found, here) ↦ inl (merge_here_lem (t ∷ ts) rest (here ∙ (rw here at e)))
]

-- The words behind a later `gh pr merge` stand behind the first one.
Merges-All :
    (P : Text → Type 0) (tokens rest : List Text) → Merges tokens rest → All P tokens → All P rest
Merges-All P [] rest m h = elim m [ ]
Merges-All P (t ∷ ts) rest (inl e) h = (subst (All P) e h).1.1.1
Merges-All P (t ∷ ts) rest (inr m) h = Merges-All P ts rest m h.1

not_gh :
    (t : Text) (ts rest : List Text)
    → text_eq t (codes "gh") ≡ false
    → Merges (t ∷ ts) rest
    → Merges ts rest
not_gh t ts rest e (inl q) =
    absurd (false≢true (sym e ∙ (text_eq_iff t (codes "gh")).1 (ap head_word q)))
  where
    head_word : List Text → Text
    head_word [] = []
    head_word (w ∷ ws) = w
not_gh t ts rest e (inr m) = m

behind_first :
    (P : Text → Type 0) (found rest : List Text)
    → Merges (codes "gh" ∷ codes "pr" ∷ codes "merge" ∷ found) rest
    → All P found
    → All P rest
behind_first P found rest (inl q) h = subst (All P) (ap (drop 3) q) h
behind_first P found rest (inr m) h =
    Merges-All P found rest
      (not_gh (codes "merge") found rest refl
        (not_gh (codes "pr") (codes "merge" ∷ found) rest refl m))
      h

pub after_merge-first :
    (P : Text → Type 0) (tokens first rest : List Text)
    → after_merge tokens ≡ some first
    → Merges tokens rest
    → All P first
    → All P rest
unfolding after_merge merge_here
after_merge-first P [] first rest e m h = elim m [ ]
after_merge-first P (t ∷ ts) first rest e m h = elim (Option-cases (merge_here (t ∷ ts))) [
  | inl none_here ↦ elim m [
    | inl q ↦ absurd (none-ne-some _ (sym none_here ∙ ap merge_here q))
    | inr later ↦ after_merge-first P ts first rest (rw none_here at e) later h
  ]
  | inr (found, here) ↦
      let is_first : found ≡ first = some-injective found first (rw here at e) in
      behind_first P found rest
        (subst (λ us. Merges us rest) (merge_here_lem (t ∷ ts) found here) m)
        (subst (All P) (sym is_first) h)
]

pub after_merge-none :
    (tokens rest : List Text) → after_merge tokens ≡ none → Merges tokens rest → ⊥
unfolding after_merge merge_here
after_merge-none [] rest e m = m
after_merge-none (t ∷ ts) rest e m = elim (Option-cases (merge_here (t ∷ ts))) [
  | inl none_here ↦ elim m [
    | inl q ↦ none-ne-some _ (sym none_here ∙ ap merge_here q)
    | inr later ↦ after_merge-none ts rest (rw none_here at e) later
  ]
  | inr (found, here) ↦ none-ne-some found (sym e ∙ ap (λ o. or_else o (after_merge ts)) here)
]

read_flag_plain :
    (seen : Invocation) (t : Text) → (read_flag none seen t).forbidden_flag ≡ seen.forbidden_flag
read_flag_plain seen t =
    elim (Bool-cases (not (starts_with t (codes "-")) && not (is_some seen.pr_ref))) [
      | inl e ↦ rw e refl
      | inr e ↦ rw e refl
    ]

-- The flag of an invocation is the last forbidden one of its words.
pub read_arguments-clean :
    (seen : Invocation) (tokens : List Text)
    → ((read_arguments seen tokens).forbidden_flag ≡ none)
      ↔ ((seen.forbidden_flag ≡ none) × All (λ t. IsForbidden t → ⊥) tokens)
unfolding read_arguments
read_arguments-clean seen [] = (λ e. (e, tt), λ h. h.0)
read_arguments-clean seen (t ∷ ts) =
    let later = read_arguments-clean (read_flag (match_forbidden_flag t) seen t) ts in
    elim (Option-cases (match_forbidden_flag t)) [
      | inl e ↦
          let kept : (read_flag (match_forbidden_flag t) seen t).forbidden_flag
              ≡ seen.forbidden_flag =
            ap (λ o. (read_flag o seen t).forbidden_flag) e ∙ read_flag_plain seen t in
          (
            λ q. let (a, b) = later.0 q in (sym kept ∙ a, ((match_forbidden_flag_lem t).0 e, b)),
            λ h. later.1 (kept ∙ h.0, h.1.1),
          )
      | inr (f, e) ↦
          let found : (read_flag (match_forbidden_flag t) seen t).forbidden_flag ≡ some f =
            ap (λ o. (read_flag o seen t).forbidden_flag) e in
          (
            λ q. absurd (none-ne-some f (sym (later.0 q).0 ∙ found)),
            λ h. absurd (none-ne-some f (sym ((match_forbidden_flag_lem t).1 h.1.0) ∙ e)),
          )
    ]
