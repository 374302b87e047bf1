-- ===== src/Runner/MergeGate/Checks.antt =====
-- When the checks and the head of a pull request let a merge through (merge-gate.ts).
use tribe.Base.{
  ◌≡◌, ◌≢◌, subst, ◌↔◌, refl, sym, ap, ℕ, ◌∙◌, String, Bool, true, false, Option, none, some, List,
  [], ◌∷◌, ◌==◌, All, arith, Bool-cases, inl, inr, str_eq, str_eq_iff,
}
use mathlib.Core.Bool.{false≢true}
use mathlib.Core.Option.{none-ne-some, some-injective}
use mathlib.Core.List.{cons≢nil}
use tribe.Runner.MergeGate.{
  ParsedMergeCommand, CheckEntry, ChecksJson, not_json, not_array, array, text_or_unknown,
  red_checks, is_empty, judge_checks, ChecksExec, HookDecision, no_opinion, deny, is_done_commit,
  judge_head, judge_exec, HeadExec, head_sha_of,
}

-- Every check is known and has succeeded, there is one, and the head is the commit whose Done
-- commands have passed.
pub record Proven (checks : ChecksExec) (head : HeadExec) (done_sha : Option String) : Type 0 where
  pub entries : List CheckEntry
  pub sha : String
  pub checks_ran : checks.exit_code ≡ 0
  pub checks_read : checks.stdout ≡ array entries
  pub some_check : entries ≢ []
  pub all_succeeded : All (λ e. e.state ≡ some "SUCCESS") entries
  pub head_ran : head.exit_code ≡ 0
  pub head_is : head.head_ref_oid ≡ some sha
  pub done_is : done_sha ≡ some sha
  pub named : sha ≢ ""

-- A decision that denies.
abbrev pub is_denied : HookDecision → Bool
is_denied no_opinion = false
is_denied (deny reason) = true

pub not_denied : {A : Type 0} (d : HookDecision) → is_denied d ≡ true → d ≡ no_opinion → A
not_denied d e q = absurd (false≢true (ap is_denied (sym q) ∙ e))

-- `entry.state` is the text `SUCCESS`.
abbrev Succeeded : CheckEntry → Type 0
Succeeded e = e.state ≡ some "SUCCESS"

state_lem :
    (o : Option String) → (str_eq (text_or_unknown o) "SUCCESS" ≡ true) ↔ (o ≡ some "SUCCESS")
state_lem none = (λ e. absurd (false≢true e), λ e. absurd (none-ne-some "SUCCESS" e))
state_lem (some s) = (
  λ e. ap some ((str_eq_iff s "SUCCESS").0 e),
  λ e. (str_eq_iff s "SUCCESS").1 (some-injective s "SUCCESS" e),
)

red_checks_lem : (entries : List CheckEntry) → (red_checks entries ≡ []) ↔ All Succeeded entries
unfolding red_checks
red_checks_lem [] = (λ e. tt, λ h. refl)
red_checks_lem (e ∷ es) = elim (Bool-cases (str_eq (text_or_unknown e.state) "SUCCESS")) [
  | inl green ↦
      rw green (
        λ q. ((state_lem e.state).0 green, (red_checks_lem es).0 q),
        λ h. (red_checks_lem es).1 h.1,
      )
  | inr red ↦
      rw red
        (λ q. absurd (cons≢nil q), λ h. absurd (false≢true (sym red ∙ (state_lem e.state).1 h.0)))
]

-- The entries of a judgement that is green.
abbrev Green : ChecksJson → Type 0
Green json =
    (entries : List CheckEntry) × (json ≡ array entries) × (entries ≢ []) × All Succeeded entries

entries_of : ChecksJson → List CheckEntry
entries_of (array entries) = entries
entries_of _ = []

not_Green : (json : ChecksJson) → entries_of json ≡ [] → Green json → ⊥
unfolding entries_of
not_Green json e (entries, q, ne, all) = ne (ap entries_of (sym q) ∙ e)

is_empty_lem : {A : Type 0} (xs : List A) → (is_empty xs ≡ true) ↔ (xs ≡ [])
is_empty_lem [] = (λ e. refl, λ e. refl)
is_empty_lem (x ∷ xs) = (λ e. absurd (false≢true e), λ e. absurd (cons≢nil e))

judge_checks_lem : (json : ChecksJson) → ((judge_checks json).all_green ≡ true) ↔ Green json
unfolding judge_checks entries_of
judge_checks_lem not_json = (λ e. absurd (false≢true e), λ g. absurd (not_Green not_json refl g))
judge_checks_lem not_array = (λ e. absurd (false≢true e), λ g. absurd (not_Green not_array refl g))
judge_checks_lem (array []) =
    (λ e. absurd (false≢true e), λ g. absurd (not_Green (array []) refl g))
judge_checks_lem (array (e ∷ es)) =
    let empty = is_empty_lem (red_checks (e ∷ es)) in
    let all = red_checks_lem (e ∷ es) in
    (
      λ q. (e ∷ es, refl, cons≢nil, all.0 (empty.0 q)),
      λ (entries, q, ne, h). empty.1 (all.1 (subst (All Succeeded) (ap entries_of (sym q)) h)),
    )

not_empty : (s : String) → s ≢ "" → str_eq s "" ≡ false
not_empty s ne = elim (Bool-cases (str_eq s "")) [
  | inl e ↦ absurd (ne ((str_eq_iff s "").0 e))
  | inr e ↦ e
]

is_done_commit_lem :
    (h d : Option String)
    → (is_done_commit h d ≡ true) ↔ ((sha : String) × (h ≡ some sha) × (d ≡ some sha) × (sha ≢ ""))
is_done_commit_lem none d =
    (λ e. absurd (false≢true e), λ (sha, q, r, ne). absurd (none-ne-some sha q))
is_done_commit_lem (some h) none =
    (λ e. absurd (false≢true e), λ (sha, q, r, ne). absurd (none-ne-some sha r))
is_done_commit_lem (some h) (some d) = (
  λ e.
      let same : str_eq h d ≡ true = ground (arith, e) in
      let named : str_eq h "" ≡ false = ground (arith, e) in
      (
        h,
        refl,
        ap some (sym ((str_eq_iff h d).0 same)),
        λ q. false≢true (sym named ∙ (str_eq_iff h "").1 q),
      ),
  λ (sha, q, r, ne).
      let of_h : h ≡ sha = some-injective h sha q in
      let of_d : d ≡ sha = some-injective d sha r in
      let same : str_eq h d ≡ true = (str_eq_iff h d).1 (of_h ∙ sym of_d) in
      let h_named : str_eq h "" ≡ false = not_empty h (λ z. ne (sym of_h ∙ z)) in
      let d_named : str_eq d "" ≡ false = not_empty d (λ z. ne (sym of_d ∙ z)) in
      ground (arith, same, h_named, d_named),
)

judge_head_lem : (h d : Option String) → (judge_head h d ≡ no_opinion) ↔ (is_done_commit h d ≡ true)
judge_head_lem h d = elim (Bool-cases (is_done_commit h d)) [
  | inl e ↦ (λ q. e, λ q. rw e refl)
  | inr e ↦ (λ q. not_denied (judge_head h d) (rw e refl) q, λ q. absurd (false≢true (sym e ∙ q)))
]

exit_code_lem : (n : ℕ) → (n == 0) ≡ false → n ≡ 0 → ⊥
exit_code_lem n e z = ground (arith, e, z)

head_sha_of_lem :
    (head : HeadExec) (sha : String)
    → (head_sha_of head ≡ some sha) ↔ ((head.exit_code ≡ 0) × (head.head_ref_oid ≡ some sha))
head_sha_of_lem head sha = elim (Bool-cases (head.exit_code == 0)) [
  | inl ran ↦ rw ran (λ q. (ground (arith, ran), q), λ h. h.1)
  | inr failed ↦
      rw failed
        (λ q. absurd (none-ne-some sha q), λ h. absurd (exit_code_lem head.exit_code failed h.0))
]

-- The gate on an attempt, once `gh` has answered.
pub judge_exec-Proven :
    (parsed : ParsedMergeCommand) (checks : ChecksExec) (head : HeadExec) (done_sha : Option String)
    → (judge_exec parsed (some checks) (head_sha_of head) done_sha ≡ no_opinion)
      ↔ Proven checks head done_sha
judge_exec-Proven parsed checks head done_sha = elim (Bool-cases (checks.exit_code == 0)) [
  | inr failed ↦ (
    λ q.
        not_denied (judge_exec parsed (some checks) (head_sha_of head) done_sha) (rw failed refl) q,
    λ p. absurd (exit_code_lem checks.exit_code failed p.checks_ran),
  )
  | inl ran ↦ elim (Bool-cases (judge_checks checks.stdout).all_green) [
    | inr red ↦ (
      λ q.
          not_denied (judge_exec parsed (some checks) (head_sha_of head) done_sha)
            (rw (ran, red) refl) q,
      λ p. absurd (
          false≢true (
            sym red
            ∙ (judge_checks_lem checks.stdout).1
                (p.entries, p.checks_read, p.some_check, p.all_succeeded))),
    )
    | inl green ↦
        rw (ran, green)
          (
            λ q.
                let (entries, read, ne, all) = (judge_checks_lem checks.stdout).0 green in
                let (sha, h, d, named) =
                  (is_done_commit_lem (head_sha_of head) done_sha).0
                    ((judge_head_lem (head_sha_of head) done_sha).0 q) in
                let (head_ran, head_is) = (head_sha_of_lem head sha).0 h in
                record {
                  entries = entries;
                  sha = sha;
                  checks_ran = ground (arith, ran);
                  checks_read = read;
                  some_check = ne;
                  all_succeeded = all;
                  head_ran = head_ran;
                  head_is = head_is;
                  done_is = d;
                  named = named;
                },
            λ p. (judge_head_lem (head_sha_of head) done_sha).1 (
                (is_done_commit_lem (head_sha_of head) done_sha).1 (
                  p.sha,
                  (head_sha_of_lem head p.sha).1 (p.head_ran, p.head_is),
                  p.done_is,
                  p.named,
                )),
          )
  ]
]
