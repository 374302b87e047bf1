-- ===== src/Runner/Selection/Next.antt =====
-- Which card `nextCard` (state.ts) chooses.
use tribe.Base.{
  ◌≡◌, ◌↔◌, ◌⊎◌, refl, sym, ◌∙◌, subst, String, Bool, true, false, ◌||◌, some, List, [], ◌∷◌,
  lookup, includes, arith, Bool-cases, Option-cases, inl, inr, str_eq, str_eq_iff, str_eq_self,
}
use mathlib.Core.Bool.{false≢true}
use tribe.Runner.Selection.{
  CampaignCard, CardFiles, NextCard, card, planning_needed, done, is_shipped, is_escalated,
  is_blocked, status_is, is_missing, has_unmet, is_progressable, choose, planned, next_card,
  reconcile_blocked_statuses,
}
use tribe.Runner.Selection.Parked.{Parked}
use tribe.Runner.Selection.Blocked.{compute_blocked_card_ids-Exact}

module _ (before : List (String × CampaignCard)) (files : CardFiles) (include_escalated : Bool)
    (sequence : List String) where
  -- The card may be worked on: it stands in the sequence with the status it has in `cards`, is not
  -- shipped, does not wait for an escalated card, has all its dependencies shipped, and an
  -- escalation of it is answered or to be forced.
  pub record Ready (cards : List (String × CampaignCard)) (id : String) (c : CampaignCard)
      : Type 0 where
    pub in_sequence : includes sequence id ≡ true
    pub recorded : lookup id cards ≡ some c
    pub not_shipped : is_shipped c.status ≡ false
    pub not_parked : ¬ Parked before id
    pub dependencies_shipped :
        (d : String) → includes c.depends_on d ≡ true → status_is is_shipped (lookup d cards) ≡ true
    pub answered :
        is_escalated c.status ≡ true
        → (include_escalated ≡ true) ⊎ (files.escalation_present id ≡ false)

  -- What the answer says of the walk over `todo`.
  abbrev pub Chosen : List (String × CampaignCard) → List String → NextCard → Type 0
  Chosen cards todo (card id c) =
      Ready cards id c × (is_missing files c.spec ≡ false) × (is_missing files c.plan ≡ false)
  Chosen cards todo (planning_needed id spec plan) =
      (c : CampaignCard) × Ready cards id c
      × (spec ≡ is_missing files c.spec)
      × (plan ≡ is_missing files c.plan)
      × ((spec || plan) ≡ true)
  Chosen cards todo done =
      (id : String) (c : CampaignCard)
      → includes todo id ≡ true
      → lookup id cards ≡ some c
      → is_progressable cards files include_escalated id c ≡ false

  met :
      (cards : List (String × CampaignCard)) (ds : List String) (d : String)
      → has_unmet cards ds ≡ false
      → includes ds d ≡ true
      → status_is is_shipped (lookup d cards) ≡ true
  met cards [] d h i = absurd (false≢true i)
  met cards (x ∷ ds) d h i = elim (Bool-cases (str_eq x d)) [
    | inl e ↦
        subst (λ y. status_is is_shipped (lookup y cards) ≡ true) ((str_eq_iff x d).0 e)
          (ground (arith, h))
    | inr e ↦ met cards ds d (ground (arith, h)) (ground (arith, e, i))
  ]

  reconciled :
      (ids : List String) (cards : List (String × CampaignCard)) (id : String) (c : CampaignCard)
      → lookup id (reconcile_blocked_statuses ids cards) ≡ some c
      → includes ids id ≡ true
      → is_blocked c.status ≡ true
  unfolding reconcile_blocked_statuses
  reconciled ids [] id c l i = absurd (ground (arith, l))
  reconciled ids ((x, d) ∷ cards) id c l i = elim (Bool-cases (str_eq x id)) [
    | inl e ↦ ground (arith, e, l, i, (str_eq_iff x id).0 e)
    | inr e ↦ reconciled ids cards id c (ground (arith, e, l)) i
  ]

  module _ (ids : List String)
      (exact : (id : String) → (includes ids id ≡ true) ↔ Parked before id) where
    abbrev trued : List (String × CampaignCard)
    trued = reconcile_blocked_statuses ids before

    ready :
        (id : String) (c : CampaignCard)
        → includes sequence id ≡ true
        → lookup id trued ≡ some c
        → is_progressable trued files include_escalated id c ≡ true
        → Ready trued id c
    unfolding is_progressable
    ready id c i l p = record {
      in_sequence = i;
      recorded = l;
      not_shipped = ground (arith, p);
      not_parked = λ w.
          let unblocked : is_blocked c.status ≡ false = ground (arith, p) in
          false≢true (sym unblocked ∙ reconciled ids before id c l ((exact id).1 w));
      dependencies_shipped = λ d m. met trued c.depends_on d (ground (arith, p)) m;
      answered = λ e. ground (arith, p, e);
    }

    planned-Chosen :
        (todo : List String) (id : String) (c : CampaignCard)
        → Ready trued id c
        → Chosen trued todo (planned files id c)
    planned-Chosen todo id c r =
        elim (Bool-cases (is_missing files c.spec || is_missing files c.plan)) [
          | inl e ↦ rw e (c, r, refl, refl, e)
          | inr e ↦ rw e (r, ground (arith, e), ground (arith, e))
        ]

    abbrev Skipped : String → Type 0
    Skipped id =
        (c : CampaignCard)
        → lookup id trued ≡ some c
        → is_progressable trued files include_escalated id c ≡ false

    skip-Chosen :
        (id : String) (ids : List String) (a : NextCard)
        → Skipped id
        → Chosen trued ids a
        → Chosen trued (id ∷ ids) a
    skip-Chosen id ids (card x c) k h = h
    skip-Chosen id ids (planning_needed x p q) k h = h
    skip-Chosen id ids done k h = λ x c i l. elim (Bool-cases (str_eq id x)) [
      | inl e ↦
          let same = (str_eq_iff id x).0 e in
          subst
            (λ y.
              lookup y trued ≡ some c → is_progressable trued files include_escalated y c ≡ false)
            same (k c) l
      | inr e ↦ h x c (ground (arith, e, i)) l
    ]

    choose-Chosen :
        (todo : List String)
        → ((id : String) → includes todo id ≡ true → includes sequence id ≡ true)
        → Chosen trued todo (choose trued files include_escalated todo)
    unfolding choose
    choose-Chosen [] m = λ id c i. absurd (false≢true i)
    choose-Chosen (id ∷ rest) m =
        let later = choose-Chosen rest (λ x i. m x (ground (arith, i))) in
        elim (Option-cases (lookup id trued)) [
          | inl n ↦
              rw (n, choose)
                (skip-Chosen id rest (choose trued files include_escalated rest)
                  (λ c l. absurd (ground (arith, n, l))) later)
          | inr (c, l) ↦ elim (Bool-cases (is_progressable trued files include_escalated id c)) [
            | inl p ↦
                rw (l, choose, p)
                  (planned-Chosen (id ∷ rest) id c
                    (ready id c (m id (ground (arith, str_eq_self id))) l p))
            | inr p ↦
                rw (l, choose, p)
                  (skip-Chosen id rest (choose trued files include_escalated rest)
                    (λ d q.
                      let same : c ≡ d = ground (arith, l, q) in
                      subst (λ y. is_progressable trued files include_escalated id y ≡ false) same
                        p)
                    later)
          ]
        ]

-- `nextCard` always answers. A card that it answers stands in the sequence with its trued-up status,
-- is not shipped, does not wait for an escalated card, has all its dependencies shipped, is not
-- escalated unless that is answered or escalations are included, and has its spec and plan on disk;
-- `planning_needed` is such a card with what is missing of the two; at `done` no card of the sequence
-- is progressable.
pub next_card-Chosen :
    (sequence : List String) (cards : List (String × CampaignCard)) (files : CardFiles)
    (include_escalated : Bool)
    → (a : NextCard) × (trued : List (String × CampaignCard)) × (next_card sequence cards files
          include_escalated
        ≡ some (a, trued))
      × Chosen cards files include_escalated sequence trued sequence a
unfolding next_card
next_card-Chosen sequence cards files include_escalated =
    let (ids, found, exact) = compute_blocked_card_ids-Exact cards in
    (
      choose (reconcile_blocked_statuses ids cards) files include_escalated sequence,
      reconcile_blocked_statuses ids cards,
      ground (arith, found),
      choose-Chosen cards files include_escalated sequence ids exact sequence (λ id i. i),
    )
