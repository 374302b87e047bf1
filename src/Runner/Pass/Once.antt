-- ===== src/Runner/Pass/Once.antt =====
-- A pass attempts each card at most once, keeps to its budget, and ends (run-loop.ts).
use tribe.Base.{
  ℕ, suc, ◌≡◌, ◌≤◌, ◌<◌, refl, sym, ap, ◌∙◌, subst, String, Bool, true, false, not, Option, none,
  some, List, [], ◌∷◌, ◌++◌, length, keep, includes, if◌then◌else◌, arith, Bool-cases, inl, inr,
  str_eq, str_eq_iff, str_eq_self,
}
use mathlib.Core.Bool.{false≢true}
use tribe.Runner.Selection.{CampaignCard, NextCard, card, planning_needed, done}
use tribe.Runner.Selection.Next.{Chosen, next_card-Chosen}
use tribe.Runner.Pass.{
  CardOutcome, PassConfig, PassReply, PassState, PassOutcome, continues, ends, requested_sequence,
  open_sequence, run_card_turn, stopped_on_permanent_api_error, is_spent, attempt, act, pass_tick,
  pass_ticks, pass_start, run_pass,
}

keep-includes :
    (p : String → Bool) (xs : List String) (id : String)
    → includes (keep p xs) id ≡ true
    → (includes xs id ≡ true) × (p id ≡ true)
keep-includes p [] id h = absurd (false≢true h)
keep-includes p (x ∷ xs) id h = elim (Bool-cases (str_eq x id)) [
  | inl e ↦
      let same = (str_eq_iff x id).0 e in
      elim (Bool-cases (p x)) [
        | inl q ↦ (ground (arith, e), subst (λ y. p y ≡ true) same q)
        | inr q ↦
            let (i, r) = keep-includes p xs id (ground (arith, q, h)) in (ground (arith, i), r)
      ]
  | inr e ↦ let (i, r) = keep-includes p xs id (ground (arith, e, h)) in (ground (arith, i), r)
]

-- The ids of `xs` that are not in `seen`.
abbrev unseen : List String → List String → ℕ
unseen seen xs = length (keep (λ id. not (includes seen id)) xs)

unseen_more : (seen xs : List String) (id : String) → unseen (id ∷ seen) xs ≤ unseen seen xs
unseen_more seen [] id = ground arith
unseen_more seen (x ∷ xs) id = ground (arith, unseen_more seen xs id)

unseen_less :
    (seen xs : List String) (id : String)
    → includes xs id ≡ true
    → includes seen id ≡ false
    → unseen (id ∷ seen) xs < unseen seen xs
unseen_less seen [] id i h = absurd (false≢true i)
unseen_less seen (x ∷ xs) id i h = elim (Bool-cases (str_eq x id)) [
  | inl e ↦
      let same = (str_eq_iff x id).0 e in
      ground (
        arith,
        e,
        subst (λ y. includes seen y ≡ false) (sym same) h,
        subst (λ y. str_eq id y ≡ true) (sym same) (str_eq_self id),
        unseen_more seen xs id,
      )
  | inr e ↦ ground (arith, unseen_less seen xs id (ground (arith, e, i)) h)
]

abbrev pub NoRepeat : List String → Type 0
NoRepeat [] = Unit
NoRepeat (x ∷ xs) = (includes xs x ≡ false) × NoRepeat xs

abbrev pub Within : Option ℕ → ℕ → Type 0
Within none worked = Unit
Within (some limit) worked = worked ≤ limit

-- No card is attempted twice, each is one that was asked for and has one outcome, and the cards that
-- were worked on keep to the limit.
pub record Orderly (config : PassConfig) (s : PassState) : Type 0 where
  pub no_repeat : NoRepeat s.attempted
  pub requested :
      (id : String)
      → includes s.attempted id ≡ true
      → includes (requested_sequence config) id ≡ true
  pub one_outcome : length s.processed ≡ length s.attempted
  pub in_budget : Within config.max_cards s.worked

Within-next :
    (limit : Option ℕ) (worked : ℕ) (b : Bool)
    → Within limit worked
    → is_spent limit worked ≡ false
    → Within limit (if b then suc worked else worked)
Within-next none worked b w h = tt
Within-next (some limit) worked b w h = ground (arith, w, h)

Within-zero : (limit : Option ℕ) → Within limit 0
Within-zero none = tt
Within-zero (some limit) = ground arith

length-snoc : (xs : List CardOutcome) (x : CardOutcome) → length (xs ++ (x ∷ [])) ≡ suc (length xs)
length-snoc [] x = refl
length-snoc (y ∷ xs) x = ap suc (length-snoc xs x)

module _ (config : PassConfig) where
  pub fresh : PassState → ℕ
  unfolding open_sequence
  fresh s = length (open_sequence config s.attempted)

  abbrev pub Progresses : ℕ → PassOutcome → Type 0
  Progresses n (continues t) = Orderly config t × (fresh t < n)
  Progresses n (ends t) = Orderly config t

  attempt-Orderly :
      (s : PassState) (id : String) (outcome : CardOutcome) (did_work : Bool)
      (cards : List (String × CampaignCard))
      → Orderly config s
      → includes (open_sequence config s.attempted) id ≡ true
      → is_spent config.max_cards s.worked ≡ false
      → Orderly config (attempt s id outcome did_work cards)
  unfolding open_sequence
  attempt-Orderly s id outcome did_work cards o i b =
      let (asked, new) =
        keep-includes (λ x. not (includes s.attempted x)) (requested_sequence config) id i in
      record {
        no_repeat = (ground (arith, new), o.no_repeat);
        requested = λ x h. elim (Bool-cases (str_eq id x)) [
          | inl e ↦
              subst (λ y. includes (requested_sequence config) y ≡ true) ((str_eq_iff id x).0 e)
                asked
          | inr e ↦ o.requested x (ground (arith, e, h))
        ];
        one_outcome = length-snoc s.processed outcome ∙ ap suc o.one_outcome;
        in_budget = Within-next config.max_cards s.worked did_work o.in_budget b;
      }

  attempt_fresh :
      (s : PassState) (id : String) (outcome : CardOutcome) (did_work : Bool)
      (cards : List (String × CampaignCard))
      → includes (open_sequence config s.attempted) id ≡ true
      → fresh (attempt s id outcome did_work cards) < fresh s
  unfolding open_sequence fresh
  attempt_fresh s id outcome did_work cards i =
      let (asked, new) =
        keep-includes (λ x. not (includes s.attempted x)) (requested_sequence config) id i in
      unseen_less s.attempted (requested_sequence config) id asked (ground (arith, new))

  attempt-Progresses :
      (s : PassState) (id : String) (outcome : CardOutcome) (did_work stops : Bool)
      (cards : List (String × CampaignCard))
      → Orderly config s
      → includes (open_sequence config s.attempted) id ≡ true
      → is_spent config.max_cards s.worked ≡ false
      → let t = attempt s id outcome did_work cards in
        Progresses (fresh s) (if stops then ends t else continues t)
  attempt-Progresses s id outcome did_work true cards o i b =
      attempt-Orderly s id outcome did_work cards o i b
  attempt-Progresses s id outcome did_work false cards o i b = (
    attempt-Orderly s id outcome did_work cards o i b,
    attempt_fresh s id outcome did_work cards i,
  )

  trued-Orderly :
      (s : PassState) (trued : List (String × CampaignCard))
      → Orderly config s
      → Orderly config (record s { cards = trued })
  trued-Orderly s trued o = record {
    no_repeat = o.no_repeat;
    requested = o.requested;
    one_outcome = o.one_outcome;
    in_budget = o.in_budget;
  }

  act-Progresses :
      (reply : PassReply) (a : NextCard) (trued : List (String × CampaignCard)) (s : PassState)
      → Orderly config s
      → is_spent config.max_cards s.worked ≡ false
      → Chosen s.cards reply.files config.include_escalated
          (open_sequence config s.attempted)
          trued
          (open_sequence config s.attempted)
          a
      → Progresses (fresh s) (act reply a (record s { cards = trued }))
  unfolding act fresh
  act-Progresses reply done trued s o b k = trued-Orderly s trued o
  act-Progresses reply (planning_needed id spec plan) trued s o b (c, r, k, l, m) =
      attempt-Progresses (record s { cards = trued }) id (CardOutcome.escalated id) true false
        reply.cards_after (trued-Orderly s trued o) r.in_sequence b
  act-Progresses reply (card id c) trued s o b (r, k, l) =
      let (outcome, did_work) = run_card_turn reply id in
      attempt-Progresses (record s { cards = trued }) id outcome did_work
        (stopped_on_permanent_api_error outcome) reply.cards_after (trued-Orderly s trued o)
        r.in_sequence b

  pass_tick-Progresses :
      (reply : PassReply) (s : PassState)
      → Orderly config s
      → Progresses (fresh s) (pass_tick config reply s)
  unfolding pass_tick
  pass_tick-Progresses reply s o = elim (Bool-cases (is_spent config.max_cards s.worked)) [
    | inl b ↦ rw (b, pass_tick) o
    | inr b ↦ elim (Bool-cases reply.stop_file_present) [
      | inl p ↦ rw (b, pass_tick, p) o
      | inr p ↦
          let (a, trued, e, k) =
            next_card-Chosen (open_sequence config s.attempted) s.cards reply.files
              config.include_escalated in
          rw (b, pass_tick, p, e) (act-Progresses reply a trued s o b k)
    ]
  ]

  -- The pass is over, in an orderly state.
  abbrev pub EndsOrderly : PassOutcome → Type 0
  EndsOrderly (continues s) = ⊥
  EndsOrderly (ends s) = Orderly config s

  next-EndsOrderly :
      (t : PassOutcome) (n : ℕ) (next : PassState → PassOutcome)
      → Progresses n t
      → ((s : PassState) → Orderly config s → fresh s < n → EndsOrderly (next s))
      → EndsOrderly (elim t [ continues s ↦ next s | ends s ↦ ends s ])
  next-EndsOrderly (continues s) n next p k = k s p.0 p.1
  next-EndsOrderly (ends s) n next p k = p

  pass_ticks-EndsOrderly :
      (replies : List PassReply) (s : PassState)
      → Orderly config s
      → fresh s < length replies
      → EndsOrderly (pass_ticks config replies s)
  unfolding pass_ticks
  pass_ticks-EndsOrderly [] s o l = absurd (ground (arith, l))
  pass_ticks-EndsOrderly (reply ∷ replies) s o l =
      next-EndsOrderly (pass_tick config reply s) (fresh s) (pass_ticks config replies)
        (pass_tick-Progresses reply s o)
        λ t p m. pass_ticks-EndsOrderly replies t p (ground (arith, l, m))

  start-Orderly : (cards : List (String × CampaignCard)) → Orderly config (pass_start cards)
  start-Orderly cards = record {
    no_repeat = tt;
    requested = λ id h. absurd (false≢true h);
    one_outcome = refl;
    in_budget = Within-zero config.max_cards;
  }

length-keep : (p : String → Bool) (xs : List String) → length (keep p xs) ≤ length xs
length-keep p [] = ground arith
length-keep p (x ∷ xs) = ground (arith, length-keep p xs)

-- A serial pass ends, after at most one tick for each card that was asked for and one more, whatever
-- the files, the phases and the work on the cards answer and do to the cards: it has attempted no
-- card twice and only cards that were asked for, has one outcome for each of them, and has worked on
-- no more than `maxCards`.
pub run_pass-EndsOrderly :
    (config : PassConfig) (replies : List PassReply) (cards : List (String × CampaignCard))
    → length (requested_sequence config) < length replies
    → EndsOrderly config (run_pass config replies cards)
unfolding run_pass fresh open_sequence
run_pass-EndsOrderly config replies cards l =
    pass_ticks-EndsOrderly config replies (pass_start cards) (start-Orderly config cards)
      (ground (arith, l, length-keep (λ id. not (includes [] id)) (requested_sequence config)))
