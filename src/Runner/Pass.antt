-- ===== src/Runner/Pass.antt =====
-- The serial pass of plugins/tribe/scripts/runner/core/loop/run-loop.ts: `runPass`, `runCardTurn`,
-- `filteredNextCard`, `requestedSequence`, `computeExitCode`. What the files, the phase of a card and
-- the work on it answer is an input of each tick.
pub mod Once
pub mod Exit
use tribe.Base.{
  ℕ, zero, suc, String, Bool, true, false, not, ◌&&◌, ◌||◌, Option, none, some, List, [], ◌∷◌, ◌++◌,
  keep, includes, is_some, leb, if◌then◌else◌,
}
use tribe.Runner.Selection.{
  CampaignCard, CardFiles, NextCard, card, planning_needed, done, next_card,
}

-- `stopped card_id retryable api_error_code`.
pub data CardOutcome : Type 0 where
  shipped escalated escalation_pending : String → CardOutcome
  stopped : String → Bool → Option String → CardOutcome

-- `max_cards` is `none` for no limit, `cards_filter` empty for no filter.
pub record PassConfig : Type 0 where
  pub sequence : List String
  pub cards_filter : List String
  pub include_escalated : Bool
  pub max_cards : Option ℕ

-- What one tick meets: the STOP file, the files that selection reads, for the first derivation of
-- the card's phase and each later one whether an escalation is pending, what the work answers each
-- time (`actOnCard`, for the card), and the cards as the work leaves them.
pub record PassReply : Type 0 where
  pub stop_file_present : Bool
  pub files : CardFiles
  pub is_pending : ℕ → Bool
  pub act_on_card : ℕ → String → CardOutcome
  pub cards_after : List (String × CampaignCard)

pub record PassState : Type 0 where
  pub cards : List (String × CampaignCard)
  pub attempted : List String
  pub worked : ℕ
  pub processed : List CardOutcome

pub data PassOutcome : Type 0 where
  continues : PassState → PassOutcome
  ends : PassState → PassOutcome

abbrev pub requested_sequence : PassConfig → List String
requested_sequence config = elim config.cards_filter [
  | [] ↦ config.sequence
  | c ∷ cs ↦ keep (λ id. includes (c ∷ cs) id) config.sequence
]

-- The ids that this pass has not attempted.
unfoldable pub open_sequence : PassConfig → List String → List String
open_sequence config attempted =
    keep (λ id. not (includes attempted id)) (requested_sequence config)

abbrev pub is_retryable : CardOutcome → Bool
is_retryable (stopped id retryable code) = retryable
is_retryable _ = false

-- At most two retries of a card whose session ended on an error, each after its phase was derived
-- again.
unfoldable pub retry : PassReply → String → ℕ → ℕ → CardOutcome → CardOutcome
retry reply id k zero outcome = outcome
retry reply id k (suc n) outcome =
    let again = retry reply id (suc k) n (reply.act_on_card (suc k) id) in
    if is_retryable outcome then (if reply.is_pending (suc k) then outcome else again) else outcome

-- The outcome, and whether work was done.
unfoldable pub run_card_turn : PassReply → String → CardOutcome × Bool
unfolding retry
run_card_turn reply id =
    if reply.is_pending 0
    then (escalation_pending id, false)
    else (retry reply id 0 2 (reply.act_on_card 0 id), true)

abbrev pub stopped_on_permanent_api_error : CardOutcome → Bool
stopped_on_permanent_api_error (stopped id retryable code) = is_some code
stopped_on_permanent_api_error _ = false

abbrev pub is_spent : Option ℕ → ℕ → Bool
is_spent none worked = false
is_spent (some limit) worked = leb limit worked

-- What an attempt of a card leaves: it is attempted, its outcome is listed, and work is counted.
abbrev pub attempt :
    PassState → String → CardOutcome → Bool → List (String × CampaignCard) → PassState
attempt s id outcome did_work cards = record {
  cards = cards;
  attempted = id ∷ s.attempted;
  worked = if did_work then suc s.worked else s.worked;
  processed = s.processed ++ (outcome ∷ []);
}

unfoldable pub act : PassReply → NextCard → PassState → PassOutcome
unfolding run_card_turn
act reply done s = ends s
act reply (planning_needed id spec plan) s =
    continues (attempt s id (escalated id) true reply.cards_after)
act reply (card id c) s =
    let (outcome, did_work) = run_card_turn reply id in
    let t = attempt s id outcome did_work reply.cards_after in
    if stopped_on_permanent_api_error outcome then ends t else continues t

-- The body of the loop.
unfoldable pub pass_tick : PassConfig → PassReply → PassState → PassOutcome
unfolding act
pass_tick config reply s =
    if is_spent config.max_cards s.worked
    then ends s
    else if reply.stop_file_present
    then ends s
    else elim (next_card (open_sequence config s.attempted) s.cards reply.files
        config.include_escalated) [
          | none ↦ ends s
          | some (choice, trued) ↦ act reply choice (record s { cards = trued })
        ]

unfoldable pub pass_ticks : PassConfig → List PassReply → PassState → PassOutcome
pass_ticks config [] s = continues s
pass_ticks config (reply ∷ replies) s = elim (pass_tick config reply s) [
  | continues t ↦ pass_ticks config replies t
  | ends t ↦ ends t
]

abbrev pub pass_start : List (String × CampaignCard) → PassState
pass_start cards = record { cards = cards; attempted = []; worked = 0; processed = [] }

unfoldable pub run_pass : PassConfig → List PassReply → List (String × CampaignCard) → PassOutcome
unfolding pass_ticks
run_pass config replies cards = pass_ticks config replies (pass_start cards)

abbrev pub any_outcome : (CardOutcome → Bool) → List CardOutcome → Bool
any_outcome p [] = false
any_outcome p (o ∷ os) = p o || any_outcome p os

abbrev pub is_parked : CardOutcome → Bool
is_parked (escalated id) = true
is_parked (escalation_pending id) = true
is_parked _ = false

abbrev pub is_stopped : CardOutcome → Bool
is_stopped (stopped id retryable code) = true
is_stopped _ = false

-- 2 where a card needs a ruling, 3 where a session was incomplete, 0 otherwise.
unfoldable pub compute_exit_code : List CardOutcome → ℕ
compute_exit_code processed =
    if any_outcome is_parked processed then 2 else if any_outcome is_stopped processed then 3 else 0
