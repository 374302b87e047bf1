-- ===== src/Runner/Selection.antt =====
-- The choice of the next card: `computeBlockedCardIds`, `reconcileBlockedStatuses` and `nextCard` of
-- plugins/tribe/scripts/runner/core/state.ts. Which files exist is an input.
pub mod Parked
pub mod Blocked
pub mod Next
use tribe.Base.{
  ℕ, zero, suc, String, Bool, true, false, not, ◌&&◌, ◌||◌, Option, none, some, List, [], ◌∷◌,
  length, lookup, includes, if◌then◌else◌, str_eq,
}

pub data CardStatus : Type 0 where
  staged running shipped escalated blocked : CardStatus

-- The fields of a card that its selection reads. `spec` and `plan` are paths.
pub record CampaignCard : Type 0 where
  pub status : CardStatus
  pub spec : Option String
  pub plan : Option String
  pub depends_on : List String

abbrev pub is_shipped : CardStatus → Bool
is_shipped CardStatus.shipped = true
is_shipped _ = false

abbrev pub is_escalated : CardStatus → Bool
is_escalated CardStatus.escalated = true
is_escalated _ = false

abbrev pub is_blocked : CardStatus → Bool
is_blocked CardStatus.blocked = true
is_blocked _ = false

abbrev pub status_is : (CardStatus → Bool) → Option CampaignCard → Bool
status_is p none = false
status_is p (some c) = p c.status

abbrev pub is_open : CampaignCard → Bool
is_open c = not (is_shipped c.status) && not (is_escalated c.status)

-- Some dependency is escalated, or blocked so far.
abbrev pub parked_by : List (String × CampaignCard) → List String → List String → Bool
parked_by cards ids [] = false
parked_by cards ids (d ∷ ds) =
    (status_is is_escalated (lookup d cards) || includes ids d) || parked_by cards ids ds

unfoldable pub adds : List (String × CampaignCard) → List String → String → CampaignCard → Bool
adds cards ids id c = not (includes ids id) && (is_open c && parked_by cards ids c.depends_on)

-- One pass over the entries, with the flag `changed`.
unfoldable pub scan :
    List (String × CampaignCard)
    → List (String × CampaignCard)
    → List String
    → Bool
    → List String × Bool
unfolding adds
scan cards [] ids changed = (ids, changed)
scan cards ((id, c) ∷ entries) ids changed =
    scan cards entries (if adds cards ids id c then id ∷ ids else ids)
      (adds cards ids id c || changed)

-- The loop `while (changed)`; `none` where the fuel has run out.
unfoldable pub grow : ℕ → List (String × CampaignCard) → List String → Option (List String)
unfolding scan
grow zero cards ids = none
grow (suc n) cards ids =
    let (found, changed) = scan cards cards ids false in
    let rest = grow n cards found in if changed then rest else some found

unfoldable pub compute_blocked_card_ids : List (String × CampaignCard) → Option (List String)
unfolding grow
compute_blocked_card_ids cards = grow (suc (length cards)) cards []

abbrev pub reconciled_status : Bool → CardStatus → CardStatus
reconciled_status true status = CardStatus.blocked
reconciled_status false status = if is_blocked status then CardStatus.staged else status

unfoldable pub reconcile_blocked_statuses :
    List String → List (String × CampaignCard) → List (String × CampaignCard)
reconcile_blocked_statuses ids [] = []
reconcile_blocked_statuses ids ((id, c) ∷ cards) =
    (id, record c { status = reconciled_status (includes ids id) c.status })
    ∷ reconcile_blocked_statuses ids cards

-- What is on disk: a path below the repository, and the escalation file of a card.
pub record CardFiles : Type 0 where
  pub file_exists : String → Bool
  pub escalation_present : String → Bool

-- `planning_needed card_id spec_missing plan_missing`.
pub data NextCard : Type 0 where
  card : String → CampaignCard → NextCard
  planning_needed : String → Bool → Bool → NextCard
  done : NextCard

-- A path that is not set, or whose file is not there.
abbrev pub is_missing : CardFiles → Option String → Bool
is_missing files none = true
is_missing files (some path) = str_eq path "" || not (files.file_exists path)

abbrev pub has_unmet : List (String × CampaignCard) → List String → Bool
has_unmet cards [] = false
has_unmet cards (d ∷ ds) = not (status_is is_shipped (lookup d cards)) || has_unmet cards ds

-- An escalation that is neither answered nor to be forced.
abbrev pub is_unanswered : CardFiles → Bool → String → CampaignCard → Bool
is_unanswered files include_escalated id c =
    is_escalated c.status && (not include_escalated && files.escalation_present id)

unfoldable pub is_progressable :
    List (String × CampaignCard) → CardFiles → Bool → String → CampaignCard → Bool
is_progressable cards files include_escalated id c =
    not (is_shipped c.status)
    && (not (is_unanswered files include_escalated id c)
        && (not (is_blocked c.status) && not (has_unmet cards c.depends_on)))

abbrev pub planned : CardFiles → String → CampaignCard → NextCard
planned files id c =
    if is_missing files c.spec || is_missing files c.plan
    then planning_needed id (is_missing files c.spec) (is_missing files c.plan)
    else card id c

-- The walk over the sequence; an id without a card is passed over.
unfoldable pub choose : List (String × CampaignCard) → CardFiles → Bool → List String → NextCard
choose cards files include_escalated [] = done
choose cards files include_escalated (id ∷ ids) =
    let rest = choose cards files include_escalated ids in
    elim (lookup id cards) [
      | none ↦ rest
      | some c ↦
          if is_progressable cards files include_escalated id c then planned files id c else rest
    ]

-- The card to work on, and the cards with their statuses trued up.
unfoldable pub next_card :
    List String
    → List (String × CampaignCard)
    → CardFiles
    → Bool
    → Option (NextCard × List (String × CampaignCard))
unfolding compute_blocked_card_ids reconcile_blocked_statuses choose
next_card sequence cards files include_escalated = elim (compute_blocked_card_ids cards) [
  | none ↦ none
  | some ids ↦
      let trued = reconcile_blocked_statuses ids cards in
      some (choose trued files include_escalated sequence, trued)
]
