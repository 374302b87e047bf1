-- ===== src/Runner/Selection/Parked.antt =====
-- A card that the passes of `computeBlockedCardIds` (state.ts) find waits for an escalated card.
use tribe.Base.{
  ◌≡◌, refl, sym, subst, String, Bool, true, ◌||◌, List, [], ◌∷◌, lookup, includes, if◌then◌else◌,
  arith, Bool-cases, inl, inr, str_eq, str_eq_iff, str_eq_self,
}
use mathlib.Core.Bool.{false≢true}
use mathlib.Core.List.{Memᴰ}
use tribe.Runner.Selection.{CampaignCard, is_escalated, is_open, status_is, parked_by, adds, scan}

-- The card is neither shipped nor escalated, and a dependency of it is escalated, or waits itself.
pub data Parked (cards : List (String × CampaignCard)) : String → Type 0 where
  on_escalated :
      {id : String} (c : CampaignCard) (d : String)
      → Memᴰ (id, c) cards
      → is_open c ≡ true
      → includes c.depends_on d ≡ true
      → status_is is_escalated (lookup d cards) ≡ true
      → Parked cards id
  on_parked :
      {id : String} (c : CampaignCard) (d : String)
      → Memᴰ (id, c) cards
      → is_open c ≡ true
      → includes c.depends_on d ≡ true
      → Parked cards d
      → Parked cards id

module _ (cards : List (String × CampaignCard)) where
  abbrev pub Sound : List String → Type 0
  Sound ids = (id : String) → includes ids id ≡ true → Parked cards id

  -- A dependency that parks the card, found in the list.
  parking :
      (ids ds : List String)
      → parked_by cards ids ds ≡ true
      → (d : String) × (includes ds d ≡ true)
        × ((status_is is_escalated (lookup d cards) || includes ids d) ≡ true)
  parking ids [] h = absurd (false≢true h)
  parking ids (d ∷ ds) h =
      elim (Bool-cases (status_is is_escalated (lookup d cards) || includes ids d)) [
        | inl e ↦ (d, ground (arith, str_eq_self d), e)
        | inr e ↦ let (x, m, p) = parking ids ds (ground (arith, e, h)) in (x, ground (arith, m), p)
      ]

  pub parks :
      (ids ds : List String) (d : String)
      → includes ds d ≡ true
      → (status_is is_escalated (lookup d cards) || includes ids d) ≡ true
      → parked_by cards ids ds ≡ true
  parks ids [] d m p = absurd (false≢true m)
  parks ids (x ∷ ds) d m p = elim (Bool-cases (str_eq x d)) [
    | inl e ↦
        let same = (str_eq_iff x d).0 e in
        ground (
          arith,
          subst (λ y. (status_is is_escalated (lookup y cards) || includes ids y) ≡ true) (sym same)
              p,
        )
    | inr e ↦ ground (arith, parks ids ds d (ground (arith, e, m)) p)
  ]

  added-Parked :
      (ids : List String) (id : String) (c : CampaignCard)
      → Memᴰ (id, c) cards
      → Sound ids
      → adds cards ids id c ≡ true
      → Parked cards id
  unfolding adds
  added-Parked ids id c m s h =
      let (d, i, p) = parking ids c.depends_on (ground (arith, h)) in
      let open_card : is_open c ≡ true = ground (arith, h) in
      elim (Bool-cases (status_is is_escalated (lookup d cards))) [
        | inl e ↦ on_escalated c d m open_card i e
        | inr e ↦ on_parked c d m open_card i (s d (ground (arith, e, p)))
      ]

  added-Sound :
      (ids : List String) (id : String) (c : CampaignCard)
      → Memᴰ (id, c) cards
      → Sound ids
      → Sound (if adds cards ids id c then id ∷ ids else ids)
  added-Sound ids id c m s = elim (Bool-cases (adds cards ids id c)) [
    | inl e ↦ rw e (λ x h. elim (Bool-cases (str_eq id x)) [
      | inl q ↦ subst (Parked cards) ((str_eq_iff id x).0 q) (added-Parked ids id c m s e)
      | inr q ↦ s x (ground (arith, q, h))
    ])
    | inr e ↦ rw e s
  ]

  pub scan-Sound :
      (entries : List (String × CampaignCard)) (ids : List String) (changed : Bool)
      → ((e : String × CampaignCard) → Memᴰ e entries → Memᴰ e cards)
      → Sound ids
      → Sound (scan cards entries ids changed).0
  unfolding scan
  scan-Sound [] ids changed m s = s
  scan-Sound ((id, c) ∷ entries) ids changed m s =
      scan-Sound entries (if adds cards ids id c then id ∷ ids else ids)
        (adds cards ids id c || changed) (λ e n. m e (Memᴰ.tail n))
        (added-Sound ids id c (m (id, c) (Memᴰ.head refl)) s)
