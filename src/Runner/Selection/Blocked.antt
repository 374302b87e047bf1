-- ===== src/Runner/Selection/Blocked.antt =====
-- The loop of `computeBlockedCardIds` (state.ts) ends, and finds exactly the cards that wait.
use tribe.Base.{
  ℕ, zero, suc, ◌+◌, ◌≡◌, ◌≤◌, ◌<◌, ◌↔◌, refl, sym, ap, ◌∙◌, subst, String, Bool, true, false, ◌||◌,
  some, List, [], ◌∷◌, length, includes, if◌then◌else◌, arith, Bool-cases, inl, inr, str_eq_iff,
}
use mathlib.Core.Bool.{false≢true}
use mathlib.Core.List.{Memᴰ}
use tribe.Runner.Selection.{
  CampaignCard, is_open, parked_by, adds, scan, grow, compute_blocked_card_ids,
}
use tribe.Runner.Selection.Parked.{Parked, on_escalated, on_parked, Sound, parks, scan-Sound}

-- The entries whose id is not in the list.
abbrev pub unfound : List (String × CampaignCard) → List String → ℕ
unfound [] ids = 0
unfound ((id, c) ∷ entries) ids = (if includes ids id then 0 else 1) + unfound entries ids

unfound-bound :
    (entries : List (String × CampaignCard)) (ids : List String)
    → unfound entries ids ≤ length entries
unfound-bound [] ids = ground arith
unfound-bound ((id, c) ∷ entries) ids = ground (arith, unfound-bound entries ids)

unfound_more :
    (entries : List (String × CampaignCard)) (ids : List String) (x : String)
    → unfound entries (x ∷ ids) ≤ unfound entries ids
unfound_more [] ids x = ground arith
unfound_more ((id, c) ∷ entries) ids x = ground (arith, unfound_more entries ids x)

unfound_less :
    (entries : List (String × CampaignCard)) (ids : List String) (x : String) (c : CampaignCard)
    → Memᴰ (x, c) entries
    → includes ids x ≡ false
    → unfound entries (x ∷ ids) < unfound entries ids
unfound_less [] ids x c m h = elim m [ ]
unfound_less ((id, d) ∷ entries) ids x c (Memᴰ.head e) h =
    let same : id ≡ x = sym (ap (λ p. p.0) e) in
    ground (
      arith,
      subst (λ y. includes ids y ≡ false) (sym same) h,
      (str_eq_iff x id).1 (sym same),
      unfound_more entries ids x,
    )
unfound_less ((id, d) ∷ entries) ids x c (Memᴰ.tail m) h =
    ground (arith, unfound_less entries ids x c m h)

module _ (cards : List (String × CampaignCard)) where
  module _ (id : String) (c : CampaignCard) (entries : List (String × CampaignCard)) where
    scan_added :
        (ids : List String) (changed : Bool)
        → adds cards ids id c ≡ true
        → scan cards ((id, c) ∷ entries) ids changed ≡ scan cards entries (id ∷ ids) true
    unfolding scan
    scan_added ids changed e =
        ap (λ b. scan cards entries (if b then id ∷ ids else ids) (b || changed)) e

    scan_passed :
        (ids : List String) (changed : Bool)
        → adds cards ids id c ≡ false
        → scan cards ((id, c) ∷ entries) ids changed ≡ scan cards entries ids changed
    unfolding scan
    scan_passed ids changed e =
        ap (λ b. scan cards entries (if b then id ∷ ids else ids) (b || changed)) e

  stays_changed :
      (entries : List (String × CampaignCard)) (ids : List String)
      → (scan cards entries ids true).1 ≡ true
  unfolding scan
  stays_changed [] ids = refl
  stays_changed ((id, c) ∷ entries) ids = elim (Bool-cases (adds cards ids id c)) [
    | inl e ↦ ap (λ r. r.1) (scan_added id c entries ids true e) ∙ stays_changed entries (id ∷ ids)
    | inr e ↦ ap (λ r. r.1) (scan_passed id c entries ids true e) ∙ stays_changed entries ids
  ]

  -- Nothing of the entries is left to be found.
  abbrev Closed : List (String × CampaignCard) → List String → Type 0
  Closed entries ids =
      (id : String) (c : CampaignCard)
      → Memᴰ (id, c) entries
      → is_open c ≡ true
      → parked_by cards ids c.depends_on ≡ true
      → includes ids id ≡ true

  passed_found :
      (ids : List String) (id : String) (c : CampaignCard)
      → adds cards ids id c ≡ false
      → is_open c ≡ true
      → parked_by cards ids c.depends_on ≡ true
      → includes ids id ≡ true
  unfolding adds
  passed_found ids id c e o p = ground (arith, e, o, p)

  passed-Closed :
      (id : String) (c : CampaignCard) (entries : List (String × CampaignCard)) (ids : List String)
      → adds cards ids id c ≡ false
      → Closed entries ids
      → Closed ((id, c) ∷ entries) ids
  passed-Closed id c entries ids e k x d (Memᴰ.head s) o p =
      subst
        (λ (y, q).
          is_open q ≡ true → parked_by cards ids q.depends_on ≡ true → includes ids y ≡ true)
        (sym s) (passed_found ids id c e) o p
  passed-Closed id c entries ids e k x d (Memᴰ.tail m) o p = k x d m o p

  unchanged-Closed :
      (entries : List (String × CampaignCard)) (ids : List String)
      → (scan cards entries ids false).1 ≡ false
      → ((scan cards entries ids false).0 ≡ ids) × Closed entries ids
  unfolding scan
  unchanged-Closed [] ids h = (refl, none_left)
    where
      none_left : Closed [] ids
      none_left x d m o p = elim m [ ]
  unchanged-Closed ((id, c) ∷ entries) ids h = elim (Bool-cases (adds cards ids id c)) [
    | inl e ↦ absurd (
        false≢true (
          sym h
          ∙ ap (λ r. r.1) (scan_added id c entries ids false e)
          ∙ stays_changed entries (id ∷ ids)))
    | inr e ↦
        let step = scan_passed id c entries ids false e in
        let (same, k) = unchanged-Closed entries ids (sym (ap (λ r. r.1) step) ∙ h) in
        (ap (λ r. r.0) step ∙ same, passed-Closed id c entries ids e k)
  ]

  Fewer : List String → Bool → List String × Bool → Type 0
  Fewer ids changed (found, flag) =
      (unfound cards found ≤ unfound cards ids)
      × (changed ≡ false → flag ≡ true → unfound cards found < unfound cards ids)

  added_new :
      (ids : List String) (id : String) (c : CampaignCard)
      → adds cards ids id c ≡ true
      → includes ids id ≡ false
  unfolding adds
  added_new ids id c e = ground (arith, e)

  scan-Fewer :
      (entries : List (String × CampaignCard)) (ids : List String) (changed : Bool)
      → ((e : String × CampaignCard) → Memᴰ e entries → Memᴰ e cards)
      → Fewer ids changed (scan cards entries ids changed)
  unfolding scan Fewer
  scan-Fewer [] ids changed m = (ground arith, λ a b. absurd (false≢true (sym a ∙ b)))
  scan-Fewer ((id, c) ∷ entries) ids changed m = elim (Bool-cases (adds cards ids id c)) [
    | inl e ↦
        let less =
          unfound_less cards ids id c (m (id, c) (Memᴰ.head refl)) (added_new ids id c e) in
        let rest = scan-Fewer entries (id ∷ ids) true (λ x n. m x (Memᴰ.tail n)) in
        subst (Fewer ids changed) (sym (scan_added id c entries ids changed e))
          (ground (arith, less, rest.0), λ a b. ground (arith, less, rest.0))
    | inr e ↦
        subst (Fewer ids changed) (sym (scan_passed id c entries ids changed e))
          (scan-Fewer entries ids changed (λ x n. m x (Memᴰ.tail n)))
  ]

  Parked-found :
      (ids : List String)
      → Closed cards ids
      → (id : String) → Parked cards id
      → includes ids id ≡ true
  Parked-found ids k id (on_escalated c d m o i e) =
      k id c m o (parks cards ids c.depends_on d i (ground (arith, e)))
  Parked-found ids k id (on_parked c d m o i p) =
      let found = Parked-found ids k d p in
      k id c m o (parks cards ids c.depends_on d i (ground (arith, found)))

  -- Exactly the cards that wait are in the list.
  abbrev pub Exact : List String → Type 0
  Exact ids = (id : String) → (includes ids id ≡ true) ↔ Parked cards id

  grow-Exact :
      (n : ℕ) (ids : List String)
      → Sound cards ids
      → unfound cards ids < n
      → (found : List String) × (grow n cards ids ≡ some found) × Exact found
  unfolding grow Fewer
  grow-Exact zero ids s l = absurd (ground (arith, l))
  grow-Exact (suc n) ids s l = elim (Bool-cases (scan cards cards ids false).1) [
    | inl e ↦
        let fewer = (scan-Fewer cards ids false (λ x m. m)).1 refl e in
        let (found, g, x) =
          grow-Exact n (scan cards cards ids false).0
            (scan-Sound cards cards ids false (λ y m. m) s) (ground (arith, l, fewer)) in
        (found, ground (arith, e, g), x)
    | inr e ↦
        let (same, k) = unchanged-Closed cards ids e in
        (ids, ground (arith, e, same), λ id. (s id, Parked-found ids k id))
  ]

-- `computeBlockedCardIds` ends, within one pass for each card and one more, and finds exactly the
-- cards that are neither shipped nor escalated and wait, through a chain of such cards, for an
-- escalated one, in whatever order the cards stand.
pub compute_blocked_card_ids-Exact :
    (cards : List (String × CampaignCard))
    → (found : List String) × (compute_blocked_card_ids cards ≡ some found) × Exact cards found
unfolding compute_blocked_card_ids
compute_blocked_card_ids-Exact cards =
    grow-Exact cards (suc (length cards)) [] (λ id h. absurd (false≢true h))
      (ground (arith, unfound-bound cards []))
