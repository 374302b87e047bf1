-- ===== src/Watchdog/Select/Newest.antt =====
-- The choice of the newest run is a maximum of the order, and the exclusion is a filter.
use tribe.Base.{
  String, ◌≡◌, refl, sym, ◌∙◌, Bool, true, false, not, Option, none, some, List, [], ◌∷◌, arith,
  ◌⊎◌, inl, inr, subst, str_eq_iff, includes, keep, ◌&&◌, Bool-cases, if◌then◌else◌,
}
use tribe.Watchdog.Select.{
  str_lt, newer, newest_from, newest_run_id, newest_excluding_from, newest_run_id_excluding,
}
use tribe.Watchdog.Select.Order.{str_lt_irrefl, str_lt_trans}

-- `r` is listed and nothing listed is newer; only the empty list has no newest.
abbrev pub IsNewest : List String → Option String → Type 0
IsNewest ids none = ids ≡ []
IsNewest ids (some r) =
    (includes ids r ≡ true) × ((id : String) → includes ids id ≡ true → str_lt r id ≡ false)

record NewestFrom (a : String) (ids : List String) (r : String) : Type 0 where
  found : newest_from (some a) ids ≡ some r
  member : (r ≡ a) ⊎ (includes ids r ≡ true)
  at_least : (r ≡ a) ⊎ (str_lt a r ≡ true)
  above_all : (id : String) → includes ids id ≡ true → str_lt r id ≡ false

module _ (a id : String) (ids : List String) (r : String) where
  taken : str_lt a id ≡ true → NewestFrom id ids r → NewestFrom a (id ∷ ids) r
  unfolding newest_from
  taken h n = record {
    found = rw h n.found;
    member = ground (arith, n.member, str_eq_iff id r);
    at_least = ground (arith, n.at_least, str_lt_trans a id r);
    above_all = λ x m.
        ground (
          arith,
          n.above_all x,
          n.at_least,
          str_eq_iff id x,
          str_lt_irrefl id,
          str_lt_trans id r id,
        );
  }

  passed : str_lt a id ≡ false → NewestFrom a ids r → NewestFrom a (id ∷ ids) r
  unfolding newest_from
  passed h n = record {
    found = rw h n.found;
    member = ground (arith, n.member);
    at_least = n.at_least;
    above_all =
        λ x m. ground (arith, n.above_all x, n.at_least, str_eq_iff id x, str_lt_trans a r id);
  }

newest_from_lem : (a : String) (ids : List String) → (r : String) × NewestFrom a ids r
unfolding newest_from
newest_from_lem a [] =
    (a, record { found = refl; member = inl refl; at_least = inl refl; above_all = λ x m. cc })
newest_from_lem a (id ∷ ids) =
    let (r, n) = newest_from_lem id ids in
    let (q, m) = newest_from_lem a ids in
    elim (Bool-cases (str_lt a id)) [
      | inl h ↦ (r, taken a id ids r h n)
      | inr h ↦ (q, passed a id ids q h m)
    ]

-- The newest run id is one of the ids, and no id is above it; there is none exactly for no ids.
pub newest_run_id-IsNewest : (ids : List String) → IsNewest ids (newest_run_id ids)
unfolding newest_run_id newest_from
newest_run_id-IsNewest [] = refl
newest_run_id-IsNewest (id ∷ ids) =
    let (r, n) = newest_from_lem id ids in
    rw (n.found) (
      ground (arith, n.member, str_eq_iff id r),
      λ x m. ground (
        arith,
        n.above_all x,
        n.at_least,
        str_eq_iff id x,
        str_lt_irrefl id,
        str_lt_trans id r id,
      ),
    )

newest_excluding_from_lem :
    (newest : Option String) (excluded ids : List String)
    → newest_excluding_from newest excluded ids
      ≡ newest_from newest (keep (λ id. not (includes excluded id)) ids)
unfolding newest_from newest_excluding_from
newest_excluding_from_lem newest excluded [] = refl
newest_excluding_from_lem newest excluded (id ∷ ids) = elim (Bool-cases (includes excluded id)) [
  | inl h ↦ rw h (newest_excluding_from_lem newest excluded ids)
  | inr h ↦
      rw h (newest_excluding_from_lem (if newer newest id then some id else newest) excluded ids)
]

-- The choice with an exclusion is the plain choice among the ids that are not excluded.
pub newest_run_id_excluding_lem :
    (ids excluded : List String)
    → newest_run_id_excluding ids excluded
      ≡ newest_run_id (keep (λ id. not (includes excluded id)) ids)
unfolding newest_run_id newest_run_id_excluding
newest_run_id_excluding_lem ids excluded = newest_excluding_from_lem none excluded ids

includes-keep :
    (p : String → Bool) (ids : List String) (x : String)
    → includes (keep p ids) x ≡ (includes ids x && p x)
includes-keep p [] x = refl
includes-keep p (id ∷ ids) x = elim (Bool-cases (p id)) [
  | inl h ↦ rw h (ground (arith, includes-keep p ids x, str_eq_iff id x, h))
  | inr h ↦ rw h (ground (arith, includes-keep p ids x, str_eq_iff id x, h))
]

-- A run id that the exclusion answers is on disk and not excluded, and no id that is both is above
-- it, in whatever order the ids stand.
pub newest_run_id_excluding_sound :
    (ids excluded : List String) (r : String)
    → newest_run_id_excluding ids excluded ≡ some r
    → (includes ids r ≡ true)
      × (includes excluded r ≡ false)
      × ((id : String)
          → includes ids id ≡ true
          → includes excluded id ≡ false
          → str_lt r id ≡ false)
newest_run_id_excluding_sound ids excluded r e =
    (ground (arith, h.0, w r), ground (arith, h.0, w r), λ x m n. h.1 x (ground (arith, w x)))
  where
    kept : List String
    kept = keep (λ id. not (includes excluded id)) ids

    h : IsNewest kept (some r)
    h =
        subst (IsNewest kept) (sym (newest_run_id_excluding_lem ids excluded) ∙ e)
          (newest_run_id-IsNewest kept)

    w : (x : String) → includes kept x ≡ (includes ids x && not (includes excluded x))
    w x = includes-keep (λ id. not (includes excluded id)) ids x
