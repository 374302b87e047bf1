-- ===== src/Watchdog/Home/Beneath.antt =====
-- What `containHome` of watchdog/args.ts decides of the segments of two paths.
use tribe.Base.{
  ◌≡◌, ◌≢◌, ◌↔◌, refl, sym, ap, ◌∙◌, ◌+◌, ◌<◌, if◌then◌else◌, Bool, true, false, ◌&&◌, List, [],
  ◌∷◌, ◌++◌, ltb, ◌==◌, length, Text, text_eq_sound, text_eq_self, arith,
}
use mathlib.Core.Bool.{false≢true}
use tribe.Base.Paths.{segments}
use tribe.Watchdog.Home.{ContainHomeResult, contained, is_root, is_outside, every_at, contain_home}

-- `home` lies properly beneath `root`, segment by segment.
pub record IsBeneath (root home : List Text) : Type 0 where
  pub below : List Text
  pub proper : below ≢ []
  pub path : home ≡ root ++ below

every_at-append :
    (root home : List Text)
    → every_at root home ≡ true
    → (below : List Text) × (home ≡ root ++ below)
unfolding every_at
every_at-append [] home e = (home, refl)
every_at-append (s ∷ ss) [] e = absurd (false≢true e)
every_at-append (s ∷ ss) (t ∷ ts) e =
    let same : t ≡ s = text_eq_sound t s (ground (arith, e)) in
    let (below, more) = every_at-append ss ts (ground (arith, e)) in (below, cc (same, more))

every_at_prefix : (root below : List Text) → every_at root (root ++ below) ≡ true
unfolding every_at
every_at_prefix [] below = refl
every_at_prefix (s ∷ ss) below = ground (arith, text_eq_self s, every_at_prefix ss below)

length-append : (xs ys : List Text) → length (xs ++ ys) ≡ length xs + length ys
length-append [] ys = omega arith
length-append (x ∷ xs) ys = ground (arith, length-append xs ys)

is_contained : ContainHomeResult → Bool
is_contained contained = true
is_contained _ = false

verdict_lem :
    (a b : Bool)
    → ((if a then is_root else if b then contained else is_outside) ≡ contained)
      ↔ ((a ≡ false) × (b ≡ true))
unfolding is_contained
verdict_lem true b =
    (λ e. absurd (false≢true (ap is_contained e)), λ h. absurd (false≢true (sym h.0)))
verdict_lem false true = (λ e. (refl, refl), λ h. refl)
verdict_lem false false =
    (λ e. absurd (false≢true (ap is_contained e)), λ h. absurd (false≢true h.1))

longer_lem :
    (root home below : List Text) → home ≡ root ++ below → below ≢ [] → length root < length home
longer_lem root home [] e ne = absurd (ne refl)
longer_lem root home (b ∷ below) e ne = ground (arith, ap length e, length-append root (b ∷ below))

not_longer :
    (root home below : List Text)
    → home ≡ root ++ below
    → below ≡ []
    → length root < length home
    → ⊥
not_longer root home below e nothing longer =
    ground (arith, longer, ap length e, length-append root below, ap length nothing)

-- `containHome` accepts exactly the paths that lie properly beneath the root, segment by segment, so
-- neither the root itself nor a sibling whose name begins with the root's name.
pub contain_home-IsBeneath :
    (abs_home abs_root : Text)
    → (contain_home abs_home abs_root ≡ contained)
      ↔ IsBeneath (segments abs_root) (segments abs_home)
unfolding contain_home
contain_home-IsBeneath abs_home abs_root =
    let home = segments abs_home in
    let root = segments abs_root in
    let verdict =
      verdict_lem (length home == length root && every_at home root)
        (ltb (length root) (length home) && every_at root home) in
    (
      λ e.
          let (_, inside) = verdict.0 e in
          let (below, path) = every_at-append root home (ground (arith, inside)) in
          let longer : length root < length home = ground (arith, inside) in
          record {
            below = below;
            proper = λ nothing. not_longer root home below path nothing longer;
            path = path;
          },
      λ h.
          let longer = longer_lem root home h.below h.path h.proper in
          let prefix : every_at root home ≡ true =
            ap (every_at root) h.path ∙ every_at_prefix root h.below in
          verdict.1 (ground (arith, longer), ground (arith, longer, prefix)),
    )
