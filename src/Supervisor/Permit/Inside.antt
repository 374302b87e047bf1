-- ===== src/Supervisor/Permit/Inside.antt =====
-- What `containPath` of supervisor/permit.ts decides.
use tribe.Base.{
  ◌≡◌, ◌↔◌, refl, sym, ap, subst, true, false, ◌&&◌, [], Text, Bool-cases, inl, inr, arith,
}
use mathlib.Core.Bool.{false≢true}
use tribe.Base.Paths.{segments, is_absolute, without_dots, normalize}
use tribe.Base.Paths.Segments.{segments-normalize}
use tribe.Watchdog.Home.{ContainHomeResult, contained, is_root, is_outside, contain_home}
use tribe.Watchdog.Home.Beneath.{IsBeneath, contain_home-IsBeneath}
use tribe.Supervisor.Permit.{is_ok, contain_path}

-- The path is absolute and, once its dots are gone, lies properly beneath the home.
pub record IsInside (home_dir path : Text) : Type 0 where
  pub path_absolute : is_absolute path ≡ true
  pub home_absolute : is_absolute home_dir ≡ true
  pub beneath : IsBeneath (segments home_dir) (without_dots false [] (segments path))

is_ok_lem : (r : ContainHomeResult) → (is_ok r ≡ true) ↔ (r ≡ contained)
is_ok_lem contained = (λ e. refl, λ e. refl)
is_ok_lem is_root = (λ e. absurd (false≢true e), λ e. ap is_ok e)
is_ok_lem is_outside = (λ e. absurd (false≢true e), λ e. ap is_ok e)

-- `containPath` decides `IsInside`.
pub contain_path-IsInside :
    (path home_dir : Text) → (contain_path path home_dir ≡ true) ↔ IsInside home_dir path
unfolding contain_path
contain_path-IsInside path home_dir = elim (Bool-cases (is_absolute path && is_absolute home_dir)) [
  | inr e ↦ (λ q. ground (arith, e, q), λ h. ground (arith, e, h.path_absolute, h.home_absolute))
  | inl e ↦
      let pa : is_absolute path ≡ true = ground (arith, e) in
      let ha : is_absolute home_dir ≡ true = ground (arith, e) in
      let verdict = is_ok_lem (contain_home (normalize path) home_dir) in
      let beneath = contain_home-IsBeneath (normalize path) home_dir in
      let dotless = segments-normalize path pa in
      (
        λ q. record {
          path_absolute = pa;
          home_absolute = ha;
          beneath =
              subst (IsBeneath (segments home_dir)) dotless
                (beneath.0 (verdict.0 (ground (arith, pa, ha, q))));
        },
        λ h. ground (
          arith,
          pa,
          ha,
          verdict.1 (beneath.1 (subst (IsBeneath (segments home_dir)) (sym dotless) h.beneath)),
        ),
      )
]
