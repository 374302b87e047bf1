-- ===== src/Runner/PlanIndex/Fenced.antt =====
-- What `scan` of plan-index.ts takes for the structure of a plan: no line inside a fence.
use tribe.Base.{
  span, leb, ◌==◌, ◌≡◌, ◌⊎◌, refl, sym, ap, ◌∙◌, subst, ℕ, suc, ◌+◌, ◌<◌, Bool, true, false, Option,
  none, some, List, [], ◌∷◌, ◌++◌, length, All, if◌then◌else◌, Text, split_on, Bool-cases, inl, inr,
  arith,
}
use mathlib.Core.Option.{none-ne-some, some-injective}
use tribe.Runner.PlanIndex.{
  Heading, Fence, heading_at, fence_at, closes, Reading, start, close_at, add_heading, with_level,
  read_outside, read_in, read_lines, scan,
}

All-snoc :
    {A : Type 0} (P : A → Type 0) (xs : List A) (x : A) → All P xs → P x → All P (xs ++ x ∷ [])
All-snoc P [] x h p = (p, tt)
All-snoc P (y ∷ ys) x (h, hs) p = (h, All-snoc P ys x hs p)

All-imp :
    {A : Type 0} (P Q : A → Type 0) (xs : List A) → ((x : A) → P x → Q x) → All P xs → All Q xs
All-imp P Q [] f h = tt
All-imp P Q (x ∷ xs) f (h, hs) = (f x h, All-imp P Q xs f hs)

All-both :
    {A : Type 0} (P Q R : A → Type 0) (xs : List A)
    → ((x : A) → P x → Q x → R x)
    → All P xs
    → All Q xs
    → All R xs
All-both P Q R [] f h k = tt
All-both P Q R (x ∷ xs) f (h, hs) (k, ks) = (f x h k, All-both P Q R xs f hs ks)

-- The line is not in the fence that opens and closes at the two lines.
abbrev pub Outside : ℕ → ℕ × ℕ → Type 0
Outside line (opened, closed) = (line < opened) ⊎ (closed < line)

-- What holds of the loop before line `i`.
record IsFenced (i : ℕ) (r : Reading) : Type 0 where
  above : All (λ h. h.line < i) r.headings
  closed_above : All (λ f. (f.0 < f.1) × (f.1 < i)) r.fence_closes
  outside : All (λ h. All (Outside h.line) r.fence_closes) r.headings
  open_above :
      (f : Fence) → r.current ≡ some f → (f.line < i) × All (λ h. h.line < f.line) r.headings

later-IsFenced : (i : ℕ) (r : Reading) → IsFenced i r → IsFenced (suc i) r
later-IsFenced i r h = record {
  above = All-imp (λ h. h.line < i) (λ h. h.line < suc i) r.headings (λ h l. omega arith) h.above;
  closed_above =
      All-imp (λ f. (f.0 < f.1) × (f.1 < i)) (λ f. (f.0 < f.1) × (f.1 < suc i)) r.fence_closes
        (λ f l. (l.0, suc_lt f.1 i l.1)) h.closed_above;
  outside = h.outside;
  open_above = λ f e. let (l, hs) = h.open_above f e in (omega arith, hs);
}
  where
    suc_lt : (m n : ℕ) → m < n → m < suc n
    suc_lt m n l = omega arith

close_at-IsFenced :
    (i : ℕ) (r : Reading) (fence : Fence)
    → r.current ≡ some fence
    → IsFenced i r
    → IsFenced (suc i) (close_at r fence i)
close_at-IsFenced i r fence e h =
    let (opened, before) = h.open_above fence e in
    let next = later-IsFenced i r h in
    record {
      above = next.above;
      closed_above =
          All-snoc (λ f. (f.0 < f.1) × (f.1 < suc i)) r.fence_closes (fence.line, i)
            next.closed_above (opened, omega arith);
      outside =
          All-both (λ h. All (Outside h.line) r.fence_closes) (λ h. h.line < fence.line)
            (λ h. All (Outside h.line) (r.fence_closes ++ (fence.line, i) ∷ [])) r.headings
            (λ h out l. All-snoc (Outside h.line) r.fence_closes (fence.line, i) out (inl l))
            h.outside before;
      open_above = λ f q. absurd (none-ne-some f q);
    }

open_at-IsFenced :
    (i : ℕ) (r : Reading) (fence : Fence)
    → fence.line ≡ i
    → IsFenced i r
    → IsFenced (suc i) (record r { fence_opens = r.fence_opens ++ i ∷ []; current = some fence })
open_at-IsFenced i r fence e h =
    let next = later-IsFenced i r h in
    record {
      above = next.above;
      closed_above = next.closed_above;
      outside = next.outside;
      open_above = λ f q.
          let same : f.line ≡ i = ap (λ g. g.line) (sym (some-injective fence f q)) ∙ e in
          (omega arith, subst (λ k. All (λ h. h.line < k) r.headings) (sym same) h.above);
    }

add_heading-IsFenced :
    (i : ℕ) (r : Reading) (o : Option Heading)
    → ((h : Heading) → o ≡ some h → h.line ≡ i)
    → r.current ≡ none
    → IsFenced i r
    → IsFenced (suc i) (add_heading r o)
add_heading-IsFenced i r none at e h = later-IsFenced i r h
add_heading-IsFenced i r (some heading) at e h =
    let next = later-IsFenced i r h in
    let here = at heading refl in
    record {
      above = All-snoc (λ h. h.line < suc i) r.headings heading next.above (omega arith);
      closed_above = next.closed_above;
      outside =
          All-snoc (λ h. All (Outside h.line) r.fence_closes) r.headings heading h.outside
            (All-imp (λ f. (f.0 < f.1) × (f.1 < i)) (Outside heading.line) r.fence_closes
              (λ f l. inr (subst (λ k. f.1 < k) (sym here) l.1)) h.closed_above);
      open_above = λ f q. absurd (none-ne-some f (sym e ∙ q));
    }

-- Whatever is found is found at line `i`.
abbrev At : {A : Type 0} → (A → ℕ) → ℕ → Option A → Type 0
At {A} line i o = (a : A) → o ≡ some a → line a ≡ i

At-none : {A : Type 0} (line : A → ℕ) (i : ℕ) → At line i none
At-none line i a e = absurd (none-ne-some a e)

At-some : {A : Type 0} (line : A → ℕ) (i : ℕ) (a : A) → line a ≡ i → At line i (some a)
At-some line i a q b e = ap line (sym (some-injective a b e)) ∙ q

At-if :
    {A : Type 0} (line : A → ℕ) (i : ℕ) (b : Bool) (o p : Option A)
    → At line i o
    → At line i p
    → At line i (if b then o else p)
At-if line i true o p h k = h
At-if line i false o p h k = k

with_level-At :
    (i level : ℕ) (o : Option Text) → At {A = Heading} (λ h. h.line) i (with_level i level o)
with_level-At i level none = At-none {A = Heading} (λ h. h.line) i
with_level-At i level (some text) = At-some {A = Heading} (λ h. h.line) i _ refl

heading_at-At : (i : ℕ) (line : Text) → At {A = Heading} (λ h. h.line) i (heading_at i line)
unfolding heading_at
heading_at-At i line =
    At-if {A = Heading} (λ h. h.line) i _ _ none (with_level-At i _ _)
      (At-none {A = Heading} (λ h. h.line) i)

fence_here :
    (i char marker : ℕ)
    → At {A = Fence} (λ f. f.line) i (some (record { char = char; marker = marker; line = i }))
fence_here i char marker = At-some {A = Fence} (λ f. f.line) i _ refl

no_fence : (i : ℕ) → At {A = Fence} (λ f. f.line) i none
no_fence i = At-none {A = Fence} (λ f. f.line) i

fence_at-At : (i : ℕ) (line : Text) → At {A = Fence} (λ f. f.line) i (fence_at i line)
unfolding fence_at
fence_at-At i line =
    let rest = (span (λ c. c == b' ') line).1 in
    let ticks = length (span (λ c. c == b'`') rest).0 in
    let tildes = length (span (λ c. c == b'~') rest).0 in
    At-if {A = Fence} (λ f. f.line) i _ none _ (no_fence i)
      (At-if {A = Fence} (λ f. f.line) i (leb 3 ticks) _ _ (fence_here i b'`' ticks)
        (At-if {A = Fence} (λ f. f.line) i (leb 3 tildes) _ none (fence_here i b'~' tildes)
          (no_fence i)))

read_in-IsFenced :
    (i : ℕ) (r : Reading) (line : Text) (o : Option Fence)
    → r.current ≡ o
    → IsFenced i r
    → IsFenced (suc i) (read_in o r i line)
read_in-IsFenced i r line (some fence) e h = elim (Bool-cases (closes fence line)) [
  | inl c ↦ rw c (close_at-IsFenced i r fence e h)
  | inr c ↦ rw c (later-IsFenced i r h)
]
read_in-IsFenced i r line none e h = outside_fences (fence_at i line) (fence_at-At i line)
  where
    outside_fences :
        (o : Option Fence)
        → At {A = Fence} (λ f. f.line) i o
        → IsFenced (suc i) (read_outside r i line o)
    outside_fences none at = add_heading-IsFenced i r (heading_at i line) (heading_at-At i line) e h
    outside_fences (some fence) at = open_at-IsFenced i r fence (at fence refl) h

read_lines-IsFenced :
    (r : Reading) (i : ℕ) (lines : List Text)
    → IsFenced i r
    → IsFenced (i + length lines) (read_lines r i lines)
unfolding read_lines
read_lines-IsFenced r i [] h = subst (λ k. IsFenced k r) (omega arith) h
read_lines-IsFenced r i (line ∷ lines) h =
    subst (λ k. IsFenced k (read_lines (read_in r.current r i line) (suc i) lines)) (omega arith)
      (read_lines-IsFenced (read_in r.current r i line) (suc i) lines
        (read_in-IsFenced i r line r.current refl h))

start-IsFenced : IsFenced 0 start
start-IsFenced = record {
  above = tt;
  closed_above = tt;
  outside = tt;
  open_above = λ f e. absurd (none-ne-some f e);
}

-- In a plan that `scan` has read, every heading stands on a line of the plan, every closed fence
-- opens before it closes, within the plan, no heading stands on a line from the opening to the
-- closing of a fence, and none stands behind a fence that is never closed.
pub scan-Fenced :
    (markdown : Text)
    → let s = scan markdown in
      All (λ h. h.line < length s.lines) s.headings
      × All (λ f. (f.0 < f.1) × (f.1 < length s.lines)) s.fence_closes
      × All (λ h. All (Outside h.line) s.fence_closes) s.headings
      × ((f : Fence)
          → (read_lines start 0 s.lines).current ≡ some f
          → All (λ h. h.line < f.line) s.headings)
unfolding scan
scan-Fenced markdown =
    let lines = split_on 10 markdown in
    let h = read_lines-IsFenced start 0 lines start-IsFenced in
    let counted : 0 + length lines ≡ length lines = omega arith in
    (
      subst (λ n. All (λ k. k.line < n) (read_lines start 0 lines).headings) counted h.above,
      subst (λ n. All (λ f. (f.0 < f.1) × (f.1 < n)) (read_lines start 0 lines).fence_closes)
          counted h.closed_above,
      h.outside,
      λ f e. (h.open_above f e).1,
    )
