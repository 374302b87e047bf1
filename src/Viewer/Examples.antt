-- ===== src/Viewer/Examples.antt =====
-- The theorems on the viewer (plugins/tribe/scripts/viewer/core) at a small transcript.
use tribe.Base.{◌≡◌, refl, ℕ, ◌-◌, List, [], ◌∷◌, Text, codes, get_elem?, get_or}
use tribe.Viewer.Window.{find_window}
use tribe.Viewer.Window.Newlines.{slice}
use tribe.Viewer.Window.Retained.{IsWindow, find_window-IsWindow}
use tribe.Viewer.Tail.{
  Bytes, row_cap, trim_return, push_text, advance_tail, is_reset, is_truncated, base_of, is_rotated,
}
use tribe.Viewer.Tail.Run.{
  TailRead, IsFaithful, stream, stream-IsFaithful, IsPlain, texts, run_tail, stream-written,
}
use tribe.Viewer.Tail.Boundary.{IsAcked, stream-IsAcked}

abbrev ascii : Bytes → Bytes
ascii bs = bs

-- Two lines, the second cut in two by the reads.
abbrev reads : List TailRead
reads =
    record { chunk = b'a' ∷ b'b' ∷ b'\n' ∷ b'c' ∷ []; seen = record { size_bytes = 4; inode = 7 } }
    ∷ record { chunk = b'd' ∷ b'\n' ∷ []; seen = record { size_bytes = 6; inode = 7 } }
    ∷ []

abbrev rows : List Bytes
rows = (b'a' ∷ b'b' ∷ []) ∷ (b'c' ∷ b'd' ∷ []) ∷ []

stream-IsFaithful_example : IsFaithful ascii (stream ascii reads).0 (stream ascii reads).1
stream-IsFaithful_example = stream-IsFaithful ascii reads

stream-IsAcked_example : IsAcked (stream ascii reads).1.bytes (stream ascii reads).0
stream-IsAcked_example = stream-IsAcked ascii reads

ab-IsPlain : IsPlain ascii (b'a' ∷ b'b' ∷ [])
unfolding row_cap push_text trim_return
ab-IsPlain = record { is_row = (refl, (refl, tt)); fits = refl; has_text = refl }

cd-IsPlain : IsPlain ascii (b'c' ∷ b'd' ∷ [])
unfolding row_cap push_text trim_return
cd-IsPlain = record { is_row = (refl, (refl, tt)); fits = refl; has_text = refl }

stream-written_example :
    ((stream ascii reads).1.lines ≡ texts ascii rows)
    × ((stream ascii reads).1.oversized ≡ [])
    × ((stream ascii reads).0.carry ≡ [])
unfolding run_tail advance_tail is_reset is_truncated base_of is_rotated
stream-written_example = stream-written ascii reads rows (ab-IsPlain, (cd-IsPlain, tt)) refl

-- Two rows and the beginning of a third.
abbrev byte : ℕ → ℕ
byte i = get_or (get_elem? (codes "ab\ncd\ne") i) 0

abbrev read_back : ℕ → ℕ → Text
read_back end len = slice byte (end - len) len

abbrev one_each : Text → ℕ
one_each text = 1

find_window-IsWindow_example : IsWindow byte one_each 7 1 (find_window read_back one_each 7 1)
find_window-IsWindow_example = find_window-IsWindow byte one_each read_back (λ end len h. refl) 7 1
