-- ===== src/Client/Button/Presses.antt =====
-- Presses and releases over frames (client/src/gui/Button.cpp).
use net_pixeld.Prelude.{
  ℕ, suc, ◌+◌, ◌≤◌, ◌≡◌, true, false, List, [], ◌∷◌, ◌++◌, arith, if◌then◌else◌,
}
use net_pixeld.Client.Button.{Button, Mouse, Effect, sound, click, hover, release, update}

-- the effects of a sequence of frames, in order, and the button after them
unfoldable pub updates : {F : Type 0} → List Mouse → Button F → List Effect × Button F
updates [] b = ([], b)
updates (m ∷ rest) b =
    let (now, next) = update m b in let (later, last) = updates rest next in (now ++ later, last)

abbrev pub clicks : List Effect → ℕ
clicks [] = 0
clicks (click ∷ es) = suc (clicks es)
clicks (_ ∷ es) = clicks es

abbrev pub releases : List Effect → ℕ
releases [] = 0
releases (release ∷ es) = suc (releases es)
releases (_ ∷ es) = releases es

abbrev open_press : {F : Type 0} → Button F → ℕ
open_press b = if b.was_pressed then 1 else 0

clicks-append : (es fs : List Effect) → clicks (es ++ fs) ≡ clicks es + clicks fs
clicks-append [] fs = omega arith
clicks-append (sound ∷ es) fs = clicks-append es fs
clicks-append (click ∷ es) fs = omega (arith, clicks-append es fs)
clicks-append (hover ∷ es) fs = clicks-append es fs
clicks-append (release ∷ es) fs = clicks-append es fs

releases-append : (es fs : List Effect) → releases (es ++ fs) ≡ releases es + releases fs
releases-append [] fs = omega arith
releases-append (sound ∷ es) fs = releases-append es fs
releases-append (click ∷ es) fs = releases-append es fs
releases-append (hover ∷ es) fs = releases-append es fs
releases-append (release ∷ es) fs = omega (arith, releases-append es fs)

update-presses :
    {F : Type 0} (m : Mouse) (b : Button F)
    → b.on_click ≡ true
    → ((update m b).1.on_click ≡ true)
      × (releases (update m b).0 + open_press (update m b).1 ≤ clicks (update m b).0 + open_press b)
unfolding update
update-presses m b set = ground arith

releases_paid :
    {F : Type 0} (ms : List Mouse) (b : Button F)
    → b.on_click ≡ true
    → releases (updates ms b).0 + open_press (updates ms b).1
      ≤ clicks (updates ms b).0 + open_press b
unfolding updates
releases_paid [] b set = omega arith
releases_paid (m ∷ ms) b set =
    let (still, first) = update-presses m b set in
    let next = (update m b).1 in
    omega (
      arith,
      first,
      releases_paid ms next still,
      clicks-append (update m b).0 (updates ms next).0,
      releases-append (update m b).0 (updates ms next).0,
    )

-- Where a click callback is set and no press is open, the release callback is called at most as
-- often as the click callback, in any sequence of frames.
pub releases_le_clicks :
    {F : Type 0} (ms : List Mouse) (b : Button F)
    → b.on_click ≡ true
    → b.was_pressed ≡ false
    → releases (updates ms b).0 ≤ clicks (updates ms b).0
releases_le_clicks ms b set closed = ground (arith, releases_paid ms b set)
