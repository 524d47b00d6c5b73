-- ===== src/Ui/Panel/Refines.antt =====
-- The button task of src/ui_task.rs as steps on what the two tasks share.
use rust_gps_ntp.Common.{
  ◌-◌, ◌≤◌, ◌<◌, le_or_lt, ◌≡◌, refl, true, false, Bool-cases, inl, inr, arith,
}
use rust_gps_ntp.Ui.{draw_interval_us, screen_blank_us}
use rust_gps_ntp.Ui.Button.{Readings, ButtonTask, button_pass}
use rust_gps_ntp.Ui.Button.Passes.{taken, button_pass-control}
use rust_gps_ntp.Ui.Panel.{Screen, turn_page, set_screen, request, Step, turn, switch, count}

-- A sequence of steps.
pub data Run (s : Screen) : Screen → Type 0 where
  none_left : Run s s
  and_then : {t u : Screen} → Run s t → Step t u → Run s u

-- What a run of the button task's own steps leaves of the panel task.
abbrev pub IsBeside : Screen → Screen → Type 0
IsBeside s t =
    (t.last_drawn ≡ s.last_drawn) × (t.shown ≡ s.shown) × (t.phase ≡ s.phase) × (t.due ≡ false)

-- What one pass does to the screen, by what it reads.
pub data Pass (r : Readings) (b : ButtonTask) (s : Screen) : Screen → Type 0 where
  turned : taken r b ≡ true → s.control.screen_on ≡ true → Pass r b s (request (turn_page s))
  woken : taken r b ≡ true → s.control.screen_on ≡ false → Pass r b s (request (set_screen true s))
  darkened :
      taken r b ≡ false
      → s.control.screen_on ≡ true
      → screen_blank_us ≤ r.now_us - b.last_interaction_us
      → Pass r b s (set_screen false s)
  drawn_again :
      taken r b ≡ false
      → s.control.screen_on ≡ true
      → r.now_us - b.last_interaction_us < screen_blank_us
      → draw_interval_us ≤ r.now_us - b.last_redraw_req_us
      → Pass r b s (request s)
  still_lit :
      taken r b ≡ false
      → s.control.screen_on ≡ true
      → r.now_us - b.last_interaction_us < screen_blank_us
      → r.now_us - b.last_redraw_req_us < draw_interval_us
      → Pass r b s s
  still_dark : taken r b ≡ false → s.control.screen_on ≡ false → Pass r b s s

-- The steps of a pass: at most two.
pub Pass-Run : {r : Readings} {b : ButtonTask} {s t : Screen} → Pass r b s t → Run s t
Pass-Run (turned h k) = and_then (and_then none_left turn) count
Pass-Run (woken h k) = and_then (and_then none_left (switch true)) count
Pass-Run (darkened h k l) = and_then none_left (switch false)
Pass-Run (drawn_again h k l m) = and_then none_left count
Pass-Run (still_lit h k l m) = none_left
Pass-Run (still_dark h k) = none_left

-- Every pass of the button task, from a state in which every press has been counted, does one of six
-- things to the shared control, each by at most two of its steps: a press that is taken turns the page
-- once if the screen is lit and only lights it if it is dark, and then counts one request; without
-- one, a lit screen goes dark after fifteen seconds without a press, counts one request if the last is
-- five seconds old, and is left alone otherwise, as a dark one is. The pass leaves the control with
-- which these steps end, with every press counted, and does not touch what the panel task keeps.
pub button_pass-Run :
    (r : Readings) (b : ButtonTask) (s : Screen)
    → s.control ≡ b.control
    → s.due ≡ false
    → (t : Screen) × Pass r b s t × Run s t × (t.control ≡ (button_pass r b).control) × IsBeside s t
unfolding turn_page set_screen request
button_pass-Run r b s same counted =
    let pass = button_pass-control r b in
    elim (Bool-cases (taken r b)) [
      | inl k ↦ elim (Bool-cases s.control.screen_on) [
        | inl on ↦ ends (turned k on) (ground (arith, pass, same, k, on)) (refl, refl, refl, refl)
        | inr on ↦ ends (woken k on) (ground (arith, pass, same, k, on)) (refl, refl, refl, refl)
      ]
      | inr k ↦ elim (Bool-cases s.control.screen_on) [
        | inr on ↦
            ends (still_dark k on) (ground (arith, pass, same, k, on)) (refl, refl, refl, counted)
        | inl on ↦ elim (le_or_lt screen_blank_us (r.now_us - b.last_interaction_us)) [
          | inl late ↦
              ends (darkened k on late) (ground (arith, pass, same, k, on, late))
                (refl, refl, refl, counted)
          | inr early ↦ elim (le_or_lt draw_interval_us (r.now_us - b.last_redraw_req_us)) [
            | inl old ↦
                ends (drawn_again k on (omega arith) old)
                  (ground (arith, pass, same, k, on, early, old)) (refl, refl, refl, refl)
            | inr fresh ↦
                ends (still_lit k on (omega arith) (omega arith))
                  (ground (arith, pass, same, k, on, early, fresh)) (refl, refl, refl, counted)
          ]
        ]
      ]
    ]
  where
    ends :
        {t : Screen}
        → Pass r b s t
        → t.control ≡ (button_pass r b).control
        → IsBeside s t
        → (t : Screen) × Pass r b s t
          × Run s t
          × (t.control ≡ (button_pass r b).control)
          × IsBeside s t
    ends {t} p c beside = (t, p, Pass-Run p, c, beside)
