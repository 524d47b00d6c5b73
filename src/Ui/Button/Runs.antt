-- ===== src/Ui/Button/Runs.antt =====
-- Runs of the button task's loop, src/ui_task.rs: the spacing of presses, and the blanking.
use rust_gps_ntp.Common.{
  ℕ, ◌+◌, ◌≤◌, ◌<◌, ◌≡◌, refl, ◌∙◌, Bool, true, false, List, [], ◌∷◌, ◌++◌, ◌&&◌, ◌||◌, not, ◌==◌,
  if◌then◌else◌, arith, All,
}
use rust_gps_ntp.Ui.{UiControl, screen_blank_us, button_debounce_us, panel_loop_stall_us}
use rust_gps_ntp.Ui.Button.{
  Readings, ButtonTask, edge_press, level_press, note_edges, note_level, act, press, blank, redraw,
  refresh_pull, watch_panel, button_pass, button_loop,
}
use rust_gps_ntp.Ui.Button.Passes.{taken, pass_lem}

-- What a user sees of a pass: another page, or a dark screen that comes on.
abbrev pub responds : UiControl → UiControl → Bool
responds c d = not (d.page == c.page) || (not c.screen_on && d.screen_on)

-- The times of the passes of a run that respond to a press.
unfoldable pub response_times : List Readings → ButtonTask → List ℕ
response_times [] s = []
response_times (r ∷ rs) s =
    let t = button_pass r s in
    let rest = response_times rs t in if responds s.control t.control then r.now_us ∷ rest else rest

-- Times that are each at least the debounce time after the one before, the first after `last`.
abbrev pub Apart : ℕ → List ℕ → Type 0
Apart last [] = Unit
Apart last (t ∷ ts) = (last + button_debounce_us ≤ t) × Apart t ts

Apart-weaken : (a b : ℕ) (ts : List ℕ) → Apart b ts → a ≤ b → Apart a ts
Apart-weaken a b [] h le = tt
Apart-weaken a b (t ∷ ts) (h, hs) le = (omega arith, hs)

Apart-if :
    (c : Bool) (last new now : ℕ) (ts : List ℕ)
    → Apart new ts
    → last ≤ new
    → (c ≡ true → (last + button_debounce_us ≤ now) × (new ≡ now))
    → Apart last (if c then now ∷ ts else ts)
Apart-if true last new now ts h le f = ((f refl).0, rw (← (f refl).1) h)
Apart-if false last new now ts h le f = Apart-weaken last new ts h le

responds-taken :
    (r : Readings) (s : ButtonTask)
    → responds s.control (button_pass r s).control ≡ true
    → taken r s ≡ true
responds-taken r s h = ground (arith, pass_lem r s)

-- However the line, the clock and the counter of edges behave, two responses to presses are never
-- less than 200 ms apart, and the first is that long after the task's last action.
pub response_times-Apart :
    (rs : List Readings) (s : ButtonTask) → Apart s.last_action_us (response_times rs s)
unfolding response_times
response_times-Apart [] s = tt
response_times-Apart (r ∷ rs) s =
    let t = button_pass r s in
    let after = (pass_lem r s).0 in
    Apart-if (responds s.control t.control) s.last_action_us t.last_action_us r.now_us
      (response_times rs t) (response_times-Apart rs t) (ground (arith, after))
      (λ h. let k = responds-taken r s h in ground (arith, after, k))

-- A pass at which nothing is pressed, while the panel task keeps lapping.
abbrev pub Untouched : ℕ → Readings → Type 0
Untouched edges r =
    (r.edges ≡ edges) × (r.high ≡ true) × (r.now_us < r.panel_at + panel_loop_stall_us)

note_lem :
    (r : Readings) (s : ButtonTask)
    → r.high ≡ true
    → (note_level r (note_edges r s)).last_edges ≡ r.edges
unfolding note_level note_edges
note_lem r s h = ground arith

press-edges : (b : Bool) (r : Readings) (s : ButtonTask) → (press b r s).last_edges ≡ s.last_edges
unfolding press act
press-edges b r s = ground arith

blank-edges : (r : Readings) (s : ButtonTask) → (blank r s).last_edges ≡ s.last_edges
unfolding blank
blank-edges r s = ground arith

redraw-edges : (r : Readings) (s : ButtonTask) → (redraw r s).last_edges ≡ s.last_edges
unfolding redraw
redraw-edges r s = ground arith

watch-edges :
    (r : Readings) (s : ButtonTask) → (watch_panel r (refresh_pull r s)).last_edges ≡ s.last_edges
unfolding watch_panel refresh_pull
watch-edges r s = ground arith

button_pass-edges :
    (r : Readings) (s : ButtonTask) → r.high ≡ true → (button_pass r s).last_edges ≡ r.edges
unfolding button_pass
button_pass-edges r s h =
    let n = note_level r (note_edges r s) in
    let p = press (edge_press r s || level_press r s) r n in
    watch-edges r (redraw r (blank r p))
    ∙ redraw-edges r (blank r p)
    ∙ blank-edges r p
    ∙ press-edges (edge_press r s || level_press r s) r n
    ∙ note_lem r s h

-- What an untouched pass keeps.
untouched_lem :
    (r : Readings) (s : ButtonTask)
    → Untouched s.last_edges r
    → s.restarted ≡ false
    → ((button_pass r s).last_edges ≡ s.last_edges)
      × ((button_pass r s).restarted ≡ false)
      × ((button_pass r s).last_interaction_us ≡ s.last_interaction_us)
      × ((button_pass r s).control.page ≡ s.control.page)
untouched_lem r s h live = ground (arith, pass_lem r s, button_pass-edges r s h.1)

Untouched-Dark :
    (r : Readings) (s : ButtonTask)
    → Untouched s.last_edges r
    → s.last_interaction_us + screen_blank_us ≤ r.now_us
    → (button_pass r s).control.screen_on ≡ false
Untouched-Dark r s h late = ground (arith, pass_lem r s)

-- While the button is left alone and the panel task keeps lapping its loop, a pass that comes
-- fifteen seconds or more after the last interaction finds or makes the screen dark, whatever
-- passes came before it, on the page that was shown.
pub button_loop-Dark :
    (rs : List Readings) (r : Readings) (s : ButtonTask)
    → s.restarted ≡ false
    → All (Untouched s.last_edges) (rs ++ (r ∷ []))
    → s.last_interaction_us + screen_blank_us ≤ r.now_us
    → let t = button_loop (rs ++ (r ∷ [])) s in
      (t.control.screen_on ≡ false) × (t.control.page ≡ s.control.page) × (t.restarted ≡ false)
unfolding button_loop
button_loop-Dark [] r s live (h, _) late =
    let k = untouched_lem r s h live in rw live (Untouched-Dark r s h late, k.3, k.1)
button_loop-Dark (q ∷ rs) r s live (h, hs) late =
    let k = untouched_lem q s h live in
    let rest = button_loop-Dark rs r (button_pass q s) k.1 (rw k.0 hs) (rw k.2 late) in
    rw live (rest.0, rest.1 ∙ k.3, rest.2)
