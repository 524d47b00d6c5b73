-- ===== src/Ui/Panel/Frames.antt =====
-- What the screen shows under any order of the two tasks' steps, src/ui_task.rs.
use rust_gps_ntp.Common.{
  ℕ, suc, Bool, ◌+◌, ◌%◌, ◌^◌, ◌<◌, ◌≤◌, ◌≡◌, refl, ap, ◌∙◌, ◌⊎◌, inl, inr, true, false, Option,
  some, not, ◌==◌, ==_iff, Bool-cases, if◌then◌else◌, arith,
}
use rust_gps_ntp.Display.{Page, from_index, eq_page_sound, eq_page_refl}
use rust_gps_ntp.Ui.Panel.{
  Phase, Screen, screen_start, panel_step_at, turn_page, set_screen, request, Step, counted, panel,
  turn, switch, count, Reach, start, next, run_frame,
}

-- A drawing that is under way is newer than the last one that counts, and one whose page has been
-- compared shows the page, unless it is due to be redrawn.
abbrev pub InPhase : Phase → Screen → Type 0
InPhase Phase.top s = Unit
InPhase (Phase.loaded req) s = (s.last_drawn ≤ req) × (req ≤ s.control.render_req)
InPhase (Phase.switched req) s = (s.last_drawn < req) × (req ≤ s.control.render_req)
InPhase (Phase.drawing req page) s = (s.last_drawn < req) × (req ≤ s.control.render_req)
InPhase (Phase.drawn req page) s =
    (s.last_drawn < req) × (req ≤ s.control.render_req) × (s.shown ≡ some page)
InPhase (Phase.matched req page) s =
    (s.last_drawn < req)
    × (req ≤ s.control.render_req)
    × (s.shown ≡ some page)
    × ((s.due ≡ true) ⊎ (req < s.control.render_req) ⊎ (page ≡ from_index s.control.page))
InPhase Phase.sensors s = Unit

abbrev pub Counted : ℕ → Screen → Type 0
Counted n s =
    (s.control.render_req ≡ n + 1)
    × (s.last_drawn ≤ s.control.render_req)
    × ((s.due ≡ true)
        ⊎ (s.last_drawn < s.control.render_req)
        ⊎ (s.shown ≡ some (from_index s.control.page)))
    × InPhase s.phase s

panel_step-Counted :
    (n : ℕ) (p : Phase) (s : Screen)
    → s.phase ≡ p
    → Counted n s
    → InPhase p s
    → Counted n (panel_step_at p s)
unfolding panel_step_at
panel_step-Counted n Phase.top s e h k = ground arith
panel_step-Counted n (Phase.loaded req) s e h k = ground arith
panel_step-Counted n (Phase.switched req) s e h k = ground arith
panel_step-Counted n (Phase.drawing req page) s e h k = ground arith
panel_step-Counted n (Phase.drawn req page) s e h k =
    ground (arith, eq_page_sound (from_index s.control.page) page)
panel_step-Counted n (Phase.matched req page) s e h k = ground arith
panel_step-Counted n Phase.sensors s e h k = ground arith

turn_page-InPhase : (p : Phase) (s : Screen) → InPhase p s → InPhase p (turn_page s)
unfolding turn_page
turn_page-InPhase Phase.top s k = ground arith
turn_page-InPhase (Phase.loaded req) s k = ground arith
turn_page-InPhase (Phase.switched req) s k = ground arith
turn_page-InPhase (Phase.drawing req page) s k = ground arith
turn_page-InPhase (Phase.drawn req page) s k = ground arith
turn_page-InPhase (Phase.matched req page) s k = ground arith
turn_page-InPhase Phase.sensors s k = ground arith

set_screen-InPhase :
    (on : Bool) (p : Phase) (s : Screen) → InPhase p s → InPhase p (set_screen on s)
unfolding set_screen
set_screen-InPhase on Phase.top s k = ground arith
set_screen-InPhase on (Phase.loaded req) s k = ground arith
set_screen-InPhase on (Phase.switched req) s k = ground arith
set_screen-InPhase on (Phase.drawing req page) s k = ground arith
set_screen-InPhase on (Phase.drawn req page) s k = ground arith
set_screen-InPhase on (Phase.matched req page) s k = ground arith
set_screen-InPhase on Phase.sensors s k = ground arith

request-InPhase :
    (p : Phase) (s : Screen)
    → s.control.render_req + 1 < 2 ^ 32
    → InPhase p s
    → InPhase p (request s)
unfolding request
request-InPhase Phase.top s f k = ground arith
request-InPhase (Phase.loaded req) s f k = ground arith
request-InPhase (Phase.switched req) s f k = ground arith
request-InPhase (Phase.drawing req page) s f k = ground arith
request-InPhase (Phase.drawn req page) s f k = ground arith
request-InPhase (Phase.matched req page) s f k = ground arith
request-InPhase Phase.sensors s f k = ground arith

turn_page-Counted : (n : ℕ) (s : Screen) → Counted n s → Counted n (turn_page s)
unfolding turn_page
turn_page-Counted n s (a, b, c, d) = (a, b, inl refl, turn_page-InPhase s.phase s d)

set_screen-Counted : (on : Bool) (n : ℕ) (s : Screen) → Counted n s → Counted n (set_screen on s)
unfolding set_screen
set_screen-Counted on n s (a, b, c, d) = (a, b, c, set_screen-InPhase on s.phase s d)

request-Counted :
    (n : ℕ) (s : Screen) → suc n + 1 < 2 ^ 32 → Counted n s → Counted (suc n) (request s)
unfolding request
request-Counted n s f (a, b, c, d) =
    let fits : (s.control.render_req + 1) % 2 ^ 32 ≡ n + 2 = omega arith in
    (omega arith, omega arith, inr (inl (omega arith)), request-InPhase s.phase s (omega arith) d)

Step-Counted :
    (n : ℕ) {s t : Screen} (st : Step s t)
    → counted st n + 1 < 2 ^ 32
    → Counted n s
    → Counted (counted st n) t
Step-Counted n {s = s} panel f h = panel_step-Counted n s.phase s refl h h.3
Step-Counted n {s = s} turn f h = turn_page-Counted n s h
Step-Counted n {s = s} (switch on) f h = set_screen-Counted on n s h
Step-Counted n {s = s} count f h = request-Counted n s f h

counted-ge : {s t : Screen} (st : Step s t) (n : ℕ) → n ≤ counted st n
counted-ge panel n = omega arith
counted-ge turn n = omega arith
counted-ge (switch _) n = omega arith
counted-ge count n = omega arith

Reach-Counted : {n : ℕ} {s : Screen} → Reach n s → n + 1 < 2 ^ 32 → Counted n s
unfolding screen_start
Reach-Counted start f = ground arith
Reach-Counted (next {n = n} r st) f =
    Step-Counted n st f (Reach-Counted r (omega (arith, counted-ge st n)))

-- However the loads and stores of the two tasks are ordered, while fewer than 2^32 - 1 frames have
-- been requested: once every press has been counted, a frame that the panel task takes for the
-- latest one shows the page that is selected.
pub Reach-Shows :
    {n : ℕ} {s : Screen}
    → Reach n s
    → n + 1 < 2 ^ 32
    → s.due ≡ false
    → s.last_drawn ≡ s.control.render_req
    → s.shown ≡ some (from_index s.control.page)
Reach-Shows r f d e = ground (arith, Reach-Counted r f)

-- A pass of the panel task alone, over a lit screen.
abbrev lit_at : Screen → ℕ → Option Page → Phase → Screen
lit_at s drawn_last showing at = record {
  control = record s.control { screen_on = true };
  due = s.due;
  last_drawn = drawn_last;
  shown = showing;
  phase = at;
}

run_frame-draws :
    (s : Screen)
    → (s.control.render_req == s.last_drawn) ≡ false
    → run_frame 6 (lit_at s s.last_drawn s.shown Phase.top)
      ≡ lit_at s s.control.render_req (some (from_index s.control.page)) Phase.sensors
unfolding run_frame panel_step_at
run_frame-draws s new =
    let req = s.control.render_req in
    let page = from_index s.control.page in
    ap
      (λ b. run_frame 4 (
        if not b
        then lit_at s s.last_drawn s.shown (Phase.switched req)
        else lit_at s s.last_drawn s.shown Phase.sensors))
      new
    ∙ ap
        (λ b. run_frame 1 (
          if b
          then lit_at s s.last_drawn (some page) (Phase.matched req page)
          else lit_at s s.last_drawn (some page) Phase.sensors))
        (eq_page_refl page)
    ∙ ap
        (λ b. run_frame 0 (
          if b
          then lit_at s req (some page) Phase.sensors
          else lit_at s s.last_drawn (some page) Phase.sensors))
        ((==_iff req req).1 refl)

run_frame-rests :
    (s : Screen)
    → (s.control.render_req == s.last_drawn) ≡ true
    → run_frame 6 (lit_at s s.last_drawn s.shown Phase.top)
      ≡ lit_at s s.last_drawn s.shown Phase.sensors
unfolding run_frame panel_step_at
run_frame-rests s same =
    ap
      (λ b. run_frame 4 (
        if not b
        then lit_at s s.last_drawn s.shown (Phase.switched s.control.render_req)
        else lit_at s s.last_drawn s.shown Phase.sensors))
      same

lit_at_self :
    (s : Screen)
    → s.control.screen_on ≡ true
    → s.phase ≡ Phase.top
    → run_frame 6 s ≡ run_frame 6 (lit_at s s.last_drawn s.shown Phase.top)
lit_at_self s on top =
    λ i. run_frame 6 (record s { control = record s.control { screen_on = on i }; phase = top i })

-- From any state that the tasks reach, under the same bound, with the screen lit, every press
-- counted and the panel task at the top of its loop: when the button task rests, the panel task's
-- next pass ends with the selected page on the screen and no frame left to draw.
pub run_frame-Shows :
    {n : ℕ} {s : Screen}
    → Reach n s
    → n + 1 < 2 ^ 32
    → s.due ≡ false
    → s.control.screen_on ≡ true
    → s.phase ≡ Phase.top
    → let t = run_frame 6 s in
      (t.phase ≡ Phase.sensors)
      × (t.last_drawn ≡ s.control.render_req)
      × (t.shown ≡ some (from_index s.control.page))
run_frame-Shows {s = s} r f d on top =
    let i = Reach-Counted r f in
    let self = lit_at_self s on top in
    elim (Bool-cases (s.control.render_req == s.last_drawn)) [
      | inl same ↦
          rw (self, run_frame-rests s same) (refl, ground (arith, same), ground (arith, i, same))
      | inr new ↦ rw (self, run_frame-draws s new) (refl, refl, refl)
    ]
