-- ===== src/Ui/Button/Passes.antt =====
-- What one pass of the button task does to the screen, to the page and to the chip, src/ui_task.rs.
use rust_gps_ntp.Common.{
  ℕ, ◌+◌, ◌-◌, ◌≤◌, ◌≡◌, ◌≢◌, ◌↔◌, ◌⊎◌, refl, ap, ◌∙◌, Bool, true, ◌&&◌, ◌||◌, not, leb, ◌==◌,
  if◌then◌else◌, arith,
}
use rust_gps_ntp.Common.Words.{u32}
use rust_gps_ntp.Display.{next_page, index, from_index}
use rust_gps_ntp.Ui.{
  UiControl, draw_interval_us, screen_blank_us, button_debounce_us, panel_loop_stall_us,
}
use rust_gps_ntp.Ui.Button.{
  Readings, ButtonTask, edge_press, level_press, note_edges, held_low, note_level, act, press,
  blank, redraw, refresh_pull, watch_panel, button_pass,
}

-- What the first stages leave alone.
abbrev pub Same : ButtonTask → ButtonTask → Type 0
Same s t =
    (t.control ≡ s.control)
    × (t.last_action_us ≡ s.last_action_us)
    × (t.last_interaction_us ≡ s.last_interaction_us)
    × (t.last_redraw_req_us ≡ s.last_redraw_req_us)
    × (t.restarted ≡ s.restarted)

note_edges-Same : (r : Readings) (s : ButtonTask) → Same s (note_edges r s)
unfolding note_edges
note_edges-Same r s = ground arith

held_low-Same : (r : Readings) (s : ButtonTask) → Same s (held_low r s)
unfolding held_low
held_low-Same r s = ground arith

note_level-Same : (r : Readings) (s : ButtonTask) → Same s (note_level r s)
unfolding note_level
note_level-Same r s = ground (arith, held_low-Same r (record s { last_level_pressed = not r.high }))

pub notes-Same : (r : Readings) (s : ButtonTask) → Same s (note_level r (note_edges r s))
notes-Same r s =
    let a = note_edges-Same r s in
    let b = note_level-Same r (note_edges r s) in
    (b.0 ∙ a.0, b.1 ∙ a.1, b.2 ∙ a.2, b.3 ∙ a.3, b.4 ∙ a.4)

-- A press is taken: an edge or a fresh low level, and the last action is long enough ago.
abbrev pub taken : Readings → ButtonTask → Bool
taken r s =
    (edge_press r s || level_press r s) && leb button_debounce_us (r.now_us - s.last_action_us)

-- The last stages, at the task after the press.
abbrev pub finish : Readings → ButtonTask → ButtonTask
finish r s = watch_panel r (refresh_pull r (redraw r (blank r s)))

refresh_pull-Same : (r : Readings) (s : ButtonTask) → Same s (refresh_pull r s)
unfolding refresh_pull
refresh_pull-Same r s = ground arith

watch_panel_lem :
    (r : Readings) (s : ButtonTask)
    → ((watch_panel r s).control ≡ s.control)
      × ((watch_panel r s).last_action_us ≡ s.last_action_us)
      × ((watch_panel r s).last_interaction_us ≡ s.last_interaction_us)
unfolding watch_panel
watch_panel_lem r s = ground arith

-- The control after the press, the screen after the blanking, and whether the chip restarts.
abbrev pub control_after_press : Bool → UiControl → UiControl
control_after_press taken c =
    if taken
    then record {
      page = if c.screen_on then index (next_page (from_index c.page)) else c.page;
      screen_on = true;
      render_req = u32 (c.render_req + 1);
    }
    else c

abbrev pub stalled : Readings → Bool
stalled r = not (r.panel_at == 0) && leb panel_loop_stall_us (r.now_us - r.panel_at)

press_lem :
    (pressed : Bool) (r : Readings) (s : ButtonTask)
    → let taken = pressed && leb button_debounce_us (r.now_us - s.last_action_us) in
      let t = press pressed r s in
      (t.control ≡ control_after_press taken s.control)
      × (t.last_action_us ≡ (if taken then r.now_us else s.last_action_us))
      × (t.last_interaction_us ≡ (if taken then r.now_us else s.last_interaction_us))
      × (t.last_redraw_req_us ≡ (if taken then r.now_us else s.last_redraw_req_us))
      × (t.restarted ≡ s.restarted)
unfolding press act
press_lem pressed r s = ground arith

blank_lem :
    (r : Readings) (s : ButtonTask)
    → let t = blank r s in
      (t.control.page ≡ s.control.page)
      × (t.control.render_req ≡ s.control.render_req)
      × (t.control.screen_on
          ≡ (s.control.screen_on && not (leb screen_blank_us (r.now_us - s.last_interaction_us))))
      × (t.last_action_us ≡ s.last_action_us)
      × (t.last_interaction_us ≡ s.last_interaction_us)
      × (t.last_redraw_req_us ≡ s.last_redraw_req_us)
      × (t.restarted ≡ s.restarted)
unfolding blank
blank_lem r s = ground arith

redraw_lem :
    (r : Readings) (s : ButtonTask)
    → let t = redraw r s in
      (t.control.page ≡ s.control.page)
      × (t.control.screen_on ≡ s.control.screen_on)
      × (t.control.render_req ≡ (
          if s.control.screen_on && leb draw_interval_us (r.now_us - s.last_redraw_req_us)
          then u32 (s.control.render_req + 1)
          else s.control.render_req))
      × (t.last_action_us ≡ s.last_action_us)
      × (t.last_interaction_us ≡ s.last_interaction_us)
      × (t.restarted ≡ s.restarted)
unfolding redraw
redraw_lem r s = ground arith

watch_panel-restarted :
    (r : Readings) (s : ButtonTask)
    → (watch_panel r s).restarted ≡ (s.restarted || (stalled r && r.high_later))
unfolding watch_panel
watch_panel-restarted r s = ground arith

-- The last action and interaction once a press has been dealt with, and the screen at the end.
abbrev pub time_after : Bool → ℕ → ℕ → ℕ
time_after taken now last = if taken then now else last

abbrev pub lit_after : Bool → Readings → ButtonTask → Bool
lit_after taken r s =
    (control_after_press taken s.control).screen_on
    && not (leb screen_blank_us (r.now_us - time_after taken r.now_us s.last_interaction_us))

abbrev pub request_after : Bool → Readings → ButtonTask → ℕ
request_after taken r s =
    let req = (control_after_press taken s.control).render_req in
    if lit_after taken r s
      && leb draw_interval_us (r.now_us - time_after taken r.now_us s.last_redraw_req_us)
    then u32 (req + 1)
    else req

abbrev pub Passed : Bool → Readings → ButtonTask → ButtonTask → Type 0
Passed taken r s t =
    (t.last_action_us ≡ time_after taken r.now_us s.last_action_us)
    × (t.last_interaction_us ≡ time_after taken r.now_us s.last_interaction_us)
    × (t.control.page ≡ (control_after_press taken s.control).page)
    × (t.control.screen_on ≡ lit_after taken r s)
    × (t.control.render_req ≡ request_after taken r s)
    × (t.restarted ≡ (s.restarted || (stalled r && r.high_later)))

-- The stages from the press on, and then the whole pass.
press-finish_lem :
    (pressed : Bool) (r : Readings) (s : ButtonTask)
    → Passed
        (pressed && leb button_debounce_us (r.now_us - s.last_action_us))
        r
        s
        (finish r (press pressed r s))
press-finish_lem pressed r s =
    let p = press pressed r s in
    let a = press_lem pressed r s in
    let b = blank_lem r p in
    let c = redraw_lem r (blank r p) in
    let d = refresh_pull-Same r (redraw r (blank r p)) in
    let e = watch_panel_lem r (refresh_pull r (redraw r (blank r p))) in
    let f = watch_panel-restarted r (refresh_pull r (redraw r (blank r p))) in
    let g : (finish r p).control ≡ (redraw r (blank r p)).control = e.0 ∙ d.0 in
    (
      e.1 ∙ d.1 ∙ c.3 ∙ b.3 ∙ a.1,
      e.2 ∙ d.2 ∙ c.4 ∙ b.4 ∙ a.2,
      ap (λ k. k.page) g ∙ c.0 ∙ b.0 ∙ ap (λ k. k.page) a.0,
      ap (λ k. k.screen_on) g ∙ c.1 ∙ b.2 ∙ rw (a.0, a.2) refl,
      ap (λ k. k.render_req) g ∙ c.2 ∙ rw (b.1, b.2, b.5, a.0, a.2, a.3) refl,
      f ∙ ap (λ k. k || (stalled r && r.high_later)) (d.4 ∙ c.5 ∙ b.6 ∙ a.4),
    )

Passed-Same :
    (pressed : Bool) (r : Readings) (s n t : ButtonTask)
    → Same s n
    → Passed (pressed && leb button_debounce_us (r.now_us - n.last_action_us)) r n t
    → Passed (pressed && leb button_debounce_us (r.now_us - s.last_action_us)) r s t
Passed-Same pressed r s n t (e, f, g, h, k) p = rw (e, f, g, h, k) at p

pub pass_lem : (r : Readings) (s : ButtonTask) → Passed (taken r s) r s (button_pass r s)
unfolding button_pass
pass_lem r s =
    let n = note_level r (note_edges r s) in
    let pressed = edge_press r s || level_press r s in
    Passed-Same pressed r s n (finish r (press pressed r n)) (notes-Same r s)
      (press-finish_lem pressed r n)

-- The control at the end of a pass, by whether a press is taken. If it is, the screen is lit, one
-- frame is requested, and the next page is turned to if the screen was lit: a press in the dark only
-- wakes. If none is, the page stays, a dark screen stays dark, a lit one goes dark after fifteen
-- seconds without a press, and a frame is requested if it stays lit and the last request is five
-- seconds old.
pub button_pass-control :
    (r : Readings) (s : ButtonTask)
    → let c = s.control in
      let lit = c.screen_on && not (leb screen_blank_us (r.now_us - s.last_interaction_us)) in
      (button_pass r s).control ≡ (
        if taken r s
        then record {
          page = if c.screen_on then index (next_page (from_index c.page)) else c.page;
          screen_on = true;
          render_req = u32 (c.render_req + 1);
        }
        else record {
          page = c.page;
          screen_on = lit;
          render_req =
              if lit && leb draw_interval_us (r.now_us - s.last_redraw_req_us)
              then u32 (c.render_req + 1)
              else c.render_req;
        })
button_pass-control r s = ground (arith, pass_lem r s)

-- A pass ends in a restart exactly if one has been called before, or the panel task has lapped its
-- loop once and then not for five seconds while the button's line reads high. Neither a press nor
-- the blanking of the screen delays it.
button_pass-restarted_iff :
    (r : Readings) (s : ButtonTask)
    → ((button_pass r s).restarted ≡ true) ↔ (
        (s.restarted ≡ true)
        ⊎ ((r.panel_at ≢ 0)
            × (r.panel_at + panel_loop_stall_us ≤ r.now_us)
            × (r.high_later ≡ true)))
button_pass-restarted_iff r s = ground (arith, (pass_lem r s).5)
