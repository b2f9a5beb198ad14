-- ===== src/Page/Custom.antt =====
-- resources/js/custom.js: the preloader, the navigation bar and the smooth scrolling of the pages.
use Prim.Native.String.{String}
use video_server.Base.{
  ◌≡◌, refl, ◌∙◌, ap, ◌⊎◌, inl, inr, Bool, true, false, List, [], ◌∷◌, none, some, if◌then◌else◌,
  ◌++◌, not, Bool-cases, Option-cases,
}
use video_server.Page.JQuery.{JQuery, ClassLaws}

-- The events that the script listens to.
pub data Event : Type 0 where
  window_load : Event
  collapse_link_click : Event
  window_scroll : Event
  -- A click on `.custom-navbar a, #home a`, with the link's `href`.
  anchor_click : String → Event

module _ (q : JQuery) where
  open q use {
    Document, number, minus, greater, offset_top, has_class, add_class, remove_class, fade_out,
    collapse_hide, stop, animate, wow_init,
  }

  -- How a handler ends: the document, whether `preventDefault` was called, whether it threw.
  pub record Outcome : Type 0 where
    pub document : Document
    pub default_prevented : Bool
    pub threw : Bool

  abbrev pub done : Document → Outcome
  done d = record { document = d; default_prevented = false; threw = false }

  abbrev pub thrown : Document → Outcome
  thrown d = record { document = d; default_prevented = false; threw = true }

  unfoldable pub on_load : Document → Outcome
  on_load d = done (fade_out ".preloader" 1000 d)

  pub on_collapse_link_click : Document → Outcome
  on_collapse_link_click d = done (collapse_hide ".navbar-collapse" d)

  pub on_scroll : Document → Outcome
  on_scroll d = elim (offset_top ".navbar" d) [
    | none ↦ thrown d
    | some top ↦
        if greater top (number 50)
        then done (add_class ".navbar-fixed-top" "top-nav-collapse" d)
        else done (remove_class ".navbar-fixed-top" "top-nav-collapse" d)
  ]

  -- `stop()` has been called when the argument of `animate` throws.
  pub on_anchor_click : String → Document → Outcome
  on_anchor_click href d =
      let stopped = stop "html, body" d in
      elim (offset_top href stopped) [
        | none ↦ thrown stopped
        | some top ↦ record {
          document = animate "html, body" (minus top (number 49)) 1000 stopped;
          default_prevented = true;
          threw = false;
        }
      ]

  unfoldable pub handle : Event → Document → Outcome
  handle window_load d = on_load d
  handle collapse_link_click d = on_collapse_link_click d
  handle window_scroll d = on_scroll d
  handle (anchor_click href) d = on_anchor_click href d

  unfoldable pub run_handlers : List Event → Document → Document
  run_handlers [] d = d
  run_handlers (v ∷ vs) d = run_handlers vs (handle v d).document

  -- The script: `WOW` at once, then the handlers as the events come.
  unfoldable pub custom_script : List Event → Document → Document
  custom_script events d = run_handlers events (wow_init false d)

  run_handlers-append :
      (vs ws : List Event) (d : Document)
      → run_handlers (vs ++ ws) d ≡ run_handlers ws (run_handlers vs d)
  unfolding run_handlers
  run_handlers-append [] ws d = refl
  run_handlers-append (v ∷ vs) ws d = run_handlers-append vs ws (handle v d).document

  on_scroll_marks :
      (laws : ClassLaws q) (d : Document) (top : q.Number)
      → q.is_empty ".navbar-fixed-top" d ≡ false
      → offset_top ".navbar" d ≡ some top
      → has_class ".navbar-fixed-top" "top-nav-collapse" (on_scroll d).document
        ≡ greater top (number 50)
  unfolding on_scroll
  on_scroll_marks laws d top there e =
      rw (e, on_scroll)
        (elim (Bool-cases (greater top (number 50))) [
          | inl far ↦
              rw far (laws.has_class-add_class ".navbar-fixed-top" "top-nav-collapse" d there)
          | inr near ↦
              rw near (laws.has_class-remove_class ".navbar-fixed-top" "top-nav-collapse" d)
        ])

  -- Whatever happened on the page before, a scroll leaves the fixed bar marked exactly if the bar
  -- is then more than 50 pixels down the page, provided that there are a bar and a fixed bar.
  pub custom_script_marks :
      (laws : ClassLaws q) (vs : List Event) (d : Document) (top : q.Number)
      → q.is_empty ".navbar-fixed-top" (custom_script vs d) ≡ false
      → offset_top ".navbar" (custom_script vs d) ≡ some top
      → has_class ".navbar-fixed-top" "top-nav-collapse"
          (custom_script (vs ++ window_scroll ∷ []) d)
        ≡ greater top (number 50)
  unfolding custom_script handle run_handlers
  custom_script_marks laws vs d top there e =
      ap (has_class ".navbar-fixed-top" "top-nav-collapse")
        (run_handlers-append vs (window_scroll ∷ []) (wow_init false d))
      ∙ on_scroll_marks laws (run_handlers vs (wow_init false d)) top there e

  -- A click takes over from the browser exactly if its target has a place on the page; otherwise
  -- the handler throws, and has done no more than stop the running animation.
  pub on_anchor_click_takes_over :
      (href : String) (d : Document)
      → ((on_anchor_click href d).default_prevented ≡ not (on_anchor_click href d).threw)
        × (((on_anchor_click href d).threw ≡ false)
            ⊎ ((on_anchor_click href d).document ≡ stop "html, body" d))
  unfolding on_anchor_click
  on_anchor_click_takes_over href d = elim (Option-cases (offset_top href (stop "html, body" d))) [
    | inl e ↦ rw (e, on_anchor_click) (refl, inr refl)
    | inr (top, e) ↦ rw (e, on_anchor_click) (refl, inl refl)
  ]
