-- ===== src/Page/Tests.antt =====
-- The page scripts on a toy document, which meets what they take from jQuery.
use video_server.Base.{ℕ, ◌-◌, ◌≡◌, refl, Bool, true, false, [], ◌∷◌, some, ltb}
use video_server.Page.JQuery.{JQuery, ClassLaws}
use video_server.Page.Custom.{
  window_load, window_scroll, handle, on_load, run_handlers, custom_script, custom_script_marks,
}

-- How far down the bar is, and whether it is marked.
abbrev Toy : Type 0
Toy = ℕ × Bool

-- An element is told by whether it is an image; every element has an image in it.
abbrev toy : JQuery
toy = record {
  Document = Toy;
  Element = Bool;
  Number = ℕ;
  number = λ n. n;
  minus = λ a b. a - b;
  greater = λ a b. ltb b a;
  offset_top = λ s d. some d.0;
  has_class = λ s c d. d.1;
  add_class = λ s c d. (d.0, true);
  remove_class = λ s c d. (d.0, false);
  is_empty = λ s d. false;
  fade_out = λ s n d. d;
  collapse_hide = λ s d. d;
  stop = λ s d. d;
  animate = λ s top n d. (top, d.1);
  wow_init = λ m d. d;
  magnific_popup = λ s o d. d;
  is = λ s e. e;
  find = λ s e. true;
}

toy_laws : ClassLaws toy
toy_laws = record { has_class-add_class = λ s c d e. refl; has_class-remove_class = λ s c d. refl }

custom_script_marks_example :
    toy.has_class ".navbar-fixed-top" "top-nav-collapse"
      (custom_script toy (window_load ∷ window_scroll ∷ []) (70, false))
    ≡ true
unfolding custom_script run_handlers handle on_load
custom_script_marks_example =
    custom_script_marks toy toy_laws (window_load ∷ []) (70, false) 70 refl refl
