-- ===== src/Page/Popup.antt =====
-- resources/js/magnific-popup-options.js: the picture gallery.
use video_server.Base.{◌≡◌, inl, inr, true, if◌then◌else◌, Bool-cases}
use video_server.Page.JQuery.{JQuery, PopupOptions}

module _ (q : JQuery) where
  open q use {Document, Element, magnific_popup, is, find}

  -- The element that the popup is zoomed out of.
  pub opener : Element → Element
  opener e = if is "img" e then e else find "img" e

  pub popup_options : PopupOptions Element
  popup_options = record {
    item_type = "image";
    removal_delay = 300;
    main_class = "mfp-with-zoom";
    gallery_enabled = true;
    zoom_enabled = true;
    duration = 300;
    easing = "ease-in-out";
    opener = opener;
  }

  pub magnif_popup : Document → Document
  magnif_popup d = magnific_popup ".image-popup" popup_options d

  -- The handler of `$(document).ready`.
  pub on_ready : Document → Document
  on_ready d = magnif_popup d

  -- If what `find` gives is an image, the popup zooms out of an image wherever it was opened.
  pub opener_is_image :
      (e : Element) → is "img" (find "img" e) ≡ true → is "img" (popup_options.opener e) ≡ true
  unfolding popup_options opener
  opener_is_image e h = elim (Bool-cases (is "img" e)) [
    | inl image ↦ rw image image
    | inr other ↦ rw other h
  ]
