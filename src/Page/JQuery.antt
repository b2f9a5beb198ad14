-- ===== src/Page/JQuery.antt =====
-- What custom.js and magnific-popup-options.js use of jQuery, its plugins and the browser.
-- These are not part of the program: a document, its numbers and its elements are any types.
use Prim.Native.String.{String}
use video_server.Base.{ℕ, ◌≡◌, Bool, true, false, Option}

-- The options that `magnificPopup` is called with.
pub record PopupOptions (Element : Type 0) : Type 0 where
  pub item_type : String
  pub removal_delay : ℕ
  pub main_class : String
  pub gallery_enabled : Bool
  pub zoom_enabled : Bool
  pub duration : ℕ
  pub easing : String
  pub opener : Element → Element

pub record JQuery : Type 1 where
  pub Document : Type 0
  pub Element : Type 0
  -- JavaScript numbers, such as a distance in pixels.
  pub Number : Type 0
  pub number : ℕ → Number
  pub minus : Number → Number → Number
  pub greater : Number → Number → Bool
  -- `$(s).offset().top`; `none` is an exception: `s` is no selector, or selects nothing.
  pub offset_top : String → Document → Option Number
  pub has_class : String → String → Document → Bool
  pub add_class : String → String → Document → Document
  pub remove_class : String → String → Document → Document
  pub is_empty : String → Document → Bool
  pub fade_out : String → ℕ → Document → Document
  pub collapse_hide : String → Document → Document
  pub stop : String → Document → Document
  -- `$(s).animate({scrollTop: top}, duration)`
  pub animate : String → Number → ℕ → Document → Document
  -- `new WOW({ mobile: m }).init()`
  pub wow_init : Bool → Document → Document
  pub magnific_popup : String → PopupOptions Element → Document → Document
  -- `element.is(s)`, `element.find(s)`
  pub is : String → Element → Bool
  pub find : String → Element → Element

-- What jQuery documents of `addClass` and `removeClass`: they decide `hasClass` on what they
-- select, if that is not empty.
pub record ClassLaws (q : JQuery) : Type 0 where
  pub has_class-add_class :
      (s c : String) (d : q.Document)
      → q.is_empty s d ≡ false
      → q.has_class s c (q.add_class s c d) ≡ true
  pub has_class-remove_class :
      (s c : String) (d : q.Document) → q.has_class s c (q.remove_class s c d) ≡ false
