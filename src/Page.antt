-- ===== src/Page.antt =====
-- resources/js: the scripts of the site's pages (bin/resources/js holds the same files).
-- JQuery is what they take from jQuery, Custom is custom.js, Popup is magnific-popup-options.js.
pub mod JQuery
pub mod Custom
pub mod Popup
mod Tests
