-- ===== src/Http/Request/Form.antt =====
-- `ConverHex` and `ParseFromUrlencoded_`: the form in a request's body.
-- A `%` with fewer than two bytes after it is written past the end of the text, which C++ leaves
-- undefined: the model aborts there.
pub mod Encoded
pub mod Rounds
pub mod Ends
use video_server.Base.{
  ℕ, zero, suc, ◌+◌, ◌-◌, List, [], ◌++◌, Bool, ◌&&◌, Option, none, some, length, get_or, set, take,
  drop, ltb, leb, ◌==◌, if◌then◌else◌,
}
use video_server.Base.Int.{ℤ, pos, ◌+ℤ◌, times, quotient, remainder, of_char, to_char}
use video_server.Base.Run.{Run, ok, abort, out_of_fuel, ◌>>=◌, ◌>>◌, check}
use video_server.Base.Text.{Dictionary, lookup, insert}

-- Of a hex digit only a letter is converted.
abbrev pub conver_hex : ℕ → ℤ
conver_hex ch =
    if leb b'A' ch && leb ch b'F'
    then pos (ch - b'A' + 10)
    else if leb b'a' ch && leb ch b'f'
    then pos (ch - b'a' + 10)
    else of_char ch

-- The variables of the loop, and the members that it changes.
pub record Form : Type 0 where
  pub i : ℕ
  pub j : ℕ
  pub key : List ℕ
  pub text : List ℕ
  pub post : Dictionary (List ℕ)

-- `body_.substr(j, i - j)`
abbrev pub since_mark : Form → List ℕ
since_mark f = take (f.i - f.j) (drop f.j f.text)

-- The case of a `%`, without the `i++` of the loop.
abbrev pub percent : Form → Form
percent f =
    let num =
      times (conver_hex (get_or f.text (f.i + 1) 0)) 16 +ℤ conver_hex (get_or f.text (f.i + 2) 0) in
    let low = set f.text (f.i + 2) (to_char (remainder num 10 +ℤ pos b'0')) in
    record f { i = f.i + 2; text = set low (f.i + 1) (to_char (quotient num 10 +ℤ pos b'0')) }

-- The `switch`.
pub form_case : Form → Run Form
form_case f =
    let ch = get_or f.text f.i 0 in
    if ch == b'='
    then ok (record f { key = since_mark f; j = f.i + 1 })
    else if ch == b'+'
    then ok (record f { text = set f.text f.i b' ' })
    else if ch == b'%'
    then (if ltb (f.i + 2) (length f.text) then ok (percent f) else abort)
    else if ch == b'&'
    then ok (record f { j = f.i + 1; post = insert f.key (since_mark f) f.post })
    else ok f

-- The `for` loop, of at most as many rounds as there are bytes.
pub form_loop : ℕ → Form → Run Form
form_loop zero f = out_of_fuel
form_loop (suc fuel) f =
    let rest = form_case f >>= λ g. form_loop fuel (record g { i = g.i + 1 }) in
    if ltb f.i (length f.text) then rest else ok f

abbrev pub is_missing : List ℕ → Dictionary (List ℕ) → Bool
is_missing key post = elim (lookup key post) [ none ↦ Bool.true | some v ↦ Bool.false ]

abbrev pub form_start : List ℕ → Dictionary (List ℕ) → Form
form_start text post = record { i = 0; j = 0; key = []; text = text; post = post }

-- What comes after the loop.
abbrev pub form_end : Form → Run Form
form_end f = do
  check (leb f.j f.i)
  ok (
      if is_missing f.key f.post && ltb f.j f.i
      then record f { post = insert f.key (since_mark f) f.post }
      else f)

-- Returns the body and `post_`.
pub parse_from_urlencoded : List ℕ → Dictionary (List ℕ) → Run (List ℕ × Dictionary (List ℕ))
parse_from_urlencoded text post =
    let whole = form_loop (length text + 1) (form_start text post) >>= form_end in
    if length text == 0 then ok (text, post) else whole >>= λ g. ok (g.text, g.post)
