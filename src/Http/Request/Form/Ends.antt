-- ===== src/Http/Request/Form/Ends.antt =====
-- `ParseFromUrlencoded_` comes to its end on every body without a `%`.
use video_server.Base.{
  ℕ, zero, suc, ◌+◌, ◌≤◌, ◌<◌, ◌≡◌, refl, false, inl, inr, List, [], ◌∷◌, arith, length, get_or,
  set, ltb, le→leb, ◌==◌, Bool-cases, get_or-set, length-set,
}
use video_server.Base.Run.{Ensures, ensures, Ensures-bind}
use video_server.Base.Text.{Dictionary, has_byte}
use video_server.Http.Request.Form.{
  Form, form_case, form_loop, form_start, form_end, parse_from_urlencoded,
}

abbrev pub NoPercent : List ℕ → Type 0
NoPercent s = (i : ℕ) → (get_or s i 0 == b'%') ≡ false

pub has_byte-NoPercent : (s : List ℕ) → has_byte b'%' s ≡ false → NoPercent s
has_byte-NoPercent [] h i = refl
has_byte-NoPercent (c ∷ s) h zero = ground arith
has_byte-NoPercent (c ∷ s) h (suc i) = has_byte-NoPercent s (ground arith) i

-- What a round of the loop keeps.
abbrev Kept : Form → Form → Type 0
Kept f g = (g.i ≡ f.i) × ((g.j ≤ suc f.i) × ((length g.text ≡ length f.text) × NoPercent g.text))

NoPercent-set : (s : List ℕ) (i : ℕ) → i < length s → NoPercent s → NoPercent (set s i b' ')
NoPercent-set s i h none_here k = ground (arith, get_or-set s i k b' ' 0 h, none_here k)

form_case-Kept :
    (f : Form) → f.i < length f.text → f.j ≤ f.i → NoPercent f.text → Ensures (Kept f) (form_case f)
unfolding form_case
form_case-Kept f inside below none_here = elim (Bool-cases (get_or f.text f.i 0 == b'=')) [
  | inl e ↦ rw e (ensures (refl, (omega arith, (refl, none_here))))
  | inr e ↦ elim (Bool-cases (get_or f.text f.i 0 == b'+')) [
    | inl p ↦
        rw (e, p)
          (ensures (
            refl,
            (omega arith, (length-set f.text f.i b' ', NoPercent-set f.text f.i inside none_here)),
          ))
    | inr p ↦ elim (Bool-cases (get_or f.text f.i 0 == b'&')) [
      | inl a ↦ rw (e, p, none_here f.i, a) (ensures (refl, (omega arith, (refl, none_here))))
      | inr a ↦ rw (e, p, none_here f.i, a) (ensures (refl, (omega arith, (refl, none_here))))
    ]
  ]
]

form_loop_ends :
    (fuel : ℕ) (f : Form)
    → length f.text < fuel + f.i
    → f.i ≤ length f.text
    → f.j ≤ f.i
    → NoPercent f.text
    → Ensures (λ g. g.j ≤ g.i) (form_loop fuel f)
unfolding form_loop
form_loop_ends zero f enough inside below none_here = absurd (omega arith)
form_loop_ends (suc fuel) f enough inside below none_here =
    elim (Bool-cases (ltb f.i (length f.text))) [
      | inl more ↦ rw more (
          Ensures-bind (form_case-Kept f (ground arith) below none_here) λ g k.
            form_loop_ends fuel (record g { i = g.i + 1 }) (omega (arith, k)) (ground (arith, k))
              (omega (arith, k)) k.1.1.1)
      | inr done ↦ rw done (ensures below)
    ]

form_end_ends : (f : Form) → f.j ≤ f.i → Ensures (λ g. Unit {0}) (form_end f)
form_end_ends f h = rw (le→leb f.j f.i h) (ensures tt)

-- On a body without a `%` the parser of forms returns.
pub parse_from_urlencoded_ends :
    (text : List ℕ) (post : Dictionary (List ℕ))
    → NoPercent text
    → Ensures (λ r. Unit {0}) (parse_from_urlencoded text post)
unfolding parse_from_urlencoded
parse_from_urlencoded_ends text post none_here = elim (Bool-cases (length text == 0)) [
  | inl none_left ↦ rw none_left (ensures tt)
  | inr some ↦ rw some (
      Ensures-bind
        (Ensures-bind
          (form_loop_ends (length text + 1) (form_start text post) (omega arith) (omega arith)
            (omega arith) none_here)
          λ g p. form_end_ends g p)
        λ h q. ensures tt)
]
