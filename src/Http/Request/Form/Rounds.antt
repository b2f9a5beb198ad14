-- ===== src/Http/Request/Form/Rounds.antt =====
-- The rounds of `ParseFromUrlencoded_` over plain bytes, one key and one value at a time.
use mathlib.Core.List.{append-nil}
use video_server.Base.{
  ℕ, zero, suc, ◌+◌, ◌-◌, ◌<◌, ◌≡◌, refl, sym, ap, ◌∙◌, Bool, true, false, not, ◌&&◌, List, [], ◌∷◌,
  ◌++◌, none, arith, length, get_or, drop, ltb, length-drop, lt→ltb, le→leb, ◌==◌,
  take-length-append, drop-length-append, drop-sum,
}
use video_server.Base.Run.{◌>>=◌, Ensures, ensures}
use video_server.Base.Text.{lookup, insert}
use video_server.Http.Request.Form.{Form, since_mark, form_case, form_loop, form_end, is_missing}

-- None of the four bytes that mean something in a form.
abbrev pub is_plain : ℕ → Bool
is_plain c = not (c == b'=') && (not (c == b'+') && (not (c == b'%') && not (c == b'&')))

abbrev pub all_plain : List ℕ → Bool
all_plain [] = true
all_plain (c ∷ s) = is_plain c && all_plain s

-- What a byte at the head of the rest of a text says.
head_of_drop :
    (i : ℕ) (xs t : List ℕ) (c : ℕ)
    → drop i xs ≡ c ∷ t
    → (get_or xs i 0 ≡ c) × ((i < length xs) × (drop (i + 1) xs ≡ t))
head_of_drop zero (x ∷ xs) t c e = ground (arith, e)
head_of_drop zero [] t c e = absurd (ground (arith, e))
head_of_drop (suc i) [] t c e = absurd (ground (arith, e))
head_of_drop (suc i) (x ∷ xs) t c e = ground (arith, head_of_drop i xs t c e)

-- One round of the loop at a byte.
module _ (fuel : ℕ) (f : Form) (c : ℕ) (t : List ℕ) (at : drop f.i f.text ≡ c ∷ t) where
  round_plain :
      is_plain c ≡ true → form_loop (suc fuel) f ≡ form_loop fuel (record f { i = f.i + 1 })
  unfolding form_loop form_case
  round_plain plain =
      let here = head_of_drop f.i f.text t c at in
      rw (lt→ltb f.i (length f.text) here.1.0, here.0) (ground arith)

  round_equals :
      c ≡ b'='
      → form_loop (suc fuel) f
        ≡ form_loop fuel (record f { key = since_mark f; j = f.i + 1; i = f.i + 1 })
  unfolding form_loop form_case
  round_equals e =
      let here = head_of_drop f.i f.text t c at in
      rw (lt→ltb f.i (length f.text) here.1.0, here.0, e) refl

  round_and :
      c ≡ b'&'
      → form_loop (suc fuel) f
        ≡ form_loop fuel
            (record f { j = f.i + 1; post = insert f.key (since_mark f) f.post; i = f.i + 1 })
  unfolding form_loop form_case
  round_and e =
      let here = head_of_drop f.i f.text t c at in
      rw (lt→ltb f.i (length f.text) here.1.0, here.0, e) refl

-- The loop over plain bytes only moves on.
pub run_plain :
    (s t : List ℕ) (fuel : ℕ) (f : Form)
    → all_plain s ≡ true
    → drop f.i f.text ≡ s ++ t
    → form_loop (length s + fuel) f ≡ form_loop fuel (record f { i = f.i + length s })
run_plain [] t fuel f plain at =
    ap (λ n. form_loop n f) (let e : 0 + fuel ≡ fuel = omega arith in e)
    ∙ ap (λ n. form_loop fuel (record f { i = n })) (let e : f.i ≡ f.i + 0 = omega arith in e)
run_plain (c ∷ s) t fuel f plain at =
    let first : is_plain c ≡ true = ground arith in
    let others : all_plain s ≡ true = ground arith in
    let here = head_of_drop f.i f.text (s ++ t) c at in
    ap (λ n. form_loop n f)
      (let e : suc (length s) + fuel ≡ suc (length s + fuel) = omega arith in e)
    ∙ round_plain (length s + fuel) f c (s ++ t) at first
    ∙ run_plain s t fuel (record f { i = f.i + 1 }) others here.1.1
    ∙ ap (λ n. form_loop fuel (record f { i = n }))
        (let e : f.i + 1 + length s ≡ f.i + suc (length s) = omega arith in e)

-- A text that stands from the mark on is what is cut out at its end.
pub since_mark-text :
    (f : Form) (s t : List ℕ) → drop f.j f.text ≡ s ++ t → f.i ≡ f.j + length s → since_mark f ≡ s
since_mark-text f s t at e =
    let size : f.i - f.j ≡ length s = omega arith in rw (size, at) (take-length-append s t)

-- `k=`, from the mark on
pub run_key :
    (k t : List ℕ) (fuel : ℕ) (f : Form)
    → all_plain k ≡ true
    → f.i ≡ f.j
    → drop f.i f.text ≡ k ++ b'=' ∷ t
    → (form_loop (length k + suc fuel) f
        ≡ form_loop fuel (record f { key = k; j = f.i + length k + 1; i = f.i + length k + 1 }))
      × (drop (f.i + length k + 1) f.text ≡ t)
run_key k t fuel f plain start at =
    let g : Form = record f { i = f.i + length k } in
    let at_end : drop g.i g.text ≡ b'=' ∷ t =
      drop-sum f.i (length k) (f.i + length k) f.text refl
      ∙ ap (drop (length k)) at
      ∙ drop-length-append k (b'=' ∷ t) in
    (
      run_plain k (b'=' ∷ t) (suc fuel) f plain at
          ∙ round_equals fuel g b'=' t at_end refl
          ∙ ap
              (λ x.
                form_loop fuel
                  (record f { key = x; j = f.i + length k + 1; i = f.i + length k + 1 }))
              (since_mark-text g k (b'=' ∷ t) (ap (λ n. drop n f.text) (sym start) ∙ at)
                (omega arith)),
      (head_of_drop g.i g.text t b'=' at_end).1.1,
    )

-- `v&`, from the mark on
pub run_value :
    (v t : List ℕ) (fuel : ℕ) (f : Form)
    → all_plain v ≡ true
    → f.i ≡ f.j
    → drop f.i f.text ≡ v ++ b'&' ∷ t
    → (form_loop (length v + suc fuel) f
        ≡ form_loop fuel (record f {
          post = insert f.key v f.post;
          j = f.i + length v + 1;
          i = f.i + length v + 1;
        }))
      × (drop (f.i + length v + 1) f.text ≡ t)
run_value v t fuel f plain start at =
    let g : Form = record f { i = f.i + length v } in
    let at_end : drop g.i g.text ≡ b'&' ∷ t =
      drop-sum f.i (length v) (f.i + length v) f.text refl
      ∙ ap (drop (length v)) at
      ∙ drop-length-append v (b'&' ∷ t) in
    let cut : since_mark g ≡ v =
      since_mark-text g v (b'&' ∷ t) (ap (λ n. drop n f.text) (sym start) ∙ at) (omega arith) in
    (
      run_plain v (b'&' ∷ t) (suc fuel) f plain at
          ∙ round_and fuel g b'&' t at_end refl
          ∙ ap
              (λ x. form_loop fuel (record f {
                post = insert f.key x f.post;
                j = f.i + length v + 1;
                i = f.i + length v + 1;
              }))
              cut,
      (head_of_drop g.i g.text t b'&' at_end).1.1,
    )

-- The last value, up to the end of the text.
pub run_last :
    (v : List ℕ) (fuel : ℕ) (f : Form)
    → all_plain v ≡ true
    → f.i ≡ f.j
    → drop f.i f.text ≡ v
    → 0 < length v
    → lookup f.key f.post ≡ none
    → Ensures
        (λ g. (g.text ≡ f.text) × (g.post ≡ insert f.key v f.post))
        (form_loop (length v + suc fuel) f >>= form_end)
unfolding form_loop
run_last v fuel f plain start at some fresh =
    let g : Form = record f { i = f.i + length v } in
    let all : drop f.i f.text ≡ v ++ [] = at ∙ sym (append-nil v) in
    let cut : since_mark g ≡ v =
      since_mark-text g v [] (ap (λ n. drop n f.text) (sym start) ∙ all) (omega arith) in
    let ended : ltb (f.i + length v) (length f.text) ≡ false =
      ground (arith, ap length at, length-drop f.i f.text) in
    let missing : is_missing f.key f.post ≡ true = rw (fresh, is_missing) refl in
    rw
      (
        run_plain v [] (suc fuel) f plain all,
        ended,
        le→leb f.j (f.i + length v) (omega arith),
        missing,
        lt→ltb f.j (f.i + length v) (omega arith),
      )
      (ensures (refl, ap (λ x. insert f.key x f.post) cut))
