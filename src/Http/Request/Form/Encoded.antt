-- ===== src/Http/Request/Form/Encoded.antt =====
-- Forms of plain bytes, as a browser encodes them, read back by `ParseFromUrlencoded_`.
use video_server.Base.{
  ℕ, suc, ◌+◌, ◌<◌, ◌≡◌, refl, true, false, List, [], ◌∷◌, ◌++◌, none, arith, length, drop, ◌==◌,
  length-append,
}
use video_server.Base.Run.{◌>>=◌, Ensures, ensures, Ensures-bind}
use video_server.Base.Text.{Dictionary, lookup, insert}
use video_server.Http.Request.Form.{Form, form_loop, form_start, form_end, parse_from_urlencoded}
use video_server.Http.Request.Form.Rounds.{all_plain, run_key, run_value, run_last}

abbrev pub Pair : Type 0
Pair = List ℕ × List ℕ

-- `k=v`
abbrev pub encode_pair : Pair → List ℕ
encode_pair p = p.0 ++ b'=' ∷ p.1

-- The pairs `ps`, each with a `&` after it, and then the pair `p`.
abbrev pub encode : List Pair → Pair → List ℕ
encode [] p = encode_pair p
encode (q ∷ ps) p = q.0 ++ b'=' ∷ (q.1 ++ b'&' ∷ encode ps p)

abbrev pub insert_all : List Pair → Dictionary (List ℕ) → Dictionary (List ℕ)
insert_all [] m = m
insert_all (p ∷ ps) m = insert_all ps (insert p.0 p.1 m)

abbrev pub IsPlainPair : Pair → Type 0
IsPlainPair p = (all_plain p.0 ≡ true) × (all_plain p.1 ≡ true)

abbrev pub AllPlain : List Pair → Type 0
AllPlain [] = Unit {0}
AllPlain (p ∷ ps) = IsPlainPair p × AllPlain ps

run_pairs :
    (ps : List Pair) (p : Pair) (extra : ℕ) (f : Form)
    → AllPlain ps
    → IsPlainPair p
    → f.i ≡ f.j
    → drop f.i f.text ≡ encode ps p
    → 0 < length p.1
    → lookup p.0 (insert_all ps f.post) ≡ none
    → Ensures
        (λ g. (g.text ≡ f.text) × (g.post ≡ insert p.0 p.1 (insert_all ps f.post)))
        (form_loop (length (encode ps p) + suc extra) f >>= form_end)
run_pairs [] p extra f plain plain_p start at some fresh =
    let by_key = run_key p.0 p.1 (length p.1 + suc extra) f plain_p.0 start at in
    rw
      (
        let e : length (encode [] p) + suc extra ≡ length p.0 + suc (length p.1 + suc extra) =
              omega (arith, length-append p.0 (b'=' ∷ p.1)) in
            e,
        by_key.0,
      )
      (run_last p.1 extra
        (record f { key = p.0; j = f.i + length p.0 + 1; i = f.i + length p.0 + 1 }) plain_p.1 refl
        by_key.1 some fresh)
run_pairs (q ∷ ps) p extra f plain plain_p start at some fresh =
    let rest = encode ps p in
    let by_key =
      run_key q.0 (q.1 ++ b'&' ∷ rest) (length q.1 + suc (length rest + suc extra)) f plain.0.0
        start at in
    let f1 : Form = record f { key = q.0; j = f.i + length q.0 + 1; i = f.i + length q.0 + 1 } in
    let by_value = run_value q.1 rest (length rest + suc extra) f1 plain.0.1 refl by_key.1 in
    rw
      (
        let e : length (encode (q ∷ ps) p) + suc extra
                ≡ length q.0 + suc (length q.1 + suc (length rest + suc extra)) =
              omega (
                arith,
                length-append q.0 (b'=' ∷ (q.1 ++ b'&' ∷ rest)),
                length-append q.1 (b'&' ∷ rest),
              ) in
            e,
        by_key.0,
        by_value.0,
      )
      (run_pairs ps p extra
        (record f1 {
          post = insert q.0 q.1 f.post;
          j = f1.i + length q.1 + 1;
          i = f1.i + length q.1 + 1;
        })
        plain.1 plain_p refl by_value.1 some fresh)

encode_some : (ps : List Pair) (p : Pair) → 0 < length (encode ps p)
encode_some [] p = omega (arith, length-append p.0 (b'=' ∷ p.1))
encode_some (q ∷ ps) p = omega (arith, length-append q.0 (b'=' ∷ (q.1 ++ b'&' ∷ encode ps p)))

-- Whatever pairs of plain bytes a form holds, `ParseFromUrlencoded_` leaves the body as it is and sets
-- each key to its value, in the order of the pairs, provided that the last key is new in `post_` and
-- the last value not empty.
pub parse_from_urlencoded-encode :
    (ps : List Pair) (p : Pair) (post : Dictionary (List ℕ))
    → AllPlain ps
    → IsPlainPair p
    → 0 < length p.1
    → lookup p.0 (insert_all ps post) ≡ none
    → Ensures
        (λ r. (r.0 ≡ encode ps p) × (r.1 ≡ insert p.0 p.1 (insert_all ps post)))
        (parse_from_urlencoded (encode ps p) post)
unfolding parse_from_urlencoded
parse_from_urlencoded-encode ps p post plain plain_p some fresh =
    let text = encode ps p in
    let filled : (length text == 0) ≡ false = ground (arith, encode_some ps p) in
    rw (filled, let e : length text + 1 ≡ length text + suc 0 = omega arith in e)
      (Ensures-bind (run_pairs ps p 0 (form_start text post) plain plain_p refl refl some fresh)
        λ g r. ensures r)
