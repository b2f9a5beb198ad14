-- ===== src/Http/Response/Tests.antt =====
-- Runs of the HTTP response code, and its theorems at concrete inputs.
use video_server.Base.{◌≡◌, refl, Bool, true, false, [], ◌∷◌, Option, none, some, arith}
use video_server.Base.Int.{pos, negsuc}
use video_server.Base.Run.{Ensures}
use video_server.Base.Text.{codes, same_text}
use video_server.Buffer.{Buffer}
use video_server.Buffer.Contents.{IsValid}
use video_server.Buffer.Refine.{Holds}
use video_server.Http.Response.{Files, Stat, HttpResponse, init_response, make_response, to_text}
use video_server.Http.Response.Text.{answered, reply, make_response_writes}
use video_server.Http.Response.Choice.{answered_code}

-- The page that all may read, a page that they may not, and nothing else.
abbrev site : Files
site = record {
  stat = λ path.
      if_is (same_text path (codes "www/index.html")) true
        (if_is (same_text path (codes "www/secret.html")) false none);
  opens = λ path. same_text path (codes "www/index.html");
  mmap = λ path n. some (60 ∷ 33 ∷ 62 ∷ []);
}
  where
    if_is : Bool → Bool → Option Stat → Option Stat
    if_is true r other = some (record { size = 3; is_dir = false; others_read = r })
    if_is false r other = other

abbrev asked : HttpResponse
asked = init_response (codes "www") (codes "/index.html") true (pos 200)

abbrev refused : HttpResponse
refused = init_response (codes "www") (codes "/secret.html") true (negsuc 0)

abbrev empty : Buffer
empty = record { bytes = []; read_pos = 0; write_pos = 0 }

empty-IsValid : IsValid empty
empty-IsValid = record { ordered = omega arith; inside = omega arith }

to_text_digits : to_text 2048 ≡ codes "2048"
to_text_digits = refl

make_response_writes_example :
    Ensures (λ q. Holds (reply site [] asked) q.1) (make_response site asked empty)
make_response_writes_example =
    make_response_writes site asked empty empty-IsValid λ opened. (60 ∷ 33 ∷ 62 ∷ [], refl)

answered_code_example : (answered site refused).code ≡ pos 403
answered_code_example = answered_code site refused
