-- ===== src/Sse/Examples.antt =====
-- A stream in two cuts, and the theorems at it.
use copass.Prelude.{All, Bool, true, not, ◌&&◌, eqb, arith, ◌≡◌, refl, some, List, [], ◌∷◌, ◌++◌}
use copass.Text.{Text, codes, lstrip, rstrip, join_lines}
use copass.Sse.{parse_block, iterate_sse_frames}
use copass.Sse.Chunks.{IsPlain, iterate_sse_frames-chunks}
use copass.Sse.Print.{print_frame, parse_block-print_frame}

abbrev first : Text
first = codes "event: agent_text_delta" ++ (10 ∷ codes "data: a" ++ (10 ∷ 10 ∷ []))

abbrev whole : List Text
whole = (first ++ codes "data: b") ∷ []

abbrev pieces : List Text
pieces =
    (codes "event: agent_text_delta" ++ (10 ∷ []))
    ∷ (codes "data: a" ++ (10 ∷ []))
    ∷ (10 ∷ codes "data: b")
    ∷ []

whole_frames :
    iterate_sse_frames [] whole
    ≡ record { event = codes "agent_text_delta"; content = codes "a" }
      ∷ record { event = codes "message"; content = codes "b" }
      ∷ []
unfolding iterate_sse_frames rstrip lstrip
whole_frames = refl

abbrev is_plain : Text → Bool
is_plain [] = true
is_plain (c ∷ s) = not (eqb c 13) && is_plain s

is_plain-IsPlain : (s : Text) → is_plain s ≡ true → IsPlain s
is_plain-IsPlain [] h = tt
is_plain-IsPlain (c ∷ s) h = (ground arith, is_plain-IsPlain s (ground arith))

abbrev are_plain : List Text → Bool
are_plain [] = true
are_plain (s ∷ ss) = is_plain s && are_plain ss

are_plain-IsPlain : (ss : List Text) → are_plain ss ≡ true → All IsPlain ss
are_plain-IsPlain [] h = tt
are_plain-IsPlain (s ∷ ss) h =
    (is_plain-IsPlain s (ground arith), are_plain-IsPlain ss (ground arith))

iterate_sse_frames-chunks_example : iterate_sse_frames [] whole ≡ iterate_sse_frames [] pieces
iterate_sse_frames-chunks_example =
    iterate_sse_frames-chunks whole pieces (are_plain-IsPlain whole refl)
      (are_plain-IsPlain pieces refl) refl

-- Carriage returns in front of line feeds are dropped, also between two chunks.
crlf_frames :
    iterate_sse_frames [] ((codes "data: a" ++ (13 ∷ [])) ∷ (10 ∷ 13 ∷ []) ∷ (10 ∷ []) ∷ [])
    ≡ record { event = codes "message"; content = codes "a" } ∷ []
unfolding iterate_sse_frames rstrip lstrip
crlf_frames = refl

parse_block-print_frame_example :
    parse_block (print_frame (codes "e") (codes "a" ∷ codes "b" ∷ []))
    ≡ some (record { event = codes "e"; content = join_lines (codes "a" ∷ codes "b" ∷ []) })
parse_block-print_frame_example =
    parse_block-print_frame (codes "e") (codes "a") (codes "b" ∷ [])
      (((refl, refl), tt), (((refl, refl), tt), (((refl, refl), tt), tt)))
