-- ===== src/Sse/Print.antt =====
-- sse.py: a frame that is printed as a block is parsed back.
use copass.Prelude.{◌≡◌, refl, ap, sym, ◌∙◌, false, some, List, [], ◌∷◌, ◌++◌, map, eqb, All}
use mathlib.Core.List.{append_assoc, append-nil}
use copass.Text.{Text, codes, join_lines}
use copass.Sse.{
  lines, rstrip_cr, split_colon, set_field, Block, read_field, read_lines, frame_of, parse_block,
}

-- A text in one line: no line feed, and no carriage return.
abbrev pub IsLine : Text → Type 0
IsLine s = All (λ c. (eqb c 10 ≡ false) × (eqb c 13 ≡ false)) s

-- The lines of a frame, in the format of server-sent events.
abbrev pub event_line : Text → Text
event_line e = codes "event: " ++ e

abbrev pub data_line : Text → Text
data_line d = codes "data: " ++ d

abbrev pub print_frame : Text → List Text → Text
print_frame e ds = join_lines (event_line e ∷ map data_line ds)

lines_line : (s : Text) → IsLine s → lines s ≡ s ∷ []
unfolding lines
lines_line [] h = refl
lines_line (c ∷ s) h = rw (h.0.0, lines_line s h.1) refl

lines-before : (s t : Text) → IsLine s → lines (s ++ (10 ∷ t)) ≡ s ∷ lines t
unfolding lines
lines-before [] t h = refl
lines-before (c ∷ s) t h = rw (h.0.0, lines-before s t h.1) refl

lines-join_lines :
    (l : Text) (ls : List Text) → All IsLine (l ∷ ls) → lines (join_lines (l ∷ ls)) ≡ l ∷ ls
lines-join_lines l [] h = lines_line l h.0
lines-join_lines l (m ∷ ls) h =
    lines-before l (join_lines (m ∷ ls)) h.0 ∙ ap (λ r. l ∷ r) (lines-join_lines m ls h.1)

rstrip_cr_line : (s : Text) → IsLine s → rstrip_cr s ≡ s
unfolding rstrip_cr
rstrip_cr_line [] h = refl
rstrip_cr_line (c ∷ []) h = rw h.0.1 refl
rstrip_cr_line (c ∷ d ∷ s) h = rw (rstrip_cr_line (d ∷ s) h.1, rstrip_cr) refl

data_line-IsLine : (d : Text) → IsLine d → IsLine (data_line d)
data_line-IsLine d h = (
  (refl, refl),
  ((refl, refl), ((refl, refl), ((refl, refl), ((refl, refl), ((refl, refl), h))))),
)

event_line-IsLine : (e : Text) → IsLine e → IsLine (event_line e)
event_line-IsLine e h = (
  (refl, refl),
  ((refl, refl), ((refl, refl), ((refl, refl), ((refl, refl), ((refl, refl), ((refl, refl), h)))))),
)

data_lines-AreLines : (ds : List Text) → All IsLine ds → All IsLine (map data_line ds)
data_lines-AreLines [] h = tt
data_lines-AreLines (d ∷ ds) h = (data_line-IsLine d h.0, data_lines-AreLines ds h.1)

read_data_line :
    (b : Block) (d : Text)
    → read_field b (data_line d) ≡ record b { data_lines = b.data_lines ++ d ∷ [] }
unfolding read_field split_colon set_field
read_data_line b d = refl

read_event_line : (b : Block) (e : Text) → read_field b (event_line e) ≡ record b { event = e }
unfolding read_field split_colon set_field
read_event_line b e = refl

read_data_lines :
    (b : Block) (ds : List Text)
    → All IsLine ds
    → read_lines b (map data_line ds) ≡ record b { data_lines = b.data_lines ++ ds }
unfolding read_lines
read_data_lines b [] h = ap (λ l. record b { data_lines = l }) (sym (append-nil b.data_lines))
read_data_lines b (d ∷ ds) h =
    ap (λ l. read_lines (read_field b l) (map data_line ds))
      (rstrip_cr_line (data_line d) (data_line-IsLine d h.0))
    ∙ ap (λ c. read_lines c (map data_line ds)) (read_data_line b d)
    ∙ read_data_lines (record b { data_lines = b.data_lines ++ d ∷ [] }) ds h.1
    ∙ ap (λ l. record b { data_lines = l }) (append_assoc b.data_lines (d ∷ []) ds)

-- A frame that is printed with an event line and one line for each part of its data is parsed back,
-- with the parts of the data joined by line feeds, if no part has a line ending of its own.
pub parse_block-print_frame :
    (e d : Text) (ds : List Text)
    → All IsLine (e ∷ d ∷ ds)
    → parse_block (print_frame e (d ∷ ds))
      ≡ some (record { event = e; content = join_lines (d ∷ ds) })
unfolding parse_block read_lines
parse_block-print_frame e d ds h =
    let start : Block = record { event = codes "message"; data_lines = [] } in
    let here : Block = record { event = e; data_lines = [] } in
    let rows : List Text = map data_line (d ∷ ds) in
    ap (λ ls. frame_of (read_lines start ls))
      (lines-join_lines (event_line e) rows
        (event_line-IsLine e h.0, data_lines-AreLines (d ∷ ds) h.1))
    ∙ ap (λ l. frame_of (read_lines (read_field start l) rows))
        (rstrip_cr_line (event_line e) (event_line-IsLine e h.0))
    ∙ ap (λ b. frame_of (read_lines b rows)) (read_event_line start e)
    ∙ ap frame_of (read_data_lines here (d ∷ ds) h.1)
