-- ===== src/Sse.antt =====
-- python/copass-agent-router/src/copass_agent_router/sse.py: frames of server-sent events, parsed off
-- a stream of text chunks. A text is a list of code points.
pub mod Chunks
pub mod Print
mod Examples
use copass.Prelude.{
  ℕ, zero, suc, Bool, true, false, ◌&&◌, ◌||◌, not, Option, none, some, List, [], ◌∷◌, ◌++◌, eqb,
  if◌then◌else◌, length,
}
use copass.Text.{same_text, join_lines, Text, codes, strip, is_empty, lstrip, rstrip}

pub record RawSseFrame : Type 0 where
  pub event : Text
  pub content : Text

-- `block.split("\n")`: a line in front of a first letter, which ends it if it is a line feed.
abbrev pub before_lines : ℕ → List Text → List Text
before_lines c [] = (c ∷ []) ∷ []
before_lines c (l ∷ ls) = (c ∷ l) ∷ ls

unfoldable pub lines : Text → List Text
lines [] = [] ∷ []
lines (c ∷ s) = let rest = lines s in if eqb c 10 then [] ∷ rest else before_lines c rest

-- `raw.rstrip("\r")`
unfoldable pub rstrip_cr : Text → Text
rstrip_cr [] = []
rstrip_cr (c ∷ s) = elim (rstrip_cr s) [ [] ↦ if eqb c 13 then [] else c ∷ [] | d ∷ t ↦ c ∷ d ∷ t ]

abbrev pub in_field : ℕ → Option (Text × Text) → Option (Text × Text)
in_field c none = none
in_field c (some (field, value)) = some (c ∷ field, value)

-- What stands before the first colon, and what behind it.
unfoldable pub split_colon : Text → Option (Text × Text)
split_colon [] = none
split_colon (c ∷ s) = let rest = split_colon s in if eqb c 58 then some ([], s) else in_field c rest

abbrev pub drop_space : Text → Text
drop_space [] = []
drop_space (c ∷ s) = if eqb c 32 then s else c ∷ s

-- What `_parse_block` has read of a block.
pub record Block : Type 0 where
  pub event : Text
  pub data_lines : List Text

unfoldable pub set_field : Block → Text → Text → Block
set_field b field value =
    if same_text field (codes "event")
    then record b { event = value }
    else if same_text field (codes "data")
    then record b { data_lines = b.data_lines ++ value ∷ [] }
    else b

-- One line without its ending; a comment has an empty field in front of its colon.
unfoldable pub read_field : Block → Text → Block
unfolding split_colon set_field
read_field b line = elim (split_colon line) [
  | none ↦ b
  | some ([], value) ↦ b
  | some (c ∷ field, value) ↦ set_field b (c ∷ field) (drop_space value)
]

unfoldable pub read_lines : Block → List Text → Block
unfolding rstrip_cr read_field
read_lines b [] = b
read_lines b (l ∷ ls) = read_lines (read_field b (rstrip_cr l)) ls

abbrev pub frame_of : Block → Option RawSseFrame
frame_of b = elim b.data_lines [
  | [] ↦ none
  | l ∷ ls ↦ some (record { event = b.event; content = join_lines (l ∷ ls) })
]

unfoldable pub parse_block : Text → Option RawSseFrame
unfolding lines read_lines
parse_block block =
    frame_of (read_lines (record { event = codes "message"; data_lines = [] }) (lines block))

-- `buffer.replace("\r\n", "\n")`
unfoldable pub replace_crlf : Text → Text
replace_crlf [] = []
replace_crlf (c ∷ []) = c ∷ []
replace_crlf (c ∷ d ∷ s) =
    let rest = replace_crlf (d ∷ s) in
    let skipped = replace_crlf s in if eqb c 13 && eqb d 10 then 10 ∷ skipped else c ∷ rest

abbrev pub in_block : ℕ → Option (Text × Text) → Option (Text × Text)
in_block c none = none
in_block c (some (block, rest)) = some (c ∷ block, rest)

-- The block in front of the first empty line, and what follows it.
unfoldable pub cut : Text → Option (Text × Text)
cut [] = none
cut (c ∷ []) = none
cut (c ∷ d ∷ s) =
    let later = cut (d ∷ s) in if eqb c 10 && eqb d 10 then some ([], s) else in_block c later

abbrev pub and_frame : Option RawSseFrame → List RawSseFrame → List RawSseFrame
and_frame none fs = fs
and_frame (some f) fs = f ∷ fs

-- The inner loop: the frames of the complete blocks, and the rest of the buffer. Each pass takes at
-- least two letters off, so the length of the buffer is fuel enough.
unfoldable pub take_blocks : ℕ → Text → List RawSseFrame × Text
unfolding cut parse_block
take_blocks zero buffer = ([], buffer)
take_blocks (suc fuel) buffer = elim (cut buffer) [
  | none ↦ ([], buffer)
  | some (block, rest) ↦
      let later = take_blocks fuel rest in (and_frame (parse_block block) later.0, later.1)
]

abbrev pub complete : Text → List RawSseFrame × Text
complete buffer = take_blocks (length buffer) buffer

-- What is left when the stream ends.
unfoldable pub last_frame : Text → List RawSseFrame
unfolding parse_block
last_frame buffer =
    if is_empty (strip buffer) then [] else and_frame (parse_block (strip buffer)) []

-- `iterate_sse_frames`, from a buffer.
unfoldable pub iterate_sse_frames : Text → List Text → List RawSseFrame
unfolding replace_crlf take_blocks last_frame
iterate_sse_frames buffer [] = last_frame buffer
iterate_sse_frames buffer (chunk ∷ chunks) =
    let (frames, rest) = complete (replace_crlf (buffer ++ chunk)) in
    frames ++ iterate_sse_frames rest chunks
