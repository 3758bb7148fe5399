-- ===== src/Hermes/Stream/Pieces/Adds.antt =====
-- hermes_agent_backend.py: that an attempt yields the pieces of its response.
use mathlib.Core.List.{append_assoc, append-nil}
use copass.Prelude.{
  String, ◌≡◌, refl, ap, sym, ◌∙◌, ◌||◌, Option, none, some, List, [], ◌∷◌, ◌++◌, arith, ◌==◌,
  Bool-cases, inl, inr,
}
use copass.Json.{Value, null, str, arr, obj, Items, no_items, item, Fields, field_at}
use copass.Agents.Events.{AgentEvent}
use copass.Text.{Text}
use copass.Hermes.{Lines, closed, breaks, line, Attempt, new_attempt, emit, emit_finish}
use copass.Json.Truth.{truthy}
use copass.Hermes.Chunk.{
  on_usage, delta_of, on_content, on_finish_reason, on_delta, on_choices, on_listed, on_chunk,
}
use copass.Hermes.Stream.{Read, skipped, done, chunk, read_line, close, Ending, on_read, read_lines}
use copass.Hermes.Stream.Pieces.{
  at_end, at_done, Piece, piece_of, seen, any_stop, content_pieces, reason_pieces, delta_pieces,
  choices_pieces, listed_pieces, chunk_pieces, End, error_of, pieces, closing,
}

seen-append : (es fs : List AgentEvent) → seen (es ++ fs) ≡ seen es ++ seen fs
seen-append [] fs = refl
seen-append (e ∷ es) fs = ap (λ l. piece_of e ∷ l) (seen-append es fs)

any_stop-append : (ps qs : List Piece) → any_stop (ps ++ qs) ≡ (any_stop ps || any_stop qs)
unfolding any_stop
any_stop-append [] qs = refl
any_stop-append (p ∷ ps) qs = ground (arith, any_stop-append ps qs)

record Adds (a : Attempt) (ps : List Piece) (b : Attempt) : Type 0 where
  out : seen b.out ≡ seen a.out ++ ps
  ended : b.finished ≡ (a.finished || any_stop ps)

Adds-none : (a b : Attempt) → b.out ≡ a.out → b.finished ≡ a.finished → Adds a [] b
unfolding any_stop
Adds-none a b o f = record { out = ap seen o ∙ sym (append-nil (seen a.out)); ended = ground arith }

Adds-trans :
    (a b c : Attempt) (ps qs : List Piece) → Adds a ps b → Adds b qs c → Adds a (ps ++ qs) c
Adds-trans a b c ps qs h k = record {
  out = k.out ∙ ap (λ l. l ++ qs) h.out ∙ append_assoc (seen a.out) ps qs;
  ended = ground (arith, h.ended, k.ended, any_stop-append ps qs);
}

on_content-Adds : (a : Attempt) (o : Option Value) → Adds a (content_pieces o) (on_content a o)
unfolding on_content emit any_stop
on_content-Adds a none = Adds-none a a refl refl
on_content-Adds a (some (str text)) = elim (Bool-cases (text == "")) [
  | inl q ↦ rw (q, on_content) (Adds-none a a refl refl)
  | inr q ↦ rw (q, on_content) (record { out = seen-append a.out _; ended = ground arith })
]
on_content-Adds a (some _) = Adds-none a a refl refl

on_finish_reason-Adds :
    (print : Value → String) (a : Attempt) (o : Option Value)
    → Adds a (reason_pieces print o) (on_finish_reason print a o)
unfolding on_finish_reason emit_finish emit any_stop
on_finish_reason-Adds print a none = Adds-none a a refl refl
on_finish_reason-Adds print a (some reason) = elim (Bool-cases (truthy reason)) [
  | inl q ↦ rw (q, on_finish_reason) (record { out = seen-append a.out _; ended = ground arith })
  | inr q ↦ rw (q, on_finish_reason) (Adds-none a a refl refl)
]

on_delta-Adds :
    (print : Value → String) (a : Attempt) (choice : Fields) (o : Option Fields)
    → Adds a (delta_pieces print choice o) (on_delta print a choice o)
unfolding on_delta
on_delta-Adds print a choice none = Adds-none a a refl refl
on_delta-Adds print a choice (some delta) =
    let said = on_content a (field_at "content" delta) in
    Adds-trans a said (on_finish_reason print said (field_at "finish_reason" choice))
      (content_pieces (field_at "content" delta))
      (reason_pieces print (field_at "finish_reason" choice))
      (on_content-Adds a (field_at "content" delta))
      (on_finish_reason-Adds print said (field_at "finish_reason" choice))

on_choices-Adds :
    (print : Value → String) (a : Attempt) (choices : Items)
    → Adds a (choices_pieces print choices) (on_choices print a choices)
unfolding on_choices choices_pieces
on_choices-Adds print a no_items = Adds-none a a refl refl
on_choices-Adds print a (item (obj choice) rest) =
    let b = on_delta print a choice (delta_of (field_at "delta" choice)) in
    Adds-trans a b (on_choices print b rest)
      (delta_pieces print choice (delta_of (field_at "delta" choice))) (choices_pieces print rest)
      (on_delta-Adds print a choice (delta_of (field_at "delta" choice)))
      (on_choices-Adds print b rest)
on_choices-Adds print a (item null rest) = on_choices-Adds print a rest
on_choices-Adds print a (item _ rest) = on_choices-Adds print a rest

on_listed-Adds :
    (print : Value → String) (a : Attempt) (o : Option Value)
    → Adds a (listed_pieces print o) (on_listed print a o)
unfolding on_listed
on_listed-Adds print a none = Adds-none a a refl refl
on_listed-Adds print a (some (arr choices)) = on_choices-Adds print a choices
on_listed-Adds print a (some _) = Adds-none a a refl refl

-- The usage of a chunk changes neither the events nor whether the attempt has finished.
on_usage-Adds : (a : Attempt) (o : Option Value) → Adds a [] (on_usage a o)
unfolding on_usage
on_usage-Adds a none = Adds-none a a refl refl
on_usage-Adds a (some (obj counted)) = Adds-none a _ refl refl
on_usage-Adds a (some _) = Adds-none a a refl refl

on_chunk-Adds :
    (print : Value → String) (a : Attempt) (v : Value)
    → Adds a (chunk_pieces print v) (on_chunk print a v)
unfolding on_chunk
on_chunk-Adds print a (obj fs) =
    let b = on_usage a (field_at "usage" fs) in
    Adds-trans a b (on_listed print b (field_at "choices" fs)) []
      (listed_pieces print (field_at "choices" fs)) (on_usage-Adds a (field_at "usage" fs))
      (on_listed-Adds print b (field_at "choices" fs))
on_chunk-Adds print a null = Adds-none a a refl refl
on_chunk-Adds print a _ = Adds-none a a refl refl

-- What is seen of an attempt from some state on.
abbrev Shows : Attempt → List Piece × End → Ending → Type 0
Shows a (ps, e) (b, error) =
    (seen b.out ≡ seen a.out ++ (ps ++ closing (a.finished || any_stop ps) e))
    × (error ≡ error_of e)

close-Shows : (a : Attempt) → Shows a ([], at_end) (close a, none)
unfolding close emit_finish emit any_stop
close-Shows a = elim (Bool-cases a.finished) [
  | inl q ↦ rw (q, close) (sym (append-nil (seen a.out)), refl)
  | inr q ↦ rw (q, close) (seen-append a.out _, refl)
]

-- The pieces of one line, and what is seen of the lines behind it.
Adds-Shows :
    (a b : Attempt) (ps qs : List Piece) (e : End) (r : Ending)
    → Adds a ps b
    → Shows b (qs, e) r
    → Shows a (ps ++ qs, e) r
Adds-Shows a b ps qs e r h (o, same) =
    let flag : (b.finished || any_stop qs) ≡ (a.finished || any_stop (ps ++ qs)) =
      ground (arith, h.ended, any_stop-append ps qs) in
    let tail = closing (b.finished || any_stop qs) e in
    (
      o
          ∙ ap (λ l. l ++ (qs ++ tail)) h.out
          ∙ append_assoc (seen a.out) ps (qs ++ tail)
          ∙ ap (λ l. seen a.out ++ l) (sym (append_assoc ps qs tail))
          ∙ ap (λ x. seen a.out ++ ((ps ++ qs) ++ closing x e)) flag,
      same,
    )

on_read-Shows :
    (print : Value → String) (rest : Attempt → Ending) (later : List Piece × End) (a : Attempt)
    (read : Read)
    → ((b : Attempt) → Shows b later (rest b))
    → Shows a
        (elim read [
          | skipped ↦ later
          | done ↦ ([], at_done)
          | chunk v ↦ (chunk_pieces print v ++ later.0, later.1)
        ])
        (on_read print rest a read)
unfolding on_read any_stop
on_read-Shows print rest later a skipped f = f a
on_read-Shows print rest later a done f = (sym (append-nil (seen a.out)), refl)
on_read-Shows print rest later a (chunk v) f =
    Adds-Shows a (on_chunk print a v) (chunk_pieces print v) later.0 later.1
      (rest (on_chunk print a v)) (on_chunk-Adds print a v) (f (on_chunk print a v))

read_lines-Shows :
    (loads : Text → Option Value) (print : Value → String) (lines : Lines) (a : Attempt)
    → Shows a (pieces loads print lines) (read_lines loads print lines a)
unfolding read_lines pieces any_stop
read_lines-Shows loads print closed a = close-Shows a
read_lines-Shows loads print (breaks e) a = (sym (append-nil (seen a.out)), refl)
read_lines-Shows loads print (line raw rest) a =
    on_read-Shows print (read_lines loads print rest) (pieces loads print rest) a
      (read_line loads raw) (λ b. read_lines-Shows loads print rest b)

-- Whatever the lines of a response are, an attempt yields exactly their texts and finish reasons, in
-- their order, up to the done line, the end, or an error, with which it fails then. It adds a final event
-- "end_turn" of its own exactly if the lines end without the done line and no reason has been given: a
-- response that ends with the done line and gives no reason has no final event.
pub read_lines-pieces :
    (loads : Text → Option Value) (print : Value → String) (lines : Lines)
    → let (ps, e) = pieces loads print lines in
      let (a, error) = read_lines loads print lines new_attempt in
      (seen a.out ≡ ps ++ closing (any_stop ps) e) × (error ≡ error_of e)
read_lines-pieces loads print lines = read_lines-Shows loads print lines new_attempt
