-- ===== src/Sse/Chunks.antt =====
-- sse.py: how a stream is cut into chunks does not matter.
use mathlib.Core.List.{append_assoc, append-nil}
use mathlib.Core.Path.{subst}
use copass.Prelude.{
  ◌⊎◌, ℕ, zero, suc, ◌≤◌, ◌<◌, ◌+◌, ◌≡◌, refl, ap, sym, ◌∙◌, true, false, ◌&&◌, Option, none, some,
  List, [], ◌∷◌, ◌++◌, arith, eqb, length, All, Bool-cases, Option-cases, inl, inr,
}
use copass.Text.{Text, concat}
use copass.Sse.{
  RawSseFrame, parse_block, replace_crlf, in_block, cut, and_frame, take_blocks, complete,
  last_frame, iterate_sse_frames,
}

-- A text with no carriage return.
abbrev pub IsPlain : Text → Type 0
IsPlain s = All (λ c. eqb c 13 ≡ false) s

replace_crlf_plain : (s : Text) → IsPlain s → replace_crlf s ≡ s
unfolding replace_crlf
replace_crlf_plain [] h = refl
replace_crlf_plain (c ∷ []) h = refl
replace_crlf_plain (c ∷ d ∷ s) h = rw h.0 (ap (λ l. c ∷ l) (replace_crlf_plain (d ∷ s) h.1))

in_block-inv :
    (c : ℕ) (o : Option (Text × Text)) (block rest : Text)
    → in_block c o ≡ some (block, rest)
    → (b : Text) × (o ≡ some (b, rest)) × (block ≡ c ∷ b)
in_block-inv c none block rest e = cc
in_block-inv c (some (b, r)) block rest e =
    let pair : (c ∷ b, r) ≡ (block, rest) = cc e in
    let same : r ≡ rest = ap (λ (x : Text × Text). x.1) pair in
    (b, ap (λ r. some (b, r)) same, sym (ap (λ (x : Text × Text). x.0) pair))

-- How a cut that succeeds came about.
abbrev Cut : ℕ → ℕ → Text → Text → Text → Type 0
Cut c d s block rest =
    ((eqb c 10 && eqb d 10 ≡ true) × (block ≡ []) × (rest ≡ s))
    ⊎ ((eqb c 10 && eqb d 10 ≡ false)
        × ((b : Text) × (cut (d ∷ s) ≡ some (b, rest)) × (block ≡ c ∷ b)))

cut-cases :
    (c d : ℕ) (s block rest : Text) → cut (c ∷ d ∷ s) ≡ some (block, rest) → Cut c d s block rest
unfolding cut
cut-cases c d s block rest e = elim (Bool-cases (eqb c 10 && eqb d 10)) [
  | inl q ↦
      let found : ◌≡◌ {A = Option (Text × Text)} (some ([], s)) (some (block, rest)) =
        ground arith in
      let pair : ◌≡◌ {A = Text × Text} ([], s) (block, rest) = cc found in
      inl (q, sym (ap (λ (x : Text × Text). x.0) pair), sym (ap (λ (x : Text × Text). x.1) pair))
  | inr q ↦ inr (q, in_block-inv c (cut (d ∷ s)) block rest (ground arith))
]

cut-shorter : (s block rest : Text) → cut s ≡ some (block, rest) → length rest < length s
unfolding cut
cut-shorter [] block rest e = cc
cut-shorter (c ∷ []) block rest e = cc
cut-shorter (c ∷ d ∷ s) block rest e = elim (cut-cases c d s block rest e) [
  | inl (q, b, r) ↦ omega (arith, ap (λ (x : Text). length x) r)
  | inr (q, (b, f, p)) ↦ omega (arith, cut-shorter (d ∷ s) b rest f)
]

cut-append :
    (s t block rest : Text) → cut s ≡ some (block, rest) → cut (s ++ t) ≡ some (block, rest ++ t)
unfolding cut
cut-append [] t block rest e = cc
cut-append (c ∷ []) t block rest e = cc
cut-append (c ∷ d ∷ s) t block rest e = elim (cut-cases c d s block rest e) [
  | inl (q, b, r) ↦ rw (q, cut) (cc (b, r))
  | inr (q, (b, f, p)) ↦ rw (q, cut) (cc (cut-append (d ∷ s) t b rest f, p))
]

-- More fuel than the length of the buffer changes nothing.
take_blocks-fuel :
    (n m : ℕ) (s : Text) → length s ≤ n → length s ≤ m → take_blocks n s ≡ take_blocks m s
unfolding take_blocks
take_blocks-fuel zero zero s p q = refl
take_blocks-fuel zero (suc m) [] p q = refl
take_blocks-fuel zero (suc m) (c ∷ s) p q = absurd (omega arith)
take_blocks-fuel (suc n) zero [] p q = refl
take_blocks-fuel (suc n) zero (c ∷ s) p q = absurd (omega arith)
take_blocks-fuel (suc n) (suc m) s p q = elim (Option-cases (cut s)) [
  | inl e ↦ rw (e, take_blocks) refl
  | inr ((block, rest), e) ↦
      let less : length rest < length s = cut-shorter s block rest e in
      rw (e, take_blocks)
        (ap (λ (l : List RawSseFrame × Text). (and_frame (parse_block block) l.0, l.1))
          (take_blocks-fuel n m rest (omega arith) (omega arith)))
]

-- Where the rest of the buffer has no complete block.
take_blocks-done : (n : ℕ) (s : Text) → length s ≤ n → cut (take_blocks n s).1 ≡ none
unfolding take_blocks cut
take_blocks-done zero [] p = refl
take_blocks-done zero (c ∷ s) p = absurd (omega arith)
take_blocks-done (suc n) s p = elim (Option-cases (cut s)) [
  | inl e ↦ rw (e, take_blocks) e
  | inr ((block, rest), e) ↦
      let less : length rest < length s = cut-shorter s block rest e in
      rw (e, take_blocks) (take_blocks-done n rest (omega arith))
]

length_append : (s t : Text) → length (s ++ t) ≡ length s + length t
length_append [] t = omega arith
length_append (c ∷ s) t = omega (arith, length_append s t)

-- What the loop gives for a buffer with more text behind it.
abbrev continued : List RawSseFrame × Text → Text → List RawSseFrame × Text
continued (fs, rest) t = (fs ++ (complete (rest ++ t)).0, (complete (rest ++ t)).1)

and_frame-append :
    (o : Option RawSseFrame) (fs gs : List RawSseFrame)
    → and_frame o fs ++ gs ≡ and_frame o (fs ++ gs)
and_frame-append none fs gs = refl
and_frame-append (some f) fs gs = refl

abbrev with_frame : Option RawSseFrame → List RawSseFrame × Text → List RawSseFrame × Text
with_frame o x = (and_frame o x.0, x.1)

take_blocks-some :
    (n : ℕ) (s block rest : Text)
    → cut s ≡ some (block, rest)
    → take_blocks (suc n) s ≡ with_frame (parse_block block) (take_blocks n rest)
unfolding take_blocks
take_blocks-some n s block rest e = rw (e, take_blocks) refl

take_blocks-append :
    (n m : ℕ) (s t : Text)
    → length s ≤ n
    → length (s ++ t) ≤ m
    → take_blocks m (s ++ t) ≡ continued (take_blocks n s) t
unfolding take_blocks cut
take_blocks-append zero m [] t p q = take_blocks-fuel m (length t) t q (omega arith)
take_blocks-append zero m (c ∷ s) t p q = absurd (omega arith)
take_blocks-append (suc n) zero [] t p q = take_blocks-fuel zero (length t) t q (omega arith)
take_blocks-append (suc n) zero (c ∷ s) t p q = absurd (omega arith)
take_blocks-append (suc n) (suc m) s t p q = elim (Option-cases (cut s)) [
  | inl e ↦
      rw (e, take_blocks) (take_blocks-fuel (suc m) (length (s ++ t)) (s ++ t) q (omega arith))
  | inr ((block, rest), e) ↦
      let less : length rest < length s = cut-shorter s block rest e in
      let later : take_blocks m (rest ++ t) ≡ continued (take_blocks n rest) t =
        take_blocks-append n m rest t (omega arith)
          (omega (arith, length_append rest t, length_append s t)) in
      let o : Option RawSseFrame = parse_block block in
      let more : List RawSseFrame × Text = complete ((take_blocks n rest).1 ++ t) in
      take_blocks-some m (s ++ t) block (rest ++ t) (cut-append s t block rest e)
      ∙ ap (with_frame o) later
      ∙ ap (λ (fs : List RawSseFrame). (fs, more.1))
          (sym (and_frame-append o (take_blocks n rest).0 more.0))
      ∙ ap (λ x. continued x t) (sym (take_blocks-some n s block rest e))
]

complete-none : (s : Text) → cut s ≡ none → complete s ≡ ([], s)
unfolding take_blocks cut
complete-none [] e = refl
complete-none (c ∷ s) e = rw (e, take_blocks) refl

IsPlain-append : (s t : Text) → IsPlain s → IsPlain t → IsPlain (s ++ t)
IsPlain-append [] t h k = k
IsPlain-append (c ∷ s) t h k = (h.0, IsPlain-append s t h.1 k)

cut-IsPlain : (s block rest : Text) → cut s ≡ some (block, rest) → IsPlain s → IsPlain rest
unfolding cut
cut-IsPlain [] block rest e h = cc
cut-IsPlain (c ∷ []) block rest e h = cc
cut-IsPlain (c ∷ d ∷ s) block rest e h = elim (cut-cases c d s block rest e) [
  | inl (q, b, r) ↦ subst IsPlain (sym r) h.1.1
  | inr (q, (b, f, p)) ↦ cut-IsPlain (d ∷ s) b rest f h.1
]

take_blocks-IsPlain : (n : ℕ) (s : Text) → IsPlain s → IsPlain (take_blocks n s).1
unfolding take_blocks
take_blocks-IsPlain zero s h = h
take_blocks-IsPlain (suc n) s h = elim (Option-cases (cut s)) [
  | inl e ↦ rw (e, take_blocks) h
  | inr ((block, rest), e) ↦
      rw (e, take_blocks) (take_blocks-IsPlain n rest (cut-IsPlain s block rest e h))
]

-- The frames of a stream that ends with what is in the buffer.
abbrev ended : List RawSseFrame × Text → List RawSseFrame
ended (fs, rest) = fs ++ last_frame rest

ended-append :
    (s t : Text)
    → ended (complete (s ++ t)) ≡ (complete s).0 ++ ended (complete ((complete s).1 ++ t))
ended-append s t =
    let more : List RawSseFrame × Text = complete ((complete s).1 ++ t) in
    ap ended (take_blocks-append (length s) (length (s ++ t)) s t (omega arith) (omega arith))
    ∙ append_assoc (complete s).0 more.0 (last_frame more.1)

iterate-ended :
    (buffer : Text) (chunks : List Text)
    → cut buffer ≡ none
    → IsPlain buffer
    → All IsPlain chunks
    → iterate_sse_frames buffer chunks ≡ ended (complete (buffer ++ concat chunks))
unfolding iterate_sse_frames
iterate-ended buffer [] e h k =
    sym (ap ended (complete-none buffer e)) ∙ ap (λ s. ended (complete s)) (sym (append-nil buffer))
iterate-ended buffer (c ∷ chunks) e h k =
    let text : Text = buffer ++ c in
    let plain : IsPlain text = IsPlain-append buffer c h k.0 in
    let later : iterate_sse_frames (complete text).1 chunks
        ≡ ended (complete ((complete text).1 ++ concat chunks)) =
      iterate-ended (complete text).1 chunks (take_blocks-done (length text) text (omega arith))
        (take_blocks-IsPlain (length text) text plain) k.1 in
    rw (replace_crlf_plain text plain) (
      ap (λ fs. (complete text).0 ++ fs) later
      ∙ sym (ended-append text (concat chunks))
      ∙ ap (λ s. ended (complete s)) (append_assoc buffer c (concat chunks)))

-- However a stream of text with no carriage return is cut into chunks, it gives the same frames: two
-- lists of chunks with the same text in total do.
pub iterate_sse_frames-chunks :
    (chunks others : List Text)
    → All IsPlain chunks
    → All IsPlain others
    → concat chunks ≡ concat others
    → iterate_sse_frames [] chunks ≡ iterate_sse_frames [] others
unfolding cut
iterate_sse_frames-chunks chunks others h k e =
    iterate-ended [] chunks refl tt h
    ∙ ap (λ s. ended (complete s)) e
    ∙ sym (iterate-ended [] others refl tt k)
