-- ===== src/Recorder/Record.antt =====
-- turn_recorder.py: what the log of the window gets to hold.
use mathlib.Core.List.{append_assoc, append-nil}
use mathlib.Core.Path.{subst}
use copass.Prelude.{
  String, false, ◌||◌, ◌≡◌, refl, ap, sym, ◌∙◌, List, [], ◌∷◌, ◌++◌, map, arith, ◌==◌, contains,
  add, Bool-cases, inl, inr,
}
use copass.Text.{Text, strip, is_empty, concat}
use copass.Managed.Cycle.Replies.{contains-add}
use copass.Recorder.{
  ChatMessage, ContextWindow, add_turn, Settings, CopassTurnRecorder, dedupe_key, seen_of,
  new_recorder, record_turn, flush_assistant, record_assistant_delta, run_push, run_pushes, flush,
}

contains-snoc :
    (ks : List String) (j k : String) → contains (ks ++ j ∷ []) k ≡ (contains ks k || j == k)
contains-snoc [] j k = ground arith
contains-snoc (i ∷ ks) j k = ground (arith, contains-snoc ks j k)

module _ (s : Settings) where
  abbrev pub keys_of : List ChatMessage → List String
  keys_of ts = map (dedupe_key s) ts

  -- The turns of the log, with those whose push has not started yet.
  abbrev pub recorded : CopassTurnRecorder → List ChatMessage
  recorded r = r.window.turns ++ r.pending_pushes

  -- Turns none of which is blank, each with a key that is neither among some keys nor that of a turn
  -- before it.
  abbrev pub AreNew : List String → List ChatMessage → Type 0
  AreNew ks [] = Unit
  AreNew ks (t ∷ ts) =
      (contains ks (dedupe_key s t) ≡ false)
      × (is_empty (strip t.content) ≡ false)
      × AreNew (ks ++ dedupe_key s t ∷ []) ts

  keys_of-append : (ts us : List ChatMessage) → keys_of (ts ++ us) ≡ keys_of ts ++ keys_of us
  keys_of-append [] us = refl
  keys_of-append (t ∷ ts) us = ap (λ l. dedupe_key s t ∷ l) (keys_of-append ts us)

  AreNew-snoc :
      (ks : List String) (ts : List ChatMessage) (t : ChatMessage)
      → AreNew ks ts
      → contains (ks ++ keys_of ts) (dedupe_key s t) ≡ false
      → is_empty (strip t.content) ≡ false
      → AreNew ks (ts ++ t ∷ [])
  AreNew-snoc ks [] t h absent shown =
      (ap (λ l. contains l (dedupe_key s t)) (sym (append-nil ks)) ∙ absent, shown, tt)
  AreNew-snoc ks (u ∷ ts) t h absent shown = (
    h.0,
    h.1,
    AreNew-snoc (ks ++ dedupe_key s u ∷ []) ts t h.2
        (ap (λ l. contains l (dedupe_key s t)) (append_assoc ks (dedupe_key s u ∷ []) (keys_of ts))
          ∙ absent)
        shown,
  )

  contains-seen_of :
      (seen : List String) (ts : List ChatMessage) (k : String)
      → contains (seen_of s seen ts) k ≡ (contains seen k || contains (keys_of ts) k)
  unfolding seen_of
  contains-seen_of seen [] k = ground arith
  contains-seen_of seen (t ∷ ts) k = ground (
    arith,
    contains-seen_of (add seen (dedupe_key s t)) ts k,
    contains-add seen (dedupe_key s t) k,
  )

  -- What holds of a recorder that began with some turns.
  pub record IsFaithful (start : List ChatMessage) (r : CopassTurnRecorder) : Type 0 where
    pub new : List ChatMessage
    pub grown : recorded r ≡ start ++ new
    pub novel : AreNew (keys_of start) new
    pub known : (k : String) → contains r.seen k ≡ contains (keys_of (recorded r)) k

  pub new_recorder-IsFaithful : (w : ContextWindow) → IsFaithful w.turns (new_recorder s w)
  unfolding new_recorder
  new_recorder-IsFaithful w = record {
    new = [];
    grown = refl;
    novel = tt;
    known = λ k.
        contains-seen_of [] w.turns k ∙ ap (λ l. contains (keys_of l) k) (sym (append-nil w.turns));
  }

  adds_turn :
      (start : List ChatMessage) (r : CopassTurnRecorder) (t : ChatMessage)
      → IsFaithful start r
      → contains r.seen (dedupe_key s t) ≡ false
      → is_empty (strip t.content) ≡ false
      → IsFaithful start (record r {
        seen = add r.seen (dedupe_key s t);
        pending_pushes = r.pending_pushes ++ t ∷ [];
      })
  adds_turn start r t h absent shown =
      let longer : r.window.turns ++ (r.pending_pushes ++ t ∷ []) ≡ recorded r ++ t ∷ [] =
        sym (append_assoc r.window.turns r.pending_pushes (t ∷ [])) in
      let fresh : contains (keys_of start ++ keys_of h.new) (dedupe_key s t) ≡ false =
        ap (λ l. contains l (dedupe_key s t)) (sym (keys_of-append start h.new))
        ∙ ap (λ l. contains (keys_of l) (dedupe_key s t)) (sym h.grown)
        ∙ sym (h.known (dedupe_key s t))
        ∙ absent in
      record {
        new = h.new ++ t ∷ [];
        grown = longer ∙ ap (λ l. l ++ t ∷ []) h.grown ∙ append_assoc start h.new (t ∷ []);
        novel = AreNew-snoc (keys_of start) h.new t h.novel fresh shown;
        known = λ k.
            contains-add r.seen (dedupe_key s t) k
            ∙ ap (λ b. b || dedupe_key s t == k) (h.known k)
            ∙ sym (contains-snoc (keys_of (recorded r)) (dedupe_key s t) k)
            ∙ ap (λ l. contains l k) (sym (keys_of-append (recorded r) (t ∷ [])))
            ∙ ap (λ l. contains (keys_of l) k) (sym longer);
      }

  record_turn-new :
      (r : CopassTurnRecorder) (t : ChatMessage)
      → is_empty (strip t.content) ≡ false
      → contains r.seen (dedupe_key s t) ≡ false
      → record_turn s r t ≡ record r {
        seen = add r.seen (dedupe_key s t);
        pending_pushes = r.pending_pushes ++ t ∷ [];
      }
  unfolding record_turn
  record_turn-new r t q p = rw (q, record_turn) (rw p refl)

  pub record_turn-IsFaithful :
      (start : List ChatMessage) (r : CopassTurnRecorder) (t : ChatMessage)
      → IsFaithful start r
      → IsFaithful start (record_turn s r t)
  unfolding record_turn
  record_turn-IsFaithful start r t h = elim (Bool-cases (is_empty (strip t.content))) [
    | inl q ↦ rw (q, record_turn) h
    | inr q ↦ elim (Bool-cases (contains r.seen (dedupe_key s t))) [
      | inl p ↦ rw (q, record_turn) (rw p h)
      | inr p ↦ subst (IsFaithful start) (sym (record_turn-new r t q p)) (adds_turn start r t h p q)
    ]
  ]

  -- Only the buffer of the answer changes.
  buffers :
      (start : List ChatMessage) (r : CopassTurnRecorder) (texts : List Text)
      → IsFaithful start r
      → IsFaithful start (record r { pending_assistant_text = texts })
  buffers start r texts h = record {
    new = h.new;
    grown = h.grown;
    novel = h.novel;
    known = h.known;
  }

  pub flush_assistant-IsFaithful :
      (start : List ChatMessage) (r : CopassTurnRecorder)
      → IsFaithful start r
      → IsFaithful start (flush_assistant s r)
  unfolding flush_assistant
  flush_assistant-IsFaithful start r h =
      elim (Bool-cases (is_empty (strip (concat r.pending_assistant_text)))) [
        | inl q ↦ rw (q, flush_assistant) (buffers start r [] h)
        | inr q ↦
            rw (q, flush_assistant)
              (record_turn-IsFaithful start (record r { pending_assistant_text = [] }) _
                (buffers start r [] h))
      ]

  pub record_assistant_delta-IsFaithful :
      (start : List ChatMessage) (r : CopassTurnRecorder) (x : Text)
      → IsFaithful start r
      → IsFaithful start (record_assistant_delta r x)
  unfolding record_assistant_delta
  record_assistant_delta-IsFaithful start r [] h = h
  record_assistant_delta-IsFaithful start r (c ∷ x) h = buffers start r _ h

  pub run_pushes-turns :
      (r : CopassTurnRecorder) (ts : List ChatMessage)
      → ((run_pushes s r ts).window.turns ≡ r.window.turns ++ ts)
        × ((run_pushes s r ts).pending_pushes ≡ r.pending_pushes)
        × ((run_pushes s r ts).seen ≡ r.seen)
  unfolding run_pushes run_push add_turn
  run_pushes-turns r [] = (sym (append-nil r.window.turns), refl, refl)
  run_pushes-turns r (t ∷ ts) =
      let (turns, pending, seen) = run_pushes-turns (run_push s r t) ts in
      (turns ∙ append_assoc r.window.turns (t ∷ []) ts, pending, seen)

  -- Flushing starts every push that is waiting: none is left, and the log of the window ends with
  -- the waiting turns in their order, whatever the API answers.
  pub flush-turns :
      (r : CopassTurnRecorder)
      → ((flush s r).window.turns ≡ recorded r) × ((flush s r).pending_pushes ≡ [])
  unfolding flush
  flush-turns r =
      let (turns, pending, seen) =
        run_pushes-turns (record r { pending_pushes = [] }) r.pending_pushes in
      (turns, pending)

  pub flush-IsFaithful :
      (start : List ChatMessage) (r : CopassTurnRecorder)
      → IsFaithful start r
      → IsFaithful start (flush s r)
  unfolding flush
  flush-IsFaithful start r h =
      let (turns, pending, seen) =
        run_pushes-turns (record r { pending_pushes = [] }) r.pending_pushes in
      let same : recorded (flush s r) ≡ recorded r =
        cc (turns, pending, append-nil (r.window.turns ++ r.pending_pushes)) in
      record {
        new = h.new;
        grown = same ∙ h.grown;
        novel = h.novel;
        known = λ k.
            ap (λ l. contains l k) seen ∙ h.known k ∙ ap (λ l. contains (keys_of l) k) (sym same);
      }
