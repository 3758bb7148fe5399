-- ===== src/Callback/Mirror.antt =====
-- callback.py: a conversation that is given again is not mirrored again, and none of it is lost.
use mathlib.Core.List.{append_assoc, append-nil}
use mathlib.Core.Path.{subst}
use copass.Prelude.{
  ◌≡◌, refl, ap, sym, ◌∙◌, Bool, true, ◌||◌, Option, none, some, List, [], ◌∷◌, ◌++◌, arith, All,
  Bool-cases, inl, inr,
}
use copass.Json.{Value}
use copass.Text.{Text, same_text}
use copass.Callback.{
  BaseMessage, Turn, CopassWindowCallback, to_turn, hash_turn, contains_text, mirror, mirror_all,
  flatten, on_chat_model_start,
}

same_text_self : (s : Text) → same_text s s ≡ true
same_text_self [] = refl
same_text_self (c ∷ s) = ground (arith, same_text_self s)

abbrev pub keys_of : List Turn → List Text
keys_of [] = []
keys_of (t ∷ ts) = hash_turn t ∷ keys_of ts

contains_text-keys_of :
    (ts us : List Turn) (k : Text)
    → contains_text (keys_of (ts ++ us)) k
      ≡ (contains_text (keys_of ts) k || contains_text (keys_of us) k)
contains_text-keys_of [] us k = refl
contains_text-keys_of (t ∷ ts) us k = ground (arith, contains_text-keys_of ts us k)

-- What lies between two states: the setting is the same, some turns have been scheduled behind the
-- others, and exactly their keys have been added to the seen ones.
pub record IsGrown (c d : CopassWindowCallback) (new : List Turn) : Type 0 where
  pub setting : d.include_tool_messages ≡ c.include_tool_messages
  pub grown : d.scheduled ≡ c.scheduled ++ new
  pub known :
      (k : Text)
      → contains_text d.seen k ≡ (contains_text c.seen k || contains_text (keys_of new) k)

-- A message whose turn has a key among the seen ones.
abbrev pub IsSeen : (Value → Text) → Bool → List Text → BaseMessage → Type 0
IsSeen print include_tools seen m =
    (t : Turn) → to_turn print include_tools m ≡ some t → contains_text seen (hash_turn t) ≡ true

mirror-IsGrown :
    (c : CopassWindowCallback) (o : Option Turn) → (new : List Turn) × IsGrown c (mirror c o) new
unfolding mirror
mirror-IsGrown c none =
    ([], record { setting = refl; grown = sym (append-nil c.scheduled); known = λ k. ground arith })
mirror-IsGrown c (some turn) = elim (Bool-cases (contains_text c.seen (hash_turn turn))) [
  | inl q ↦ (
    [],
    rw (q, mirror)
        (record {
          setting = refl;
          grown = sym (append-nil c.scheduled);
          known = λ k. ground arith;
        }),
  )
  | inr q ↦ (
    turn ∷ [],
    rw (q, mirror) (record { setting = refl; grown = refl; known = λ k. ground arith }),
  )
]

mirror-own :
    (c : CopassWindowCallback) (turn : Turn)
    → contains_text (mirror c (some turn)).seen (hash_turn turn) ≡ true
unfolding mirror
mirror-own c turn = elim (Bool-cases (contains_text c.seen (hash_turn turn))) [
  | inl q ↦ rw (q, mirror) q
  | inr q ↦ rw (q, mirror) (ground (arith, same_text_self (hash_turn turn)))
]

IsGrown-trans :
    {c d e : CopassWindowCallback} {new more : List Turn}
    → IsGrown c d new
    → IsGrown d e more
    → IsGrown c e (new ++ more)
IsGrown-trans {c} {d} {e} {new} {more} h k = record {
  setting = k.setting ∙ h.setting;
  grown = k.grown ∙ ap (λ l. l ++ more) h.grown ∙ append_assoc c.scheduled new more;
  known = λ x. ground (arith, k.known x, h.known x, contains_text-keys_of new more x);
}

-- Seen keys stay seen.
IsGrown-mono :
    {c d : CopassWindowCallback} {new : List Turn}
    → IsGrown c d new
    → (k : Text) → contains_text c.seen k ≡ true
    → contains_text d.seen k ≡ true
IsGrown-mono h k q = ground (arith, h.known k)

own_IsSeen :
    (print : Value → Text) (c d : CopassWindowCallback) (new : List Turn) (m : BaseMessage)
    → IsGrown (mirror c (to_turn print c.include_tool_messages m)) d new
    → IsSeen print c.include_tool_messages d.seen m
own_IsSeen print c d new m h t e =
    IsGrown-mono h (hash_turn t)
      (ap (λ o. contains_text (mirror c o).seen (hash_turn t)) e ∙ mirror-own c t)

mirror_all-IsGrown :
    (print : Value → Text) (c : CopassWindowCallback) (ms : List BaseMessage)
    → (new : List Turn) × IsGrown c (mirror_all print c ms) new
      × All (IsSeen print c.include_tool_messages (mirror_all print c ms).seen) ms
unfolding mirror_all
mirror_all-IsGrown print c [] = (
  [],
  record { setting = refl; grown = sym (append-nil c.scheduled); known = λ k. ground arith },
  tt,
)
mirror_all-IsGrown print c (m ∷ ms) =
    let o : Option Turn = to_turn print c.include_tool_messages m in
    let (first, h) = mirror-IsGrown c o in
    let (more, k, seen) = mirror_all-IsGrown print (mirror c o) ms in
    (
      first ++ more,
      IsGrown-trans h k,
      (
        own_IsSeen print c _ more m k,
        subst (λ b. All (IsSeen print b (mirror_all print (mirror c o) ms).seen) ms) h.setting seen,
      ),
    )

mirror_seen :
    (c : CopassWindowCallback) (o : Option Turn)
    → ((t : Turn) → o ≡ some t → contains_text c.seen (hash_turn t) ≡ true)
    → mirror c o ≡ c
unfolding mirror
mirror_seen c none h = refl
mirror_seen c (some t) h = rw (h t refl, mirror) refl

mirror_all_seen :
    (print : Value → Text) (c : CopassWindowCallback) (ms : List BaseMessage)
    → All (IsSeen print c.include_tool_messages c.seen) ms
    → mirror_all print c ms ≡ c
unfolding mirror_all
mirror_all_seen print c [] h = refl
mirror_all_seen print c (m ∷ ms) h =
    ap (λ d. mirror_all print d ms) (mirror_seen c (to_turn print c.include_tool_messages m) h.0)
    ∙ mirror_all_seen print c ms h.1

-- A call schedules some turns behind the earlier ones. Each message of the conversation that is a
-- turn has then a key that was seen before or is that of a scheduled turn, so that none is lost; and
-- the same conversation given again changes nothing.
pub on_chat_model_start_lem :
    (print : Value → Text) (c : CopassWindowCallback) (messages : List (List BaseMessage))
    → let d = on_chat_model_start print c messages in
      ((new : List Turn) × IsGrown c d new
        × All (IsSeen print c.include_tool_messages d.seen) (flatten messages))
      × (on_chat_model_start print d messages ≡ d)
unfolding on_chat_model_start
on_chat_model_start_lem print c messages =
    let (new, h, seen) = mirror_all-IsGrown print c (flatten messages) in
    (
      (new, h, seen),
      mirror_all_seen print (mirror_all print c (flatten messages)) (flatten messages) (
          subst
            (λ b.
              All (IsSeen print b (mirror_all print c (flatten messages)).seen) (flatten messages))
            (sym h.setting) seen),
    )
