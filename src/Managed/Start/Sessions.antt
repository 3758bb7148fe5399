-- ===== src/Managed/Start/Sessions.antt =====
-- managed_agent_backend_v2.py: which sessions a turn makes and deletes, and how it ends.
use copass.Prelude.{
  String, ◌&&◌, not, ◌≡◌, Option, none, some, List, [], ◌∷◌, ◌⊎◌, ◌==◌, if◌then◌else◌,
}
use copass.Managed.Messages.{Messages}
use copass.Managed.Turn.{Turn}
use copass.Managed.Stream.{Ended}
use copass.Managed.Stream.Finish.{EndsWell}
use copass.Managed.Start.{Effect, session_created, stream_closed, session_deleted, Started}
use copass.Managed.Setup.{Backend, SessionRequest}

-- Whether a session that a turn has made is deleted behind it.
abbrev pub deleted_behind : Backend → String → List Effect
deleted_behind b id =
    if not (id == "") && b.delete_session_on_finish then session_deleted id ∷ [] else []

-- What a turn does to sessions: nothing; close the stream of the session that it was given; make a
-- session, and fail to open its stream; or make a session, close its stream, and then delete it if
-- the backend is told to.
abbrev pub Sessions : Backend → Option String → List Effect → Type 0
Sessions b supplied effects =
    (effects ≡ [])
    ⊎ ((id : String) × (supplied ≡ some id) × (effects ≡ stream_closed id ∷ []))
    ⊎ ((request : SessionRequest) × (id : String) × (supplied ≡ none)
        × (effects ≡ session_created request id ∷ []))
    ⊎ ((request : SessionRequest) × (id : String) × (supplied ≡ none)
        × (effects ≡ session_created request id ∷ stream_closed id ∷ deleted_behind b id))

-- The turn of some session ends well.
abbrev pub SomeTurn : Ended → Type 0
SomeTurn e = (t : Turn) × EndsWell t e

Outcome : Backend → Option String → Started → Type 0
Outcome b supplied s = Sessions b supplied s.effects × SomeTurn s.ended
