-- ===== src/CopassAgent/Forwarded.antt =====
-- managed_agent.py and managed_agent_backend_v2.py: the messages that are recorded, and those that the
-- backend sends.
use copass.Prelude.{ℕ, suc, String, List, [], ◌∷◌, if◌then◌else◌}
use copass.Json.{Value, Fields}
use copass.Managed.Messages.{normalize_messages as to_events}
use copass.CopassAgent.Messages.{Messages, normalize_messages, text_of_message, is_user_message}
use copass.Text.{strip, is_empty}

-- The number of messages of the user that say nothing but spaces.
unfoldable pub blank_messages : (Value → String) → List Fields → ℕ
blank_messages print [] = 0
blank_messages print (m ∷ ms) =
    let rest = blank_messages print ms in
    if is_user_message m
    then if is_empty (strip (text_of_message print m)) then suc rest else rest
    else rest
