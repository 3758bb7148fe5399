-- ===== src/Managed/Messages/Shape.antt =====
-- managed_agent_backend_v2.py: the shape of what the provider is sent for messages and tools.
use copass.Prelude.{ℕ, suc, ◌≡◌, Bool, some, [], ◌∷◌, if◌then◌else◌, Option, none}
use copass.Json.{Value, obj, Items, no_items, item, Fields, field_at}
use copass.Json.Strip.{IsClean}
use copass.Json.Sanitize.{forbidden_input_schema_keys}
use copass.Managed.Messages.{Messages, text, listed, user_event, is_user, role_of}

-- Every block is a dictionary.
abbrev pub AreBlocks : Items → Type 0
AreBlocks no_items = Unit
AreBlocks (item v vs) = ((fs : Fields) × (v ≡ obj fs)) × AreBlocks vs

abbrev pub IsUserEvent : Value → Type 0
IsUserEvent v = (blocks : Items) × (v ≡ user_event blocks) × AreBlocks blocks

-- The number of messages of the role `user`, which is also the role of a message without one.
unfoldable pub count_user : Messages → ℕ
count_user (text s) = 1
count_user (listed []) = 0
count_user (listed (m ∷ ms)) =
    let rest = count_user (listed ms) in if is_user (role_of m) then suc rest else rest

-- The schema of a tool, if it has one.
abbrev pub schema_of : Value → Option Value
schema_of (obj fs) = field_at "input_schema" fs
schema_of _ = none

-- A tool's schema has no key that the provider refuses.
abbrev pub IsAccepted : Value → Type 0
IsAccepted tool = (s : Value) → schema_of tool ≡ some s → IsClean forbidden_input_schema_keys s

-- The weight of a flag.
abbrev pub one_if : Bool → ℕ
one_if b = if b then 1 else 0
