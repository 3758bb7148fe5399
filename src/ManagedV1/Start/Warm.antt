-- ===== src/ManagedV1/Start/Warm.antt =====
-- managed_agent_backend.py: what the cache of agents and environments saves.
use mathlib.Core.Path.{subst}
use copass.Prelude.{
  String, ◌≡◌, refl, ap, sym, ◌∙◌, none, some, List, [], ◌∷◌, arith, eq_iff, Option-cases, inl, inr,
}
use copass.Dict.{get}
use copass.Dict.Laws.{get-put}
use copass.Json.{Value}
use copass.Agents.Tools.{AgentToolRegistry}
use copass.Agents.Build.{Built, built, conflict, build_tools}
use copass.Managed.Messages.{normalize_messages}
use copass.Managed.Setup.{AgentRequest}
use copass.Managed.Start.{Answer, answers, fails}
use copass.ManagedV1.Setup.{
  Options, Cache, store_agent, ensure_agent_id, ensure_environment_id, create_kwargs, use_gateway,
}
use copass.ManagedV1.Start.{
  Provider, Call, with_environment, with_agent, fingerprint, with_tools, with_messages, stream,
  streams,
}

-- The cache holds an agent under a key, and an environment.
pub record Warm (key agent environment : String) (c : Cache) : Type 0 where
  pub agents : get c.agent_ids key ≡ some agent
  pub environments : c.environment_id ≡ some environment

module _ (key agent environment : String) where
  store_agent-Warm :
      (c : Cache) (other : String) (request : AgentRequest) (o : Answer String)
      → get c.agent_ids other ≡ none
      → Warm key agent environment c
      → Warm key agent environment (store_agent c other request o).1
  unfolding store_agent
  store_agent-Warm c other request (fails e) gone h = record {
    agents = h.agents;
    environments = h.environments;
  }
  store_agent-Warm c other request (answers id) gone h = record {
    agents = ground (arith, get-put c.agent_ids other id key, eq_iff other key, h.agents);
    environments = h.environments;
  }

  ensure_agent_id-Warm :
      (create : List AgentRequest → AgentRequest → Answer String) (c : Cache) (other : String)
      (request : AgentRequest)
      → Warm key agent environment c
      → Warm key agent environment (ensure_agent_id create c other request).1
  unfolding ensure_agent_id
  ensure_agent_id-Warm create c other request h = elim (Option-cases (get c.agent_ids other)) [
    | inl q ↦
        rw (q, ensure_agent_id)
          (store_agent-Warm c other request (create c.created_agents request) q h)
    | inr (id, q) ↦ rw (q, ensure_agent_id) h
  ]

  -- With an environment in the cache, none is made.
  ensure_environment_id-Warm :
      (b : Options) (p : Provider) (c : Cache)
      → Warm key agent environment c
      → ensure_environment_id p.resources.create_environment b c ≡ (answers environment, c)
  unfolding ensure_environment_id
  ensure_environment_id-Warm b p c h = rw h.environments refl

  with_environment_cache :
      (b : Options) (p : Provider) (tools : AgentToolRegistry) (call : Call) (events : List Value)
      (agent_id : String) (a : Answer String × Cache)
      → (with_environment b p tools call events agent_id a).1 ≡ a.1
  unfolding with_environment
  with_environment_cache b p tools call events agent_id (fails e, c) = refl
  with_environment_cache b p tools call events agent_id (answers i, c) = refl

  with_agent_cache :
      (b : Options) (p : Provider) (tools : AgentToolRegistry) (call : Call) (events : List Value)
      (a : Answer String × Cache)
      → Warm key agent environment a.1
      → (with_agent b p tools call events a).1 ≡ a.1
  unfolding with_agent
  with_agent_cache b p tools call events (fails e, c) h = refl
  with_agent_cache b p tools call events (answers id, c) h =
      with_environment_cache b p tools call events id
        (ensure_environment_id p.resources.create_environment b c)
      ∙ ap (λ (a : Answer String × Cache). a.1) (ensure_environment_id-Warm b p c h)

  with_tools-Warm :
      (b : Options) (p : Provider) (call : Call) (events : List Value) (c : Cache) (o : Built)
      → Warm key agent environment c
      → Warm key agent environment (with_tools b p call events c o).1
  unfolding with_tools
  with_tools-Warm b p call events c (conflict names) h = h
  with_tools-Warm b p call events c (built tools) h =
      let other = fingerprint b p call tools in
      let request = create_kwargs b call.agent tools (use_gateway b call.context) in
      let a = ensure_agent_id p.resources.create_agent c other request in
      let k = ensure_agent_id-Warm p.resources.create_agent c other request h in
      subst (Warm key agent environment) (sym (with_agent_cache b p tools call events a k)) k

  with_messages-Warm :
      (b : Options) (p : Provider) (call : Call) (c : Cache) (events : List Value)
      → Warm key agent environment c
      → Warm key agent environment (with_messages b p call c events).1
  unfolding with_messages
  with_messages-Warm b p call c [] h = h
  with_messages-Warm b p call c (e ∷ es) h =
      with_tools-Warm b p call (e ∷ es) c (build_tools call.agent call.context) h

  pub streams-Warm :
      (print : Value → String) (b : Options) (p : Provider) (calls : List Call) (c : Cache)
      → Warm key agent environment c
      → Warm key agent environment (streams print b p calls c)
  unfolding streams stream
  streams-Warm print b p [] c h = h
  streams-Warm print b p (call ∷ calls) c h =
      streams-Warm print b p calls (stream print b p call c).1
        (with_messages-Warm b p call c (normalize_messages print call.messages) h)

-- Over a cache that has the key, no agent is made either.
with_tools-kept :
    (b : Options) (p : Provider) (call : Call) (events : List Value) (c : Cache)
    (tools : AgentToolRegistry) (agent environment : String)
    → Warm (fingerprint b p call tools) agent environment c
    → (with_tools b p call events c (built tools)).1 ≡ c
unfolding with_tools ensure_agent_id
with_tools-kept b p call events c tools agent environment h =
    let key = fingerprint b p call tools in
    let request = create_kwargs b call.agent tools (use_gateway b call.context) in
    let hit : ensure_agent_id p.resources.create_agent c key request ≡ (answers agent, c) =
      rw (h.agents, ensure_agent_id) refl in
    rw hit (with_agent_cache key agent environment b p tools call events (answers agent, c) h)

with_messages-kept :
    (b : Options) (p : Provider) (call : Call) (c : Cache) (events : List Value)
    (tools : AgentToolRegistry) (agent environment : String)
    → build_tools call.agent call.context ≡ built tools
    → Warm (fingerprint b p call tools) agent environment c
    → (with_messages b p call c events).1 ≡ c
unfolding with_messages
with_messages-kept b p call c [] tools agent environment e h = refl
with_messages-kept b p call c (x ∷ xs) tools agent environment e h =
    rw e (with_tools-kept b p call (x ∷ xs) c tools agent environment h)

-- Where the cache holds an environment, and an agent under the fingerprint of a call: whatever other
-- calls come in between, with whatever agents, messages and answers of the provider, the cache then
-- still holds the same agent and the same environment, and the call leaves it as it is, so that
-- neither is created again.
pub stream-Warm :
    (print : Value → String) (b : Options) (p : Provider) (call : Call) (others : List Call)
    (tools : AgentToolRegistry) (agent environment : String) (c : Cache)
    → build_tools call.agent call.context ≡ built tools
    → Warm (fingerprint b p call tools) agent environment c
    → let later = streams print b p others c in
      Warm (fingerprint b p call tools) agent environment later
      × ((stream print b p call later).1 ≡ later)
unfolding stream
stream-Warm print b p call others tools agent environment c e h =
    let k = streams-Warm (fingerprint b p call tools) agent environment print b p others c h in
    (
      k,
      with_messages-kept b p call (streams print b p others c)
          (normalize_messages print call.messages) tools agent environment e k,
    )
