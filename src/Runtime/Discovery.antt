-- ===== src/Runtime/Discovery.antt =====
-- src/agent_foundation/runtime/agent_card.py, discovery.py: the agent cards, and what is read off the
-- discovery topic. A record of the topic is `none` where its envelope or its card does not validate.
-- The patterns of the identifiers are part of that validation.
use decentralized_agentic_re.Prelude.{
  String, Bool, true, false, Option, none, some, List, [], ◌∷◌, is_empty, keep_if, str_eq,
  if◌then◌else◌,
}
use decentralized_agentic_re.Prelude.Exec.{Result, ok, err, value_error}
use decentralized_agentic_re.Prelude.Text.{put_entry, entries}
use decentralized_agentic_re.Contracts.{has_repeat}

pub record Capability : Type 0 where
  pub id : String
  pub name : String
  pub description : String
  pub tags : List String

pub record AgentCard : Type 0 where
  pub agent_id : String
  pub name : String
  pub description : String
  pub version : String
  pub endpoint_topic : String
  pub capabilities : List Capability

ids_of : List Capability → List String
ids_of [] = []
ids_of (c ∷ cs) = c.id ∷ ids_of cs

unfoldable pub validate_capabilities : AgentCard → Result AgentCard
unfolding ids_of
validate_capabilities card =
    if is_empty card.capabilities
    then err value_error
    else if has_repeat (ids_of card.capabilities)
    then err value_error
    else ok card

-- `latest[card.agent_id] = card`, for each record that validates.
unfoldable pub latest :
    List (String × AgentCard) → List (Option AgentCard) → List (String × AgentCard)
latest seen [] = seen
latest seen (none ∷ records) = latest seen records
latest seen (some card ∷ records) = latest (put_entry card.agent_id card seen) records

unfoldable pub discover_agents : List (Option AgentCard) → List AgentCard
discover_agents records = entries (latest [] records)

-- `any(cap.id == capability_id for cap in c.capabilities)`
unfoldable pub declares : String → List Capability → Bool
declares capability [] = false
declares capability (c ∷ cs) = if str_eq c.id capability then true else declares capability cs

unfoldable pub find_capable : String → List (Option AgentCard) → List AgentCard
find_capable capability records =
    keep_if (λ card. declares capability card.capabilities) (discover_agents records)
