-- ===== src/Runtime/Cache.antt =====
-- src/agent_foundation/idempotency.py: `_LRUCache`. Its ordered dict, whose values are all `True`, is
-- the list of its keys from the last to the first.
pub mod History
pub mod Refinement
use decentralized_agentic_re.Prelude.{
  ℕ, suc, Bool, true, false, List, [], ◌∷◌, length, ltb, member, discard, if◌then◌else◌,
}
use decentralized_agentic_re.Prelude.Dict.{Uuid}

pub record Cache : Type 0 where
  pub keys : List Uuid
  pub maxsize : ℕ

unfoldable pub empty_cache : ℕ → Cache
empty_cache maxsize = record { keys = []; maxsize = maxsize }

unfoldable pub default_maxsize : ℕ
default_maxsize = 10000

-- `cache[k] = True`, where a new key becomes the last.
set_item : Uuid → List Uuid → List Uuid
set_item k keys = if member k keys then keys else k ∷ keys

-- `cache.move_to_end(k)`
move_to_end : Uuid → List Uuid → List Uuid
move_to_end k keys = k ∷ discard k keys

-- `cache.popitem(last=False)`
pop_first : List Uuid → List Uuid
pop_first [] = []
pop_first (k ∷ []) = []
pop_first (k ∷ j ∷ keys) = k ∷ pop_first (j ∷ keys)

-- `__contains__`, which moves a key that is found.
unfoldable pub contains : Uuid → Cache → Bool × Cache
unfolding move_to_end
contains k c =
    if member k c.keys then (true, record c { keys = move_to_end k c.keys }) else (false, c)

-- `add`
unfoldable pub insert : Uuid → Cache → Cache
unfolding set_item move_to_end pop_first
insert k c =
    let keys = move_to_end k (set_item k c.keys) in
    if ltb c.maxsize (length keys)
    then record c { keys = pop_first keys }
    else record c { keys = keys }
