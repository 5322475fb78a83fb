-- ===== src/Memory/Limits.antt =====
-- backend/app/services/memory.py, `_batch`: the size of a batch, and its items against the messages.
use agent_demo.Prelude.{
  ℕ, ◌+◌, ◌-◌, ◌≤◌, arith, List, [], ◌∷◌, length, cut, text_length, text_length-cut,
}
use agent_demo.Memory.{Message, Cursor, BatchItem, skip, batch_from, batch, advance, offset_in}

abbrev pub item_chars : List BatchItem → ℕ
item_chars [] = 0
item_chars (item ∷ items) = text_length item.content + item_chars items

batch_from_bound :
    (cursor : Cursor) (remaining : ℕ) (next : Cursor) (messages : List Message)
    → (item_chars (batch_from cursor remaining next messages).0 ≤ remaining)
      × (length (batch_from cursor remaining next messages).0 ≤ length messages)
unfolding batch_from
batch_from_bound cursor remaining next [] = (omega arith, omega arith)
batch_from_bound cursor remaining next (m ∷ ms) =
    let start = offset_in cursor m in
    let content = cut remaining (skip start m.content) in
    ground (
      arith,
      text_length-cut remaining (skip start m.content),
      batch_from_bound cursor (remaining - text_length content)
          (advance m (start + text_length content) next) ms,
    )

-- A batch holds at most `agent_memory_input_max_chars` characters, and at most one item for each of
-- the messages that were read.
pub batch_bound :
    (max_chars : ℕ) (messages : List Message) (cursor : Cursor)
    → (item_chars (batch max_chars messages cursor).0 ≤ max_chars)
      × (length (batch max_chars messages cursor).0 ≤ length messages)
unfolding batch
batch_bound max_chars messages cursor = batch_from_bound cursor max_chars cursor messages
