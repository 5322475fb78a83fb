-- ===== src/Memory.antt =====
-- backend/app/services/memory.py: which messages a compaction reads, and where its cursor stands after.
-- `rows` are a conversation's messages in the order of the query, by creation and then by id.
pub mod Limits
use agent_demo.Prelude.{
  ℕ, zero, suc, ◌+◌, ◌-◌, Bool, true, false, not, ◌&&◌, ◌||◌, Option, none, some, String, List, [],
  ◌∷◌, ltb, leb, ◌==◌, str_eq, take, length, if◌then◌else◌, cut, text_length,
}
use agent_demo.Task.{Time}

pub record Message : Type 0 where
  pub id : ℕ
  pub created_at : Time
  pub role : String
  pub content : String

-- A stored `memory_cursor`; `partly` is its offset.
pub record Saved : Type 0 where
  pub message_id : ℕ
  pub created_at : Time
  pub partly : ℕ
  pub message_count : ℕ

-- `nothing` is the empty dict, `after_time` the time at which an earlier summary was retired.
pub data Cursor : Type 0 where
  nothing : Cursor
  after_time : Time → Cursor
  saved : Saved → Cursor

-- `filters`
abbrev is_source : Message → Bool
is_source m = (str_eq m.role "user" || str_eq m.role "assistant") && not (str_eq m.content "")

unfoldable pub sources : List Message → List Message
sources [] = []
sources (m ∷ ms) = let rest = sources ms in if is_source m then m ∷ rest else rest

-- `tuple_(created_at, id) > saved`, and `>=`
abbrev later : Saved → Message → Bool
later s m = ltb s.created_at m.created_at || s.created_at == m.created_at && ltb s.message_id m.id

abbrev not_earlier : Saved → Message → Bool
not_earlier s m =
    ltb s.created_at m.created_at || s.created_at == m.created_at && leb s.message_id m.id

abbrev is_unread : Cursor → Message → Bool
is_unread nothing m = true
is_unread (after_time at) m = ltb at m.created_at
is_unread (saved s) m = if s.partly == 0 then later s m else not_earlier s m

unfoldable pub unread : Cursor → List Message → List Message
unread cursor [] = []
unread cursor (m ∷ ms) =
    let rest = unread cursor ms in if is_unread cursor m then m ∷ rest else rest

-- `_source_messages`: the last `limit` source messages are left for the model's own context.
unfoldable pub source_messages : ℕ → Cursor → List Message → List Message
source_messages limit cursor rows =
    let found = sources rows in take 50 (unread cursor (take (length found - limit) found))

pub record BatchItem : Type 0 where
  pub role : String
  pub content : String

-- `text[n:]`
unfoldable pub skip : ℕ → String → String
skip zero text = text
skip (suc n) String.[] = String.[]
skip (suc n) (String.◌∷◌ c text) = skip n text

-- Where the cursor of the call says that `m` was read in part.
abbrev offset_in : Cursor → Message → ℕ
offset_in nothing m = 0
offset_in (after_time at) m = 0
offset_in (saved s) m = if m.id == s.message_id then s.partly else 0

abbrev count_of : Cursor → ℕ
count_of nothing = 0
count_of (after_time at) = 0
count_of (saved s) = s.message_count

-- `next_cursor` after the first `stop` characters of `m` are read.
advance : Message → ℕ → Cursor → Cursor
advance m stop cursor =
    let complete = stop == text_length m.content in
    saved (record {
      message_id = m.id;
      created_at = m.created_at;
      partly = if complete then 0 else stop;
      message_count = count_of cursor + (if complete then 1 else 0);
    })

-- The loop of `_batch`: `cursor` is that of the call, `next` the `next_cursor` so far.
unfoldable pub batch_from : Cursor → ℕ → Cursor → List Message → List BatchItem × Cursor
unfolding advance
batch_from cursor remaining next [] = ([], next)
batch_from cursor remaining next (m ∷ ms) =
    let start = offset_in cursor m in
    let content = cut remaining (skip start m.content) in
    let reached = advance m (start + text_length content) next in
    let (items, final) = batch_from cursor (remaining - text_length content) reached ms in
    let item : BatchItem = record { role = m.role; content = content } in
    if text_length content == 0
    then ([], next)
    else if remaining - text_length content == 0
    then (item ∷ [], reached)
    else (item ∷ items, final)

-- `_batch`, for `agent_memory_input_max_chars`.
unfoldable pub batch : ℕ → List Message → Cursor → List BatchItem × Cursor
batch max_chars messages cursor = batch_from cursor max_chars cursor messages
