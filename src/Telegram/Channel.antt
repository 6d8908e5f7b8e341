-- ===== src/Telegram/Channel.antt =====
-- Whether the bot may post to a channel (validateChannel of internal/telegram/client.go). What the
-- server answers is an argument.
use telegram_uploader.Prelude.{
  Bool, false, not, ◌&&◌, ◌||◌, List, [], ◌∷◌, ◌++◌, Option, none, some, String, if◌then◌else◌,
  Result, ok, err,
}
use telegram_uploader.Prelude.Int.{ℤ, pos, ne_ℤ}
use telegram_uploader.Model.{Channel}
use telegram_uploader.Attempt.{Failure, plain_failure, not_connected}

-- A chat of an answer: `as_channel` is false for a chat of another kind. Without admin rights
-- `may_post` is false.
pub record Chat : Type 0 where
  pub as_channel : Bool
  pub id : ℤ
  pub access_hash : ℤ
  pub title : String
  pub broadcast : Bool
  pub left : Bool
  pub may_post : Bool

abbrev has_hash : ℤ → List ℤ → Bool
has_hash h [] = false
has_hash h (i ∷ is) = let rest = has_hash h is in not (ne_ℤ i h) || rest

abbrev pub append_hash : ℤ → List ℤ → List ℤ
append_hash h hashes = if has_hash h hashes then hashes else hashes ++ h ∷ []

abbrev resolved_hash : Option ℤ → List ℤ → List ℤ
resolved_hash none hashes = hashes
resolved_hash (some h) hashes = append_hash h hashes

-- The hashes that are tried: the channel's, the one that the peer manager knows, and 0.
unfoldable pub candidate_hashes : ℤ → Option ℤ → List ℤ
candidate_hashes own resolved = append_hash (pos 0) (resolved_hash resolved (own ∷ []))

-- The verdict on the chat that is the channel.
abbrev pub judge_chat : Chat → Result Failure Channel
judge_chat c =
    if not c.broadcast || c.left
    then err (plain_failure "目标不是 Bot 已加入的 Channel")
    else if c.may_post
    then ok (record { id = c.id; access_hash = c.access_hash; title = c.title })
    else err (plain_failure "Bot 没有该频道的发帖权限")

-- The inner loop: the first chat that is the channel.
unfoldable pub find_chat : ℤ → List Chat → Option Chat
find_chat id [] = none
find_chat id (c ∷ cs) =
    let rest = find_chat id cs in if c.as_channel && not (ne_ℤ c.id id) then some c else rest

abbrev pub judge_found : Option Chat → (Failure → Result Failure Channel) → Result Failure Channel
judge_found (some c) next = judge_chat c
judge_found none next = next (plain_failure "Telegram 没有返回目标频道")

abbrev pub tried :
    ℤ → Result Failure (List Chat) → (Failure → Result Failure Channel) → Result Failure Channel
tried id (err e) next = next e
tried id (ok chats) next = judge_found (find_chat id chats) next

-- The outer loop; `last` is the error of the hash before.
unfoldable pub try_hashes :
    (ℤ → Result Failure (List Chat)) → ℤ → Failure → List ℤ → Result Failure Channel
try_hashes get id last [] = err last
try_hashes get id last (h ∷ hs) = tried id (get h) (λ e. try_hashes get id e hs)

-- `get` is ChannelsGetChannels with a hash, and `resolved` the full entity's hash, if it is known.
unfoldable pub validate_channel :
    Bool → Option ℤ → (ℤ → Result Failure (List Chat)) → Channel → Result Failure Channel
validate_channel connected resolved get channel =
    if connected
    then try_hashes get channel.id (plain_failure "")
        (candidate_hashes channel.access_hash resolved)
    else err not_connected
