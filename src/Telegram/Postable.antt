-- ===== src/Telegram/Postable.antt =====
-- What a channel that passes validateChannel (internal/telegram/client.go) is known to be.
use telegram_uploader.Prelude.{
  Bool, true, false, not, ◌&&◌, ◌||◌, List, [], ◌∷◌, Option, none, some, Result, ok, err, ◌≡◌, ◌⊎◌,
  inl, inr, refl, arith, Bool-cases,
}
use telegram_uploader.Prelude.Int.{ℤ, ne_ℤ, ne_ℤ_iff}
use telegram_uploader.Model.{Channel}
use telegram_uploader.Attempt.{Failure, plain_failure}
use telegram_uploader.Telegram.Channel.{
  Chat, candidate_hashes, judge_chat, find_chat, judge_found, tried, try_hashes, validate_channel,
}

abbrev pub Among : {A : Type 0} → A → List A → Type 0
Among x [] = ⊥
Among x (y ∷ ys) = (x ≡ y) ⊎ Among x ys

-- The chat is the channel, and the bot may post there.
pub record IsPostable (id : ℤ) (chat : Chat) (c : Channel) : Type 0 where
  pub as_channel : chat.as_channel ≡ true
  pub same_id : chat.id ≡ id
  pub broadcast : chat.broadcast ≡ true
  pub joined : chat.left ≡ false
  pub may_post : chat.may_post ≡ true
  pub answer : c ≡ record { id = chat.id; access_hash = chat.access_hash; title = chat.title }

-- An answer for one of the hashes lists such a chat.
abbrev pub Validated :
    (ℤ → Result Failure (List Chat)) → List ℤ → ℤ → Result Failure Channel → Type 0
Validated get hashes id (err e) = Unit
Validated get hashes id (ok c) =
    (h : ℤ) × (chats : List Chat) × (chat : Chat) × Among h hashes
    × (get h ≡ ok chats)
    × Among chat chats
    × IsPostable id chat c

abbrev Found : ℤ → List Chat → Option Chat → Type 0
Found id chats none = Unit
Found id chats (some c) = Among c chats × (c.as_channel ≡ true) × (c.id ≡ id)

Found-later :
    (id : ℤ) (c : Chat) (cs : List Chat) (o : Option Chat) → Found id cs o → Found id (c ∷ cs) o
Found-later id c cs none f = tt
Found-later id c cs (some d) f = (inr f.0, f.1, f.2)

find_chat-Found : (id : ℤ) (chats : List Chat) → Found id chats (find_chat id chats)
unfolding find_chat
find_chat-Found id [] = tt
find_chat-Found id (c ∷ cs) = elim (Bool-cases (c.as_channel && not (ne_ℤ c.id id))) [
  | inl e ↦ simp e (inl refl, ground arith, (ne_ℤ_iff c.id id).0 (ground arith))
  | inr e ↦ simp e (Found-later id c cs (find_chat id cs) (find_chat-Found id cs))
]

judged :
    (get : ℤ → Result Failure (List Chat)) (hashes : List ℤ) (id h : ℤ) (chats : List Chat)
    (c : Chat)
    → Among h hashes
    → get h ≡ ok chats
    → Found id chats (some c)
    → Validated get hashes id (judge_chat c)
judged get hashes id h chats c a e f = elim (Bool-cases (not c.broadcast || c.left)) [
  | inl b ↦ simp b tt
  | inr b ↦ elim (Bool-cases c.may_post) [
    | inr p ↦ simp (b, p) tt
    | inl p ↦
        simp (b, p)
          (
            h,
            chats,
            c,
            a,
            e,
            f.0,
            record {
              as_channel = f.1;
              same_id = f.2;
              broadcast = ground arith;
              joined = ground arith;
              may_post = p;
              answer = refl;
            },
          )
  ]
]

module _ (get : ℤ → Result Failure (List Chat)) (hashes : List ℤ) (id : ℤ) where
  judge_found-Validated :
      (h : ℤ) (chats : List Chat) (o : Option Chat) (next : Failure → Result Failure Channel)
      → Among h hashes
      → get h ≡ ok chats
      → Found id chats o
      → ((e : Failure) → Validated get hashes id (next e))
      → Validated get hashes id (judge_found o next)
  judge_found-Validated h chats none next a e f n = n (plain_failure "Telegram 没有返回目标频道")
  judge_found-Validated h chats (some c) next a e f n = judged get hashes id h chats c a e f

  tried-Validated :
      (h : ℤ) (r : Result Failure (List Chat)) (next : Failure → Result Failure Channel)
      → Among h hashes
      → get h ≡ r
      → ((e : Failure) → Validated get hashes id (next e))
      → Validated get hashes id (tried id r next)
  tried-Validated h (err e) next a q n = n e
  tried-Validated h (ok chats) next a q n =
      judge_found-Validated h chats (find_chat id chats) next a q (find_chat-Found id chats) n

  try_hashes-Validated :
      (hs : List ℤ) (last : Failure)
      → ((h : ℤ) → Among h hs → Among h hashes)
      → Validated get hashes id (try_hashes get id last hs)
  unfolding try_hashes
  try_hashes-Validated [] last s = tt
  try_hashes-Validated (h ∷ hs) last s =
      tried-Validated h (get h) (λ e. try_hashes get id e hs) (s h (inl refl)) refl
        (λ e. try_hashes-Validated hs e (λ k a. s k (inr a)))

-- A channel that passes the check is one that the server listed, in its answer for one of the
-- access hashes tried, as a broadcast channel of that id which the bot has not left and where it may
-- post; its hash and title are those of the answer.
pub validate_channel-Validated :
    (connected : Bool) (resolved : Option ℤ) (get : ℤ → Result Failure (List Chat))
    (channel : Channel)
    → Validated get
        (candidate_hashes channel.access_hash resolved)
        channel.id
        (validate_channel connected resolved get channel)
unfolding validate_channel
validate_channel-Validated connected resolved get channel =
    let hashes = candidate_hashes channel.access_hash resolved in
    elim (Bool-cases connected) [
      | inl e ↦
          simp e (try_hashes-Validated get hashes channel.id hashes (plain_failure "") (λ h a. a))
      | inr e ↦ simp e tt
    ]
