-- ===== src/Server/Push.antt =====
-- The shared push channels of server/EventTransport.ts. A channel object is a reference into a store,
-- since the function that `acquirePushChannel` returns keeps the channel it was made with. A frame's
-- number is given parsed, and `none` for the content is data that is no JSON.
pub mod Replay
pub mod Stale
pub mod Open
use almadar_runtime.Base.{
  ℕ, suc, ◌≡◌, Bool, true, false, ◌&&◌, not, List, [], ◌∷◌, ◌++◌, Option, none, some, String, get,
  put, delete, insert, remove, get_or, is_empty, leb, map, ◌==◌, if◌then◌else◌, nat_eq, string_eq,
  ◌>>=◌,
}

pub record FrameNumber : Type 0 where
  pub boot : String
  pub n : ℕ

pub record Frame (E : Type 0) : Type 0 where
  pub number : Option FrameNumber
  pub content : Option E

-- `key` and `resume_key` are those of the call that made the channel.
pub record PushChannel : Type 0 where
  pub key : String
  pub resume_key : Option String
  pub source : Option ℕ
  pub subscribers : List ℕ
  pub closed : Bool

pub record PushState : Type 0 where
  pub channels : List (ℕ × PushChannel)
  pub push_channels : List (String × ℕ)
  pub last_frame_by_client : List (String × FrameNumber)
  pub next_channel : ℕ

abbrev pub fresh_channel : String → Option String → PushChannel
fresh_channel key resume_key = record {
  key = key;
  resume_key = resume_key;
  source = none;
  subscribers = [];
  closed = false;
}

-- `acquirePushChannel` for a channel that is there.
abbrev pub join_channel : ℕ → ℕ → PushState → PushState
join_channel subscriber r s = elim (get r s.channels) [
  | none ↦ s
  | some c ↦ record s {
    channels = put r (record c { subscribers = insert subscriber c.subscribers }) s.channels;
  }
]

abbrev pub make_channel : String → Option String → PushState → PushState
make_channel key resume_key s = record s {
  channels = put s.next_channel (fresh_channel key resume_key) s.channels;
  push_channels = put key s.next_channel s.push_channels;
  next_channel = suc s.next_channel;
}

-- The state and the channel that the returned function keeps.
unfoldable pub acquire_push_channel : String → Option String → ℕ → PushState → PushState × ℕ
acquire_push_channel key resume_key subscriber s = elim (get key s.push_channels) [
  | some r ↦ (join_channel subscriber r s, r)
  | none ↦ (join_channel subscriber s.next_channel (make_channel key resume_key s), s.next_channel)
]

-- A call of the returned function.
unfoldable pub release_push_channel : ℕ → ℕ → PushState → PushState
release_push_channel r subscriber s = elim (get r s.channels) [
  | none ↦ s
  | some c ↦
      (let left = remove subscriber c.subscribers in
        if is_empty left
        then record s {
          channels = put r (record c { subscribers = left; closed = true }) s.channels;
          push_channels = delete c.key s.push_channels;
        }
        else record s { channels = put r (record c { subscribers = left }) s.channels })
]

-- `open` once its URL is there.
unfoldable pub open_source : ℕ → ℕ → PushState → PushState
open_source r source s = elim (get r s.channels) [
  | none ↦ s
  | some c ↦
      if c.closed
      then s
      else record s { channels = put r (record c { source = some source }) s.channels }
]

-- `onerror`: a connection that the browser gave up on goes, to be opened again later.
unfoldable pub lose_source : ℕ → Bool → PushState → PushState
lose_source r gone s = elim (get r s.channels) [
  | none ↦ s
  | some c ↦
      if gone && not c.closed
      then record s { channels = put r (record c { source = none }) s.channels }
      else s
]

-- Where a reopened channel resumes.
abbrev pub since : Option String → PushState → Option FrameNumber
since resume_key s = resume_key >>= λ key. get key s.last_frame_by_client

abbrev pub is_replay : FrameNumber → Option FrameNumber → Bool
is_replay number none = false
is_replay number (some seen) = seen.boot == number.boot && leb number.n seen.n

-- The frames applied with this one; `none` for a replay.
abbrev pub admit_frame :
    Option String
    → Option FrameNumber
    → List (String × FrameNumber)
    → Option (List (String × FrameNumber))
admit_frame none number m = some m
admit_frame (some key) none m = some m
admit_frame (some key) (some number) m =
    if is_replay number (get key m) then none else some (put key number m)

-- `onmessage`: the state, and what each subscriber is given.
module _ {E : Type 0} where
  abbrev pub give :
      PushChannel → E → PushState → Option (List (String × FrameNumber)) → PushState × List (ℕ × E)
  give c e s none = (s, [])
  give c e s (some m) = (record s { last_frame_by_client = m }, map (λ l. (l, e)) c.subscribers)

  abbrev pub on_envelope : PushChannel → Frame E → PushState → PushState × List (ℕ × E)
  on_envelope c f s = elim f.content [
    | none ↦ (s, [])
    | some e ↦ give c e s (admit_frame c.resume_key f.number s.last_frame_by_client)
  ]

  unfoldable pub on_message : ℕ → Frame E → PushState → PushState × List (ℕ × E)
  on_message r f s = elim (get r s.channels) [ none ↦ (s, []) | some c ↦ on_envelope c f s ]

-- What happens to a channel while its subscribers stay.
pub data ChannelStep (E : Type 0) : Type 0 where
  opened : ℕ → ChannelStep E
  lost : Bool → ChannelStep E
  received : Frame E → ChannelStep E

module _ {E : Type 0} where
  abbrev pub channel_step : ℕ → ChannelStep E → PushState → PushState × List (ℕ × E)
  channel_step r (opened source) s = (open_source r source s, [])
  channel_step r (lost gone) s = (lose_source r gone s, [])
  channel_step r (received f) s = on_message r f s

  unfoldable pub run_channel : ℕ → List (ChannelStep E) → PushState → PushState × List (ℕ × E)
  unfolding open_source lose_source on_message
  run_channel r [] s = (s, [])
  run_channel r (x ∷ xs) s =
      let (s', given) = channel_step r x s in
      let (s'', rest) = run_channel r xs s' in (s'', given ++ rest)
