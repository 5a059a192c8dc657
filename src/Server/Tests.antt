-- ===== src/Server/Tests.antt =====
-- The push channels on small inputs.
use almadar_runtime.Base.{
  ℕ, ◌≡◌, refl, arith, true, false, List, [], ◌∷◌, none, some, get, put, insert, remove,
}
use almadar_runtime.Server.Push.{
  PushChannel, PushState, acquire_push_channel, release_push_channel, ChannelStep, opened, lost,
  received, run_channel, on_message, open_source, lose_source,
}
use almadar_runtime.Server.Push.Replay.{
  frame, Sends, sent_all, reconnected, dropped, replayed, next_frame, IsAt, Applied,
  run_channel-Sends,
}
use almadar_runtime.Server.Push.Stale.{Abandoned, release_push_channel_stale}
use almadar_runtime.Server.Push.Open.{
  IsOpen, no_channels, acquire, release, PushCall, push_call, push_calls, push_calls-IsOpen,
}

-- A page whose channel 0 has subscriber 7, and has applied frame 4.
abbrev channel : PushChannel
channel = record {
  key = "e?clientId=t";
  resume_key = some "e|t";
  source = some 1;
  subscribers = 7 ∷ [];
  closed = false;
}

abbrev page : PushState
page = record {
  channels = (0, channel) ∷ [];
  push_channels = ("e?clientId=t", 0) ∷ [];
  last_frame_by_client = ("e|t", record { boot = "b"; n = 4 }) ∷ [];
  next_channel = 1;
}

abbrev steps : List (ChannelStep ℕ)
steps =
    received (frame "b" "e|t" (λ n. n) 5)
    ∷ lost true
    ∷ opened 2
    ∷ received (frame "b" "e|t" (λ n. n) 5)
    ∷ received (frame "b" "e|t" (λ n. n) 6)
    ∷ []

sends : Sends "b" "e|t" (λ (n : ℕ). n) 4 steps 6
sends = next_frame (dropped true (reconnected 2 (replayed 5 (omega arith) (next_frame sent_all))))

page-IsAt : IsAt "b" "e|t" (λ (n : ℕ). n) 0 (7 ∷ []) 4 page
unfolding get
page-IsAt = record {
  channel = channel;
  held = refl;
  subscribed = refl;
  resumes = refl;
  seen = refl;
}

run_test : (run_channel 0 steps page).1 ≡ (7, 5) ∷ (7, 6) ∷ []
unfolding run_channel on_message open_source lose_source get put
run_test = refl

run_channel-Sends_example :
    Applied "b" "e|t" (λ (n : ℕ). n) 0 (7 ∷ []) 4 6 (run_channel 0 steps page)
run_channel-Sends_example =
    run_channel-Sends "b" "e|t" (λ (n : ℕ). n) 0 (7 ∷ []) page sends page-IsAt

release_push_channel_stale_example :
    let (s₂, n) =
      acquire_push_channel "e?clientId=t" (some "e|t") 8 (release_push_channel 0 7 page) in
    Abandoned "e?clientId=t" 8 (release_push_channel 0 7 s₂) n
unfolding get
release_push_channel_stale_example =
    release_push_channel_stale "e?clientId=t" (some "e|t") 0 7 8 page refl refl refl refl

abbrev calls : List (PushCall ℕ)
calls = acquire "k" none 5 ∷ acquire "k" none 6 ∷ release 0 5 ∷ []

push_calls-IsOpen_example : IsOpen (push_calls calls no_channels) "k" 0
unfolding push_calls push_call acquire_push_channel release_push_channel get put insert remove
push_calls-IsOpen_example = push_calls-IsOpen calls "k" 0 refl
