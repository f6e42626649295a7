-- ===== src/Examples/Output.antt =====
-- The subscriptions of src/native_runtime.rs, with a channel that is its capacity and what it holds.
use ferrous_framework.Base.{
  ℕ, ◌≡◌, refl, String, Option, some, List, [], ◌∷◌, ◌++◌, length, ltb, if◌then◌else◌, arith,
}
use ferrous_framework.Shell.Record.{Capabilities}
use ferrous_framework.Output.Map.{stdout, Key, get, total}
use ferrous_framework.Output.Defs.{
  Chunk, Sent, sent, full, Subscriptions, subscribe_output, broadcast_locked,
  broadcast_output_batch, drain,
}
use ferrous_framework.Output.Counted.{
  IsCounted, broadcast_output_batch-IsCounted, broadcast_output_batch-locked,
  subscribe_output-IsCounted,
}
use ferrous_framework.Output.Delivery.{IsChannel, Received, drain-Received}
use ferrous_framework.Examples.Shell.{all_of_them}

abbrev Channel : Type 0
Channel = ℕ × List Chunk

abbrev try_send : Channel → Chunk → Sent × Channel
try_send (capacity, held) c =
    if ltb (length held) capacity
    then (sent, (capacity, held ++ c ∷ []))
    else (full, (capacity, held))

abbrev entries : String → Option Capabilities
entries shell_id = some all_of_them

abbrev key : Key
key = ("w-1", stdout)

-- one subscriber has room for two chunks, one for a single chunk
abbrev subscribed : Subscriptions Channel
subscribed = record {
  subscribers = (key, (2, []) ∷ (1, []) ∷ []) ∷ [];
  dropped = [];
  subscriber_count = 2;
}

abbrev batch : List (List ℕ)
batch = (97 ∷ []) ∷ (98 ∷ []) ∷ []

subscribed-IsCounted : IsCounted subscribed
unfolding total get
subscribed-IsCounted = record { unique = (refl, tt); filled = (omega arith, tt); count = refl }

broadcast_output_batch-IsCounted_example :
    IsCounted (broadcast_output_batch try_send "w-1" stdout batch subscribed)
broadcast_output_batch-IsCounted_example =
    broadcast_output_batch-IsCounted try_send "w-1" stdout batch subscribed subscribed-IsCounted

broadcast_output_batch-locked_example :
    broadcast_output_batch try_send "w-1" stdout batch subscribed
    ≡ broadcast_locked try_send key batch subscribed
broadcast_output_batch-locked_example =
    broadcast_output_batch-locked try_send "w-1" stdout batch subscribed subscribed-IsCounted refl

abbrev open_channel : ℕ → Channel
open_channel capacity = (capacity, [])

subscribe_output-IsCounted_example :
    IsCounted (subscribe_output open_channel entries "w-1" stdout 3 subscribed).1
subscribe_output-IsCounted_example =
    subscribe_output-IsCounted open_channel entries "w-1" stdout 3 subscribed subscribed-IsCounted
      (omega arith)

abbrev queue : Channel → List Chunk
queue (capacity, held) = held

channel : IsChannel try_send queue
channel = record { sends = λ tx tx' c h. adds tx tx' c h }
  where
    adds :
        (tx tx' : Channel) (c : Chunk)
        → try_send tx c ≡ (sent, tx')
        → queue tx' ≡ queue tx ++ c ∷ []
    adds (capacity, held) (capacity', held') c h = ground arith

drain-Received_example :
    Received try_send queue key batch
      ((2, []) ∷ (1, []) ∷ [])
      (drain try_send key batch ((2, []) ∷ (1, []) ∷ []) 0).retained
drain-Received_example = drain-Received try_send queue key batch channel ((2, []) ∷ (1, []) ∷ []) 0
