-- ===== src/Mq/Channel.antt =====
-- `ChanBus` of pkg/mq/mq.go. A handler changes the state `World`, as in the bus over Redis.
use go_shortvideo.Prelude.{
  ℕ, String, Option, none, some, List, [], ◌∷◌, ◌++◌, ltb, length, if◌then◌else◌,
}
use go_shortvideo.TextDict.{lookup, insert}
use go_shortvideo.Mq.Bus.{Handler}

pub record Message : Type 0 where
  pub topic : String
  pub payload : List ℕ

-- `size` is the capacity of the channel, `ch` what is in it, the oldest first.
pub record ChanBus (World : Type 0) : Type 0 where
  pub size : ℕ
  pub ch : List Message
  pub handlers : List (String × Handler World)

unfoldable pub new_chan_bus : {World : Type 0} → ℕ → ChanBus World
new_chan_bus buf = record { size = buf; ch = []; handlers = [] }

module _ {World : Type 0} where
  -- `none` where the sender waits for room.
  unfoldable pub publish : String → List ℕ → ChanBus World → Option (ChanBus World)
  publish topic payload b =
      if ltb (length b.ch) b.size
      then some (record b { ch = b.ch ++ (record { topic = topic; payload = payload } ∷ []) })
      else none

  unfoldable pub subscribe : String → Handler World → ChanBus World → ChanBus World
  subscribe topic h b = record b { handlers = insert topic h b.handlers }

  -- One turn of the loop of `Run`; with nothing in the channel it waits.
  unfoldable pub run_once : ChanBus World → World → ChanBus World × World
  run_once b w = elim b.ch [
    | [] ↦ (b, w)
    | msg ∷ rest ↦
        let b' = record b { ch = rest } in
        elim (lookup msg.topic b.handlers) [ none ↦ (b', w) | some h ↦ (b', (h msg.payload w).1) ]
  ]
