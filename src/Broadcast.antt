-- ===== src/Broadcast.antt =====
-- query/broadcast.rs: channels on which every receiver gets what is sent after it subscribed. Each
-- receiver shares a channel of the crate tokio with the sender, and a line is that channel with the
-- state that its two ends keep. A broadcast channel is the list of its lines; labels are for logs.
pub mod Lines
pub mod History
pub mod Delivery
mod Tests
use haunted_house.Common.{
  ℕ, zero, suc, List, [], ◌∷◌, ◌++◌, map, Option, none, some, Bool, true, false, not, ◌&&◌, any,
}

-- tokio::sync::mpsc::unbounded_channel: what its ends share. `recv` gives `none` while it waits, and no
-- value once the sender has gone and nothing is left.
pub record Mpsc (T : Type 0) : Type 1 where
  pub Chan : Type 0
  pub unbounded_channel : Chan
  pub mpsc_send : Chan → T → Chan
  pub is_closed : Chan → Bool
  pub drop_sender : Chan → Chan
  pub recv : Chan → Option (Chan × Option T)

module _ (T : Type 0) (m : Mpsc T) where
  -- `listed` says that the sender still has its end among its outputs.
  pub record Line : Type 0 where
    pub channel : m.Chan
    pub listed : Bool
    pub fetched : Option (Option T)

  unfoldable pub new_line : Line
  new_line = record { channel = m.unbounded_channel; listed = true; fetched = none }

  -- `channel`
  unfoldable pub broadcast_new : List Line
  broadcast_new = new_line ∷ []

  -- Sender::subscribe
  unfoldable pub subscribe : List Line → List Line
  subscribe lines = lines ++ (new_line ∷ [])

  -- Sender::is_connected: the outputs that it retains, and whether there are any.
  unfoldable pub retain_line : Line → Line
  retain_line l = record l { listed = l.listed && not (m.is_closed l.channel) }

  unfoldable pub is_connected : List Line → List Line × Bool
  is_connected lines = (map retain_line lines, any (λ l. l.listed) (map retain_line lines))

  unfoldable pub send_line : T → Line → Line
  send_line value l = elim l.listed [
    | true ↦ record l { channel = m.mpsc_send l.channel value }
    | false ↦ l
  ]

  -- Sender::send
  unfoldable pub send : T → List Line → List Line × Bool
  send value lines = is_connected (map (send_line value) lines)

  -- Receiver::fetch_next
  unfoldable pub fetch_next : Line → Option Line
  fetch_next l = elim l.fetched [
    | some item ↦ some l
    | none ↦ elim (m.recv l.channel) [
      | none ↦ none
      | some (c, item) ↦ some (record l { channel = c; fetched = some item })
    ]
  ]

  -- Receiver::next; the second `none` is the panic of an unwrap.
  unfoldable pub next : Line → Option (Line × Option T)
  next l = elim (fetch_next l) [
    | none ↦ none
    | some l' ↦ elim l'.fetched [
      | none ↦ none
      | some item ↦ some (record l' { fetched = none }, item)
    ]
  ]

  -- Receiver::peek
  unfoldable pub peek : Line → Option (Line × Option T)
  peek l = elim (fetch_next l) [
    | none ↦ none
    | some l' ↦ elim l'.fetched [ none ↦ none | some item ↦ some (l', item) ]
  ]

  -- Receiver::skip
  unfoldable pub skip : Line → Option Line
  skip l = elim l.fetched [
    | some item ↦ some (record l { fetched = none })
    | none ↦ elim (fetch_next l) [ none ↦ none | some l' ↦ some (record l' { fetched = none }) ]
  ]

  -- The loop of worker/journal.rs that reads the root of a query until its channel ends.
  unfoldable pub receive_all : ℕ → Line → List T → Option (List T)
  receive_all zero l output = none
  receive_all (suc fuel) l output = elim (next l) [
    | none ↦ none
    | some (l', none) ↦ some output
    | some (l', some value) ↦ receive_all fuel l' (output ++ (value ∷ []))
  ]
