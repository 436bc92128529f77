-- ===== src/Broadcast/Tests.antt =====
-- A run of a broadcast channel, with a list that stands for the channel of tokio.
use haunted_house.Common.{ℕ, ◌≡◌, refl, arith, List, [], ◌∷◌, ◌++◌, none, some, Bool, true, false}
use haunted_house.Broadcast.{
  Mpsc, Line, new_line, retain_line, send_line, fetch_next, next, receive_all, broadcast_new,
  subscribe, is_connected, send,
}
use haunted_house.Broadcast.Lines.{MpscLaws}
use haunted_house.Broadcast.History.{History, opened, sent, taken, dropped}
use haunted_house.Broadcast.Delivery.{receive_all-History}

-- The values that wait, and whether the sender has gone; the receiver stays.
abbrev queued : Mpsc ℕ
queued = record {
  Chan = List ℕ × Bool;
  unbounded_channel = ([], false);
  mpsc_send = λ c v. (c.0 ++ (v ∷ []), c.1);
  is_closed = λ c. false;
  drop_sender = λ c. (c.0, true);
  recv = λ c. elim c.0 [
    | v ∷ l ↦ some ((l, c.1), some v)
    | [] ↦ elim c.1 [ true ↦ some (c, none) | false ↦ none ]
  ];
}

recv_some :
    (c : List ℕ × Bool) (v : ℕ) (l : List ℕ)
    → c.0 ≡ v ∷ l
    → (c' : List ℕ × Bool) × (queued.recv c ≡ some (c', some v)) × (c'.0 ≡ l) × (c'.1 ≡ c.1)
recv_some ([], g) v l e = absurd (cc)
recv_some (w ∷ m, g) v l e =
    let a : w ≡ v = cc in let b : m ≡ l = cc in ((m, g), rw a refl, b, refl)

recv_none : (c : List ℕ × Bool) → c.0 ≡ [] → c.1 ≡ true → queued.recv c ≡ some (c, none)
recv_none ([], true) e h = refl
recv_none ([], false) e h = absurd (cc)
recv_none (w ∷ m, g) e h = absurd (cc)

recv_waits : (c : List ℕ × Bool) → c.0 ≡ [] → c.1 ≡ false → queued.recv c ≡ none
recv_waits ([], true) e h = absurd (cc)
recv_waits ([], false) e h = refl
recv_waits (w ∷ m, g) e h = absurd (cc)

abbrev queued_laws : MpscLaws ℕ queued
queued_laws = record {
  waiting = λ c. c.0;
  gone = λ c. c.1;
  new-waiting = refl;
  new-gone = refl;
  send-waiting = λ c v h g. refl;
  send-gone = λ c v. refl;
  drop-waiting = λ c. refl;
  drop-gone = λ c. refl;
  recv-waiting = recv_some;
  recv-gone = recv_none;
  recv-wait = recv_waits;
}

abbrev after_three : Line ℕ queued
after_three = record { channel = (2 ∷ 3 ∷ [], true); listed = true; fetched = none }

-- 1 and 2 are sent, 1 is taken, 3 is sent, and the sender goes.
after_three-History : History ℕ queued queued_laws after_three (1 ∷ 2 ∷ 3 ∷ []) (1 ∷ [])
unfolding new_line retain_line send_line fetch_next next
after_three-History = dropped _ _ _ (
    sent _ _ _ 3
      (taken _ (record { channel = (2 ∷ [], false); listed = true; fetched = none }) _ _ 1
        (sent _ _ _ 2 (sent _ _ _ 1 opened refl refl refl) refl refl refl) refl)
      refl refl refl)

receive_all-History_example : receive_all ℕ queued 4 after_three (1 ∷ []) ≡ some (1 ∷ 2 ∷ 3 ∷ [])
receive_all-History_example =
    receive_all-History ℕ queued queued_laws after_three (1 ∷ 2 ∷ 3 ∷ []) (1 ∷ []) 4
      after_three-History refl (omega arith)

two_receivers : (send ℕ queued 7 (subscribe ℕ queued (broadcast_new ℕ queued))).1 ≡ true
unfolding send subscribe broadcast_new new_line is_connected retain_line send_line
two_receivers = refl
