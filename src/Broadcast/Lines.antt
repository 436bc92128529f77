-- ===== src/Broadcast/Lines.antt =====
-- query/broadcast.rs: what is sent on a line arrives once and in order.
use haunted_house.Common.{
  ◌≡◌, refl, sym, ap, ◌∙◌, List, [], ◌∷◌, ◌++◌, Option, none, some, Bool, true, false,
}
use haunted_house.Broadcast.{Mpsc, Line, fetch_next, next}

-- What tokio documents of an unbounded channel: values arrive in the order in which they were sent,
-- sending to a receiver that listens adds a value, and a receiver gets no value once the sender has
-- gone and all values were received.
pub record MpscLaws (T : Type 0) (m : Mpsc T) : Type 0 where
  pub waiting : m.Chan → List T
  pub gone : m.Chan → Bool
  pub new-waiting : waiting m.unbounded_channel ≡ []
  pub new-gone : gone m.unbounded_channel ≡ false
  pub send-waiting :
      (c : m.Chan) (v : T)
      → m.is_closed c ≡ false
      → gone c ≡ false
      → waiting (m.mpsc_send c v) ≡ waiting c ++ (v ∷ [])
  pub send-gone : (c : m.Chan) (v : T) → gone (m.mpsc_send c v) ≡ gone c
  pub drop-waiting : (c : m.Chan) → waiting (m.drop_sender c) ≡ waiting c
  pub drop-gone : (c : m.Chan) → gone (m.drop_sender c) ≡ true
  pub recv-waiting :
      (c : m.Chan) (v : T) (l : List T)
      → waiting c ≡ v ∷ l
      → (c' : m.Chan) × (m.recv c ≡ some (c', some v)) × (waiting c' ≡ l) × (gone c' ≡ gone c)
  pub recv-gone : (c : m.Chan) → waiting c ≡ [] → gone c ≡ true → m.recv c ≡ some (c, none)
  pub recv-wait : (c : m.Chan) → waiting c ≡ [] → gone c ≡ false → m.recv c ≡ none

module _ (T : Type 0) (m : Mpsc T) (laws : MpscLaws T m) where
  abbrev pub line : m.Chan → Bool → Option (Option T) → Line T m
  line c listed fetched = record { channel = c; listed = listed; fetched = fetched }

  -- The values that the receiver of the line has not taken yet.
  abbrev pub pending_of : m.Chan → Option (Option T) → List T
  pending_of c none = laws.waiting c
  pending_of c (some none) = []
  pending_of c (some (some v)) = v ∷ laws.waiting c

  abbrev pub pending : Line T m → List T
  pending l = pending_of l.channel l.fetched

  abbrev pub is_gone : Line T m → Bool
  is_gone l = laws.gone l.channel

  -- The end was fetched only if it had come.
  abbrev pub EndOk : m.Chan → Option (Option T) → Type 0
  EndOk c none = Unit {0}
  EndOk c (some none) = (laws.waiting c ≡ []) × (laws.gone c ≡ true)
  EndOk c (some (some v)) = Unit {0}

  -- What fetching does: the next value, or the end, is at hand; or it waits.
  pub data Fetching (c : m.Chan) (listed : Bool) (fetched : Option (Option T)) : Type 0 where
    got :
        (v : T) (c' : m.Chan)
        → fetch_next T m (line c listed fetched) ≡ some (line c' listed (some (some v)))
        → pending_of c fetched ≡ v ∷ laws.waiting c'
        → laws.gone c' ≡ laws.gone c
        → Fetching c listed fetched
    over :
        fetch_next T m (line c listed fetched) ≡ some (line c listed (some none))
        → pending_of c fetched ≡ []
        → laws.waiting c ≡ []
        → laws.gone c ≡ true
        → Fetching c listed fetched
    waits :
        fetch_next T m (line c listed fetched) ≡ none
        → pending_of c fetched ≡ []
        → laws.gone c ≡ false
        → Fetching c listed fetched

  fetch_empty :
      (c : m.Chan) (listed g : Bool) (l : List T)
      → laws.waiting c ≡ l
      → laws.gone c ≡ g
      → Fetching c listed none
  unfolding fetch_next
  fetch_empty c listed g (v ∷ l) e eg =
      let (c', run, left, same) = laws.recv-waiting c v l e in
      got v c' (rw (fetch_next, run) refl) (e ∙ ap (◌∷◌ v) (sym left)) same
  fetch_empty c listed true [] e eg = over (rw (fetch_next, laws.recv-gone c e eg) refl) e e eg
  fetch_empty c listed false [] e eg = waits (rw (fetch_next, laws.recv-wait c e eg) refl) e eg

  pub fetch_next-Fetching :
      (c : m.Chan) (listed : Bool) (fetched : Option (Option T))
      → EndOk c fetched
      → Fetching c listed fetched
  unfolding fetch_next
  fetch_next-Fetching c listed none ok =
      fetch_empty c listed (laws.gone c) (laws.waiting c) refl refl
  fetch_next-Fetching c listed (some none) ok = over refl refl ok.0 ok.1
  fetch_next-Fetching c listed (some (some v)) ok = got v c refl refl refl

  abbrev pub Sound : Line T m → Type 0
  Sound l = EndOk l.channel l.fetched

  -- What next does: it takes the first pending value; or gives no value, where none is pending and
  -- the sender has gone; or waits, where none is pending and the sender is there.
  pub data Outcome (l : Line T m) : Type 0 where
    took :
        (v : T) (l' : Line T m)
        → next T m l ≡ some (l', some v)
        → pending l ≡ v ∷ pending l'
        → is_gone l' ≡ is_gone l
        → Sound l'
        → Outcome l
    ended :
        (l' : Line T m)
        → next T m l ≡ some (l', none)
        → pending l ≡ []
        → is_gone l ≡ true
        → pending l' ≡ []
        → Sound l'
        → Outcome l
    waiting : next T m l ≡ none → pending l ≡ [] → is_gone l ≡ false → Outcome l

  Fetching-Outcome :
      (c : m.Chan) (listed : Bool) (fetched : Option (Option T))
      → Fetching c listed fetched
      → Outcome (line c listed fetched)
  unfolding next
  Fetching-Outcome c listed fetched (got v c' e p g) =
      took v (line c' listed none) (rw (next, e) refl) p g tt
  Fetching-Outcome c listed fetched (over e p w g) =
      ended (line c listed none) (rw (next, e) refl) p g w tt
  Fetching-Outcome c listed fetched (waits e p g) = waiting (rw (next, e) refl) p g

  pub next-Outcome : (l : Line T m) → Sound l → Outcome l
  next-Outcome l ok =
      Fetching-Outcome l.channel l.listed l.fetched
        (fetch_next-Fetching l.channel l.listed l.fetched ok)
