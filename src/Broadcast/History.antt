-- ===== src/Broadcast/History.antt =====
-- query/broadcast.rs: each call at an end of a line keeps what was sent.
use haunted_house.Common.{
  ◌≡◌, refl, sym, ap, ◌∙◌, subst, List, [], ◌∷◌, ◌++◌, append-nil, append_assoc, Option, none, some,
  Bool, true, false,
}
use haunted_house.Broadcast.{Mpsc, Line, new_line, retain_line, send_line, next, peek, skip}
use haunted_house.Broadcast.Lines.{
  MpscLaws, line, pending_of, pending, is_gone, Fetching, got, over, waits, Sound, Outcome, took,
  ended, waiting,
}

module _ (T : Type 0) (m : Mpsc T) (laws : MpscLaws T m) where
  -- The first of the values, if there is one.
  abbrev pub first : List T → List T
  first [] = []
  first (v ∷ l) = v ∷ []

  -- The line after any calls at its two ends, the values sent on it, and those that its receiver has
  -- taken or skipped. The receiver stays, and the sender may go.
  pub data History : Line T m → List T → List T → Type 0 where
    opened : History (new_line T m) [] []
    sent :
        (l : Line T m) (s r : List T) (v : T)
        → History l s r
        → l.listed ≡ true
        → m.is_closed l.channel ≡ false
        → is_gone T m laws l ≡ false
        → History (retain_line T m (send_line T m v l)) (s ++ (v ∷ [])) r
    taken :
        (l l' : Line T m) (s r : List T) (v : T)
        → History l s r
        → next T m l ≡ some (l', some v)
        → History l' s (r ++ (v ∷ []))
    finished :
        (l l' : Line T m) (s r : List T)
        → History l s r
        → next T m l ≡ some (l', none)
        → History l' s r
    peeked :
        (l l' : Line T m) (s r : List T) (item : Option T)
        → History l s r
        → peek T m l ≡ some (l', item)
        → History l' s r
    skipped :
        (l l' : Line T m) (s r : List T)
        → History l s r
        → skip T m l ≡ some l'
        → History l' s (r ++ first (pending T m laws l))
    dropped :
        (l : Line T m) (s r : List T)
        → History l s r
        → History (record l { channel = m.drop_sender l.channel }) s r

  -- What was sent is what was received and what is pending.
  abbrev pub Kept : Line T m → List T → List T → Type 0
  Kept l s r = (s ≡ r ++ pending T m laws l) × Sound T m laws l

  same_line :
      {A : Type 0} (l l' : Line T m) (a b : A) (o : Option (Line T m × A))
      → o ≡ some (l, a)
      → o ≡ some (l', b)
      → (l ≡ l') × (a ≡ b)
  same_line l l' a b o e e' = (cc, cc)

  pub taken-Kept :
      (l l' : Line T m) (s r : List T) (v : T)
      → Kept l s r
      → next T m l ≡ some (l', some v)
      → Outcome T m laws l
      → Kept l' s (r ++ (v ∷ []))
  taken-Kept l l' s r v (k, ok) e (took w l'' e' p g ok') =
      let (a, b) = same_line l'' l' (some w) (some v) (next T m l) e' e in
      let same : w ≡ v = cc in
      subst (λ x. Kept x s (r ++ (v ∷ []))) a
        (k ∙ rw (p, same) (sym (append_assoc r (v ∷ []) (pending T m laws l''))), ok')
  taken-Kept l l' s r v k e (ended l'' e' p g p' ok') = absurd (cc)
  taken-Kept l l' s r v k e (waiting e' p g) = absurd (cc)

  pub finished-Kept :
      (l l' : Line T m) (s r : List T)
      → Kept l s r
      → next T m l ≡ some (l', none)
      → Outcome T m laws l
      → Kept l' s r
  finished-Kept l l' s r k e (took w l'' e' p g ok') = absurd (cc)
  finished-Kept l l' s r (k, ok) e (ended l'' e' p g p' ok') =
      let (a, b) = same_line l'' l' none none (next T m l) e' e in
      subst (λ x. Kept x s r) a (k ∙ rw (p, p') refl, ok')
  finished-Kept l l' s r k e (waiting e' p g) = absurd (cc)

  pub peeked-Kept :
      (c : m.Chan) (listed : Bool) (fetched : Option (Option T)) (l' : Line T m) (s r : List T)
      (item : Option T)
      → Kept (line T m laws c listed fetched) s r
      → peek T m (line T m laws c listed fetched) ≡ some (l', item)
      → Fetching T m laws c listed fetched
      → Kept l' s r
  unfolding peek
  peeked-Kept c listed fetched l' s r item (k, ok) e (got v c' e' p g) =
      let same : line T m laws c' listed (some (some v)) ≡ l' = cc (rw (e', peek) at e) in
      subst (λ x. Kept x s r) same (k ∙ ap (λ x. r ++ x) p, tt)
  peeked-Kept c listed fetched l' s r item (k, ok) e (over e' p w g) =
      let same : line T m laws c listed (some none) ≡ l' = cc (rw (e', peek) at e) in
      subst (λ x. Kept x s r) same (k ∙ ap (λ x. r ++ x) p, (w, g))
  peeked-Kept c listed fetched l' s r item (k, ok) e (waits e' p g) =
      absurd (cc (rw (e', peek) at e))

  pub sent-Kept :
      (c : m.Chan) (fetched : Option (Option T)) (s r : List T) (v : T)
      → Kept (line T m laws c true fetched) s r
      → m.is_closed c ≡ false
      → laws.gone c ≡ false
      → Kept (retain_line T m (send_line T m v (line T m laws c true fetched))) (s ++ (v ∷ [])) r
  unfolding retain_line send_line
  sent-Kept c none s r v (k, ok) listens there =
      (rw (k, laws.send-waiting c v listens there) (append_assoc r (laws.waiting c) (v ∷ [])), tt)
  sent-Kept c (some none) s r v (k, ok) listens there = absurd (cc)
  sent-Kept c (some (some w)) s r v (k, ok) listens there = (
    rw (k, laws.send-waiting c v listens there) (append_assoc r (w ∷ laws.waiting c) (v ∷ [])),
    tt,
  )

  pub dropped-Kept :
      (c : m.Chan) (listed : Bool) (fetched : Option (Option T)) (s r : List T)
      → Kept (line T m laws c listed fetched) s r
      → Kept (line T m laws (m.drop_sender c) listed fetched) s r
  dropped-Kept c listed none s r (k, ok) = (rw (laws.drop-waiting c) k, tt)
  dropped-Kept c listed (some none) s r (k, ok) =
      (k, (rw (laws.drop-waiting c) ok.0, laws.drop-gone c))
  dropped-Kept c listed (some (some w)) s r (k, ok) = (rw (laws.drop-waiting c) k, tt)

  pub skipped-Kept :
      (c : m.Chan) (listed : Bool) (fetched : Option (Option T)) (l' : Line T m) (s r : List T)
      → Kept (line T m laws c listed fetched) s r
      → skip T m (line T m laws c listed fetched) ≡ some l'
      → Fetching T m laws c listed fetched
      → Kept l' s (r ++ first (pending_of T m laws c fetched))
  unfolding skip
  skipped-Kept c listed (some none) l' s r (k, ok) e f =
      let same : line T m laws c listed none ≡ l' = cc in
      subst (λ x. Kept x s (r ++ [])) same (k ∙ rw (ok.0) (sym (append-nil (r ++ []))), tt)
  skipped-Kept c listed (some (some w)) l' s r (k, ok) e f =
      let same : line T m laws c listed none ≡ l' = cc in
      subst (λ x. Kept x s (r ++ (w ∷ []))) same
        (k ∙ sym (append_assoc r (w ∷ []) (laws.waiting c)), tt)
  skipped-Kept c listed none l' s r (k, ok) e (got v c' e' p g) =
      let same : line T m laws c' listed none ≡ l' = cc (rw (e', skip) at e) in
      rw p (
        subst (λ x. Kept x s (r ++ (v ∷ []))) same
          (k ∙ rw p (sym (append_assoc r (v ∷ []) (laws.waiting c'))), tt))
  skipped-Kept c listed none l' s r (k, ok) e (over e' p w g) =
      let same : line T m laws c listed none ≡ l' = cc (rw (e', skip) at e) in
      rw p (subst (λ x. Kept x s (r ++ [])) same (k ∙ rw (append-nil r) refl, tt))
  skipped-Kept c listed none l' s r (k, ok) e (waits e' p g) = absurd (cc (rw (e', skip) at e))
