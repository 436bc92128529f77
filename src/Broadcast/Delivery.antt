-- ===== src/Broadcast/Delivery.antt =====
-- query/broadcast.rs: the history of a line, and the end of it.
use haunted_house.Common.{
  ℕ, zero, suc, ◌<◌, ◌≡◌, sym, ap, ◌∙◌, subst, arith, List, [], ◌∷◌, ◌++◌, append-nil, append_assoc,
  some, true, length, length-append,
}
use haunted_house.Broadcast.{Mpsc, Line, new_line, retain_line, send_line, receive_all}
use haunted_house.Broadcast.Lines.{
  MpscLaws, line, pending, is_gone, Fetching, fetch_next-Fetching, Sound, Outcome, took, ended,
  waiting, next-Outcome,
}
use haunted_house.Broadcast.History.{
  History, opened, sent, taken, finished, peeked, skipped, dropped, Kept, taken-Kept, finished-Kept,
  peeked-Kept, sent-Kept, dropped-Kept, skipped-Kept,
}

module _ (T : Type 0) (m : Mpsc T) (laws : MpscLaws T m) where
  fetched_of : (l : Line T m) → Sound T m laws l → Fetching T m laws l.channel l.listed l.fetched
  fetched_of l ok = fetch_next-Fetching T m laws l.channel l.listed l.fetched ok

  listed_line :
      (l : Line T m) (s r : List T) (v : T)
      → l.listed ≡ true
      → Kept T m laws
          (retain_line T m (send_line T m v (line T m laws l.channel true l.fetched)))
          s
          r
      → Kept T m laws (retain_line T m (send_line T m v l)) s r
  listed_line l s r v e k =
      subst
        (λ b.
          Kept T m laws (retain_line T m (send_line T m v (line T m laws l.channel b l.fetched))) s
            r)
        (sym e) k

  -- Whatever the two ends of a line do while the receiver stays, the values sent on it are those that
  -- the receiver has taken or skipped, followed by those that it has still to take, in the order in
  -- which they were sent.
  pub History-pending :
      (l : Line T m) (s r : List T)
      → History T m laws l s r
      → (s ≡ r ++ pending T m laws l) × Sound T m laws l
  unfolding new_line
  History-pending _ _ _ opened = (sym laws.new-waiting, tt)
  History-pending _ _ _ (sent l s r v h e listens there) =
      listed_line l (s ++ (v ∷ [])) r v e
        (sent-Kept T m laws l.channel l.fetched s r v (History-pending l s r h) listens there)
  History-pending _ _ _ (taken l l' s r v h e) =
      let k = History-pending l s r h in
      taken-Kept T m laws l l' s r v k e (next-Outcome T m laws l k.1)
  History-pending _ _ _ (finished l l' s r h e) =
      let k = History-pending l s r h in
      finished-Kept T m laws l l' s r k e (next-Outcome T m laws l k.1)
  History-pending _ _ _ (peeked l l' s r item h e) =
      let k = History-pending l s r h in
      peeked-Kept T m laws l.channel l.listed l.fetched l' s r item k e (fetched_of l k.1)
  History-pending _ _ _ (skipped l l' s r h e) =
      let k = History-pending l s r h in
      skipped-Kept T m laws l.channel l.listed l.fetched l' s r k e (fetched_of l k.1)
  History-pending _ _ _ (dropped l s r h) =
      dropped-Kept T m laws l.channel l.listed l.fetched s r (History-pending l s r h)

  receive_all_step :
      (fuel : ℕ) (l : Line T m) (r : List T)
      → Sound T m laws l
      → is_gone T m laws l ≡ true
      → length (pending T m laws l) < suc fuel
      → Outcome T m laws l
      → ((l' : Line T m) (r' : List T)
          → Sound T m laws l'
          → is_gone T m laws l' ≡ true
          → length (pending T m laws l') < fuel
          → receive_all T m fuel l' r' ≡ some (r' ++ pending T m laws l'))
      → receive_all T m (suc fuel) l r ≡ some (r ++ pending T m laws l)
  unfolding receive_all
  receive_all_step fuel l r ok g enough (took v l' e p g' ok') ih =
      rw (e, receive_all, p)
        (ih l' (r ++ (v ∷ [])) ok' (g' ∙ g) (omega (arith, enough, ap length p))
          ∙ ap some (append_assoc r (v ∷ []) (pending T m laws l')))
  receive_all_step fuel l r ok g enough (ended l' e p g' p' ok') ih =
      rw (e, receive_all, p) (ap some (sym (append-nil r)))
  receive_all_step fuel l r ok g enough (waiting e p g') ih = absurd (cc)

  receive_all-pending :
      (fuel : ℕ) (l : Line T m) (r : List T)
      → Sound T m laws l
      → is_gone T m laws l ≡ true
      → length (pending T m laws l) < fuel
      → receive_all T m fuel l r ≡ some (r ++ pending T m laws l)
  receive_all-pending zero l r ok g enough = absurd (omega arith)
  receive_all-pending (suc fuel) l r ok g enough =
      receive_all_step fuel l r ok g enough (next-Outcome T m laws l ok)
        (λ l' r' ok' g' enough'. receive_all-pending fuel l' r' ok' g' enough')

  -- Once the sender has gone, a receiver that goes on until its channel ends gets to the end, in no more
  -- rounds than values were sent and one, and has then received what was sent, each value once and in
  -- order, whatever the two ends did before.
  pub receive_all-History :
      (l : Line T m) (s r : List T) (fuel : ℕ)
      → History T m laws l s r
      → is_gone T m laws l ≡ true
      → length s < fuel
      → receive_all T m fuel l r ≡ some s
  receive_all-History l s r fuel h g enough =
      let (k, ok) = History-pending l s r h in
      receive_all-pending fuel l r ok g
        (omega (arith, enough, ap length k, length-append r (pending T m laws l)))
      ∙ ap some (sym k)
