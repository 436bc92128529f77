-- ===== src/Journal/Progress.antt =====
-- worker/journal.rs: the reads of one block, and how much of its data they have given.
use haunted_house.Common.{
  ℕ, zero, suc, ◌+◌, ◌≤◌, ◌<◌, ◌≡◌, refl, sym, ap, ◌∙◌, arith, List, [], ◌∷◌, ◌++◌, append_assoc,
  append-nil, some, Bool, true, false, take, drop, length, length-append, ◌==◌, ◌⊎◌, inl, inr,
  subst, drop-length-append,
}
use haunted_house.Journal.Blocks.{Cobs}
use haunted_house.Journal.Cursor.{
  CobsDecoder, read_size, CobsReader, feed_bytes, cobs_feed, cobs_read,
}
use haunted_house.Journal.Feed.{
  DecoderLaws, feed_bytes-delta, feed_bytes_complete, feed_bytes-append, take_some, append-cancel,
  drop-add, take_cases,
}

module _ (d : CobsDecoder) where
  cobs_read-fed :
      (file buffer buffer' : List ℕ) (r : CobsReader d.State) (s : d.State) (c : Bool)
      → (let piece = take read_size (drop r.address file) in
          r.finished ≡ false
          → (length piece == 0) ≡ false
          → feed_bytes d r.decoder piece buffer ≡ some (s, buffer', c)
          → cobs_read d file r buffer
            ≡ some (
              record { address = r.address + length piece; decoder = s; finished = c },
              buffer',
              true,
            ))
  unfolding cobs_read cobs_feed
  cobs_read-fed file buffer buffer' r s c nf ne ef = rw (nf, ne, cobs_feed, ef) refl

  cobs_read-piece :
      (file buffer piece buffer' : List ℕ) (r : CobsReader d.State) (s : d.State) (c : Bool)
      → r.finished ≡ false
      → take read_size (drop r.address file) ≡ piece
      → (length piece == 0) ≡ false
      → feed_bytes d r.decoder piece buffer ≡ some (s, buffer', c)
      → cobs_read d file r buffer
        ≡ some (
          record { address = r.address + length piece; decoder = s; finished = c },
          buffer',
          true,
        )
  cobs_read-piece file buffer piece buffer' r s c nf et =
      subst
        (λ p.
          (length p == 0) ≡ false
          → feed_bytes d r.decoder p buffer ≡ some (s, buffer', c)
          → cobs_read d file r buffer
            ≡ some (
              record { address = r.address + length p; decoder = s; finished = c },
              buffer',
              true,
            ))
        et (cobs_read-fed file buffer buffer' r s c nf)

module _ (cobs : Cobs) (d : CobsDecoder) (laws : DecoderLaws cobs d) where
  abbrev pub code : List ℕ → List ℕ
  code bytes = cobs.encode bytes ++ (0 ∷ [])

  -- A reader on the block that stands at an address: how many bytes of the block are left to read,
  -- what was decoded of its data, and the rest of the data.
  abbrev pub Progress : ℕ → List ℕ → ℕ → CobsReader d.State → List ℕ → List ℕ → Type 0
  Progress start bytes zero r out rest = (r.finished ≡ true) × (rest ≡ [])
  Progress start bytes (suc n) r out rest =
      (front : List ℕ) × (x : ℕ) × (back : List ℕ) × (r.finished ≡ false)
      × (code bytes ≡ front ++ (x ∷ back))
      × (length back ≡ n)
      × (r.address ≡ start + length front)
      × (feed_bytes d d.idle front [] ≡ some (r.decoder, out, false))
      × (bytes ≡ out ++ rest)

  -- Where a piece that was fed ends: in the block, or behind it.
  feed_piece :
      (bytes front back behind out rest : List ℕ) (x : ℕ) (s : d.State)
      → code bytes ≡ front ++ (x ∷ back)
      → feed_bytes d d.idle front [] ≡ some (s, out, false)
      → bytes ≡ out ++ rest
      → (let piece = take read_size ((x ∷ back) ++ behind) in
          (s' : d.State) × (o : List ℕ) × (rest' : List ℕ) × (c : Bool) × ((buffer : List ℕ)
            → feed_bytes d s piece buffer ≡ some (s', buffer ++ o, c))
          × (rest ≡ o ++ rest')
          × (((c ≡ true) × (rest' ≡ []))
              ⊎ ((y : ℕ) × (back' : List ℕ) × (c ≡ false)
                  × (20 ≤ length (out ++ o))
                  × (x ∷ back ≡ piece ++ (y ∷ back'))
                  × (length piece ≡ read_size))))
  feed_piece bytes front back behind out rest x s ec ef eb =
      elim (take_cases read_size (x ∷ back) behind) [
        | inl (y, back', e, n) ↦
            let piece = take read_size ((x ∷ back) ++ behind) in
            let cut : code bytes ≡ (front ++ piece) ++ (y ∷ back') =
              ec ∙ ap (λ l. front ++ l) e ∙ sym (append_assoc front piece (y ∷ back')) in
            let (t, out', rest', ft, fb, bound) =
              laws.feed-front bytes (front ++ piece) back' y cut in
            let fed : feed_bytes d s piece out ≡ some (t, out', false) =
              sym (feed_bytes-append d front piece d.idle s [] out ef) ∙ ft in
            let (o, eo, f) = feed_bytes-delta d piece s t out out' false fed in
            (
              t,
              o,
              rest',
              false,
              f,
              append-cancel out rest (o ++ rest') (sym eb ∙ fb ∙ rw (eo, append_assoc) refl),
              inr (
                y,
                back',
                refl,
                rw (← eo) (omega (arith, bound, n, length-append front piece)),
                e,
                n,
              ),
            )
        | inr (more, e) ↦
            let (t, whole) = laws.feed-whole bytes in
            let ends : feed_bytes d s (x ∷ back) out ≡ some (t, bytes, true) =
              sym (feed_bytes-append d front (x ∷ back) d.idle s [] out ef) ∙ rw ec at whole in
            let all : feed_bytes d s (take read_size ((x ∷ back) ++ behind)) out
                ≡ some (t, bytes, true) =
              rw e (feed_bytes_complete d (x ∷ back) more s t out bytes ends) in
            let (o, eo, f) =
              feed_bytes-delta d (take read_size ((x ∷ back) ++ behind)) s t out bytes true all in
            (
              t,
              o,
              [],
              true,
              f,
              append-cancel out rest (o ++ []) (rw (← eb, append-nil) eo),
              inl (refl, refl),
            )
      ]

  -- A read of a block that is not over gives more of its data, behind the buffer, and leaves less to
  -- read; the first read gives all of the data or 20 bytes.
  pub cobs_read-Progress :
      (bytes file behind buffer out rest : List ℕ) (start n : ℕ) (r : CobsReader d.State)
      → drop start file ≡ code bytes ++ behind
      → Progress start bytes (suc n) r out rest
      → (r' : CobsReader d.State) × (o : List ℕ) × (rest' : List ℕ) × (m : ℕ) × (cobs_read d file r
            buffer
          ≡ some (r', buffer ++ o, true))
        × (m < suc n)
        × (rest ≡ o ++ rest')
        × Progress start bytes m r' (out ++ o) rest'
        × ((rest' ≡ []) ⊎ (20 ≤ length (out ++ o)))
  cobs_read-Progress bytes file behind buffer out rest start n r ed
        (front, x, back, nf, ec, nb, ea, ef, eb) =
      let at : drop r.address file ≡ (x ∷ back) ++ behind =
        rw (ea, drop-add start (length front) file, ed, ec, append_assoc, drop-length-append)
          refl in
      let piece = take read_size ((x ∷ back) ++ behind) in
      let (s', o, rest', c, f, er, cases) =
        feed_piece bytes front back behind out rest x r.decoder ec ef eb in
      let run =
        cobs_read-piece d file buffer piece (buffer ++ o) r s' c nf (ap (take read_size) at)
          (take_some read_size x (back ++ behind) (omega arith)) (f buffer) in
      elim cases [
        | inl (ec1, e0) ↦ (_, o, rest', 0, run, omega arith, er, (ec1, e0), inl e0)
        | inr (y, back', ec0, enough, cut, full) ↦
            let fed = feed_bytes-append d front piece d.idle r.decoder [] out ef ∙ f out in
            (
              _,
              o,
              rest',
              suc (length back'),
              run,
              omega (arith, nb, full, ap length cut, length-append piece (y ∷ back')),
              er,
              (
                front ++ piece,
                y,
                back',
                ec0,
                ec ∙ ap (λ l. front ++ l) cut ∙ sym (append_assoc front piece (y ∷ back')),
                refl,
                omega (arith, ea, length-append front piece),
                rw ec0 at fed,
                eb ∙ rw (er, append_assoc) refl,
              ),
              inr enough,
            )
      ]
