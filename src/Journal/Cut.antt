-- ===== src/Journal/Cut.antt =====
-- worker/journal.rs: where a data file is cut behind the last block.
use haunted_house.Common.{
  ℕ, zero, suc, ◌+◌, ◌-◌, ◌≤◌, ◌≡◌, ◌≢◌, refl, sym, ap, ◌∙◌, arith, List, [], ◌∷◌, ◌++◌,
  append_assoc, take, drop, length, length-append, length-drop, All,
}
use native.Mathlib.Decide.{dec_le}
use haunted_house.Journal.Blocks.{read_until_zero}
use haunted_house.Journal.Chain.{read_until_zero-append}
use haunted_house.Journal.Feed.{drop-add}

take-nil : (n : ℕ) → take {A = ℕ} n [] ≡ []
take-nil zero = refl
take-nil (suc n) = refl

pub drop-take : (a n : ℕ) (l : List ℕ) → drop a (take (a + n) l) ≡ take n (drop a l)
drop-take zero n l = let same : 0 + n ≡ n = omega arith in rw same refl
drop-take (suc a) n [] = ap (drop (suc a)) (take-nil (suc a + n)) ∙ sym (take-nil n)
drop-take (suc a) n (x ∷ l) =
    let same : suc a + n ≡ suc (a + n) = omega arith in rw same (drop-take a n l)

pub take-append :
    (l m : List ℕ) (n : ℕ) → length l ≤ n → take n (l ++ m) ≡ l ++ take (n - length l) m
take-append [] m n h = let same : n - 0 ≡ n = omega arith in rw same refl
take-append (x ∷ l) m zero h = absurd (omega arith)
take-append (x ∷ l) m (suc n) h =
    let same : suc n - suc (length l) ≡ n - length l = omega arith in
    rw same (ap (◌∷◌ x) (take-append l m n (omega arith)))

All-drop : (P : ℕ → Type 0) (k : ℕ) (l : List ℕ) → All P l → All P (drop k l)
All-drop P zero l h = h
All-drop P (suc k) [] h = tt
All-drop P (suc k) (x ∷ l) h = All-drop P k l h.1

drop-front : (k : ℕ) (l m : List ℕ) → k ≤ length l → drop k (l ++ m) ≡ drop k l ++ m
drop-front zero l m h = refl
drop-front (suc k) [] m h = absurd (omega arith)
drop-front (suc k) (x ∷ l) m h = drop-front k l m (omega arith)

-- Where a block ends before the end of the block that a later address leads to.
pub ends_before :
    (code behind file : List ℕ) (a last : ℕ)
    → All (λ b. b ≢ 0) code
    → drop a file ≡ (code ++ (0 ∷ [])) ++ behind
    → a ≤ last
    → a + length code + 1 ≤ last + length (read_until_zero (drop last file))
ends_before code behind file a last clean e le =
    let k = last - a in
    let split : a + k ≡ last = omega (arith, le) in
    let at : drop last file ≡ drop k ((code ++ (0 ∷ [])) ++ behind) =
      ap (λ n. drop n file) (sym split) ∙ drop-add a k file ∙ ap (drop k) e in
    elim (dec_le k (length code)) [
      | yes inside ↦
          let cut : drop last file ≡ (drop k code ++ (0 ∷ [])) ++ behind =
            at
            ∙ ap (drop k) (append_assoc code (0 ∷ []) behind)
            ∙ drop-front k code ((0 ∷ []) ++ behind) inside
            ∙ sym (append_assoc (drop k code) (0 ∷ []) behind) in
          let run = read_until_zero-append (drop k code) behind (All-drop _ k code clean) in
          omega (
            arith,
            split,
            ap (λ l. length (read_until_zero l)) cut,
            ap length run,
            length-append (drop k code) (0 ∷ []),
            length-drop k code,
            inside,
          )
      | no past ↦ omega (arith, split, le)
    ]
