-- ===== src/Transfer/Candidates/Queues.antt =====
-- services/transferCandidates.ts: `takeFuture` comes to an end, and takes what it is asked for.
use recat_qbo.Prelude.Shared.{
  ℕ, zero, suc, ◌+◌, ◌≤◌, ◌≡◌, refl, sym, ◌∙◌, ap, true, false, not, List, [], ◌∷◌, Option, none,
  some, String, arith, str_eq, length, ltb, Bool-cases, inl, inr,
}
use recat_qbo.Prelude.Splits.{by_if, by_option}
use recat_qbo.Prelude.Assoc.{lookup, insert, erase}
use recat_qbo.Transfer.Candidates.{
  PairableTxn, HeapEntry, BankQueueIndex, Wanted, is_past, shift, is_head, put_back, Turn, goes_on,
  stops, turn_head, turn_rows, turn, finish, take_loop, rows_in, take_future, pop,
}
use recat_qbo.Transfer.Candidates.Heap.{length-push, length-pop}

rows_in-insert :
    (k : String) (v old : List PairableTxn) (m : List (String × List PairableTxn))
    → lookup k m ≡ some old
    → rows_in (insert k v m) + length old ≡ rows_in m + length v
rows_in-insert k v old [] e = absurd (ground arith)
rows_in-insert k v old ((j, r) ∷ m) e = elim (Bool-cases (str_eq j k)) [
  | inl b ↦ rw b (let h : some r ≡ some old = rw b at e in ground arith)
  | inr b ↦ rw b (omega (arith, rows_in-insert k v old m (rw b at e)))
]

rows_in-erase :
    (k : String) (m : List (String × List PairableTxn)) → rows_in (erase k m) ≤ rows_in m
rows_in-erase k [] = omega arith
rows_in-erase k ((j, r) ∷ m) = ground (arith, rows_in-erase k m)

length-shift : (w : Wanted) (rows : List PairableTxn) → length (shift w rows) ≤ length rows
length-shift w [] = omega arith
length-shift w (r ∷ rows) =
    by_if (λ l. length l ≤ suc (length rows)) (is_past w r)
      (λ e. omega (arith, length-shift w rows)) (λ e. omega arith)

-- A shift that comes to another head has used up a row.
shift_uses :
    (w : Wanted) (entry : HeapEntry) (rows rest : List PairableTxn) (head : PairableTxn)
    → is_head entry rows ≡ true
    → shift w rows ≡ head ∷ rest
    → str_eq head.id entry.txn.id ≡ false
    → suc (length (head ∷ rest)) ≤ length rows
shift_uses w entry [] rest head h e n = absurd (ground arith)
shift_uses w entry (r ∷ rows) rest head h e n = elim (Bool-cases (is_past w r)) [
  | inl b ↦ omega (arith, ap length (rw b at e), length-shift w rows)
  | inr b ↦
      let same : is_head entry (r ∷ rows) ≡ is_head entry (head ∷ rest) =
        ap (is_head entry) (rw b at e) in
      absurd (ground (arith, sym h ∙ (same ∙ n)))
]

-- What a turn that goes on leaves to be done.
abbrev Leaves : ℕ → Turn → Type 0
Leaves n (goes_on e p) = length p.heap + rows_in p.queues ≤ n
Leaves n (stops m e p) = Unit

turn_head-Leaves :
    (w : Wanted) (x : Option HeapEntry) (entry : HeapEntry) (rows rest : List PairableTxn)
    (head : PairableTxn) (q : BankQueueIndex)
    → lookup entry.bank_account q.queues ≡ some rows
    → is_head entry rows ≡ true
    → shift w rows ≡ head ∷ rest
    → Leaves (length q.heap + rows_in q.queues) (turn_head w x entry head rest q)
turn_head-Leaves w x entry rows rest head q l h e =
    let n = length q.heap + rows_in q.queues in
    let kept = rows_in-insert entry.bank_account (head ∷ rest) rows q.queues l in
    let no_more : length (head ∷ rest) ≤ length rows =
      omega (arith, ap length e, length-shift w rows) in
    by_if (Leaves n) (not (str_eq head.id entry.txn.id))
      (λ b. omega (
        arith,
        kept,
        length-push (record { bank_account = entry.bank_account; txn = head }) q.heap,
        shift_uses w entry rows rest head h e (ground (arith, b)),
      ))
      (λ b.
        by_if (Leaves n) (ltb w.maximum_date head.date) (λ c. tt)
          (λ c.
            by_if (Leaves n) (str_eq entry.bank_account w.excluded_bank)
              (λ d. omega (arith, kept, no_more)) (λ d. tt)))

turn_rows-Leaves :
    (w : Wanted) (x : Option HeapEntry) (entry : HeapEntry) (rows : List PairableTxn)
    (q : BankQueueIndex) (shifted : List PairableTxn)
    → lookup entry.bank_account q.queues ≡ some rows
    → is_head entry rows ≡ true
    → shift w rows ≡ shifted
    → Leaves (length q.heap + rows_in q.queues) (turn_rows w x entry shifted q)
turn_rows-Leaves w x entry rows q [] l h e =
    omega (arith, rows_in-erase entry.bank_account q.queues)
turn_rows-Leaves w x entry rows q (head ∷ rest) l h e =
    turn_head-Leaves w x entry rows rest head q l h e

turn-Leaves :
    (w : Wanted) (x : Option HeapEntry) (entry : HeapEntry) (q : BankQueueIndex)
    → Leaves (length q.heap + rows_in q.queues) (turn w x entry q)
unfolding turn
turn-Leaves w x entry q =
    let n = length q.heap + rows_in q.queues in
    by_option (Leaves n) (lookup entry.bank_account q.queues) (λ e. omega arith)
      (λ rows e.
        by_if (Leaves n) (is_head entry rows)
          (λ h. turn_rows-Leaves w x entry rows q (shift w rows) e h refl) (λ h. omega arith))

abbrev Ends : Option (Option PairableTxn × BankQueueIndex) → Type 0
Ends r = (m : Option PairableTxn) × (q : BankQueueIndex) × (r ≡ some (m, q))

take_loop-Ends :
    (n : ℕ) (w : Wanted) (x : Option HeapEntry) (q : BankQueueIndex)
    → length q.heap + rows_in q.queues ≤ n
    → Ends (take_loop n w x q)
unfolding take_loop
take_loop-Ends zero w x q h =
    by_option Ends (pop q.heap) (λ e. (none, put_back x q, refl))
      (λ r e. absurd (omega (arith, length-pop q.heap r.0 r.1 e)))
take_loop-Ends (suc n) w x q h =
    by_option Ends (pop q.heap) (λ e. (none, put_back x q, refl))
      (λ r e.
        after (λ e p. take_loop-Ends n w e p) (turn w x r.0 (record q { heap = r.1 })) r.1
          (turn-Leaves w x r.0 (record q { heap = r.1 })) (length-pop q.heap r.0 r.1 e))
  where
    after :
        ((e : Option HeapEntry) (p : BankQueueIndex)
          → length p.heap + rows_in p.queues ≤ n
          → Ends (take_loop n w e p))
        → (t : Turn) (r : List HeapEntry) → Leaves (length r + rows_in q.queues) t
        → suc (length r) ≡ length q.heap
        → Ends (elim t [
          | goes_on e p ↦ take_loop n w e p
          | stops matched e p ↦ some (finish matched e p)
        ])
    after f (goes_on e p) r l k = f e p (omega (arith, l, k, h))
    after f (stops m e p) r l k = (m, put_back e p, refl)

-- Whatever is asked for, the loop of takeFuture comes to its end within as many turns as there are
-- entries in the heap and rows in the queues.
pub take_future-total :
    (w : Wanted) (q : BankQueueIndex)
    → (m : Option PairableTxn) × (p : BankQueueIndex) × (take_future w q ≡ some (m, p))
take_future-total w q = take_loop-Ends (length q.heap + rows_in q.queues) w none q (omega arith)
