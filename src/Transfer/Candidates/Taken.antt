-- ===== src/Transfer/Candidates/Taken.antt =====
-- services/transferCandidates.ts: what `takeFuture` takes is a row of another bank, in time, that comes
-- later and was not used.
use recat_qbo.Prelude.Shared.{
  ℕ, zero, suc, ◌≤◌, ◌≡◌, ◌≢◌, refl, sym, ◌∙◌, subst, false, not, List, [], ◌∷◌, ◌++◌, Option, none,
  some, String, arith, str_eq, str_eq_iff, All, All-append, ltb, length, ◌+◌, Bool-cases, inl, inr,
}
use recat_qbo.Prelude.Splits.{by_if, by_option}
use recat_qbo.Prelude.Assoc.{lookup, insert, erase}
use recat_qbo.Transfer.Candidates.{
  PairableTxn, HeapEntry, BankQueueIndex, add, Wanted, is_past, shift, is_head, requeue, put_back,
  Turn, goes_on, stops, turn_head, turn_rows, turn, finish, take_loop, rows_in, take_future, pop,
}

module _ (Good : PairableTxn → Type 0) where
  -- The rows of a bank.
  abbrev pub Rows : String → List PairableTxn → Type 0
  Rows k rows = All (λ r. Good r × (r.bank_account ≡ k)) rows

  abbrev pub Banked : List (String × List PairableTxn) → Type 0
  Banked [] = Unit
  Banked ((k, rows) ∷ m) = Rows k rows × Banked m

  Banked-lookup :
      (k : String) (rows : List PairableTxn) (m : List (String × List PairableTxn))
      → Banked m
      → lookup k m ≡ some rows
      → Rows k rows
  Banked-lookup k rows [] h e = absurd (ground arith)
  Banked-lookup k rows ((j, r) ∷ m) h e = elim (Bool-cases (str_eq j k)) [
    | inl b ↦
        let same : some r ≡ some rows = rw b at e in
        let j_is : j ≡ k = ground (arith, str_eq_iff j k, b) in
        let r_is : r ≡ rows = ground (arith, same) in rw (← r_is, ← j_is) h.0
    | inr b ↦ Banked-lookup k rows m h.1 (rw b at e)
  ]

  Banked-insert :
      (k : String) (rows : List PairableTxn) (m : List (String × List PairableTxn))
      → Rows k rows
      → Banked m
      → Banked (insert k rows m)
  Banked-insert k rows [] r h = (r, tt)
  Banked-insert k rows ((j, old) ∷ m) r h =
      by_if Banked (str_eq j k)
        (λ b. let j_is : j ≡ k = ground (arith, str_eq_iff j k, b) in (rw j_is r, h.1))
        (λ b. (h.0, Banked-insert k rows m r h.1))

  Banked-erase : (k : String) (m : List (String × List PairableTxn)) → Banked m → Banked (erase k m)
  Banked-erase k [] h = tt
  Banked-erase k ((j, old) ∷ m) h =
      by_if Banked (str_eq j k) (λ b. h.1) (λ b. (h.0, Banked-erase k m h.1))

  pub add-Banked :
      (t : PairableTxn) (q : BankQueueIndex) → Good t → Banked q.queues → Banked (add t q).queues
  add-Banked t q g h =
      by_option (λ (p : BankQueueIndex). Banked p.queues) (lookup t.bank_account q.queues)
        (λ e. Banked-insert t.bank_account (t ∷ []) q.queues ((g, refl), tt) h)
        (λ rows e.
          Banked-insert t.bank_account (rows ++ t ∷ []) q.queues
            (All-append _ rows (t ∷ []) (Banked-lookup t.bank_account rows q.queues h e)
              ((g, refl), tt))
            h)

  shift-Rows :
      (w : Wanted) (k : String) (rows : List PairableTxn) → Rows k rows → Rows k (shift w rows)
  shift-Rows w k [] h = tt
  shift-Rows w k (r ∷ rows) h = by_if (Rows k) (is_past w r) (λ e. shift-Rows w k rows h.1) (λ e. h)

  -- A row that answers what was asked for.
  pub record Found (w : Wanted) (x : PairableTxn) : Type 0 where
    pub is_good : Good x
    pub other_bank : x.bank_account ≢ w.excluded_bank
    pub not_past : is_past w x ≡ false
    pub in_time : x.date ≤ w.maximum_date

  abbrev pub FoundAny : Wanted → Option PairableTxn → Type 0
  FoundAny w none = Unit
  FoundAny w (some x) = Found w x

  abbrev Sound : Wanted → Turn → Type 0
  Sound w (goes_on e p) = Banked p.queues
  Sound w (stops m e p) = Banked p.queues × FoundAny w m

  requeue-Banked :
      (k : String) (rows : List PairableTxn) (q : BankQueueIndex)
      → Rows k rows
      → Banked q.queues
      → Banked (requeue k rows q).queues
  requeue-Banked k [] q r h = Banked-erase k q.queues h
  requeue-Banked k (x ∷ rows) q r h = Banked-insert k (x ∷ rows) q.queues r h

  put_back-Banked :
      (e : Option HeapEntry) (q : BankQueueIndex) → Banked q.queues → Banked (put_back e q).queues
  put_back-Banked none q h = h
  put_back-Banked (some e) q h = h

  turn_head-Sound :
      (w : Wanted) (x : Option HeapEntry) (entry : HeapEntry) (head : PairableTxn)
      (rest : List PairableTxn) (q : BankQueueIndex)
      → Rows entry.bank_account (head ∷ rest)
      → is_past w head ≡ false
      → Banked q.queues
      → Sound w (turn_head w x entry head rest q)
  turn_head-Sound w x entry head rest q r p h =
      let kept = Banked-insert entry.bank_account (head ∷ rest) q.queues r h in
      by_if (Sound w) (not (str_eq head.id entry.txn.id)) (λ b. kept)
        (λ b.
          by_if (Sound w) (ltb w.maximum_date head.date) (λ c. (kept, tt))
            (λ c.
              by_if (Sound w) (str_eq entry.bank_account w.excluded_bank) (λ d. kept)
                (λ d. (
                  requeue-Banked entry.bank_account rest q r.1 h,
                  record {
                    is_good = r.0.0;
                    other_bank = λ e.
                        ground
                          (arith, str_eq_iff entry.bank_account w.excluded_bank, d, sym r.0.1 ∙ e);
                    not_past = p;
                    in_time = ground (arith, c);
                  },
                ))))

  shift-not_past :
      (w : Wanted) (rows rest : List PairableTxn) (head : PairableTxn)
      → shift w rows ≡ head ∷ rest
      → is_past w head ≡ false
  shift-not_past w [] rest head e = absurd (ground arith)
  shift-not_past w (r ∷ rows) rest head e = elim (Bool-cases (is_past w r)) [
    | inl b ↦ shift-not_past w rows rest head (rw b at e)
    | inr b ↦
        let same : r ∷ rows ≡ head ∷ rest = rw b at e in
        let r_is : r ≡ head = ground (arith, same) in subst (λ z. is_past w z ≡ false) r_is b
  ]

  turn_rows-Sound :
      (w : Wanted) (x : Option HeapEntry) (entry : HeapEntry) (rows : List PairableTxn)
      (q : BankQueueIndex) (shifted : List PairableTxn)
      → Rows entry.bank_account shifted
      → shift w rows ≡ shifted
      → Banked q.queues
      → Sound w (turn_rows w x entry shifted q)
  turn_rows-Sound w x entry rows q [] r e h = Banked-erase entry.bank_account q.queues h
  turn_rows-Sound w x entry rows q (head ∷ rest) r e h =
      turn_head-Sound w x entry head rest q r (shift-not_past w rows rest head e) h

  turn-Sound :
      (w : Wanted) (x : Option HeapEntry) (entry : HeapEntry) (q : BankQueueIndex)
      → Banked q.queues
      → Sound w (turn w x entry q)
  unfolding turn
  turn-Sound w x entry q h =
      by_option (Sound w) (lookup entry.bank_account q.queues) (λ e. h)
        (λ rows e.
          by_if (Sound w) (is_head entry rows)
            (λ b.
              turn_rows-Sound w x entry rows q (shift w rows)
                (shift-Rows w entry.bank_account rows
                  (Banked-lookup entry.bank_account rows q.queues h e))
                refl h)
            (λ b. h))

  abbrev pub TakeOk : Wanted → Option (Option PairableTxn × BankQueueIndex) → Type 0
  TakeOk w none = Unit
  TakeOk w (some r) = Banked r.1.queues × FoundAny w r.0

  take_loop-TakeOk :
      (n : ℕ) (w : Wanted) (x : Option HeapEntry) (q : BankQueueIndex)
      → Banked q.queues
      → TakeOk w (take_loop n w x q)
  unfolding take_loop
  take_loop-TakeOk zero w x q h =
      by_option (TakeOk w) (pop q.heap) (λ e. (put_back-Banked x q h, tt)) (λ r e. tt)
  take_loop-TakeOk (suc n) w x q h =
      by_option (TakeOk w) (pop q.heap) (λ e. (put_back-Banked x q h, tt))
        (λ r e.
          after (λ e p. take_loop-TakeOk n w e p) (turn w x r.0 (record q { heap = r.1 }))
            (turn-Sound w x r.0 (record q { heap = r.1 }) h))
    where
      after :
          ((e : Option HeapEntry) (p : BankQueueIndex)
            → Banked p.queues
            → TakeOk w (take_loop n w e p))
          → (t : Turn) → Sound w t
          → TakeOk w (elim t [
            | goes_on e p ↦ take_loop n w e p
            | stops matched e p ↦ some (finish matched e p)
          ])
      after f (goes_on e p) s = f e p s
      after f (stops m e p) s = (put_back-Banked e p s.0, s.1)

  pub take_future-TakeOk :
      (w : Wanted) (q : BankQueueIndex) → Banked q.queues → TakeOk w (take_future w q)
  take_future-TakeOk w q h = take_loop-TakeOk (length q.heap + rows_in q.queues) w none q h
