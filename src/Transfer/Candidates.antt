-- ===== src/Transfer/Candidates.antt =====
-- services/transferCandidates.ts: the transactions that may be the two legs of a transfer, and the queue
-- of banks: a heap of the banks' first rows. Amounts are in cents, dates in milliseconds.
use recat_qbo.Prelude.Shared.{
  ℕ, zero, suc, ◌+◌, ◌-◌, ◌*◌, ◌/◌, Bool, true, false, not, ◌&&◌, ◌||◌, List, [], ◌∷◌, ◌++◌, Option,
  none, some, String, ltb, leb, ◌==◌, str_eq, if◌then◌else◌, any, length, get_elem?,
}
use recat_qbo.Prelude.Int.{ℤ, pos, negsuc, abs_ℤ}
use recat_qbo.Prelude.Assoc.{lookup, insert, erase}
use recat_qbo.Prelude.Texts.{text_lt}
pub mod Heap
pub mod Queues
pub mod Taken
pub mod Pairing
pub mod Sorted
pub mod Sound
pub mod Symmetric
pub mod Opposite
pub mod Matched
mod Tests

pub record PairableTxn : Type 0 where
  pub id : String
  pub amount : ℤ
  pub bank_account : String
  pub date : ℕ

abbrev pub three_days_ms : ℕ
three_days_ms = 3 * 24 * 60 * 60 * 1000

pub data Sign : Type 0 where
  nil positive negative : Sign

-- `Math.sign`
abbrev pub sign : ℤ → Sign
sign (pos zero) = nil
sign (pos (suc n)) = positive
sign (negsuc n) = negative

abbrev pub same_sign : Sign → Sign → Bool
same_sign nil nil = true
same_sign positive positive = true
same_sign negative negative = true
same_sign _ _ = false

-- Two amounts of whole cents are less than half a cent apart when they are equal.
abbrev pub is_transfer_pair : PairableTxn → PairableTxn → Bool
is_transfer_pair a b =
    not (same_sign (sign a.amount) nil)
    && (abs_ℤ a.amount == abs_ℤ b.amount
        && (not (same_sign (sign a.amount) (sign b.amount))
            && (not (str_eq a.bank_account b.bank_account)
                && (leb a.date (b.date + three_days_ms) && leb b.date (a.date + three_days_ms)))))

pub record HeapEntry : Type 0 where
  pub bank_account : String
  pub txn : PairableTxn

abbrev pub earlier : HeapEntry → HeapEntry → Bool
earlier first second =
    ltb first.txn.date second.txn.date
    || (first.txn.date == second.txn.date && text_lt first.txn.id second.txn.id)

-- `array[i] = x`, within the array.
abbrev pub set : ℕ → HeapEntry → List HeapEntry → List HeapEntry
set i x [] = []
set zero x (y ∷ ys) = x ∷ ys
set (suc i) x (y ∷ ys) = y ∷ set i x ys

-- The loop of `push`. It halves the index, which is fuel enough for it.
unfoldable pub sift_up : ℕ → ℕ → HeapEntry → List HeapEntry → List HeapEntry
sift_up zero index entry heap = set index entry heap
sift_up (suc n) index entry heap =
    let parent = (index - 1) / 2 in
    elim (get_elem? heap parent) [
      | none ↦ set index entry heap
      | some parent_entry ↦
          let rest = sift_up n parent entry (set index parent_entry heap) in
          if index == 0 || not (earlier entry parent_entry) then set index entry heap else rest
    ]

abbrev pub push : HeapEntry → List HeapEntry → List HeapEntry
push entry heap = sift_up (length heap) (length heap) entry (heap ++ entry ∷ [])

-- The child that goes up: the right one if it is there and earlier than the left one.
abbrev pub child_of : ℕ → List HeapEntry → ℕ
child_of index heap = elim (get_elem? heap (index * 2 + 1 + 1)) [
  | none ↦ index * 2 + 1
  | some right ↦ elim (get_elem? heap (index * 2 + 1)) [
    | none ↦ index * 2 + 1
    | some left ↦ if earlier right left then index * 2 + 1 + 1 else index * 2 + 1
  ]
]

-- The loop of `pop`. The index grows with every turn, so that the length is fuel enough for it.
unfoldable pub sift_down : ℕ → ℕ → HeapEntry → List HeapEntry → List HeapEntry
sift_down zero index last heap = set index last heap
sift_down (suc n) index last heap =
    let child = child_of index heap in
    elim (get_elem? heap child) [
      | none ↦ set index last heap
      | some child_entry ↦
          let rest = sift_down n child last (set index child_entry heap) in
          if not (earlier child_entry last) then set index last heap else rest
    ]

-- The array without its last element, and that element.
abbrev pub pop_last : HeapEntry → List HeapEntry → List HeapEntry × HeapEntry
pop_last x [] = ([], x)
pop_last x (y ∷ ys) = let (zs, z) = pop_last y ys in (x ∷ zs, z)

abbrev pub after_pop : HeapEntry → List HeapEntry × HeapEntry → HeapEntry × List HeapEntry
after_pop first ([], last) = (first, [])
after_pop first (y ∷ ys, last) = (first, sift_down (length (y ∷ ys)) 0 last (y ∷ ys))

abbrev pub pop : List HeapEntry → Option (HeapEntry × List HeapEntry)
pop [] = none
pop (x ∷ xs) = some (after_pop x (pop_last x xs))

-- A queue is its rows from its head on: those before it are not looked at again.
pub record BankQueueIndex : Type 0 where
  pub queues : List (String × List PairableTxn)
  pub heap : List HeapEntry

abbrev pub new_index : BankQueueIndex
new_index = record { queues = []; heap = [] }

abbrev pub add : PairableTxn → BankQueueIndex → BankQueueIndex
add txn q = elim (lookup txn.bank_account q.queues) [
  | some rows ↦ record q { queues = insert txn.bank_account (rows ++ txn ∷ []) q.queues }
  | none ↦ record {
    queues = insert txn.bank_account (txn ∷ []) q.queues;
    heap = push (record { bank_account = txn.bank_account; txn = txn }) q.heap;
  }
]

-- What `takeFuture` is called with.
pub record Wanted : Type 0 where
  pub excluded_bank : String
  pub current_index : ℕ
  pub maximum_date : ℕ
  pub used : List String
  pub order_of : List (String × ℕ)

-- `(orderOf.get(id) ?? -1) <= currentIndex || used.has(id)`
abbrev pub is_past : Wanted → PairableTxn → Bool
is_past w r =
    elim (lookup r.id w.order_of) [ none ↦ true | some i ↦ leb i w.current_index ]
    || any (str_eq r.id) w.used

abbrev pub shift : Wanted → List PairableTxn → List PairableTxn
shift w [] = []
shift w (r ∷ rows) = if is_past w r then shift w rows else r ∷ rows

abbrev pub is_head : HeapEntry → List PairableTxn → Bool
is_head entry [] = false
is_head entry (r ∷ rows) = str_eq r.id entry.txn.id

-- `if (next) this.push(…) else this.queues.delete(…)`
abbrev pub requeue : String → List PairableTxn → BankQueueIndex → BankQueueIndex
requeue bank [] q = record q { queues = erase bank q.queues }
requeue bank (r ∷ rows) q = record {
  queues = insert bank (r ∷ rows) q.queues;
  heap = push (record { bank_account = bank; txn = r }) q.heap;
}

-- `if (excluded) this.push(excluded)`
abbrev pub put_back : Option HeapEntry → BankQueueIndex → BankQueueIndex
put_back none q = q
put_back (some e) q = record q { heap = push e q.heap }

pub data Turn : Type 0 where
  goes_on : Option HeapEntry → BankQueueIndex → Turn
  stops : Option PairableTxn → Option HeapEntry → BankQueueIndex → Turn

-- What a turn of the loop does with a head that is not past.
abbrev pub turn_head :
    Wanted → Option HeapEntry → HeapEntry → PairableTxn → List PairableTxn → BankQueueIndex → Turn
turn_head w excluded entry head rows q =
    let current : HeapEntry = record { bank_account = entry.bank_account; txn = head } in
    let kept = record q { queues = insert entry.bank_account (head ∷ rows) q.queues } in
    let pushed = record kept { heap = push current kept.heap } in
    if not (str_eq head.id entry.txn.id)
    then goes_on excluded pushed
    else (if ltb w.maximum_date head.date
        then stops none excluded pushed
        else (if str_eq entry.bank_account w.excluded_bank
            then goes_on (some current) kept
            else stops (some head) excluded (requeue entry.bank_account rows q)))

abbrev pub turn_rows :
    Wanted → Option HeapEntry → HeapEntry → List PairableTxn → BankQueueIndex → Turn
turn_rows w excluded entry [] q =
    goes_on excluded (record q { queues = erase entry.bank_account q.queues })
turn_rows w excluded entry (head ∷ rows) q = turn_head w excluded entry head rows q

-- A turn of the loop, for the entry that was popped: a stale one is dropped.
unfoldable pub turn : Wanted → Option HeapEntry → HeapEntry → BankQueueIndex → Turn
turn w excluded entry q = elim (lookup entry.bank_account q.queues) [
  | none ↦ goes_on excluded q
  | some rows ↦
      if is_head entry rows then turn_rows w excluded entry (shift w rows) q else goes_on excluded q
]

abbrev pub finish :
    Option PairableTxn → Option HeapEntry → BankQueueIndex → Option PairableTxn × BankQueueIndex
finish matched excluded q = (matched, put_back excluded q)

-- The loop, on fuel: `none` is a loop that has not come to its end.
unfoldable pub take_loop :
    ℕ → Wanted → Option HeapEntry → BankQueueIndex → Option (Option PairableTxn × BankQueueIndex)
take_loop zero w excluded q = elim (pop q.heap) [
  | none ↦ some (finish none excluded q)
  | some _ ↦ none
]
take_loop (suc n) w excluded q = elim (pop q.heap) [
  | none ↦ some (finish none excluded q)
  | some (entry, heap) ↦ elim (turn w excluded entry (record q { heap = heap })) [
    | goes_on e p ↦ take_loop n w e p
    | stops matched e p ↦ some (finish matched e p)
  ]
]

abbrev pub rows_in : List (String × List PairableTxn) → ℕ
rows_in [] = 0
rows_in ((k, rows) ∷ m) = length rows + rows_in m

-- The heap and the rows together are fuel enough: a turn uses up one or the other.
abbrev pub take_future : Wanted → BankQueueIndex → Option (Option PairableTxn × BankQueueIndex)
take_future w q = take_loop (length q.heap + rows_in q.queues) w none q
