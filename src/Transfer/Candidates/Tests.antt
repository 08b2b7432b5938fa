-- ===== src/Transfer/Candidates/Tests.antt =====
-- services/transferCandidates.ts: pairs of concrete rows.
use recat_qbo.Prelude.Shared.{◌≡◌, refl, List, [], ◌∷◌, Option, some, String, arith, str_eq_iff}
use recat_qbo.Prelude.Int.{pos, negsuc}
use recat_qbo.Prelude.Assoc.{lookup}
use recat_qbo.Prelude.Texts.{text_lt}
use recat_qbo.Transfer.Candidates.{
  PairableTxn, BankQueueIndex, new_index, add, Wanted, take_future, take_loop, turn, sift_up,
  sift_down,
}
use recat_qbo.Transfer.Candidates.Pairing.{pair_transfers, match_all, match_one, collect}
use recat_qbo.Transfer.Candidates.Queues.{take_future-total}
use recat_qbo.Transfer.Candidates.Sorted.{Distinct}
use recat_qbo.Transfer.Candidates.Sound.{PairOf}
use recat_qbo.Transfer.Candidates.Matched.{pair_transfers_sound}

abbrev paid_out : PairableTxn
paid_out = record { id = "a"; amount = negsuc 9999; bank_account = "checking"; date = 1000 }

abbrev paid_in : PairableTxn
paid_in = record { id = "b"; amount = pos 10000; bank_account = "savings"; date = 5000 }

abbrev other_in : PairableTxn
other_in = record { id = "c"; amount = pos 10000; bank_account = "checking"; date = 2000 }

abbrev rows : List PairableTxn
rows = paid_in ∷ other_in ∷ paid_out ∷ []

-- The row of the same bank is passed over.
paired : pair_transfers text_lt rows ≡ some (("a", "b") ∷ ("b", "a") ∷ [])
unfolding pair_transfers match_all match_one collect take_loop turn sift_up sift_down text_lt
paired = refl

rows-Distinct : Distinct rows
rows-Distinct = (
  (
    (λ e. ground (arith, str_eq_iff "c" "b", e)),
    ((λ e. ground (arith, str_eq_iff "a" "b", e)), tt),
  ),
  (((λ e. ground (arith, str_eq_iff "a" "c", e)), tt), (tt, tt)),
)

abbrev asked : Wanted
asked = record {
  excluded_bank = "checking";
  current_index = 0;
  maximum_date = 9000;
  used = [];
  order_of = ("b", 1) ∷ [];
}

take_future-total_example :
    (m : Option PairableTxn) × (p : BankQueueIndex) × (take_future asked (add paid_in new_index)
      ≡ some (m, p))
take_future-total_example = take_future-total asked (add paid_in new_index)

pair_transfers_sound_example :
    (pairs : List (String × String)) × ((pair_transfers text_lt rows ≡ some pairs)
      × ((a b : String) → lookup a pairs ≡ some b → PairOf rows a b × (lookup b pairs ≡ some a)))
pair_transfers_sound_example = pair_transfers_sound text_lt rows rows-Distinct
