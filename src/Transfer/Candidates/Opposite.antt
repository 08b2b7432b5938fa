-- ===== src/Transfer/Candidates/Opposite.antt =====
-- services/transferCandidates.ts: two rows of opposite signs, in time and of two banks, are a pair.
use recat_qbo.Prelude.Shared.{◌+◌, ◌≤◌, ◌≡◌, ◌≢◌, refl, true, false, arith, str_eq_iff}
use recat_qbo.Prelude.Int.{abs_ℤ}
use recat_qbo.Transfer.Candidates.{
  PairableTxn, Sign, nil, positive, negative, sign, same_sign, three_days_ms, is_transfer_pair,
}
use recat_qbo.Transfer.Candidates.Pairing.{opposite}

pub is_pair :
    (t c : PairableTxn) (s : Sign)
    → sign t.amount ≡ s
    → sign c.amount ≡ opposite s
    → same_sign s nil ≡ false
    → abs_ℤ c.amount ≡ abs_ℤ t.amount
    → c.bank_account ≢ t.bank_account
    → t.date ≤ c.date
    → c.date ≤ t.date + three_days_ms
    → (is_transfer_pair t c ≡ true) × (is_transfer_pair c t ≡ true)
is_pair t c nil e f n a b d l = absurd (ground arith)
is_pair t c positive e f n a b d l =
    rw (e, f)
      (
        ground (arith, a, d, l, b, str_eq_iff t.bank_account c.bank_account),
        ground (arith, a, d, l, b, str_eq_iff c.bank_account t.bank_account),
      )
is_pair t c negative e f n a b d l =
    rw (e, f)
      (
        ground (arith, a, d, l, b, str_eq_iff t.bank_account c.bank_account),
        ground (arith, a, d, l, b, str_eq_iff c.bank_account t.bank_account),
      )

pub opposite_not_nil : (s : Sign) → same_sign (opposite s) nil ≡ false
opposite_not_nil nil = refl
opposite_not_nil positive = refl
opposite_not_nil negative = refl
