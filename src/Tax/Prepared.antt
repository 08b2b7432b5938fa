-- ===== src/Tax/Prepared.antt =====
-- services/tax/verify.ts: the verification of a prepared write of either kind.
use recat_qbo.Prelude.Shared.{◌≡◌, refl, ◌⊎◌, inl, inr, arith, Bool}
use recat_qbo.Tax.Hashes.{Hash, VerificationResult, verified, drift}
use recat_qbo.Tax.Purchase.Accounted as PurchaseAccounted
use recat_qbo.Tax.Deposit.Accounted as DepositAccounted
use recat_qbo.Tax.Purchase.{PurchaseExpected, PurchaseSnapshot, verify_purchase_result}
use recat_qbo.Tax.Deposit.{DepositExpected, DepositSnapshot, verify_deposit_result}

pub data PreparedWrite : Type 0 where
  prepared_purchase : PurchaseExpected → PreparedWrite
  prepared_deposit : DepositExpected → PreparedWrite
  unsupported : PreparedWrite

pub data AnySnapshot : Type 0 where
  purchase_snapshot : PurchaseSnapshot → AnySnapshot
  deposit_snapshot : DepositSnapshot → AnySnapshot

unfoldable pub verify_prepared_result :
    (Hash → Hash → Bool) → PreparedWrite → AnySnapshot → VerificationResult
unfolding verify_purchase_result verify_deposit_result
verify_prepared_result before (prepared_purchase e) (purchase_snapshot a) =
    verify_purchase_result before e a
verify_prepared_result before (prepared_purchase e) (deposit_snapshot a) =
    drift "Prepared Purchase received a mismatched snapshot kind."
verify_prepared_result before (prepared_deposit e) (deposit_snapshot a) = verify_deposit_result e a
verify_prepared_result before (prepared_deposit e) (purchase_snapshot a) =
    drift "Prepared Deposit received a mismatched snapshot kind."
verify_prepared_result before unsupported a =
    drift "Prepared write has an unsupported transaction kind."

-- A prepared write is verified only by a snapshot of its own kind that the verification of that kind
-- lets through.
pub prepared_verified :
    (before : Hash → Hash → Bool) (w : PreparedWrite) (a : AnySnapshot)
    → verify_prepared_result before w a ≡ verified
    → ((e : PurchaseExpected) × (s : PurchaseSnapshot) × ((w ≡ prepared_purchase e)
          × ((a ≡ purchase_snapshot s)
              × (PurchaseAccounted.SameHeader e s × PurchaseAccounted.AllAccounted e s))))
      ⊎ ((e : DepositExpected) × (s : DepositSnapshot) × ((w ≡ prepared_deposit e)
            × ((a ≡ deposit_snapshot s)
                × (DepositAccounted.SameHeader e s × DepositAccounted.AllAccounted e s))))
unfolding verify_prepared_result
prepared_verified before (prepared_purchase e) (purchase_snapshot s) h =
    inl (e, s, (refl, (refl, PurchaseAccounted.purchase_accounted before e s h)))
prepared_verified before (prepared_purchase e) (deposit_snapshot s) h = absurd (ground arith)
prepared_verified before (prepared_deposit e) (deposit_snapshot s) h =
    inr (e, s, (refl, (refl, DepositAccounted.deposit_accounted e s h)))
prepared_verified before (prepared_deposit e) (purchase_snapshot s) h = absurd (ground arith)
prepared_verified before unsupported a h = absurd (ground arith)
