-- ===== src/Tax/Purchase/Lines.antt =====
-- services/tax/verify.ts: what a line that is taken for an expected one has of it.
use recat_qbo.Prelude.Shared.{
  ◌≡◌, sym, ◌↔◌, Bool, true, ◌&&◌, List, [], ◌∷◌, arith, opt_str_eq_iff, Bool-cases, inl, inr,
}
use recat_qbo.Prelude.Int.{eq_ℤ_iff}
use recat_qbo.Tax.Hashes.{same_hash, same_value-text_or_null}
use recat_qbo.Tax.Matching.{Matched, nothing, next}
use recat_qbo.Tax.Purchase.{
  PurchaseLine, PurchaseSnapshot, PurchaseExpected, Direction, same_direction, target_line_hash,
  is_target, purchase_target_line_matches,
}

-- What a line that is taken for an expected one has of it in any case.
abbrev pub KeepsLine : PurchaseLine → PurchaseLine → Type 0
KeepsLine expected actual =
    (actual.amount_cents ≡ expected.amount_cents)
    × ((actual.account_qbo_id ≡ expected.account_qbo_id)
        × ((actual.description ≡ expected.description)
            × ((actual.customer_qbo_id ≡ expected.customer_qbo_id)
                × (actual.class_qbo_id ≡ expected.class_qbo_id))))

-- The expected lines, and as many that keep what they say.
pub data Written : List PurchaseLine → List PurchaseLine → Type 0 where
  end : Written [] []
  line :
      {e a : PurchaseLine} {es as' : List PurchaseLine}
      → KeepsLine e a
      → Written es as'
      → Written (e ∷ es) (a ∷ as')

pub same_direction_iff : (a b : Direction) → (same_direction a b ≡ true) ↔ (a ≡ b)
same_direction_iff a b = ground arith

both : (a b : Bool) → (a && b) ≡ true → (a ≡ true) × (b ≡ true)
both a b h = ground arith

purchase_target_line_matches-KeepsLine :
    (e : PurchaseExpected) (a : PurchaseSnapshot) (x y : PurchaseLine)
    → purchase_target_line_matches e.global_tax_calculation e.total_tax_cents a.total_tax_cents x y
        e.tax_disposition
      ≡ true
    → KeepsLine x y
unfolding purchase_target_line_matches
purchase_target_line_matches-KeepsLine e a x y h =
    let h1 = both _ _ (both _ _ h).1 in
    let h2 = both _ _ h1.1 in
    let h3 = both _ _ h2.1 in
    let h4 = both _ _ h3.1 in
    let h5 = both _ _ h4.1 in
    (
      sym ((eq_ℤ_iff x.amount_cents y.amount_cents).0 h1.0),
      (
        sym ((opt_str_eq_iff x.account_qbo_id y.account_qbo_id).0 h3.0),
        (
          sym ((opt_str_eq_iff x.description y.description).0 h2.0),
          (
            sym ((opt_str_eq_iff x.customer_qbo_id y.customer_qbo_id).0 h4.0),
            sym ((opt_str_eq_iff x.class_qbo_id y.class_qbo_id).0 h5.0),
          ),
        ),
      ),
    )

target_line_hash-KeepsLine :
    (x y : PurchaseLine)
    → same_hash (target_line_hash y) (target_line_hash x) ≡ true
    → KeepsLine x y
unfolding target_line_hash
target_line_hash-KeepsLine x y h = ground (
  arith,
  eq_ℤ_iff y.amount_cents x.amount_cents,
  opt_str_eq_iff y.account_qbo_id x.account_qbo_id,
  opt_str_eq_iff y.description x.description,
  opt_str_eq_iff y.customer_qbo_id x.customer_qbo_id,
  opt_str_eq_iff y.class_qbo_id x.class_qbo_id,
  same_value-text_or_null y.account_qbo_id x.account_qbo_id,
  same_value-text_or_null y.description x.description,
  same_value-text_or_null y.customer_qbo_id x.customer_qbo_id,
  same_value-text_or_null y.class_qbo_id x.class_qbo_id,
)

is_target-KeepsLine :
    (e : PurchaseExpected) (a : PurchaseSnapshot) (x y : PurchaseLine)
    → is_target e a x y ≡ true
    → KeepsLine x y
unfolding is_target
is_target-KeepsLine e a x y h =
    elim (Bool-cases (
      purchase_target_line_matches e.global_tax_calculation e.total_tax_cents a.total_tax_cents x y
        e.tax_disposition)) [
          | inl matches ↦ purchase_target_line_matches-KeepsLine e a x y matches
          | inr other ↦ target_line_hash-KeepsLine x y (ground (arith, other))
        ]

pub Matched-Written :
    (e : PurchaseExpected) (a : PurchaseSnapshot) (es as' : List PurchaseLine)
    → Matched (is_target e a) es as'
    → Written es as'
Matched-Written e a [] [] nothing = end
Matched-Written e a [] (y ∷ as') m = elim m [ ]
Matched-Written e a (x ∷ es) [] m = elim m [ ]
Matched-Written e a (x ∷ es) (y ∷ as') (next h m) =
    line (is_target-KeepsLine e a x y h) (Matched-Written e a es as' m)
