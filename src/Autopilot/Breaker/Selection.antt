-- ===== src/Autopilot/Breaker/Selection.antt =====
-- services/agent/circuitBreaker.ts: of the codes that failed, the breaker names the strongest.
use recat_qbo.Prelude.Shared.{
  ℕ, suc, ◌≤◌, ◌<◌, ◌≡◌, refl, ap, Bool, true, false, List, [], ◌∷◌, none, some, String, any, find,
  str_eq, str_eq_iff, arith, ◌↔◌,
}
use recat_qbo.Autopilot.LivePause.{
  LivePauseCode, code_text, rank_in, pause_priority, live_pause_priority,
}
use recat_qbo.Autopilot.LivePause.Strongest.{code_ranked}
use recat_qbo.Autopilot.Breaker.{has_code, strongest}

abbrev has_text : List LivePauseCode → String → Bool
has_text codes text = any (λ other. str_eq (code_text other) text) codes

has_code-code_text :
    (codes : List LivePauseCode) (code : LivePauseCode)
    → has_code codes code ≡ has_text codes (code_text code)
unfolding has_code
has_code-code_text codes code = refl

rank_in_ge :
    (text : String) (i : ℕ) (ps : List LivePauseCode)
    → 0 < rank_in text i ps
    → i ≤ rank_in text i ps
rank_in_ge text i [] h = omega (arith, h)
rank_in_ge text i (p ∷ ps) h = ground (arith, rank_in_ge text (suc i) ps)

has_code_equal :
    (codes : List LivePauseCode) (p q : LivePauseCode)
    → code_text p ≡ code_text q
    → has_code codes p ≡ has_code codes q
has_code_equal codes p q e =
    rw (has_code-code_text codes p, has_code-code_text codes q) (ap (has_text codes) e)

find_has :
    (codes ps : List LivePauseCode) (code : LivePauseCode)
    → find (has_code codes) ps ≡ some code
    → has_code codes code ≡ true
find_has codes [] code h = ground arith
find_has codes (p ∷ ps) code h = ground (arith, find_has codes ps code)

find_first :
    (codes ps : List LivePauseCode) (i : ℕ) (code other : LivePauseCode)
    → find (has_code codes) ps ≡ some code
    → has_code codes other ≡ true
    → 0 < rank_in (code_text other) i ps
    → rank_in (code_text code) i ps ≤ rank_in (code_text other) i ps
find_first codes [] i code other h has ranked = ground arith
find_first codes (p ∷ ps) i code other h has ranked = ground (
  arith,
  str_eq_iff (code_text other) (code_text p),
  str_eq_iff (code_text code) (code_text p),
  has_code_equal codes other p,
  has_code_equal codes code p,
  find_has codes ps code,
  rank_in_ge (code_text other) i (p ∷ ps) ranked,
  find_first codes ps (suc i) code other,
)

find_all :
    (codes ps : List LivePauseCode) (i : ℕ) (other : LivePauseCode)
    → find (has_code codes) ps ≡ none
    → 0 < rank_in (code_text other) i ps
    → has_code codes other ≡ false
find_all codes [] i other h ranked = ground arith
find_all codes (p ∷ ps) i other h ranked = ground (
  arith,
  str_eq_iff (code_text other) (code_text p),
  has_code_equal codes other p,
  find_all codes ps (suc i) other,
)

has_code_head :
    (code : LivePauseCode) (codes : List LivePauseCode) → has_code (code ∷ codes) code ≡ true
unfolding has_code
has_code_head code codes = ground (arith, str_eq_iff (code_text code) (code_text code))

-- The code that is selected is among those that failed, and none of those that failed stands before
-- it in the order.
pub strongest_first :
    (codes : List LivePauseCode) (code : LivePauseCode)
    → strongest codes ≡ some code
    → (has_code codes code ≡ true)
      × ((other : LivePauseCode)
          → has_code codes other ≡ true
          → pause_priority (some (code_text code)) ≤ pause_priority (some (code_text other)))
unfolding strongest pause_priority
strongest_first codes code h = (
  find_has codes live_pause_priority code h,
  λ other has. find_first codes live_pause_priority 1 code other h has (code_ranked other),
)

-- No code is selected exactly when none failed.
pub strongest-nil_iff : (codes : List LivePauseCode) → (strongest codes ≡ none) ↔ (codes ≡ [])
unfolding strongest pause_priority has_code
strongest-nil_iff [] = ground arith
strongest-nil_iff (code ∷ codes) = ground (
  arith,
  has_code_head code codes,
  find_all (code ∷ codes) live_pause_priority 1 code,
  code_ranked code,
)
