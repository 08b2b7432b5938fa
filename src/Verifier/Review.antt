-- ===== src/Verifier/Review.antt =====
-- services/agent/core/verifier.ts: `parseAgentLiveReview`. The value from the provider is as deep as it
-- is read: whether it is a plain record is a field of it, and a field is a flag, a list of items, each
-- of which is a text or not, or something else.
use recat_qbo.Prelude.Shared.{
  ◌≤◌, ◌≡◌, refl, Bool, true, false, ◌&&◌, ◌||◌, not, List, [], ◌∷◌, map, Option, none, some,
  String, all, leb, ◌==◌, length, if◌then◌else◌, str_eq, arith, Option-cases, inl, inr,
}
use recat_qbo.Verifier.Verify.{has, has_duplicate}

abbrev pub issue_codes : List String
issue_codes =
    "DECISION_NOT_SUPPORTED" ∷ "SNAPSHOT_MISMATCH" ∷ "EVIDENCE_INSUFFICIENT" ∷ "REFERENCE_INVALID"
    ∷ "TAX_INVALID" ∷ []

-- The issues of a review are the texts that were let through.
pub record AgentLiveReview : Type 0 where
  pub approved : Bool
  pub issues : List String

pub data Item : Type 0 where
  text : String → Item
  other : Item

pub data Field : Type 0 where
  flag : Bool → Field
  items : List Item → Field
  anything : Field

pub record Value : Type 0 where
  pub is_plain_record : Bool
  pub fields : List (String × Field)

abbrev field_name : String × Field → String
field_name f = f.0

abbrev pub field_of : String → List (String × Field) → Option Field
field_of name [] = none
field_of name ((n, f) ∷ fields) = if str_eq n name then some f else field_of name fields

-- `typeof issue !== 'string' || !allowed.has(issue)`; the texts, if all are allowed.
abbrev pub with_text : String → Option (List String) → Option (List String)
with_text t none = none
with_text t (some ts) = if has issue_codes t then some (t ∷ ts) else none

unfoldable pub allowed_texts : List Item → Option (List String)
allowed_texts [] = some []
allowed_texts (text t ∷ rest) = with_text t (allowed_texts rest)
allowed_texts (other ∷ rest) = none

abbrev pub checked_review : Bool → Option (List String) → Option AgentLiveReview
checked_review approved none = none
checked_review approved (some issues) =
    if has_duplicate issues
      || ((approved && not (length issues == 0)) || (not approved && length issues == 0))
    then none
    else some (record { approved = approved; issues = issues })

abbrev review_of : Option Field → Option Field → Option AgentLiveReview
review_of (some (flag approved)) (some (items issues)) =
    if leb (length issues) (length issue_codes)
    then checked_review approved (allowed_texts issues)
    else none
review_of _ _ = none

unfoldable pub parse_agent_live_review : Value → Option AgentLiveReview
unfolding allowed_texts
parse_agent_live_review v =
    if v.is_plain_record && length v.fields == 2
    then review_of (field_of "approved" v.fields) (field_of "issues" v.fields)
    else none

-- A review that says yes without issues, or no with some, each an allowed one and none of them twice.
abbrev pub IsReview : AgentLiveReview → Type 0
IsReview r =
    (r.approved ≡ (length r.issues == 0))
    × ((has_duplicate r.issues ≡ false)
        × ((all (has issue_codes) r.issues ≡ true) × (length r.issues ≤ 5)))

-- The value that a review is written as.
abbrev pub print_review : AgentLiveReview → Value
print_review r = record {
  is_plain_record = true;
  fields = ("approved", flag r.approved) ∷ ("issues", items (map text r.issues)) ∷ [];
}

allowed_texts_sound :
    (issues : List Item) (texts : List String)
    → allowed_texts issues ≡ some texts
    → (all (has issue_codes) texts ≡ true) × (length texts ≡ length issues)
unfolding allowed_texts
allowed_texts_sound [] texts h = ground arith
allowed_texts_sound (other ∷ rest) texts h = absurd (ground arith)
allowed_texts_sound (text t ∷ rest) texts h = elim (Option-cases (allowed_texts rest)) [
  | inl refused ↦ absurd (ground (arith, refused))
  | inr (ts, passed) ↦ ground (arith, passed, allowed_texts_sound rest ts passed)
]

allowed_texts-map :
    (texts : List String)
    → all (has issue_codes) texts ≡ true
    → allowed_texts (map text texts) ≡ some texts
unfolding allowed_texts
allowed_texts-map [] h = refl
allowed_texts-map (t ∷ ts) h = ground (arith, allowed_texts-map ts)

length-map_text : (texts : List String) → length (map text texts) ≡ length texts
length-map_text [] = refl
length-map_text (t ∷ ts) = ground (arith, length-map_text ts)

review_of-IsReview :
    (a b : Option Field) (r : AgentLiveReview) → review_of a b ≡ some r → IsReview r
review_of-IsReview (some (flag approved)) (some (items issues)) r h =
    elim (Option-cases (allowed_texts issues)) [
      | inl refused ↦ absurd (ground (arith, refused))
      | inr (texts, passed) ↦
          let sound = allowed_texts_sound issues texts passed in ground (arith, passed, sound)
    ]
review_of-IsReview (some (flag approved)) (some (flag b)) r h = absurd (ground arith)
review_of-IsReview (some (flag approved)) (some anything) r h = absurd (ground arith)
review_of-IsReview (some (flag approved)) none r h = absurd (ground arith)
review_of-IsReview (some (items issues)) b r h = absurd (ground arith)
review_of-IsReview (some anything) b r h = absurd (ground arith)
review_of-IsReview none b r h = absurd (ground arith)

-- A review that is parsed says yes without issues or no with some, all allowed and none twice.
pub parse_agent_live_review-IsReview :
    (v : Value) (r : AgentLiveReview) → parse_agent_live_review v ≡ some r → IsReview r
unfolding parse_agent_live_review
parse_agent_live_review-IsReview v r h =
    review_of-IsReview (field_of "approved" v.fields) (field_of "issues" v.fields) r (ground arith)

-- A review that says yes without issues or no with some, all allowed and none twice, is read back as
-- it was written.
pub parse-print_review :
    (r : AgentLiveReview) → IsReview r → parse_agent_live_review (print_review r) ≡ some r
unfolding parse_agent_live_review
parse-print_review r h =
    ground (arith, allowed_texts-map r.issues h.1.1.0, length-map_text r.issues)
