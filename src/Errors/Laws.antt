-- ===== src/Errors/Laws.antt =====
-- src/errors/KafkaError.ts: which error stands for which code.
use kafka_node_ts.Prelude.{
  ◌≤◌, ==_iff, ℕ, zero, suc, ◌<◌, ◌≡◌, ◌≢◌, refl, Bool, true, false, ◌&&◌, ◌==◌, ltb, Option, none,
  some, List, [], ◌∷◌, inl, inr, Bool-cases, if◌then◌else◌, arith,
}
use kafka_node_ts.Prelude.Int.{ℤ, pos, negsuc}
use kafka_node_ts.Text.{JsString}
use kafka_node_ts.Errors.{
  ErrorClass, authorization_error, authentication_error, timeout_error, disconnected_error,
  partition_not_exists_error, broker_error, KafkaErrorObject, Case, all_cases, find_case,
  unknown_code, error_of, from_error_code,
}

-- The codes from 1 to 37.
abbrev pub is_listed : ℤ → Bool
is_listed (pos n) = ltb 0 n && ltb n 38
is_listed (negsuc n) = false

-- The classes that `fromErrorCode` makes for a listed code.
abbrev pub is_made : ErrorClass → Bool
is_made authorization_error = false
is_made authentication_error = false
is_made timeout_error = false
is_made disconnected_error = false
is_made partition_not_exists_error = false
is_made broker_error = false
is_made _ = true

abbrev pub is_broker : ErrorClass → Bool
is_broker broker_error = true
is_broker _ = false

-- What the cases of the switch have in common.
abbrev is_fine : Case → Bool
is_fine c = is_listed (pos c.code) && is_made c.class

every : List Case → Bool
every [] = true
every (c ∷ cs) = is_fine c && every cs

all_cases_fine : every all_cases ≡ true
unfolding every
all_cases_fine = refl

found :
    (n : ℕ) (cs : List Case) {c : Case}
    → every cs ≡ true
    → find_case n cs ≡ some c
    → (is_listed (pos n) ≡ true) × (is_made c.class ≡ true)
unfolding find_case every
found n [] h e = absurd (cc e)
found n (d ∷ cs) {c} h e = ground (arith, found n cs {c = c})

abbrev is_found : ℕ → Bool
is_found n = elim (find_case n all_cases) [ none ↦ false | some c ↦ true ]

-- The cases cover the codes from 1 to `top`.
covered : (top : ℕ) → Bool
covered zero = true
covered (suc top) = is_found (suc top) && covered top

covered_up_to : covered 37 ≡ true
unfolding covered find_case
covered_up_to = refl

covered-found : (n top : ℕ) → 0 < n → n ≤ top → covered top ≡ true → is_found n ≡ true
unfolding covered
covered-found n zero positive below all = absurd (omega arith)
covered-found n (suc top) positive below all = elim (Bool-cases (n == suc top)) [
  | inl last ↦ rw ((==_iff n (suc top)).0 last) (ground arith)
  | inr earlier ↦ covered-found n top positive (ground arith) (ground arith)
]

listed_found : (n : ℕ) → is_listed (pos n) ≡ true → is_found n ≡ true
listed_found n h = covered-found n 37 (ground arith) (ground arith) covered_up_to

-- The error that stands for a code, given a message that is not empty.
abbrev pub Stands : ℤ → JsString → KafkaErrorObject → Type 0
Stands code message e =
    (e.message ≡ message)
    × (e.error_code ≡ (if is_listed code then none else some code))
    × ((if is_listed code then is_made e.class else is_broker e.class) ≡ true)

stands :
    (n : ℕ) (u : ℕ) (s : JsString) (found_case : Option Case)
    → find_case n all_cases ≡ found_case
    → Stands (pos n) (u ∷ s) (error_of (pos n) (some (u ∷ s)) found_case)
stands n u s none e = elim (Bool-cases (is_listed (pos n))) [
  | inl listed ↦ absurd (cc (rw (e, is_found) at (listed_found n listed)))
  | inr other ↦ rw other (refl, refl, refl)
]
stands n u s (some c) e =
    let (listed, made) = found n all_cases all_cases_fine e in rw listed (refl, refl, made)

-- A code other than 0, and a message that is not empty: `fromErrorCode` returns an error with that
-- message. For a code from 1 to 37 the error does not hold the code, and its class is none of
-- AuthorizationError, AuthenticationError, TimeoutError, DisconnectedError and PartitionNotExistsError;
-- for any other it is a BrokerError that holds the code. For the code 0 it returns null.
pub from_error_code-Stands :
    (code : ℤ) (u : ℕ) (s : JsString)
    → code ≢ pos 0
    → (e : KafkaErrorObject) × (from_error_code code (some (u ∷ s)) ≡ some e)
      × Stands code (u ∷ s) e
      × (from_error_code (pos 0) (some (u ∷ s)) ≡ none)
unfolding from_error_code
from_error_code-Stands (pos n) u s h = (
  error_of (pos n) (some (u ∷ s)) (find_case n all_cases),
  ground (arith),
  stands n u s (find_case n all_cases) refl,
  refl,
)
from_error_code-Stands (negsuc n) u s h =
    (unknown_code (negsuc n) (some (u ∷ s)), refl, (refl, refl, refl), refl)
