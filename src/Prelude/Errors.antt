-- ===== src/Prelude/Errors.antt =====
-- What a JavaScript function ends with: a value, or an exception by its class.

-- `range_error` is thrown by the accessors of `Buffer`, `plain_error` by `new Error(...)`, and the
-- others by the classes of `errors/KafkaError.ts`.
pub data Error : Type 0 where
  range_error plain_error : Error
  kafka_error disconnected timed_out leader_not_available : Error

pub data Result {ℓ} (A : Type ℓ) : Type ℓ where
  ok : (value : A) → Result A
  err : (error : Error) → Result A

-- An exception skips the statements that follow; for do blocks.
abbrev pub ◌>>=◌ {ℓ κ} :
    {A : Type ℓ} {B : Type κ} (first : Result A) (next : A → Result B) → Result B
err error >>= next = err error
ok value >>= next = next value

infixl 5 ◌>>=◌
