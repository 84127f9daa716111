-- ===== src/Python.antt =====
-- What the program uses of Python itself: the exceptions that its handlers tell apart, and the
-- result of code that may raise. The integers of `int` and the lists' `remove` are in the children.
pub mod Int
pub mod Lists
pub mod Asyncio
use fastapi_project.Prelude.{ℕ, String, Bool, true, false, ◌≡◌, refl, ◌⊎◌, inl, inr, arith}

-- `AMQPChannelError` and `AMQPConnectionError` are aio_pika's, `HTTPException` and
-- `WebSocketDisconnect` are FastAPI's, `AppError` is main.py's, and `other_error` stands for every
-- further subclass of `Exception`.
pub data Exn : Type 0 where
  amqp_channel_error : Exn
  amqp_connection_error : Exn
  cancelled_error : Exn
  timeout_error : Exn
  attribute_error : Exn
  type_error : Exn
  key_error : Exn
  message_process_error : Exn
  json_decode_error : Exn
  unicode_decode_error : Exn
  websocket_disconnect : Exn
  value_error : String → Exn
  http_exception : ℕ → String → Exn
  app_error : String → ℕ → Exn
  other_error : String → Exn

-- What `except Exception` catches: all but `CancelledError`, a subclass of `BaseException` alone.
abbrev pub is_exception : Exn → Bool
is_exception cancelled_error = false
is_exception _ = true

pub data Outcome {ℓ} (A : Type ℓ) : Type ℓ where
  returned : A → Outcome A
  raised : Exn → Outcome A

infixl 5 ◌>>=◌ ◌>>◌
abbrev pub ◌>>=◌ {ℓ κ} : {A : Type ℓ} {B : Type κ} → Outcome A → (A → Outcome B) → Outcome B
returned a >>= f = f a
raised e >>= f = raised e

abbrev pub ◌>>◌ {ℓ} : {B : Type ℓ} → Outcome (Unit {0}) → Outcome B → Outcome B
m >> k = m >>= λ _. k

-- The exceptions of the first handler in rmq/consumer.py.
abbrev pub is_decode_error : Exn → Bool
is_decode_error json_decode_error = true
is_decode_error unicode_decode_error = true
is_decode_error _ = false

-- What an awaited call of a library did: returned nothing of interest, or raised.
abbrev pub Await : Type 0
Await = Outcome (Unit {0})

abbrev pub done : Await
done = returned tt

-- To split on a computed outcome and keep the equation.
pub Outcome-split {ℓ} :
    {A : Type ℓ} (x : Outcome A) → ((a : A) × (x ≡ returned a)) ⊎ ((e : Exn) × (x ≡ raised e))
Outcome-split (returned a) = inl (a, refl)
Outcome-split (raised e) = inr (e, refl)

pub Outcome-cases : (a : Await) → (a ≡ done) ⊎ ((e : Exn) × (a ≡ raised e))
Outcome-cases (returned tt) = inl refl
Outcome-cases (raised e) = inr (e, refl)

-- What a chain that returns has passed through.
pub >>=-returned {ℓ κ} :
    {A : Type ℓ} {B : Type κ} (m : Outcome A) (f : A → Outcome B) {b : B}
    → (m >>= f) ≡ returned b
    → (a : A) × (m ≡ returned a) × (f a ≡ returned b)
>>=-returned (returned a) f h = (a, refl, h)
>>=-returned (raised e) f h = absurd (ground arith)

-- Where a chain that raises has raised.
pub >>=-raised {ℓ κ} :
    {A : Type ℓ} {B : Type κ} (m : Outcome A) (f : A → Outcome B) {e : Exn}
    → (m >>= f) ≡ raised e
    → (m ≡ raised e) ⊎ ((a : A) × (m ≡ returned a) × (f a ≡ raised e))
>>=-raised (returned a) f h = inr (a, refl, h)
>>=-raised (raised x) f h = inl (ground arith)
