-- ===== src/Prelude/Exec.antt =====
-- Methods that mutate an object and may raise. What was written before a raise stays written, so
-- the state comes back beside the error too.
use mathlib.Core.Option.{Option, none, some}
use mathlib.Core.Bool.{Bool, true, false}
use mathlib.Core.List.{List, [], ◌∷◌}

-- The exceptions that the modelled code raises. Python does not have the last cases: `dangling` is a
-- reference to no object, `diverges` a loop whose fuel ran out, and `would_wait` an await that does
-- not go on.
pub data Error : Type 0 where
  validation_error key_error value_error index_error : Error
  duplicate_tasks missing_dependency queue_full dangling diverges oversize_object type_error : Error
  exception no_matching_peer_capabilities handshake_failure too_many_peers : Error
  cancelled_error unknown_protocol unknown_protocol_command malformed_message decryption_error :
      Error
  peer_connection_lost deserialization_error would_wait : Error
  overflow_error remote_chain_is_stale local_chain_incompatible_or_stale : Error

pub data Result {ℓ} (A : Type ℓ) : Type ℓ where
  ok : A → Result A
  err : Error → Result A

abbrev pub Exec {ℓ} : Type ℓ → Type ℓ → Type ℓ
Exec S A = S → Result A × S

module _ {ℓ} {S A : Type ℓ} where
  abbrev pub pure : A → Exec S A
  pure a s = (ok a, s)

  abbrev pub raise : Error → Exec S A
  raise e s = (err e, s)

  abbrev pub gets : (S → A) → Exec S A
  gets f s = (ok (f s), s)

  -- A read of what may be missing: `d[k]`, `l[i]`.
  abbrev pub require : Error → Option A → Exec S A
  require e none s = (err e, s)
  require e (some a) s = (ok a, s)

module _ {ℓ} {S A B : Type ℓ} where
  abbrev pub continue : Result A → (A → Exec S B) → Exec S B
  continue (ok a) f s = f a s
  continue (err e) f s = (err e, s)

  infixl 10 ◌>>=◌ ◌>>◌
  abbrev pub ◌>>=◌ : Exec S A → (A → Exec S B) → Exec S B
  ◌>>=◌ m f s = continue (m s).0 f (m s).1

  abbrev pub ◌>>◌ : Exec S A → Exec S B → Exec S B
  m >> n = m >>= λ _. n

-- A method of an object that is a field of another.
module _ {S T A : Type 0} where
  abbrev pub zoom : (S → T) → (T → S → S) → Exec T A → Exec S A
  zoom read write m s = ((m (read s)).0, write (m (read s)).1 s)

module _ {S : Type 0} where
  abbrev pub modify : (S → S) → Exec S Unit
  modify f s = (ok tt, f s)

  -- `if b: raise e`.
  abbrev pub raise_if : Error → Bool → Exec S Unit
  raise_if e true s = (err e, s)
  raise_if e false s = (ok tt, s)

  -- `for x in xs: body(x)`.
  unfoldable pub for_each : {A : Type 0} → (A → Exec S Unit) → List A → Exec S Unit
  for_each body [] = pure tt
  for_each body (x ∷ xs) = body x >> for_each body xs
