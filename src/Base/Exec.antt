-- ===== src/Base/Exec.antt =====
-- Code that awaits a store and may throw. What it wrote before it threw stays written, so the state
-- is returned beside the error.
pub mod Rules
use mathlib.Core.Path.{◌≡◌, refl}
use mathlib.Core.Bool.{Bool, true, false}
use mathlib.Core.Option.{Option, none, some}
use unicas.Base.Tests.{if◌then◌else◌}
use unicas.Base.Results.{Result, ok, err}

abbrev pub Exec {ℓ} : Type ℓ → Type ℓ → Type ℓ → Type ℓ
Exec S E A = S → Result E A × S

module _ {ℓ} {S E A : Type ℓ} where
  abbrev pub return : A → Exec S E A
  return value state = (ok value, state)

  -- `throw e`
  abbrev pub throw : E → Exec S E A
  throw thrown state = (err thrown, state)

  -- A computation that does not use the store.
  abbrev pub lift : Result E A → Exec S E A
  lift result state = (result, state)

  -- A read.
  abbrev pub reads : (S → A) → Exec S E A
  reads query state = (ok (query state), state)

  abbrev pub recover_from : Result E A → (E → Exec S E A) → Exec S E A
  recover_from (ok value) handler state = (ok value, state)
  recover_from (err thrown) handler state = handler thrown state

  -- `try { m } catch (e) { handler(e) }`
  unfoldable pub recover : Exec S E A → (E → Exec S E A) → Exec S E A
  recover m handler state = let (result, state') = m state in recover_from result handler state'

module _ {ℓ} {S E A B : Type ℓ} where
  abbrev pub proceed : Result E A → (A → Exec S E B) → Exec S E B
  proceed (ok value) next state = next value state
  proceed (err thrown) next state = (err thrown, state)

  infixl 5 ◌>>=◌ ◌>>◌
  unfoldable pub ◌>>=◌ : Exec S E A → (A → Exec S E B) → Exec S E B
  (m >>= next) state = let (result, state') = m state in proceed result next state'

  abbrev pub ◌>>◌ : Exec S E A → Exec S E B → Exec S E B
  m >> next = m >>= λ _. next

module _ {ℓ} {S E : Type ℓ} where
  -- `if (test) throw e`.
  abbrev pub throw_when : Bool → E → Exec S E (Unit {ℓ})
  throw_when true thrown state = (err thrown, state)
  throw_when false thrown state = (ok tt, state)
