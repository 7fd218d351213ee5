-- ===== src/Prelude/Exec.antt =====
-- Code that changes a state and may raise. What was written before a raise stays written, so the
-- state comes back with either outcome.
use Prim.Native.Nat.{ℕ}
use Prim.Native.String.{String}

-- `AppError(status_code, detail)`, and any other exception by the name of its class.
pub data Exn : Type 0 where
  app_error : ℕ → String → Exn
  raised : String → Exn

pub data Result {ℓ} (A : Type ℓ) : Type ℓ where
  ok : A → Result A
  err : Exn → Result A

abbrev pub Exec {ℓ} : Type ℓ → Type ℓ → Type ℓ
Exec S A = S → Result A × S

module _ {ℓ} {S A : Type ℓ} where
  abbrev pub pure : A → Exec S A
  pure a s = (ok a, s)

  abbrev pub raise : Exn → Exec S A
  raise e s = (err e, s)

  abbrev pub gets : (S → A) → Exec S A
  gets f s = (ok (f s), s)

  abbrev pub rescue : Result A × S → (Exn → Exec S A) → Result A × S
  rescue (ok a, s) k = (ok a, s)
  rescue (err e, s) k = k e s

  -- `try: m except …: k(e)`
  abbrev pub catch : Exec S A → (Exn → Exec S A) → Exec S A
  catch m k s = rescue (m s) k

abbrev pub continue {ℓ} : {S A B : Type ℓ} → Result A × S → (A → Exec S B) → Result B × S
continue (ok a, s) f = f a s
continue (err e, s) f = (err e, s)

abbrev pub modify {ℓ} : {S : Type ℓ} → (S → S) → Exec S (Unit {ℓ})
modify f s = (ok tt, f s)

infixl 5 ◌>>=◌ ◌>>◌
abbrev pub ◌>>=◌ {ℓ} : {S A B : Type ℓ} → Exec S A → (A → Exec S B) → Exec S B
◌>>=◌ m f s = continue (m s) f

abbrev pub ◌>>◌ {ℓ} : {S A B : Type ℓ} → Exec S A → Exec S B → Exec S B
m >> k = m >>= λ _. k
