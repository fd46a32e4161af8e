-- ===== src/Agent/Keeps.antt =====
-- Invariants of the agent's methods, one rule for each way to build a method. What a method keeps,
-- it keeps whether it returns or raises.
pub mod Parts
pub mod Leads
use prima_pool_client.Base.{
  Bool, true, false, Result, ok, err, Error, Exec, ◌>>=◌, ◌>>◌, pure, raise, if◌then◌else◌,
  continue,
}
use prima_pool_client.Agent.State.{Agent, attempt}

pub record Keeps {W A : Type 0} (P : Agent W → Type 0) (call : Exec (Agent W) A) : Type 0 where
  pub at : (m : Agent W) → P m → P (call m).1

module _ {W : Type 0} {P : Agent W → Type 0} where
  continue-keeps :
      {A B : Type 0} (f : A → Exec (Agent W) B) (r : Result A) (m : Agent W)
      → ((a : A) → Keeps P (f a))
      → P m
      → P (continue f (r, m)).1
  continue-keeps f (ok a) m kf h = (kf a).at m h
  continue-keeps f (err e) m kf h = h

  pub Keeps-bind :
      {A B : Type 0} (call : Exec (Agent W) A) (f : A → Exec (Agent W) B)
      → Keeps P call
      → ((a : A) → Keeps P (f a))
      → Keeps P (◌>>=◌ call f)
  Keeps-bind call f kc kf = record {
    at = λ m h. continue-keeps f (call m).0 (call m).1 kf (kc.at m h);
  }

  pub Keeps-then :
      {A B : Type 0} (call : Exec (Agent W) A) (next : Exec (Agent W) B)
      → Keeps P call
      → Keeps P next
      → Keeps P (◌>>◌ call next)
  Keeps-then call next kc kn = Keeps-bind call (λ _. next) kc (λ _. kn)

  pub Keeps-pure : {A : Type 0} (a : A) → Keeps P (pure a)
  Keeps-pure a = record { at = λ m h. h }

  pub Keeps-raise : {A : Type 0} (e : Error) → Keeps P (raise {A = A} e)
  Keeps-raise e = record { at = λ m h. h }

  pub Keeps-attempt : {A : Type 0} (call : Exec (Agent W) A) → Keeps P call → Keeps P (attempt call)
  Keeps-attempt call kc = record { at = λ m h. kc.at m h }

  pub Keeps-if :
      {A : Type 0} (b : Bool) (x y : Exec (Agent W) A)
      → Keeps P x
      → Keeps P y
      → Keeps P (if b then x else y)
  Keeps-if true x y kx ky = kx
  Keeps-if false x y kx ky = ky

pub ruleset keeps_rules = (Keeps-bind, Keeps-then, Keeps-pure, Keeps-raise, Keeps-attempt, Keeps-if)
