-- ===== src/Agent/Keeps/Leads.antt =====
-- Methods that lead from one predicate on the agent to a weaker one, through calls that keep the
-- first.
use prima_pool_client.Base.{Result, ok, err, Exec, ◌>>=◌, ◌>>◌, continue}
use prima_pool_client.Agent.Keeps.{Keeps}
use prima_pool_client.Agent.State.{Agent}

module _ {W : Type 0} where
  -- From one predicate to another, through calls that keep the first.
  pub record Leads {A : Type 0} (P Q : Agent W → Type 0) (call : Exec (Agent W) A) : Type 0 where
    pub at : (m : Agent W) → P m → Q (call m).1

  module _ {P Q : Agent W → Type 0} (weaker : (m : Agent W) → P m → Q m) where
    continue-leads :
        {A B : Type 0} (f : A → Exec (Agent W) B) (r : Result A) (m : Agent W)
        → ((a : A) → Leads P Q (f a))
        → P m
        → Q (continue f (r, m)).1
    continue-leads f (ok a) m lf h = (lf a).at m h
    continue-leads f (err e) m lf h = weaker m h

    pub Leads-bind :
        {A B : Type 0} (call : Exec (Agent W) A) (f : A → Exec (Agent W) B)
        → Keeps P call
        → ((a : A) → Leads P Q (f a))
        → Leads P Q (◌>>=◌ call f)
    Leads-bind call f kc lf = record {
      at = λ m h. continue-leads f (call m).0 (call m).1 lf (kc.at m h);
    }

    pub Leads-then :
        {A B : Type 0} (call : Exec (Agent W) A) (next : Exec (Agent W) B)
        → Keeps P call
        → Leads P Q next
        → Leads P Q (◌>>◌ call next)
    Leads-then call next kc ln = Leads-bind call (λ _. next) kc (λ _. ln)

    pub Leads-Keeps : {A : Type 0} (call : Exec (Agent W) A) → Keeps P call → Leads P Q call
    Leads-Keeps call kc = record { at = λ m h. weaker _ (kc.at m h) }
