-- ===== src/Agent/Returns.antt =====
-- Total correctness of the agent's methods: from P a method returns, in a state with Q.
use prima_pool_client.Base.{
  Text, ℕ, ◌≡◌, refl, ◌∙◌, ap, Option, none, some, ok, Exec, ◌>>=◌, ◌>>◌, modify, List, [], ◌∷◌,
  continue, codes, Bool-cases, inl, inr,
}
use prima_pool_client.Agent.Cluster.{wg_down}
use prima_pool_client.Agent.State.{
  Agent, AgentState, self, on_world, save_state, stamp, write_state, state_file,
}
use prima_pool_client.Pool.{Pool}
use prima_pool_client.Prima.Launcher.{Launcher, is_docker, end_process, close_capture}
use prima_pool_client.Config.{ClientConfig}
use prima_pool_client.Prima.Launcher
use prima_pool_client.System.{Os}
use prima_pool_client.WireGuard.Manager
use prima_pool_client.WireGuard.Manager.{Manager, available, program_of}

-- A call of the machine that returns from every state.
abbrev pub AlwaysOk : {W A : Type 0} → Exec W A → Type 0
AlwaysOk {W} {A} call = (w : W) → (a : A) × (w' : W) × (call w ≡ (ok a, w'))

-- Programs can be started, whatever their status, and the state file can be written.
pub record Works {W : Type 0} (os : Os W) : Type 0 where
  pub runs : (cwd : Option Text) (cmd : List Text) → AlwaysOk (os.run cwd cmd)
  pub makes : (path : Text) → AlwaysOk (os.mkdir path)
  pub writes : (path content : Text) → AlwaysOk (os.write_text path content)

pub record Returns {W A : Type 0} (P : Agent W → Type 0) (call : Exec (Agent W) A)
    (Q : Agent W → Type 0) : Type 0 where
  pub at : (m : Agent W) → P m → (a : A) × (n : Agent W) × (call m ≡ (ok a, n)) × Q n

-- A predicate that says nothing of the launcher and the machine.
abbrev pub SkipsPrima : {W : Type 0} → (Agent W → Type 0) → Type 0
SkipsPrima {W} P = (m : Agent W) (l : Launcher W) → P m → P (record m { prima = l })

-- A predicate that says nothing of the time of the last save.
abbrev pub SkipsStamp : {W : Type 0} → (Agent W → Type 0) → Type 0
SkipsStamp {W} P =
    (m : Agent W) (t : ℕ) → P m → P (record m { state = record m.state { updated_at = t } })

module _ {W : Type 0} {P : Agent W → Type 0} where
  pub Returns-bind :
      {A B : Type 0} {R Q : Agent W → Type 0} (call : Exec (Agent W) A) (f : A → Exec (Agent W) B)
      → Returns P call R
      → ((a : A) → Returns R (f a) Q)
      → Returns P (◌>>=◌ call f) Q
  Returns-bind call f first rest = record {
    at = λ m h.
        let (a, n, done, r) = first.at m h in
        let (b, o, done', q) = (rest a).at n r in (b, o, ap (continue f) done ∙ done', q);
  }

  pub Returns-then :
      {A B : Type 0} {R Q : Agent W → Type 0} (call : Exec (Agent W) A) (next : Exec (Agent W) B)
      → Returns P call R
      → Returns R next Q
      → Returns P (◌>>◌ call next) Q
  Returns-then call next first rest = Returns-bind call (λ _. next) first (λ _. rest)

  pub Returns-self :
      {A : Type 0} {Q : Agent W → Type 0} (f : Agent W → Exec (Agent W) A)
      → ((n : Agent W) → Returns P (f n) Q)
      → Returns P (◌>>=◌ self f) Q
  Returns-self f h = record { at = λ m k. (h m).at m k }

  pub Returns-modify :
      {Q : Agent W → Type 0} (f : Agent W → Agent W)
      → ((m : Agent W) → P m → Q (f m))
      → Returns P (modify f) Q
  Returns-modify f h = record { at = λ m k. (tt, f m, refl, h m k) }

  -- A call whose own effect on the machine keeps `P`.
  pub Returns-on_world_keeps :
      {A : Type 0} (call : Exec W A)
      → AlwaysOk call
      → ((m : Agent W) (a : A) (w : W)
          → call m.prima.world ≡ (ok a, w)
          → P m
          → P (record m { prima = record m.prima { world = w } }))
      → Returns P (on_world call) P
  Returns-on_world_keeps call always keeps = record {
    at = λ m k.
        let (a, w, e) = always m.prima.world in
        (
          a,
          record m { prima = record m.prima { world = w } },
          ap (λ (r, v). (r, record m { prima = record m.prima { world = v } })) e,
          keeps m a w e k,
        );
  }

  pub Returns-on_world :
      {A : Type 0} (call : Exec W A) → AlwaysOk call → SkipsPrima P → Returns P (on_world call) P
  Returns-on_world call always skips =
      Returns-on_world_keeps call always (λ m a w e k. skips m (record m.prima { world = w }) k)

module _ {W : Type 0} (os : Os W) (works : Works os) where
  abbrev pkill_command : Text → List Text
  pkill_command name = codes "pkill" ∷ codes "-f" ∷ name ∷ []

  pub down-AlwaysOk : (config : ClientConfig) (g : Manager) → AlwaysOk (Manager.down os config g)
  unfolding Manager.down
  down-AlwaysOk config g w = elim (Bool-cases (available g)) [
    | inr absent ↦ (tt, w, simp absent)
    | inl there ↦
        let (c, w', e) =
          works.runs none (program_of g.wg_quick ∷ codes "down" ∷ config.wg_interface ∷ []) w in
        (tt, w', simp (there, e))
  ]

  -- A launcher can always be stopped.
  pub stop_returns :
      (config : ClientConfig) (l : Launcher W)
      → (k : Launcher W) × (Launcher.stop os config l ≡ (ok tt, k))
  unfolding Launcher.stop
  stop_returns config l = elim (Bool-cases (is_docker config)) [
    | inl docker ↦
        let (c, w, e) =
          works.runs (some (os.expanduser config.prima_dir))
            (codes "docker" ∷ codes "compose" ∷ codes "down" ∷ []) l.world in
        (record l { world = w }, simp (docker, e))
    | inr same ↦
        let w : W = close_capture os config l.capture (end_process os config l.proc l.world) in
        let (c, u, e) = works.runs none (pkill_command (codes "llama-server")) w in
        let (d, v, f) = works.runs none (pkill_command (codes "llama-cli")) u in
        (record l { capture = none; world = v }, simp (same, e, f))
  ]

  module _ (pool : Pool W) (dumps : AgentState → Text) {P : Agent W → Type 0}
      (skips : SkipsPrima P) where
    pub Returns-wg_down : Returns P (wg_down os pool dumps) P
    unfolding wg_down
    Returns-wg_down = Returns-self _ λ m. Returns-on_world _ (down-AlwaysOk m.config m.wg) skips

    pub Returns-save_state : SkipsStamp P → Returns P (save_state os dumps) P
    unfolding save_state stamp write_state state_file
    Returns-save_state stamps = Returns-self _ λ m.
        Returns-then _ _ (Returns-on_world _ (works.makes _) skips) (
          Returns-then _ _
            (Returns-self _ λ n. Returns-modify _ λ o h. stamps o (os.now n.prima.world) h)
            (Returns-self _ λ n.
              Returns-on_world _ (works.writes (state_file os dumps n.config) (dumps n.state))
                skips))
