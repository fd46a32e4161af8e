-- ===== src/Agent/Persist.antt =====
-- `_load_state`, and that it gives back what `_save_state` wrote.
use prima_pool_client.Base.{
  Text, ℕ, ◌≡◌, refl, ap, ◌∙◌, true, type_error, value_error, Result, ok, err, if◌then◌else◌,
}
use prima_pool_client.Agent.Returns.{Works}
use prima_pool_client.Agent.State.{
  Agent, AgentState, fresh_state, state_file, save_state, stamp, write_state,
}
use prima_pool_client.Config.{ClientConfig}
use prima_pool_client.System.{Os}

-- A `ValueError` or a `TypeError` gives a new state; anything else is passed on.
unfoldable pub state_or_fresh : AgentState → Result AgentState → Result AgentState
state_or_fresh fresh (ok s) = ok s
state_or_fresh fresh (err (value_error t)) = ok fresh
state_or_fresh fresh (err (type_error t)) = ok fresh
state_or_fresh fresh (err e) = err e

-- The text of the file, if it can be read, as a state.
unfoldable pub read_state : (Text → Result AgentState) → Result Text → Result AgentState
read_state loads (ok content) = loads content
read_state loads (err e) = err e

module _ {W : Type 0} (os : Os W) (dumps : AgentState → Text)
    (loads : Text → Result AgentState) where
  -- `_load_state`; `loads` stands for `AgentState(**json.loads(…))`.
  unfoldable pub load_state : ClientConfig → W → Result AgentState
  unfolding state_or_fresh state_file read_state
  load_state config w =
      if os.exists (state_file os dumps config) w
      then state_or_fresh (fresh_state (os.now w))
          (read_state loads (os.read_text (state_file os dumps config) w))
      else ok (fresh_state (os.now w))

  -- A text that was written to a file is there and is read from it.
  pub record Stores : Type 0 where
    pub is_there :
        (path content : Text) {w w' : W}
        → os.write_text path content w ≡ (ok tt, w')
        → os.exists path w' ≡ true
    pub is_read :
        (path content : Text) {w w' : W}
        → os.write_text path content w ≡ (ok tt, w')
        → os.read_text path w' ≡ ok content

  abbrev pub saved : Agent W → ℕ → W → Agent W
  saved m t w = record m {
    state = record m.state { updated_at = t };
    prima = record m.prima { world = w };
  }

  -- What a save leaves, which is read from it if it can be.
  pub save_state-saved :
      (m : Agent W)
      → Works os
      → Stores
      → (t : ℕ) × (w : W) × (save_state os dumps m ≡ (ok tt, saved m t w))
        × (loads (dumps (saved m t w).state) ≡ ok (saved m t w).state
            → load_state m.config w ≡ ok (saved m t w).state)
  unfolding load_state read_state save_state stamp write_state
  save_state-saved m works stores =
      let path = state_file os dumps m.config in
      let (_, w, made) = works.makes (os.parent path) m.prima.world in
      let s : AgentState = record m.state { updated_at = os.now w } in
      let (_, w', wrote) = works.writes path (dumps s) w in
      let found = stores.is_there path (dumps s) wrote in
      let there = ap (read_state loads) (stores.is_read path (dumps s) wrote) in
      (os.now w, w', simp (made, wrote), λ prints. rw (found, there ∙ prints) refl)

  -- Where the state file can be written and what is written is read, and the state is printed so
  -- that it can be read back at any time of a save, saving returns, only the time of the save has
  -- changed in the state, and an agent that starts with the same configuration then has that
  -- state.
  pub load_state-save_state :
      (m : Agent W)
      → Works os
      → Stores
      → ((t : ℕ)
          → loads (dumps (record m.state { updated_at = t }))
            ≡ ok (record m.state { updated_at = t }))
      → (n : Agent W) × (save_state os dumps m ≡ (ok tt, n))
        × (n.state ≡ record m.state { updated_at = n.state.updated_at })
        × (load_state m.config n.prima.world ≡ ok n.state)
  load_state-save_state m works stores prints =
      let (t, w, done, loaded) = save_state-saved m works stores in
      (saved m t w, done, refl, loaded (prints t))
