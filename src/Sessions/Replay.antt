-- ===== src/Sessions/Replay.antt =====
-- evolution/session_state_manager.py: a session as a store of values, over calls of `update_state`,
-- `set_state` and `get_state_value`.
use photon_kernel_sil.Prelude.{
  String, true, List, [], ◌∷◌, Option, none, some, ◌≡◌, refl, ap, ◌∙◌, arith, ◌==◌, string_eq,
  ==_iff, if◌then◌else◌,
}
use photon_kernel_sil.Prelude.Dict.{Dict, get, get_or, put, get-put}
use photon_kernel_sil.Sessions.Types.{SessionState, SessionStateManager, World}
use photon_kernel_sil.Sessions.Store.{permitted, visible, store, touched}
use photon_kernel_sil.Sessions.Lifecycle.{merge, get_state_value, update_state, set_state}
use photon_kernel_sil.Sessions.Effects.{log_updates-rest, permitted-same}

-- A call of one client on its session
pub data Call : Type 0 where
  writes : World → Dict String String → String → Call
  sets : World → String → String → String → Call
  reads : World → String → String → Call

-- The specification: a value for each key, the last one that was written
abbrev pub View : Type 0
View = String → Option String

abbrev pub write : View → String → String → View
write view key value k = if key == k then some value else view k

abbrev pub write_all : View → Dict String String → View
write_all view [] = view
write_all view ((key, value) ∷ updates) = write_all (write view key value) updates

abbrev pub or_default : Option String → String → String
or_default none default = default
or_default (some v) default = v

unfoldable pub expected : View → List Call → List String
expected view [] = []
expected view (writes w updates actor ∷ calls) = expected (write_all view updates) calls
expected view (sets w key value actor ∷ calls) = expected (write view key value) calls
expected view (reads w key default ∷ calls) = or_default (view key) default ∷ expected view calls

-- The code: the manager after the calls
unfoldable pub run :
    (String → String)
    → String
    → Option String
    → SessionStateManager
    → List Call
    → SessionStateManager
run safe_id id tenant m [] = m
run safe_id id tenant m (writes w updates actor ∷ calls) =
    run safe_id id tenant (update_state safe_id w m id updates tenant actor).0 calls
run safe_id id tenant m (sets w key value actor ∷ calls) =
    run safe_id id tenant (set_state safe_id w m id key value tenant actor).0 calls
run safe_id id tenant m (reads w key default ∷ calls) =
    run safe_id id tenant (get_state_value w m id key default tenant).0 calls

-- and what the reads gave
unfoldable pub answers :
    (String → String) → String → Option String → SessionStateManager → List Call → List String
answers safe_id id tenant m [] = []
answers safe_id id tenant m (writes w updates actor ∷ calls) =
    answers safe_id id tenant (update_state safe_id w m id updates tenant actor).0 calls
answers safe_id id tenant m (sets w key value actor ∷ calls) =
    answers safe_id id tenant (set_state safe_id w m id key value tenant actor).0 calls
answers safe_id id tenant m (reads w key default ∷ calls) =
    (get_state_value w m id key default tenant).1
    ∷ answers safe_id id tenant (get_state_value w m id key default tenant).0 calls

get-merge :
    (d : Dict String String) (view : View) (updates : Dict String String)
    → ((k : String) → get d k ≡ view k)
    → (k : String) → get (merge d updates) k ≡ write_all view updates k
unfolding merge
get-merge d view [] h k = h k
get-merge d view ((key, value) ∷ updates) h k =
    get-merge (put d key value) (write view key value) updates
      (λ j. ground (arith, get-put d key j value, h j)) k

-- The session is there for the tenant, and the view is what it holds. The snapshots are those of
-- the start.
pub record Shows (id : String) (tenant : Option String) (start m : SessionStateManager)
    (view : View) : Type 0 where
  pub session : SessionState
  pub found : get m.sessions id ≡ some session
  pub may : permitted tenant session ≡ true
  pub holds : (k : String) → get session.state k ≡ view k
  pub snapshots : m.snapshots ≡ start.snapshots
  pub limit : m.max_snapshots_per_session ≡ start.max_snapshots_per_session
  pub named : session.session_id ≡ id

pub visible-Shows :
    (id : String) (tenant : Option String) (start m : SessionStateManager) (view : View)
    (h : Shows id tenant start m view)
    → visible m id tenant ≡ some h.session
unfolding visible
visible-Shows id tenant start m view h = rw (h.found, visible, h.may) refl

module _ (safe_id : String → String) (id : String) (tenant : Option String)
    (start : SessionStateManager) where
  update_state-Shows :
      (w : World) (m : SessionStateManager) (view : View) (updates : Dict String String)
      (actor : String)
      → Shows id tenant start m view
      → Shows id tenant start
          (update_state safe_id w m id updates tenant actor).0
          (write_all view updates)
  unfolding update_state
  update_state-Shows w m view updates actor h =
      let s = h.session in
      let s' = record s {
        last_accessed_at = w.clock 0;
        state = merge s.state updates;
        updated_at = w.clock 1;
      } in
      let (a, b, c, d) = log_updates-rest w.clock 2 id actor s.state updates (store id s' m) in
      rw (visible-Shows id tenant start m view h, update_state)
        (record {
          session = s';
          found = ap (λ d. get d id) a ∙ ground (arith, get-put m.sessions id id s', ==_iff id id);
          may = permitted-same tenant s s' refl h.may;
          holds = get-merge s.state view updates h.holds;
          snapshots = c ∙ h.snapshots;
          limit = d ∙ h.limit;
          named = h.named;
        })

  get_state_value-Shows :
      (w : World) (m : SessionStateManager) (view : View) (key default : String)
      → Shows id tenant start m view
      → Shows id tenant start (get_state_value w m id key default tenant).0 view
  unfolding get_state_value
  get_state_value-Shows w m view key default h =
      let s' = touched (w.clock 0) h.session in
      rw (visible-Shows id tenant start m view h, get_state_value)
        (record {
          session = s';
          found = ground (arith, get-put m.sessions id id s', ==_iff id id);
          may = permitted-same tenant h.session s' refl h.may;
          holds = h.holds;
          snapshots = h.snapshots;
          limit = h.limit;
          named = h.named;
        })

  get_state_value_lem :
      (w : World) (m : SessionStateManager) (view : View) (key default : String)
      → Shows id tenant start m view
      → (get_state_value w m id key default tenant).1 ≡ or_default (view key) default
  unfolding get_state_value get_or
  get_state_value_lem w m view key default h =
      rw (visible-Shows id tenant start m view h, get_state_value, get_or, h.holds key)
        (ground arith)

  answers-Shows :
      (calls : List Call) (m : SessionStateManager) (view : View)
      → Shows id tenant start m view
      → answers safe_id id tenant m calls ≡ expected view calls
  unfolding answers expected set_state
  answers-Shows [] m view h = refl
  answers-Shows (writes w updates actor ∷ calls) m view h =
      answers-Shows calls _ (write_all view updates) (update_state-Shows w m view updates actor h)
  answers-Shows (sets w key value actor ∷ calls) m view h =
      answers-Shows calls _ (write view key value)
        (update_state-Shows w m view ((key, value) ∷ []) actor h)
  answers-Shows (reads w key default ∷ calls) m view h =
      rw (get_state_value_lem w m view key default h) (
        ap (◌∷◌ (or_default (view key) default))
          (answers-Shows calls _ view (get_state_value-Shows w m view key default h)))

  pub run-Shows :
      (calls : List Call) (m : SessionStateManager) (view : View)
      → Shows id tenant start m view
      → (later : View) × Shows id tenant start (run safe_id id tenant m calls) later
  unfolding run set_state
  run-Shows [] m view h = (view, h)
  run-Shows (writes w updates actor ∷ calls) m view h =
      run-Shows calls _ (write_all view updates) (update_state-Shows w m view updates actor h)
  run-Shows (sets w key value actor ∷ calls) m view h =
      run-Shows calls _ (write view key value)
        (update_state-Shows w m view ((key, value) ∷ []) actor h)
  run-Shows (reads w key default ∷ calls) m view h =
      run-Shows calls _ view (get_state_value-Shows w m view key default h)

-- The reads of a caller that may see a session give the values that an abstract store gives, in which
-- each write goes over the one before, from the state that the session had.
pub answers_refine :
    (safe_id : String → String) (m : SessionStateManager) (id : String) (tenant : Option String)
    (s : SessionState) (calls : List Call)
    → get m.sessions id ≡ some s
    → s.session_id ≡ id
    → permitted tenant s ≡ true
    → answers safe_id id tenant m calls ≡ expected (get s.state) calls
answers_refine safe_id m id tenant s calls found named may =
    answers-Shows safe_id id tenant m calls m (get s.state) (record {
      session = s;
      found = found;
      may = may;
      holds = λ k. refl;
      snapshots = refl;
      limit = refl;
      named = named;
    })
