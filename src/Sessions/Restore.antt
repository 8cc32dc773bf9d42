-- ===== src/Sessions/Restore.antt =====
-- evolution/session_state_manager.py: the ways back to a snapshot, `restore_snapshot` and
-- `resume_session`.
use photon_kernel_sil.Prelude.{
  ℕ, zero, suc, ◌-◌, ◌≤◌, ◌<◌, String, true, List, [], ◌∷◌, ◌++◌, Option, none, some, ◌≡◌, inl, inr,
  refl, ap, ◌∙◌, arith, ltb, nat_eq, string_eq, ==_iff, length, drop, length-append, Bool-cases,
}
use photon_kernel_sil.Prelude.Dict.{Dict, get, get_or, get-put, get-put_self, get_or-put}
use photon_kernel_sil.Prelude.Text.{text_append}
use photon_kernel_sil.Sessions.Types.{SessionState, SessionSnapshot, SessionStateManager, World}
use photon_kernel_sil.Sessions.Store.{
  last_n, window, new_snapshot, create_snapshot_internal, permitted, visible, touched,
}
use photon_kernel_sil.Sessions.Lifecycle.{latest_state, resume_session}
use photon_kernel_sil.Sessions.Snapshots.{create_snapshot, find_snapshot, restore_snapshot}
use photon_kernel_sil.Sessions.Effects.{log_change-rest, permitted-same}
use photon_kernel_sil.Sessions.Replay.{Call, run, View, Shows, run-Shows, visible-Shows}

find_snapshot-last :
    (id : String) (xs : List SessionSnapshot) (x : SessionSnapshot)
    → find_snapshot id xs ≡ none
    → x.snapshot_id ≡ id
    → find_snapshot id (xs ++ x ∷ []) ≡ some x
unfolding find_snapshot
find_snapshot-last id [] x h e = ground (arith, ==_iff x.snapshot_id id)
find_snapshot-last id (y ∷ xs) x h e = ground (arith, find_snapshot-last id xs x)

find_snapshot-drop :
    (id : String) (n : ℕ) (xs : List SessionSnapshot)
    → find_snapshot id xs ≡ none
    → find_snapshot id (drop n xs) ≡ none
unfolding find_snapshot
find_snapshot-drop id zero xs h = h
find_snapshot-drop id (suc n) [] h = h
find_snapshot-drop id (suc n) (y ∷ xs) h = find_snapshot-drop id n xs (ground arith)

drop-append :
    {A : Type 0} (n : ℕ) (xs ys : List A) → n ≤ length xs → drop n (xs ++ ys) ≡ drop n xs ++ ys
drop-append zero xs ys h = refl
drop-append (suc n) [] ys h = absurd (omega arith)
drop-append (suc n) (x ∷ xs) ys h = drop-append n xs ys (omega arith)

-- A window that is not empty keeps what was taken last.
window-append :
    (max : ℕ) (xs : List SessionSnapshot) (x : SessionSnapshot)
    → 0 < max
    → (n : ℕ) × (window max (xs ++ x ∷ []) ≡ drop n xs ++ x ∷ [])
unfolding window last_n
window-append max xs x h = elim (Bool-cases (ltb max (length (xs ++ x ∷ [])))) [
  | inl e ↦
      let n = length (xs ++ x ∷ []) - max in
      (n, rw e (ground (arith, drop-append n xs (x ∷ []), length-append xs (x ∷ []))))
  | inr e ↦ (0, rw e refl)
]

latest_state-last :
    (d : Dict String String) (xs : List SessionSnapshot) (x : SessionSnapshot)
    → latest_state d (xs ++ x ∷ []) ≡ x.state
latest_state-last d [] x = refl
latest_state-last d (y ∷ xs) x = latest_state-last y.state xs x

-- What a session holds, where there is one
abbrev pub state_of : Option SessionState → Option (Dict String String)
state_of none = none
state_of (some s) = some s.state

create_snapshot-Shows :
    (w : World) (m : SessionStateManager) (id reason : String) (tenant : Option String)
    (s : SessionState)
    → get m.sessions id ≡ some s
    → s.session_id ≡ id
    → permitted tenant s ≡ true
    → let m1 = (create_snapshot w m id reason tenant).0 in Shows id tenant m1 m1 (get s.state)
unfolding create_snapshot create_snapshot_internal visible
create_snapshot-Shows w m id reason tenant s found named may =
    let s' = touched (w.clock 0) s in
    rw (found, visible, may, create_snapshot)
      (record {
        session = s';
        found = ground (arith, get-put m.sessions id id s', ==_iff id id);
        may = permitted-same tenant s s' refl may;
        holds = λ k. refl;
        snapshots = refl;
        limit = refl;
        named = named;
      })

create_snapshot-snapshots :
    (w : World) (m : SessionStateManager) (id reason : String) (tenant : Option String)
    (s : SessionState)
    → get m.sessions id ≡ some s
    → s.session_id ≡ id
    → permitted tenant s ≡ true
    → get_or (create_snapshot w m id reason tenant).0.snapshots id []
      ≡ window m.max_snapshots_per_session (
          get_or m.snapshots id []
          ++ new_snapshot w (w.clock 1) (touched (w.clock 0) s) reason ∷ [])
unfolding create_snapshot create_snapshot_internal visible
create_snapshot-snapshots w m id reason tenant s found named may =
    let s' = touched (w.clock 0) s in
    rw (found, visible, may, create_snapshot, named)
      (ground (
        arith,
        get_or-put m.snapshots id id
            (window m.max_snapshots_per_session
              (get_or m.snapshots id [] ++ new_snapshot w (w.clock 1) s' reason ∷ []))
            [],
        ==_iff id id,
      ))

restore_snapshot-Shows :
    (safe_id : String → String) (w : World) (start m : SessionStateManager) (view : View)
    (id snapshot_id : String) (tenant : Option String) (actor : String) (target : SessionSnapshot)
    → Shows id tenant start m view
    → find_snapshot snapshot_id (get_or start.snapshots id []) ≡ some target
    → (state_of (restore_snapshot safe_id w m id snapshot_id tenant actor).1 ≡ some target.state)
      × (state_of (get (restore_snapshot safe_id w m id snapshot_id tenant actor).0.sessions id)
          ≡ some target.state)
unfolding restore_snapshot create_snapshot_internal
restore_snapshot-Shows safe_id w start m view id snapshot_id tenant actor target h f =
    let f' = ap (λ d. find_snapshot snapshot_id (get_or d id [])) h.snapshots ∙ f in
    rw (visible-Shows id tenant start m view h, f', restore_snapshot)
      (
        refl,
        ap (λ d. state_of (get d id)) (log_change-rest _ _).0
            ∙ ap state_of (get-put_self m.sessions id _),
      )

resume_session-Shows :
    (safe_id : String → String) (w : World) (start m : SessionStateManager) (view : View)
    (id : String) (tenant : Option String) (actor : String) (before : List SessionSnapshot)
    (newest : SessionSnapshot)
    → Shows id tenant start m view
    → get_or start.snapshots id [] ≡ before ++ newest ∷ []
    → (state_of (resume_session safe_id w m id tenant actor).1 ≡ some newest.state)
      × (state_of (get (resume_session safe_id w m id tenant actor).0.sessions id)
          ≡ some newest.state)
unfolding resume_session
resume_session-Shows safe_id w start m view id tenant actor before newest h f =
    let f' = ap (λ d. get_or d id []) h.snapshots ∙ f in
    let e =
      ap some
        (ap (latest_state h.session.state) f' ∙ latest_state-last h.session.state before newest) in
    rw (visible-Shows id tenant start m view h, resume_session)
      (
        e,
        ap (λ d. state_of (get d id)) (log_change-rest _ _).0
            ∙ ap state_of (get-put_self m.sessions id _)
            ∙ e,
      )

-- Where a snapshot of a session is taken, kept (the manager keeps at least one, and no kept snapshot
-- of the session has the new id), then the session is read and updated in any way, and then the
-- snapshot is restored, the session is given back with the state that it had, and it is stored so.
pub restore_snapshot-create_snapshot :
    (safe_id : String → String) (w w' : World) (m : SessionStateManager) (id reason : String)
    (tenant : Option String) (actor : String) (s : SessionState) (calls : List Call)
    → get m.sessions id ≡ some s
    → s.session_id ≡ id
    → permitted tenant s ≡ true
    → 0 < m.max_snapshots_per_session
    → find_snapshot (text_append "snap_" w.snapshot_uuid) (get_or m.snapshots id []) ≡ none
    → let m1 = (create_snapshot w m id reason tenant).0 in
      let m2 = run safe_id id tenant m1 calls in
      let restored =
        restore_snapshot safe_id w' m2 id (text_append "snap_" w.snapshot_uuid) tenant actor in
      (state_of restored.1 ≡ some s.state) × (state_of (get restored.0.sessions id) ≡ some s.state)
unfolding new_snapshot
restore_snapshot-create_snapshot safe_id w w' m id reason tenant actor s calls found named may
      positive fresh =
    let m1 = (create_snapshot w m id reason tenant).0 in
    let taken = new_snapshot w (w.clock 1) (touched (w.clock 0) s) reason in
    let snap_id = text_append "snap_" w.snapshot_uuid in
    let olds = get_or m.snapshots id [] in
    let (n, e) = window-append m.max_snapshots_per_session olds taken positive in
    let f =
      ap (find_snapshot snap_id)
        (create_snapshot-snapshots w m id reason tenant s found named may ∙ e)
      ∙ find_snapshot-last snap_id (drop n olds) taken (find_snapshot-drop snap_id n olds fresh)
          refl in
    let (later, h) =
      run-Shows safe_id id tenant m1 calls m1 (get s.state)
        (create_snapshot-Shows w m id reason tenant s found named may) in
    restore_snapshot-Shows safe_id w' m1 _ later id snap_id tenant actor taken h f

-- `resume_session` gives a session that the caller may see the state of its newest snapshot, also
-- where the session was read and updated in any way after that snapshot: the updates are lost.
pub resume_session_loses :
    (safe_id : String → String) (w : World) (m : SessionStateManager) (id : String)
    (tenant : Option String) (actor : String) (s : SessionState) (calls : List Call)
    (before : List SessionSnapshot) (newest : SessionSnapshot)
    → get m.sessions id ≡ some s
    → s.session_id ≡ id
    → permitted tenant s ≡ true
    → get_or m.snapshots id [] ≡ before ++ newest ∷ []
    → let resumed = resume_session safe_id w (run safe_id id tenant m calls) id tenant actor in
      (state_of resumed.1 ≡ some newest.state)
      × (state_of (get resumed.0.sessions id) ≡ some newest.state)
resume_session_loses safe_id w m id tenant actor s calls before newest found named may f =
    let (later, h) = run-Shows safe_id id tenant m calls m (get s.state) (record {
      session = s;
      found = found;
      may = may;
      holds = λ k. refl;
      snapshots = refl;
      limit = refl;
      named = named;
    }) in
    resume_session-Shows safe_id w m _ later id tenant actor before newest h f
