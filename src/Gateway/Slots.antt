-- ===== src/Gateway/Slots.antt =====
-- The slots for connections that the tracker gives out.
use photon_kernel_sil.Prelude.{
  ℕ, ◌+◌, ◌≤◌, String, Bool, true, false, not, ◌&&◌, List, [], ◌∷◌, ◌++◌, some, ◌≡◌, ◌⊎◌, inl, inr,
  refl, sym, ap, ◌∙◌, arith, ltb, leb, ◌==◌, nat_eq, string_eq, ==_iff, any, keep, length,
  length-append, Option-cases, Bool-cases, if◌then◌else◌,
}
use photon_kernel_sil.Prelude.Dict.{get_or-none, Dict, get, get_or, put, get-put, get_or-put}
use photon_kernel_sil.Gateway.Tracker.{
  ConnectionTracker, add, discard, active_count, expire, try_acquire, release,
}

-- The connections of a sandbox
abbrev pub connections : ConnectionTracker → String → List String
connections t sandbox_id = get_or t.active sandbox_id []

length-add : (ids : List String) (id : String) → length (add ids id) ≤ length ids + 1
unfolding add
length-add ids id = elim (Bool-cases (any (λ i. i == id) ids)) [
  | inl e ↦ rw e (omega arith)
  | inr e ↦ rw e (omega (arith, length-append ids (id ∷ [])))
]

length-keep : (p : String → Bool) (ids : List String) → length (keep p ids) ≤ length ids
length-keep p [] = omega arith
length-keep p (i ∷ ids) = ground (arith, length-keep p ids)

length-discard : (ids : List String) (id : String) → length (discard ids id) ≤ length ids
unfolding discard
length-discard ids id = length-keep (λ i. not (i == id)) ids

-- No sandbox has more connections than the limit.
abbrev pub Within : ConnectionTracker → Type 0
Within t = (sandbox_id : String) → active_count t sandbox_id ≤ t.max_per_sandbox

-- A sandbox below both limits gets a slot, and no other does.
abbrev pub acquirable : ConnectionTracker → String → ℕ → Bool
acquirable t sandbox_id now =
    ltb (active_count t sandbox_id) t.max_per_sandbox
    && ltb (length (expire now (get_or t.recent sandbox_id []))) t.max_new_per_sec

-- What a try does: it is refused and gives nobody a slot, or it is granted and adds the connection.
pub try_acquire-cases :
    (now : ℕ) (t : ConnectionTracker) (sandbox_id conn_id : String)
    → (((try_acquire now t sandbox_id conn_id).1 ≡ false)
        × (acquirable t sandbox_id now ≡ false)
        × ((try_acquire now t sandbox_id conn_id).0.active ≡ t.active))
      ⊎ (((try_acquire now t sandbox_id conn_id).1 ≡ true)
          × (acquirable t sandbox_id now ≡ true)
          × ((try_acquire now t sandbox_id conn_id).0.active
              ≡ put t.active sandbox_id (add (connections t sandbox_id) conn_id)))
unfolding try_acquire
try_acquire-cases now t sandbox_id conn_id =
    elim (Bool-cases (leb t.max_per_sandbox (active_count t sandbox_id))) [
      | inl full ↦ inl (ground arith, ground arith, ground arith)
      | inr free ↦
          elim (Bool-cases
            (leb t.max_new_per_sec (length (expire now (get_or t.recent sandbox_id []))))) [
              | inl fast ↦ inl (ground arith, ground arith, ground arith)
              | inr slow ↦ inr (ground arith, ground arith, ground arith)
            ]
    ]

try_acquire_limit :
    (now : ℕ) (t : ConnectionTracker) (sandbox_id conn_id : String)
    → (try_acquire now t sandbox_id conn_id).0.max_per_sandbox ≡ t.max_per_sandbox
unfolding try_acquire
try_acquire_limit now t sandbox_id conn_id = ground arith

-- What the two methods do to the connections of every sandbox
pub connections-put :
    (t : ConnectionTracker) (d : Dict String (List String)) (k s : String) (ids : List String)
    → d ≡ put t.active k ids
    → get_or d s [] ≡ (if k == s then ids else connections t s)
connections-put t d k s ids e = rw e (get_or-put t.active k s ids [])

pub try_acquire-Within :
    (now : ℕ) (t : ConnectionTracker) (sandbox_id conn_id : String)
    → Within t
    → Within (try_acquire now t sandbox_id conn_id).0
unfolding active_count
try_acquire-Within now t sandbox_id conn_id within s =
    elim (try_acquire-cases now t sandbox_id conn_id) [
      | inl (refused, full, e) ↦ rw (e, try_acquire_limit now t sandbox_id conn_id) (within s)
      | inr (granted, free, e) ↦
          let after = connections-put t _ sandbox_id s _ e in
          rw (after, try_acquire_limit now t sandbox_id conn_id)
            (ground
              (arith, within s, length-add (connections t sandbox_id) conn_id, ==_iff sandbox_id s))
    ]

pub release_cases :
    (t : ConnectionTracker) (sandbox_id conn_id s : String)
    → connections (release t sandbox_id conn_id) s
      ≡ (if sandbox_id == s then discard (connections t s) conn_id else connections t s)
unfolding release get_or discard
release_cases t sandbox_id conn_id s = elim (Option-cases (get t.active sandbox_id)) [
  | inl e ↦ elim (Bool-cases (sandbox_id == s)) [
    | inl here ↦
        let same = (==_iff sandbox_id s).0 here in
        let nothing = get_or-none t.active s [] (ap (get t.active) (sym same) ∙ e) in
        rw (here, e, release, nothing) refl
    | inr there ↦ rw (there, e, release) refl
  ]
  | inr (ids, e) ↦ elim (Bool-cases (sandbox_id == s)) [
    | inl here ↦
        let same = (==_iff sandbox_id s).0 here in
        let found : get t.active s ≡ some ids = ap (get t.active) (sym same) ∙ e in
        rw (e, release) (ground (arith, get-put t.active sandbox_id s (discard ids conn_id)))
    | inr there ↦
        rw (e, release) (ground (arith, get-put t.active sandbox_id s (discard ids conn_id)))
  ]
]

release_limit :
    (t : ConnectionTracker) (sandbox_id conn_id : String)
    → (release t sandbox_id conn_id).max_per_sandbox ≡ t.max_per_sandbox
unfolding release
release_limit t sandbox_id conn_id = ground arith

pub release-Within :
    (t : ConnectionTracker) (sandbox_id conn_id : String)
    → Within t
    → Within (release t sandbox_id conn_id)
unfolding active_count
release-Within t sandbox_id conn_id within s =
    rw (release_cases t sandbox_id conn_id s, release_limit t sandbox_id conn_id)
      (ground (arith, within s, length-discard (connections t s) conn_id))

discard-absent :
    (ids : List String) (id : String) → any (λ i. i == id) ids ≡ false → discard ids id ≡ ids
unfolding discard
discard-absent [] id h = refl
discard-absent (i ∷ ids) id h = ground (arith, discard-absent ids id)

pub discard-append :
    (ids : List String) (id : String)
    → any (λ i. i == id) ids ≡ false
    → discard (ids ++ id ∷ []) id ≡ ids
unfolding discard
discard-append [] id h = ground (arith, ==_iff id id)
discard-append (i ∷ ids) id h = ground (arith, discard-append ids id)
