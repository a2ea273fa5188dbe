-- ===== src/Realtime/Recipients.antt =====
-- `deliver` of delivery.ts: exactly whom an event reaches.
use Prim.Native.String.{String}
use critical_path_api.Prelude.{
  ℕ, ◌≡◌, refl, ◌∙◌, inl, inr, Bool, true, false, not, ◌&&◌, ◌||◌, List, [], ◌∷◌, Option, none,
  some, foldl, arith, nat_eq, string_eq, if◌then◌else◌, filter, any, contains, contains-filter,
  Unique, add, contains-add, Option-cases,
}
use critical_path_api.Authorization.{Tables}
use critical_path_api.Realtime.{SocketState, Realtime, get_socket_state, authed_socket_entries}
use critical_path_api.Realtime.Registry.{Consistent}
use critical_path_api.Realtime.Deliver.{
  EventType, user_updated, other_event, BusEntry, distinct_user_ids, deliver_user_updated,
  deliver_project_scoped, send_to, deliver,
}
use critical_path_api.Realtime.Sent.{distinct_user_ids-authed, contains-distinct_user_ids}
use critical_path_api.Realtime.Delivered.{
  TablesOk, scoped, addressed, receives, send_to-authed, deliver_project_scoped-scoped,
}

contains-add_all :
    (ids allowed : List String) (user : String)
    → contains (foldl (λ allowed user. add user allowed) allowed ids) user
      ≡ (contains allowed user || contains ids user)
unfolding contains
contains-add_all [] allowed user = ground arith
contains-add_all (id ∷ ids) allowed user =
    ground (arith, contains-add_all ids (add id allowed) user, contains-add id user allowed)

authed-asked :
    (r : Realtime) (t : ℕ) (state : SocketState)
    → get_socket_state t r ≡ some state
    → any (λ entry. string_eq.beq entry.1.user_id state.user_id) (authed_socket_entries r) ≡ true
unfolding get_socket_state authed_socket_entries
authed-asked r t state n = distinct_user_ids-authed r.socket_states t state n

-- The three-way choice that `deliver` makes.
choose {ℓ} :
    {A : Type ℓ}
    → Bool
    → Option (List String)
    → EventType
    → A
    → (List String → A)
    → (String → A)
    → A
choose editors_only recipients type project users user =
    if editors_only then project else elim recipients [
      | some ids ↦ users ids
      | none ↦ elim type [ user_updated changed ↦ user changed | other_event ↦ project ]
    ]

-- Two such choices are related if what they choose from is.
choose-related {ℓ κ} :
    {A : Type ℓ} {B : Type κ} (R : A → B → Type 0)
    → (editors_only : Bool) (recipients : Option (List String)) (type : EventType)
    → {project : A} {users : List String → A} {user : String → A}
    → {project' : B} {users' : List String → B} {user' : String → B} → R project project'
    → ((ids : List String) → R (users ids) (users' ids))
    → ((changed : String) → R (user changed) (user' changed))
    → R
        (choose editors_only recipients type project users user)
        (choose editors_only recipients type project' users' user')
unfolding choose
choose-related R true recipients type p us u = p
choose-related R false (some ids) type p us u = us ids
choose-related R false none (user_updated changed) p us u = u changed
choose-related R false none other_event p us u = p

module _ (is_open : ℕ → Bool) (project_sharer_ids_among : String → List String → List String)
    (shares : String → String → Bool)
    (sharers : (changed user : String) (candidates : List String)
      → contains (project_sharer_ids_among changed candidates) user
        ≡ (contains candidates user && shares changed user)) where
  deliver_user_updated-shares :
      (changed : String) (r : Realtime) (t : ℕ)
      → Unique r.socket_states
      → contains (deliver_user_updated is_open project_sharer_ids_among changed r) t
        ≡ elim (get_socket_state t r) [
          | none ↦ false
          | some state ↦
              is_open t && (string_eq.beq state.user_id changed || shares changed state.user_id)
        ]
  unfolding deliver_user_updated
  deliver_user_updated-shares changed r t u =
      let user_ids = distinct_user_ids (authed_socket_entries r) in
      let own : String → Bool = λ user. string_eq.beq user changed in
      let allowed = filter own user_ids in
      let asked : String → Bool = λ user. not (contains allowed user) in
      let unresolved = filter asked user_ids in
      let ids = project_sharer_ids_among changed unresolved in
      rw
        (
          deliver_user_updated,
          send_to-authed is_open project_sharer_ids_among shares
              (foldl (λ allowed user. add user allowed) allowed ids) r t u,
        )
        (elim (Option-cases (get_socket_state t r)) [
          | inl n ↦ rw (n) refl
          | inr (state, n) ↦
              rw
                (
                  n,
                  contains-add_all ids allowed state.user_id,
                  sharers changed state.user_id unresolved,
                  contains-filter asked user_ids state.user_id,
                  contains-filter own user_ids state.user_id,
                  contains-distinct_user_ids (authed_socket_entries r) state.user_id,
                  authed-asked r t state n,
                )
                (ground arith)
        ])

  -- Every branch sends by one of three rules, so what each sends to a socket decides the whole.
  deliver-branches :
      (db : Tables) (entry : BusEntry) (r : Realtime) (t : ℕ) (state : SocketState)
      → contains (deliver_project_scoped is_open project_sharer_ids_among db entry r) t
        ≡ (is_open t && scoped db entry r t state)
      → ((ids : List String)
          → contains (send_to is_open project_sharer_ids_among (authed_socket_entries r) ids) t
            ≡ (contains ids state.user_id && is_open t))
      → ((changed : String)
          → contains (deliver_user_updated is_open project_sharer_ids_among changed r) t
            ≡ (is_open t && (string_eq.beq state.user_id changed || shares changed state.user_id)))
      → contains (deliver is_open project_sharer_ids_among db entry r) t
        ≡ (is_open t && addressed is_open project_sharer_ids_among shares db entry r t state)
  unfolding deliver addressed choose
  deliver-branches db entry r t state of_project of_users of_user =
      choose-related (λ sent verdict. contains sent t ≡ (is_open t && verdict)) entry.editors_only
        entry.recipient_user_ids entry.type of_project (λ ids. of_users ids ∙ ground arith) of_user

  deliver-stateless :
      (db : Tables) (entry : BusEntry) (r : Realtime) (t : ℕ)
      → contains (deliver_project_scoped is_open project_sharer_ids_among db entry r) t ≡ false
      → ((ids : List String)
          → contains (send_to is_open project_sharer_ids_among (authed_socket_entries r) ids) t
            ≡ false)
      → ((changed : String)
          → contains (deliver_user_updated is_open project_sharer_ids_among changed r) t ≡ false)
      → contains (deliver is_open project_sharer_ids_among db entry r) t ≡ false
  unfolding deliver choose
  deliver-stateless db entry r t of_project of_users of_user =
      choose-related {B = Unit {0}} (λ sent _. contains sent t ≡ false) entry.editors_only
        entry.recipient_user_ids entry.type {project' = tt} {users' = λ _. tt} {user' = λ _. tt}
        of_project of_users of_user

  -- Where the rooms and the subscription sets agree, the tables have their primary keys, and the
  -- query for sharers finds exactly those asked about who share a project, an event reaches a
  -- socket exactly if it is open, has a state and is addressed. An event for editors addresses
  -- the sockets in the room of its project, or all if it is broadcast, whose user is named, if
  -- recipients are, and can see the project as an editor. Any other event that names recipients
  -- addresses all sockets of these, with no check of room or access. One that names none
  -- addresses, if it is an update of a user, that user and those who share a project with them,
  -- and else the sockets in the room of its project, or all if it is broadcast, whose user can
  -- see the project.
  pub deliver-receives :
      (db : Tables) (entry : BusEntry) (r : Realtime) (t : ℕ)
      → TablesOk db
      → Consistent r
      → contains (deliver is_open project_sharer_ids_among db entry r) t
        ≡ receives is_open project_sharer_ids_among shares db entry r t
  unfolding receives
  deliver-receives db entry r t ok k =
      let u = k.sockets_unique in
      let of_project =
        deliver_project_scoped-scoped is_open project_sharer_ids_among shares db entry r t ok u in
      elim (Option-cases (get_socket_state t r)) [
        | inl n ↦
            rw (n, receives)
              (deliver-stateless db entry r t (of_project ∙ rw (n) refl)
                (λ ids.
                  send_to-authed is_open project_sharer_ids_among shares ids r t u ∙ rw (n) refl)
                (λ changed. deliver_user_updated-shares changed r t u ∙ rw (n) refl))
        | inr (state, n) ↦
            rw (n, receives)
              (deliver-branches db entry r t state (of_project ∙ rw (n) refl)
                (λ ids.
                  send_to-authed is_open project_sharer_ids_among shares ids r t u ∙ rw (n) refl)
                (λ changed. deliver_user_updated-shares changed r t u ∙ rw (n) refl))
      ]
