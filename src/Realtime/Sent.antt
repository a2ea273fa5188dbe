-- ===== src/Realtime/Sent.antt =====
-- Who is allowed to receive an event, and who is a candidate: the two sides of delivery.ts.
use Prim.Native.String.{String}
use text.Mathlib.TextEquality.{eq_iff}
use critical_path_api.Prelude.{
  ℕ, ◌≡◌, Bool, true, false, not, ◌&&◌, ◌||◌, List, [], ◌∷◌, Option, none, some, foldl, arith,
  nat_eq, string_eq, ==_iff, filter, any, contains, contains-filter, Map, lookup, Unique, add,
  contains-add,
}
use critical_path_api.Authorization.{Tables, normalize_project_role, created_by_user}
use critical_path_api.Realtime.{SocketState, Realtime, get_socket_state}
use critical_path_api.Realtime.Deliver.{
  Candidates, distinct_user_ids, with_state, is_editor, allow_members, unresolved_rows, is_named,
}

user_of : ℕ × SocketState → String
user_of entry = entry.1.user_id

contains-user_ids :
    (ids : List String) (candidates : Candidates) (user : String)
    → contains (foldl (λ ids entry. add entry.1.user_id ids) ids candidates) user
      ≡ (contains ids user || any (λ entry. string_eq.beq entry.1.user_id user) candidates)
unfolding any
contains-user_ids ids [] user = ground arith
contains-user_ids ids (entry ∷ candidates) user = ground (
  arith,
  contains-user_ids (add entry.1.user_id ids) candidates user,
  contains-add entry.1.user_id user ids,
)

-- The user of a candidate is among the users that are asked about.
pub distinct_user_ids-authed :
    (states : Map ℕ SocketState) (t : ℕ) (state : SocketState)
    → lookup t states ≡ some state
    → any (λ entry. string_eq.beq entry.1.user_id state.user_id) states ≡ true
unfolding any lookup
distinct_user_ids-authed [] t state h = ground arith
distinct_user_ids-authed ((j, other) ∷ states) t state h =
    ground (arith, distinct_user_ids-authed states t state, eq_iff other.user_id state.user_id)

pub distinct_user_ids-room :
    (r : Realtime) (room : List ℕ) (t : ℕ) (state : SocketState)
    → contains room t ≡ true
    → get_socket_state t r ≡ some state
    → any (λ entry. string_eq.beq entry.1.user_id state.user_id) (with_state r room) ≡ true
unfolding any contains with_state
distinct_user_ids-room r [] t state h e = ground arith
distinct_user_ids-room r (s ∷ room) t state h e = ground (
  arith,
  distinct_user_ids-room r room t state,
  eq_iff state.user_id state.user_id,
  e,
  ==_iff s t,
)

pub contains-distinct_user_ids :
    (candidates : Candidates) (user : String)
    → contains (distinct_user_ids candidates) user
      ≡ any (λ entry. string_eq.beq entry.1.user_id user) candidates
unfolding distinct_user_ids contains
contains-distinct_user_ids candidates user = contains-user_ids [] candidates user

-- A member's row counts if it is an editor's or if any role will do.
unfoldable pub counts : Bool → String → Bool
counts editors_only role = not editors_only || is_editor (normalize_project_role role)

contains-allow_members :
    (editors_only : Bool) (rows : List (String × String)) (allowed : List String) (user : String)
    → contains (allow_members editors_only rows allowed) user ≡ (
        contains allowed user
        || any (λ row. string_eq.beq row.0 user && counts editors_only row.1) rows)
unfolding allow_members any counts
contains-allow_members editors_only [] allowed user = ground arith
contains-allow_members editors_only (row ∷ rows) allowed user = ground (
  arith,
  contains-allow_members editors_only rows allowed user,
  contains-allow_members editors_only rows (add row.0 allowed) user,
  contains-add row.0 user allowed,
)

any-unresolved :
    (editors_only : Bool) (unresolved : List String) (members : Map String String) (user : String)
    → Unique members
    → any
        (λ row. string_eq.beq row.0 user && counts editors_only row.1)
        (filter (λ row. contains unresolved row.0) members)
      ≡ (contains unresolved user
          && elim (lookup user members) [ none ↦ false | some role ↦ counts editors_only role ])
unfolding any filter lookup
any-unresolved editors_only unresolved [] user u = ground arith
any-unresolved editors_only unresolved ((j, role) ∷ members) user u =
    ground (arith, any-unresolved editors_only unresolved members user u.1, eq_iff j user)

-- Who is allowed of the users that are asked about: those named, if any are, who made the project or
-- have a row that counts.
pub contains-allowed :
    (db : Tables) (project : String) (owner : Option String) (named : Option (List String))
    → (editors_only : Bool) (users : List String) (user : String)
    → Unique (db.project_members project)
    → let asked = filter (is_named named) users in
      let allowed = filter (λ u. created_by_user owner u) asked in
      contains
        (allow_members editors_only
          (unresolved_rows db project (filter (λ u. not (contains allowed u)) asked))
          allowed)
        user
      ≡ (contains users user
          && (is_named named user
              && (created_by_user owner user || elim (lookup user (db.project_members project)) [
                | none ↦ false
                | some role ↦ counts editors_only role
              ])))
unfolding unresolved_rows
contains-allowed db project owner named editors_only users user u =
    let asked = filter (is_named named) users in
    let allowed = filter (λ u. created_by_user owner u) asked in
    let unresolved = filter (λ u. not (contains allowed u)) asked in
    ground (
      arith,
      contains-allow_members editors_only (unresolved_rows db project unresolved) allowed user,
      any-unresolved editors_only unresolved (db.project_members project) user u,
      contains-filter (is_named named) users user,
      contains-filter (λ u. created_by_user owner u) asked user,
      contains-filter (λ u. not (contains allowed u)) asked user,
    )
