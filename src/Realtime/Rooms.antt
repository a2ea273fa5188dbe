-- ===== src/Realtime/Rooms.antt =====
-- What each operation of realtime/state.ts does to the rooms and to the subscription sets.
use Prim.Native.String.{String}
use text.Mathlib.TextEquality.{eq_iff}
use critical_path_api.Prelude.{
  ℕ, ◌<◌, ◌≡◌, refl, inl, inr, Bool, false, not, ◌&&◌, ◌||◌, List, [], ◌∷◌, none, some, foldl,
  arith, nat_eq, string_eq, ◌==◌, if◌then◌else◌, length, contains, Distinct, Map, lookup, insert,
  delete, lookup-insert, lookup-delete, add, remove, add_some, contains-add, contains-remove,
  add-Distinct, remove-Distinct, Option-cases,
}
use critical_path_api.Realtime.{join_room, leave_room}

abbrev pub same : String → String → Bool
same = string_eq.beq

-- The sockets of a project's room, which is not kept while it is empty.
unfoldable pub members : Map String (List ℕ) → String → List ℕ
members rooms project = elim (lookup project rooms) [ none ↦ [] | some room ↦ room ]

-- Every room that is kept has a socket, and no socket twice.
abbrev pub RoomsOk : Map String (List ℕ) → Type 0
RoomsOk rooms =
    (p : String) (room : List ℕ) → lookup p rooms ≡ some room → (0 < length room) × Distinct room

members-insert :
    (p q : String) (room : List ℕ) (rooms : Map String (List ℕ))
    → members (insert p room rooms) q ≡ (if same p q then room else members rooms q)
unfolding members
members-insert p q room rooms = rw (lookup-insert p q room rooms, members) (ground arith)

members-delete :
    (p q : String) (rooms : Map String (List ℕ))
    → members (delete p rooms) q ≡ (if same p q then [] else members rooms q)
unfolding members
members-delete p q rooms = rw (lookup-delete p q rooms, members) (ground arith)

members-none :
    (p : String) (rooms : Map String (List ℕ)) → lookup p rooms ≡ none → members rooms p ≡ []
unfolding members
members-none p rooms e = rw (e, members) refl

members-some :
    (p : String) (room : List ℕ) (rooms : Map String (List ℕ))
    → lookup p rooms ≡ some room
    → members rooms p ≡ room
unfolding members
members-some p room rooms e = rw (e, members) refl

contains-empty : (xs : List ℕ) (t : ℕ) → length xs ≡ 0 → contains xs t ≡ false
unfolding contains
contains-empty [] t h = refl
contains-empty (x ∷ xs) t h = ground arith

pub members-join_room :
    (s t : ℕ) (p q : String) (rooms : Map String (List ℕ))
    → contains (members (join_room s p rooms) q) t
      ≡ ((same p q && s == t) || contains (members rooms q) t)
unfolding join_room contains
members-join_room s t p q rooms = elim (Option-cases (lookup p rooms)) [
  | inl e ↦
      rw (e, join_room)
        (ground (arith, members-insert p q (s ∷ []) rooms, members-none p rooms e, eq_iff p q))
  | inr (room, e) ↦
      rw (e, join_room)
        (ground (
          arith,
          members-insert p q (add s room) rooms,
          members-some p room rooms e,
          contains-add s t room,
          eq_iff p q,
        ))
]

pub members-leave_room :
    (s t : ℕ) (p q : String) (rooms : Map String (List ℕ))
    → contains (members (leave_room s rooms p) q) t
      ≡ (not (same p q && s == t) && contains (members rooms q) t)
unfolding leave_room contains
members-leave_room s t p q rooms = elim (Option-cases (lookup p rooms)) [
  | inl e ↦ rw (e, leave_room) (ground (arith, members-none p rooms e, eq_iff p q))
  | inr (room, e) ↦
      rw (e, leave_room)
        (ground (
          arith,
          members-some p room rooms e,
          contains-remove s t room,
          contains-empty (remove s room) t,
          eq_iff p q,
          members-delete p q rooms,
          members-insert p q (remove s room) rooms,
        ))
]

pub members-leave_rooms :
    (s t : ℕ) (ps : List String) (q : String) (rooms : Map String (List ℕ))
    → contains (members (foldl (leave_room s) rooms ps) q) t
      ≡ (not (contains ps q && s == t) && contains (members rooms q) t)
unfolding contains
members-leave_rooms s t [] q rooms = ground arith
members-leave_rooms s t (p ∷ ps) q rooms =
    ground
      (arith, members-leave_rooms s t ps q (leave_room s rooms p), members-leave_room s t p q rooms)

pub join_room-RoomsOk :
    (s : ℕ) (p : String) (rooms : Map String (List ℕ))
    → RoomsOk rooms
    → RoomsOk (join_room s p rooms)
unfolding contains join_room
join_room-RoomsOk s p rooms ok q room' = elim (Option-cases (lookup p rooms)) [
  | inl e ↦ rw (e, join_room) (ground (arith, lookup-insert p q (s ∷ []) rooms, ok q room'))
  | inr (room, e) ↦
      rw (e, join_room)
        (ground (
          arith,
          lookup-insert p q (add s room) rooms,
          ok q room',
          ok p room,
          add_some s room,
          add-Distinct s room,
        ))
]

pub leave_room-RoomsOk :
    (s : ℕ) (p : String) (rooms : Map String (List ℕ))
    → RoomsOk rooms
    → RoomsOk (leave_room s rooms p)
unfolding leave_room
leave_room-RoomsOk s p rooms ok q room' = elim (Option-cases (lookup p rooms)) [
  | inl e ↦ rw (e, leave_room) (ground (arith, ok q room'))
  | inr (room, e) ↦
      rw (e, leave_room)
        (ground (
          arith,
          lookup-insert p q (remove s room) rooms,
          lookup-delete p q rooms,
          ok q room',
          ok p room,
          remove-Distinct s room,
        ))
]

pub leave_rooms-RoomsOk :
    (s : ℕ) (ps : List String) (rooms : Map String (List ℕ))
    → RoomsOk rooms
    → RoomsOk (foldl (leave_room s) rooms ps)
leave_rooms-RoomsOk s [] rooms ok = ok
leave_rooms-RoomsOk s (p ∷ ps) rooms ok =
    leave_rooms-RoomsOk s ps (leave_room s rooms p) (leave_room-RoomsOk s p rooms ok)
