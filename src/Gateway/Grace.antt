-- ===== src/Gateway/Grace.antt =====
-- transcription.gateway.ts: a meeting's session outlives a short loss of its last socket.
use nangman_note.Base.{
  ℕ, String, Bool, true, false, Option, none, some, List, [], ◌∷◌, ◌≡◌, refl, arith, or_else,
  str_eq, eq_iff, Bool-cases, inl, inr,
}
use nangman_note.Gateway.{Hall, put}
use nangman_note.Gateway.Sockets.{
  AuthContext, left, admit, leave, leave_with, release_producer, register_socket_auth_expiry,
  register_expiry, unregister_socket_auth_expiry, disconnect_expired_socket, is_empty,
  delete_from_set, add_to_set,
}

abbrev pub IsFilled : Option (List String) → Bool → Type 0
IsFilled none pending = Unit
IsFilled (some clients) pending = (is_empty clients ≡ false) × (pending ≡ false)

add_to_set-filled : (x : String) (xs : List String) → is_empty (add_to_set x xs) ≡ false
add_to_set-filled x [] = refl
add_to_set-filled x (y ∷ xs) = ground arith

put_both-IsFilled :
    (clients : Option (List String)) (pending : Bool) (f : String → Option (List String))
    (g : String → Bool) (key m : String)
    → IsFilled clients pending
    → IsFilled (f m) (g m)
    → IsFilled (put key clients f m) (put key pending g m)
put_both-IsFilled clients pending f g key m h k = elim (Bool-cases (str_eq m key)) [
  | inl e ↦ rw e h
  | inr e ↦ rw e k
]

put_clients-IsFilled :
    (clients : Option (List String)) (f : String → Option (List String)) (g : String → Bool)
    (key m : String)
    → IsFilled clients (g key)
    → IsFilled (f m) (g m)
    → IsFilled (put key clients f m) (g m)
put_clients-IsFilled clients f g key m h k = elim (Bool-cases (str_eq m key)) [
  | inl e ↦ let same : m ≡ key = (eq_iff m key).0 e in rw (e, same) h
  | inr e ↦ rw e k
]

unarmed :
    (o : Option (List String)) (clients : List String) (pending : Bool)
    → some clients ≡ o
    → IsFilled o pending
    → pending ≡ false
unarmed none clients pending e f = ground arith
unarmed (some xs) clients pending e (p, q) = q

pub disarmed-IsFilled :
    (o : Option (List String)) (g : String → Bool) (key m : String)
    → IsFilled o (g m)
    → IsFilled o (put key false g m)
disarmed-IsFilled none g key m f = tt
disarmed-IsFilled (some clients) g key m (p, q) = (p, ground arith)

-- The sets and timers of the gateway that matter here.
module _ {S : Type 0} where
  -- A meeting with a set of sockets has one in it, and no timer is to end its session.
  pub record IsTidy (h : Hall S) : Type 0 where
    pub filled :
        (meeting : String) → IsFilled (h.meeting_clients meeting) (h.pending_session_stops meeting)

  abbrev pub Same : Hall S → Hall S → Type 0
  Same h h' =
      (h'.meeting_clients ≡ h.meeting_clients)
      × (h'.pending_session_stops ≡ h.pending_session_stops)

  pub Same-IsTidy : (h h' : Hall S) → Same h h' → IsTidy h → IsTidy h'
  Same-IsTidy h h' (c, p) t = record { filled = λ m. rw (c, p) (t.filled m) }

  expiry-Same :
      (socket : String) (at : Option ℕ) (now : ℕ) (h : Hall S)
      → Same h (register_socket_auth_expiry socket at now h)
  unfolding register_socket_auth_expiry register_expiry unregister_socket_auth_expiry
      disconnect_expired_socket
  expiry-Same socket none now h = (refl, refl)
  expiry-Same socket (some at) now h = ground arith

  admit_to-IsTidy :
      (socket meeting : String) (h : Hall S)
      → IsTidy h
      → IsTidy (record h {
        meeting_clients =
            put meeting
              (some (add_to_set socket (or_else (h.meeting_clients meeting) [])))
              h.meeting_clients;
        pending_session_stops = put meeting false h.pending_session_stops;
      })
  admit_to-IsTidy socket meeting h t = record {
    filled = λ m.
        put_both-IsFilled (some (add_to_set socket (or_else (h.meeting_clients meeting) []))) false
          h.meeting_clients h.pending_session_stops meeting m
          (add_to_set-filled socket (or_else (h.meeting_clients meeting) []), refl) (t.filled m);
  }

  pub admit-IsTidy :
      (socket meeting : String) (auth : AuthContext) (now : ℕ) (h : Hall S)
      → IsTidy h
      → IsTidy (admit socket meeting auth now h)
  unfolding admit
  admit-IsTidy socket meeting auth now h t =
      let users = record h { socket_users = put socket (some auth.owner_sub) h.socket_users } in
      let h2 = register_socket_auth_expiry socket auth.expires_at_ms now users in
      let t2 : IsTidy h2 =
        Same-IsTidy users h2 (expiry-Same socket auth.expires_at_ms now users)
          (record { filled = t.filled }) in
      record { filled = (admit_to-IsTidy socket meeting h2 t2).filled }

  leave_with-IsTidy :
      (socket meeting : String) (o : Option (List String)) (h : Hall S)
      → o ≡ h.meeting_clients meeting
      → IsTidy h
      → IsTidy (leave_with socket meeting o h)
  unfolding leave_with
  leave_with-IsTidy socket meeting none h e t = t
  leave_with-IsTidy socket meeting (some clients) h e t =
      let rest = delete_from_set socket clients in
      elim (Bool-cases (is_empty rest)) [
        | inl b ↦ rw b (record {
          filled = λ m.
              put_both-IsFilled none true h.meeting_clients h.pending_session_stops meeting m tt
                (t.filled m);
        })
        | inr b ↦ rw b (record {
          filled = λ m.
              put_clients-IsFilled (some rest) h.meeting_clients h.pending_session_stops meeting m
                (
                  b,
                  unarmed (h.meeting_clients meeting) clients (h.pending_session_stops meeting) e
                      (t.filled meeting),
                )
                (t.filled m);
        })
      ]

  release-Same : (socket meeting : String) (h : Hall S) → Same h (release_producer socket meeting h)
  unfolding release_producer
  release-Same socket meeting h = ground arith

  pub leave-IsTidy :
      (socket meeting : String) (h : Hall S) → IsTidy h → IsTidy (leave socket meeting h)
  unfolding leave
  leave-IsTidy socket meeting h t =
      let h2 = release_producer socket meeting h in
      leave_with-IsTidy socket meeting (h2.meeting_clients meeting) h2 refl
        (Same-IsTidy h h2 (release-Same socket meeting h) t)

  pub left-IsTidy :
      (o : Option String) (socket : String) (h : Hall S) → IsTidy h → IsTidy (left o socket h)
  left-IsTidy none socket h t = t
  left-IsTidy (some meeting) socket h t = leave-IsTidy socket meeting h t
