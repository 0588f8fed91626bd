-- ===== src/Gateway/Roles.antt =====
-- transcription.gateway.ts: a meeting's producer keeps its place for as long as it is connected.
use nangman_note.Base.{
  ℕ, String, true, false, Option, none, some, List, [], ◌∷◌, ◌≡◌, refl, arith, str_eq, str_eq_refl,
  or_else, Bool-cases, inl, inr, eq_iff,
}
use nangman_note.Gateway.{Hall, put}
use nangman_note.Gateway.Sockets.{
  AuthContext, admit, leave, leave_with, left, release_producer, register_socket_auth_expiry, has,
  add_to_set, delete_from_set, is_empty,
}
use nangman_note.Gateway.Kept.{expiry-SameRoles}
use nangman_note.Gateway.Audio.{is_connected}

has-add : (p x : String) (xs : List String) → has p xs ≡ true → has p (add_to_set x xs) ≡ true
has-add p x xs h = ground arith

has-delete :
    (p x : String) (xs : List String)
    → str_eq x p ≡ false
    → has p xs ≡ true
    → has p (delete_from_set x xs) ≡ true
has-delete p x [] e h = h
has-delete p x (y ∷ ys) e h =
    ground (arith, has-delete p x ys e, eq_iff p y, eq_iff x y, str_eq_refl p)

has-filled : (p : String) (xs : List String) → has p xs ≡ true → is_empty xs ≡ false
has-filled p [] h = cc
has-filled p (x ∷ xs) h = refl

put_clients-connected :
    (p key m : String) (c : Option (List String)) (f : String → Option (List String))
    → (m ≡ key → is_connected p c ≡ true)
    → is_connected p (f m) ≡ true
    → is_connected p (put key c f m) ≡ true
put_clients-connected p key m c f h k = elim (Bool-cases (str_eq m key)) [
  | inl e ↦ rw e (h ((eq_iff m key).0 e))
  | inr e ↦ rw e k
]

connected-add :
    (p x : String) (o : Option (List String))
    → is_connected p o ≡ true
    → is_connected p (some (add_to_set x (or_else o []))) ≡ true
connected-add p x none h = cc
connected-add p x (some xs) h = has-add p x xs h

module _ {S : Type 0} where
  -- The socket is the meeting's producer, and connected.
  pub record IsProducer (p m : String) (h : Hall S) : Type 0 where
    pub is_producer : h.meeting_producers m ≡ some p
    pub connected : is_connected p (h.meeting_clients m) ≡ true

  pub same-IsProducer :
      (p m : String) (h h' : Hall S)
      → h'.meeting_producers ≡ h.meeting_producers
      → h'.meeting_clients ≡ h.meeting_clients
      → IsProducer p m h
      → IsProducer p m h'
  same-IsProducer p m h h' e f i = record {
    is_producer = rw e i.is_producer;
    connected = rw f i.connected;
  }

  pub admit-IsProducer :
      (p m socket meeting : String) (auth : AuthContext) (now : ℕ) (h : Hall S)
      → IsProducer p m h
      → IsProducer p m (admit socket meeting auth now h)
  unfolding admit
  admit-IsProducer p m socket meeting auth now h i =
      let users = record h { socket_users = put socket (some auth.owner_sub) h.socket_users } in
      let h2 = register_socket_auth_expiry socket auth.expires_at_ms now users in
      let ((e, f), g) = expiry-SameRoles socket auth.expires_at_ms now users in
      let connected2 : is_connected p (h2.meeting_clients m) ≡ true = rw g i.connected in
      record {
        is_producer = rw e i.is_producer;
        connected =
            put_clients-connected p meeting m _ h2.meeting_clients
              (λ s. connected-add p socket (h2.meeting_clients meeting) (rw s at connected2))
              connected2;
      }

  released-IsProducer :
      (p m socket meeting : String) (h : Hall S)
      → str_eq socket p ≡ false
      → IsProducer p m h
      → IsProducer p m (release_producer socket meeting h)
  unfolding release_producer
  released-IsProducer p m socket meeting h n i = elim (Bool-cases (str_eq m meeting)) [
    | inl e ↦
        let same : m ≡ meeting = (eq_iff m meeting).0 e in
        record {
          is_producer = grind (arith, i.is_producer, same, eq_iff p socket, eq_iff socket p);
          connected = ground (arith, i.connected);
        }
    | inr e ↦ record {
      is_producer = ground (arith, i.is_producer);
      connected = ground (arith, i.connected);
    }
  ]

  leave_with-IsProducer :
      (p m socket meeting : String) (o : Option (List String)) (h : Hall S)
      → str_eq socket p ≡ false
      → o ≡ h.meeting_clients meeting
      → IsProducer p m h
      → IsProducer p m (leave_with socket meeting o h)
  unfolding leave_with
  leave_with-IsProducer p m socket meeting none h n e i = i
  leave_with-IsProducer p m socket meeting (some clients) h n e i =
      let rest = delete_from_set socket clients in
      let stays : m ≡ meeting → has p rest ≡ true =
        λ s. has-delete p socket clients n (grind (arith, e, s, i.connected)) in
      elim (Bool-cases (is_empty rest)) [
        | inl b ↦ rw b (record {
          is_producer = i.is_producer;
          connected =
              put_clients-connected p meeting m none h.meeting_clients
                (λ s. grind (arith, b, has-filled p rest (stays s))) i.connected;
        })
        | inr b ↦ rw b (record {
          is_producer = i.is_producer;
          connected =
              put_clients-connected p meeting m (some rest) h.meeting_clients stays i.connected;
        })
      ]

  pub left-IsProducer :
      (p m : String) (o : Option String) (socket : String) (h : Hall S)
      → str_eq socket p ≡ false
      → IsProducer p m h
      → IsProducer p m (left o socket h)
  unfolding leave
  left-IsProducer p m none socket h n i = i
  left-IsProducer p m (some meeting) socket h n i =
      let h2 = release_producer socket meeting h in
      leave_with-IsProducer p m socket meeting (h2.meeting_clients meeting) h2 n refl
        (released-IsProducer p m socket meeting h n i)
