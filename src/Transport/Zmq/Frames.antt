-- ===== src/Transport/Zmq/Frames.antt =====
-- What the ZMQ patterns put on the wire, and where.
use iron_babel.Base.{◌≡◌, refl, ap, ◌↔◌, ◌⊎◌, Option, none, some, [], ◌∷◌, ◌++◌, inl, inr, false, ℕ}
use iron_babel.Text.{Str, text, starts_with, strip_prefix}
use iron_babel.Error.{ok, >>=-eq-ok}
use iron_babel.Transport.{Call}
use iron_babel.Transport.Zmq.{
  to_tcp_addr, replace_prefix, ZmqMessage, msg_to_bytes, Socket, map_err, connect_and_send,
  receive_reply, forward_req_rep, topic_frame, forward_pub,
}

-- Whatever the address in the configuration, a socket is given a tcp:// address; with zmq://, with
-- tcp:// and without a scheme the same host gives the same address.
pub to_tcp_addr_lem :
    (host : Str)
    → starts_with (text "zmq://") host ≡ false
    → starts_with (text "tcp://") host ≡ false
    → (to_tcp_addr host ≡ text "tcp://" ++ host)
      × (to_tcp_addr (text "zmq://" ++ host) ≡ text "tcp://" ++ host)
      × (to_tcp_addr (text "tcp://" ++ host) ≡ text "tcp://" ++ host)
unfolding to_tcp_addr replace_prefix strip_prefix starts_with text
to_tcp_addr_lem host zmq tcp = (rw (zmq, tcp) refl, refl, refl)

-- The socket takes the message at the address.
abbrev pub IsSent : Socket → Str → ZmqMessage → Type 0
IsSent socket addr message = (socket.connect addr ≡ inr tt) × (socket.send message ≡ inr tt)

map_err_iff :
    {T : Type 0} (label : Str) (r : Str ⊎ T) (t : T) → (map_err label r ≡ ok t) ↔ (r ≡ inr t)
map_err_iff label (inl e) t = (λ h. cc, λ h. cc)
map_err_iff label (inr u) t = (λ h. cc, λ h. cc)

connect_and_send_iff :
    (socket : Socket) (addr : Str) (message : ZmqMessage)
    → (connect_and_send socket addr message ≡ ok tt) ↔ IsSent socket addr message
unfolding connect_and_send
connect_and_send_iff socket addr message = (
  λ h.
      let (_, c, s) = >>=-eq-ok (map_err _ (socket.connect addr)) _ h in
      ((map_err_iff _ (socket.connect addr) tt).0 c, (map_err_iff _ (socket.send message) tt).0 s),
  λ s. rw (s.0, s.1) refl,
)

receive_reply_iff :
    (addr : Str) (secs : ℕ) (call : Call ZmqMessage) (reply : ZmqMessage)
    → (receive_reply addr secs call ≡ ok reply) ↔ (call ≡ some (inr reply))
unfolding receive_reply
receive_reply_iff addr secs none reply = (λ h. cc, λ h. cc)
receive_reply_iff addr secs (some (inl e)) reply = (λ h. cc, λ h. cc)
receive_reply_iff addr secs (some (inr r)) reply = (λ h. cc, λ h. cc)

-- REQ/REP ends with a body exactly when the socket takes the request as one frame and answers within
-- the time limit; the body is the reply's frames one after the other.
pub forward_req_rep_iff :
    (socket : Socket) (target body : Str) (secs : ℕ) (answer : Str)
    → (forward_req_rep socket target body secs ≡ ok answer) ↔ (
        IsSent socket (to_tcp_addr target) (body ∷ [])
        × ((reply : ZmqMessage) × (socket.recv secs ≡ some (inr reply))
            × (msg_to_bytes reply ≡ answer)))
unfolding forward_req_rep
forward_req_rep_iff socket target body secs answer = (
  λ h.
      let (_, sent, h1) =
        >>=-eq-ok (connect_and_send socket (to_tcp_addr target) (body ∷ [])) _ h in
      let (reply, received, h2) =
        >>=-eq-ok (receive_reply (to_tcp_addr target) secs (socket.recv secs)) _ h1 in
      (
        (connect_and_send_iff socket _ _).0 sent,
        (reply, (receive_reply_iff _ secs (socket.recv secs) reply).0 received, cc h2),
      ),
  λ p.
      let (sent, (reply, received, e)) = p in
      rw
        (
          (connect_and_send_iff socket (to_tcp_addr target) (body ∷ [])).1 sent,
          (receive_reply_iff (to_tcp_addr target) secs (socket.recv secs) reply).1 received,
        )
        (ap ok e),
)

-- PUB ends without an error exactly when the socket takes two frames, of which the first is the
-- topic and the second the body; without a topic the first frame is empty.
pub forward_pub_iff :
    (socket : Socket) (target body : Str) (topic : Option Str)
    → (forward_pub socket target body topic ≡ ok tt)
      ↔ IsSent socket (to_tcp_addr target) (topic_frame topic ∷ body ∷ [])
unfolding forward_pub
forward_pub_iff socket target body topic = connect_and_send_iff socket _ _
