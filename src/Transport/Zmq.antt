-- ===== src/Transport/Zmq.antt =====
-- src/gateway/zmq.rs: the three patterns that forward a request, and the listener that pulls.
pub mod Frames
use iron_babel.Base.{
  ℕ, Bool, true, false, Option, none, some, List, [], ◌∷◌, ◌++◌, ◌⊎◌, inl, inr, if◌then◌else◌,
}
use iron_babel.Text.{Str, text, decimal, starts_with, strip_prefix}
use iron_babel.Error.{Error, Result, Checked, ok, err, ◌>>=◌}
use iron_babel.Config.Types.{ZmqPullListenerConfig}
use iron_babel.Upstream.{UpstreamRequest}
use iron_babel.Transport.{Call, post, Session, running, over, before, Round, listen}

-- `replacen(from, to, 1)` of a text that begins with `from`.
unfoldable pub replace_prefix : Str → Str → Str → Str
replace_prefix from to s = elim (strip_prefix from s) [ none ↦ s | some rest ↦ to ++ rest ]

unfoldable pub to_tcp_addr : Str → Str
to_tcp_addr addr =
    if starts_with (text "zmq://") addr
    then replace_prefix (text "zmq://") (text "tcp://") addr
    else if starts_with (text "tcp://") addr
    then addr
    else text "tcp://" ++ addr

-- A message as its frames.
abbrev pub ZmqMessage : Type 0
ZmqMessage = List Str

unfoldable pub msg_to_bytes : ZmqMessage → Str
msg_to_bytes [] = []
msg_to_bytes (frame ∷ frames) = frame ++ msg_to_bytes frames

-- A socket of the zeromq crate with what it answers to the address and the message; the errors are
-- texts. `recv` is what `recv()` gives within the time limit.
pub record Socket : Type 0 where
  pub connect : Str → Str ⊎ Unit {0}
  pub send : ZmqMessage → Str ⊎ Unit {0}
  pub recv : ℕ → Call ZmqMessage

-- `.map_err(|e| Error::Protocol(format!("{label}{e}")))`
abbrev pub map_err {ℓ} : {T : Type ℓ} → Str → Str ⊎ T → Result T
map_err label (inl e) = err (Error.protocol (label ++ e))
map_err label (inr t) = ok t

unfoldable pub connect_and_send : Socket → Str → ZmqMessage → Checked
connect_and_send socket addr message = do
  _ ← map_err (text "ZMQ connect failed (" ++ (addr ++ text "): ")) (socket.connect addr)
  map_err (text "ZMQ send failed: ") (socket.send message)

unfoldable pub receive_reply : Str → ℕ → Call ZmqMessage → Result ZmqMessage
receive_reply addr timeout_secs none = err (
    Error.protocol (
      text "ZMQ REQ/REP timeout after "
      ++ (decimal timeout_secs ++ (text "s waiting for reply from " ++ addr))))
receive_reply addr timeout_secs (some answer) = map_err (text "ZMQ recv failed: ") answer

unfoldable pub forward_req_rep : Socket → Str → Str → ℕ → Result Str
forward_req_rep socket target body timeout_secs = do
  let addr = to_tcp_addr target
  _ ← connect_and_send socket addr (body ∷ [])
  reply ← receive_reply addr timeout_secs (socket.recv timeout_secs)
  ok (msg_to_bytes reply)

unfoldable pub forward_push : Socket → Str → Str → Checked
forward_push socket target body = connect_and_send socket (to_tcp_addr target) (body ∷ [])

-- `topic.unwrap_or("")`
unfoldable pub topic_frame : Option Str → Str
topic_frame none = []
topic_frame (some topic) = topic

unfoldable pub forward_pub : Socket → Str → Str → Option Str → Checked
forward_pub socket target body topic =
    connect_and_send socket (to_tcp_addr target) (topic_frame topic ∷ body ∷ [])

unfoldable pub pull_post : Str → ZmqMessage → UpstreamRequest
pull_post http_target msg =
    post http_target ((text "x-zmq-source", text "ironbabel-pull-listener") ∷ []) (msg_to_bytes msg)

-- The loop over `socket.recv()`.
unfoldable pub pull : Str → List (Str ⊎ ZmqMessage) → Session UpstreamRequest
pull http_target [] = running
pull http_target (inl e ∷ received) = over
pull http_target (inr msg ∷ received) =
    before (pull_post http_target msg) (pull http_target received)

-- What a PULL socket meets: how binding ends, and what it receives.
pub record PullSocket : Type 0 where
  pub bind : Str → Call (Unit {0})
  pub received : List (Str ⊎ ZmqMessage)

unfoldable pub run_pull_session : ZmqPullListenerConfig → PullSocket → Session UpstreamRequest
run_pull_session config socket = elim (socket.bind (to_tcp_addr config.bind)) [
  | none ↦ running
  | some (inl e) ↦ over
  | some (inr _) ↦ pull config.forward_to socket.received
]

unfoldable pub run_pull_listener :
    ZmqPullListenerConfig → List (Round PullSocket) → Session UpstreamRequest
run_pull_listener config rounds = listen (run_pull_session config) rounds
